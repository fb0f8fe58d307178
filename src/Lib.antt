-- ===== src/Lib.antt =====
-- The caOS kernel: a model of its processes, scheduler, semaphores, pipes, two memory managers and
-- string functions, and of its shell.
--
-- Parts and how they interact. A process runs until the timer or a blocking call gives the processor
-- to another one: the scheduler (Kernel/processes_scheduler/scheduler.c, module Sched) keeps the
-- table of processes and chooses the next. Semaphores (Kernel/semaphores/semaphores.c, module Sem)
-- block and unblock processes through it, and take memory for their names. A pipe
-- (Kernel/pipes/pipe.c, module Pipe) is a ring of 1024 bytes with two semaphores that count its full
-- and its free places. The string functions of Kernel/lib/lib.c are in Text, its memset and memcpy
-- in Bytes, and what the modules use of a memory manager is the interface Alloc. The two managers,
-- of which one is compiled in, are the module Memory (Kernel/memory/memoryManagement.c, a free list,
-- which fills the interface) and the module Buddy (Kernel/memory/buddyMemoryManagement.c, blocks
-- that are halved and joined). The headers of their blocks are functions of the address.
--
-- Processes with their stacks, names, arguments and children
-- (Kernel/processes_scheduler/processes.c) are in Proc: they are created and killed over the
-- scheduler, the pipes and the memory manager; what they hold is read off a record of the manager's
-- calls (Proc/Ledger), which any manager can be given. The shell (Userland/SampleCodeModule/shell.c
-- and lib/shellUtils.c, module Shell) turns the keys of a line into a process or two; it lives in
-- user space, so the values of its system calls are a parameter. The dining philosophers
-- (Userland/SampleCodeModule/programs/phylo.c) are in Phylo, as steps on the table they share. The
-- keyboard driver (Kernel/drivers/keyboardDriver.c) is the module Keyboard: its buffer, the
-- processes that wait for a key, and the handler, which can end processes. Convert has the
-- conversions between numbers and texts of user space (Userland/SampleCodeModule/lib/utils.c and
-- tests/test_util.c); the least `int`, whose sign cannot be changed, is kept as it comes out there.
-- Clock has the time of day (Kernel/syscalls/syscallHandler.c) and the timer
-- (Kernel/drivers/time.c): what the hardware clock shows and how many ticks each halt lasts are
-- parameters, and a wait has one round more than the ticks it waits for.
--
-- State. The static variables of a C file are the fields of one record (Sched, Sems, Pipes, Procs).
-- Sems holds the scheduler and the heap, and Pipes holds the semaphores, because their calls change
-- these. A call takes the state and returns its result with the new state. C arrays that are indexed
-- by an `int` are functions of an integer, and their values outside the array's bounds stand for the
-- memory beside it. An address is a number, 0 for NULL, and error codes are integers.
--
-- Waiting. A call that gives the processor up ends there: `sem_wait` returns `asleep`, with the
-- stack pointer that the processor goes to, and `sem_wait_resume` is what the process does when it
-- runs again. `none` stands for a spin lock that can never be taken (interrupts are off in a system
-- call), for a write outside an array, and for the use of a pointer that was never set.
--
-- Numbers. Unsigned counters wrap at their width, `int` codes do not overflow. A semaphore's value
-- is a natural number: no call lets it fall below 0, and an `int` holds it below 2 ^ 31. Loops over
-- a table of fixed size recur on the rounds left; `get_next_ready` has 15 rounds, and its search is
-- proved to cover the table within them. The loops over the free list have one round more than the
-- heap has bytes, which is enough for blocks that are not empty and do not overlap. The loops of the
-- buddy manager double or halve a size, so that the 64 rounds of a word are enough. `int_to_str` has
-- the magnitude of its number as fuel: each round divides it by the base.
--
-- Not modelled: what users of memory write into their blocks, printing, the video and sound drivers,
-- the interrupt glue in assembly, the boot loader and most of the user programs. Stack frames are
-- modelled by their size alone.
pub mod Base
pub mod Samples
pub mod Alloc
pub mod Bytes
pub mod Buddy
pub mod Memory
pub mod Text
pub mod Sched
pub mod Sem
pub mod Pipe
pub mod Proc
pub mod Keyboard
pub mod Clock
pub mod Shell
pub mod Phylo
pub mod Convert
