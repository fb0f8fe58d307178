-- ===== src/Proc/Leaks.antt =====
-- create_process and kill of processes.c together: who holds which memory.
use tp2_sistemas_operativos.Base.{
  ℕ, zero, suc, ◌+◌, ◌<◌, ◌≤◌, ◌≡◌, ◌≢◌, refl, sym, ap, ◌∙◌, ◌⊎◌, inl, inr, arith, Bool, true,
  false, ◌||◌, not, Option, none, some, List, [], ◌∷◌, ℤ, pos, minus1, eq_ℤ, ltb_ℤ, ltb, ◌==◌,
  ==_iff, pos_part, length, take, Bool-cases, max_processes, is_slot,
}
use tp2_sistemas_operativos.Alloc.{Allocator}
use tp2_sistemas_operativos.Text.{Text}
use tp2_sistemas_operativos.Sched.Control.{get_pid}
use tp2_sistemas_operativos.Proc.{
  Procs, ProcessS, sched_of, set_process, set_child, add_child, find_pid,
}
use tp2_sistemas_operativos.Proc.Create.{
  CreateInfo, Taken, take_memory, free_args, count_of, with_heap, slot_loop, name_validation,
  new_process, enter_process, create_named, create_process,
}
use tp2_sistemas_operativos.Proc.Kill.{kill, free_blocks}
use tp2_sistemas_operativos.Proc.Heap.{heap_of, freed, remove_process-heap}
use tp2_sistemas_operativos.Proc.Ledger.{
  Traced, times, traced, traced_free, traced_free-null, Gives, GivesBack, free-GivesBack,
}
use tp2_sistemas_operativos.Proc.Balance.{addresses, Takes, free_args-GivesBack}
use tp2_sistemas_operativos.Proc.Takes.{take_memory-Takes}
use tp2_sistemas_operativos.Proc.Fresh.{
  IsFresh, blocks_of, length-texts, length-wanted, new_process-IsFresh, new_process-times,
}

-- The search ends at a slot that no process uses, or behind the last one.
slot_loop-Free :
    (arr : ℤ → ProcessS) (left i : ℕ)
    → (slot_loop arr left i ≡ i + left)
      ⊎ ((slot_loop arr left i < i + left) × ((arr (pos (slot_loop arr left i))).stack_end ≡ 0))
unfolding slot_loop
slot_loop-Free arr zero i = inl (omega arith)
slot_loop-Free arr (suc left) i = elim (Bool-cases ((arr (pos i)).stack_end == 0)) [
  | inl unused ↦ rw unused (inr (omega arith, (==_iff (arr (pos i)).stack_end 0).0 unused))
  | inr used ↦ rw used (elim (slot_loop-Free arr left (i + 1)) [
    | inl full ↦ inl (omega (arith, full))
    | inr (lt, free_slot) ↦ inr (omega (arith, lt), free_slot)
  ])
]

-- create_process fails and gives all that it took back, or the process has its memory.
pub record Failed (A : Allocator) (st : Procs (Traced A.Heap)) (info : CreateInfo)
    (r : ℤ × Procs (Traced A.Heap)) : Type 0 where
  pub code : r.0 ≡ minus1
  pub heap_after : Traced A.Heap
  pub only_heap : r.1 ≡ with_heap (traced A) st heap_after
  pub gives : Gives (heap_of st) heap_after []

pub record Created (A : Allocator) (st : Procs (Traced A.Heap)) (info : CreateInfo)
    (r : ℤ × Procs (Traced A.Heap)) : Type 0 where
  pub pid : ℕ
  pub code : r.0 ≡ pos pid
  pub in_table : pid < max_processes
  pub was_unused : (st.process_arr (pos pid)).stack_end ≡ 0
  pub name : Text
  pub named : info.name ≡ some name
  pub fresh : IsFresh info name (get_pid (sched_of st)) (r.1.process_arr (pos pid))
  pub gives : Gives (heap_of st) (heap_of r.1) (blocks_of (r.1.process_arr (pos pid)))

abbrev pub Creates :
    (A : Allocator) → Procs (Traced A.Heap) → CreateInfo → ℤ × Procs (Traced A.Heap) → Type 0
Creates A st info r = Failed A st info r ⊎ Created A st info r

within :
    (pid : ℕ) (others : Bool)
    → (not (ltb pid max_processes) || others) ≡ false
    → pid < max_processes
within pid others h = ground arith

take_all : (l : List (Text × ℕ)) → take (length l) l ≡ l
take_all [] = refl
take_all (x ∷ l) = ap (λ (r : List (Text × ℕ)). x ∷ r) (take_all l)

module _ (A : Allocator) where
  open A use {Heap}

  nothing_taken : (st : Procs (Traced Heap)) (info : CreateInfo) → Failed A st info (minus1, st)
  nothing_taken st info = record {
    code = refl;
    heap_after = heap_of st;
    only_heap = refl;
    gives = record { same_wild = refl; gained = λ a. omega arith };
  }

  enter-Creates :
      (st : Procs (Traced Heap)) (info : CreateInfo) (name : Text) (pid : ℕ)
      (r : Option Taken × Traced Heap)
      → info.name ≡ some name
      → pid < max_processes
      → (st.process_arr (pos pid)).stack_end ≡ 0
      → Takes info (heap_of st) r
      → Creates A st info (elim r.0 [
        | none ↦ (minus1, with_heap (traced A) st r.1)
        | some t ↦ enter_process (traced A) (with_heap (traced A) st r.1) info name t pid
      ])
  unfolding enter_process new_process set_process add_child set_child
  enter-Creates st info name pid (none, l) named lt unused g =
      inl (record { code = refl; heap_after = l; only_heap = refl; gives = g })
  enter-Creates st info name pid (some t, l) named lt unused all =
      let st' = with_heap (traced A) st l in
      let parent = get_pid (sched_of st) in
      inr (record {
        pid = pid;
        code = refl;
        in_table = lt;
        was_unused = unused;
        name = name;
        named = named;
        fresh = new_process-IsFresh A st' info name t parent (pos pid) (heap_of st) l all;
        gives = record {
          same_wild = all.gives.same_wild;
          gained = λ a.
              omega
                (arith, all.gives.gained a, new_process-times A st' info name t parent (pos pid) a);
        };
      })

  create_named-Creates :
      (st : Procs (Traced Heap)) (info : CreateInfo) (pid : ℕ) (name : Option Text)
      → info.name ≡ name
      → pid < max_processes
      → (st.process_arr (pos pid)).stack_end ≡ 0
      → Creates A st info (create_named (traced A) st info pid name)
  unfolding create_named
  create_named-Creates st info pid none e lt unused = inl (nothing_taken st info)
  create_named-Creates st info pid (some name) e lt unused =
      enter-Creates st info name pid (take_memory (traced A) info name st.pipes.sems.heap) e lt
        unused (take_memory-Takes A info name (heap_of st))

  -- Over any memory manager, create_process returns a process in a slot that had none, or -1. In the first
  -- case the entry has the name, copies of the arguments in their order, the flag, the parent and no memory
  -- of its own, and exactly its stack, its name, its array of arguments if there are any, and its arguments
  -- are in use beside the blocks that were. In the second case the same blocks are in use as before, and
  -- nothing but the memory manager has changed. In both cases no address was freed that was not in use.
  pub create_process-Creates :
      (st : Procs (Traced Heap)) (info : CreateInfo)
      → Creates A st info (create_process (traced A) st info)
  unfolding create_process
  create_process-Creates st info =
      let pid = slot_loop st.process_arr max_processes 0 in
      let others = ltb_ℤ info.argc (pos 0) || not (name_validation info.name) in
      elim (Bool-cases (not (ltb pid max_processes) || others)) [
        | inl bad ↦ rw bad (inl (nothing_taken st info))
        | inr fine ↦ rw fine (elim (slot_loop-Free st.process_arr max_processes 0) [
          | inl full ↦ absurd (omega (arith, within pid others fine, full))
          | inr (lt, unused) ↦ create_named-Creates st info pid info.name refl lt unused
        ])
      ]

  -- What `kill` frees of a process that was just created: all but the array of its arguments.
  freed-GivesBack :
      (p : ProcessS) (l : Traced Heap) (info : CreateInfo) (name : Text) (parent : ℤ)
      → IsFresh info name parent p
      → ((a : ℕ) → times a (blocks_of p) ≤ times a l.in_use)
      → GivesBack l (freed (traced A) p l) (p.stack_end ∷ p.name.1 ∷ addresses p.args)
  unfolding freed free_blocks
  freed-GivesBack p l info name parent f there =
      let inner = traced_free A p.memory (free_blocks (traced A) p.blocks l) in
      let nothing : inner ≡ l =
        ap (λ (b : List ℕ). traced_free A p.memory (free_blocks (traced A) b l)) f.blocks
        ∙ ap (λ (m : ℕ). traced_free A m l) f.memory
        ∙ traced_free-null A l in
      let long : count_of p.argc ≡ length p.args =
        ap count_of f.argc
        ∙ sym (length-wanted info.argv 0 (count_of info.argc))
        ∙ ap (λ (t : List Text). length t) (sym f.args_texts)
        ∙ length-texts p.args in
      let all : take (count_of p.argc) p.args ≡ p.args =
        ap (λ (n : ℕ). take n p.args) long ∙ take_all p.args in
      let l1 = free_args (traced A) p.args l in
      let same : free_args (traced A) (take (count_of p.argc) p.args) inner ≡ l1 =
        ap (λ (r : List (Text × ℕ)). free_args (traced A) r inner) all
        ∙ ap (λ (h : Traced Heap). free_args (traced A) p.args h) nothing in
      let f1 = free_args-GivesBack A p.args l (λ a. omega (arith, there a)) in
      let f2 =
        free-GivesBack A p.stack_end l1 (omega (arith, there p.stack_end, f1.lost p.stack_end)) in
      let l2 = traced_free A p.stack_end l1 in
      let f3 =
        free-GivesBack A p.name.1 l2
          (omega (arith, there p.name.1, f1.lost p.name.1, f2.lost p.name.1)) in
      rw same (record {
        same_wild = f3.same_wild ∙ f2.same_wild ∙ f1.same_wild;
        lost = λ a. omega (arith, f1.lost a, f2.lost a, f3.lost a);
      })

  kill-freed :
      (st : Procs (Traced Heap)) (pid : ℕ)
      → 0 < pid
      → pid < max_processes
      → (st.process_arr (pos pid)).stack_end ≢ 0
      → ((kill (traced A) st (pos pid)).0 ≡ pos 0)
        × (heap_of (kill (traced A) st (pos pid)).1
            ≡ freed (traced A) (st.process_arr (pos pid)) (heap_of st))
  unfolding kill find_pid is_slot eq_ℤ
  kill-freed st pid nonzero lt set =
      let found : (eq_ℤ (pos pid) (pos 0) || not (find_pid st (pos pid))) ≡ false = ground arith in
      rw found (refl, remove_process-heap (traced A) st (pos pid))

  -- What the creation and the killing of a process leave: one block, or none.
  abbrev pub Leaves : Procs (Traced Heap) → CreateInfo → ProcessS → ℤ × Procs (Traced Heap) → Type 0
  Leaves st info p r =
      (r.0 ≡ pos 0)
      × (Gives (heap_of st) (heap_of r.1) (p.argv ∷ [])
          × ((eq_ℤ info.argc (pos 0) ≡ true → p.argv ≡ 0)
              × (eq_ℤ info.argc (pos 0) ≡ false → p.argv ≢ 0)))

  created-Leaves :
      (st : Procs (Traced Heap)) (info : CreateInfo) (pid : ℕ) (r : ℤ × Procs (Traced Heap))
      → r.0 ≡ pos pid
      → 0 < pid
      → Creates A st info r
      → Leaves st info (r.1.process_arr (pos pid)) (kill (traced A) r.1 (pos pid))
  created-Leaves st info pid r code nonzero (inl f) = absurd (ground (arith, code, f.code))
  created-Leaves st info pid r code nonzero (inr c) =
      let same : c.pid ≡ pid = ap pos_part (sym c.code ∙ code) in
      let lt : pid < max_processes = omega (arith, same, c.in_table) in
      let p = r.1.process_arr (pos pid) in
      let fresh : IsFresh info c.name (get_pid (sched_of st)) p = rw same at (c.fresh) in
      let g : Gives (heap_of st) (heap_of r.1) (blocks_of p) = rw same at (c.gives) in
      let (zero_code, heap) = kill-freed r.1 pid nonzero lt fresh.stack_set in
      let b =
        freed-GivesBack p (heap_of r.1) info c.name (get_pid (sched_of st)) fresh
          (λ a. omega (arith, g.gained a)) in
      (
        zero_code,
        (
          rw heap (record {
            same_wild = b.same_wild ∙ g.same_wild;
            gained = λ a. omega (arith, g.gained a, b.lost a);
          }),
          (fresh.argv_null, fresh.argv_set),
        ),
      )

  -- Over any memory manager: when a process that create_process returned is killed before it does anything,
  -- kill returns 0, frees no address that is not in use, and of the blocks of the process exactly the array
  -- of its arguments stays in use. There is such an array if and only if the process has arguments.
  pub create-kill_leaks :
      (st : Procs (Traced Heap)) (info : CreateInfo) (pid : ℕ)
      → (create_process (traced A) st info).0 ≡ pos pid
      → 0 < pid
      → Leaves st info
          ((create_process (traced A) st info).1.process_arr (pos pid))
          (kill (traced A) (create_process (traced A) st info).1 (pos pid))
  create-kill_leaks st info pid created nonzero =
      created-Leaves st info pid (create_process (traced A) st info) created nonzero
        (create_process-Creates st info)
