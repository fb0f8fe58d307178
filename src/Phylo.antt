-- ===== src/Phylo.antt =====
-- The dining philosophers of Userland/SampleCodeModule/programs/phylo.c. The processes share the table
-- and change it only while they hold the semaphore `phylo_mutex`, so what one does between its wait and its
-- post is one step. `Runs` has the sequences of these steps.
pub mod Steps
pub mod Runs
mod Tests
use tp2_sistemas_operativos.Base.{
  ℕ, zero, suc, ◌+◌, ◌-◌, ◌%◌, Bool, true, false, ◌&&◌, ◌||◌, not, List, [], ◌∷◌, ℤ, pos, negsuc,
  minus1, ltb_ℤ, ltb, leb, ◌==◌, if◌then◌else◌, update_at,
}

-- `State`
pub data State : Type 0 where
  nobody thinking hungry eating : State

abbrev pub is_eating : State → Bool
is_eating eating = true
is_eating _ = false

abbrev pub is_hungry : State → Bool
is_hungry hungry = true
is_hungry _ = false

-- `philosopher_t`
pub record Philosopher : Type 0 where
  pub pid : ℤ
  pub state : State
  pub prev : State
  pub sem : ℤ

abbrev pub max_philosophers : ℕ
max_philosophers = 10

abbrev pub min_philosophers : ℕ
min_philosophers = 3

-- The static variables. `posts` counts the posts to the semaphore of each philosopher.
pub record Feast : Type 0 where
  pub philosophers : ℕ → Philosopher
  pub num_philosophers : ℕ
  pub posts : ℕ → ℕ

abbrev pub state_of : Feast → ℕ → State
state_of t id = (t.philosophers id).state

-- `LEFT` and `RIGHT`
unfoldable pub left : ℕ → ℕ → ℕ
left num id = (id + num - 1) % num

unfoldable pub right : ℕ → ℕ → ℕ
right num id = (id + 1) % num

unfoldable pub set_state : Feast → ℕ → State → Feast
set_state t id s = record t {
  philosophers = update_at t.philosophers id (record (t.philosophers id) { state = s });
}

unfoldable pub set_prev : Feast → ℕ → State → Feast
set_prev t id s = record t {
  philosophers = update_at t.philosophers id (record (t.philosophers id) { prev = s });
}

-- Whether one of the philosophers from `i` on has begun or ended to eat since the table was shown.
unfoldable pub changed_loop : Feast → ℕ → ℕ → Bool
changed_loop t zero i = false
changed_loop t (suc rest) i =
    let p = t.philosophers i in
    let later = changed_loop t rest (i + 1) in
    (is_eating p.state && not (is_eating p.prev))
    || (not (is_eating p.state) && is_eating p.prev)
    || later

unfoldable pub show_loop : Feast → ℕ → ℕ → Feast
show_loop t zero i = t
show_loop t (suc rest) i = show_loop (set_prev t i (state_of t i)) rest (i + 1)

-- What `display_table` prints is left out; it keeps what it has shown.
unfoldable pub display_table : Feast → Feast
display_table t =
    if ltb t.num_philosophers min_philosophers
    then t
    else if changed_loop t t.num_philosophers 0
    then show_loop t t.num_philosophers 0
    else t

unfoldable pub try_to_eat : Feast → ℕ → Feast
try_to_eat t id =
    let n = t.num_philosophers in
    let shown = display_table (set_state t id eating) in
    if is_hungry (state_of t id)
      && (not (is_eating (state_of t (left n id))) && not (is_eating (state_of t (right n id))))
    then record shown { posts = update_at shown.posts id (shown.posts id + 1) }
    else t

-- The two critical sections of `philosopher_action`.
unfoldable pub take_forks : Feast → ℕ → Feast
take_forks t id = try_to_eat (display_table (set_state t id hungry)) id

unfoldable pub put_forks : Feast → ℕ → Feast
put_forks t id =
    let shown = display_table (set_state t id thinking) in
    let served = try_to_eat shown (left shown.num_philosophers id) in
    try_to_eat served (right served.num_philosophers id)

-- `add_philosopher`, given what `sys_sem_open` and `sys_create_process` return. The second result is
-- whether the mutex is free again afterwards.
unfoldable pub add_philosopher : Feast → ℕ → ℤ → ℤ → ℤ × (Bool × Feast)
add_philosopher t id sem pid =
    let fresh = record t {
      philosophers =
          update_at t.philosophers id
            (record (t.philosophers id) { state = nobody; prev = nobody; sem = sem });
    } in
    let born = record fresh {
      philosophers = update_at fresh.philosophers id (record (fresh.philosophers id) { pid = pid });
    } in
    if leb max_philosophers t.num_philosophers
    then (minus1, (true, t))
    else if ltb_ℤ sem (pos 0)
    then (minus1, (false, fresh))
    else if ltb_ℤ pid (pos 0)
    then (minus1, (true, born))
    else (
      pos 0,
      (true, display_table (record born { num_philosophers = born.num_philosophers + 1 })),
    )

abbrev pub gone : Philosopher
gone = record { pid = minus1; state = nobody; prev = nobody; sem = minus1 }

-- The test of the loop of `remove_philosopher`: while it holds, the caller waits outside the mutex.
unfoldable pub must_stay : Feast → ℕ → Bool
must_stay t id =
    let n = t.num_philosophers in
    is_eating (state_of t (left n id)) && is_eating (state_of t (right n id))

-- `remove_philosopher`, at a time when the loop ends, given what `sys_kill` and `sys_sem_close` return.
unfoldable pub remove_philosopher : Feast → ℤ → ℤ → ℤ × (Bool × Feast)
remove_philosopher t killed closed =
    let id = t.num_philosophers - 1 in
    let p = t.philosophers id in
    if leb t.num_philosophers min_philosophers
    then (minus1, (true, t))
    else if not (ltb_ℤ (pos 0) p.pid)
    then (minus1, (true, t))
    else if ltb_ℤ killed (pos 0)
    then (minus1, (true, t))
    else if ltb_ℤ (pos 0) p.sem && ltb_ℤ closed (pos 0)
    then (minus1, (false, t))
    else (
      pos 0,
      (
        true,
        display_table
            (record t { philosophers = update_at t.philosophers id gone; num_philosophers = id }),
      ),
    )

-- The table before the first philosopher comes.
unfoldable pub empty_table : Feast
empty_table = record { philosophers = λ id. gone; num_philosophers = 0; posts = λ id. 0 }
