-- ===== src/Phylo/Tests.antt =====
-- A feast of three philosophers of phylo.c: the second one eats, the third one has to wait.
use tp2_sistemas_operativos.Base.{◌≡◌, refl, arith, true, false, pos, update_at, ltb_ℤ}
use tp2_sistemas_operativos.Phylo.{
  hungry, eating, is_eating, Feast, state_of, left, right, set_state, set_prev, changed_loop,
  show_loop, display_table, try_to_eat, take_forks, put_forks, add_philosopher, empty_table,
}
use tp2_sistemas_operativos.Phylo.Runs.{Reach, Reach-neighbours, begin, take}

abbrev with_one : Feast
with_one = (add_philosopher empty_table 0 (pos 5) (pos 7)).1.1

abbrev with_two : Feast
with_two = (add_philosopher with_one 1 (pos 6) (pos 8)).1.1

abbrev with_three : Feast
with_three = (add_philosopher with_two 2 (pos 7) (pos 9)).1.1

abbrev second_eats : Feast
second_eats = take_forks with_three 1

abbrev third_waits : Feast
third_waits = take_forks second_eats 2

third_has_to_wait : state_of third_waits 2 ≡ hungry
unfolding left right set_state set_prev changed_loop show_loop display_table try_to_eat take_forks
    add_philosopher empty_table update_at ltb_ℤ
third_has_to_wait = refl

third_is_served : state_of (put_forks third_waits 1) 2 ≡ eating
unfolding left right set_state set_prev changed_loop show_loop display_table try_to_eat take_forks
    put_forks add_philosopher empty_table update_at ltb_ℤ
third_is_served = refl

third_waits-Reach : Reach true third_waits
unfolding left right set_state set_prev changed_loop show_loop display_table try_to_eat take_forks
    add_philosopher empty_table update_at ltb_ℤ
third_waits-Reach =
    let one : Reach true with_one = Reach.add empty_table (pos 5) (pos 7) begin in
    let two : Reach true with_two = Reach.add with_one (pos 6) (pos 8) one in
    let three : Reach true with_three = Reach.add with_two (pos 7) (pos 9) two in
    let eats : Reach true second_eats = take with_three 1 three (omega arith) in
    take second_eats 2 eats (omega arith)

Reach-neighbours_example : is_eating (state_of third_waits 2) ≡ false
unfolding left right set_state set_prev changed_loop show_loop display_table try_to_eat take_forks
    add_philosopher empty_table update_at ltb_ℤ
Reach-neighbours_example =
    Reach-neighbours true third_waits 1 third_waits-Reach (omega arith) (λ e. omega (arith, e)) refl
