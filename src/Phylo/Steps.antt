-- ===== src/Phylo/Steps.antt =====
-- The table of phylo.c with its neighbours, and what breaks the rule that no two of them eat at once.
use tp2_sistemas_operativos.Base.{
  ℕ, zero, suc, ◌+◌, ◌-◌, ◌%◌, ◌<◌, ◌≡◌, ◌≢◌, refl, sym, ap, ◌∙◌, inl, inr, arith, Bool, true,
  false, ltb, ◌==◌, if◌then◌else◌, if_both, update_at, Bool-cases, ==_iff,
}
use native.Mathlib.Nat.{mod-eq_of_lt, mod_self, mod-eq-sub-mod}
use tp2_sistemas_operativos.Phylo.{
  State, eating, is_eating, Feast, state_of, left, right, set_state, set_prev, changed_loop,
  show_loop, display_table, min_philosophers,
}

-- The neighbour to the right, written without `%`.
abbrev pub next : ℕ → ℕ → ℕ
next num i = if i + 1 == num then 0 else i + 1

pub right-next : (num i : ℕ) → i < num → right num i ≡ next num i
unfolding right
right-next num i lt = elim (Bool-cases (i + 1 == num)) [
  | inl e ↦
      (let last : i + 1 ≡ num = (==_iff (i + 1) num).0 e in
        let wrap : right num i ≡ 0 = ap (λ k. k % num) last ∙ mod_self num in
        wrap ∙ sym (ground arith))
  | inr e ↦
      (let inside : i + 1 < num = ground arith in
        let stay : right num i ≡ i + 1 = mod-eq_of_lt inside in stay ∙ sym (ground arith))
]

-- The neighbour to the left, written without `%`.
abbrev pub before : ℕ → ℕ → ℕ
before num i = if i == 0 then num - 1 else i - 1

pub left-before : (num i : ℕ) → i < num → left num i ≡ before num i
unfolding left
left-before num zero lt =
    let step : left num 0 ≡ 0 + num - 1 = mod-eq_of_lt (omega arith) in step ∙ ground arith
left-before num (suc i) lt =
    let step : left num (suc i) ≡ (suc i + num - 1 - num) % num = mod-eq-sub-mod (omega arith) in
    let small : suc i + num - 1 - num ≡ i = omega arith in
    let inside : i < num = omega arith in
    step ∙ ap (λ k. k % num) small ∙ mod-eq_of_lt inside ∙ ground arith

-- Going right and then left comes back.
left-right : (num i j : ℕ) → i < num → right num i ≡ j → left num j ≡ i
left-right num i j lt at =
    let there : j ≡ next num i = sym at ∙ right-next num i lt in
    let inside : j < num = ground (arith, there) in left-before num j inside ∙ ground (arith, there)

-- What the rule of the table reads.
pub record SameStates (t t' : Feast) : Type 0 where
  pub same_num : t'.num_philosophers ≡ t.num_philosophers
  pub same_state : (i : ℕ) → state_of t' i ≡ state_of t i

show_loop-SameStates : (t : Feast) (rest i : ℕ) → SameStates t (show_loop t rest i)
unfolding show_loop set_prev update_at
show_loop-SameStates t zero i = record { same_num = refl; same_state = λ k. refl }
show_loop-SameStates t (suc rest) i =
    let seen = set_prev t i (state_of t i) in
    let same = show_loop-SameStates seen rest (i + 1) in
    record { same_num = same.same_num; same_state = λ k. same.same_state k ∙ ground arith }

display_table-SameStates : (t : Feast) → SameStates t (display_table t)
unfolding display_table
display_table-SameStates t =
    let same : SameStates t t = record { same_num = refl; same_state = λ k. refl } in
    if_both (SameStates t) (ltb t.num_philosophers min_philosophers) _ _ same (
      if_both (SameStates t) (changed_loop t t.num_philosophers 0) _ _
        (show_loop-SameStates t t.num_philosophers 0) same)

-- Of two neighbours at most one eats.
pub record Peace (t : Feast) : Type 0 where
  pub rule :
      (i : ℕ)
      → i < t.num_philosophers
      → right t.num_philosophers i ≢ i
      → is_eating (state_of t i) ≡ true
      → is_eating (state_of t (right t.num_philosophers i)) ≡ false

pub Peace-SameStates : (t t' : Feast) → SameStates t t' → Peace t → Peace t'
Peace-SameStates t t' same peace = record {
  rule = λ i lt apart e.
      let lt0 : i < t.num_philosophers = rw (sym same.same_num) lt in
      let apart0 : right t.num_philosophers i ≢ i = rw (sym same.same_num) apart in
      let e0 : is_eating (state_of t i) ≡ true = ap is_eating (sym (same.same_state i)) ∙ e in
      ap is_eating (same.same_state (right t'.num_philosophers i))
      ∙ ap (λ n. is_eating (state_of t (right n i))) same.same_num
      ∙ peace.rule i lt0 apart0 e0;
}

pub Peace-display_table : (t : Feast) → Peace t → Peace (display_table t)
Peace-display_table t peace =
    Peace-SameStates t (display_table t) (display_table-SameStates t) peace

-- Whoever does not eat breaks no rule.
pub Peace-calm :
    (t : Feast) (id : ℕ) (s : State) → is_eating s ≡ false → Peace t → Peace (set_state t id s)
unfolding set_state update_at
Peace-calm t id s calm peace = record {
  rule = λ i lt apart e. let before = peace.rule i lt apart in ground (arith, before);
}

eats_in_turn :
    (t : Feast) (id i : ℕ)
    → is_eating (state_of t (left t.num_philosophers id)) ≡ false
    → right t.num_philosophers i ≡ id
    → i < t.num_philosophers
    → is_eating (state_of t i) ≢ true
eats_in_turn t id i l at lt e =
    let there = ap (λ k. is_eating (state_of t k)) (left-right t.num_philosophers i id lt at) in
    let both : true ≡ false = sym e ∙ sym there ∙ l in cc

not_both :
    (t : Feast) (id i : ℕ) (same_id at_id : Bool)
    → (i == id) ≡ same_id
    → (right t.num_philosophers i == id) ≡ at_id
    → i < t.num_philosophers
    → right t.num_philosophers i ≢ i
    → is_eating (state_of t (left t.num_philosophers id)) ≡ false
    → is_eating (state_of t (right t.num_philosophers id)) ≡ false
    → (is_eating (state_of t i) ≡ true
        → is_eating (state_of t (right t.num_philosophers i)) ≡ false)
    → is_eating (state_of (set_state t id eating) i) ≡ true
    → is_eating (state_of (set_state t id eating) (right t.num_philosophers i)) ≡ false
unfolding set_state update_at
not_both t id i true true si ai lt apart l r old e =
    let i_id : i ≡ id = (==_iff i id).0 si in
    let at : right t.num_philosophers i ≡ id = (==_iff (right t.num_philosophers i) id).0 ai in
    absurd (apart (at ∙ sym i_id))
not_both t id i false true si ai lt apart l r old e =
    let at : right t.num_philosophers i ≡ id = (==_iff (right t.num_philosophers i) id).0 ai in
    let still : is_eating (state_of t i) ≡ true = ground arith in
    absurd (eats_in_turn t id i l at lt still)
not_both t id i true false si ai lt apart l r old e =
    let i_id : i ≡ id = (==_iff i id).0 si in
    let r_i = ap (λ k. is_eating (state_of t (right t.num_philosophers k))) i_id ∙ r in ground arith
not_both t id i false false si ai lt apart l r old e = ground (arith, old)

-- Whoever has no eating neighbour may eat.
pub Peace-eat :
    (t : Feast) (id : ℕ)
    → is_eating (state_of t (left t.num_philosophers id)) ≡ false
    → is_eating (state_of t (right t.num_philosophers id)) ≡ false
    → Peace t
    → Peace (set_state t id eating)
unfolding set_state
Peace-eat t id l r peace = record {
  rule = λ i lt apart.
      not_both t id i (i == id) (right t.num_philosophers i == id) refl refl lt apart l r
        (peace.rule i lt apart);
}
