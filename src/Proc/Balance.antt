-- ===== src/Proc/Balance.antt =====
-- The blocks that calls of processes.c take and give back, over a memory manager whose calls are written
-- down.
use tp2_sistemas_operativos.Base.{
  ℕ, zero, suc, ◌+◌, ◌≤◌, ◌≡◌, ◌≢◌, ◌∙◌, ap, sym, refl, inl, inr, arith, true, false, Option, none,
  some, List, [], ◌∷◌, ◌++◌, ℤ, pos, negsuc, eq_ℤ, ◌==◌, ==_iff, Bool-cases,
}
use mathlib.Core.List.{append-nil, append_assoc}
use tp2_sistemas_operativos.Alloc.{Allocator}
use tp2_sistemas_operativos.Text.{Text, strlen, strcpy}
use tp2_sistemas_operativos.Text.Compare.{strcpy_lem}
use tp2_sistemas_operativos.Proc.Create.{
  CreateInfo, Taken, args_loop, free_args, reverse_args, count_of,
}
use tp2_sistemas_operativos.Proc.Ledger.{
  Traced, times, one_at, one_at_null, traced, traced_malloc, traced_free, Gives, GivesBack,
  malloc-Gives, free-GivesBack,
}

-- The texts have an address.
abbrev pub AreSet : List (Text × ℕ) → Type 0
AreSet [] = Unit {0}
AreSet ((text, at) ∷ args) = (at ≢ 0) × AreSet args

abbrev pub addresses : List (Text × ℕ) → List ℕ
addresses [] = []
addresses ((text, at) ∷ args) = at ∷ addresses args

abbrev pub texts : List (Text × ℕ) → List Text
texts [] = []
texts ((text, at) ∷ args) = text ∷ texts args

-- `left` texts of an array from `i` on.
abbrev pub wanted : (ℕ → Text) → ℕ → ℕ → List Text
wanted argv i zero = []
wanted argv i (suc left) = argv i ∷ wanted argv (i + 1) left

texts-reverse :
    (copied args : List (Text × ℕ))
    → texts (reverse_args copied args) ≡ texts (reverse_args copied []) ++ texts args
unfolding reverse_args
texts-reverse [] args = refl
texts-reverse ((text, at) ∷ copied) args =
    texts-reverse copied ((text, at) ∷ args)
    ∙ sym (append_assoc (texts (reverse_args copied [])) (text ∷ []) (texts args))
    ∙ ap (λ l. l ++ texts args) (sym (texts-reverse copied ((text, at) ∷ [])))

-- The blocks of two lists of arguments, the first one taken from the second by a loop.
pub record Moved {H : Type 0} (before copied : List (Text × ℕ)) (l l' : Traced H) : Type 0 where
  pub same_wild : l'.wild ≡ l.wild
  pub moved :
      (a : ℕ)
      → times a l'.in_use + times a (addresses before)
        ≡ times a l.in_use + times a (addresses copied)

-- The memory of a new process: its blocks are those in use beside the ones before.
pub record TakesAll {H : Type 0} (info : CreateInfo) (l : Traced H) (t : Taken) (l' : Traced H)
    : Type 0 where
  pub stack_set : t.stack_at ≢ 0
  pub name_set : t.name_at ≢ 0
  pub argv_set : eq_ℤ info.argc (pos 0) ≡ false → t.argv_at ≢ 0
  pub argv_null : eq_ℤ info.argc (pos 0) ≡ true → t.argv_at ≡ 0
  pub args_set : AreSet t.copied
  pub args_texts : texts (reverse_args t.copied []) ≡ wanted info.argv 0 (count_of info.argc)
  pub gives : Gives l l' (t.stack_at ∷ t.name_at ∷ t.argv_at ∷ addresses t.copied)

-- All of it, or as much as before.
abbrev pub Takes : {H : Type 0} → CreateInfo → Traced H → Option Taken × Traced H → Type 0
Takes info l (none, l') = Gives l l' []
Takes info l (some t, l') = TakesAll info l t l'

pub count_zero : (argc : ℤ) → eq_ℤ argc (pos 0) ≡ true → count_of argc ≡ 0
unfolding eq_ℤ
count_zero (pos n) h = ground arith
count_zero (negsuc n) h = cc

module _ (A : Allocator) where
  open A use {Heap}

  -- Blocks that are in use, each as often as it is to be freed, can be freed.
  pub free_args-GivesBack :
      (args : List (Text × ℕ)) (l : Traced Heap)
      → ((a : ℕ) → times a (addresses args) ≤ times a l.in_use)
      → GivesBack l (free_args (traced A) args l) (addresses args)
  unfolding free_args
  free_args-GivesBack [] l h = record { same_wild = refl; lost = λ a. omega arith }
  free_args-GivesBack ((text, at) ∷ args) l h =
      let first = free-GivesBack A at l (omega (arith, h at)) in
      let rest =
        free_args-GivesBack args (traced_free A at l) (λ a. omega (arith, h a, first.lost a)) in
      record {
        same_wild = rest.same_wild ∙ first.same_wild;
        lost = λ a. omega (arith, first.lost a, rest.lost a);
      }

  -- What the loop over the arguments comes to.
  abbrev pub Copies :
      (ℕ → Text)
      → ℕ
      → ℕ
      → List (Text × ℕ)
      → Traced Heap
      → Option (List (Text × ℕ)) × (List (Text × ℕ) × Traced Heap)
      → Type 0
  Copies argv i left before l (none, (copied, l')) = Moved before copied l l'
  Copies argv i left before l (some args, (copied, l')) =
      AreSet args
      × ((texts (reverse_args args []) ≡ texts (reverse_args before []) ++ wanted argv i left)
          × Moved before args l l')

  Moved-step :
      (before copied : List (Text × ℕ)) (text : Text) (at : ℕ) (l l1 l' : Traced Heap)
      → Gives l l1 (at ∷ [])
      → Moved ((text, at) ∷ before) copied l1 l'
      → Moved before copied l l'
  Moved-step before copied text at l l1 l' g m = record {
    same_wild = m.same_wild ∙ g.same_wild;
    moved = λ a. omega (arith, g.gained a, m.moved a);
  }

  Copies-step :
      (argv : ℕ → Text) (i left : ℕ) (before : List (Text × ℕ)) (at : ℕ) (l l1 : Traced Heap)
      (r : Option (List (Text × ℕ)) × (List (Text × ℕ) × Traced Heap))
      → Gives l l1 (at ∷ [])
      → Copies argv (i + 1) left ((strcpy (argv i), at) ∷ before) l1 r
      → Copies argv i (suc left) before l r
  unfolding reverse_args
  Copies-step argv i left before at l l1 (none, (copied, l')) g m =
      Moved-step before copied (strcpy (argv i)) at l l1 l' g m
  Copies-step argv i left before at l l1 (some args, (copied, l')) g (set, (same, m)) = (
    set,
    (
      same
          ∙ ap (λ k. k ++ wanted argv (i + 1) left)
              (texts-reverse before ((strcpy (argv i), at) ∷ []))
          ∙ append_assoc (texts (reverse_args before [])) (strcpy (argv i) ∷ [])
              (wanted argv (i + 1) left)
          ∙ ap (λ (t : Text). texts (reverse_args before []) ++ t ∷ wanted argv (i + 1) left)
              (strcpy_lem (argv i)),
      Moved-step before args (strcpy (argv i)) at l l1 l' g m,
    ),
  )

  pub args_loop-Copies :
      (argv : ℕ → Text) (left i : ℕ) (before : List (Text × ℕ)) (l : Traced Heap)
      → AreSet before
      → Copies argv i left before l (args_loop (traced A) argv left i before l)
  unfolding args_loop
  args_loop-Copies argv zero i before l set = (
    set,
    (
      sym (append-nil (texts (reverse_args before []))),
      record { same_wild = refl; moved = λ a. refl },
    ),
  )
  args_loop-Copies argv (suc left) i before l set =
      let m = traced_malloc A (strlen (argv i) + 1) l in
      let g = malloc-Gives A (strlen (argv i) + 1) l in
      elim (Bool-cases (m.0 == 0)) [
        | inl null ↦
            let e = (==_iff m.0 0).0 null in
            rw null (record {
              same_wild = g.same_wild;
              moved = λ a. omega (arith, g.gained a, ap (one_at a) e, one_at_null a);
            })
        | inr found ↦ rw found (
            Copies-step argv i left before m.0 l m.1
              (args_loop (traced A) argv left (i + 1) ((strcpy (argv i), m.0) ∷ before) m.1) g
              (args_loop-Copies argv left (i + 1) ((strcpy (argv i), m.0) ∷ before) m.1
                (ground (arith, found), set)))
      ]
