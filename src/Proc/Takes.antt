-- ===== src/Proc/Takes.antt =====
-- `take_memory` of create_process: all the memory of a new process, or what was taken is given back.
use tp2_sistemas_operativos.Base.{
  ℕ, ◌+◌, ◌*◌, ◌≡◌, ◌≢◌, ◌∙◌, ap, sym, refl, inl, inr, arith, true, false, Option, none, some, List,
  [], ◌∷◌, pos, eq_ℤ, ◌==◌, ==_iff, Bool-cases,
}
use tp2_sistemas_operativos.Alloc.{Allocator}
use tp2_sistemas_operativos.Text.{Text, strlen}
use tp2_sistemas_operativos.Proc.{stack_size}
use tp2_sistemas_operativos.Proc.Create.{
  CreateInfo, take_memory, take_args, args_loop, free_args, reverse_args, count_of,
}
use tp2_sistemas_operativos.Proc.Ledger.{
  Traced, one_at, one_at_null, traced, traced_malloc, traced_free, Gives, malloc-Gives,
  free-GivesBack,
}
use tp2_sistemas_operativos.Proc.Balance.{
  wanted, Moved, TakesAll, Takes, count_zero, free_args-GivesBack, Copies, args_loop-Copies,
}

module _ (A : Allocator) where
  open A use {Heap}

  -- What was taken is given back when there is no memory for an argument.
  undo :
      (stack_at name_at argv_at : ℕ) (copied : List (Text × ℕ)) (l l3 l' : Traced Heap)
      → Gives l l3 (stack_at ∷ name_at ∷ argv_at ∷ [])
      → Moved [] copied l3 l'
      → Gives l
          (traced_free A argv_at
            (free_args (traced A) copied (traced_free A name_at (traced_free A stack_at l'))))
          []
  undo stack_at name_at argv_at copied l l3 l' g m =
      let f1 = free-GivesBack A stack_at l' (omega (arith, g.gained stack_at, m.moved stack_at)) in
      let l1 = traced_free A stack_at l' in
      let f2 =
        free-GivesBack A name_at l1
          (omega (arith, g.gained name_at, m.moved name_at, f1.lost name_at)) in
      let l2 = traced_free A name_at l1 in
      let f3 =
        free_args-GivesBack A copied l2
          (λ a. omega (arith, g.gained a, m.moved a, f1.lost a, f2.lost a)) in
      let f4 = free-GivesBack A argv_at (free_args (traced A) copied l2) (
        omega (
          arith,
          g.gained argv_at,
          m.moved argv_at,
          f1.lost argv_at,
          f2.lost argv_at,
          f3.lost argv_at,
        )) in
      record {
        same_wild =
            f4.same_wild ∙ f3.same_wild ∙ f2.same_wild ∙ f1.same_wild ∙ m.same_wild ∙ g.same_wild;
        gained =
            λ a. omega (arith, g.gained a, m.moved a, f1.lost a, f2.lost a, f3.lost a, f4.lost a);
      }

  -- The arguments, once their array has its memory.
  Copies-Takes :
      (info : CreateInfo) (stack_at name_at argv_at : ℕ) (l l3 : Traced Heap)
      (r : Option (List (Text × ℕ)) × (List (Text × ℕ) × Traced Heap))
      → stack_at ≢ 0
      → name_at ≢ 0
      → argv_at ≢ 0
      → Gives l l3 (stack_at ∷ name_at ∷ argv_at ∷ [])
      → eq_ℤ info.argc (pos 0) ≡ false
      → Copies A info.argv 0 (count_of info.argc) [] l3 r
      → Takes info l (elim r.0 [
        | none ↦ (
          none,
          traced_free A argv_at
              (free_args (traced A) r.1.0 (traced_free A name_at (traced_free A stack_at r.1.1))),
        )
        | some args ↦ (
          some
              (record { stack_at = stack_at; name_at = name_at; argv_at = argv_at; copied = args }),
          r.1.1,
        )
      ])
  unfolding reverse_args
  Copies-Takes info stack_at name_at argv_at l l3 (none, (copied, l')) s n v g some_args m =
      undo stack_at name_at argv_at copied l l3 l' g m
  Copies-Takes info stack_at name_at argv_at l l3 (some args, (copied, l')) s n v g some_args
        (set, (same, m)) =
      record {
        stack_set = s;
        name_set = n;
        argv_set = λ e. v;
        argv_null = λ e. absurd (ground (arith, e, some_args));
        args_set = set;
        args_texts = same;
        gives = record {
          same_wild = m.same_wild ∙ g.same_wild;
          gained = λ a. omega (arith, g.gained a, m.moved a);
        };
      }

  -- Two blocks are taken and given back.
  undo_two :
      (stack_at name_at : ℕ) (l l' : Traced Heap)
      → Gives l l' (stack_at ∷ name_at ∷ [])
      → Gives l (traced_free A name_at (traced_free A stack_at l')) []
  undo_two stack_at name_at l l' g =
      let f1 = free-GivesBack A stack_at l' (omega (arith, g.gained stack_at)) in
      let f2 =
        free-GivesBack A name_at (traced_free A stack_at l')
          (omega (arith, g.gained name_at, f1.lost name_at)) in
      record {
        same_wild = f2.same_wild ∙ f1.same_wild ∙ g.same_wild;
        gained = λ a. omega (arith, g.gained a, f1.lost a, f2.lost a);
      }

  -- Without arguments there is nothing more to take.
  no_args-TakesAll :
      (info : CreateInfo) (stack_at name_at : ℕ) (l l2 : Traced Heap)
      → stack_at ≢ 0
      → name_at ≢ 0
      → Gives l l2 (stack_at ∷ name_at ∷ [])
      → eq_ℤ info.argc (pos 0) ≡ true
      → TakesAll info l
          (record { stack_at = stack_at; name_at = name_at; argv_at = 0; copied = [] })
          l2
  unfolding reverse_args
  no_args-TakesAll info stack_at name_at l l2 s n g no_args = record {
    stack_set = s;
    name_set = n;
    argv_set = λ e. absurd (ground (arith, e, no_args));
    argv_null = λ e. refl;
    args_set = _;
    args_texts = ap (λ k. wanted info.argv 0 k) (sym (count_zero info.argc no_args));
    gives = record {
      same_wild = g.same_wild;
      gained = λ a. omega (arith, g.gained a, one_at_null a);
    };
  }

  -- NULL counts as no block.
  null_block : (l l' : Traced Heap) (at : ℕ) → at ≡ 0 → Gives l l' (at ∷ []) → Gives l l' []
  null_block l l' at e g = record {
    same_wild = g.same_wild;
    gained = λ a. omega (arith, g.gained a, ap (one_at a) e, one_at_null a);
  }

  take_args-Takes :
      (info : CreateInfo) (stack_at name_at : ℕ) (l l2 : Traced Heap)
      → stack_at ≢ 0
      → name_at ≢ 0
      → Gives l l2 (stack_at ∷ name_at ∷ [])
      → Takes info l (take_args (traced A) info stack_at name_at l2)
  unfolding take_args
  take_args-Takes info stack_at name_at l l2 s n g =
      let m = traced_malloc A (8 * count_of info.argc) l2 in
      let k = malloc-Gives A (8 * count_of info.argc) l2 in
      elim (Bool-cases (eq_ℤ info.argc (pos 0))) [
        | inl no_args ↦ rw no_args (no_args-TakesAll info stack_at name_at l l2 s n g no_args)
        | inr some_args ↦ elim (Bool-cases (m.0 == 0)) [
          | inl null ↦
              let nothing = null_block l2 m.1 m.0 ((==_iff m.0 0).0 null) k in
              rw (some_args, null)
                (undo_two stack_at name_at l m.1 (record {
                  same_wild = nothing.same_wild ∙ g.same_wild;
                  gained = λ a. omega (arith, g.gained a, nothing.gained a);
                }))
          | inr found ↦
              rw (some_args, found)
                (Copies-Takes info stack_at name_at m.0 l m.1
                  (args_loop (traced A) info.argv (count_of info.argc) 0 [] m.1) s n
                  (ground (arith, found))
                  (record {
                    same_wild = k.same_wild ∙ g.same_wild;
                    gained = λ a. omega (arith, g.gained a, k.gained a);
                  })
                  some_args (args_loop-Copies A info.argv (count_of info.argc) 0 [] m.1 _))
        ]
      ]

  pub take_memory-Takes :
      (info : CreateInfo) (name : Text) (l : Traced Heap)
      → Takes info l (take_memory (traced A) info name l)
  unfolding take_memory
  take_memory-Takes info name l =
      let m = traced_malloc A stack_size l in
      let k = traced_malloc A (strlen name + 1) m.1 in
      let g = malloc-Gives A stack_size l in
      let h = malloc-Gives A (strlen name + 1) m.1 in
      elim (Bool-cases (m.0 == 0)) [
        | inl null ↦ rw null (null_block l m.1 m.0 ((==_iff m.0 0).0 null) g)
        | inr found ↦ elim (Bool-cases (k.0 == 0)) [
          | inl no_name ↦
              let nothing = null_block m.1 k.1 k.0 ((==_iff k.0 0).0 no_name) h in
              let f = free-GivesBack A m.0 k.1 (omega (arith, g.gained m.0, nothing.gained m.0)) in
              rw (found, no_name)
                (record {
                  same_wild = f.same_wild ∙ nothing.same_wild ∙ g.same_wild;
                  gained = λ a. omega (arith, g.gained a, nothing.gained a, f.lost a);
                })
          | inr named ↦
              rw (found, named)
                (take_args-Takes info m.0 k.0 l k.1 (ground (arith, found)) (ground (arith, named))
                  (record {
                    same_wild = h.same_wild ∙ g.same_wild;
                    gained = λ a. omega (arith, g.gained a, h.gained a);
                  }))
        ]
      ]
