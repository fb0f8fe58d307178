-- ===== src/Proc/Fresh.antt =====
-- The entry of a new process, as `create_process` of processes.c fills it.
use tp2_sistemas_operativos.Base.{
  ℕ, zero, suc, ◌+◌, ◌≡◌, ◌≢◌, refl, ap, arith, true, false, List, [], ◌∷◌, ℤ, pos, eq_ℤ,
  update_self, length,
}
use tp2_sistemas_operativos.Alloc.{Allocator}
use tp2_sistemas_operativos.Text.{Text}
use tp2_sistemas_operativos.Text.Compare.{strcpy_lem}
use tp2_sistemas_operativos.Proc.{Procs, ProcessS, set_process, set_child, add_child, stack_size}
use tp2_sistemas_operativos.Proc.Create.{CreateInfo, Taken, reverse_args, count_of, new_process}
use tp2_sistemas_operativos.Proc.Ledger.{Traced, times, traced}
use tp2_sistemas_operativos.Proc.Balance.{AreSet, addresses, texts, wanted, TakesAll}

-- The entry of a process that was just created: what it was created with, in memory of its own.
pub record IsFresh (info : CreateInfo) (name : Text) (parent : ℤ) (p : ProcessS) : Type 0 where
  pub stack_set : p.stack_end ≢ 0
  pub stack_top : p.stack_start ≡ p.stack_end + stack_size
  pub name_set : p.name.1 ≢ 0
  pub name_text : p.name.0 ≡ name
  pub argv_set : eq_ℤ info.argc (pos 0) ≡ false → p.argv ≢ 0
  pub argv_null : eq_ℤ info.argc (pos 0) ≡ true → p.argv ≡ 0
  pub args_set : AreSet p.args
  pub args_texts : texts p.args ≡ wanted info.argv 0 (count_of info.argc)
  pub argc : p.argc ≡ info.argc
  pub fg_flag : p.fg_flag ≡ info.fg_flag
  pub parent_is : p.parent ≡ parent
  pub memory : p.memory ≡ 0
  pub blocks : p.blocks ≡ []

-- The blocks of a process: its stack, its name, the array of arguments and the arguments.
abbrev pub blocks_of : ProcessS → List ℕ
blocks_of p = p.stack_end ∷ p.name.1 ∷ p.argv ∷ addresses p.args

AreSet-reverse :
    (copied args : List (Text × ℕ))
    → AreSet copied
    → AreSet args
    → AreSet (reverse_args copied args)
unfolding reverse_args
AreSet-reverse [] args h k = k
AreSet-reverse (a ∷ copied) args (h, rest) k = AreSet-reverse copied (a ∷ args) rest (h, k)

times-reverse :
    (a : ℕ) (copied args : List (Text × ℕ))
    → times a (addresses (reverse_args copied args))
      ≡ times a (addresses copied) + times a (addresses args)
unfolding reverse_args
times-reverse a [] args = omega arith
times-reverse a ((text, at) ∷ copied) args =
    omega (arith, times-reverse a copied ((text, at) ∷ args))

pub length-texts : (args : List (Text × ℕ)) → length (texts args) ≡ length args
length-texts [] = refl
length-texts ((text, at) ∷ args) = ap suc (length-texts args)

pub length-wanted : (argv : ℕ → Text) (i left : ℕ) → length (wanted argv i left) ≡ left
length-wanted argv i zero = refl
length-wanted argv i (suc left) = ap suc (length-wanted argv (i + 1) left)

module _ (A : Allocator) where
  open A use {Heap}

  pub new_process-IsFresh :
      (st : Procs (Traced Heap)) (info : CreateInfo) (name : Text) (t : Taken) (parent pid : ℤ)
      (l l' : Traced Heap)
      → TakesAll info l t l'
      → IsFresh info name parent
          ((new_process (traced A) st info name t parent pid).process_arr pid)
  unfolding new_process set_process add_child set_child
  new_process-IsFresh st info name t parent pid l l' all = record {
    stack_set = simp update_self (all.stack_set);
    stack_top = simp update_self refl;
    name_set = simp update_self (all.name_set);
    name_text = simp update_self (strcpy_lem name);
    argv_set = simp update_self (all.argv_set);
    argv_null = simp update_self (all.argv_null);
    args_set = simp update_self (AreSet-reverse t.copied [] all.args_set _);
    args_texts = simp update_self (all.args_texts);
    argc = simp update_self refl;
    fg_flag = simp update_self refl;
    parent_is = simp update_self refl;
    memory = simp update_self refl;
    blocks = simp update_self refl;
  }

  pub new_process-times :
      (st : Procs (Traced Heap)) (info : CreateInfo) (name : Text) (t : Taken) (parent pid : ℤ)
      (a : ℕ)
      → times a (blocks_of ((new_process (traced A) st info name t parent pid).process_arr pid))
        ≡ times a (t.stack_at ∷ t.name_at ∷ t.argv_at ∷ addresses t.copied)
  unfolding new_process set_process add_child set_child
  new_process-times st info name t parent pid a =
      simp update_self (omega (arith, times-reverse a t.copied []))
