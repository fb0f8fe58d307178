-- ===== src/Proc/Heap.antt =====
-- What processes.c takes from the memory manager and gives back to it.
use tp2_sistemas_operativos.Base.{
  ℕ, zero, suc, ◌+◌, ◌≡◌, refl, sym, ap, ◌∙◌, inl, inr, arith, ◌&&◌, ℤ, pos, negsuc, eq_ℤ, eq_ℤ_iff,
  if◌then◌else◌, if_both, update, update_self, update_other, take, Bool-cases, max_processes,
}
use tp2_sistemas_operativos.Alloc.{Allocator}
use tp2_sistemas_operativos.Sem.{Sems}
use tp2_sistemas_operativos.Pipe.{Pipes, signal_eof, set_pipe}
use tp2_sistemas_operativos.Proc.{
  Procs, ProcessS, set_process, set_child, add_child, drop_child, unblock_parent, remove_child,
  shell_adoption,
}
use tp2_sistemas_operativos.Proc.Create.{free_args, count_of}
use tp2_sistemas_operativos.Proc.Kill.{
  adopt_loop, orphan, close_output, stop_process, clear_process, free_blocks, free_memory,
  free_argv, free_stack, remove_process, is_child,
}

-- A process but for its parent, which changes when the parent dies.
abbrev pub anonymous : ProcessS → ProcessS
anonymous p = record p { parent = pos 0 }

abbrev pub heap_of : {H : Type 0} → Procs H → H
heap_of st = st.pipes.sems.heap

-- The heap, and the memory of every process, are the same.
pub record SameMemory {H : Type 0} (st st' : Procs H) : Type 0 where
  pub heap : heap_of st' ≡ heap_of st
  pub owned : (q : ℤ) → anonymous (st'.process_arr q) ≡ anonymous (st.process_arr q)

adopted-owned :
    (arr : ℤ → ProcessS) (child q : ℤ)
    → anonymous (update arr child (record (arr child) { parent = pos 0 }) q) ≡ anonymous (arr q)
adopted-owned arr child q = elim (Bool-cases (eq_ℤ child q)) [
  | inl same ↦
      let e = (eq_ℤ_iff child q).0 same in
      rw (sym e) (ap anonymous (update_self arr child (record (arr child) { parent = pos 0 })))
  | inr other ↦
      ap anonymous (update_other arr child q (record (arr child) { parent = pos 0 }) other)
]

module _ {H : Type 0} where
  SameMemory-refl : (st : Procs H) → SameMemory st st
  SameMemory-refl st = record { heap = refl; owned = λ q. refl }

  SameMemory-trans :
      {st st' st'' : Procs H} → SameMemory st st' → SameMemory st' st'' → SameMemory st st''
  SameMemory-trans a b = record { heap = b.heap ∙ a.heap; owned = λ q. b.owned q ∙ a.owned q }

  unblock_parent-SameMemory : (st : Procs H) (parent : ℤ) → SameMemory st (unblock_parent st parent)
  unfolding unblock_parent
  unblock_parent-SameMemory st parent =
      if_both (SameMemory st) _ _ _ (SameMemory-refl st) (record { heap = refl; owned = λ q. refl })

  pub remove_child-SameMemory : (st : Procs H) (child : ℤ) → SameMemory st (remove_child st child)
  unfolding remove_child drop_child set_child
  remove_child-SameMemory st child =
      let parent = (st.process_arr child).parent in
      if_both (SameMemory st) (eq_ℤ parent (negsuc 1)) st
        (unblock_parent (drop_child st parent child) parent) (SameMemory-refl st)
        (SameMemory-trans {st' = drop_child st parent child}
          (record { heap = refl; owned = λ q. refl })
          (unblock_parent-SameMemory (drop_child st parent child) parent))

  shell_adoption-SameMemory :
      (st : Procs H) (child last : ℤ) → SameMemory st (shell_adoption st child last)
  unfolding shell_adoption drop_child add_child set_child set_process
  shell_adoption-SameMemory st child last = record {
    heap = refl;
    owned = λ q. adopted-owned st.process_arr child q;
  }

  adopt_loop-SameMemory :
      (st : Procs H) (pid : ℤ) (left i : ℕ) → SameMemory st (adopt_loop st pid left i)
  unfolding adopt_loop
  adopt_loop-SameMemory st pid zero i = SameMemory-refl st
  adopt_loop-SameMemory st pid (suc left) i =
      let adopted = shell_adoption st (pos i) pid in
      let step = if is_child st pid i then adopted else st in
      let kept = shell_adoption-SameMemory st (pos i) pid in
      if_both (SameMemory st)
        (is_child st pid i && eq_ℤ (adopted.families pid).number_of_children (pos 0)) adopted
        (adopt_loop step pid left (i + 1)) kept
        (SameMemory-trans {st' = step}
          (if_both (SameMemory st) (is_child st pid i) adopted st kept (SameMemory-refl st))
          (adopt_loop-SameMemory step pid left (i + 1)))

  pub orphan-SameMemory : (st : Procs H) (pid : ℤ) → SameMemory st (orphan st pid)
  unfolding orphan
  orphan-SameMemory st pid =
      if_both (SameMemory st) _ _ _ (SameMemory-refl st)
        (adopt_loop-SameMemory st pid max_processes 0)

  signal_eof-sems : (st : Pipes H) (id : ℕ) → (signal_eof st id).1.sems ≡ st.sems
  unfolding signal_eof set_pipe
  signal_eof-sems st id = ground arith

  close_output-SameMemory : (st : Procs H) (pid : ℤ) → SameMemory st (close_output st pid)
  unfolding close_output
  close_output-SameMemory st pid =
      if_both (SameMemory st) _ _ _
        (record {
          heap = ap (λ (s : Sems H). s.heap) (signal_eof-sems st.pipes (st.process_arr pid).output);
          owned = λ q. refl;
        })
        (SameMemory-refl st)

module _ (A : Allocator) where
  open A use {Heap, malloc, free}

  -- All that `kill` frees of a process.
  unfoldable pub freed : ProcessS → Heap → Heap
  freed p h = free p.name.1 (
      free p.stack_end
        (free_args A (take (count_of p.argc) p.args) (free p.memory (free_blocks A p.blocks h))))

  -- `kill` frees what the entry of the process holds, and nothing else.
  pub remove_process-heap :
      (st : Procs Heap) (pid : ℤ)
      → heap_of (remove_process A st pid) ≡ freed (st.process_arr pid) (heap_of st)
  unfolding remove_process free_memory stop_process free_argv free_stack clear_process set_process
      freed
  remove_process-heap st pid =
      let p = st.process_arr pid in
      let alone = orphan (remove_child st pid) pid in
      let x = alone.process_arr pid in
      let k =
        SameMemory-trans {st' = remove_child st pid} (remove_child-SameMemory st pid)
          (orphan-SameMemory (remove_child st pid) pid) in
      let y = free_argv A (stop_process (free_memory A alone pid) pid) pid in
      let c = close_output-SameMemory y pid in
      let last = (close_output y pid).process_arr pid in
      ap (λ (h : Heap). free last.name.1 (free last.stack_end h)) c.heap
      ∙ ap (λ (r : ProcessS). free r.name.1 (free r.stack_end (heap_of y)))
          (c.owned pid ∙ k.owned pid)
      ∙ ap
          (λ (r : ProcessS). free p.name.1 (
            free p.stack_end (
              free_args A (take (count_of r.argc) r.args)
                (free r.memory (free_blocks A r.blocks (heap_of alone))))))
          (k.owned pid)
      ∙ ap (freed p) k.heap
