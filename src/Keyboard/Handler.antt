-- ===== src/Keyboard/Handler.antt =====
-- What the keys of Kernel/drivers/keyboardDriver.c put into the buffer: a letter typed while shift is held.
use tp2_sistemas_operativos.Base.{
  ℕ, ◌+◌, ◌-◌, ◌≡◌, Bool, false, ◌&&◌, ◌||◌, not, List, [], ◌∷◌, ◌==◌, if◌then◌else◌,
}
use tp2_sistemas_operativos.Alloc.{Allocator}
use tp2_sistemas_operativos.Sched.{Sched}
use tp2_sistemas_operativos.Proc.{Procs}
use tp2_sistemas_operativos.Keyboard.{
  Keys, Handled, handled, yielded, newline, backspace, buffer_before, keyboard_handler,
}

-- The last character that was read ends no line and is no backspace.
pub record Quiet (k : Keys) : Type 0 where
  pub no_newline : (buffer_before k k.read_index == newline) ≡ false
  pub no_backspace : (buffer_before k k.read_index == backspace) ≡ false

-- What one letter puts into the buffer.
abbrev pub letter : Bool → Bool → ℕ → ℕ
letter caps shift c = if (caps && not shift) || (not caps && shift) then c - b'a' + b'A' else c

abbrev go_on : {H : Type 0} → Handled H → (Keys → Procs H → Handled H) → Handled H
go_on (handled k st) next = next k st
go_on (yielded k rsp st) next = yielded k rsp st

module _ (A : Allocator) where
  open A use {Heap}

  -- Scan codes one after the other, as long as the handler returns.
  unfoldable pub scan_codes : Keys → Procs Heap → ℕ → List ℕ → Handled Heap
  scan_codes k st rsp [] = handled k st
  scan_codes k st rsp (code ∷ codes) =
      go_on (keyboard_handler A k st code rsp) (λ k' st'. scan_codes k' st' rsp codes)
