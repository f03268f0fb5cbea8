-- ===== src/Wait/Status.antt =====
-- The statuses that sys_wait4 of keow-kernel/KeowKernel/sys_process.cpp writes, and their readers.
use keow.Prelude.{ℕ, ◌/◌, ◌%◌, ◌≡◌, not, ◌&&◌, ◌==◌, if◌then◌else◌, arith}
use keow.Signals.{sigtrap}
use keow.Wait.{Process, exit_status, stop_status}

-- WEXITSTATUS and WSTOPSIG, WTERMSIG, and WCOREDUMP as a number.
abbrev pub high_byte : ℕ → ℕ
high_byte status = status / 256 % 256

abbrev pub term_signal : ℕ → ℕ
term_signal status = status % 128

abbrev pub core_bit : ℕ → ℕ
core_bit status = status / 128 % 2

-- What the caller reads from the status of a child that has exited is the low byte of its exit code, the
-- signal that killed it, modulo 128, and whether it dumped core; and from that of a stopped child it
-- reads the mark of a stop, 127, and SIGTRAP if the child is traced by the caller with a request, and
-- else the low byte of its current signal.
pub statuses_lem :
    (me c : Process)
    → (high_byte (exit_status c) ≡ c.exit_code % 256)
      × (term_signal (exit_status c) ≡ c.killed_by % 128)
      × (core_bit (exit_status c) ≡ (if c.core_dumped then 1 else 0))
      × (stop_status me c % 256 ≡ 127)
      × (high_byte (stop_status me c) ≡ (
          if c.ptrace_owner == me.pid && not (c.ptrace_request == 0)
          then sigtrap
          else c.current_signal % 256))
unfolding exit_status stop_status
statuses_lem me c = ground arith
