-- ===== src/Kill.antt =====
-- The table of processes: FindProcess of keow-kernel/KeowKernel/KernelTable.cpp, sys_kill of
-- sys_sys.cpp, and the calls on process groups of sys_process.cpp.
pub mod Delivered
pub mod Tests
use keow.Prelude.{
  ℕ, zero, suc, ◌+◌, ◌-◌, Bool, true, false, not, ◌&&◌, List, [], ◌∷◌, Option, none, some, leb,
  ◌==◌, if◌then◌else◌, ◌>>=◌, get_elem?, set,
}
use keow.Errno.{word, negative, is_negative, einval, esrch}
use keow.Signals.{SignalState, Layout, nsig}
use keow.Signals.Delivery.{send_signal_self, send_signal_other}

-- m_Pid, m_ProcessGroupPID and the signals of a process.
pub record Entry : Type 0 where
  pub pid : ℕ
  pub group : ℕ
  pub signals : SignalState

-- The place of the first process with a pid; `i` is the place of the head.
unfoldable pub find_process : ℕ → List Entry → ℕ → Option ℕ
find_process pid [] i = none
find_process pid (e ∷ es) i =
    let later = find_process pid es (suc i) in if e.pid == pid then some i else later

abbrev pub is_not_init : Entry → Bool
is_not_init e = not (e.pid == 1)

abbrev pub is_in_group : ℕ → Entry → Bool
is_in_group pgrp e = not (e.pid == 1) && e.group == pgrp

module _ (layout : Layout) (tracer : ℕ → ℕ) (me : ℕ) where
  -- SendSignal to the process at place `i`; the caller P is at place `me`.
  unfoldable pub send_signal : ℕ → ℕ → Entry → Option Entry
  send_signal sig i e =
      (if i == me
        then send_signal_self layout tracer sig e.signals
        else send_signal_other sig e.signals)
      >>= λ s. some (record e { signals = s })

  unfoldable pub send_unless_zero : ℕ → ℕ → Entry → Option Entry
  send_unless_zero sig i e = if sig == 0 then some e else send_signal sig i e

  -- The loop over the table, which signals the processes that pass a test.
  unfoldable pub send_matching : (Entry → Bool) → ℕ → ℕ → List Entry → Option (List Entry)
  send_matching test sig i [] = some []
  send_matching test sig i (e ∷ es) =
      (if test e then send_unless_zero sig i e else some e) >>= λ e'.
      send_matching test sig (suc i) es >>= λ es'. some (e' ∷ es')

  -- The call to one process.
  unfoldable pub kill_one : List Entry → Option ℕ → ℕ → Option (List Entry × ℕ)
  kill_one es none sig = some (es, negative esrch)
  kill_one es (some i) sig =
      get_elem? es i >>= λ e. send_unless_zero sig i e >>= λ e'. some (set es i e', 0)

  abbrev pub dest_group : List Entry → ℕ → Option ℕ
  dest_group es pid =
      if pid == 0 then (get_elem? es me >>= λ p. some p.pid) else some (negative pid)

  -- The results are the table and eax; `none` is a fault of SendSignal.
  unfoldable pub sys_kill : List Entry → ℕ → ℕ → Option (List Entry × ℕ)
  sys_kill es pid sig =
      if leb nsig sig
      then some (es, negative einval)
      else if not (pid == 0) && not (is_negative pid)
      then kill_one es (find_process pid es 0) sig
      else if pid == word - 1
      then (send_matching is_not_init sig 0 es >>= λ t. some (t, 0))
      else (dest_group es pid >>= λ pgrp.
          send_matching (is_in_group pgrp) sig 0 es >>= λ t. some (t, 0))

-- The group of the process found, which a zero leaves as it is.
unfoldable pub set_group : List Entry → Option ℕ → ℕ → Option (List Entry × ℕ)
set_group es none pgid = some (es, negative esrch)
set_group es (some i) pgid = get_elem? es i >>= λ e.
    some (set es i (record e { group = if pgid == 0 then e.group else pgid }), 0)

-- `me` is the place of the caller.
module _ (me : ℕ) where
  unfoldable pub sys_getpgrp : List Entry → Option ℕ
  sys_getpgrp es = get_elem? es me >>= λ p. some p.group

  unfoldable pub sys_getpgid : List Entry → ℕ → ℕ → Option (List Entry × ℕ)
  sys_getpgid es pid pgid = get_elem? es me >>= λ p.
      set_group es (find_process (if pid == 0 then p.pid else pid) es 0) pgid

  unfoldable pub sys_setpgid : List Entry → Option (List Entry × ℕ)
  sys_setpgid es = get_elem? es me >>= λ p. some (set es me (record p { group = p.pid }), 0)
