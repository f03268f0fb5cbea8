-- ===== src/Signals/Calls.antt =====
-- sys_sigaction and sys_sigprocmask of keow-kernel/KeowKernel/sys_process.cpp, and
-- sys_rt_sigreturn of sys_rtsig.cpp.
use keow.Prelude.{
  ℕ, zero, suc, ◌/◌, Bool, true, false, not, ◌&&◌, ◌||◌, Option, none, some, ltb, ◌==◌,
  if◌then◌else◌, ◌>>=◌, get_elem?, set,
}
use keow.Errno.{negative, einval}
use keow.Signals.{SigSet, nsig, nsig_bpw, nsig_words, SignalAction, SaveState, SignalState}

-- The old_sigaction of the call, whose mask is one word.
abbrev pub low_word : SigSet → SigSet
low_word m b = if ltb b nsig_bpw then m b else false

unfoldable pub replace_low : SigSet → SigSet → SigSet
replace_low old new b = if ltb b nsig_bpw then new b else old b

unfoldable pub is_none : Option SignalAction → Bool
is_none none = true
is_none (some a) = false

unfoldable pub store_action : SignalState → ℕ → SignalAction → Option SignalAction → SignalState
store_action s signum a none = s
store_action s signum a (some new) = record s {
  actions = set s.actions signum (record new { mask = replace_low a.mask new.mask });
}

-- `act` is the new action, if one is given, and `wants_old` whether the old one is asked for. The
-- results are the state, eax, and the old action that is written. `none` is an access outside of the
-- array.
unfoldable pub sys_sigaction :
    SignalState → ℕ → Option SignalAction → Bool → Option (SignalState × ℕ × Option SignalAction)
sys_sigaction s signum act wants_old =
    if ltb nsig signum
    then some (s, negative einval, none)
    else if not wants_old && is_none act
    then some (s, 0, none)
    else (get_elem? s.actions signum >>= λ a. some (
      store_action s signum a act,
      0,
      if wants_old then some (record a { mask = low_word a.mask }) else none,
    ))

-- One word of the loop of sigprocmask, for SIG_BLOCK, SIG_UNBLOCK and SIG_SETMASK.
unfoldable pub change_word : ℕ → ℕ → SigSet → SigSet → Option SigSet
change_word how i given m =
    if how == 0
    then some (λ b. if b / nsig_bpw == i then m b || given b else m b)
    else if how == 1
    then some (λ b. if b / nsig_bpw == i then m b && not (given b) else m b)
    else if how == 2
    then some (λ b. if b / nsig_bpw == i then given b else m b)
    else none

-- The loop from word i, with `left` words to go; false is an unknown `how`.
unfoldable pub change_words : ℕ → ℕ → ℕ → SigSet → SigSet → SigSet × Bool
change_words zero how i given m = (m, true)
change_words (suc left) how i given m = elim (change_word how i given m) [
  | none ↦ (m, false)
  | some m' ↦ change_words left how (suc i) given m'
]

-- `eax` is the register before the call, which keeps it if there is neither a set nor an old set.
-- The results are the state, eax, and the old mask that is written.
unfoldable pub sys_sigprocmask :
    SignalState → ℕ → ℕ → Option SigSet → Bool → SignalState × ℕ × Option SigSet
sys_sigprocmask s eax how given true = (s, 0, some s.signal_mask)
sys_sigprocmask s eax how none false = (s, eax, none)
sys_sigprocmask s eax how (some g) false =
    let (m, known) = change_words nsig_words how 0 g s.signal_mask in
    (record s { signal_mask = m }, if known then 0 else negative einval, none)

-- `read` is the user memory at an address, read as a saved state; ebx holds the address.
unfoldable pub sys_rt_sigreturn : (ℕ → SaveState) → ℕ → SignalState → SignalState
sys_rt_sigreturn read ebx s = record s {
  context = (read ebx).context;
  signal_mask = (read ebx).signal_mask;
}
