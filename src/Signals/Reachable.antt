-- ===== src/Signals/Reachable.antt =====
-- Every state that signals and their calls lead to.
use keow.Prelude.{ℕ, ◌≡◌, sym, subst, Bool, Option, some}
use keow.Signals.{SigSet, SignalState, SignalAction, SaveState, Layout}
use keow.Signals.Delivery.{
  init_signal_handling, send_signal_self, send_signal_other, dispatch_pending,
}
use keow.Signals.Calls.{sys_sigaction, sys_sigprocmask, sys_rt_sigreturn}
use keow.Signals.Sound.{
  IsSound, init_signal_handling-IsSound, Keeps-IsSound, sys_rt_sigreturn-Keeps,
  send_signal_other-IsSound, sys_sigprocmask-IsSound, sys_sigaction-IsSound,
  send_signal_self-IsSound, dispatch_pending-IsSound,
}

-- One event of the process.
pub data Step (layout : Layout) : SignalState → SignalState → Type 0 where
  by_self :
      (tracer : ℕ → ℕ) (sig : ℕ) {s t : SignalState}
      → send_signal_self layout tracer sig s ≡ some t
      → Step layout s t
  by_other : (sig : ℕ) {s t : SignalState} → send_signal_other sig s ≡ some t → Step layout s t
  by_round :
      (tracer : ℕ → ℕ) {s t : SignalState} (o : Option ℕ)
      → dispatch_pending layout tracer s ≡ some (t, o)
      → Step layout s t
  by_sigaction :
      (signum : ℕ) (act : Option SignalAction) (wants_old : Bool) {s t : SignalState} (result : ℕ)
      (old : Option SignalAction)
      → sys_sigaction s signum act wants_old ≡ some (t, result, old)
      → Step layout s t
  by_sigprocmask :
      (eax how : ℕ) (given : Option SigSet) (wants_old : Bool) {s t : SignalState}
      → t ≡ (sys_sigprocmask s eax how given wants_old).0
      → Step layout s t
  by_sigreturn :
      (read : ℕ → SaveState) (ebx : ℕ) {s t : SignalState}
      → t ≡ sys_rt_sigreturn read ebx s
      → Step layout s t
  by_tracer :
      (owner : ℕ) {s t : SignalState} → t ≡ record s { ptrace_owner = owner } → Step layout s t

-- The states that events lead to from the start of a process.
pub data Reachable (layout : Layout) : SignalState → Type 0 where
  start : (s : SignalState) {t : SignalState} → t ≡ init_signal_handling s → Reachable layout t
  next : {s t : SignalState} → Reachable layout s → Step layout s t → Reachable layout t

module _ (layout : Layout) where
  Step-IsSound : (s t : SignalState) → IsSound s → Step layout s t → IsSound t
  Step-IsSound s t i (Step.by_self tracer sig ran) =
      send_signal_self-IsSound layout tracer sig s t i ran
  Step-IsSound s t i (Step.by_other sig ran) = send_signal_other-IsSound sig s t i ran
  Step-IsSound s t i (Step.by_round tracer o ran) =
      dispatch_pending-IsSound layout tracer s t o i ran
  Step-IsSound s t i (Step.by_sigaction signum act wants_old result old ran) =
      sys_sigaction-IsSound signum act wants_old s t result old i ran
  Step-IsSound s t i (Step.by_sigprocmask eax how given wants_old e) =
      subst IsSound (sym e) (sys_sigprocmask-IsSound s eax how given wants_old i)
  Step-IsSound s t i (Step.by_sigreturn read ebx e) =
      subst IsSound (sym e) (Keeps-IsSound s _ (sys_rt_sigreturn-Keeps read ebx s) i)
  Step-IsSound s t i (Step.by_tracer owner e) =
      subst IsSound (sym e)
        (record { pending = i.pending; actions = i.actions; idle = i.idle; kill = i.kill })

  -- In every state that a process can reach by signals to itself, signals from other processes, the
  -- rounds of its debugger, sigaction, sigprocmask, sigreturn and a change of its tracer, the arrays
  -- have their sizes, no signal is current, and a process that a signal has killed has asked to exit
  -- with that signal's number.
  pub Reachable-IsSound : {s : SignalState} → Reachable layout s → IsSound s
  Reachable-IsSound (Reachable.start s e) = subst IsSound (sym e) (init_signal_handling-IsSound s)
  Reachable-IsSound (Reachable.next {s} {t} r st) = Step-IsSound s t (Reachable-IsSound r) st
