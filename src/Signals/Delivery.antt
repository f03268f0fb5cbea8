-- ===== src/Signals/Delivery.antt =====
-- The start of a process's signals, their delivery and the rounds of its debugger:
-- InitSignalHandling, HandleSignal, SendSignal and DebuggerLoop of
-- keow-kernel/KeowKernel/Process.cpp.
use keow.Prelude.{
  ℕ, zero, suc, ◌+◌, ◌-◌, ◌*◌, ◌%◌, Bool, true, false, not, ◌&&◌, ◌||◌, List, [], ◌∷◌, Option, none,
  some, leb, ◌==◌, if◌then◌else◌, ◌>>=◌, get_elem?, set,
}
use keow.Errno.{word, negative}
use keow.Signals.{
  exit, core_dump, suspend_threads, resume_threads, single_step, notify_owner, write_frame, SigSet,
  nsig, nsig_bpw, nsig_words, sigkill, sigcont, sigstop, sigtrap, sig_dfl, sig_ign, sa_siginfo,
  sa_nodefer, sa_resethand, has_flag, SignalAction, Frame, Layout, Effect, SignalState,
}

-- The loops that fill the arrays.
unfoldable pub repeated {ℓ} : {A : Type ℓ} → ℕ → A → List A
repeated zero a = []
repeated (suc n) a = a ∷ repeated n a

abbrev pub default_action : SignalAction
default_action = record { handler = sig_dfl; flags = 0; restorer = 0; mask = λ b. false }

unfoldable pub init_signal_handling : SignalState → SignalState
init_signal_handling s = record s {
  current_signal = 0;
  killed_by = 0;
  pending = repeated nsig false;
  signal_mask = λ b. false;
  actions = repeated nsig default_action;
}

-- What the default action of a signal does.
pub data Disposition : Type 0 where
  ignores continues stops terminates dumps : Disposition

unfoldable pub one_of : ℕ → List ℕ → Bool
one_of n [] = false
one_of n (m ∷ ms) = n == m || one_of n ms

-- The switch on the signal; a signal with no case of its own terminates. A traced process ignores
-- SIGTRAP, which else falls through to the core dump.
unfoldable pub disposition : Bool → ℕ → Disposition
disposition traced sig =
    if one_of sig (17 ∷ 23 ∷ [])
    then ignores
    else if sig == sigcont
    then continues
    else if one_of sig (19 ∷ 20 ∷ 21 ∷ 22 ∷ [])
    then stops
    else if one_of sig (1 ∷ 2 ∷ 13 ∷ 14 ∷ 15 ∷ 10 ∷ 12 ∷ 29 ∷ 27 ∷ [])
    then terminates
    else if sig == sigtrap && traced
    then ignores
    else if one_of sig (5 ∷ 3 ∷ 4 ∷ 6 ∷ 8 ∷ 11 ∷ 7 ∷ 31 ∷ [])
    then dumps
    else terminates

unfoldable pub add_effect : Effect → SignalState → SignalState
add_effect e s = record s { effects = e ∷ s.effects }

-- m_KilledBySig = sig, then exit(-sig).
unfoldable pub terminate : ℕ → SignalState → SignalState
terminate sig s = add_effect (exit (negative sig)) (record s { killed_by = sig })

unfoldable pub do_default : Disposition → ℕ → SignalState → SignalState
do_default ignores sig s = s
do_default continues sig s = add_effect resume_threads s
do_default stops sig s = add_effect suspend_threads s
do_default terminates sig s = terminate sig s
do_default dumps sig s = terminate sig (add_effect core_dump s)

abbrev pub add_signal : ℕ → SigSet → SigSet
add_signal sig m b = if b == sig - 1 then true else m b

-- The mask while the handler runs.
unfoldable pub handler_mask : ℕ → SignalAction → SigSet
handler_mask sig a =
    if not (has_flag a.flags sa_nodefer) || not (has_flag a.flags sa_nodefer)
    then add_signal sig a.mask
    else a.mask

-- The test of the mask. `none` is a shift by -1, or a read past the words of the mask.
unfoldable pub is_masked : SigSet → ℕ → Option Bool
is_masked m sig =
    if sig == 0 || leb (nsig_words * nsig_bpw) (sig - 1) then none else some (m (sig - 1))

-- The first signal that is pending; `sig` is the number of the head.
unfoldable pub first_pending : List Bool → ℕ → Option ℕ
first_pending [] sig = none
first_pending (b ∷ bs) sig = let later = first_pending bs (suc sig) in if b then some sig else later

module _ (layout : Layout) where
  unfoldable pub new_esp : SignalState → ℕ
  new_esp s = (s.context.esp + (word - layout.frame_size % word)) % word

  unfoldable pub frame_for : ℕ → SignalAction → SignalState → Frame
  frame_for sig a s = record {
    return_address = (new_esp s + layout.restorer_at) % word;
    arg_signal = sig;
    arg_sig_info =
        if has_flag a.flags sa_siginfo then (new_esp s + layout.siginfo_at) % word else 0;
    arg_data = 0;
    saved_state = record { context = s.context; signal_mask = s.signal_mask };
    restorer_ebx = (new_esp s + layout.saved_at) % word;
  }

  -- Dispatch to a handler of the process.
  unfoldable pub enter_handler : ℕ → SignalAction → SignalState → SignalState
  enter_handler sig a s =
      let frame = frame_for sig a s in
      add_effect (write_frame (new_esp s) frame) (record s {
        actions = set s.actions sig (
            if has_flag a.flags sa_resethand || has_flag a.flags sa_resethand
            then record a { handler = sig_dfl }
            else a);
        signal_mask = handler_mask sig a;
        context = record {
          eip = a.handler;
          esp = new_esp s;
          eax = sig;
          ecx = frame.arg_data;
          edx = frame.arg_sig_info;
          others = s.context.others;
        };
      })

  unfoldable pub take_action : ℕ → SignalAction → SignalState → SignalState
  take_action sig a s =
      if a.handler == sig_dfl
      then do_default (disposition (not (s.ptrace_owner == 0)) sig) sig s
      else if a.handler == sig_ign
      then s
      else enter_handler sig a s

  -- HandleSignal after the stop for ptrace. `none` is an access outside of an array.
  unfoldable pub deliver : ℕ → SignalState → Option SignalState
  deliver sig s =
      if sig == sigkill
      then some (terminate sig s)
      else if sig == sigstop
      then some (add_effect suspend_threads s)
      else (is_masked s.signal_mask sig >>= λ masked.
          if masked then some s else (get_elem? s.actions sig >>= λ a. some (take_action sig a s)))

  -- `tracer` is the signal that the owner leaves in `new_signal` when it lets the process go on.
  unfoldable pub handle_signal : (ℕ → ℕ) → ℕ → SignalState → Option SignalState
  handle_signal tracer sig s =
      if s.ptrace_owner == 0
      then deliver sig s
      else (let stopped = record (add_effect (notify_owner s.ptrace_owner) s) {
        new_signal = tracer sig;
      } in
          if tracer sig == 0 && not (sig == 0) then some stopped else deliver (tracer sig) stopped)

  -- SendSignal to the process that is on its own kernel thread.
  unfoldable pub send_signal_self : (ℕ → ℕ) → ℕ → SignalState → Option SignalState
  send_signal_self tracer sig s =
      handle_signal tracer sig (record s { current_signal = sig }) >>= λ t.
      some (record t { current_signal = 0 })

  -- The head of DebuggerLoop's round, with the signal that was handled. `none` is a fault in the
  -- handling.
  unfoldable pub dispatch_pending : (ℕ → ℕ) → SignalState → Option (SignalState × Option ℕ)
  dispatch_pending tracer s = elim (first_pending s.pending 0) [
    | none ↦ some (s, none)
    | some sig ↦
        send_signal_self tracer sig (record s { pending = set s.pending sig false }) >>= λ t.
        some (t, some sig)
  ]

  unfoldable pub after_round :
      (SignalState → Option (SignalState × List ℕ))
      → SignalState × Option ℕ
      → Option (SignalState × List ℕ)
  after_round next (s, none) = some (s, [])
  after_round next (s, some sig) = next s >>= λ (t, handled). some (t, sig ∷ handled)

  -- DebuggerLoop's rounds, at most `n` of them, for as long as they start with a signal, and the
  -- signals they handled.
  unfoldable pub run_rounds : (ℕ → ℕ) → ℕ → SignalState → Option (SignalState × List ℕ)
  run_rounds tracer zero s = some (s, [])
  run_rounds tracer (suc n) s = dispatch_pending tracer s >>= after_round (run_rounds tracer n)

-- SendSignal to another process. `none` is a write outside of the array.
unfoldable pub send_signal_other : ℕ → SignalState → Option SignalState
send_signal_other sig s = get_elem? s.pending sig >>= λ b.
    some (add_effect single_step (record s { pending = set s.pending sig true }))
