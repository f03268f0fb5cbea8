-- ===== src/Signals/Tests.antt =====
-- A process with a one-shot handler for signal 10, to which the signals 10 and 15 were sent.
use keow.Prelude.{
  ℕ, ◌^◌, ◌-◌, ◌≡◌, refl, [], ◌∷◌, none, some, arith, true, false, get_elem?, set, if◌then◌else◌,
  ltb,
}
use keow.Errno.{word, negative}
use keow.Signals.{
  SignalState, SignalAction, SaveState, Frame, Layout, Effect, nsig, sigkill, sig_dfl, has_flag,
  sa_resethand,
}
use keow.Signals.Delivery.{
  repeated, default_action, init_signal_handling, deliver, enter_handler, send_signal_self,
  send_signal_other, first_pending, terminate, add_effect, dispatch_pending, is_masked,
  handle_signal, take_action, disposition, one_of, do_default,
}
use keow.Signals.Calls.{sys_sigprocmask, sys_rt_sigreturn}
use keow.Signals.Draining.{raised}
use keow.Signals.Returning.{
  IsCaught, stored, deliver-enter_handler, sys_rt_sigreturn-deliver, deliver-deliver,
}
use keow.Signals.Masks.{changed, sys_sigprocmask-changed}
use keow.Signals.Sound.{IsSound}
use keow.Signals.Reachable.{Step, Reachable, Reachable-IsSound}

abbrev layout : Layout
layout = record { frame_size = 900; saved_at = 140; siginfo_at = 12; restorer_at = 880 }

abbrev no_tracer : ℕ → ℕ
no_tracer sig = sig

abbrev one_shot : SignalAction
one_shot = record { handler = 4096; flags = 2 ^ 31; restorer = 0; mask = λ b. ltb b 3 }

abbrev shell : SignalState
shell = record {
  current_signal = 0;
  killed_by = 0;
  pending = set (set (repeated nsig false) 10 true) 15 true;
  signal_mask = λ b. false;
  actions = set (repeated nsig default_action) 10 one_shot;
  context = record { eip = 77; esp = 8000; eax = 1; ecx = 2; edx = 3; others = 5 ∷ [] };
  ptrace_owner = 0;
  new_signal = 0;
  effects = [];
}

shell-IsCaught : IsCaught shell 10 one_shot
unfolding repeated
shell-IsCaught = record {
  valid = omega arith;
  catchable = (omega arith, omega arith);
  action = refl;
  own = (omega arith, omega arith);
  unblocked = refl;
}

raised_test : raised shell.pending 0 ≡ 10 ∷ 15 ∷ []
unfolding repeated raised
raised_test = refl

killed_test :
    deliver layout sigkill shell
    ≡ some (add_effect (Effect.exit (word - 9)) (record shell { killed_by = 9 }))
unfolding deliver terminate
killed_test = refl

abbrev garbage : ℕ → SaveState
garbage address = record { context = shell.context; signal_mask = λ b. true }

abbrev in_handler : SignalState
in_handler = enter_handler layout 10 one_shot shell

sys_rt_sigreturn-deliver_example :
    (f : Frame) × (in_handler.effects ≡ Effect.write_frame in_handler.context.esp f ∷ shell.effects)
    × (in_handler.context.eip ≡ one_shot.handler)
    × (in_handler.context.eax ≡ 10)
    × ((sys_rt_sigreturn
          (stored layout garbage in_handler.effects)
          f.restorer_ebx
          in_handler).context
        ≡ shell.context)
    × ((sys_rt_sigreturn
          (stored layout garbage in_handler.effects)
          f.restorer_ebx
          in_handler).signal_mask
        ≡ shell.signal_mask)
sys_rt_sigreturn-deliver_example =
    sys_rt_sigreturn-deliver layout 10 one_shot shell in_handler in_handler garbage
      (stored layout garbage in_handler.effects) shell-IsCaught
      (deliver-enter_handler layout 10 one_shot shell shell-IsCaught) refl

deliver-deliver_example :
    (deliver layout 10 in_handler ≡ some in_handler)
    × (in_handler.signal_mask 2 ≡ one_shot.mask 2)
    × (get_elem? in_handler.actions 10
        ≡ some (
            if has_flag one_shot.flags sa_resethand
            then record one_shot { handler = sig_dfl }
            else one_shot))
deliver-deliver_example =
    deliver-deliver layout 10 one_shot shell in_handler 2 shell-IsCaught refl (omega arith)
      (deliver-enter_handler layout 10 one_shot shell shell-IsCaught)

sys_sigprocmask-changed_example :
    let (t, result, old) = sys_sigprocmask shell 5 0 (some (λ b. ltb b 3)) false in
    (t ≡ record shell { signal_mask = t.signal_mask })
    × (result ≡ 0)
    × (old ≡ none)
    × (t.signal_mask 2
        ≡ (if ltb 2 64 then changed 0 (λ b. ltb b 3) shell.signal_mask 2 else shell.signal_mask 2))
sys_sigprocmask-changed_example = sys_sigprocmask-changed shell 5 0 (λ b. ltb b 3) 2 (omega arith)

-- Signal 12 is sent by another process to a process that has just started, and its debugger's next
-- round kills it.
abbrev sent : SignalState
sent = record (init_signal_handling shell) {
  pending = set (repeated nsig false) 12 true;
  effects = Effect.single_step ∷ [];
}

abbrev killed : SignalState
killed = record (init_signal_handling shell) {
  killed_by = 12;
  effects = Effect.exit (negative 12) ∷ Effect.single_step ∷ [];
}

sent_lem : send_signal_other 12 (init_signal_handling shell) ≡ some sent
unfolding send_signal_other init_signal_handling repeated add_effect
sent_lem = refl

killed_lem : dispatch_pending layout no_tracer sent ≡ some (killed, some 12)
unfolding dispatch_pending send_signal_self handle_signal deliver init_signal_handling repeated
    first_pending is_masked take_action disposition one_of do_default terminate add_effect
killed_lem = refl

killed-Reachable : Reachable layout killed
killed-Reachable =
    Reachable.next (Reachable.next (Reachable.start shell refl) (Step.by_other 12 sent_lem))
      (Step.by_round no_tracer (some 12) killed_lem)

Reachable-IsSound_example : IsSound killed
Reachable-IsSound_example = Reachable-IsSound layout killed-Reachable
