-- ===== src/Signals/Sound.antt =====
-- What each operation on signals keeps.
use keow.Prelude.{
  ℕ, zero, suc, ◌≡◌, ◌∙◌, refl, ap, sym, subst, inl, inr, Bool, true, false, Option, none, some,
  arith, ◌==◌, not, ◌&&◌, ltb, get_elem?, set, length, length-set, Bool-cases, Option-cases,
  some_inj, bind_some,
}
use keow.Signals.{SigSet, SignalState, SignalAction, SaveState, Layout, Effect, nsig}
use keow.Signals.Delivery.{
  repeated, init_signal_handling, add_effect, deliver, handle_signal, send_signal_self,
  send_signal_other, dispatch_pending, first_pending,
}
use keow.Signals.Calls.{is_none, store_action, sys_sigaction, sys_sigprocmask, sys_rt_sigreturn}
use keow.Signals.Kept.{IfSome, IfSome-some, Keeps, KillRecorded, deliver-Keeps}

-- Between two events: the arrays have their sizes, no signal is current, and a process that a
-- signal has killed has asked to exit with that signal.
pub record IsSound (s : SignalState) : Type 0 where
  pub pending : length s.pending ≡ nsig
  pub actions : length s.actions ≡ nsig
  pub idle : s.current_signal ≡ 0
  pub kill : KillRecorded s

length-repeated {ℓ} : {A : Type ℓ} (n : ℕ) (a : A) → length (repeated n a) ≡ n
unfolding repeated
length-repeated zero a = refl
length-repeated (suc n) a = omega (arith, length-repeated n a)

pub init_signal_handling-IsSound : (s : SignalState) → IsSound (init_signal_handling s)
unfolding init_signal_handling
init_signal_handling-IsSound s = record {
  pending = length-repeated nsig false;
  actions = length-repeated nsig _;
  idle = refl;
  kill = inl refl;
}

IfSome-map {ℓ κ λ'} :
    {A : Type ℓ} {P : A → Type κ} {Q : A → Type λ'} (o : Option A)
    → ((a : A) → P a → Q a)
    → IfSome P o
    → IfSome Q o
IfSome-map none f h = tt
IfSome-map (some a) f h = f a h

Keeps-trans : (s t u : SignalState) → Keeps s t → Keeps t u → Keeps s u
Keeps-trans s t u k l = record {
  pending = l.pending ∙ k.pending;
  actions = l.actions ∙ k.actions;
  owner = l.owner ∙ k.owner;
  current = l.current ∙ k.current;
  kill = λ h. l.kill (k.kill h);
}

pub Keeps-IsSound : (s t : SignalState) → Keeps s t → IsSound s → IsSound t
Keeps-IsSound s t k i = record {
  pending = ap length k.pending ∙ i.pending;
  actions = k.actions ∙ i.actions;
  idle = k.current ∙ i.idle;
  kill = k.kill i.kill;
}

stop_lem :
    (s : SignalState) (sig : ℕ)
    → Keeps s (record (add_effect (Effect.notify_owner s.ptrace_owner) s) { new_signal = sig })
unfolding add_effect
stop_lem s sig = record {
  pending = refl;
  actions = refl;
  owner = refl;
  current = refl;
  kill = λ k. elim k [ inl none_yet ↦ inl none_yet | inr there ↦ inr (inr there) ];
}

pub sys_rt_sigreturn-Keeps :
    (read : ℕ → SaveState) (ebx : ℕ) (s : SignalState) → Keeps s (sys_rt_sigreturn read ebx s)
unfolding sys_rt_sigreturn
sys_rt_sigreturn-Keeps read ebx s = record {
  pending = refl;
  actions = refl;
  owner = refl;
  current = refl;
  kill = λ k. k;
}

pub send_signal_other-IsSound :
    (sig : ℕ) (s t : SignalState) → IsSound s → send_signal_other sig s ≡ some t → IsSound t
unfolding send_signal_other add_effect
send_signal_other-IsSound sig s t i ran =
    let (b, at, last) = bind_some (get_elem? s.pending sig) _ ran in
    subst IsSound (some_inj last) (record {
      pending = length-set s.pending sig true ∙ i.pending;
      actions = i.actions;
      idle = i.idle;
      kill = elim i.kill [ inl none_yet ↦ inl none_yet | inr there ↦ inr (inr there) ];
    })

pub sys_sigprocmask-IsSound :
    (s : SignalState) (eax how : ℕ) (given : Option SigSet) (wants_old : Bool)
    → IsSound s
    → IsSound (sys_sigprocmask s eax how given wants_old).0
unfolding sys_sigprocmask
sys_sigprocmask-IsSound s eax how given true i = i
sys_sigprocmask-IsSound s eax how none false i = i
sys_sigprocmask-IsSound s eax how (some g) false i = record {
  pending = i.pending;
  actions = i.actions;
  idle = i.idle;
  kill = i.kill;
}

store_action-IsSound :
    (s : SignalState) (signum : ℕ) (a : SignalAction) (act : Option SignalAction)
    → IsSound s
    → IsSound (store_action s signum a act)
unfolding store_action
store_action-IsSound s signum a none i = i
store_action-IsSound s signum a (some new) i = record {
  pending = i.pending;
  actions = length-set s.actions signum _ ∙ i.actions;
  idle = i.idle;
  kill = i.kill;
}

pub sys_sigaction-IsSound :
    (signum : ℕ) (act : Option SignalAction) (wants_old : Bool) (s t : SignalState) (result : ℕ)
    (old : Option SignalAction)
    → IsSound s
    → sys_sigaction s signum act wants_old ≡ some (t, result, old)
    → IsSound t
unfolding sys_sigaction
sys_sigaction-IsSound signum act wants_old s t result old i ran =
    elim (Bool-cases (ltb nsig signum)) [
      | inl past ↦ subst IsSound (state_of (rw past at ran)) i
      | inr within ↦ elim (Bool-cases (not wants_old && is_none act)) [
        | inl nothing ↦ subst IsSound (state_of (rw (within, nothing) at ran)) i
        | inr asked ↦
            let (a, at, last) =
              bind_some (get_elem? s.actions signum) _ (rw (within, asked) at ran) in
            subst IsSound (state_of last) (store_action-IsSound s signum a act i)
      ]
    ]
  where
    state_of :
        {u v : SignalState} {q r : ℕ} {old_q old_r : Option SignalAction}
        → ◌≡◌ {A = Option (SignalState × ℕ × Option SignalAction)}
            (some (u, q, old_q))
            (some (v, r, old_r))
        → u ≡ v
    state_of e = ap (λ (x : SignalState × ℕ × Option SignalAction). x.0) (some_inj e)

module _ (layout : Layout) where
  handle_signal-Keeps :
      (tracer : ℕ → ℕ) (sig : ℕ) (s : SignalState)
      → IfSome (Keeps s) (handle_signal layout tracer sig s)
  unfolding handle_signal
  handle_signal-Keeps tracer sig s = elim (Bool-cases (s.ptrace_owner == 0)) [
    | inl alone ↦ rw alone (deliver-Keeps layout sig s)
    | inr traced ↦ rw traced (elim (Bool-cases (tracer sig == 0 && not (sig == 0))) [
      | inl dropped ↦ rw dropped stop
      | inr goes_on ↦ rw goes_on (
          IfSome-map (deliver layout (tracer sig) stopped) (λ t k. Keeps-trans s stopped t stop k)
            (deliver-Keeps layout (tracer sig) stopped))
    ])
  ]
    where
      stopped : SignalState
      stopped = record (add_effect (Effect.notify_owner s.ptrace_owner) s) {
        new_signal = tracer sig;
      }

      stop : Keeps s stopped
      stop = stop_lem s (tracer sig)

  pub send_signal_self-IsSound :
      (tracer : ℕ → ℕ) (sig : ℕ) (s t : SignalState)
      → IsSound s
      → send_signal_self layout tracer sig s ≡ some t
      → IsSound t
  unfolding send_signal_self
  send_signal_self-IsSound tracer sig s t i ran =
      let (u, handled, last) =
        bind_some (handle_signal layout tracer sig (record s { current_signal = sig })) _ ran in
      let k =
        IfSome-some (Keeps (record s { current_signal = sig })) handled
          (handle_signal-Keeps tracer sig (record s { current_signal = sig })) in
      let done : t ≡ record u { current_signal = 0 } = sym (some_inj last) in
      subst IsSound (sym done) (record {
        pending = ap length k.pending ∙ i.pending;
        actions = k.actions ∙ i.actions;
        idle = refl;
        kill = k.kill i.kill;
      })

  pub dispatch_pending-IsSound :
      (tracer : ℕ → ℕ) (s t : SignalState) (o : Option ℕ)
      → IsSound s
      → dispatch_pending layout tracer s ≡ some (t, o)
      → IsSound t
  unfolding dispatch_pending
  dispatch_pending-IsSound tracer s t o i ran = elim (Option-cases (first_pending s.pending 0)) [
    | inl nothing ↦
        let same : s ≡ t =
          ap (λ (p : SignalState × Option ℕ). p.0)
            (some_inj (rw (nothing, dispatch_pending) at ran)) in
        subst IsSound same i
    | inr (sig, found) ↦
        let run = rw (found, dispatch_pending) at ran in
        let (u, sent, last) =
          bind_some
            (send_signal_self layout tracer sig (record s { pending = set s.pending sig false })) _
            run in
        let same : u ≡ t = ap (λ (p : SignalState × Option ℕ). p.0) (some_inj last) in
        subst IsSound same (
          send_signal_self-IsSound tracer sig (record s { pending = set s.pending sig false }) u
            (cleared sig) sent)
  ]
    where
      cleared : (sig : ℕ) → IsSound (record s { pending = set s.pending sig false })
      cleared sig = record {
        pending = length-set s.pending sig false ∙ i.pending;
        actions = i.actions;
        idle = i.idle;
        kill = i.kill;
      }
