-- ===== src/Signals/Kept.antt =====
-- What the delivery of a signal leaves alone.
use keow.Prelude.{
  ℕ, ◌≡◌, ◌<◌, refl, subst, ◌⊎◌, inl, inr, Bool, true, false, not, List, [], ◌∷◌, Option, none,
  some, ◌==◌, if◌then◌else◌, ◌>>=◌, get_elem?, length, length-set, Bool-cases,
}
use keow.Errno.{negative}
use keow.Signals.{SignalState, SignalAction, Layout, Effect, sigkill, sigstop, sig_dfl, sig_ign}
use keow.Signals.Delivery.{
  Disposition, terminate, add_effect, do_default, disposition, take_action, enter_handler, deliver,
  is_masked,
}

-- What holds of a result if there is one.
abbrev pub IfSome {ℓ κ} : {A : Type ℓ} → (A → Type κ) → Option A → Type κ
IfSome P none = Unit
IfSome P (some a) = P a

pub IfSome-some {ℓ κ} :
    {A : Type ℓ} (P : A → Type κ) {o : Option A} {a : A} → o ≡ some a → IfSome P o → P a
IfSome-some P e h = subst (IfSome P) e h

-- Once something has killed the process, its exit is among the effects.
abbrev pub ExitedWith : ℕ → List Effect → Type 0
ExitedWith code [] = ⊥
ExitedWith code (e ∷ es) = (e ≡ Effect.exit code) ⊎ ExitedWith code es

abbrev pub KillRecorded : SignalState → Type 0
KillRecorded s = (s.killed_by ≡ 0) ⊎ ExitedWith (negative s.killed_by) s.effects

-- The delivery keeps the pending signals, the sizes of the table, the owner and the current signal,
-- and records a kill.
pub record Keeps (s t : SignalState) : Type 0 where
  pub pending : t.pending ≡ s.pending
  pub actions : length t.actions ≡ length s.actions
  pub owner : t.ptrace_owner ≡ s.ptrace_owner
  pub current : t.current_signal ≡ s.current_signal
  pub kill : KillRecorded s → KillRecorded t

pub Keeps-refl : (s : SignalState) → Keeps s s
Keeps-refl s = record {
  pending = refl;
  actions = refl;
  owner = refl;
  current = refl;
  kill = λ k. k;
}

add_effect-Keeps : (e : Effect) (s : SignalState) → Keeps s (add_effect e s)
unfolding add_effect
add_effect-Keeps e s = record {
  pending = refl;
  actions = refl;
  owner = refl;
  current = refl;
  kill = λ k. elim k [ inl none_yet ↦ inl none_yet | inr there ↦ inr (inr there) ];
}

terminate-Keeps : (sig : ℕ) (s : SignalState) → Keeps s (terminate sig s)
unfolding terminate add_effect
terminate-Keeps sig s = record {
  pending = refl;
  actions = refl;
  owner = refl;
  current = refl;
  kill = λ k. inr (inl refl);
}

do_default-Keeps : (d : Disposition) (sig : ℕ) (s : SignalState) → Keeps s (do_default d sig s)
unfolding do_default terminate add_effect
do_default-Keeps Disposition.ignores sig s = Keeps-refl s
do_default-Keeps Disposition.continues sig s = add_effect-Keeps Effect.resume_threads s
do_default-Keeps Disposition.stops sig s = add_effect-Keeps Effect.suspend_threads s
do_default-Keeps Disposition.terminates sig s = terminate-Keeps sig s
do_default-Keeps Disposition.dumps sig s = record {
  pending = refl;
  actions = refl;
  owner = refl;
  current = refl;
  kill = λ k. inr (inl refl);
}

module _ (layout : Layout) where
  enter_handler-Keeps :
      (sig : ℕ) (a : SignalAction) (s : SignalState) → Keeps s (enter_handler layout sig a s)
  unfolding enter_handler add_effect
  enter_handler-Keeps sig a s = record {
    pending = refl;
    actions = length-set s.actions sig _;
    owner = refl;
    current = refl;
    kill = λ k. elim k [ inl none_yet ↦ inl none_yet | inr there ↦ inr (inr there) ];
  }

  take_action-Keeps :
      (sig : ℕ) (a : SignalAction) (s : SignalState) → Keeps s (take_action layout sig a s)
  unfolding take_action
  take_action-Keeps sig a s = elim (Bool-cases (a.handler == sig_dfl)) [
    | inl default ↦
        rw default (do_default-Keeps (disposition (not (s.ptrace_owner == 0)) sig) sig s)
    | inr other ↦ rw other (elim (Bool-cases (a.handler == sig_ign)) [
      | inl ignored ↦ rw ignored (Keeps-refl s)
      | inr own ↦ rw own (enter_handler-Keeps sig a s)
    ])
  ]

  -- With no fault a delivery keeps what it should.
  pub deliver-Keeps : (sig : ℕ) (s : SignalState) → IfSome (Keeps s) (deliver layout sig s)
  unfolding deliver
  deliver-Keeps sig s = elim (Bool-cases (sig == sigkill)) [
    | inl kill ↦ rw kill (terminate-Keeps sig s)
    | inr other ↦ rw other (elim (Bool-cases (sig == sigstop)) [
      | inl stop ↦ rw stop (add_effect-Keeps Effect.suspend_threads s)
      | inr more ↦ rw more (by_mask (is_masked s.signal_mask sig))
    ])
  ]
    where
      by_action :
          (o : Option SignalAction)
          → IfSome (Keeps s) (o >>= λ a. some (take_action layout sig a s))
      by_action none = tt
      by_action (some a) = take_action-Keeps sig a s

      by_mask :
          (o : Option Bool)
          → IfSome (Keeps s) (
              o >>= λ masked.
              if masked
              then some s
              else (get_elem? s.actions sig >>= λ a. some (take_action layout sig a s)))
      by_mask none = tt
      by_mask (some true) = Keeps-refl s
      by_mask (some false) = by_action (get_elem? s.actions sig)

-- A signal that can be delivered: 1 to 63.
abbrev pub IsSignal : ℕ → Type 0
IsSignal sig = (0 < sig) × (sig < 64)
