-- ===== src/Signals/Totality.antt =====
-- A signal from 1 to 63 is delivered without a fault.
use keow.Prelude.{
  ℕ, ◌-◌, ◌≡◌, ◌∙◌, refl, ap, inl, inr, true, false, ◌||◌, some, arith, ◌==◌, leb, length,
  Bool-cases, get_elem?_within,
}
use keow.Signals.{SignalState, Layout, Effect, sigkill, sigstop, nsig}
use keow.Signals.Delivery.{
  terminate, add_effect, take_action, deliver, handle_signal, send_signal_self, is_masked,
}
use keow.Signals.Kept.{IsSignal, Keeps, IfSome-some, deliver-Keeps}

-- The arrays have their declared sizes.
pub record IsSized (s : SignalState) : Type 0 where
  pub pending : length s.pending ≡ nsig
  pub actions : length s.actions ≡ nsig

pub Keeps-IsSized : (s t : SignalState) → Keeps s t → IsSized s → IsSized t
Keeps-IsSized s t k z = record {
  pending = omega (arith, ap length k.pending, z.pending);
  actions = k.actions ∙ z.actions;
}

pub in_mask : (sig : ℕ) → IsSignal sig → (sig == 0 || leb 64 (sig - 1)) ≡ false
in_mask sig (positive, below) = ground arith

module _ (layout : Layout) where
  -- What a delivery comes to, for every signal that has an action.
  pub deliver_total :
      (sig : ℕ) (s : SignalState)
      → IsSignal sig
      → IsSized s
      → (t : SignalState) × (deliver layout sig s ≡ some t) × Keeps s t
  unfolding deliver is_masked
  deliver_total sig s valid z =
      let (t, ran) = some_result in (t, ran, IfSome-some (Keeps s) ran (deliver-Keeps layout sig s))
    where
      some_result : (t : SignalState) × (deliver layout sig s ≡ some t)
      some_result = elim (Bool-cases (sig == sigkill)) [
        | inl kill ↦ (terminate sig s, rw kill refl)
        | inr other ↦ elim (Bool-cases (sig == sigstop)) [
          | inl stop ↦ (add_effect Effect.suspend_threads s, rw (other, stop) refl)
          | inr more ↦ elim (Bool-cases (s.signal_mask (sig - 1))) [
            | inl masked ↦ (s, rw (other, more, in_mask sig valid, masked) refl)
            | inr free ↦
                let (a, at) = get_elem?_within s.actions sig (omega (arith, valid.1, z.actions)) in
                (take_action layout sig a s, rw (other, more, in_mask sig valid, free, at) refl)
          ]
        ]
      ]

  -- The process sends a signal to itself, and no one traces it.
  pub send_signal_self_total :
      (tracer : ℕ → ℕ) (sig : ℕ) (s : SignalState)
      → IsSignal sig
      → IsSized s
      → s.ptrace_owner ≡ 0
      → (t : SignalState) × (send_signal_self layout tracer sig s ≡ some t)
        × (t.pending ≡ s.pending)
        × IsSized t
        × (t.ptrace_owner ≡ 0)
        × (t.current_signal ≡ 0)
  unfolding send_signal_self handle_signal
  send_signal_self_total tracer sig s valid z alone =
      let (t, ran, k) =
        deliver_total sig (record s { current_signal = sig }) valid
          (record { pending = z.pending; actions = z.actions }) in
      let untraced : (s.ptrace_owner == 0) ≡ true = ground (arith, alone) in
      (
        record t { current_signal = 0 },
        rw (untraced, ran) refl,
        k.pending,
        record {
          pending =
              (Keeps-IsSized _ t k (record { pending = z.pending; actions = z.actions })).pending;
          actions = k.actions ∙ z.actions;
        },
        k.owner ∙ alone,
        refl,
      )
