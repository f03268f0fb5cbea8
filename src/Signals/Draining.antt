-- ===== src/Signals/Draining.antt =====
-- The rounds of DebuggerLoop that handle the pending signals.
use keow.Prelude.{
  ℕ, suc, ◌+◌, ◌<◌, ◌≡◌, ◌≢◌, ◌∙◌, refl, ap, sym, Bool, true, false, List, [], ◌∷◌, some, arith,
  get_elem?, set, length-set, get_elem?-set_ne, get_elem?-length,
}
use keow.Signals.{SignalState, Layout}
use keow.Signals.Delivery.{first_pending, send_signal_self, dispatch_pending}
use keow.Signals.Totality.{IsSized, send_signal_self_total}

-- The signals that are pending, in ascending order; `i` is the number of the head.
unfoldable pub raised : List Bool → ℕ → List ℕ
raised [] i = []
raised (true ∷ bs) i = i ∷ raised bs (suc i)
raised (false ∷ bs) i = raised bs (suc i)

-- The head of the raised signals is the one found, and the others stay raised.
record IsFirst (bs : List Bool) (i k : ℕ) : Type 0 where
  found : first_pending bs i ≡ some (i + k)
  head : raised bs i ≡ (i + k) ∷ raised (set bs k false) i
  set_there : get_elem? bs k ≡ some true

-- What the rounds start from: the arrays have their sizes, no one traces the process, and signal 0,
-- which is none, is not pending.
pub record IsReady (s : SignalState) : Type 0 where
  pub sized : IsSized s
  pub untraced : s.ptrace_owner ≡ 0
  pub no_zero : get_elem? s.pending 0 ≡ some false

module _ (layout : Layout) where
  one_round :
      (tracer : ℕ → ℕ) (s : SignalState) (k : ℕ)
      → IsReady s
      → IsFirst s.pending 0 k
      → (t : SignalState) × (dispatch_pending layout tracer s ≡ some (t, some k))
        × IsReady t
        × (raised s.pending 0 ≡ k ∷ raised t.pending 0)
  unfolding dispatch_pending
  one_round tracer s k ready f =
      let nonzero : k ≢ 0 = λ e. differ (ap (get_elem? s.pending) e ∙ ready.no_zero) in
      let below : k < 64 =
        omega (arith, get_elem?-length s.pending k f.set_there, ready.sized.pending) in
      let cleared : IsSized (record s { pending = set s.pending k false }) = record {
        pending = length-set s.pending k false ∙ ready.sized.pending;
        actions = ready.sized.actions;
      } in
      let (t, ran, same, sized, alone, idle) =
        send_signal_self_total layout tracer k (record s { pending = set s.pending k false })
          (omega (arith, nonzero), below) cleared ready.untraced in
      (
        t,
        dispatched t ran,
        record {
          sized = sized;
          untraced = alone;
          no_zero =
              ap (λ p. get_elem? p 0) same
              ∙ (get_elem?-set_ne s.pending false nonzero ∙ ready.no_zero);
        },
        rw same head,
      )
    where
      plus : 0 + k ≡ k
      plus = omega arith

      head : raised s.pending 0 ≡ k ∷ raised (set s.pending k false) 0
      head = f.head ∙ ap (λ n. n ∷ raised (set s.pending k false) 0) plus

      found : first_pending s.pending 0 ≡ some k
      found = f.found ∙ ap some plus

      differ : get_elem? s.pending k ≡ some false → ⊥
      differ h = let e : some true ≡ some false = sym f.set_there ∙ h in cc

      dispatched :
          (t : SignalState)
          → send_signal_self layout tracer k (record s { pending = set s.pending k false }) ≡ some t
          → dispatch_pending layout tracer s ≡ some (t, some k)
      dispatched t ran = rw (found, dispatch_pending, ran) refl
