-- ===== src/Signals/Returning.antt =====
-- A handler of the process: its entry, and its return by sigreturn.
use keow.Prelude.{
  ℕ, ◌-◌, ◌+◌, ◌%◌, ◌≡◌, ◌≢◌, ◌∙◌, refl, ap, sym, subst, inl, inr, true, false, List, [], ◌∷◌, some,
  arith, ◌==◌, if◌then◌else◌, get_elem?, get_elem?-set_self, Bool-cases, get_elem?-length, some_inj,
}
use keow.Errno.{word}
use keow.Signals.{
  SignalState, SignalAction, SaveState, Frame, Effect, Layout, has_flag, sa_nodefer, sa_resethand,
  sig_dfl, sig_ign, sigkill, sigstop,
}
use keow.Signals.Delivery.{
  add_effect, deliver, take_action, enter_handler, frame_for, new_esp, handler_mask, is_masked,
}
use keow.Signals.Calls.{sys_rt_sigreturn}
use keow.Signals.Kept.{IsSignal}
use keow.Signals.Totality.{in_mask}

-- The process catches the signal by the action: it has a handler, and the signal is not blocked.
pub record IsCaught (s : SignalState) (sig : ℕ) (a : SignalAction) : Type 0 where
  pub valid : IsSignal sig
  pub catchable : (sig ≢ sigkill) × (sig ≢ sigstop)
  pub action : get_elem? s.actions sig ≡ some a
  pub own : (a.handler ≢ sig_dfl) × (a.handler ≢ sig_ign)
  pub unblocked : s.signal_mask (sig - 1) ≡ false

==_refl : (n : ℕ) → (n == n) ≡ true
==_refl n = ground arith

-- The saved state that the user memory holds at an address after some effects; `before` is the
-- memory before them.
unfoldable pub stored : Layout → (ℕ → SaveState) → List Effect → ℕ → SaveState
stored layout before [] address = before address
stored layout before (Effect.write_frame esp f ∷ es) address =
    let older = stored layout before es address in
    if (esp + layout.saved_at) % word == address then f.saved_state else older
stored layout before (e ∷ es) address = stored layout before es address

module _ (layout : Layout) where
  pub deliver-enter_handler :
      (sig : ℕ) (a : SignalAction) (s : SignalState)
      → IsCaught s sig a
      → deliver layout sig s ≡ some (enter_handler layout sig a s)
  unfolding deliver is_masked take_action
  deliver-enter_handler sig a s c =
      let not_kill : (sig == sigkill) ≡ false = ground (arith, c.catchable) in
      let not_stop : (sig == sigstop) ≡ false = ground (arith, c.catchable) in
      let not_default : (a.handler == sig_dfl) ≡ false = ground (arith, c.own) in
      let not_ignored : (a.handler == sig_ign) ≡ false = ground (arith, c.own) in
      rw (not_kill, not_stop, in_mask sig c.valid, c.unblocked, c.action, not_default, not_ignored)
        refl

  -- A caught signal writes one frame, at the stack pointer that the handler gets, and starts the
  -- handler with the signal in eax. If the saved state is still in memory when the handler is done,
  -- the call sigreturn that the frame's restorer makes brings back the registers and the mask from
  -- before the signal, whatever else has changed.
  pub sys_rt_sigreturn-deliver :
      (sig : ℕ) (a : SignalAction) (s t u : SignalState) (before after : ℕ → SaveState)
      → IsCaught s sig a
      → deliver layout sig s ≡ some t
      → after ((t.context.esp + layout.saved_at) % word)
        ≡ stored layout before t.effects ((t.context.esp + layout.saved_at) % word)
      → (f : Frame) × (t.effects ≡ Effect.write_frame t.context.esp f ∷ s.effects)
        × (t.context.eip ≡ a.handler)
        × (t.context.eax ≡ sig)
        × ((sys_rt_sigreturn after f.restorer_ebx u).context ≡ s.context)
        × ((sys_rt_sigreturn after f.restorer_ebx u).signal_mask ≡ s.signal_mask)
  unfolding enter_handler add_effect frame_for sys_rt_sigreturn stored
  sys_rt_sigreturn-deliver sig a s t u before after c ran kept =
      let entered : t ≡ enter_handler layout sig a s =
        some_inj (sym ran ∙ deliver-enter_handler sig a s c) in
      let back : after ((new_esp layout s + layout.saved_at) % word)
          ≡ record { context = s.context; signal_mask = s.signal_mask } =
        moved entered ∙ held in
      (
        frame_for layout sig a s,
        ap (λ (v : SignalState). v.effects) entered ∙ rw entered refl,
        ap (λ (v : SignalState). v.context.eip) entered,
        ap (λ (v : SignalState). v.context.eax) entered,
        ap (λ (v : SaveState). v.context) back,
        ap (λ (v : SaveState). v.signal_mask) back,
      )
    where
      held :
          stored layout before
            (enter_handler layout sig a s).effects
            ((new_esp layout s + layout.saved_at) % word)
          ≡ record { context = s.context; signal_mask = s.signal_mask }
      held =
          let same = ==_refl ((new_esp layout s + layout.saved_at) % word) in rw (same, stored) refl

      moved :
          t ≡ enter_handler layout sig a s
          → after ((new_esp layout s + layout.saved_at) % word)
            ≡ stored layout before
                (enter_handler layout sig a s).effects
                ((new_esp layout s + layout.saved_at) % word)
      moved e =
          subst
            (λ (v : SignalState).
              after ((v.context.esp + layout.saved_at) % word)
              ≡ stored layout before v.effects ((v.context.esp + layout.saved_at) % word))
            e kept

  -- For a caught signal whose action has no SA_NODEFER: in the state in which its handler starts, the
  -- signal comes to nothing when it is delivered again, and any other bit of the mask is as in the
  -- action. The action stays as it is, but with SA_RESETHAND its handler becomes the default.
  pub deliver-deliver :
      (sig : ℕ) (a : SignalAction) (s t : SignalState) (b : ℕ)
      → IsCaught s sig a
      → has_flag a.flags sa_nodefer ≡ false
      → b ≢ sig - 1
      → deliver layout sig s ≡ some t
      → (deliver layout sig t ≡ some t)
        × (t.signal_mask b ≡ a.mask b)
        × (get_elem? t.actions sig
            ≡ some (if has_flag a.flags sa_resethand then record a { handler = sig_dfl } else a))
  unfolding enter_handler add_effect handler_mask deliver is_masked
  deliver-deliver sig a s t b c defers other ran = subst After (sym entered) (again, rest, stays)
    where
      After : SignalState → Type 0
      After v =
          (deliver layout sig v ≡ some v)
          × (v.signal_mask b ≡ a.mask b)
          × (get_elem? v.actions sig
              ≡ some (if has_flag a.flags sa_resethand then record a { handler = sig_dfl } else a))

      entered : t ≡ enter_handler layout sig a s
      entered = let e = sym ran ∙ deliver-enter_handler sig a s c in cc

      again :
          deliver layout sig (enter_handler layout sig a s) ≡ some (enter_handler layout sig a s)
      again =
          let not_kill : (sig == sigkill) ≡ false = ground (arith, c.catchable) in
          let not_stop : (sig == sigstop) ≡ false = ground (arith, c.catchable) in
          rw (not_kill, not_stop, in_mask sig c.valid, defers, ==_refl (sig - 1)) refl

      rest : (enter_handler layout sig a s).signal_mask b ≡ a.mask b
      rest = let no : (b == sig - 1) ≡ false = ground (arith, other) in rw (defers, no) refl

      stays :
          get_elem? (enter_handler layout sig a s).actions sig
          ≡ some (if has_flag a.flags sa_resethand then record a { handler = sig_dfl } else a)
      stays = elim (Bool-cases (has_flag a.flags sa_resethand)) [
        | inl once ↦
            rw once (get_elem?-set_self s.actions sig _ (get_elem?-length s.actions sig c.action))
        | inr more ↦
            rw more (get_elem?-set_self s.actions sig _ (get_elem?-length s.actions sig c.action))
      ]
