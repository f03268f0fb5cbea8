-- ===== src/Signals/Masks.antt =====
-- The calls sigprocmask and sigaction.
use keow.Prelude.{
  ℕ, zero, suc, ◌+◌, ◌/◌, ◌<◌, ◌≤◌, ◌≡◌, ◌≢◌, ◌∙◌, refl, sym, true, false, none, some, arith, ◌==◌,
  if◌then◌else◌, not, ◌||◌, ◌&&◌, ltb, leb, get_elem?, set, get_elem?-set_self, get_elem?-set_ne,
  length, get_elem?_within,
}
use keow.Errno.{negative, einval}
use keow.Signals.{SigSet, SignalState, SignalAction, nsig, nsig_bpw, nsig_words}
use keow.Signals.Calls.{
  change_word, change_words, sys_sigprocmask, sys_sigaction, is_none, store_action, replace_low,
  low_word,
}

-- What the manual says of `how`: the union with the set, the difference, or the set itself.
unfoldable pub changed : ℕ → SigSet → SigSet → SigSet
changed how given m b =
    if how == 0 then m b || given b else if how == 1 then m b && not (given b) else given b

unfoldable changed_word : ℕ → ℕ → SigSet → SigSet → SigSet
changed_word how i given m b = if b / nsig_bpw == i then changed how given m b else m b

change_word_lem :
    (how i : ℕ) (given m : SigSet)
    → how < 3
    → change_word how i given m ≡ some (changed_word how i given m)
unfolding change_word changed changed_word
change_word_lem zero i given m h = refl
change_word_lem (suc zero) i given m h = refl
change_word_lem (suc (suc zero)) i given m h = refl
change_word_lem (suc (suc (suc n))) i given m h = absurd (omega (arith, h))

one_word_lem :
    (left how i : ℕ) (given m : SigSet) (b : ℕ)
    → (if leb (suc i) (b / 32) && ltb (b / 32) (suc i + left)
        then changed how given (changed_word how i given m) b
        else changed_word how i given m b)
      ≡ (if leb i (b / 32) && ltb (b / 32) (i + suc left) then changed how given m b else m b)
unfolding changed changed_word
one_word_lem left how i given m b = ground arith

-- The words from i on are changed, `left` of them.
change_words_lem :
    (left how i : ℕ) (given m : SigSet) (b : ℕ)
    → how < 3
    → ((change_words left how i given m).1 ≡ true)
      × ((change_words left how i given m).0 b
          ≡ (if leb i (b / 32) && ltb (b / 32) (i + left) then changed how given m b else m b))
unfolding change_words
change_words_lem zero how i given m b h = (refl, ground arith)
change_words_lem (suc left) how i given m b h =
    let (known, ih) = change_words_lem left how (suc i) given (changed_word how i given m) b h in
    rw (change_word_lem how i given m h, change_words) (known, ih ∙ one_word)
  where
    one_word :
        (if leb (suc i) (b / 32) && ltb (b / 32) (suc i + left)
          then changed how given (changed_word how i given m) b
          else changed_word how i given m b)
        ≡ (if leb i (b / 32) && ltb (b / 32) (i + suc left) then changed how given m b else m b)
    one_word = one_word_lem left how i given m b

-- The loop of sigprocmask over the words of the mask comes to what `how` says of sets: with a set
-- that is not given with a place for the old one, the call succeeds for the three values of `how`,
-- and bit by bit the new mask is the union, the difference or the set. The rest of the process is
-- unchanged, and so is the mask past the 64 bits.
pub sys_sigprocmask-changed :
    (s : SignalState) (eax how : ℕ) (given : SigSet) (b : ℕ)
    → how < 3
    → let (t, result, old) = sys_sigprocmask s eax how (some given) false in
      (t ≡ record s { signal_mask = t.signal_mask })
      × (result ≡ 0)
      × (old ≡ none)
      × (t.signal_mask b
          ≡ (if ltb b 64 then changed how given s.signal_mask b else s.signal_mask b))
unfolding sys_sigprocmask
sys_sigprocmask-changed s eax how given b h =
    let (known, bits) = change_words_lem nsig_words how 0 given s.signal_mask b h in
    (refl, rw known refl, refl, bits ∙ within)
  where
    within :
        (if leb 0 (b / 32) && ltb (b / 32) (0 + nsig_words)
          then changed how given s.signal_mask b
          else s.signal_mask b)
        ≡ (if ltb b 64 then changed how given s.signal_mask b else s.signal_mask b)
    within = ground arith

change_word_unknown : (how i : ℕ) (given m : SigSet) → 3 ≤ how → change_word how i given m ≡ none
unfolding change_word
change_word_unknown how i given m h =
    let not_block : (how == 0) ≡ false = ground (arith, h) in
    let not_unblock : (how == 1) ≡ false = ground (arith, h) in
    let not_set : (how == 2) ≡ false = ground (arith, h) in
    rw (not_block, not_unblock, not_set) refl

-- For any other `how` the call returns EINVAL and changes nothing.
pub sys_sigprocmask_unknown :
    (s : SignalState) (eax how : ℕ) (given : SigSet)
    → 3 ≤ how
    → sys_sigprocmask s eax how (some given) false ≡ (s, negative einval, none)
unfolding sys_sigprocmask change_words
sys_sigprocmask_unknown s eax how given h =
    rw (change_word_unknown how 0 given s.signal_mask h, change_words) refl

-- What sigaction sets for a signal below 64 it gives back, with the low word of the mask; the high
-- word of the mask stays as it was, and so does the action of every other signal.
pub sys_sigaction-sys_sigaction :
    (s : SignalState) (signum other : ℕ) (new : SignalAction)
    → signum < 64
    → length s.actions ≡ nsig
    → other ≢ signum
    → (t : SignalState) × (old now : SignalAction) × (get_elem? s.actions signum ≡ some old)
      × (sys_sigaction s signum (some new) true
          ≡ some (t, 0, some (record old { mask = low_word old.mask })))
      × (sys_sigaction t signum none true
          ≡ some (t, 0, some (record now { mask = low_word now.mask })))
      × (now ≡ record new { mask = replace_low old.mask new.mask })
      × (get_elem? t.actions other ≡ get_elem? s.actions other)
unfolding sys_sigaction store_action is_none
sys_sigaction-sys_sigaction s signum other new h z ne =
    let (old, at) = get_elem?_within s.actions signum (omega (arith, h, z)) in
    let small : ltb nsig signum ≡ false = ground (arith, h) in
    let back =
      get_elem?-set_self s.actions signum (record new { mask = replace_low old.mask new.mask })
        (omega (arith, h, z)) in
    (
      record s {
        actions = set s.actions signum (record new { mask = replace_low old.mask new.mask });
      },
      old,
      record new { mask = replace_low old.mask new.mask },
      at,
      rw (small, at) refl,
      rw (small, back) refl,
      refl,
      get_elem?-set_ne s.actions _ (λ e. ne (sym e)),
    )
