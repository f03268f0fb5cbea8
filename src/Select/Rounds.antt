-- ===== src/Select/Rounds.antt =====
-- The turns of the loop of sys__newselect, up to the one that ends it.
use keow.Prelude.{
  ℕ, zero, suc, ◌≤◌, ◌≡◌, refl, sym, ap, ◌∙◌, inl, inr, Bool, true, false, not, ◌&&◌, ◌||◌, List,
  [], ◌∷◌, ◌++◌, Option, some, arith, ltb, ◌==◌, if◌then◌else◌, length, Bool-cases, All,
}
use mathlib.Core.Bool.{or-false}
use keow.Select.{
  FdSets, Pointers, Watch, PollTurn, Selection, fd_setsize, store_results, polls_again, bound, poll,
  select_turns,
}
use keow.Select.Polls.{is_chosen, is_found, any, among, among_start, poll-Polled}

bound_within : (num : ℕ) → num ≤ fd_setsize → bound num ≡ num
unfolding bound
bound_within num h = ground arith

or_neither : (a b : Bool) → a || b ≡ false → (a ≡ false) × (b ≡ false)
or_neither true b h = absurd (cc)
or_neither false b h = (refl, h)

not-true : (b : Bool) → not b ≡ true → b ≡ false
not-true true h = absurd (cc)
not-true false h = refl

or_same : (a b c : Bool) {x y : Bool} → x ≡ a || y → y ≡ b || c → b ≡ false → x ≡ a || c
or_same a b c h g e = h ∙ ap (λ z. a || z) (g ∙ ap (λ z. z || c) e)

among_none :
    (test other : ℕ → Bool) (n fd i : ℕ)
    → ((j : ℕ) → other j ≡ false → test j ≡ false)
    → any other n fd ≡ false
    → among test n fd i ≡ false
among_none test other zero fd i le h = refl
among_none test other (suc n) fd i le h =
    let (later, here) = or_neither (any other n (suc fd)) (other fd) h in
    rw (among_none test other n (suc fd) i le later, le fd here)
      (elim (Bool-cases (i == fd)) [ inl e ↦ rw e refl | inr e ↦ rw e refl ])

module _ {O : Type 0} (files : List (Option O)) (asked : FdSets) (num : ℕ) where
  -- Whether the poll of a turn finds a descriptor.
  abbrev pub finds : Watch O → Bool
  finds w = any (is_found files asked w) num 0

  -- The three sets that a turn with these objects adds to.
  abbrev pub Results : Watch O → FdSets → FdSets → Type 0
  Results w s r =
      ((i : ℕ) → r.reads i ≡ (ltb i num && is_chosen files asked.reads w.can_read i) || s.reads i)
      × ((i : ℕ)
          → r.writes i ≡ (ltb i num && is_chosen files asked.writes w.can_write i) || s.writes i)
      × ((i : ℕ)
          → r.excepts i
            ≡ (ltb i num && is_chosen files asked.excepts w.has_exception i) || s.excepts i)

  -- A turn that finds nothing and after which the time is not over.
  abbrev pub IsQuiet : ℕ → ℕ → PollTurn O → Type 0
  IsQuiet wait end (w, tick) = (finds w ≡ false) × (polls_again wait end tick ≡ true)

  poll-Results :
      (w : Watch O) (s : FdSets)
      → length files ≡ fd_setsize
      → num ≤ fd_setsize
      → (r : FdSets) × (poll files asked w (bound num) 0 (s, false) ≡ some (r, finds w))
        × Results w s r
  poll-Results w s whole h =
      let ((r, found), at, (reads, writes, excepts, flag)) =
        poll-Polled files whole asked w num 0 (s, false) (omega (arith, h)) in
      (
        r,
        rw (bound_within num h, at) (ap (λ b. some (r, b)) (flag ∙ or-false (finds w))),
        (
          λ i. reads i ∙ ap (λ b. b || s.reads i) (among_start _ num i),
          λ i. writes i ∙ ap (λ b. b || s.writes i) (among_start _ num i),
          λ i. excepts i ∙ ap (λ b. b || s.excepts i) (among_start _ num i),
        ),
      )

  none_among :
      (test : ℕ → Bool) (w : Watch O)
      → ((j : ℕ) → is_found files asked w j ≡ false → test j ≡ false)
      → finds w ≡ false
      → (i : ℕ) → ltb i num && test i ≡ false
  none_among test w le h i =
      sym (among_start test num i) ∙ among_none test (is_found files asked w) num 0 i le h

  -- Where a turn finds nothing, the next one adds to the sets that this one started with.
  Results-quiet :
      (v w : Watch O) (s t r : FdSets)
      → finds v ≡ false
      → Results v s t
      → Results w t r
      → Results w s r
  Results-quiet v w s t r none_found (reads, writes, excepts) (reads', writes', excepts') = (
    λ i. or_same _ _ _ (reads' i) (reads i) (
        none_among (is_chosen files asked.reads v.can_read) v
          (λ j h. (or_neither _ _ (or_neither _ _ h).1).1) none_found i),
    λ i. or_same _ _ _ (writes' i) (writes i) (
        none_among (is_chosen files asked.writes v.can_write) v
          (λ j h. (or_neither _ _ (or_neither _ _ h).1).0) none_found i),
    λ i. or_same _ _ _ (excepts' i) (excepts i) (
        none_among (is_chosen files asked.excepts v.has_exception) v (λ j h. (or_neither _ _ h).0)
          none_found i),
  )

  module _ (p : Pointers) (wait end tick : ℕ) (w : Watch O) (turns : List (PollTurn O))
      (s r : FdSets) where
    turn_found :
        poll files asked w (bound num) 0 (s, false) ≡ some (r, true)
        → select_turns files asked p num wait end ((w, tick) ∷ turns) s
          ≡ Selection.returned (store_results p r) num
    unfolding select_turns
    turn_found at = rw (select_turns, at) refl

    turn_over :
        poll files asked w (bound num) 0 (s, false) ≡ some (r, false)
        → polls_again wait end tick ≡ false
        → select_turns files asked p num wait end ((w, tick) ∷ turns) s
          ≡ Selection.returned (store_results p r) 0
    unfolding select_turns
    turn_over at over = rw (select_turns, at, over) refl

    turn_quiet :
        poll files asked w (bound num) 0 (s, false) ≡ some (r, false)
        → polls_again wait end tick ≡ true
        → select_turns files asked p num wait end ((w, tick) ∷ turns) s
          ≡ select_turns files asked p num wait end turns r
    unfolding select_turns
    turn_quiet at more = rw (select_turns, at, more) refl

    turn_ended :
        (b : Bool)
        → poll files asked w (bound num) 0 (s, false) ≡ some (r, b)
        → b || not (polls_again wait end tick) ≡ true
        → select_turns files asked p num wait end ((w, tick) ∷ turns) s
          ≡ Selection.returned (store_results p r) (if b then num else 0)
    turn_ended true at ends = turn_found at
    turn_ended false at ends = turn_over at (not-true (polls_again wait end tick) ends)

  -- Quiet turns are passed over, and the first that is not ends the call.
  pub select_turns-ended :
      (p : Pointers) (wait end : ℕ) (before after : List (PollTurn O)) (w : Watch O) (tick : ℕ)
      (s : FdSets)
      → length files ≡ fd_setsize
      → num ≤ fd_setsize
      → All (IsQuiet wait end) before
      → finds w || not (polls_again wait end tick) ≡ true
      → (r : FdSets) × (select_turns files asked p num wait end (before ++ ((w, tick) ∷ after)) s
          ≡ Selection.returned (store_results p r) (if finds w then num else 0))
        × Results w s r
  select_turns-ended p wait end [] after w tick s whole h quiet ends =
      let (r, at, results) = poll-Results w s whole h in
      (r, turn_ended p wait end tick w after s r (finds w) at ends, results)
  select_turns-ended p wait end ((v, t) ∷ before) after w tick s whole h ((none_found, more), quiet)
        ends =
      let (s', at, passed) = poll-Results v s whole h in
      let (r, ended, results) =
        select_turns-ended p wait end before after w tick s' whole h quiet ends in
      (
        r,
        turn_quiet p wait end t v (before ++ ((w, tick) ∷ after)) s s'
              (at ∙ ap (λ b. some (s', b)) none_found) more
            ∙ ended,
        Results-quiet v w s s' r none_found passed results,
      )
