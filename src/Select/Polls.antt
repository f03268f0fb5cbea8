-- ===== src/Select/Polls.antt =====
-- What a round of the loop of sys__newselect finds, descriptor by descriptor.
use keow.Prelude.{
  ℕ, zero, suc, ◌+◌, ◌≤◌, ◌≡◌, refl, sym, ap, ◌∙◌, inl, inr, Bool, true, false, ◌&&◌, ◌||◌, List,
  Option, none, some, arith, ltb, leb, ◌==◌, length, ==_iff, lt→ltb, ltb→lt, ltb-false→le, ◌<◌,
  get_elem?, get_elem?_within, Bool-cases,
}
use mathlib.Core.Bool.{or_assoc}
use keow.Select.{
  FdSet, FdSets, Watch, fd_setsize, fd_isset, set_fd, is_ready, mark, check, poll_fd, poll,
}

module _ {O : Type 0} (files : List (Option O)) where
  abbrev opened : (O → Bool) → Option (Option O) → Bool
  opened ready none = false
  opened ready (some slot) = is_ready ready slot

  -- The descriptor is asked for and open on an object that is ready.
  abbrev pub is_chosen : FdSet → (O → Bool) → ℕ → Bool
  is_chosen asked ready fd = asked fd && opened ready (get_elem? files fd)

  -- Ready for one of the three sets.
  abbrev pub is_found : FdSets → Watch O → ℕ → Bool
  is_found asked w fd =
      is_chosen asked.excepts w.has_exception fd
      || (is_chosen asked.writes w.can_write fd || is_chosen asked.reads w.can_read fd)

-- The test holds of one of the `n` descriptors from `fd` on.
abbrev pub any : (ℕ → Bool) → ℕ → ℕ → Bool
any test zero fd = false
any test (suc n) fd = any test n (suc fd) || test fd

-- The descriptor is one of the `n` from `fd` on, and the test holds of it.
abbrev pub among : (ℕ → Bool) → ℕ → ℕ → ℕ → Bool
among test zero fd i = false
among test (suc n) fd i = among test n (suc fd) i || ((i == fd) && test fd)

or_later : (a b c : Bool) {x y : Bool} → x ≡ a || y → y ≡ b || c → x ≡ (a || b) || c
or_later a b c h g = h ∙ ap (λ z. a || z) g ∙ sym (or_assoc a b c)

mark_at :
    (b : Bool) (fd : ℕ) (s : FdSet × Bool) (i : ℕ) → (mark b fd s).0 i ≡ ((i == fd) && b) || s.0 i
unfolding mark set_fd
mark_at true fd s i = elim (Bool-cases (i == fd)) [ inl e ↦ rw e refl | inr e ↦ rw e refl ]
mark_at false fd s i = elim (Bool-cases (i == fd)) [ inl e ↦ rw e refl | inr e ↦ rw e refl ]

mark_found : (b : Bool) (fd : ℕ) (s : FdSet × Bool) → (mark b fd s).1 ≡ b || s.1
unfolding mark
mark_found true fd s = refl
mark_found false fd s = refl

among_lem :
    (test : ℕ → Bool) (n fd i : ℕ) → among test n fd i ≡ (leb fd i && ltb i (fd + n)) && test i
among_lem test zero fd i = ground arith
among_lem test (suc n) fd i = elim (Bool-cases (i == fd)) [
  | inl e ↦
      let same : i ≡ fd = (==_iff i fd).0 e in
      rw (same, among_lem test n (suc fd) fd) (ground arith)
  | inr e ↦ rw (among_lem test n (suc fd) i) (ground arith)
]

pub among_start : (test : ℕ → Bool) (n i : ℕ) → among test n 0 i ≡ ltb i n && test i
among_start test n i = among_lem test n 0 i ∙ ap (λ b. b && test i) (ground arith)

module _ {O : Type 0} (files : List (Option O)) (whole : length files ≡ fd_setsize) where
  check-mark :
      (asked : FdSet) (ready : O → Bool) (fd : ℕ) (s : FdSet × Bool)
      → suc fd ≤ fd_setsize
      → check files asked ready fd s ≡ some (mark (is_chosen files asked ready fd) fd s)
  unfolding check fd_isset mark
  check-mark asked ready fd s h =
      let (slot, at) = get_elem?_within files fd (omega (arith, whole)) in
      elim (Bool-cases (asked fd)) [
        | inl e ↦ rw (lt→ltb fd fd_setsize (omega (arith, h)), e, at) refl
        | inr e ↦ rw (lt→ltb fd fd_setsize (omega (arith, h)), e) refl
      ]

  module _ (asked : FdSets) (w : Watch O) where
    -- The three tests of a descriptor.
    abbrev marked : ℕ → FdSets × Bool → FdSets × Bool
    marked fd (s, found) =
        let r = mark (is_chosen files asked.reads w.can_read fd) fd (s.reads, found) in
        let t = mark (is_chosen files asked.writes w.can_write fd) fd (s.writes, r.1) in
        let e = mark (is_chosen files asked.excepts w.has_exception fd) fd (s.excepts, t.1) in
        (record { reads = r.0; writes = t.0; excepts = e.0 }, e.1)

    poll_fd-marked :
        (fd : ℕ) (s : FdSets × Bool)
        → suc fd ≤ fd_setsize
        → poll_fd files asked w fd s ≡ some (marked fd s)
    unfolding poll_fd
    poll_fd-marked fd (s, found) h =
        rw
          (
            check-mark asked.reads w.can_read fd (s.reads, found) h,
            check-mark asked.writes w.can_write fd (s.writes, _) h,
            check-mark asked.excepts w.has_exception fd (s.excepts, _) h,
          )
          refl

    -- The sets and the flag after `n` descriptors from `fd` on.
    abbrev pub Polled : ℕ → ℕ → FdSets × Bool → FdSets × Bool → Type 0
    Polled n fd s r =
        ((i : ℕ)
          → r.0.reads i ≡ among (is_chosen files asked.reads w.can_read) n fd i || s.0.reads i)
        × ((i : ℕ)
            → r.0.writes i
              ≡ among (is_chosen files asked.writes w.can_write) n fd i || s.0.writes i)
        × ((i : ℕ)
            → r.0.excepts i
              ≡ among (is_chosen files asked.excepts w.has_exception) n fd i || s.0.excepts i)
        × (r.1 ≡ any (is_found files asked w) n fd || s.1)

    marked_found : (fd : ℕ) (s : FdSets × Bool) → (marked fd s).1 ≡ is_found files asked w fd || s.1
    marked_found fd (s, found) =
        let read = is_chosen files asked.reads w.can_read fd in
        let write = is_chosen files asked.writes w.can_write fd in
        let except = is_chosen files asked.excepts w.has_exception fd in
        or_later _ _ _ (mark_found except fd _)
          (or_later _ _ _ (mark_found write fd _) (mark_found read fd (s.reads, found)))

    pub poll-Polled :
        (n fd : ℕ) (s : FdSets × Bool)
        → n + fd ≤ fd_setsize
        → (r : FdSets × Bool) × (poll files asked w n fd s ≡ some r) × Polled n fd s r
    unfolding poll
    poll-Polled zero fd s h = (s, refl, (λ i. refl, λ i. refl, λ i. refl, refl))
    poll-Polled (suc n) fd s h =
        let (r, at, (reads, writes, excepts, found)) =
          poll-Polled n (suc fd) (marked fd s) (omega (arith, h)) in
        (
          r,
          rw (poll_fd-marked fd s (omega (arith, h))) at,
          (
            λ i. or_later _ _ _ (reads i) (mark_at _ fd (s.0.reads, s.1) i),
            λ i. or_later _ _ _ (writes i) (mark_at _ fd (s.0.writes, _) i),
            λ i. or_later _ _ _ (excepts i) (mark_at _ fd (s.0.excepts, _) i),
            or_later _ _ _ found (marked_found fd s),
          ),
        )

    poll_end : (n : ℕ) (s : FdSets × Bool) → poll files asked w (suc n) fd_setsize s ≡ none
    unfolding poll poll_fd check fd_isset
    poll_end n s = refl

    pub poll_past :
        (n fd : ℕ) (s : FdSets × Bool)
        → fd ≤ fd_setsize
        → fd_setsize < n + fd
        → poll files asked w n fd s ≡ none
    unfolding poll
    poll_past zero fd s below h = absurd (omega (arith, below, h))
    poll_past (suc n) fd s below h = elim (Bool-cases (ltb fd fd_setsize)) [
      | inl e ↦
          let low : suc fd ≤ fd_setsize = ltb→lt fd fd_setsize e in
          rw (poll_fd-marked fd s low) (poll_past n (suc fd) (marked fd s) low (omega (arith, h)))
      | inr e ↦
          let last : fd ≡ fd_setsize = omega (arith, below, ltb-false→le fd fd_setsize e) in
          rw last (poll_end n s)
    ]
