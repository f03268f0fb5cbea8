-- ===== src/Allocation/Loops.antt =====
-- What the two loops of AllocateMemAndProtectProcess in keow-kernel/KeowKernel/MemoryHelper.cpp come to.
use keow.Prelude.{
  ℕ, zero, suc, ◌+◌, ◌*◌, ◌/◌, ◌%◌, ◌<◌, ◌≤◌, ◌≡◌, ◌≢◌, ◌⊎◌, refl, sym, ◌∙◌, Bool, true, false,
  Option, some, ltb, ltb→lt, if◌then◌else◌, arith, Bool-cases, inl, inr,
}
use keow.Errno.{word}
use keow.Allocation.{
  PageState, free, reserved, committed, Region, VirtualMemory, block, page, part_len, allocate_part,
  allocate_parts, queried,
}
use keow.Allocation.Windows.{IsWindows, within, part_len-page}

pub is_within :
    (at len p : ℕ) {b : PageState} (a : PageState)
    → at ≤ p * page
    → p * page < at + len
    → (if within at len p then b else a) ≡ b
is_within at len p a h k = let y : within at len p ≡ true = ground arith in rw y refl

pub is_before :
    (at len p : ℕ) (a b : PageState) → p * page < at → (if within at len p then b else a) ≡ a
is_before at len p a b h = let y : within at len p ≡ false = ground arith in rw y refl

pub is_after :
    (at len p : ℕ) (a b : PageState) → at + len ≤ p * page → (if within at len p then b else a) ≡ a
is_after at len p a b h = let y : within at len p ≡ false = ground arith in rw y refl

-- One round of either loop.
module _ (memory : VirtualMemory) (unit : ℕ) (from : PageState)
    (allocate : memory.Space → ℕ → ℕ → memory.Space × ℕ) (fuel : ℕ) (s : memory.Space)
    (mbi : Region) (at end : ℕ) where
  open memory use {Space}

  pub parts_stop :
      ltb at end ≡ false
      → allocate_parts memory unit from allocate (suc fuel) s mbi at end ≡ some (s, mbi, true)
  unfolding allocate_parts
  parts_stop stop = rw stop refl

  module _ (r : Region) (found : memory.query s at ≡ some r) where
    -- What the round does.
    abbrev pub part : Space × Bool
    part = allocate_part memory from allocate s at (part_len unit at end r) r.state

    pub parts_bad :
        ltb at end ≡ true
        → part.1 ≡ false
        → allocate_parts memory unit from allocate (suc fuel) s mbi at end ≡ some (part.0, r, false)
    unfolding allocate_parts queried
    parts_bad more bad = rw (more, found) (rw bad refl)

    pub parts_good :
        (next : ℕ) (x : Option (Space × Region × Bool))
        → ltb at end ≡ true
        → part.1 ≡ true
        → (at + part_len unit at end r) % word ≡ next
        → allocate_parts memory unit from allocate fuel part.0 r next end ≡ x
        → allocate_parts memory unit from allocate (suc fuel) s mbi at end ≡ x
    unfolding allocate_parts queried
    parts_good next x more good e ran = rw (more, found) (rw (good, e) ran)

module _ (memory : VirtualMemory) (state_at : memory.Space → ℕ → PageState)
    (windows : IsWindows memory state_at) where
  open memory use {Space}

  -- The pages that start from `at` up to `end` are committed, and those before are as they were.
  pub record Committed (s t : Space) (at : ℕ) (end : ℕ) : Type 0 where
    pub inside : (p : ℕ) → at ≤ p * page → p * page < end → state_at t p ≡ committed
    pub outside : (p : ℕ) → p * page < at → state_at t p ≡ state_at s p

  -- A page that starts in the area is not free.
  abbrev pub NoneFree : Space → ℕ → ℕ → Type 0
  NoneFree s at end = (p : ℕ) → at ≤ p * page → p * page < end → state_at s p ≢ free

  -- One round, where it does not fail.
  commit_part :
      (s : Space) (at len : ℕ)
      → 0 < at
      → at % page ≡ 0
      → len % page ≡ 0
      → 0 < len
      → at < windows.limit
      → at + len ≤ (windows.region s at).base + (windows.region s at).size
      → state_at s (at / page) ≢ free
      → ((allocate_part memory reserved memory.commit s at len (windows.region s at).state).1
          ≡ true)
      → Committed s
          (allocate_part memory reserved memory.commit s at len (windows.region s at).state).0
          at
          (at + len)
  unfolding allocate_part
  commit_part s at len positive even whole some_len low inside none_free ok =
      by_state (windows.region s at).state refl ok
    where
      by_state :
          (st : PageState)
          → (windows.region s at).state ≡ st
          → (allocate_part memory reserved memory.commit s at len st).1 ≡ true
          → Committed s (allocate_part memory reserved memory.commit s at len st).0 at (at + len)
      by_state free e ok =
          let (a, b, c, d) = windows.query_within s at low in
          absurd (
            none_free (
              windows.query_state s at (at / page) low (omega (arith, a, even))
                (omega (arith, b, even))
              ∙ e))
      by_state committed e ok =
          let (a, b, c, d) = windows.query_within s at low in
          record {
            inside = λ p h k.
                windows.query_state s at p low (omega (arith, a, h)) (omega (arith, k, inside)) ∙ e;
            outside = λ p h. refl;
          }
      by_state reserved e ok =
          let same : (memory.commit s at len).1 ≡ at = ground (arith, ok) in
          let law = λ (p : ℕ). windows.commit_lem s at len p positive even whole same in
          record {
            inside = λ p h k. law p ∙ is_within at len p (state_at s p) h k;
            outside = λ p h. law p ∙ is_before at len p (state_at s p) committed h;
          }

  -- A round that does not fail leaves the pages after its part as they were.
  commit_part_after :
      (s : Space) (at len p : ℕ) (st : PageState)
      → 0 < at
      → at % page ≡ 0
      → len % page ≡ 0
      → (allocate_part memory reserved memory.commit s at len st).1 ≡ true
      → at + len ≤ p * page
      → state_at (allocate_part memory reserved memory.commit s at len st).0 p ≡ state_at s p
  unfolding allocate_part
  commit_part_after s at len p free positive even whole ok h = refl
  commit_part_after s at len p committed positive even whole ok h = refl
  commit_part_after s at len p reserved positive even whole ok h =
      let same : (memory.commit s at len).1 ≡ at = ground (arith, ok) in
      windows.commit_lem s at len p positive even whole same
      ∙ is_after at len p (state_at s p) committed h

  Committed-trans :
      (s t u : Space) (at mid end : ℕ)
      → at ≤ mid
      → Committed s t at mid
      → Committed t u mid end
      → Committed s u at end
  Committed-trans s t u at mid end le a b = record {
    inside = λ p h k. elim (Bool-cases (ltb (p * page) mid)) [
      | inl y ↦ b.outside p (ground (arith, y)) ∙ a.inside p h (ground (arith, y))
      | inr y ↦ b.inside p (ground (arith, y)) k
    ];
    outside = λ p h. b.outside p (omega (arith, h, le)) ∙ a.outside p h;
  }

  -- What a loop comes to: a failure, or a space that is as it should be.
  abbrev pub Finished : (Space → Type 0) → Space → Bool → Type 0
  Finished P t ok = (ok ≡ false) ⊎ ((ok ≡ true) × P t)

  finish_later :
      (s t u : Space) (at mid end : ℕ) (ok : Bool)
      → at ≤ mid
      → Committed s t at mid
      → Finished (λ v. Committed t v mid end) u ok
      → Finished (λ v. Committed s v at end) u ok
  finish_later s t u at mid end ok le here (inl e) = inl e
  finish_later s t u at mid end ok le here (inr (e, rest)) =
      inr (e, Committed-trans s t u at mid end le here rest)

  -- The second loop, with a round for each page of the area and one more.
  pub commit_parts :
      (fuel : ℕ) (s : Space) (mbi : Region) (at end : ℕ)
      → 0 < at
      → at % page ≡ 0
      → end + block ≤ windows.limit
      → at < end + page
      → end + page ≤ at + fuel * page
      → NoneFree s at end
      → (t : Space) × (ok : Bool) × (m : Region) × (allocate_parts memory page reserved
            memory.commit fuel s mbi at end
          ≡ some (t, m, ok))
        × Finished (λ u. Committed s u at end) t ok
  commit_parts zero s mbi at end positive even room near enough none_free =
      absurd (omega (arith, near, enough))
  commit_parts (suc fuel) s mbi at end positive even room near enough none_free =
      elim (Bool-cases (ltb at end)) [
        | inr stop ↦ (
          s,
          true,
          mbi,
          parts_stop memory page reserved memory.commit fuel s mbi at end stop,
          inr (
            refl,
            record { inside = λ p h k. absurd (beyond p h k stop); outside = λ p h. refl },
          ),
        )
        | inl more ↦
            let go = ltb→lt at end more in
            let (a, b, c, d) = windows.query_within s at (omega (arith, go, room)) in
            let found = windows.query_below s at (omega (arith, go, room)) in
            let wide : end + block ≤ word = omega (arith, room, windows.limit_within) in
            let (e, f) = windows.query_aligned s at (omega (arith, go, room)) in
            let len = part_len page at end (windows.region s at) in
            let (l1, l2, l3, l4) =
              part_len-page at end (windows.region s at) a b c d go wide e f even in
            let part : Space × Bool =
              allocate_part memory reserved memory.commit s at len (windows.region s at).state in
            let fresh : (at + len) % word ≡ at + len = omega (arith, l4, wide) in
            elim (Bool-cases part.1) [
              | inr bad ↦ (
                part.0,
                false,
                windows.region s at,
                parts_bad memory page reserved memory.commit fuel s mbi at end (windows.region s at)
                    found more bad,
                inl refl,
              )
              | inl good ↦
                  let here =
                    commit_part s at len positive even l2 (omega (arith, l1))
                      (omega (arith, go, room)) l3
                      (none_free (at / page) (omega (arith, even)) (omega (arith, even, go)))
                      good in
                  let after = λ (p : ℕ).
                    commit_part_after s at len p (windows.region s at).state positive even l2
                      good in
                  let (t, ok, m, ran, done) =
                    commit_parts fuel part.0 (windows.region s at) (at + len) end
                      (omega (arith, positive)) (omega (arith, even, l2)) room l4
                      (omega (arith, enough, l1))
                      (λ p h k e. none_free p (omega (arith, h)) k (sym (after p h) ∙ e)) in
                  (
                    t,
                    ok,
                    m,
                    parts_good memory page reserved memory.commit fuel s mbi at end
                        (windows.region s at) found (at + len) (some (t, m, ok)) more good fresh
                        ran,
                    finish_later s part.0 t at (at + len) end ok (omega arith) here done,
                  )
            ]
      ]
    where
      beyond : (p : ℕ) → at ≤ p * page → p * page < end → ltb at end ≡ false → ⊥
      beyond p h k stop = ground (arith, h, k, stop)
