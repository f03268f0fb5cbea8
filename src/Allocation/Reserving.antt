-- ===== src/Allocation/Reserving.antt =====
-- The first loop of AllocateMemAndProtectProcess in keow-kernel/KeowKernel/MemoryHelper.cpp.
use keow.Prelude.{
  ℕ, zero, suc, ◌+◌, ◌*◌, ◌/◌, ◌%◌, ◌<◌, ◌≤◌, ◌≡◌, ◌≢◌, refl, sym, ap, ◌∙◌, Bool, true, false, some,
  ltb, ltb→lt, if◌then◌else◌, arith, Bool-cases, inl, inr,
}
use keow.Errno.{word}
use keow.Allocation.{
  PageState, free, reserved, committed, Region, VirtualMemory, block, page, is_in, part_len,
  allocate_part, allocate_parts,
}
use keow.Allocation.Windows.{IsWindows, within, part_len-block}
use keow.Allocation.Loops.{is_within, is_before, parts_stop, parts_bad, parts_good, Finished}

pub is_free_false : (st : PageState) → is_in free st ≡ false → st ≢ free
is_free_false free h = λ e. cc
is_free_false reserved h = λ e. cc
is_free_false committed h = λ e. cc

not_free : (a st : PageState) → a ≡ st → is_in free st ≡ false → is_in free a ≡ false
not_free a st e h = ap (is_in free) e ∙ h

-- The first page of the block of a page.
abbrev pub head : ℕ → ℕ
head p = p / 16 * 16

module _ (memory : VirtualMemory) (state_at : memory.Space → ℕ → PageState)
    (windows : IsWindows memory state_at) where
  open memory use {Space}

  -- The pages of a block are all free, or none is: what is reserved is whole blocks.
  abbrev pub IsBlocked : Space → Type 0
  IsBlocked s = (p : ℕ) → is_in free (state_at s p) ≡ is_in free (state_at s (head p))

  -- No page that starts from `at` up to `end` is free, and the space is still one of whole blocks.
  pub record Reserved (s t : Space) (at : ℕ) (end : ℕ) : Type 0 where
    pub inside : (p : ℕ) → at ≤ p * page → p * page < end → is_in free (state_at t p) ≡ false
    pub outside : (p : ℕ) → p * page < at → state_at t p ≡ state_at s p
    pub blocked : IsBlocked t

  kept :
      (s : Space) (at len : ℕ) (st : PageState)
      → (windows.region s at).state ≡ st
      → IsBlocked s
      → at % block ≡ 0
      → len % block ≡ 0
      → at < windows.limit
      → at + len < (windows.region s at).base + (windows.region s at).size + block
      → is_in free st ≡ false
      → Reserved s s at (at + len)
  kept s at len st e blocked even whole low near other =
      let (a, b, c, d) = windows.query_within s at low in
      record {
        inside = λ p h k.
            blocked p
            ∙ not_free (state_at s (head p)) st
                (windows.query_state s at (head p) low (omega (arith, a, h, even))
                    (omega (arith, near, k, even, whole))
                  ∙ e)
                other;
        outside = λ p h. refl;
        blocked = blocked;
      }

  -- One round, where it does not fail.
  reserve_part :
      (s : Space) (at len : ℕ) (st : PageState)
      → (windows.region s at).state ≡ st
      → IsBlocked s
      → 0 < at
      → at % block ≡ 0
      → len % block ≡ 0
      → at < windows.limit
      → at + len < (windows.region s at).base + (windows.region s at).size + block
      → (allocate_part memory free memory.reserve s at len st).1 ≡ true
      → Reserved s (allocate_part memory free memory.reserve s at len st).0 at (at + len)
  unfolding allocate_part
  reserve_part s at len free e blocked positive even whole low near ok =
      let same : (memory.reserve s at len).1 ≡ at = ground (arith, ok) in
      let law = λ (p : ℕ). windows.reserve_lem s at len p positive even whole same in
      record {
        inside = λ p h k.
            not_free (state_at (memory.reserve s at len).0 p) reserved
              (law p ∙ is_within at len p (state_at s p) h k) refl;
        outside = λ p h. law p ∙ is_before at len p (state_at s p) reserved h;
        blocked = λ p.
            ap (is_in free) (law p)
            ∙ by_within p (blocked p)
            ∙ sym (ap (is_in free) (law (head p)));
      }
    where
      by_within :
          (p : ℕ)
          → is_in free (state_at s p) ≡ is_in free (state_at s (head p))
          → is_in free (if within at len p then reserved else state_at s p)
            ≡ is_in free (if within at len (head p) then reserved else state_at s (head p))
      by_within p h =
          let alike : within at len p ≡ within at len (head p) = ground (arith, even, whole) in
          rw alike
            (elim (Bool-cases (within at len (head p))) [ inl y ↦ rw y refl | inr y ↦ rw y h ])
  reserve_part s at len reserved e blocked positive even whole low near ok =
      kept s at len reserved e blocked even whole low near refl
  reserve_part s at len committed e blocked positive even whole low near ok =
      kept s at len committed e blocked even whole low near refl

  Reserved-trans :
      (s t u : Space) (at mid end : ℕ)
      → at ≤ mid
      → Reserved s t at mid
      → Reserved t u mid end
      → Reserved s u at end
  Reserved-trans s t u at mid end le a b = record {
    inside = λ p h k. elim (Bool-cases (ltb (p * page) mid)) [
      | inl y ↦ ap (is_in free) (b.outside p (ground (arith, y))) ∙ a.inside p h (ground (arith, y))
      | inr y ↦ b.inside p (ground (arith, y)) k
    ];
    outside = λ p h. b.outside p (omega (arith, h, le)) ∙ a.outside p h;
    blocked = b.blocked;
  }

  finish_later :
      (s t u : Space) (at mid end : ℕ) (ok : Bool)
      → at ≤ mid
      → Reserved s t at mid
      → Finished memory state_at windows (λ v. Reserved t v mid end) u ok
      → Finished memory state_at windows (λ v. Reserved s v at end) u ok
  finish_later s t u at mid end ok le here (inl e) = inl e
  finish_later s t u at mid end ok le here (inr (e, rest)) =
      inr (e, Reserved-trans s t u at mid end le here rest)

  -- The first loop, with a round for each block of the area and one more.
  pub reserve_parts :
      (fuel : ℕ) (s : Space) (mbi : Region) (at end : ℕ)
      → 0 < at
      → at % block ≡ 0
      → end + block ≤ windows.limit
      → at < end + block
      → end + block ≤ at + fuel * block
      → IsBlocked s
      → (t : Space) × (ok : Bool) × (m : Region) × (allocate_parts memory block free memory.reserve
            fuel s mbi at end
          ≡ some (t, m, ok))
        × Finished memory state_at windows (λ u. Reserved s u at end) t ok
  reserve_parts zero s mbi at end positive even room near enough blocked =
      absurd (omega (arith, near, enough))
  reserve_parts (suc fuel) s mbi at end positive even room near enough blocked =
      elim (Bool-cases (ltb at end)) [
        | inr stop ↦ (
          s,
          true,
          mbi,
          parts_stop memory block free memory.reserve fuel s mbi at end stop,
          inr (
            refl,
            record {
              inside = λ p h k. absurd (beyond p h k stop);
              outside = λ p h. refl;
              blocked = blocked;
            },
          ),
        )
        | inl more ↦
            let go = ltb→lt at end more in
            let (a, b, c, d) = windows.query_within s at (omega (arith, go, room)) in
            let found = windows.query_below s at (omega (arith, go, room)) in
            let wide : end + block ≤ word = omega (arith, room, windows.limit_within) in
            let (e, f) = windows.query_aligned s at (omega (arith, go, room)) in
            let len = part_len block at end (windows.region s at) in
            let (l1, l2, l3, l4) =
              part_len-block at end (windows.region s at) a b c d go wide e f even in
            let part : Space × Bool =
              allocate_part memory free memory.reserve s at len (windows.region s at).state in
            elim (Bool-cases part.1) [
              | inr bad ↦ (
                part.0,
                false,
                windows.region s at,
                parts_bad memory block free memory.reserve fuel s mbi at end (windows.region s at)
                    found more bad,
                inl refl,
              )
              | inl good ↦
                  let here =
                    reserve_part s at len (windows.region s at).state refl blocked positive even l2
                      (omega (arith, go, room)) l3 good in
                  let (t, ok, m, ran, done) =
                    reserve_parts fuel part.0 (windows.region s at) (at + len) end
                      (omega (arith, positive)) (omega (arith, even, l2)) room l4
                      (omega (arith, enough, l1)) here.blocked in
                  (
                    t,
                    ok,
                    m,
                    parts_good memory block free memory.reserve fuel s mbi at end
                        (windows.region s at) found (at + len) (some (t, m, ok)) more good
                        (omega (arith, l4, wide)) ran,
                    finish_later s part.0 t at (at + len) end ok (omega arith) here done,
                  )
            ]
      ]
    where
      beyond : (p : ℕ) → at ≤ p * page → p * page < end → ltb at end ≡ false → ⊥
      beyond p h k stop = ground (arith, h, k, stop)
