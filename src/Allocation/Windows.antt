-- ===== src/Allocation/Windows.antt =====
-- What the allocation of keow-kernel/KeowKernel/MemoryHelper.cpp relies on of VirtualQueryEx and
-- VirtualAllocEx, and how far a round of its loops goes.
use keow.Prelude.{
  some, ℕ, ◌+◌, ◌-◌, ◌*◌, ◌%◌, ◌<◌, ◌≤◌, ◌≡◌, refl, Bool, ◌&&◌, ltb, leb, if◌then◌else◌, arith,
  Bool-cases, inl, inr,
}
use keow.Errno.{word}
use keow.Allocation.{
  PageState, reserved, committed, Region, VirtualMemory, block, page, minus, round_up, part_len,
}

-- The page with the number starts in the area.
abbrev pub within : ℕ → ℕ → ℕ → Bool
within a n p = leb a (p * page) && ltb (p * page) (a + n)

-- Documented behaviour: below the end of the user's part of the address space, `limit`, a query gives the
-- region of the address, a run of whole pages around it that have one state, and an
-- allocation of whole blocks or pages that returns its address, which is not 0, has given the
-- pages of the area their new state and left the others alone. `state_at` is the state of a page. Of a
-- query from `limit` on nothing is said.
pub record IsWindows (memory : VirtualMemory) (state_at : memory.Space → ℕ → PageState)
    : Type 0 where
  pub limit : ℕ
  pub limit_within : limit ≤ word
  pub region : memory.Space → ℕ → Region
  pub query_below : (s : memory.Space) (a : ℕ) → a < limit → memory.query s a ≡ some (region s a)
  pub query_within :
      (s : memory.Space) (a : ℕ)
      → a < limit
      → ((region s a).base ≤ a)
        × (a < (region s a).base + (region s a).size)
        × ((region s a).base + (region s a).size ≤ word)
        × ((region s a).size < word)
  pub query_aligned :
      (s : memory.Space) (a : ℕ)
      → a < limit
      → ((region s a).base % page ≡ 0) × ((region s a).size % page ≡ 0)
  pub query_state :
      (s : memory.Space) (a p : ℕ)
      → a < limit
      → (region s a).base ≤ p * page
      → p * page < (region s a).base + (region s a).size
      → state_at s p ≡ (region s a).state
  pub reserve_lem :
      (s : memory.Space) (a n p : ℕ)
      → 0 < a
      → a % block ≡ 0
      → n % block ≡ 0
      → (memory.reserve s a n).1 ≡ a
      → state_at (memory.reserve s a n).0 p ≡ (if within a n p then reserved else state_at s p)
  pub commit_lem :
      (s : memory.Space) (a n p : ℕ)
      → 0 < a
      → a % page ≡ 0
      → n % page ≡ 0
      → (memory.commit s a n).1 ≡ a
      → state_at (memory.commit s a n).0 p ≡ (if within a n p then committed else state_at s p)

module _ (at end : ℕ) (r : Region) (low : r.base ≤ at) (high : at < r.base + r.size)
    (top : r.base + r.size ≤ word) (small : r.size < word) (more : at < end)
    (room : end + block ≤ word) (base : r.base % page ≡ 0) (size : r.size % page ≡ 0) where
  -- The length before it is rounded.
  part_len_exact :
      (unit : ℕ)
      → (k : ℕ) × (part_len unit at end r ≡ round_up unit k)
        × (0 < k)
        × (at + k ≤ end)
        × (at + k ≤ r.base + r.size)
  unfolding part_len
  part_len_exact unit =
      let len : minus end at ≡ end - at = omega arith in
      let rest : minus r.size (minus at r.base) ≡ r.base + r.size - at = omega arith in
      elim (Bool-cases (ltb (r.base + r.size - at) (end - at))) [
        | inl y ↦
            (r.base + r.size - at, rw (len, rest, y) refl, ground arith, ground arith, omega arith)
        | inr y ↦ (end - at, rw (len, rest, y) refl, ground arith, ground arith, ground arith)
      ]

  pub part_len-page :
      at % page ≡ 0
      → (page ≤ part_len page at end r)
        × (part_len page at end r % page ≡ 0)
        × (at + part_len page at end r ≤ r.base + r.size)
        × (at + part_len page at end r < end + page)
  part_len-page even =
      let (k, e, positive, inside, below) = part_len_exact page in
      rw e (
        omega (arith, positive, inside, below),
        omega arith,
        omega (arith, positive, inside, below),
        omega (arith, positive, inside, below),
      )

  pub part_len-block :
      at % block ≡ 0
      → (block ≤ part_len block at end r)
        × (part_len block at end r % block ≡ 0)
        × (at + part_len block at end r < r.base + r.size + block)
        × (at + part_len block at end r < end + block)
  part_len-block even =
      let (k, e, positive, inside, below) = part_len_exact block in
      rw e (
        omega (arith, positive, inside, below),
        omega arith,
        omega (arith, positive, inside, below),
        omega (arith, positive, inside, below),
      )
