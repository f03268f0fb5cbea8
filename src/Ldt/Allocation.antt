-- ===== src/Ldt/Allocation.antt =====
-- AllocateLDTSelector and CalculateLDTEntryForThread: which entry a thread gets.
use keow.Prelude.{
  ℕ, ◌<◌, ◌≡◌, ◌≢◌, refl, ◌⊎◌, inl, inr, Bool, false, ◌||◌, List, none, some, arith, leb, ◌==◌,
  get_elem?, set, Bool-cases, Option-cases, ==_iff,
}
use keow.Errno.{is_negative}
use keow.Ldt.{
  LdtData, search, is_free, is_own, allocated, allocate_ldt_selector, allocate_for_thread,
  calculate_ldt_entry_for_thread, max_ldt_entries,
}
use keow.Ldt.Search.{Found, search-Found}

-- `AllocateLDTSelector` takes the first usable entry that is free, for the thread or as a marker; with
-- none free it fails.
pub allocate_ldt_selector_lem :
    (t : List LdtData) (thread : ℕ) (is_for_ldt : Bool)
    → ((i : ℕ) × (d : LdtData) × Found is_free t i d
        × (allocate_ldt_selector t thread is_for_ldt
            ≡ some (set t i (allocated thread is_for_ldt d), i)))
      ⊎ ((search is_free t ≡ none) × (allocate_ldt_selector t thread is_for_ldt ≡ none))
unfolding allocate_ldt_selector
allocate_ldt_selector_lem t thread is_for_ldt = elim (Option-cases (search is_free t)) [
  | inl full ↦ inr (full, rw full refl)
  | inr (i, hit) ↦ let (d, f) = search-Found is_free t i hit in inl (i, d, f, rw (hit, f.at) refl)
]

-- How a lookup of an entry `d` ends: the table and the index that a thread gets.
pub data Lookup (t : List LdtData) (thread requested : ℕ) (d : LdtData)
    : List LdtData → ℕ → Type 0 where
  own : d.allocating_thread ≡ thread → Lookup t thread requested d t requested
  unallocated :
      d.allocating_thread ≢ thread → d.allocating_thread ≡ 0 → Lookup t thread requested d t 0
  stands :
      {i : ℕ}
      → d.allocating_thread ≢ thread
      → d.allocating_thread ≢ 0
      → (a : LdtData) → Found (is_own thread requested) t i a
      → Lookup t thread requested d t i
  full :
      d.allocating_thread ≢ thread
      → d.allocating_thread ≢ 0
      → search (is_own thread requested) t ≡ none
      → search is_free t ≡ none
      → Lookup t thread requested d t 0
  made :
      {i : ℕ}
      → d.allocating_thread ≢ thread
      → d.allocating_thread ≢ 0
      → search (is_own thread requested) t ≡ none
      → (f : LdtData) → Found is_free t i f
      → Lookup t thread requested d (set t i (allocated thread d.is_really_ldt f)) i

-- The index can be one of an entry.
abbrev pub IsIndex : ℕ → Type 0
IsIndex requested = (0 < requested) × (requested < max_ldt_entries)

pub good_index :
    (requested : ℕ)
    → IsIndex requested
    → (is_negative requested || leb max_ldt_entries requested || requested == 0) ≡ false
good_index requested (positive, below) = ground arith

decided : (a b : ℕ) → (a == b) ≡ false → a ≢ b
decided a b h e = ground arith

-- Every lookup of an entry ends in one of these ways.
pub calculate-Lookup :
    (t : List LdtData) (thread requested : ℕ) (d : LdtData)
    → IsIndex requested
    → get_elem? t requested ≡ some d
    → (t' : List LdtData) × (i : ℕ) × (calculate_ldt_entry_for_thread t thread requested
        ≡ some (t', i))
      × Lookup t thread requested d t' i
unfolding calculate_ldt_entry_for_thread allocate_for_thread
calculate-Lookup t thread requested d index at = elim (Bool-cases (d.allocating_thread == thread)) [
  | inl mine ↦ (
    t,
    requested,
    rw (good_index requested index, at, mine) refl,
    own ((==_iff d.allocating_thread thread).0 mine),
  )
  | inr other ↦
      let foreign = decided d.allocating_thread thread other in
      elim (Bool-cases (d.allocating_thread == 0)) [
        | inl free ↦ (
          t,
          0,
          rw (good_index requested index, at, other, free) refl,
          unallocated foreign ((==_iff d.allocating_thread 0).0 free),
        )
        | inr taken ↦
            let held = decided d.allocating_thread 0 taken in
            elim (Option-cases (search (is_own thread requested) t)) [
              | inr (i, hit) ↦
                  let (a, f) = search-Found (is_own thread requested) t i hit in
                  (
                    t,
                    i,
                    rw (good_index requested index, at, other, taken, hit) refl,
                    stands foreign held a f,
                  )
              | inl miss ↦ elim (allocate_ldt_selector_lem t thread d.is_really_ldt) [
                | inl (i, f, found, ran) ↦ (
                  set t i (allocated thread d.is_really_ldt f),
                  i,
                  rw (good_index requested index, at, other, taken, miss)
                      (rw (ran, allocate_for_thread) refl),
                  made foreign held miss f found,
                )
                | inr (no_room, ran) ↦ (
                  t,
                  0,
                  rw (good_index requested index, at, other, taken, miss)
                      (rw (ran, allocate_for_thread) refl),
                  full foreign held miss no_room,
                )
              ]
            ]
      ]
]
