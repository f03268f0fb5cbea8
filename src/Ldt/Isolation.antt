-- ===== src/Ldt/Isolation.antt =====
-- What a lookup does to the entries of other threads, and the entries that it makes for markers.
use keow.Prelude.{
  ℕ, ◌≡◌, ◌≢◌, ◌∙◌, refl, ap, sym, ◌⊎◌, inl, inr, Bool, true, false, ◌||◌, List, none, some, arith,
  leb, ◌==◌, get_elem?, set, length, Bool-cases, Option-cases, ==_iff, get_elem?-set_self,
  get_elem?-set_ne, length-set, get_elem?-length, get_elem?_within,
}
use keow.Errno.{is_negative}
use keow.Ldt.{
  LdtData, search, is_free, is_own, allocated, no_thread, calculate_ldt_entry_for_thread,
  max_ldt_entries,
}
use keow.Ldt.Search.{Found, search-Found, search-none, search_at}
use keow.Ldt.Allocation.{Lookup, calculate-Lookup, IsIndex}

-- Every entry that some thread holds is as it was.
abbrev pub KeepsHeld : List LdtData → List LdtData → Type 0
KeepsHeld t t' =
    (j : ℕ) (e : LdtData)
    → get_elem? t j ≡ some e
    → e.allocating_thread ≢ 0
    → get_elem? t' j ≡ some e

-- The entry is the thread's, or a marker, which is no thread's.
abbrev pub IsOwnOrMarker : List LdtData → ℕ → ℕ → Type 0
IsOwnOrMarker t thread i =
    (e : LdtData) × (get_elem? t i ≡ some e)
    × ((e.allocating_thread ≡ thread) ⊎ (e.allocating_thread ≡ no_thread))

set_free-KeepsHeld :
    (t : List LdtData) (i : ℕ) (f v : LdtData) → Found is_free t i f → KeepsHeld t (set t i v)
set_free-KeepsHeld t i f v found j e at held = get_elem?-set_ne t v other ∙ at
  where
    other : i ≢ j
    other same = held ((==_iff e.allocating_thread 0).0 (cc (same, at, found.at, found.hit)))

pub is_own-thread :
    (thread requested : ℕ) (d : LdtData)
    → is_own thread requested d ≡ true
    → d.allocating_thread ≡ thread
is_own-thread thread requested d h = ground arith

allocated-thread :
    (thread : ℕ) (b : Bool) (f : LdtData)
    → ((allocated thread b f).allocating_thread ≡ thread)
      ⊎ ((allocated thread b f).allocating_thread ≡ no_thread)
unfolding allocated
allocated-thread thread true f = inr refl
allocated-thread thread false f = inl refl

Lookup-isolated :
    (t : List LdtData) (thread requested : ℕ) (d : LdtData) (t' : List LdtData) (i : ℕ)
    → get_elem? t requested ≡ some d
    → Lookup t thread requested d t' i
    → (length t' ≡ length t) × KeepsHeld t t' × ((i ≡ 0) ⊎ IsOwnOrMarker t' thread i)
Lookup-isolated t thread requested d t' i at (Lookup.own mine) =
    (refl, λ j e h _. h, inr (d, at, inl mine))
Lookup-isolated t thread requested d t' i at (Lookup.unallocated foreign free) =
    (refl, λ j e h _. h, inl refl)
Lookup-isolated t thread requested d t' i at (Lookup.stands foreign held a f) =
    (refl, λ j e h _. h, inr (a, f.at, inl (is_own-thread thread requested a f.hit)))
Lookup-isolated t thread requested d t' i at (Lookup.full foreign held miss no_room) =
    (refl, λ j e h _. h, inl refl)
Lookup-isolated t thread requested d t' i at (Lookup.made foreign held miss f found) = (
  length-set t i (allocated thread d.is_really_ldt f),
  set_free-KeepsHeld t i f (allocated thread d.is_really_ldt f) found,
  inr (
    allocated thread d.is_really_ldt f,
    get_elem?-set_self t i (allocated thread d.is_really_ldt f) (get_elem?-length t i found.at),
    allocated-thread thread d.is_really_ldt f,
  ),
)

good-IsIndex :
    (requested : ℕ)
    → (is_negative requested || leb max_ldt_entries requested || requested == 0) ≡ false
    → IsIndex requested
good-IsIndex requested h = (ground arith, ground arith)

-- On a table of 8192 entries `CalculateLDTEntryForThread` ends for every index, however bad, without a
-- read outside of the table. It changes no entry that is allocated, and it returns 0 or the index of
-- an entry that is the thread's or a marker.
pub calculate_isolated :
    (t : List LdtData) (thread requested : ℕ)
    → length t ≡ max_ldt_entries
    → (t' : List LdtData) × (i : ℕ) × (calculate_ldt_entry_for_thread t thread requested
        ≡ some (t', i))
      × (length t' ≡ length t)
      × KeepsHeld t t'
      × ((i ≡ 0) ⊎ IsOwnOrMarker t' thread i)
calculate_isolated t thread requested size =
    elim (Bool-cases (is_negative requested || leb max_ldt_entries requested || requested == 0)) [
      | inl bad ↦ (
        t,
        0,
        unfold calculate_ldt_entry_for_thread in (rw bad refl),
        refl,
        λ j e h _. h,
        inl refl,
      )
      | inr good ↦
          let index = good-IsIndex requested good in
          let (d, at) = get_elem?_within t requested (omega (arith, index.1, size)) in
          let (t', i, ran, way) = calculate-Lookup t thread requested d index at in
          let (same, keeps, end) = Lookup-isolated t thread requested d t' i at way in
          (t', i, ran, same, keeps, end)
    ]

pub some-injective : {a b : ℕ} → some a ≡ some b → a ≡ b
some-injective e = cc

no_own_after :
    (t : List LdtData) (thread requested i : ℕ) (f : LdtData)
    → thread ≢ no_thread
    → search (is_own thread requested) t ≡ none
    → Found is_free t i f
    → search (is_own thread requested) (set t i (allocated thread true f)) ≡ none
unfolding allocated
no_own_after t thread requested i f other miss found =
    elim (Option-cases (search (is_own thread requested) (set t i (allocated thread true f)))) [
      | inl nothing ↦ nothing
      | inr (k, hit) ↦
          let (a, f') =
            search-Found (is_own thread requested) (set t i (allocated thread true f)) k hit in
          elim (Bool-cases (i == k)) [
            | inl same ↦ absurd (here k a f' ((==_iff i k).0 same))
            | inr apart ↦ absurd (there k a f' (λ e. ground arith))
          ]
    ]
  where
    here :
        (k : ℕ) (a : LdtData)
        → Found (is_own thread requested) (set t i (allocated thread true f)) k a
        → i ≢ k
    here k a f' e = other (
        sym (
          is_own-thread thread requested (allocated thread true f) (
            cc (
              e,
              f'.at,
              f'.hit,
              get_elem?-set_self t i (allocated thread true f) (get_elem?-length t i found.at),
            ))))

    there :
        (k : ℕ) (a : LdtData)
        → Found (is_own thread requested) (set t i (allocated thread true f)) k a
        → ¬ (i ≢ k)
    there k a f' apart = cc (
      f'.hit,
      search-none (is_own thread requested) t miss k f'.usable a
          (sym (get_elem?-set_ne t (allocated thread true f) apart) ∙ f'.at),
    )

-- A lookup of an entry that is really an LDT entry, by a thread that does not hold it and has no entry
-- recorded for it, takes the first free entry and marks that as no thread's. So the next lookup of the
-- thread finds none either.
pub calculate-marker :
    (t : List LdtData) (thread requested i : ℕ) (d : LdtData)
    → IsIndex requested
    → get_elem? t requested ≡ some d
    → d.is_really_ldt ≡ true
    → d.allocating_thread ≢ thread
    → d.allocating_thread ≢ 0
    → thread ≢ no_thread
    → search (is_own thread requested) t ≡ none
    → search is_free t ≡ some i
    → (t' : List LdtData) × (e : LdtData) × (calculate_ldt_entry_for_thread t thread requested
        ≡ some (t', i))
      × (get_elem? t' i ≡ some e)
      × (e.allocating_thread ≡ no_thread)
      × (search (is_own thread requested) t' ≡ none)
calculate-marker t thread requested i d index at really foreign held other miss room =
    let (t', k, ran, way) = calculate-Lookup t thread requested d index at in by_way t' k ran way
  where
    by_way :
        (t' : List LdtData) (k : ℕ)
        → calculate_ldt_entry_for_thread t thread requested ≡ some (t', k)
        → Lookup t thread requested d t' k
        → (t' : List LdtData) × (e : LdtData) × (calculate_ldt_entry_for_thread t thread requested
            ≡ some (t', i))
          × (get_elem? t' i ≡ some e)
          × (e.allocating_thread ≡ no_thread)
          × (search (is_own thread requested) t' ≡ none)
    by_way t' k ran (Lookup.own mine) = absurd (foreign mine)
    by_way t' k ran (Lookup.unallocated _ free) = absurd (held free)
    by_way t' k ran (Lookup.stands _ _ a f) =
        absurd (cc (miss, search_at (is_own thread requested) t k a f))
    by_way t' k ran (Lookup.full _ _ _ no_room) = absurd (cc (no_room, room))
    by_way t' k ran (Lookup.made _ _ _ f found) =
        let same : k ≡ i =
          omega (arith, some-injective (sym (search_at is_free t k f found) ∙ room)) in
        let marked : allocated thread d.is_really_ldt f ≡ allocated thread true f =
          ap (λ b. allocated thread b f) really in
        (
          set t k (allocated thread d.is_really_ldt f),
          allocated thread d.is_really_ldt f,
          ran ∙ ap (λ n. some (set t k (allocated thread d.is_really_ldt f), n)) same,
          ap (get_elem? (set t k (allocated thread d.is_really_ldt f))) (sym same)
              ∙ get_elem?-set_self t k (allocated thread d.is_really_ldt f)
                  (get_elem?-length t k found.at),
          unfold allocated in rw really refl,
          rw marked (no_own_after t thread requested k f other miss found),
        )
