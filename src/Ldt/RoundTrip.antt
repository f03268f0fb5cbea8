-- ===== src/Ldt/RoundTrip.antt =====
-- A descriptor that a thread sets is the one that it gets.
use keow.Prelude.{
  ℕ, ◌≤◌, ◌<◌, ◌≡◌, ◌≢◌, ◌∙◌, refl, sym, Bool, true, false, List, Option, none, some, arith, ◌==◌,
  if◌then◌else◌, ◌>>=◌, get_elem?, set, length, ==_iff, get_elem?-set_self, get_elem?-set_ne,
  get_elem?-length,
}
use keow.Ldt.{
  LdtData, UserDesc, Ldt, LdtEntry, is_own, allocated, calculate_ldt_entry_for_thread,
  first_usable_ldt_entry, set_ldt_selector, get_ldt_selector, store, to_ldt_entry,
}
use keow.Ldt.Search.{Found, search-none, search_at}
use keow.Ldt.Allocation.{Lookup, calculate-Lookup, IsIndex, good_index}
use keow.Ldt.Isolation.{is_own-thread}

-- Lookups in a table where the requested entry is the thread's, or the first of its recorded entries
-- stands at `i`.
pub calculate_own :
    (t : List LdtData) (thread requested : ℕ) (d : LdtData)
    → IsIndex requested
    → get_elem? t requested ≡ some d
    → d.allocating_thread ≡ thread
    → calculate_ldt_entry_for_thread t thread requested ≡ some (t, requested)
unfolding calculate_ldt_entry_for_thread
calculate_own t thread requested d index at mine =
    rw (good_index requested index, at, (==_iff d.allocating_thread thread).1 mine) refl

differs : (a b : ℕ) → a ≢ b → (a == b) ≡ false
differs a b h = ground arith

calculate_stands :
    (t : List LdtData) (thread requested i : ℕ) (d a : LdtData)
    → IsIndex requested
    → get_elem? t requested ≡ some d
    → d.allocating_thread ≢ thread
    → d.allocating_thread ≢ 0
    → Found (is_own thread requested) t i a
    → calculate_ldt_entry_for_thread t thread requested ≡ some (t, i)
unfolding calculate_ldt_entry_for_thread
calculate_stands t thread requested i d a index at foreign held f =
    rw
      (
        good_index requested index,
        at,
        differs d.allocating_thread thread foreign,
        differs d.allocating_thread 0 held,
        search_at (is_own thread requested) t i a f,
      )
      refl

-- Storing an own entry at the index that a lookup gave makes that index the lookup's.
Found-set :
    (t : List LdtData) (thread requested i : ℕ) (v : LdtData)
    → first_usable_ldt_entry ≤ i
    → i < length t
    → is_own thread requested v ≡ true
    → ((j : ℕ)
        → first_usable_ldt_entry ≤ j
        → j < i
        → (b : LdtData) → get_elem? t j ≡ some b
        → is_own thread requested b ≡ false)
    → Found (is_own thread requested) (set t i v) i v
Found-set t thread requested i v usable inside mine before = record {
  usable = usable;
  at = get_elem?-set_self t i v inside;
  hit = mine;
  before =
      λ j l below b at. before j l below b (sym (get_elem?-set_ne t v (λ e. omega arith)) ∙ at);
}

is_own-true :
    (thread requested : ℕ) (v : LdtData)
    → v.allocating_thread ≡ thread
    → v.user_desc.entry_number ≡ requested
    → is_own thread requested v ≡ true
is_own-true thread requested v mine number = ground arith

-- After a lookup that gave `i`, whose entry is the thread's, storing under the requested number at
-- `i` makes the next lookup give `i` again and leave the table.
Lookup-again :
    (t : List LdtData) (thread requested : ℕ) (d : LdtData) (t' : List LdtData) (i : ℕ)
    (e v : LdtData)
    → IsIndex requested
    → get_elem? t requested ≡ some d
    → Lookup t thread requested d t' i
    → i ≢ 0
    → get_elem? t' i ≡ some e
    → e.allocating_thread ≡ thread
    → v.allocating_thread ≡ e.allocating_thread
    → v.user_desc.entry_number ≡ requested
    → calculate_ldt_entry_for_thread (set t' i v) thread requested ≡ some (set t' i v, i)
Lookup-again t thread requested d t' i e v index at (Lookup.own mine) real there holder same
      number =
    calculate_own (set t i v) thread i v index (get_elem?-set_self t i v (get_elem?-length t i at))
      (same ∙ holder)
Lookup-again t thread requested d t' i e v index at (Lookup.unallocated _ _) real there holder same
      number =
    absurd (real refl)
Lookup-again t thread requested d t' i e v index at (Lookup.stands foreign held a f) real there
      holder same number =
    calculate_stands (set t i v) thread requested i d v index
      (get_elem?-set_ne t v (λ z. foreign (cc (z, at, there, holder))) ∙ at) foreign held
      (Found-set t thread requested i v f.usable (get_elem?-length t i there)
        (is_own-true thread requested v (same ∙ holder) number) f.before)
Lookup-again t thread requested d t' i e v index at (Lookup.full _ _ _ _) real there holder same
      number =
    absurd (real refl)
Lookup-again t thread requested d t' i e v index at (Lookup.made foreign held miss f found) real
      there holder same number =
    let made = allocated thread d.is_really_ldt f in
    let apart : i ≢ requested =
      λ z. held ((==_iff d.allocating_thread 0).0 (cc (z, at, found.at, found.hit))) in
    calculate_stands (set (set t i made) i v) thread requested i d v index
      (get_elem?-set_ne (set t i made) v apart ∙ get_elem?-set_ne t made apart ∙ at) foreign held
      (Found-set (set t i made) thread requested i v found.usable
        (get_elem?-length (set t i made) i there)
        (is_own-true thread requested v (same ∙ holder) number)
        (λ j l below b h.
          search-none (is_own thread requested) t miss j l b
            (sym (get_elem?-set_ne t made (λ z. omega arith)) ∙ h)))

-- Where the entry is no LDT marker, what a lookup gives is the thread's.
Lookup-thread :
    (t : List LdtData) (thread requested : ℕ) (d : LdtData) (t' : List LdtData) (i : ℕ)
    (e : LdtData)
    → d.is_really_ldt ≡ false
    → get_elem? t requested ≡ some d
    → Lookup t thread requested d t' i
    → i ≢ 0
    → get_elem? t' i ≡ some e
    → e.allocating_thread ≡ thread
unfolding allocated
Lookup-thread t thread requested d t' i e plain at (Lookup.own mine) real there =
    cc (at, there, mine)
Lookup-thread t thread requested d t' i e plain at (Lookup.unallocated _ _) real there =
    absurd (real refl)
Lookup-thread t thread requested d t' i e plain at (Lookup.stands foreign held a f) real there =
    cc (is_own-thread thread requested a f.hit, f.at, there)
Lookup-thread t thread requested d t' i e plain at (Lookup.full _ _ _ _) real there =
    absurd (real refl)
Lookup-thread t thread requested d t' i e plain at (Lookup.made foreign held miss f found) real
      there =
    let made : LdtData = record f { is_really_ldt = false; allocating_thread = thread } in
    let put : get_elem? (set t i (allocated thread d.is_really_ldt f)) i ≡ some made =
      rw plain (get_elem?-set_self t i made (get_elem?-length t i found.at)) in
    cc (put, there)

module _ (accepts : ℕ → LdtEntry → Bool) where
  -- What `SetLDTSelector` does after the lookup.
  abbrev after_lookup : Ldt → UserDesc → Bool → ℕ → Option LdtData → Bool → Option (Ldt × Bool)
  after_lookup l u b i o true = some (l, false)
  after_lookup l u b i none false = none
  after_lookup l u b i (some e) false =
      if accepts i (to_ldt_entry u) then some (store accepts l i e u b, true) else some (l, false)

  set_ldt_selector_after :
      (l : Ldt) (thread : ℕ) (u : UserDesc) (b : Bool) (t' : List LdtData) (i : ℕ)
      → calculate_ldt_entry_for_thread l.entries thread u.entry_number ≡ some (t', i)
      → set_ldt_selector accepts l thread u b
        ≡ after_lookup (record l { entries = t' }) u b i (get_elem? t' i) (i == 0)
  unfolding set_ldt_selector
  set_ldt_selector_after l thread u b t' i found =
      rw found (by_cases (get_elem? t' i) refl (i == 0) refl)
    where
      by_cases :
          (o : Option LdtData)
          → get_elem? t' i ≡ o
          → (z : Bool) → (i == 0) ≡ z
          → (if i == 0
              then some (record l { entries = t' }, false)
              else (get_elem? t' i >>= λ d.
                  if accepts i (to_ldt_entry u)
                  then some (store accepts (record l { entries = t' }) i d u b, true)
                  else some (record l { entries = t' }, false)))
            ≡ after_lookup (record l { entries = t' }) u b i (get_elem? t' i) (i == 0)
      by_cases o e true z = rw z refl
      by_cases none e false z = rw (z, e) refl
      by_cases (some d) e false z = rw (z, e) refl

  taken :
      (l l' s : Ldt) (yes : Bool)
      → if◌then◌else◌ {A = Option (Ldt × Bool)} yes (some (s, true)) (some (l, false))
        ≡ some (l', true)
      → l' ≡ s
  taken l l' s true e = cc
  taken l l' s false e = cc

  after_lookup-true :
      (l l' : Ldt) (u : UserDesc) (b : Bool) (i : ℕ) (o : Option LdtData) (z : Bool)
      → (i == 0) ≡ z
      → after_lookup l u b i o z ≡ some (l', true)
      → (i ≢ 0) × (e : LdtData) × (o ≡ some e) × (l' ≡ store accepts l i e u b)
  after_lookup-true l l' u b i o true test ran = cc
  after_lookup-true l l' u b i none false test ran = cc
  after_lookup-true l l' u b i (some e) false test ran = (
    λ h. ground arith,
    e,
    refl,
    taken l l' (store accepts l i e u b) (accepts i (to_ldt_entry u)) ran,
  )

  set_succeeded :
      (l l' : Ldt) (thread : ℕ) (u : UserDesc) (is_really_ldt : Bool) (t' : List LdtData) (i : ℕ)
      → calculate_ldt_entry_for_thread l.entries thread u.entry_number ≡ some (t', i)
      → set_ldt_selector accepts l thread u is_really_ldt ≡ some (l', true)
      → (i ≢ 0)
        × (e : LdtData) × (get_elem? t' i ≡ some e)
        × (l' ≡ store accepts (record l { entries = t' }) i e u is_really_ldt)
  set_succeeded l l' thread u is_really_ldt t' i found ran =
      after_lookup-true (record l { entries = t' }) l' u is_really_ldt i (get_elem? t' i) (i == 0)
        refl (sym (set_ldt_selector_after l thread u is_really_ldt t' i found) ∙ ran)

  -- Where the entry of a number is no LDT marker, a thread that sets a descriptor under the number and
  -- succeeds then gets the same descriptor back, and the lookup allocates nothing more.
  pub get-set_ldt_selector :
      (l l' : Ldt) (thread : ℕ) (u asked : UserDesc) (is_really_ldt : Bool) (d : LdtData)
      → IsIndex u.entry_number
      → get_elem? l.entries u.entry_number ≡ some d
      → d.is_really_ldt ≡ false
      → asked.entry_number ≡ u.entry_number
      → set_ldt_selector accepts l thread u is_really_ldt ≡ some (l', true)
      → get_ldt_selector l' thread asked ≡ some (l', true, u)
  unfolding set_ldt_selector get_ldt_selector store
  get-set_ldt_selector l l' thread u asked is_really_ldt d index at plain same ran =
      let (t', i, found, way) = calculate-Lookup l.entries thread u.entry_number d index at in
      let (real, e, there, stored) = set_succeeded l l' thread u is_really_ldt t' i found ran in
      let v = record e { user_desc = u; is_really_ldt = is_really_ldt } in
      let again : calculate_ldt_entry_for_thread l'.entries thread asked.entry_number
          ≡ some (l'.entries, i) =
        rw (stored, same)
          (Lookup-again l.entries thread u.entry_number d t' i e v index at way real there
            (Lookup-thread l.entries thread u.entry_number d t' i e plain at way real there) refl
            refl) in
      let held : get_elem? l'.entries i ≡ some v =
        rw stored (get_elem?-set_self t' i v (get_elem?-length t' i there)) in
      rw (again, differs i 0 real, held) refl
