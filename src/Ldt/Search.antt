-- ===== src/Ldt/Search.antt =====
-- The loops that look for an entry from FIRST_USABLE_LDT_ENTRY on.
use keow.Prelude.{
  ℕ, zero, suc, ◌+◌, ◌-◌, ◌≤◌, ◌<◌, ◌≡◌, ◌∙◌, refl, ap, sym, inl, inr, Bool, true, false, List, [],
  ◌∷◌, Option, none, some, arith, subst, get_elem?, drop, get_elem?-drop, Bool-cases,
}
use keow.Ldt.{LdtData, first_index, search, first_usable_ldt_entry}

-- No entry below this place passes the test.
abbrev Untested : (LdtData → Bool) → List LdtData → ℕ → Type 0
Untested test t n = (j : ℕ) → j < n → (b : LdtData) → get_elem? t j ≡ some b → test b ≡ false

Untested-cons :
    (test : LdtData → Bool) (d : LdtData) (t : List LdtData) (n : ℕ)
    → test d ≡ false
    → Untested test t n
    → Untested test (d ∷ t) (suc n)
Untested-cons test d t n miss h zero l b at = cc (at, miss)
Untested-cons test d t n miss h (suc j) l b at = h j (omega arith) b at

-- What the loop returns: the place that passes, or that none does.
abbrev FirstIndex : (LdtData → Bool) → List LdtData → ℕ → Option ℕ → Type 0
FirstIndex test t i none = (j : ℕ) (b : LdtData) → get_elem? t j ≡ some b → test b ≡ false
FirstIndex test t i (some k) =
    (m : ℕ) × (k ≡ i + m)
    × ((a : LdtData) × (get_elem? t m ≡ some a) × (test a ≡ true))
    × Untested test t m

FirstIndex-cons :
    (test : LdtData → Bool) (d : LdtData) (t : List LdtData) (i : ℕ) (r : Option ℕ)
    → test d ≡ false
    → FirstIndex test t (suc i) r
    → FirstIndex test (d ∷ t) i r
FirstIndex-cons test d t i none miss h =
    λ j b at. Untested-cons test d t (suc j) miss (λ k _. h k) j (omega arith) b at
FirstIndex-cons test d t i (some k) miss (m, e, hit, before) =
    (suc m, omega arith, hit, Untested-cons test d t m miss before)

first_index-FirstIndex :
    (test : LdtData → Bool) (t : List LdtData) (i : ℕ) → FirstIndex test t i (first_index test t i)
unfolding first_index
first_index-FirstIndex test [] i = λ j b at. cc
first_index-FirstIndex test (d ∷ t) i = elim (Bool-cases (test d)) [
  | inl hit ↦ rw hit (0, omega arith, (d, refl, hit), λ j l b at. absurd (omega arith))
  | inr miss ↦ rw miss (
      FirstIndex-cons test d t i (first_index test t (suc i)) miss
        (first_index-FirstIndex test t (suc i)))
]

first_index_at :
    (test : LdtData → Bool) (t : List LdtData) (i m : ℕ) (a : LdtData)
    → get_elem? t m ≡ some a
    → test a ≡ true
    → Untested test t m
    → first_index test t i ≡ some (i + m)
unfolding first_index
first_index_at test [] i m a at hit before = cc
first_index_at test (d ∷ t) i zero a at hit before = ground (arith, at, hit)
first_index_at test (d ∷ t) i (suc m) a at hit before = rw (before 0 (omega arith) d refl) (
    first_index_at test t (suc i) m a at hit (λ j l. before (suc j) (omega arith))
    ∙ ap some (omega arith))

-- The first usable entry that passes the test.
pub record Found (test : LdtData → Bool) (t : List LdtData) (i : ℕ) (a : LdtData) : Type 0 where
  pub usable : first_usable_ldt_entry ≤ i
  pub at : get_elem? t i ≡ some a
  pub hit : test a ≡ true
  pub before :
      (j : ℕ)
      → first_usable_ldt_entry ≤ j
      → j < i
      → (b : LdtData) → get_elem? t j ≡ some b
      → test b ≡ false

pub search-Found :
    (test : LdtData → Bool) (t : List LdtData) (i : ℕ)
    → search test t ≡ some i
    → (a : LdtData) × Found test t i a
unfolding search
search-Found test t i e =
    let (m, k, (a, at, hit), before) =
      subst (FirstIndex test (drop first_usable_ldt_entry t) first_usable_ldt_entry) e
        (first_index-FirstIndex test (drop first_usable_ldt_entry t) first_usable_ldt_entry) in
    (
      a,
      record {
        usable = omega arith;
        at = ap (get_elem? t) k ∙ sym (get_elem?-drop first_usable_ldt_entry t m) ∙ at;
        hit = hit;
        before = λ j l below b there. before (j - first_usable_ldt_entry) (omega arith) b (
            get_elem?-drop first_usable_ldt_entry t (j - first_usable_ldt_entry)
            ∙ ap (get_elem? t) (omega arith)
            ∙ there);
      },
    )

pub search_at :
    (test : LdtData → Bool) (t : List LdtData) (i : ℕ) (a : LdtData)
    → Found test t i a
    → search test t ≡ some i
unfolding search
search_at test t i a f =
    let m = i - first_usable_ldt_entry in
    first_index_at test (drop first_usable_ldt_entry t) first_usable_ldt_entry m a
      (get_elem?-drop first_usable_ldt_entry t m
        ∙ ap (get_elem? t) (omega (arith, f.usable))
        ∙ f.at)
      f.hit
      (λ j l b at.
        f.before (first_usable_ldt_entry + j) (omega arith) (omega arith) b
          (sym (get_elem?-drop first_usable_ldt_entry t j) ∙ at))
    ∙ ap some (omega (arith, f.usable))

pub search-none :
    (test : LdtData → Bool) (t : List LdtData)
    → search test t ≡ none
    → (j : ℕ) → first_usable_ldt_entry ≤ j
    → (b : LdtData) → get_elem? t j ≡ some b
    → test b ≡ false
unfolding search
search-none test t e j l b at =
    subst (FirstIndex test (drop first_usable_ldt_entry t) first_usable_ldt_entry) e
      (first_index-FirstIndex test (drop first_usable_ldt_entry t) first_usable_ldt_entry)
      (j - first_usable_ldt_entry) b
      (get_elem?-drop first_usable_ldt_entry t (j - first_usable_ldt_entry)
        ∙ ap (get_elem? t) (omega arith)
        ∙ at)
