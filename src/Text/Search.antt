-- ===== src/Text/Search.antt =====
-- Searching and comparing strings.
use Prim.Native.Nat.{Ordering}
use keow.Prelude.{
  ℕ, zero, suc, ◌+◌, ◌-◌, ◌≤◌, ◌<◌, ◌≡◌, ◌≢◌, refl, ap, sym, ◌∙◌, inl, inr, true, false, ◌||◌, List,
  [], ◌∷◌, Option, none, some, arith, ◌==◌, get_elem?, take, drop, ◌↔◌, Bool-cases, ==_iff, All,
  get_elem?-drop,
}
use keow.Text.{Text, c_string, strcmp, is_empty, find_from, find, compare_text}
use keow.Text.Blocks.{contents, IsValid, take_none}

abbrev pub NoNul : List ℕ → Type 0
NoNul = All (λ c. c ≢ 0)

pub strcmp_eq : (xs ys : List ℕ) → strcmp xs ys ≡ Ordering.eq → xs ≡ ys
unfolding strcmp
strcmp_eq [] [] h = refl
strcmp_eq [] (y ∷ ys) h = cc
strcmp_eq (x ∷ xs) [] h = cc
strcmp_eq (x ∷ xs) (y ∷ ys) h = ground (arith, strcmp_eq xs ys)

pub strcmp_refl : (xs : List ℕ) → strcmp xs xs ≡ Ordering.eq
unfolding strcmp
strcmp_refl [] = refl
strcmp_refl (x ∷ xs) = ground (arith, strcmp_refl xs)

-- With no NUL inside, the C string of a terminated block is the whole text.
c_string-take :
    (n : ℕ) (block : List ℕ)
    → get_elem? block n ≡ some 0
    → NoNul (take n block)
    → c_string block ≡ some (take n block)
unfolding c_string
c_string-take n [] e h = cc
c_string-take zero (c ∷ cs) e h = ground arith
c_string-take (suc n) (c ∷ cs) e h = ground (arith, c_string-take n cs e h.1)

-- The block is there: the object was assigned to, not only constructed.
pub c_string-contents :
    (s : Text)
    → IsValid s
    → 0 < s.capacity
    → NoNul (contents s)
    → c_string s.chars ≡ some (contents s)
c_string-contents s v block h = elim v.closed [
  | inl null ↦ absurd (omega (arith, null.0))
  | inr ended ↦ c_string-take s.len s.chars ended.1 h
]

compare_text_value :
    (s t : Text)
    → IsValid s
    → IsValid t
    → 0 < s.capacity
    → 0 < t.capacity
    → NoNul (contents s)
    → NoNul (contents t)
    → compare_text s t ≡ some (strcmp (contents s) (contents t))
unfolding compare_text
compare_text_value s t v w bs bt ns nt =
    rw (c_string-contents s v bs ns, c_string-contents t w bt nt) refl

-- `compare` reads two valid strings that have a block and no NUL inside without a fault, and it
-- returns 0 exactly when they hold the same bytes.
pub compare_text-eq :
    (s t : Text)
    → IsValid s
    → IsValid t
    → 0 < s.capacity
    → 0 < t.capacity
    → NoNul (contents s)
    → NoNul (contents t)
    → (o : Ordering) × (compare_text s t ≡ some o) × ((o ≡ Ordering.eq) ↔ (contents s ≡ contents t))
compare_text-eq s t v w bs bt ns nt = (
  strcmp (contents s) (contents t),
  compare_text_value s t v w bs bt ns nt,
  (strcmp_eq _ _, λ e. rw e (strcmp_refl (contents t))),
)

-- What the loop of `find` returns: the first hit, counted from the head.
abbrev FirstHit : ℕ → List ℕ → ℕ → Option ℕ → Type 0
FirstHit c ds i none = (j : ℕ) → get_elem? ds j ≢ some c
FirstHit c ds i (some k) =
    (m : ℕ) × (k ≡ i + m) × (get_elem? ds m ≡ some c) × ((j : ℕ) → j < m → get_elem? ds j ≢ some c)

-- No hit below a position of the tail, and none at the head.
earlier :
    (c d : ℕ) (ds : List ℕ) (m : ℕ)
    → d ≢ c
    → ((j : ℕ) → j < m → get_elem? ds j ≢ some c)
    → (j : ℕ) → j < suc m
    → get_elem? (d ∷ ds) j ≢ some c
earlier c d ds m other before zero l e = absurd (other (ground arith))
earlier c d ds m other before (suc j) l e = before j (omega arith) e

FirstHit-cons :
    (c d : ℕ) (ds : List ℕ) (i : ℕ) (r : Option ℕ)
    → d ≢ c
    → FirstHit c ds (i + 1) r
    → FirstHit c (d ∷ ds) i r
FirstHit-cons c d ds i none other h = λ j. earlier c d ds (suc j) other (λ k _. h k) j (omega arith)
FirstHit-cons c d ds i (some k) other (m, e, hit, before) =
    (suc m, omega arith, hit, earlier c d ds m other before)

find_from-FirstHit : (c : ℕ) (ds : List ℕ) (i : ℕ) → FirstHit c ds i (find_from c ds i)
unfolding find_from
find_from-FirstHit c [] i = λ j h. cc
find_from-FirstHit c (d ∷ ds) i = elim (Bool-cases (d == c)) [
  | inl hit ↦ rw hit (0, omega arith, ap some ((==_iff d c).0 hit), λ j h. absurd (omega arith))
  | inr miss ↦ rw miss (
      FirstHit-cons c d ds i (find_from c ds (i + 1)) (differs miss)
        (find_from-FirstHit c ds (i + 1)))
]
  where
    differs : (d == c) ≡ false → d ≢ c
    differs miss e = ground arith

-- What `find` promises about a text: the first hit at `pos` or behind it, or that there is none.
abbrev pub Finds : List ℕ → ℕ → ℕ → Option ℕ → Type 0
Finds text c pos none = (j : ℕ) → pos ≤ j → get_elem? text j ≢ some c
Finds text c pos (some k) =
    (pos ≤ k)
    × (get_elem? text k ≡ some c)
    × ((j : ℕ) → pos ≤ j → j < k → get_elem? text j ≢ some c)

-- A place behind `pos` is a place of what `pos` leaves.
behind :
    (text : List ℕ) (pos j : ℕ) {o : Option ℕ}
    → pos ≤ j
    → get_elem? text j ≡ o
    → get_elem? (drop pos text) (j - pos) ≡ o
behind text pos j h e = get_elem?-drop pos text (j - pos) ∙ ap (get_elem? text) (omega arith) ∙ e

Finds-FirstHit :
    (text : List ℕ) (c pos : ℕ) (r : Option ℕ)
    → FirstHit c (drop pos text) pos r
    → Finds text c pos r
Finds-FirstHit text c pos none h = λ j l e. h (j - pos) (behind text pos j l e)
Finds-FirstHit text c pos (some k) (m, e, hit, before) = (
  omega arith,
  ap (get_elem? text) e ∙ sym (get_elem?-drop pos text m) ∙ hit,
  λ j l below at. before (j - pos) (omega arith) (behind text pos j l at),
)

is_empty-contents : (s : Text) → is_empty s ≡ true → IsValid s → contents s ≡ []
unfolding is_empty
is_empty-contents s e v = take_none s.len s.chars (nothing e)
  where
    nothing : (s.capacity == 0 || s.len == 0) ≡ true → s.len ≡ 0
    nothing e = ground (arith, v.is_sized.within)

-- On every valid string and from every position `find` returns the first place of the character
-- that is not before the position, and -1 only if there is no such place.
pub find-Finds : (s : Text) (c pos : ℕ) → IsValid s → Finds (contents s) c pos (find s c pos)
unfolding find
find-Finds s c pos v = elim (Bool-cases (is_empty s)) [
  | inl nothing ↦ rw (nothing, is_empty-contents s nothing v) (λ j l e. cc)
  | inr some_there ↦ rw some_there (
      Finds-FirstHit (contents s) c pos (find_from c (drop pos (contents s)) pos)
        (find_from-FirstHit c (drop pos (contents s)) pos))
]
