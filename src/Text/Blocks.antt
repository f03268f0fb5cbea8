-- ===== src/Text/Blocks.antt =====
-- Blocks of bytes: bounded writes and reads, the growth of a block, and what a string's block holds.
use keow.Prelude.{
  ℕ, zero, suc, ◌+◌, ◌-◌, ◌^◌, ◌≤◌, ◌<◌, ◌≡◌, refl, ap, sym, ◌∙◌, ◌⊎◌, inl, inr, List, [], ◌∷◌,
  ◌++◌, Option, some, arith, ◌==◌, if◌then◌else◌, length, get_elem?, take, drop, length-append,
  length-take, length-drop, take-append_length, drop-append_length, append_assoc, Bool-cases,
  ==_iff,
}
use keow.Text.{Text, write_at, read_at, grow}

-- The text that a string object stands for.
abbrev pub contents : Text → List ℕ
contents s = take s.len s.chars

-- The block has the size that is recorded, and the length lies within it.
pub record IsSized (s : Text) : Type 0 where
  pub sized : length s.chars ≡ s.capacity
  pub within : s.len ≤ s.capacity

-- A NULL block, or a NUL right behind the text.
abbrev pub Closed : Text → Type 0
Closed s =
    ((s.capacity ≡ 0) × (s.len ≡ 0)) ⊎ ((s.len < s.capacity) × (get_elem? s.chars s.len ≡ some 0))

-- A string that can exist: its text leaves room in an int for its NUL and for the step by which a
-- block grows.
abbrev pub IsShort : ℕ → Type 0
IsShort n = n + 1025 ≤ 2 ^ 31

pub record IsValid (s : Text) : Type 0 where
  pub is_sized : IsSized s
  pub closed : Closed s
  pub short : IsShort s.len

-- A call succeeds with a valid text of these contents.
abbrev pub Gives : Option Text → List ℕ → Type 0
Gives r bytes = (s : Text) × (r ≡ some s) × IsValid s × (contents s ≡ bytes)

pub length-contents : (s : Text) → IsSized s → length (contents s) ≡ s.len
length-contents s v = omega (arith, length-take s.len s.chars, v.sized, v.within)

pub write_at_lem :
    (block : List ℕ) (at : ℕ) (bytes : List ℕ)
    → at + length bytes ≤ length block
    → (r : List ℕ) × (write_at block at bytes ≡ some r)
      × (length r ≡ length block)
      × (take (at + length bytes) r ≡ take at block ++ bytes)
      × (drop at r ≡ bytes ++ drop (at + length bytes) block)
      × (take at r ≡ take at block)
unfolding write_at
write_at_lem block at bytes h = (
  before ++ (bytes ++ after),
  ground arith,
  omega (
    arith,
    length-append before (bytes ++ after),
    length-append bytes after,
    size,
    length-drop (at + length bytes) block,
  ),
  rw (← append_assoc) (take-append_length _ (before ++ bytes) after spread),
  drop-append_length _ before _ size,
  take-append_length _ before _ size,
)
  where
    before : List ℕ
    before = take at block

    after : List ℕ
    after = drop (at + length bytes) block

    size : length before ≡ at
    size = omega (arith, length-take at block)

    spread : length (before ++ bytes) ≡ at + length bytes
    spread = omega (arith, length-append before bytes, size)

pub read_at_lem :
    (block : List ℕ) (at n : ℕ)
    → at + n ≤ length block
    → (read_at block at n ≡ some (take n (drop at block))) × (length (take n (drop at block)) ≡ n)
unfolding read_at
read_at_lem block at n h =
    (ground arith, omega (arith, length-take n (drop at block), length-drop at block))

-- The loop of `reserve` reaches the size that is asked for, and stays within a block above it.
pub grow_bounds :
    (rounds capacity size : ℕ)
    → size ≤ capacity + rounds
    → (size ≤ grow rounds capacity size)
      × (capacity ≤ grow rounds capacity size)
      × (grow rounds capacity size ≤ capacity + (size + 1023 - capacity))
unfolding grow
grow_bounds zero capacity size h = omega arith
grow_bounds (suc rounds) capacity size h = ground (arith, grow_bounds rounds (capacity + 1024) size)

pub get_elem?_of_drop :
    (n : ℕ) (xs : List ℕ) {c : ℕ} {ys : List ℕ} → drop n xs ≡ c ∷ ys → get_elem? xs n ≡ some c
get_elem?_of_drop zero [] h = cc
get_elem?_of_drop zero (x ∷ xs) h = cc
get_elem?_of_drop (suc n) [] h = cc
get_elem?_of_drop (suc n) (x ∷ xs) h = get_elem?_of_drop n xs h

pub take_at : (m n : ℕ) (xs : List ℕ) {ys : List ℕ} → n ≡ m → take m xs ≡ ys → take n xs ≡ ys
take_at m n xs e h = rw e h

pub take_none : (n : ℕ) (xs : List ℕ) → n ≡ 0 → take n xs ≡ []
take_none zero xs h = refl
take_none (suc n) xs h = absurd (omega arith)

-- What `reserve` copies over.
pub old_lem :
    (s : Text)
    → IsSized s
    → ((if s.capacity == 0 then some [] else read_at s.chars 0 s.len) ≡ some (contents s))
      × (length (contents s) ≡ s.len)
old_lem s v = (
  elim (Bool-cases (s.capacity == 0)) [
    | inl null ↦
        rw null
          (ap some (sym (take_none s.len s.chars (omega (arith, (==_iff _ 0).0 null, v.within)))))
    | inr block ↦ rw block (read_at_lem s.chars 0 s.len (omega (arith, v.sized, v.within))).0
  ],
  length-contents s v,
)

pub Gives-eq : {r : Option Text} {xs ys : List ℕ} → xs ≡ ys → Gives r xs → Gives r ys
Gives-eq e (s, call, v, c) = (s, call, v, c ∙ e)
