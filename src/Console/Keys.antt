-- ===== src/Console/Keys.antt =====
-- InputChar of cons25.cpp.
use keow.Prelude.{
  ℕ, zero, suc, ◌+◌, ◌-◌, ◌≤◌, ◌<◌, ◌≡◌, inl, inr, ◌∙◌, refl, ap, sym, subst, ==_iff, Bool, true,
  false, not, ◌&&◌, ◌||◌, List, [], ◌∷◌, Option, none, some, arith, leb, ltb, ◌==◌, if◌then◌else◌,
  ◌>>=◌, get_elem?, Bool-cases,
}
use keow.Console.{esc}

-- An INPUT_RECORD: whether it is a KEY_EVENT, and that event.
pub record InputEvent : Type 0 where
  pub is_key : Bool
  pub key_down : Bool
  pub virtual_key : ℕ
  pub ascii : ℕ

abbrev pub vk_return : ℕ
vk_return = 13

abbrev pub vk_f1 : ℕ
vk_f1 = 112

abbrev pub ctrl_c : ℕ
ctrl_c = 3

abbrev pub csi : ℕ → List ℕ
csi c = esc ∷ b'[' ∷ c ∷ []

-- The keys but the function keys whose code differs from the one of NT.
unfoldable pub special_key : ℕ → Option (List ℕ)
special_key k =
    if k == vk_return
    then some (10 ∷ [])
    else if k == 38
    then some (csi b'A')
    else if k == 40
    then some (csi b'B')
    else if k == 37
    then some (csi b'D')
    else if k == 39
    then some (csi b'C')
    else if k == 36
    then some (csi b'H')
    else if k == 35
    then some (csi b'F')
    else if k == 34
    then some (csi b'G')
    else if k == 33
    then some (csi b'I')
    else if k == 46
    then some (127 ∷ [])
    else if k == 45
    then some (csi b'L')
    else none

-- "-MNOPQRSTUVWXYZabcdefghij".
abbrev pub function_letters : List ℕ
function_letters =
    b'-' ∷ b'M' ∷ b'N' ∷ b'O' ∷ b'P' ∷ b'Q' ∷ b'R' ∷ b'S' ∷ b'T' ∷ b'U' ∷ b'V' ∷ b'W' ∷ b'X' ∷ b'Y'
    ∷ b'Z' ∷ b'a' ∷ b'b' ∷ b'c' ∷ b'd' ∷ b'e' ∷ b'f' ∷ b'g' ∷ b'h' ∷ b'i' ∷ b'j' ∷ []

-- A key that goes down; `none` is one that sends nothing.
unfoldable pub translate : InputEvent → Option (List ℕ)
translate e = elim (special_key e.virtual_key) [
  | some codes ↦ some codes
  | none ↦
      if leb vk_f1 e.virtual_key && ltb e.virtual_key (vk_f1 + 24)
      then (get_elem? function_letters (e.virtual_key - vk_f1) >>= λ c. some (csi c))
      else if e.ascii == 0
      then none
      else some (e.ascii ∷ [])
]

-- What is sent for an event that was read; `none` is a return before the write.
unfoldable pub input_char : InputEvent → Option (List ℕ)
input_char e =
    if e.is_key && e.key_down
    then translate e
    else if e.is_key && e.ascii == ctrl_c
    then some (ctrl_c ∷ [])
    else some []

-- The keys whose codes are translated.
unfoldable pub is_translated : ℕ → Bool
is_translated k =
    leb 33 k && leb k 40
    || (k == vk_return || (k == 45 || (k == 46 || (leb vk_f1 k && ltb k (vk_f1 + 24)))))

-- The key that a code stands for.
unfoldable pub position_of : ℕ → List ℕ → ℕ → ℕ
position_of c [] i = 0
position_of c (d ∷ ds) i = let later = position_of c ds (suc i) in if c == d then i else later

-- The key that was pressed for a code, by the last byte of the code.
unfoldable pub key_of : ℕ → ℕ
key_of c =
    if c == 10
    then vk_return
    else if c == 127
    then 46
    else position_of c
        (b'I' ∷ b'G' ∷ b'F' ∷ b'H' ∷ b'D' ∷ b'A' ∷ b'C' ∷ b'B' ∷ 0 ∷ 0 ∷ 0 ∷ 0 ∷ b'L' ∷ []) 33
      + position_of c function_letters vk_f1

unfoldable pub last_of : List ℕ → ℕ
last_of [] = 0
last_of (c ∷ []) = c
last_of (c ∷ d ∷ cs) = last_of (d ∷ cs)

abbrev pub pressed : ℕ → ℕ → InputEvent
pressed k ascii = record { is_key = true; key_down = true; virtual_key = k; ascii = ascii }

abbrev back : Option (List ℕ) → ℕ
back none = 0
back (some cs) = key_of (last_of cs)

-- The code of key k leads back to it, for all translated keys from `i` on, `n` of them.
decodes : ℕ → ℕ → ℕ → Bool
decodes ascii zero i = true
decodes ascii (suc n) i =
    (not (is_translated i) || back (input_char (pressed i ascii)) == i) && decodes ascii n (suc i)

all_decode : (ascii : ℕ) → decodes ascii 136 0 ≡ true
unfolding decodes is_translated input_char translate special_key key_of last_of position_of
all_decode ascii = refl

and_left : (a b : Bool) → (a && b) ≡ true → a ≡ true
and_left true b h = refl
and_left false b h = cc

and_right : (a b : Bool) → (a && b) ≡ true → b ≡ true
and_right true b h = h
and_right false b h = absurd (cc)

implied : (a b : Bool) → (not a || b) ≡ true → a ≡ true → b ≡ true
implied true b h e = h
implied false b h e = absurd (cc)

decodes_lem :
    (ascii n i k : ℕ)
    → decodes ascii n i ≡ true
    → i ≤ k
    → k < i + n
    → is_translated k ≡ true
    → back (input_char (pressed k ascii)) ≡ k
unfolding decodes
decodes_lem ascii zero i k h low high t = absurd (omega (arith, low, high))
decodes_lem ascii (suc n) i k h low high t = elim (Bool-cases (i == k)) [
  | inl here ↦
      let same : i ≡ k = ground (arith, here) in
      let first = and_left _ _ h in
      let at : (back (input_char (pressed k ascii)) == k) ≡ true =
        implied (is_translated k) _
          (subst (λ j. (not (is_translated j) || back (input_char (pressed j ascii)) == j) ≡ true)
            same first)
          t in
      (==_iff (back (input_char (pressed k ascii))) k).0 at
  | inr later ↦
      let next : suc i ≤ k = ground (arith, low, later) in
      decodes_lem ascii n (suc i) k (and_right _ _ h) next (omega (arith, high)) t
]

is_translated_below : (k : ℕ) → is_translated k ≡ true → k < 136
unfolding is_translated
is_translated_below k t = ground arith

-- Two translated keys that send the same codes are the same key, whatever characters they come with.
pub input_char_injective :
    (k l ascii other : ℕ)
    → is_translated k ≡ true
    → is_translated l ≡ true
    → input_char (pressed k ascii) ≡ input_char (pressed l other)
    → k ≡ l
input_char_injective k l ascii other t u same =
    sym (
      decodes_lem ascii 136 0 k (all_decode ascii) (omega arith)
        (omega (arith, is_translated_below k t)) t)
    ∙ ap back same
    ∙ decodes_lem other 136 0 l (all_decode other) (omega arith)
        (omega (arith, is_translated_below l u)) u

-- The letters of ESC [ X that the comments beside the keys F1 to F24 name.
abbrev pub documented_letters : List ℕ
documented_letters =
    b'M' ∷ b'N' ∷ b'O' ∷ b'P' ∷ b'Q' ∷ b'R' ∷ b'S' ∷ b'T' ∷ b'U' ∷ b'V' ∷ b'W' ∷ b'X' ∷ b'Y' ∷ b'Z'
    ∷ b'a' ∷ b'b' ∷ b'c' ∷ b'd' ∷ b'e' ∷ b'f' ∷ b'g' ∷ b'h' ∷ b'i' ∷ b'j' ∷ []

not_special : (n : ℕ) → special_key (vk_f1 + n) ≡ none
unfolding special_key
not_special n = ground arith

-- Key F(n + 2) sends the code that the comments give for F(n + 1), for every n below 23.
pub input_char_shifted :
    (n c ascii : ℕ)
    → n < 23
    → get_elem? documented_letters n ≡ some c
    → input_char (pressed (vk_f1 + suc n) ascii) ≡ some (csi c)
unfolding input_char translate
input_char_shifted n c ascii small at =
    let in_range : (leb vk_f1 (vk_f1 + suc n) && ltb (vk_f1 + suc n) (vk_f1 + 24)) ≡ true =
      ground (arith, small) in
    let place : (vk_f1 + suc n) - vk_f1 ≡ suc n = omega arith in
    rw (not_special (suc n), translate, in_range, place, at) refl
