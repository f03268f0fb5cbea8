-- ===== src/FilePath/Pieces.antt =====
-- What the loop of AppendPath does: it splits the text at its slashes.
use keow.Prelude.{
  ℕ, zero, suc, ◌+◌, ◌-◌, ◌≤◌, ◌<◌, ◌≡◌, refl, ap, sym, ◌∙◌, inl, inr, true, false, List, [], ◌∷◌,
  ◌++◌, append_assoc, append-nil, Option, none, some, arith, ◌==◌, if◌then◌else◌, length, take,
  drop, Bool-cases, length-drop, drop-drop,
}
use mathlib.Core.List.{foldl}
use keow.Text.{find_from}
use keow.Text.Search.{strcmp_eq, strcmp_refl}
use keow.FilePath.{Bytes, slash, same, push_element, append_from, append_path, is_absolute}

-- The reference: every piece between slashes, in order.
unfoldable pub split : Bytes → Bytes → List Bytes
split piece [] = piece ∷ []
split piece (c ∷ s) = elim (c == slash) [
  | true ↦ piece ∷ split [] s
  | false ↦ split (piece ++ c ∷ []) s
]

unfoldable pub pieces : Bytes → List Bytes
unfolding split
pieces s = split [] s

pub same_iff : (a b : Bytes) → (same a b ≡ true → a ≡ b) × (a ≡ b → same a b ≡ true)
unfolding same
same_iff a b = (λ h. strcmp_eq a b (ground arith), λ h. rw h (rw (strcmp_refl b, same) refl))

pub split-slash :
    (c : ℕ) (piece r : Bytes) → (c == slash) ≡ true → split piece (c ∷ r) ≡ piece ∷ split [] r
unfolding split
split-slash c piece r e = rw (e, split) refl

pub split_other :
    (c : ℕ) (piece r : Bytes)
    → (c == slash) ≡ false
    → split piece (c ∷ r) ≡ split (piece ++ c ∷ []) r
unfolding split
split_other c piece r e = rw (e, split) refl

-- How the first slash that `find` returns cuts the text that is left.
abbrev Cuts : Bytes → Bytes → ℕ → Option ℕ → Type 0
Cuts piece r i none = split piece r ≡ (piece ++ r) ∷ []
Cuts piece r i (some k) =
    (m : ℕ) × (k ≡ i + m)
    × (m < length r)
    × (split piece r ≡ (piece ++ take m r) ∷ split [] (drop (suc m) r))

Cuts-cons :
    (c : ℕ) (piece r : Bytes) (i : ℕ) (o : Option ℕ)
    → (c == slash) ≡ false
    → Cuts (piece ++ c ∷ []) r (i + 1) o
    → Cuts piece (c ∷ r) i o
Cuts-cons c piece r i none other h =
    split_other c piece r other ∙ h ∙ ap (λ x. x ∷ []) (append_assoc piece (c ∷ []) r)
Cuts-cons c piece r i (some k) other (m, e, inside, h) = (
  suc m,
  omega arith,
  omega arith,
  split_other c piece r other
      ∙ h
      ∙ ap (λ x. x ∷ split [] (drop (suc m) r)) (append_assoc piece (c ∷ []) (take m r)),
)

find_from-Cuts : (piece r : Bytes) (i : ℕ) → Cuts piece r i (find_from slash r i)
unfolding find_from
find_from-Cuts piece [] i = unfold split in rw append-nil refl
find_from-Cuts piece (c ∷ r) i = elim (Bool-cases (c == slash)) [
  | inl hit ↦ rw hit (
    0,
    omega arith,
    omega arith,
    split-slash c piece r hit ∙ ap (λ x. x ∷ split [] r) (sym (append-nil piece)),
  )
  | inr other ↦ rw other (
      Cuts-cons c piece r i (find_from slash r (i + 1)) other
        (find_from-Cuts (piece ++ c ∷ []) r (i + 1)))
]

append_from-pieces :
    (rounds : ℕ) (unixp : Bytes) (pos : ℕ) (lst : List Bytes)
    → length unixp < pos + rounds
    → pos ≤ length unixp
    → append_from rounds unixp pos lst ≡ foldl push_element lst (pieces (drop pos unixp))
unfolding append_from pieces
append_from-pieces zero unixp pos lst enough inside = absurd (omega arith)
append_from-pieces (suc rounds) unixp pos lst enough inside =
    one_round (append_from-pieces rounds unixp) (find_from slash (drop pos unixp) pos) refl
      (find_from-Cuts [] (drop pos unixp) pos)
  where
    one_round :
        ((from : ℕ) (l : List Bytes)
          → length unixp < from + rounds
          → from ≤ length unixp
          → append_from rounds unixp from l ≡ foldl push_element l (pieces (drop from unixp)))
        → (o : Option ℕ) → find_from slash (drop pos unixp) pos ≡ o
        → Cuts [] (drop pos unixp) pos o
        → append_from (suc rounds) unixp pos lst ≡ foldl push_element lst (pieces (drop pos unixp))
    one_round later none e cuts = rw (e, append_from) (rw cuts refl)
    one_round later (some k) e (m, at, within, cuts) =
        let skip : k - pos ≡ m = omega arith in
        let left : drop (k + 1) unixp ≡ drop (suc m) (drop pos unixp) =
          ap (λ n. drop n unixp) (omega arith) ∙ sym (drop-drop pos (suc m) unixp) in
        rw (e, append_from)
          (later (k + 1) _ (omega arith) (omega (arith, length-drop pos unixp))
            ∙ rw (cuts, skip, left) refl)

-- `AppendPath` ends on every input, and adds the pieces between the slashes one after the other,
-- to the root if the text starts with a slash.
pub append_path-pieces :
    (lst : List Bytes) (unixp : Bytes)
    → append_path lst unixp
      ≡ foldl push_element (if is_absolute unixp then [] else lst) (pieces unixp)
unfolding append_path
append_path-pieces lst unixp =
    append_from-pieces (length unixp + 1) unixp 0 _ (omega arith) (omega arith)
