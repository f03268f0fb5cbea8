-- ===== src/LinkedList/Chains.antt =====
-- The chain of nodes of a list, as the sequence of its addresses and values.
use keow.Prelude.{
  ℕ, ◌≡◌, ◌≢◌, ◌∙◌, refl, List, [], ◌∷◌, ◌++◌, Option, none, some, arith, true, false, ◌==◌,
}
use keow.LinkedList.{Pointer, Node, put, delete}

module _ {ℓ} {A : Type ℓ} where
  -- The address of the first cell, or what follows.
  abbrev pub first : List (ℕ × A) → Pointer → Pointer
  first [] after = after
  first ((p, a) ∷ cs) after = some p

  -- The address of the last cell, or what comes before.
  abbrev pub last : List (ℕ × A) → Pointer → Pointer
  last [] before = before
  last ((p, a) ∷ cs) before = last cs (some p)

  abbrev pub Chain : (ℕ → Option (Node A)) → Pointer → List (ℕ × A) → Pointer → Type ℓ
  Chain nodes before [] after = Unit
  Chain nodes before ((p, a) ∷ cs) after =
      (nodes p ≡ some (record { prev = before; next = first cs after; value = a }))
      × Chain nodes (some p) cs after

  -- The cells are at other addresses than p.
  abbrev pub IsAway : ℕ → List (ℕ × A) → Type 0
  IsAway p [] = Unit
  IsAway p ((q, a) ∷ cs) = (q ≢ p) × IsAway p cs

  abbrev pub AreDistinct : List (ℕ × A) → Type 0
  AreDistinct [] = Unit
  AreDistinct ((p, a) ∷ cs) = IsAway p cs × AreDistinct cs

  abbrev pub AllAway : List (ℕ × A) → List (ℕ × A) → Type 0
  AllAway [] ys = Unit
  AllAway ((p, a) ∷ xs) ys = IsAway p ys × AllAway xs ys

  pub put_other :
      (p q : ℕ) (n : Node A) (nodes : ℕ → Option (Node A)) → q ≢ p → put p n nodes q ≡ nodes q
  put_other p q n nodes ne = let e : (q == p) ≡ false = ground (arith, ne) in rw e refl

  pub put_same : (p : ℕ) (n : Node A) (nodes : ℕ → Option (Node A)) → put p n nodes p ≡ some n
  put_same p n nodes = let e : (p == p) ≡ true = ground arith in rw e refl

  pub delete_same : (p : ℕ) (nodes : ℕ → Option (Node A)) → delete p nodes p ≡ none
  delete_same p nodes = let e : (p == p) ≡ true = ground arith in rw e refl

  delete_other : (p q : ℕ) (nodes : ℕ → Option (Node A)) → q ≢ p → delete p nodes q ≡ nodes q
  delete_other p q nodes ne = let e : (q == p) ≡ false = ground (arith, ne) in rw e refl

  pub put-Chain :
      (p : ℕ) (n : Node A) (nodes : ℕ → Option (Node A)) (cs : List (ℕ × A))
      (before after : Pointer)
      → IsAway p cs
      → Chain nodes before cs after
      → Chain (put p n nodes) before cs after
  put-Chain p n nodes [] before after away chain = tt
  put-Chain p n nodes ((q, a) ∷ cs) before after (ne, away) (here, chain) =
      (put_other p q n nodes ne ∙ here, put-Chain p n nodes cs (some q) after away chain)

  pub delete-Chain :
      (p : ℕ) (nodes : ℕ → Option (Node A)) (cs : List (ℕ × A)) (before after : Pointer)
      → IsAway p cs
      → Chain nodes before cs after
      → Chain (delete p nodes) before cs after
  delete-Chain p nodes [] before after away chain = tt
  delete-Chain p nodes ((q, a) ∷ cs) before after (ne, away) (here, chain) =
      (delete_other p q nodes ne ∙ here, delete-Chain p nodes cs (some q) after away chain)

  pub Chain-split :
      (nodes : ℕ → Option (Node A)) (xs ys : List (ℕ × A)) (before after : Pointer)
      → Chain nodes before (xs ++ ys) after
      → Chain nodes before xs (first ys after) × Chain nodes (last xs before) ys after
  Chain-split nodes [] ys before after chain = (tt, chain)
  Chain-split nodes ((p, a) ∷ []) ys before after (here, chain) = ((here, tt), chain)
  Chain-split nodes ((p, a) ∷ (q, b) ∷ xs) ys before after (here, chain) =
      let (left, right) = Chain-split nodes ((q, b) ∷ xs) ys (some p) after chain in
      ((here, left), right)

  pub Chain-join :
      (nodes : ℕ → Option (Node A)) (xs ys : List (ℕ × A)) (before after : Pointer)
      → Chain nodes before xs (first ys after)
      → Chain nodes (last xs before) ys after
      → Chain nodes before (xs ++ ys) after
  Chain-join nodes [] ys before after left right = right
  Chain-join nodes ((p, a) ∷ []) ys before after (here, left) right = (here, right)
  Chain-join nodes ((p, a) ∷ (q, b) ∷ xs) ys before after (here, left) right =
      (here, Chain-join nodes ((q, b) ∷ xs) ys (some p) after left right)

  pub IsAway-split :
      (p : ℕ) (xs ys : List (ℕ × A)) → IsAway p (xs ++ ys) → IsAway p xs × IsAway p ys
  IsAway-split p [] ys h = (tt, h)
  IsAway-split p ((q, a) ∷ xs) ys (ne, h) = let (l, r) = IsAway-split p xs ys h in ((ne, l), r)

  pub IsAway-join : (p : ℕ) (xs ys : List (ℕ × A)) → IsAway p xs → IsAway p ys → IsAway p (xs ++ ys)
  IsAway-join p [] ys l r = r
  IsAway-join p ((q, a) ∷ xs) ys (ne, l) r = (ne, IsAway-join p xs ys l r)

  pub AreDistinct-split :
      (xs ys : List (ℕ × A))
      → AreDistinct (xs ++ ys)
      → AreDistinct xs × AreDistinct ys × AllAway xs ys
  AreDistinct-split [] ys d = (tt, d, tt)
  AreDistinct-split ((p, a) ∷ xs) ys (away, d) =
      let (dx, dy, all) = AreDistinct-split xs ys d in
      let (l, r) = IsAway-split p xs ys away in ((l, dx), dy, (r, all))

  pub AreDistinct-join :
      (xs ys : List (ℕ × A))
      → AreDistinct xs
      → AreDistinct ys
      → AllAway xs ys
      → AreDistinct (xs ++ ys)
  AreDistinct-join [] ys dx dy all = dy
  AreDistinct-join ((p, a) ∷ xs) ys (l, dx) dy (r, all) =
      (IsAway-join p xs ys l r, AreDistinct-join xs ys dx dy all)
