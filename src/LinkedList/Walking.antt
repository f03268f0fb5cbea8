-- ===== src/LinkedList/Walking.antt =====
-- The loops over a list: find, size, clear and erase of a value.
use keow.Prelude.{
  ℕ, zero, suc, ◌<◌, ◌≡◌, ◌∙◌, refl, ap, sym, subst, List, [], ◌∷◌, ◌++◌, Option, none, some, arith,
  true, false, Bool, if◌then◌else◌, ◌>>=◌, length, length-append, Bool-cases, inl, inr, ◌⊎◌,
}
use keow.LinkedList.{
  Pointer, Store, Linked, find, size, clear, erase, erase_value, pop_back, is_empty, is_null,
}
use keow.LinkedList.Chains.{first, Chain}
use keow.LinkedList.Ends.{Represents, pop_back-Represents}
use keow.LinkedList.Erasing.{erase-Represents}

module _ {ℓ} {A : Type ℓ} where
  -- size counts the cells, with one more turn than there are cells.
  pub size_lem :
      (s : Store A) (cs : List (ℕ × A)) (before : Pointer) (fuel : ℕ)
      → Chain s.nodes before cs none
      → length cs < fuel
      → size fuel (first cs none) s ≡ some (length cs)
  unfolding size
  size_lem s cs before zero chain enough = absurd (omega (arith, enough))
  size_lem s [] before (suc fuel) chain enough = refl
  size_lem s ((p, a) ∷ cs) before (suc fuel) (here, chain) enough =
      rw (here, size_lem s cs (some p) fuel chain (omega (arith, enough))) refl

  -- The cells before the first with a value, and those from it on.
  unfoldable pub remove_first : (A → A → Bool) → A → List (ℕ × A) → List (ℕ × A)
  remove_first eq v [] = []
  remove_first eq v ((p, a) ∷ cs) =
      let rest = remove_first eq v cs in if eq a v then cs else (p, a) ∷ rest

  -- The walk from a cell on either finds none of the value, or the first cell that has it.
  pub data Found (eq : A → A → Bool) (v : A) (cs : List (ℕ × A)) : Option Pointer → Type ℓ where
    nowhere : {r : Option Pointer} → r ≡ some none → remove_first eq v cs ≡ cs → Found eq v cs r
    somewhere :
        (xs ys : List (ℕ × A)) (p : ℕ) (a : A) {r : Option Pointer}
        → r ≡ some (some p)
        → cs ≡ xs ++ ((p, a) ∷ ys)
        → remove_first eq v cs ≡ xs ++ ys
        → Found eq v cs r

  find-Found :
      (eq : A → A → Bool) (v : A) (s : Store A) (cs : List (ℕ × A)) (before : Pointer) (fuel : ℕ)
      → Chain s.nodes before cs none
      → length cs < fuel
      → Found eq v cs (find eq v fuel (first cs none) s)
  unfolding find remove_first
  find-Found eq v s cs before zero chain enough = absurd (omega (arith, enough))
  find-Found eq v s [] before (suc fuel) chain enough = Found.nowhere refl refl
  find-Found eq v s ((p, a) ∷ cs) before (suc fuel) (here, chain) enough =
      elim (Bool-cases (eq a v)) [
        | inl same ↦ Found.somewhere [] cs p a (rw (here, same) refl) refl (rw same refl)
        | inr differs ↦
            later differs (find-Found eq v s cs (some p) fuel chain (omega (arith, enough)))
      ]
    where
      later :
          eq a v ≡ false
          → Found eq v cs (find eq v fuel (first cs none) s)
          → Found eq v ((p, a) ∷ cs) (find eq v (suc fuel) (some p) s)
      later differs (Found.nowhere e r) =
          Found.nowhere (rw (here, differs) e) (rw differs (ap (◌∷◌ (p, a)) r))
      later differs (Found.somewhere xs ys q b e c r) =
          Found.somewhere ((p, a) ∷ xs) ys q b (rw (here, differs) e) (ap (◌∷◌ (p, a)) c)
            (rw differs (ap (◌∷◌ (p, a)) r))

  -- erase of a value takes away the first cell that has it, if there is one.
  pub erase_value-Represents :
      (eq : A → A → Bool) (v : A) (l : Linked) (s : Store A) (cs : List (ℕ × A)) (fuel : ℕ)
      → Represents s l cs
      → length cs < fuel
      → (l' : Linked) × (s' : Store A) × (erase_value eq v fuel l s ≡ some (l', s'))
        × Represents s' l' (remove_first eq v cs)
  unfolding erase_value erase
  erase_value-Represents eq v l s cs fuel r enough =
      by_found (find-Found eq v s cs none fuel r.chain enough)
    where
      at_head : find eq v fuel l.head s ≡ find eq v fuel (first cs none) s
      at_head = ap (λ p. find eq v fuel p s) r.head

      by_found :
          Found eq v cs (find eq v fuel (first cs none) s)
          → (l' : Linked) × (s' : Store A) × (erase_value eq v fuel l s ≡ some (l', s'))
            × Represents s' l' (remove_first eq v cs)
      by_found (Found.nowhere e same) = (
        l,
        s,
        ap (λ o. o >>= λ it. erase it l s) (at_head ∙ e),
        subst (Represents s l) (sym same) r,
      )
      by_found (Found.somewhere xs ys p a e split gone) =
          let (l', s', ran, r', freed) =
            erase-Represents l s xs ys p a (subst (Represents s l) split r) in
          (
            l',
            s',
            ap (λ o. o >>= λ it. erase it l s) (at_head ∙ e) ∙ ran,
            subst (Represents s' l') (sym gone) r',
          )

  -- A sequence is empty, or has a last cell.
  pub snoc_cases :
      (cs : List (ℕ × A))
      → (cs ≡ []) ⊎ ((xs : List (ℕ × A)) × (p : ℕ) × (a : A) × (cs ≡ xs ++ ((p, a) ∷ [])))
  snoc_cases [] = inl refl
  snoc_cases ((p, a) ∷ cs) = elim (snoc_cases cs) [
    | inl e ↦ inr ([], p, a, ap (◌∷◌ (p, a)) e)
    | inr (xs, q, b, e) ↦ inr ((p, a) ∷ xs, q, b, ap (◌∷◌ (p, a)) e)
  ]

  nonempty :
      (xs : List (ℕ × A)) (p : ℕ) (a : A) → is_null (first (xs ++ ((p, a) ∷ [])) none) ≡ false
  nonempty [] p a = refl
  nonempty ((q, b) ∷ xs) p a = refl

  -- clear empties the list, with one more turn than there are cells.
  pub clear-Represents :
      (l : Linked) (s : Store A) (cs : List (ℕ × A)) (fuel : ℕ)
      → Represents s l cs
      → length cs < fuel
      → (l' : Linked) × (s' : Store A) × (clear fuel l s ≡ some (l', s')) × Represents s' l' []
  unfolding clear is_empty
  clear-Represents l s cs zero r enough = absurd (omega (arith, enough))
  clear-Represents l s cs (suc fuel) r enough = elim (snoc_cases cs) [
    | inl e ↦ let r' = subst (Represents s l) e r in (l, s, stops (r'.head), r')
    | inr (xs, p, a, e) ↦
        let r' = subst (Represents s l) e r in
        let (l1, s1, ran, r1, freed) = pop_back-Represents l s xs p a r' in
        let (l2, s2, rest, r2) =
          clear-Represents l1 s1 xs fuel r1
            (omega (arith, enough, ap length e, length-append xs ((p, a) ∷ []))) in
        (l2, s2, goes xs p a r'.head l1 s1 ran ∙ rest, r2)
  ]
    where
      stops : l.head ≡ none → clear (suc fuel) l s ≡ some (l, s)
      stops e = let nothing : is_null l.head ≡ true = ap is_null e in rw (nothing, clear) refl

      goes :
          (xs : List (ℕ × A)) (p : ℕ) (a : A)
          → l.head ≡ first (xs ++ ((p, a) ∷ [])) none
          → (l1 : Linked) (s1 : Store A) → pop_back l s ≡ some (l1, s1, a)
          → clear (suc fuel) l s ≡ clear fuel l1 s1
      goes xs p a e l1 s1 ran =
          let more : is_null l.head ≡ false = ap is_null e ∙ nonempty xs p a in
          rw (more, ran, clear) refl
