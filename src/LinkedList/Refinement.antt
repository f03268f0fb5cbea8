-- ===== src/LinkedList/Refinement.antt =====
-- The list as an implementation of sequences: any run of its operations.
use keow.Prelude.{
  ℕ, ◌+◌, ◌<◌, ◌≤◌, ◌≡◌, ◌∙◌, refl, ap, sym, subst, List, [], ◌∷◌, ◌++◌, Option, none, some, arith,
  Bool, if◌then◌else◌, ◌>>=◌, length, length-append, Bool-cases, inl, inr, some_inj,
}
use keow.LinkedList.{Store, Linked, push_back, pop_back, pop_from, erase_value, clear}
use keow.LinkedList.Chains.{last}
use keow.LinkedList.Ends.{Represents, push_back-Represents, pop_back-Represents}
use keow.LinkedList.Walking.{remove_first, erase_value-Represents, snoc_cases, clear-Represents}

-- The operations that change a list.
pub data Call {ℓ} (A : Type ℓ) : Type ℓ where
  push : A → Call A
  pop : Call A
  remove : A → Call A
  wipe : Call A

module _ {ℓ} {A : Type ℓ} (eq : A → A → Bool) where
  -- The sequence without its last element, and without the first that has a value.
  unfoldable pub but_last : List A → List A
  but_last [] = []
  but_last (a ∷ []) = []
  but_last (a ∷ b ∷ xs) = a ∷ but_last (b ∷ xs)

  unfoldable pub without : A → List A → List A
  without v [] = []
  without v (a ∷ xs) = let rest = without v xs in if eq a v then xs else a ∷ rest

  -- What an operation does to a sequence; `none` is pop_back on an empty one.
  unfoldable pub abstract_call : Call A → List A → Option (List A)
  abstract_call (push a) xs = some (xs ++ (a ∷ []))
  abstract_call pop [] = none
  abstract_call pop (a ∷ xs) = some (but_last (a ∷ xs))
  abstract_call (remove v) xs = some (without v xs)
  abstract_call wipe xs = some []

  unfoldable pub abstract_run : List (Call A) → List A → Option (List A)
  abstract_run [] xs = some xs
  abstract_run (c ∷ cs) xs = abstract_call c xs >>= abstract_run cs

  abbrev forget : Option (Linked × Store A × A) → Option (Linked × Store A)
  forget none = none
  forget (some (l, s, a)) = some (l, s)

  unfoldable pub list_call : ℕ → Call A → Linked → Store A → Option (Linked × Store A)
  list_call fuel (push a) l s = push_back a l s
  list_call fuel pop l s = forget (pop_back l s)
  list_call fuel (remove v) l s = erase_value eq v fuel l s
  list_call fuel wipe l s = clear fuel l s

  unfoldable pub list_run : ℕ → List (Call A) → Linked → Store A → Option (Linked × Store A)
  list_run fuel [] l s = some (l, s)
  list_run fuel (c ∷ cs) l s = list_call fuel c l s >>= λ (l', s'). list_run fuel cs l' s'

  abbrev pub values : List (ℕ × A) → List A
  values [] = []
  values ((p, a) ∷ cs) = a ∷ values cs

  -- A list that stands for the sequence, or a fault where the sequence has none.
  abbrev pub Simulates : Option (List A) → Option (Linked × Store A) → Type ℓ
  Simulates none r = r ≡ none
  Simulates (some xs) r =
      (l : Linked) × (s : Store A) × (cs : List (ℕ × A)) × (r ≡ some (l, s))
      × Represents s l cs
      × (values cs ≡ xs)

  values-append : (xs ys : List (ℕ × A)) → values (xs ++ ys) ≡ values xs ++ values ys
  values-append [] ys = refl
  values-append ((p, a) ∷ xs) ys = ap (◌∷◌ a) (values-append xs ys)

  length-values : (xs : List (ℕ × A)) → length (values xs) ≡ length xs
  length-values [] = refl
  length-values ((p, a) ∷ xs) = omega (arith, length-values xs)

  values-remove_first :
      (v : A) (cs : List (ℕ × A)) → values (remove_first eq v cs) ≡ without v (values cs)
  unfolding remove_first without
  values-remove_first v [] = refl
  values-remove_first v ((p, a) ∷ cs) = elim (Bool-cases (eq a v)) [
    | inl same ↦ rw same refl
    | inr differs ↦ rw differs (ap (◌∷◌ a) (values-remove_first v cs))
  ]

  but_last-append : (xs : List A) (a : A) → but_last (xs ++ (a ∷ [])) ≡ xs
  unfolding but_last
  but_last-append [] a = refl
  but_last-append (b ∷ []) a = refl
  but_last-append (b ∷ c ∷ xs) a = ap (◌∷◌ b) (but_last-append (c ∷ xs) a)

  pop-append : (xs : List A) (a : A) → abstract_call pop (xs ++ (a ∷ [])) ≡ some xs
  unfolding abstract_call
  pop-append [] a = ap some (but_last-append [] a)
  pop-append (b ∷ xs) a = ap some (but_last-append (b ∷ xs) a)

  empty_pop : (l : Linked) (s : Store A) → l.tail ≡ none → pop_back l s ≡ none
  unfolding pop_back pop_from
  empty_pop l s e = ap (λ q. pop_from q l s) e

  list_call-Simulates :
      (fuel : ℕ) (c : Call A) (l : Linked) (s : Store A) (cs : List (ℕ × A))
      → Represents s l cs
      → length cs < fuel
      → Simulates (abstract_call c (values cs)) (list_call fuel c l s)
  unfolding abstract_call list_call
  list_call-Simulates fuel (push a) l s cs r enough =
      let (l', s', ran, r') = push_back-Represents a l s cs r in
      (l', s', cs ++ ((s.fresh, a) ∷ []), ran, r', values-append cs ((s.fresh, a) ∷ []))
  list_call-Simulates fuel (remove v) l s cs r enough =
      let (l', s', ran, r') = erase_value-Represents eq v l s cs fuel r enough in
      (l', s', remove_first eq v cs, ran, r', values-remove_first v cs)
  list_call-Simulates fuel wipe l s cs r enough =
      let (l', s', ran, r') = clear-Represents l s cs fuel r enough in (l', s', [], ran, r', refl)
  list_call-Simulates fuel pop l s cs r enough = elim (snoc_cases cs) [
    | inl e ↦
        subst (λ xs. Simulates (abstract_call pop (values xs)) (forget (pop_back l s))) (sym e)
          (ap forget (empty_pop l s (r.tail ∙ ap (λ xs. last xs none) e)))
    | inr (xs, p, a, e) ↦
        let (l', s', ran, r', freed) =
          pop_back-Represents l s xs p a (subst (Represents s l) e r) in
        subst (λ o. Simulates o (forget (pop_back l s)))
          (sym (
            ap (λ ys. abstract_call pop (values ys)) e
            ∙ ap (abstract_call pop) (values-append xs ((p, a) ∷ []))
            ∙ pop-append (values xs) a))
          (l', s', xs, ap forget ran, r', refl)
  ]

  length-but_last : (xs : List A) → length (but_last xs) ≤ length xs
  unfolding but_last
  length-but_last [] = omega arith
  length-but_last (a ∷ []) = omega arith
  length-but_last (a ∷ b ∷ xs) = omega (arith, length-but_last (b ∷ xs))

  length-without : (v : A) (xs : List A) → length (without v xs) ≤ length xs
  unfolding without
  length-without v [] = omega arith
  length-without v (a ∷ xs) = elim (Bool-cases (eq a v)) [
    | inl same ↦ rw same (omega arith)
    | inr differs ↦ rw differs (omega (arith, length-without v xs))
  ]

  grows : (c : Call A) (xs ys : List A) → abstract_call c xs ≡ some ys → length ys ≤ length xs + 1
  unfolding abstract_call
  grows (push a) xs ys e = omega (arith, ap length (some_inj e), length-append xs (a ∷ []))
  grows pop [] ys e = absurd (cc)
  grows pop (a ∷ xs) ys e = omega (arith, ap length (some_inj e), length-but_last (a ∷ xs))
  grows (remove v) xs ys e = omega (arith, ap length (some_inj e), length-without v xs)
  grows wipe xs ys e = omega (arith, ap length (some_inj e))

  after_call :
      (fuel : ℕ) (calls : List (Call A)) (o : Option (List A)) (q : Option (Linked × Store A))
      → Simulates o q
      → ((xs : List A) → o ≡ some xs → length xs + length calls < fuel)
      → ((l : Linked) (s : Store A) (cs : List (ℕ × A))
          → Represents s l cs
          → length cs + length calls < fuel
          → Simulates (abstract_run calls (values cs)) (list_run fuel calls l s))
      → Simulates (o >>= abstract_run calls) (q >>= λ (l, s). list_run fuel calls l s)
  after_call fuel calls none q h few next = ap (λ z. z >>= λ (l, s). list_run fuel calls l s) h
  after_call fuel calls (some xs) q (l, s, cs, ran, r, vals) few next =
      let enough : length cs + length calls < fuel =
        omega (arith, few xs refl, length-values cs, ap length vals) in
      subst (λ z. Simulates (abstract_run calls xs) (z >>= λ (l', s'). list_run fuel calls l' s'))
        (sym ran)
        (subst (λ ys. Simulates (abstract_run calls ys) (list_run fuel calls l s)) vals
          (next l s cs r enough))

  -- Any run of push_back, pop_back, erase of a value and clear on a list that stands for a sequence
  -- does what the run on the sequence does: it faults exactly where the sequence has pop_back on an
  -- empty one, and else ends in a well-formed list that stands for the resulting sequence. For find
  -- and clear it is enough fuel to have more than the cells and the operations together.
  pub list_run-Simulates :
      (fuel : ℕ) (calls : List (Call A)) (l : Linked) (s : Store A) (cs : List (ℕ × A))
      → Represents s l cs
      → length cs + length calls < fuel
      → Simulates (abstract_run calls (values cs)) (list_run fuel calls l s)
  unfolding abstract_run list_run
  list_run-Simulates fuel [] l s cs r enough = (l, s, cs, refl, r, refl)
  list_run-Simulates fuel (c ∷ calls) l s cs r enough =
      after_call fuel calls (abstract_call c (values cs)) (list_call fuel c l s)
        (list_call-Simulates fuel c l s cs r (omega (arith, enough)))
        (λ xs e. omega (arith, enough, grows c (values cs) xs e, length-values cs))
        (λ l' s' cs' r' h. list_run-Simulates fuel calls l' s' cs' r' h)
