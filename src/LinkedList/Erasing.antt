-- ===== src/LinkedList/Erasing.antt =====
-- erase takes one cell out of a list.
use keow.Prelude.{
  ℕ, ◌≡◌, ◌≢◌, ◌∙◌, refl, ap, sym, subst, List, [], ◌∷◌, ◌++◌, none, some, arith, true, false, ◌==◌,
  if◌then◌else◌,
}
use keow.LinkedList.{
  Pointer, Node, Store, Linked, put, delete, set_next, set_prev, skip_next, skip_prev, erase,
  points_to,
}
use keow.LinkedList.Chains.{
  first, last, Chain, IsAway, AreDistinct, AllAway, put_same, put_other, delete_same, put-Chain,
  delete-Chain, Chain-split, Chain-join, AreDistinct-split, AreDistinct-join,
}
use keow.LinkedList.Ends.{
  AreBelow, Represents, below_split, below_join, relink_last, last_there, last-some, IsAway-from,
}

differ : (p t : ℕ) → p ≢ t → (t == p) ≡ false
differ p t ne = ground (arith, ne)

module _ {ℓ} {A : Type ℓ} where
  AllAway-nil : (xs : List (ℕ × A)) → AllAway xs []
  AllAway-nil [] = tt
  AllAway-nil ((p, a) ∷ xs) = (tt, AllAway-nil xs)

  AllAway-cons :
      (p : ℕ) (a : A) (xs ys : List (ℕ × A))
      → IsAway p xs
      → AllAway xs ys
      → AllAway xs ((p, a) ∷ ys)
  AllAway-cons p a [] ys away h = tt
  AllAway-cons p a ((q, b) ∷ xs) ys (ne, away) (l, h) =
      (((λ e. ne (sym e)), l), AllAway-cons p a xs ys away h)

  AllAway-sym : (xs ys : List (ℕ × A)) → AllAway xs ys → AllAway ys xs
  AllAway-sym [] ys h = AllAway-nil ys
  AllAway-sym ((p, a) ∷ xs) ys (l, h) = AllAway-cons p a ys xs l (AllAway-sym xs ys h)

  last-last :
      (xs ys : List (ℕ × A)) (before : Pointer) → last (xs ++ ys) before ≡ last ys (last xs before)
  last-last [] ys before = refl
  last-last ((p, a) ∷ xs) ys before = last-last xs ys (some p)

  -- Nodes away from `xs` are as they were.
  abbrev SameAway : List (ℕ × A) → Store A → Store A → Type ℓ
  SameAway xs s s' = (q : ℕ) → IsAway q xs → s'.nodes q ≡ s.nodes q

  SameAway-Chain :
      (xs ys : List (ℕ × A)) (s s' : Store A) (before after : Pointer)
      → SameAway xs s s'
      → AllAway ys xs
      → Chain s.nodes before ys after
      → Chain s'.nodes before ys after
  SameAway-Chain xs [] s s' before after same away chain = tt
  SameAway-Chain xs ((q, b) ∷ ys) s s' before after same (l, away) (here, chain) =
      (same q l ∙ here, SameAway-Chain xs ys s s' (some q) after same away chain)

  put_away :
      (t : ℕ) (n : Node A) (s : Store A) (xs : List (ℕ × A)) (q r : ℕ)
      → last xs (some q) ≡ some t
      → q ≢ r
      → IsAway r xs
      → put t n s.nodes r ≡ s.nodes r
  put_away t n s xs q r at ne away = put_other t r n s.nodes (last_there r xs q t ne away at)

  -- What is left of a cell leads to `new`.
  unlink_left :
      (xs : List (ℕ × A)) (s : Store A) (after new : Pointer)
      → Chain s.nodes none xs after
      → AreDistinct xs
      → (s' : Store A) × (skip_next (last xs none) new s ≡ some s')
        × Chain s'.nodes none xs new
        × (s'.fresh ≡ s.fresh)
        × SameAway xs s s'
  unfolding skip_next set_next
  unlink_left [] s after new chain d = (s, refl, tt, refl, λ q h. refl)
  unlink_left ((q, b) ∷ xs) s after new chain d =
      let (t, at) = last-some xs q in
      let (n, found, chain') = relink_last s.nodes q b xs t none after new chain d at in
      (
        record s { nodes = put t (record n { next = new }) s.nodes },
        ap (λ z. skip_next z new s) at ∙ rw found refl,
        chain',
        refl,
        λ r h. put_away t (record n { next = new }) s xs q r at h.0 h.1,
      )

  -- What is right of a cell leads back to `new`.
  unlink_right :
      (ys : List (ℕ × A)) (s : Store A) (before new : Pointer)
      → Chain s.nodes before ys none
      → AreDistinct ys
      → (s' : Store A) × (skip_prev (first ys none) new s ≡ some s')
        × Chain s'.nodes new ys none
        × (s'.fresh ≡ s.fresh)
        × SameAway ys s s'
  unfolding skip_prev set_prev
  unlink_right [] s before new chain d = (s, refl, tt, refl, λ q h. refl)
  unlink_right ((q, b) ∷ ys) s before new (here, chain) (away, d) =
      let n : Node A = record { prev = new; next = first ys none; value = b } in
      (
        record s { nodes = put q n s.nodes },
        rw here refl,
        (put_same q n s.nodes, put-Chain q n s.nodes ys (some q) none away chain),
        refl,
        λ r h. put_other q r n s.nodes (λ e. h.0 (sym e)),
      )

  erased_head :
      (xs ys : List (ℕ × A)) (p : ℕ) (a : A) (h : Pointer)
      → h ≡ first (xs ++ ((p, a) ∷ ys)) none
      → IsAway p xs
      → (if points_to h p then first ys none else h) ≡ first (xs ++ ys) none
  erased_head [] ys p a h e away =
      let yes_it : points_to h p ≡ true = ap (λ z. points_to z p) e ∙ ground arith in rw yes_it refl
  erased_head ((q, b) ∷ xs) ys p a h e (ne, away) =
      let no_it : points_to h p ≡ false = ap (λ z. points_to z p) e ∙ ground (arith, ne) in
      rw no_it e

  erased_tail :
      (xs ys : List (ℕ × A)) (p : ℕ) (a : A) (h : Pointer)
      → h ≡ last (xs ++ ((p, a) ∷ ys)) none
      → IsAway p ys
      → (if points_to h p then last xs none else h) ≡ last (xs ++ ys) none
  erased_tail xs [] p a h e away =
      let yes_it : points_to h p ≡ true =
        ap (λ z. points_to z p) (e ∙ last-last xs ((p, a) ∷ []) none) ∙ ground arith in
      rw yes_it (sym (last-last xs [] none))
  erased_tail xs ((q, b) ∷ ys) p a h e (ne, away) =
      let (t, at) = last-some ys q in
      let apart = last_there p ys q t ne away at in
      let no_it : points_to h p ≡ false =
        ap (λ z. points_to z p) (e ∙ last-last xs ((p, a) ∷ (q, b) ∷ ys) none ∙ at)
        ∙ differ p t apart in
      rw no_it
        (e ∙ last-last xs ((p, a) ∷ (q, b) ∷ ys) none ∙ sym (last-last xs ((q, b) ∷ ys) none))

  -- On a list that stands for some cells, erase at one of them takes just that cell away, wherever it
  -- stands, and frees its node.
  pub erase-Represents :
      (l : Linked) (s : Store A) (xs ys : List (ℕ × A)) (p : ℕ) (a : A)
      → Represents s l (xs ++ ((p, a) ∷ ys))
      → (l' : Linked) × (s' : Store A) × (erase (some p) l s ≡ some (l', s'))
        × Represents s' l' (xs ++ ys)
        × (s'.nodes p ≡ none)
  unfolding erase
  erase-Represents l s xs ys p a r =
      let (dx, (away_right, dy), all) = AreDistinct-split xs ((p, a) ∷ ys) r.distinct in
      let (away_left, apart) = IsAway-from p a ys xs all in
      let (left, (here, right)) = Chain-split s.nodes xs ((p, a) ∷ ys) none none r.chain in
      let (bx, (low, by)) = below_split s.fresh xs ((p, a) ∷ ys) r.below in
      let (s1, ran1, left1, fresh1, same1) = unlink_left xs s (some p) (first ys none) left dx in
      let right1 = SameAway-Chain xs ys s s1 (some p) none same1 (AllAway-sym xs ys apart) right in
      let (s2, ran2, right2, fresh2, same2) =
        unlink_right ys s1 (some p) (last xs none) right1 dy in
      let left2 = SameAway-Chain ys xs s1 s2 none (first ys none) same2 apart left1 in
      let here1 = same1 p away_left ∙ here in
      let here2 = same2 p away_right ∙ here1 in
      (
        record {
          head = if points_to l.head p then first ys none else l.head;
          tail = if points_to l.tail p then last xs none else l.tail;
        },
        record s2 { nodes = delete p s2.nodes },
        rw (here, ran1, here1, ran2, here2) refl,
        record {
          head = erased_head xs ys p a l.head r.head away_left;
          tail = erased_tail xs ys p a l.tail r.tail away_right;
          chain =
              Chain-join (delete p s2.nodes) xs ys none none
                (delete-Chain p s2.nodes xs none (first ys none) away_left left2)
                (delete-Chain p s2.nodes ys (last xs none) none away_right right2);
          distinct = AreDistinct-join xs ys dx dy apart;
          below =
              subst (λ n. AreBelow n (xs ++ ys)) (sym (fresh2 ∙ fresh1))
                (below_join s.fresh xs ys bx by);
        },
        delete_same p s2.nodes,
      )
