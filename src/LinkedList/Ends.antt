-- ===== src/LinkedList/Ends.antt =====
-- A list in the store stands for a sequence of cells; push_back and pop_back work at its end.
use keow.Prelude.{
  ℕ, suc, ◌<◌, ◌≡◌, ◌≢◌, ◌∙◌, refl, ap, sym, subst, List, [], ◌∷◌, ◌++◌, Option, none, some, arith,
  false, ◌==◌, some_inj,
}
use keow.LinkedList.{
  Pointer, Node, Store, Linked, put, delete, set_next, empty_list, new_node, link_tail, push_back,
  take_node, drop_tail, pop_from, pop_back,
}
use keow.LinkedList.Chains.{
  first, last, Chain, IsAway, AreDistinct, AllAway, put_same, put_other, delete_same, put-Chain,
  delete-Chain, Chain-split, Chain-join, AreDistinct-split, AreDistinct-join,
}

abbrev pub AreBelow {ℓ} : {A : Type ℓ} → ℕ → List (ℕ × A) → Type 0
AreBelow n [] = Unit
AreBelow n ((p, a) ∷ cs) = (p < n) × AreBelow n cs

-- The list's pointers and the nodes of the store are those of the cells, in their order.
pub record Represents {ℓ} {A : Type ℓ} (s : Store A) (l : Linked) (cs : List (ℕ × A)) : Type ℓ where
  pub head : l.head ≡ first cs none
  pub tail : l.tail ≡ last cs none
  pub chain : Chain s.nodes none cs none
  pub distinct : AreDistinct cs
  pub below : AreBelow s.fresh cs

module _ {ℓ} {A : Type ℓ} where
  below-IsAway : (n : ℕ) (cs : List (ℕ × A)) → AreBelow n cs → IsAway n cs
  below-IsAway n [] h = tt
  below-IsAway n ((p, a) ∷ cs) (low, h) = (omega (arith, low), below-IsAway n cs h)

  below_suc :
      (n : ℕ) (xs : List (ℕ × A)) (a : A) → AreBelow n xs → AreBelow (suc n) (xs ++ ((n, a) ∷ []))
  below_suc n [] a h = (omega arith, tt)
  below_suc n ((p, b) ∷ xs) a (low, h) = (omega (arith, low), below_suc n xs a h)

  pub below_split :
      (n : ℕ) (xs ys : List (ℕ × A)) → AreBelow n (xs ++ ys) → AreBelow n xs × AreBelow n ys
  below_split n [] ys h = (tt, h)
  below_split n ((p, a) ∷ xs) ys (low, h) = let (l, r) = below_split n xs ys h in ((low, l), r)

  pub below_join :
      (n : ℕ) (xs ys : List (ℕ × A)) → AreBelow n xs → AreBelow n ys → AreBelow n (xs ++ ys)
  below_join n [] ys l r = r
  below_join n ((p, a) ∷ xs) ys (low, l) r = (low, below_join n xs ys l r)

  pub last-append :
      (xs : List (ℕ × A)) (p : ℕ) (a : A) (ys : List (ℕ × A)) (before : Pointer)
      → last (xs ++ ((p, a) ∷ ys)) before ≡ last ys (some p)
  last-append [] p a ys before = refl
  last-append ((q, b) ∷ xs) p a ys before = last-append xs p a ys (some q)

  pub last_there :
      (p : ℕ) (xs : List (ℕ × A)) (q t : ℕ)
      → q ≢ p
      → IsAway p xs
      → last xs (some q) ≡ some t
      → p ≢ t
  last_there p [] q t ne away e = λ h. ne (some_inj e ∙ sym h)
  last_there p ((r, b) ∷ xs) q t ne (other, away) e = last_there p xs r t other away e

  -- The last node of a chain is given another next node.
  pub relink_last :
      (nodes : ℕ → Option (Node A)) (p : ℕ) (a : A) (xs : List (ℕ × A)) (t : ℕ)
      (before after new : Pointer)
      → Chain nodes before ((p, a) ∷ xs) after
      → AreDistinct ((p, a) ∷ xs)
      → last xs (some p) ≡ some t
      → (n : Node A) × (nodes t ≡ some n)
        × Chain (put t (record n { next = new }) nodes) before ((p, a) ∷ xs) new
  relink_last nodes p a [] t before after new (here, chain) d at =
      let e : p ≡ t = some_inj at in
      (
        record { prev = before; next = after; value = a },
        subst (λ q. nodes q ≡ some (record { prev = before; next = after; value = a })) e here,
        (
          subst
              (λ q.
                put t (record { prev = before; next = new; value = a }) nodes q
                ≡ some (record { prev = before; next = new; value = a }))
              (sym e) (put_same t _ nodes),
          tt,
        ),
      )
  relink_last nodes p a ((q, b) ∷ xs) t before after new (here, chain) ((ne, away), d) at =
      let (n, found, chain') = relink_last nodes q b xs t (some p) after new chain d at in
      let other : p ≢ t = last_there p xs q t ne away at in
      let no : (p == t) ≡ false = ground (arith, other) in (n, found, (rw no here, chain'))

  pub last-some : (xs : List (ℕ × A)) (q : ℕ) → (t : ℕ) × (last xs (some q) ≡ some t)
  last-some [] q = (q, refl)
  last-some ((p, a) ∷ xs) q = last-some xs p

  fresh_away : (n : ℕ) (a : A) (xs : List (ℕ × A)) → AreBelow n xs → AllAway xs ((n, a) ∷ [])
  fresh_away n a [] h = tt
  fresh_away n a ((p, b) ∷ xs) (low, h) = ((omega (arith, low), tt), fresh_away n a xs h)

  pub IsAway-from :
      (p : ℕ) (a : A) (ys xs : List (ℕ × A))
      → AllAway xs ((p, a) ∷ ys)
      → IsAway p xs × AllAway xs ys
  IsAway-from p a ys [] h = (tt, tt)
  IsAway-from p a ys ((q, b) ∷ xs) ((ne, rest), h) =
      let (l, r) = IsAway-from p a ys xs h in (((λ e. ne (sym e)), l), (rest, r))

  linked :
      (t : ℕ) (l : Linked) (s : Store A) (n : Node A) (k : ℕ)
      → s.nodes t ≡ some n
      → link_tail (some t) k l s
        ≡ some (
          record l { tail = some k },
          record s { nodes = put t (record n { next = some k }) s.nodes },
        )
  unfolding link_tail set_next
  linked t l s n k found = rw found refl

  -- push_back on a list that stands for some cells adds a cell with the value at the end.
  pub push_back-Represents :
      (a : A) (l : Linked) (s : Store A) (cs : List (ℕ × A))
      → Represents s l cs
      → (l' : Linked) × (s' : Store A) × (push_back a l s ≡ some (l', s'))
        × Represents s' l' (cs ++ ((s.fresh, a) ∷ []))
  unfolding push_back link_tail
  push_back-Represents a l s [] r = (
    record { head = some s.fresh; tail = some s.fresh },
    new_node l.tail a s,
    ap (λ q. link_tail q s.fresh l (new_node l.tail a s)) r.tail,
    record {
      head = refl;
      tail = refl;
      chain = (
        put_same s.fresh _ s.nodes
            ∙ ap (λ q. some (record { prev = q; next = none; value = a })) r.tail,
        tt,
      );
      distinct = (tt, tt);
      below = (omega arith, tt);
    },
  )
  push_back-Represents a l s ((p, b) ∷ cs) r =
      let (t, at) = last-some cs p in
      let away = below-IsAway s.fresh ((p, b) ∷ cs) r.below in
      let nodes = (new_node l.tail a s).nodes in
      let (n, found, chain) =
        relink_last nodes p b cs t none none (some s.fresh)
          (put-Chain s.fresh _ s.nodes ((p, b) ∷ cs) none none away r.chain) r.distinct at in
      let apart : s.fresh ≢ t = last_there s.fresh cs p t away.0 away.1 at in
      let there : put t (record n { next = some s.fresh }) nodes s.fresh
          ≡ some (record { prev = last cs (some p); next = none; value = a }) =
        put_other t s.fresh _ nodes apart
        ∙ put_same s.fresh _ s.nodes
        ∙ ap (λ q. some (record { prev = q; next = none; value = a })) r.tail in
      (
        record l { tail = some s.fresh },
        record (new_node l.tail a s) { nodes = put t (record n { next = some s.fresh }) nodes },
        ap (λ q. link_tail q s.fresh l (new_node l.tail a s)) (r.tail ∙ at)
            ∙ linked t l (new_node l.tail a s) n s.fresh found,
        record {
          head = r.head;
          tail = sym (last-append cs s.fresh a [] (some p));
          chain =
              Chain-join (put t (record n { next = some s.fresh }) nodes) ((p, b) ∷ cs)
                ((s.fresh, a) ∷ []) none none chain (there, tt);
          distinct =
              AreDistinct-join ((p, b) ∷ cs) ((s.fresh, a) ∷ []) r.distinct (tt, tt)
                (fresh_away s.fresh a ((p, b) ∷ cs) r.below);
          below = below_suc s.fresh ((p, b) ∷ cs) a r.below;
        },
      )

  -- On a list that stands for a sequence with a last cell, pop_back takes that cell away, frees its node
  -- and returns its value.
  pub pop_back-Represents :
      (l : Linked) (s : Store A) (cs : List (ℕ × A)) (p : ℕ) (a : A)
      → Represents s l (cs ++ ((p, a) ∷ []))
      → (l' : Linked) × (s' : Store A) × (pop_back l s ≡ some (l', s', a))
        × Represents s' l' cs
        × (s'.nodes p ≡ none)
  unfolding pop_back pop_from drop_tail take_node set_next
  pop_back-Represents l s [] p a r = (
    empty_list,
    record s { nodes = delete p s.nodes },
    ap (λ q. pop_from q l s) r.tail ∙ (rw (r.chain.0, r.chain.0) refl),
    record { head = refl; tail = refl; chain = tt; distinct = tt; below = tt },
    delete_same p s.nodes,
  )
  pop_back-Represents l s ((q, b) ∷ xs) p a r =
      let (t, at) = last-some xs q in
      let (dx, dp, all) = AreDistinct-split ((q, b) ∷ xs) ((p, a) ∷ []) r.distinct in
      let (away, all') = IsAway-from p a [] ((q, b) ∷ xs) all in
      let apart : p ≢ t = last_there p xs q t away.0 away.1 at in
      let (left, right) = Chain-split s.nodes ((q, b) ∷ xs) ((p, a) ∷ []) none none r.chain in
      let (n, found, chain) = relink_last s.nodes q b xs t none (some p) none left dx at in
      let nodes = put t (record n { next = none }) s.nodes in
      let here : s.nodes p ≡ some (record { prev = some t; next = none; value = a }) =
        right.0 ∙ ap (λ z. some (record { prev = z; next = none; value = a })) at in
      let still : nodes p ≡ some (record { prev = some t; next = none; value = a }) =
        put_other t p _ s.nodes apart ∙ here in
      (
        record l { tail = some t },
        record s { nodes = delete p nodes },
        ap (λ z. pop_from z l s) (r.tail ∙ last-append xs p a [] (some q))
            ∙ rw (here, found, still) refl,
        record {
          head = r.head;
          tail = sym at;
          chain = delete-Chain p nodes ((q, b) ∷ xs) none none away chain;
          distinct = dx;
          below = (below_split s.fresh ((q, b) ∷ xs) ((p, a) ∷ []) r.below).0;
        },
        delete_same p nodes,
      )
