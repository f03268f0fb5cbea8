-- ===== src/StaticTree/Children.antt =====
-- Which child the walk takes: the search of CreateIOHandler in FilesystemGenericStatic.cpp.
use keow.Prelude.{
  ◌≡◌, refl, Bool, true, false, Option, none, some, if◌then◌else◌, inl, inr, Bool-cases,
}
use keow.FilePath.{Bytes, same}
use keow.StaticTree.{Node, Nodes, nil, cons, star, find_child}

abbrev pub or_else {ℓ} : {A : Type ℓ} → Option A → Option A → Option A
or_else (some a) b = some a
or_else none b = b

module _ {I E : Type 0} where
  -- The first child with the pattern.
  unfoldable pub first_named : Bytes → Nodes I E → Option (Bytes × Node I E)
  first_named want nil = none
  first_named want (cons p i children rest) =
      let later = first_named want rest in
      if same p want then some (p, record { info = i; children = children }) else later

  -- The last child with the pattern.
  unfoldable pub last_named : Bytes → Nodes I E → Option (Bytes × Node I E)
  last_named want nil = none
  last_named want (cons p i children rest) =
      or_else (last_named want rest)
        (if same p want then some (p, record { info = i; children = children }) else none)

  or_else_assoc :
      (a b c : Option (Bytes × Node I E)) → or_else a (or_else b c) ≡ or_else (or_else a b) c
  or_else_assoc none b c = refl
  or_else_assoc (some x) b c = refl

  or_else-if :
      (t : Bool) (x : Bytes × Node I E) (found : Option (Bytes × Node I E))
      → (if t then some x else found) ≡ or_else (if t then some x else none) found
  or_else-if true x found = refl
  or_else-if false x found = refl

  find_child_found :
      (want : Bytes) (c : Nodes I E) (found : Option (Bytes × Node I E))
      → find_child want c found ≡ or_else (first_named want c) (or_else (last_named star c) found)
  unfolding find_child first_named last_named
  find_child_found want nil found = refl
  find_child_found want (cons p i children rest) found = elim (Bool-cases (same p want)) [
    | inl e ↦ rw e refl
    | inr e ↦ rw e (
        rw
          (find_child_found want rest
            (if same p star then some (p, record { info = i; children = children }) else found))
          (rw (or_else-if (same p star) (p, record { info = i; children = children }) found) (
            rw
              (or_else_assoc (last_named star rest)
                (if same p star then some (p, record { info = i; children = children }) else none)
                found)
              refl)))
  ]

  or_else-none : (a : Option (Bytes × Node I E)) → or_else a none ≡ a
  or_else-none none = refl
  or_else-none (some x) = refl

  -- The search takes the first child whose pattern is the element itself; where there is none it takes
  -- the last child whose pattern is "*"; and where there is none of these either it finds nothing.
  pub find_child_lem :
      (want : Bytes) (c : Nodes I E)
      → find_child want c none ≡ or_else (first_named want c) (last_named star c)
  find_child_lem want c =
      rw (find_child_found want c none) (rw (or_else-none (last_named star c)) refl)
