-- ===== src/StaticTree/Finding.antt =====
-- A file that was added is found again.
use keow.Prelude.{
  ◌≡◌, refl, ap, ◌∙◌, inl, inr, true, List, [], ◌∷◌, ◌++◌, Option, none, some, if◌then◌else◌, ◌>>=◌,
  Bool-cases,
}
use keow.FilePath.{Bytes, same}
use keow.FilePath.Pieces.{same_iff}
use keow.StaticTree.{
  handler0, no_lister, Info, Node, Nodes, nil, cons, handled, star, new_node, push_back, at_child,
  add_file_internal, add_file, find_child, find_node, open_node, call_handler, create_io_handler,
}
use keow.StaticTree.Children.{first_named, last_named, or_else, find_child_lem}

same_refl : (e : Bytes) → same e e ≡ true
same_refl e = (same_iff e e).1 refl

module _ {I E : Type 0} where
  -- The node that stands in the tree under the elements of a pattern.
  unfoldable pub node_at : List Bytes → Node I E → Option (Node I E)
  node_at [] n = some n
  node_at (e ∷ es) n = first_named e n.children >>= λ found. node_at es found.1

  first_named-push_back :
      (c : Nodes I E) (e : Bytes) (i : Info I E)
      → first_named e c ≡ none
      → first_named e (push_back c e i) ≡ some (e, record { info = i; children = nil })
  unfolding first_named push_back
  first_named-push_back nil e i h = rw (same_refl e) refl
  first_named-push_back (cons p j children rest) e i h = elim (Bool-cases (same p e)) [
    | inl y ↦ absurd (cc)
    | inr y ↦
        let h' : first_named e rest ≡ none = rw y at h in rw y (first_named-push_back rest e i h')
  ]

  abbrev or_new : Option (Bytes × Node I E) → Node I E
  or_new none = new_node
  or_new (some (p, n)) = n

  first_named-at_child :
      (e : Bytes) (go : Node I E → Node I E) (c : Nodes I E)
      → first_named e (at_child e go c) ≡ some (e, go (or_new (first_named e c)))
  unfolding first_named at_child
  first_named-at_child e go nil = rw (same_refl e) refl
  first_named-at_child e go (cons p j children rest) = elim (Bool-cases (same p e)) [
    | inl y ↦
        let go_on : Node I E = go (record { info = j; children = children }) in
        rw y (rw y (ap (λ q. some (q, go_on)) ((same_iff p e).0 y)))
    | inr y ↦ rw y (rw y (first_named-at_child e go rest))
  ]

  find_child-first :
      (e : Bytes) (c : Nodes I E) (found : Bytes × Node I E)
      → first_named e c ≡ some found
      → find_child e c none ≡ some found
  find_child-first e c found h = find_child_lem e c ∙ ap (λ o. or_else o (last_named star c)) h

  node_at-or_new :
      (o : Option (Bytes × Node I E)) (d : Bytes) (es : List Bytes)
      → (o >>= λ found. node_at (d ∷ es) found.1) ≡ none
      → node_at (d ∷ es) (or_new o) ≡ none
  unfolding node_at new_node first_named
  node_at-or_new none d es h = refl
  node_at-or_new (some (p, n)) d es h = h

  -- The leaf is what the walk ends at.
  find_node-add_file_internal :
      (i : Info I E) (e : Bytes) (es : List Bytes) (n : Node I E) (w : List Bytes)
      → node_at (e ∷ es) n ≡ none
      → (v : List Bytes) × (find_node (e ∷ es) (add_file_internal i (e ∷ es) n) w
          ≡ some (record { info = i; children = nil }, v))
  unfolding find_node add_file_internal node_at
  find_node-add_file_internal i e [] n w h =
      let none_yet : first_named e n.children ≡ none = absent (first_named e n.children) h in
      let found =
        find_child-first e (push_back n.children e i) _
          (first_named-push_back n.children e i none_yet) in
      ((if same e star then w ++ e ∷ [] else w), rw found refl)
    where
      absent :
          (o : Option (Bytes × Node I E)) → (o >>= λ found. node_at [] found.1) ≡ none → o ≡ none
      absent none q = refl
      absent (some (p, m)) q = absurd (cc)
  find_node-add_file_internal i e (d ∷ es) n w h =
      let go = add_file_internal i (d ∷ es) in
      let old = or_new (first_named e n.children) in
      let found =
        find_child-first e (at_child e go n.children) _ (first_named-at_child e go n.children) in
      let (v, rest) =
        find_node-add_file_internal i d es old (if same e star then w ++ e ∷ [] else w)
          (node_at-or_new (first_named e n.children) d es h) in
      (v, rw found rest)

  create_io_handler-find_node :
      (entry : Bytes → E) (root : Node I E) (path : Bytes) (es : List Bytes)
      (found : Node I E × List Bytes)
      → find_node es root [] ≡ some found
      → create_io_handler entry root path es ≡ open_node entry path found
  unfolding create_io_handler
  create_io_handler-find_node entry root path es found h = rw (h, create_io_handler) refl

  -- If nothing stands under a pattern of at least one element, and a file with a handler of no
  -- parameters is added there, then CreateIOHandler on those elements calls that handler with the path,
  -- whatever wildcards stand beside it.
  pub create_io_handler-add_file :
      (entry : Bytes → E) (n : Node I E) (path e : Bytes) (es : List Bytes) (f : Bytes → I)
      → node_at (e ∷ es) n ≡ none
      → create_io_handler entry (add_file (e ∷ es) (handler0 f) n) path (e ∷ es) ≡ handled (f path)
  unfolding add_file open_node call_handler
  create_io_handler-add_file entry n path e es f h =
      let leaf : Info I E = record { num_params = 0; handler = handler0 f; lister = no_lister } in
      let (v, found) = find_node-add_file_internal leaf e es n [] h in
      create_io_handler-find_node entry (add_file_internal leaf (e ∷ es) n) path (e ∷ es)
        (record { info = leaf; children = nil }, v) found
