-- ===== src/StaticTree/Typing.antt =====
-- The trees whose procedures have the parameters that the walk captures for them.
use keow.Prelude.{
  ℕ, ◌+◌, ◌≡◌, ◌≢◌, sym, ap, ◌∙◌, ◌==◌, subst, inl, inr, Bool, true, false, not, ◌||◌, List, [],
  ◌∷◌, ◌++◌, Option, none, some, if◌then◌else◌, ◌>>=◌, length, length-append, get_elem?, arith,
  Bool-cases,
}
use keow.FilePath.{Bytes, same}
use keow.StaticTree.{
  FileHandler, no_handler, handler0, handler1, handler2, Lister, no_lister, lister0, lister1, Info,
  Node, Nodes, nil, cons, Created, null, fault, create_io_handler, directory, star, is_file,
  has_lister, find_child, find_node, call_handler, call_lister, call0, call1, call2, list0, list1,
  open_node, child_entries,
}

-- The number of elements that a pattern captures.
abbrev pub wild : Bytes → ℕ
wild p = if same p star then 1 else 0

abbrev pub has_handler : {I : Type 0} → FileHandler I → Bool
has_handler no_handler = false
has_handler (handler0 f) = true
has_handler (handler1 f) = true
has_handler (handler2 f) = true

-- NumParams and the parameters of the procedure are the number of elements captured, where there is one.
abbrev pub HandlerFits : {I : Type 0} → ℕ → ℕ → FileHandler I → Type 0
HandlerFits k n no_handler = Unit {0}
HandlerFits k n (handler0 f) = (n ≡ 0) × (k ≡ 0)
HandlerFits k n (handler1 f) = (n ≡ 1) × (k ≡ 1)
HandlerFits k n (handler2 f) = (n ≡ 2) × (k ≡ 2)

abbrev pub ListerFits : {E : Type 0} → ℕ → ℕ → Lister E → Type 0
ListerFits k n no_lister = Unit {0}
ListerFits k n (lister0 es) = (n ≡ 0) × (k ≡ 0)
ListerFits k n (lister1 f) = (n ≡ 1) × (k ≡ 1)

length-captured :
    (t : Bool) (w : List Bytes) (want : Bytes)
    → length (if t then w ++ want ∷ [] else w) ≡ length w + (if t then 1 else 0)
length-captured true w want = length-append w (want ∷ [])
length-captured false w want = omega arith

module _ {I E : Type 0} where
  abbrev pub Fits : ℕ → Info I E → Type 0
  Fits k i = HandlerFits k i.num_params i.handler × ListerFits k i.num_params i.lister

  -- A node that is taken for a file has a handler.
  abbrev pub Answers : Node I E → Type 0
  Answers n = (not (is_file n) || has_handler n.info.handler) ≡ true

  -- The nodes that the walk reaches with `k` elements captured.
  abbrev pub TypedNodes : ℕ → Nodes I E → Type 0
  TypedNodes k nil = Unit {0}
  TypedNodes k (cons p i children rest) =
      Fits (k + wild p) i
      × Answers (record { info = i; children = children })
      × TypedNodes (k + wild p) children
      × TypedNodes k rest

  abbrev pub Typed : ℕ → Node I E → Type 0
  Typed k n = Fits k n.info × TypedNodes k n.children

  -- What the search has found: nothing, or a typed child.
  abbrev pub FoundTyped : ℕ → Option (Bytes × Node I E) → Type 0
  FoundTyped k none = Unit {0}
  FoundTyped k (some (p, n)) = Typed (k + wild p) n × Answers n

  FoundTyped-if :
      (t : Bool) (k : ℕ) (a b : Option (Bytes × Node I E))
      → FoundTyped k a
      → FoundTyped k b
      → FoundTyped k (if t then a else b)
  FoundTyped-if true k a b ha hb = ha
  FoundTyped-if false k a b ha hb = hb

  find_child-Typed :
      (want : Bytes) (k : ℕ) (c : Nodes I E) (found : Option (Bytes × Node I E))
      → TypedNodes k c
      → FoundTyped k found
      → FoundTyped k (find_child want c found)
  unfolding find_child
  find_child-Typed want k nil found t h = h
  find_child-Typed want k (cons p i children rest) found (fits, answers, below, later) h =
      FoundTyped-if (same p want) k _ _ ((fits, below), answers)
        (find_child-Typed want k rest _ later
          (FoundTyped-if (same p star) k _ found ((fits, below), answers) h))

  -- What the walk comes to: nothing, or a typed node and as many wildcards as it is typed for.
  abbrev pub WalkTyped : Option (Node I E × List Bytes) → Type 0
  WalkTyped none = Unit {0}
  WalkTyped (some (n, w)) = Typed (length w) n × Answers n

  find_node-Typed :
      (es : List Bytes) (n : Node I E) (w : List Bytes)
      → Typed (length w) n
      → Answers n
      → WalkTyped (find_node es n w)
  unfolding find_node
  find_node-Typed [] n w t a = (t, a)
  find_node-Typed (want ∷ rest) n w t a =
      walk_on (find_child want n.children none)
        (find_child-Typed want (length w) n.children none t.1 tt) (find_node-Typed rest)
    where
      walk_on :
          (o : Option (Bytes × Node I E))
          → FoundTyped (length w) o
          → ((m : Node I E) (v : List Bytes)
              → Typed (length v) m
              → Answers m
              → WalkTyped (find_node rest m v))
          → WalkTyped (
              o >>= λ found.
              find_node rest found.1 (if same found.0 star then w ++ want ∷ [] else w))
      walk_on none h next = tt
      walk_on (some (p, m)) h next =
          next m (if same p star then w ++ want ∷ [] else w)
            (subst (λ l. Typed l m) (sym (length-captured (same p star) w want)) h.0) h.1

  -- A handler is called with the parameters that it was stored with.
  call_handler-HandlerFits :
      (path : Bytes) (i : Info I E) (w : List Bytes)
      → HandlerFits (length w) i.num_params i.handler
      → has_handler i.handler ≡ true
      → call_handler path i w ≢ fault
  unfolding call_handler
  call_handler-HandlerFits path i w fits has = called i.handler w fits has
    where
      called :
          (h : FileHandler I) (w : List Bytes)
          → HandlerFits (length w) i.num_params h
          → has_handler h ≡ true
          → ◌≢◌ {A = Created I E}
              (if i.num_params == 0
                then call0 path h
                else if i.num_params == 1
                then call1 path h (get_elem? w 0)
                else if i.num_params == 2
                then call2 path h (get_elem? w 0) (get_elem? w 1)
                else null)
              fault
      called no_handler w f b = λ e. cc
      called (handler0 g) w (n, k) b = rw n (λ e. cc)
      called (handler1 g) [] (n, k) b = absurd (omega arith)
      called (handler1 g) (a ∷ w) (n, k) b = rw n (λ e. cc)
      called (handler2 g) [] (n, k) b = absurd (omega arith)
      called (handler2 g) (a ∷ []) (n, k) b = absurd (omega arith)
      called (handler2 g) (a ∷ c ∷ w) (n, k) b = rw n (λ e. cc)

  call_lister-ListerFits :
      (names : List E) (i : Info I E) (w : List Bytes)
      → ListerFits (length w) i.num_params i.lister
      → call_lister names i w ≢ fault
  unfolding call_lister
  call_lister-ListerFits names i w fits = called i.lister w fits
    where
      called :
          (l : Lister E) (w : List Bytes)
          → ListerFits (length w) i.num_params l
          → ◌≢◌ {A = Created I E}
              (if not (has_lister l)
                then directory names
                else if i.num_params == 0
                then list0 names l
                else if i.num_params == 1
                then list1 names l (get_elem? w 0)
                else null)
              fault
      called no_lister w f = λ e. cc
      called (lister0 es) w (n, k) = rw n (λ e. cc)
      called (lister1 g) [] (n, k) = absurd (omega arith)
      called (lister1 g) (a ∷ w) (n, k) = rw n (λ e. cc)

  open_node-Typed :
      (entry : Bytes → E) (path : Bytes) (n : Node I E) (w : List Bytes)
      → Typed (length w) n
      → Answers n
      → open_node entry path (n, w) ≢ fault
  unfolding open_node
  open_node-Typed entry path n w ((file, list), below) answers = elim (Bool-cases (is_file n)) [
    | inl e ↦ rw e (
        call_handler-HandlerFits path n.info w file
          (ap (λ b. not b || has_handler n.info.handler) (sym e) ∙ answers))
    | inr e ↦ rw e (call_lister-ListerFits (child_entries entry n.children) n.info w list)
  ]

  -- What CreateIOHandler finds in a typed tree is no fault.
  pub create_io_handler-Typed :
      (entry : Bytes → E) (root : Node I E) (path : Bytes) (es : List Bytes)
      → Typed 0 root
      → Answers root
      → create_io_handler entry root path es ≢ fault
  unfolding create_io_handler
  create_io_handler-Typed entry root path es t a =
      found (find_node es root []) (find_node-Typed es root [] t a)
    where
      found :
          (o : Option (Node I E × List Bytes))
          → WalkTyped o
          → elim o as (λ _. Created I E) [ none ↦ null | some f ↦ open_node entry path f ] ≢ fault
      found none h = λ e. cc
      found (some (n, w)) h = open_node-Typed entry path n w h.0 h.1
