-- ===== src/StaticTree/Additions.antt =====
-- The trees that AddFile and AddLister of FilesystemGenericStatic.cpp build, and those of
-- FilesystemProc.cpp and FilesystemDev.cpp.
use keow.Prelude.{
  ℕ, ◌+◌, ◌≡◌, ◌≢◌, refl, sym, subst, inl, inr, true, List, [], ◌∷◌, arith, Bool-cases, All,
}
use keow.FilePath.{Bytes, same, append_path}
use keow.FilePath.Pieces.{same_iff}
use keow.StaticTree.{
  FileHandler, no_handler, handler0, handler1, handler2, Lister, no_lister, lister0, lister1, Info,
  Node, Nodes, nil, cons, fault, has_lister, handler_params, lister_params, new_info, new_node,
  push_back, at_child, add_file_internal, add_lister_internal, add_file, add_lister,
  create_io_handler,
}
use keow.StaticTree.Typing.{
  wild, has_handler, Fits, Answers, Typed, TypedNodes, HandlerFits, ListerFits,
  create_io_handler-Typed,
}

-- A call of AddFile or AddLister, with the text of its pattern.
pub data Addition (I : Type 0) (E : Type 0) : Type 0 where
  file : Bytes → FileHandler I → Addition I E
  list : Bytes → Lister E → Addition I E

-- How many elements of a pattern are "*".
unfoldable pub stars : List Bytes → ℕ
stars [] = 0
stars (e ∷ es) = wild e + stars es

new_node-Typed : (I E : Type 0) (k : ℕ) → Typed k (new_node {I = I} {E = E})
unfolding new_node new_info
new_node-Typed I E k = ((tt, tt), tt)

handler_fits :
    {I : Type 0} (h : FileHandler I) (k : ℕ)
    → k ≡ handler_params h
    → HandlerFits k (handler_params h) h
handler_fits no_handler k m = tt
handler_fits (handler0 f) k m = (refl, m)
handler_fits (handler1 f) k m = (refl, m)
handler_fits (handler2 f) k m = (refl, m)

lister_fits :
    {E : Type 0} (l : Lister E) (k : ℕ) → k ≡ lister_params l → ListerFits k (lister_params l) l
lister_fits no_lister k m = tt
lister_fits (lister0 f) k m = (refl, m)
lister_fits (lister1 f) k m = (refl, m)

-- NumParams is the number of captured elements, whichever procedure set it.
refit : {I : Type 0} (h : FileHandler I) (k n m : ℕ) → HandlerFits k n h → k ≡ m → HandlerFits k m h
refit no_handler k n m f e = tt
refit (handler0 g) k n m f e = omega (arith, e)
refit (handler1 g) k n m f e = omega (arith, e)
refit (handler2 g) k n m f e = omega (arith, e)

module _ {I E : Type 0} where
  unfoldable pub add : Node I E → Addition I E → Node I E
  add n (file pattern h) = add_file (append_path [] pattern) h n
  add n (list pattern l) = add_lister (append_path [] pattern) l n

  unfoldable pub add_all : Node I E → List (Addition I E) → Node I E
  add_all n [] = n
  add_all n (a ∷ rest) = add_all (add n a) rest

  -- The procedure is not NULL, and has a parameter for each "*" of the pattern.
  abbrev pub Matched : Addition I E → Type 0
  Matched (file pattern h) =
      (has_handler h ≡ true) × (stars (append_path [] pattern) ≡ handler_params h)
  Matched (list pattern l) =
      (has_lister l ≡ true) × (stars (append_path [] pattern) ≡ lister_params l)

  push_back-Typed :
      (k : ℕ) (c : Nodes I E) (p : Bytes) (i : Info I E)
      → TypedNodes k c
      → Fits (k + wild p) i
      → has_handler i.handler ≡ true
      → TypedNodes k (push_back c p i)
  unfolding push_back
  push_back-Typed k nil p i t f h = (f, ground (arith, h), tt, tt)
  push_back-Typed k (cons q j children rest) p i (a, b, c, d) f h =
      (a, b, c, push_back-Typed k rest p i d f h)

  push_back-Answers :
      (c : Nodes I E) (p : Bytes) (i j : Info I E)
      → Answers (record { info = j; children = push_back c p i })
  unfolding push_back
  push_back-Answers nil p i j = refl
  push_back-Answers (cons q l children rest) p i j = refl

  at_child-Answers :
      (want : Bytes) (go : Node I E → Node I E) (c : Nodes I E) (j : Info I E)
      → Answers (record { info = j; children = at_child want go c })
  unfolding at_child
  at_child-Answers want go nil j = refl
  at_child-Answers want go (cons p i children rest) j = elim (Bool-cases (same p want)) [
    | inl e ↦ rw e refl
    | inr e ↦ rw e refl
  ]

  at_child-Typed :
      (k : ℕ) (want : Bytes) (go : Node I E → Node I E) (c : Nodes I E)
      → ((n : Node I E) → Typed (k + wild want) n → Typed (k + wild want) (go n) × Answers (go n))
      → TypedNodes k c
      → TypedNodes k (at_child want go c)
  unfolding at_child
  at_child-Typed k want go nil keep t =
      let done = keep new_node (new_node-Typed I E (k + wild want)) in
      (done.0.0, done.1, done.0.1, tt)
  at_child-Typed k want go (cons p i children rest) keep (a, b, c, d) =
      elim (Bool-cases (same p want)) [
        | inl e ↦
            let p-eq : want ≡ p = sym ((same_iff p want).0 e) in
            let n : Node I E = record { info = i; children = children } in
            let done : Typed (k + wild p) (go n) × Answers (go n) =
              subst (λ q. Typed (k + wild q) n → Typed (k + wild q) (go n) × Answers (go n)) p-eq
                (keep n) (a, c) in
            rw e ((done.0.0, done.1, done.0.1, d))
        | inr e ↦ rw e ((a, b, c, at_child-Typed k want go rest keep d))
      ]

  add_file_internal-Typed :
      (i : Info I E) (es : List Bytes) (k : ℕ) (n : Node I E)
      → Fits (k + stars es) i
      → has_handler i.handler ≡ true
      → Typed k n
      → Typed k (add_file_internal i es n) × Answers (add_file_internal i es n)
  unfolding add_file_internal stars same
  add_file_internal-Typed i [] k n f h t = (
    (t.0, push_back-Typed k n.children [] i t.1 (subst (λ m. Fits m i) (omega arith) f) h),
    push_back-Answers n.children [] i n.info,
  )
  add_file_internal-Typed i (e ∷ []) k n f h t = (
    (t.0, push_back-Typed k n.children e i t.1 (subst (λ m. Fits m i) (omega arith) f) h),
    push_back-Answers n.children e i n.info,
  )
  add_file_internal-Typed i (e ∷ d ∷ es) k n f h t =
      let fits = subst (λ m. Fits m i) (omega arith) f in
      let below =
        at_child-Typed k e (add_file_internal i (d ∷ es)) n.children
          (λ m. add_file_internal-Typed i (d ∷ es) (k + wild e) m fits h) t.1 in
      ((t.0, below), at_child-Answers e (add_file_internal i (d ∷ es)) n.children n.info)

  add_lister_internal-Typed :
      (l : Lister E) (es : List Bytes) (k : ℕ) (n : Node I E)
      → k + stars es ≡ lister_params l
      → has_lister l ≡ true
      → Typed k n
      → Typed k (add_lister_internal (lister_params l) l es n)
        × Answers (add_lister_internal (lister_params l) l es n)
  unfolding add_lister_internal stars
  add_lister_internal-Typed l [] k n f h t = (
    (
      (
        refit n.info.handler k n.info.num_params (lister_params l) t.0.0 (omega (arith, f)),
        lister_fits l k (omega (arith, f)),
      ),
      t.1,
    ),
    ground (arith, h),
  )
  add_lister_internal-Typed l (e ∷ es) k n f h t =
      let below =
        at_child-Typed k e (add_lister_internal (lister_params l) l es) n.children
          (λ m. add_lister_internal-Typed l es (k + wild e) m (omega (arith, f)) h) t.1 in
      (
        (t.0, below),
        at_child-Answers e (add_lister_internal (lister_params l) l es) n.children n.info,
      )

  add-Typed :
      (a : Addition I E) (n : Node I E)
      → Matched a
      → Typed 0 n
      → Typed 0 (add n a) × Answers (add n a)
  unfolding add add_file add_lister
  add-Typed (file pattern h) n (has, m) t =
      let m' : 0 + stars (append_path [] pattern) ≡ handler_params h = omega (arith, m) in
      add_file_internal-Typed _ (append_path [] pattern) 0 n (handler_fits h _ m', tt) has t
  add-Typed (list pattern l) n (has, m) t =
      add_lister_internal-Typed l (append_path [] pattern) 0 n (omega (arith, m)) has t

  add_all-Typed :
      (additions : List (Addition I E)) (n : Node I E)
      → All Matched additions
      → Typed 0 n
      → Answers n
      → Typed 0 (add_all n additions) × Answers (add_all n additions)
  unfolding add_all
  add_all-Typed [] n all t a = (t, a)
  add_all-Typed (x ∷ rest) n (m, all) t a =
      let done = add-Typed x n m t in add_all-Typed rest (add n x) all done.0 done.1

  -- If each of a list of additions, which is not empty, has a procedure with as many parameters as its
  -- pattern has "*", then in the tree that they build from the empty one no path makes CreateIOHandler
  -- call a procedure through a wrong or NULL pointer, or read past the wildcards.
  pub create_io_handler-add_all :
      (entry : Bytes → E) (a : Addition I E) (rest : List (Addition I E))
      → Matched a
      → All Matched rest
      → (path : Bytes) (es : List Bytes)
      → create_io_handler entry (add_all new_node (a ∷ rest)) path es ≢ fault
  unfolding add_all
  create_io_handler-add_all entry a rest m all path es =
      let first = add-Typed a new_node m (new_node-Typed I E 0) in
      let done = add_all-Typed rest (add new_node a) all first.0 first.1 in
      create_io_handler-Typed entry (add_all (add new_node a) rest) path es done.0 done.1
