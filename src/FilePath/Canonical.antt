-- ===== src/FilePath/Canonical.antt =====
-- Path stacks that AppendPath builds: no `.`, `..` or empty element, and no slash inside one.
use mathlib.Core.List.{foldl}
use keow.Prelude.{
  ◌≡◌, ◌≢◌, refl, ap, sym, ◌∙◌, inl, inr, Bool, true, false, List, [], ◌∷◌, ◌++◌, append_assoc,
  append-nil, arith, ◌==◌, if◌then◌else◌, All, All-append, Bool-cases,
}
use keow.FilePath.{
  Bytes, slash, dot, dot_dot, same, is_nil, is_absolute, pop_back, push_element, append_path,
  join_from, join_list,
}
use keow.FilePath.Pieces.{split, pieces, same_iff, split-slash, split_other, append_path-pieces}

abbrev pub NoSlash : Bytes → Type 0
NoSlash = All (λ c. c ≢ slash)

-- A name that can stand in a path stack.
pub record IsName (e : Bytes) : Type 0 where
  pub some_byte : e ≢ []
  pub not_dot : e ≢ dot
  pub not_dot_dot : e ≢ dot_dot
  pub no_slash : NoSlash e

abbrev pub IsCanonical : List Bytes → Type 0
IsCanonical = All IsName

pop_back-All : (lst : List Bytes) → IsCanonical lst → IsCanonical (pop_back lst)
unfolding pop_back
pop_back-All [] h = tt
pop_back-All (e ∷ []) h = tt
pop_back-All (e ∷ d ∷ es) (he, hd) = (he, pop_back-All (d ∷ es) hd)

differs : (a b : Bytes) → same a b ≡ false → a ≢ b
differs a b no_match e = cc (no_match, (same_iff a b).1 e)

push_element-IsCanonical :
    (lst : List Bytes) (e : Bytes) → NoSlash e → IsCanonical lst → IsCanonical (push_element lst e)
unfolding push_element
push_element-IsCanonical lst e clean h = elim (Bool-cases (same e dot)) [
  | inl here ↦ rw here h
  | inr more ↦ rw more (elim (Bool-cases (same e dot_dot)) [
    | inl up ↦ rw up (pop_back-All lst h)
    | inr name ↦ rw name (elim (Bool-cases (is_nil e)) [
      | inl nothing ↦ rw nothing h
      | inr bytes ↦ rw bytes (
          All-append IsName lst (e ∷ []) h (
            record {
              some_byte = λ z. is_nil-false e bytes z;
              not_dot = differs e dot more;
              not_dot_dot = differs e dot_dot name;
              no_slash = clean;
            },
            tt,
          ))
    ])
  ])
]
  where
    is_nil-false : (e : Bytes) → is_nil e ≡ false → e ≢ []
    is_nil-false [] h z = cc
    is_nil-false (c ∷ cs) h z = cc

split-NoSlash : (s piece : Bytes) → NoSlash piece → All NoSlash (split piece s)
unfolding split
split-NoSlash [] piece h = (h, tt)
split-NoSlash (c ∷ s) piece h = elim (Bool-cases (c == slash)) [
  | inl hit ↦ rw (split-slash c piece s hit) (h, split-NoSlash s [] tt)
  | inr other ↦ rw (split_other c piece s other) (
      split-NoSlash s (piece ++ c ∷ [])
        (All-append (λ c. c ≢ slash) piece (c ∷ []) h (miss other, tt)))
]
  where
    miss : (c == slash) ≡ false → c ≢ slash
    miss other e = ground arith

foldl-IsCanonical :
    (ps lst : List Bytes)
    → All NoSlash ps
    → IsCanonical lst
    → IsCanonical (foldl push_element lst ps)
foldl-IsCanonical [] lst clean h = h
foldl-IsCanonical (p ∷ ps) lst (hp, clean) h =
    foldl-IsCanonical ps (push_element lst p) clean (push_element-IsCanonical lst p hp h)

-- `AppendPath` keeps a stack canonical, whatever text it is given: no element is empty, `.` or `..`, or
-- has a slash in it.
pub append_path-IsCanonical :
    (lst : List Bytes) (unixp : Bytes) → IsCanonical lst → IsCanonical (append_path lst unixp)
unfolding pieces
append_path-IsCanonical lst unixp h =
    rw append_path-pieces
      (foldl-IsCanonical (pieces unixp) _ (split-NoSlash unixp [] tt) (start (is_absolute unixp)))
  where
    start : (b : Bool) → IsCanonical (if b then [] else lst)
    start true = tt
    start false = h

pub distinct : (a b : Bytes) → a ≢ b → same a b ≡ false
distinct a b h = elim (Bool-cases (same a b)) [
  | inl e ↦ absurd (h ((same_iff a b).0 e))
  | inr e ↦ e
]

ne-nil-is_nil : (e : Bytes) → e ≢ [] → is_nil e ≡ false
ne-nil-is_nil [] h = absurd (h refl)
ne-nil-is_nil (c ∷ cs) h = refl

push_name : (lst : List Bytes) (e : Bytes) → IsName e → push_element lst e ≡ lst ++ e ∷ []
unfolding push_element
push_name lst e n =
    rw (distinct e dot n.not_dot, distinct e dot_dot n.not_dot_dot, ne-nil-is_nil e n.some_byte)
      refl

push-nil : (lst : List Bytes) → push_element lst [] ≡ lst
unfolding push_element
push-nil lst = refl

foldl-names :
    (names lst : List Bytes) → IsCanonical names → foldl push_element lst names ≡ lst ++ names
foldl-names [] lst h = sym (append-nil lst)
foldl-names (e ∷ es) lst (he, h) =
    rw (push_name lst e he, foldl-names es (lst ++ e ∷ []) h) (append_assoc lst (e ∷ []) es)

-- Each element behind its slash.
joined : List Bytes → Bytes
joined [] = []
joined (e ∷ es) = (slash ∷ e) ++ joined es

join_from-joined :
    (es : List Bytes) (final : Bytes) → final ≢ [] → join_from final es slash ≡ final ++ joined es
unfolding join_from joined
join_from-joined [] final h = sym (append-nil final)
join_from-joined (e ∷ es) [] h = absurd (h refl)
join_from-joined (e ∷ es) (c ∷ cs) h =
    join_from-joined es (((c ∷ cs) ++ slash ∷ []) ++ e) (λ z. cc) ∙ ap (◌∷◌ c) (simp append_assoc)

split-append :
    (n piece rest : Bytes) → NoSlash n → split piece (n ++ rest) ≡ split (piece ++ n) rest
split-append [] piece rest h = rw append-nil
split-append (c ∷ n) piece rest (hc, h) =
    split_other c piece (n ++ rest) (ground arith)
    ∙ split-append n (piece ++ c ∷ []) rest h
    ∙ ap (λ x. split x rest) (append_assoc piece (c ∷ []) n)

split-joined :
    (es : List Bytes) (piece : Bytes) → IsCanonical es → split piece (joined es) ≡ piece ∷ es
unfolding joined split
split-joined [] piece h = refl
split-joined (e ∷ es) piece (he, h) =
    ap (◌∷◌ piece) (split-append e [] (joined es) he.no_slash ∙ split-joined es e h)

pieces-join :
    (e : Bytes) (es : List Bytes)
    → IsCanonical (e ∷ es)
    → pieces (join_list (e ∷ es) slash) ≡ e ∷ es
unfolding pieces join_list join_from
pieces-join e es (he, h) =
    ap (split []) (join_from-joined es e he.some_byte)
    ∙ split-append e [] (joined es) he.no_slash
    ∙ split-joined es e h

append_path-root : (lst : List Bytes) → append_path lst (slash ∷ join_list [] slash) ≡ []
unfolding join_list join_from pieces split push_element
append_path-root lst = append_path-pieces lst (slash ∷ [])

-- `AppendPath` reads back the absolute path that `JoinList` writes for a canonical stack.
pub append_path-join :
    (lst names : List Bytes)
    → IsCanonical names
    → append_path lst (slash ∷ join_list names slash) ≡ names
unfolding pieces
append_path-join lst [] h = append_path-root lst
append_path-join lst (e ∷ es) h =
    append_path-pieces lst (slash ∷ join_list (e ∷ es) slash)
    ∙ ap (foldl push_element []) (split-slash slash [] (join_list (e ∷ es) slash) refl)
    ∙ ap (λ l. foldl push_element l (split [] (join_list (e ∷ es) slash))) (push-nil [])
    ∙ ap (foldl push_element []) (pieces-join e es h)
    ∙ foldl-names (e ∷ es) [] h

relative :
    (e : Bytes) (es : List Bytes)
    → IsCanonical (e ∷ es)
    → is_absolute (join_list (e ∷ es) slash) ≡ false
unfolding join_list join_from
relative [] es (he, h) = absurd (he.some_byte refl)
relative (c ∷ cs) es (he, h) =
    rw (join_from-joined es (c ∷ cs) (λ z. cc)) (ground (arith, he.no_slash))

-- `AppendPath` adds the relative path that `JoinList` writes for a canonical stack of at least one
-- element to any stack, element by element.
pub append_path-join_relative :
    (lst : List Bytes) (e : Bytes) (es : List Bytes)
    → IsCanonical (e ∷ es)
    → append_path lst (join_list (e ∷ es) slash) ≡ lst ++ e ∷ es
append_path-join_relative lst e es h =
    append_path-pieces lst (join_list (e ∷ es) slash)
    ∙ rw (relative e es h, pieces-join e es h) (foldl-names (e ∷ es) lst h)

split-append_slash :
    (a piece b : Bytes) → split piece (a ++ slash ∷ b) ≡ split piece a ++ split [] b
split-append_slash [] piece b = split-slash slash piece b refl ∙ unfold split in refl
split-append_slash (c ∷ a) piece b = elim (Bool-cases (c == slash)) [
  | inl hit ↦
      rw (split-slash c piece (a ++ slash ∷ b) hit, split-slash c piece a hit)
        (ap (◌∷◌ piece) (split-append_slash a [] b))
  | inr other ↦
      rw (split_other c piece (a ++ slash ∷ b) other, split_other c piece a other)
        (split-append_slash a (piece ++ c ∷ []) b)
]

foldl-append :
    (ps qs lst : List Bytes)
    → foldl push_element lst (ps ++ qs) ≡ foldl push_element (foldl push_element lst ps) qs
foldl-append [] qs lst = refl
foldl-append (p ∷ ps) qs lst = foldl-append ps qs (push_element lst p)

-- Appending `a/b` is appending `a` and then `b`, if `a` is not empty and `b` does not start with a
-- slash.
pub append_path-append :
    (lst : List Bytes) (a b : Bytes)
    → a ≢ []
    → is_absolute b ≡ false
    → append_path lst (a ++ slash ∷ b) ≡ append_path (append_path lst a) b
unfolding pieces
append_path-append lst [] b h rel = absurd (h refl)
append_path-append lst (c ∷ a) b h rel =
    rw
      (
        append_path-pieces lst (c ∷ (a ++ slash ∷ b)),
        append_path-pieces lst (c ∷ a),
        append_path-pieces _ b,
        rel,
        split-append_slash (c ∷ a) [] b,
        foldl-append,
      )
      refl
