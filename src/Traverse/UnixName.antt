-- ===== src/Traverse/UnixName.antt =====
-- The unix path that the walk collects.
use keow.Prelude.{
  ℕ, zero, suc, ◌≤◌, ◌≡◌, refl, ap, sym, ◌∙◌, inl, inr, ◌⊎◌, Bool, true, false, List, [], ◌∷◌, ◌++◌,
  append_assoc, append-nil, Option, some, arith, if◌then◌else◌, All, Bool-cases,
}
use keow.FilePath.{Bytes, append_path, join_list, join_from, equals_partial_path}
use keow.FilePath.Canonical.{IsName, IsCanonical, append_path-join_relative}
use keow.Traverse.{
  Filesystem, MountPoint, KernelTable, Walk, enter_mount, enter_mounts, follow_link, normal_element,
  visit, arrive, step_element, walk_from, walk, start_walk,
}
use keow.Traverse.Walking.{visit-final_mount}

append_path-name : (lst : List Bytes) (e : Bytes) → IsName e → append_path lst e ≡ lst ++ e ∷ []
append_path-name lst e n = unfold join_list join_from in append_path-join_relative lst e [] (n, tt)

-- How many mounts of the table stand on these elements.
unfoldable pub count_matches : List MountPoint → List Bytes → ℕ → ℕ
count_matches [] stack cnt = 0
count_matches (mp ∷ rest) stack cnt =
    let later = count_matches rest stack cnt in
    if equals_partial_path mp.unix_mount_point stack cnt then suc later else later

-- An element, so often.
unfoldable pub copies : ℕ → Bytes → List Bytes
copies zero e = []
copies (suc n) e = e ∷ copies n e

-- The loop over the mounts adds the element once for every mount that matches.
enter_mounts-copies :
    (mounts : List MountPoint) (stack : List Bytes) (cnt : ℕ) (e : Bytes) (w : Walk) (found : Bool)
    → IsName e
    → (enter_mounts mounts stack cnt e w found).0.final_unix_path
      ≡ w.final_unix_path ++ copies (count_matches mounts stack cnt) e
unfolding enter_mounts enter_mount count_matches copies
enter_mounts-copies [] stack cnt e w found n = sym (append-nil w.final_unix_path)
enter_mounts-copies (mp ∷ rest) stack cnt e w found n =
    elim (Bool-cases (equals_partial_path mp.unix_mount_point stack cnt)) [
      | inl hit ↦
          rw (hit, enter_mounts, count_matches)
            (enter_mounts-copies rest stack cnt e (enter_mount mp e w) true n
              ∙ rw (append_path-name w.final_unix_path e n) (
                  append_assoc w.final_unix_path (e ∷ [])
                    (copies (count_matches rest stack cnt) e)))
      | inr miss ↦
          rw (miss, enter_mounts, count_matches) (enter_mounts-copies rest stack cnt e w found n)
    ]

enter_mounts-found :
    (mounts : List MountPoint) (stack : List Bytes) (cnt : ℕ) (e : Bytes) (w : Walk) (found : Bool)
    → ((enter_mounts mounts stack cnt e w found).1 ≡ true
        → (found ≡ true) ⊎ (1 ≤ count_matches mounts stack cnt))
      × ((enter_mounts mounts stack cnt e w found).1 ≡ false
          → (found ≡ false) × (count_matches mounts stack cnt ≡ 0))
unfolding enter_mounts count_matches
enter_mounts-found [] stack cnt e w found = (λ h. inl h, λ h. (h, refl))
enter_mounts-found (mp ∷ rest) stack cnt e w found = ground (
  arith,
  enter_mounts-found rest stack cnt e w found,
  enter_mounts-found rest stack cnt e (enter_mount mp e w) true,
)

-- Nothing on the way is a link that the walk follows.
abbrev pub Unlinked : Bool → Filesystem → Type 0
Unlinked follow fs = (follow ≡ false) ⊎ ((path : Bytes) → fs.link_destination path ≡ [])

visit_name :
    (fs : Filesystem) (w : Walk) (e : Bytes) (follow : Bool)
    → Unlinked follow fs
    → IsName e
    → (visit fs w e follow).final_unix_path ≡ w.final_unix_path ++ e ∷ []
unfolding visit normal_element follow_link
visit_name fs w e follow (inl plain) n = ground (arith, append_path-name w.final_unix_path e n)
visit_name fs w e follow (inr plain) n = rw plain (append_path-name w.final_unix_path e n)

-- The walk is in a mount, and follows no link of its filesystem.
abbrev pub InPlainMount : Bool → Option MountPoint → Type 0
InPlainMount follow o = (mp : MountPoint) × (o ≡ some mp) × Unlinked follow mp.filesystem

abbrev pub TableUnlinked : Bool → KernelTable → Type 0
TableUnlinked follow kt =
    InPlainMount follow kt.root_mount_point
    × All (λ mp. Unlinked follow mp.filesystem) kt.mount_points

enter_mounts-Unlinked :
    (mounts : List MountPoint) (stack : List Bytes) (cnt : ℕ) (e : Bytes) (w : Walk)
    (found follow : Bool)
    → All (λ mp. Unlinked follow mp.filesystem) mounts
    → InPlainMount follow w.final_mount
    → InPlainMount follow (enter_mounts mounts stack cnt e w found).0.final_mount
unfolding enter_mounts enter_mount
enter_mounts-Unlinked [] stack cnt e w found follow h u = u
enter_mounts-Unlinked (mp ∷ rest) stack cnt e w found follow (hm, h) u =
    elim (Bool-cases (equals_partial_path mp.unix_mount_point stack cnt)) [
      | inl hit ↦
          rw (hit, enter_mounts)
            (enter_mounts-Unlinked rest stack cnt e (enter_mount mp e w) true follow h
              (mp, refl, hm))
      | inr miss ↦
          rw (miss, enter_mounts) (enter_mounts-Unlinked rest stack cnt e w found follow h u)
    ]

-- An element that no mount takes stands once in the result, any other once for each mount on it.
abbrev pub at_least_one : ℕ → ℕ
at_least_one zero = 1
at_least_one (suc n) = suc n

abbrev pub shown : List MountPoint → List Bytes → ℕ → List Bytes → List Bytes
shown mounts stack cnt [] = []
shown mounts stack cnt (e ∷ rest) =
    copies (at_least_one (count_matches mounts stack cnt)) e ++ shown mounts stack (suc cnt) rest

-- The walk goes on in a plain mount, and has added these elements.
abbrev Adds : Bool → Walk → List Bytes → Option Walk → Type 0
Adds follow w es r =
    (v : Walk) × (r ≡ some v)
    × (v.final_unix_path ≡ w.final_unix_path ++ es)
    × InPlainMount follow v.final_mount

arrive-Adds :
    (e : Bytes) (follow : Bool) (w : Walk) (n : ℕ) (entered : Walk × Bool)
    → IsName e
    → InPlainMount follow entered.0.final_mount
    → entered.0.final_unix_path ≡ w.final_unix_path ++ copies n e
    → (entered.1 ≡ true → 1 ≤ n)
    → (entered.1 ≡ false → n ≡ 0)
    → Adds follow w (copies (at_least_one n) e) (arrive e follow entered)
unfolding arrive copies
arrive-Adds e follow w zero (entered, true) name u path hit miss = absurd (omega (arith, hit refl))
arrive-Adds e follow w (suc n) (entered, true) name u path hit miss = (entered, refl, path, u)
arrive-Adds e follow w (suc n) (entered, false) name u path hit miss =
    absurd (omega (arith, miss refl))
arrive-Adds e follow w zero (entered, false) name (mp, at, plain) path hit miss = (
  visit mp.filesystem entered e follow,
  simp (at, arrive),
  visit_name mp.filesystem entered e follow plain name
      ∙ ap (λ p. p ++ e ∷ []) (path ∙ append-nil w.final_unix_path),
  (mp, visit-final_mount mp.filesystem entered e follow ∙ at, plain),
)

step_element-Adds :
    (kt : KernelTable) (stack : List Bytes) (follow : Bool) (cnt : ℕ) (e : Bytes) (w : Walk)
    → TableUnlinked follow kt
    → IsName e
    → InPlainMount follow w.final_mount
    → Adds follow w
        (copies (at_least_one (count_matches kt.mount_points stack cnt)) e)
        (step_element kt stack follow cnt e w)
unfolding step_element
step_element-Adds kt stack follow cnt e w (_, plain) name u =
    let (hit, miss) = enter_mounts-found kt.mount_points stack cnt e w false in
    arrive-Adds e follow w (count_matches kt.mount_points stack cnt)
      (enter_mounts kt.mount_points stack cnt e w false) name
      (enter_mounts-Unlinked kt.mount_points stack cnt e w false follow plain u)
      (enter_mounts-copies kt.mount_points stack cnt e w false name)
      (λ h. elim (hit h) [ inl no_way ↦ cc | inr some_hit ↦ some_hit ]) (λ h. (miss h).1)

walk_from-Adds :
    (kt : KernelTable) (stack : List Bytes) (follow : Bool) (rest : List Bytes) (cnt : ℕ) (w : Walk)
    → TableUnlinked follow kt
    → IsCanonical rest
    → InPlainMount follow w.final_mount
    → Adds follow w (shown kt.mount_points stack cnt rest) (walk_from kt stack follow cnt rest w)
unfolding walk_from
walk_from-Adds kt stack follow [] cnt w t h u = (w, refl, sym (append-nil w.final_unix_path), u)
walk_from-Adds kt stack follow (e ∷ rest) cnt w t (name, h) u =
    let (v, ran, path, u') = step_element-Adds kt stack follow cnt e w t name u in
    let (x, ran', path', end) = walk_from-Adds kt stack follow rest (suc cnt) v t h u' in
    (x, rw ran ran', path' ∙ rw path (append_assoc w.final_unix_path _ _), end)

-- With a root mount, a canonical stack and no link that is followed, the walk goes through. The unix
-- path that it collects has each element once for every mount that stands on the path so far, and
-- once if there is none.
pub walk-shown :
    (kt : KernelTable) (stack : List Bytes) (follow : Bool)
    → TableUnlinked follow kt
    → IsCanonical stack
    → (v : Walk) × (walk kt stack follow ≡ some v)
      × (v.final_unix_path ≡ shown kt.mount_points stack 1 stack)
unfolding walk start_walk
walk-shown kt stack follow t h =
    let (v, ran, path, _) = walk_from-Adds kt stack follow stack 1 (start_walk kt) t h t.0 in
    (v, ran, path)

-- No two mounts stand on the same path.
abbrev pub NotStacked : KernelTable → List Bytes → Type 0
NotStacked kt stack = (cnt : ℕ) → count_matches kt.mount_points stack cnt ≤ 1

shown-once :
    (mounts : List MountPoint) (stack : List Bytes) (cnt : ℕ) (rest : List Bytes)
    → ((n : ℕ) → count_matches mounts stack n ≤ 1)
    → shown mounts stack cnt rest ≡ rest
shown-once mounts stack cnt [] h = refl
shown-once mounts stack cnt (e ∷ rest) h =
    rw (single (count_matches mounts stack cnt) (h cnt), shown-once mounts stack (suc cnt) rest h)
      (unfold copies in refl)
  where
    single : (n : ℕ) → n ≤ 1 → at_least_one n ≡ 1
    single zero l = refl
    single (suc n) l = omega arith

-- With a root mount, a canonical stack, no link that is followed and no two mounts on one path, the
-- walk goes through and the unix path that it collects is the stack itself.
pub walk-unix_path :
    (kt : KernelTable) (stack : List Bytes) (follow : Bool)
    → TableUnlinked follow kt
    → IsCanonical stack
    → NotStacked kt stack
    → (v : Walk) × (walk kt stack follow ≡ some v) × (v.final_unix_path ≡ stack)
walk-unix_path kt stack follow t h once =
    let (v, ran, path) = walk-shown kt stack follow t h in
    (v, ran, path ∙ shown-once kt.mount_points stack 1 stack once)
