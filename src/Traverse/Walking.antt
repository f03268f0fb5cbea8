-- ===== src/Traverse/Walking.antt =====
-- Where the walk through the mount table ends, and the unix path that it collects.
use keow.Prelude.{
  ℕ, zero, suc, ◌+◌, ◌≤◌, ◌≡◌, refl, ap, sym, ◌∙◌, inl, inr, Bool, true, false, List, [], ◌∷◌,
  Option, none, some, arith, if◌then◌else◌, length, length-take, take, Option-cases,
}
use keow.FilePath.{Bytes, same_first, equals_partial_path}
use keow.FilePath.Pieces.{same_iff}
use keow.Traverse.{
  Filesystem, MountPoint, KernelTable, Walk, enter_mount, enter_mounts, follow_link, normal_element,
  visit, arrive, step_element, walk_from, walk, start_walk,
}

-- A decided test through its two directions.
same_first-lem :
    (n : ℕ) (this other : List Bytes)
    → n ≡ length this
    → n ≤ length other
    → (same_first n this other ≡ true → this ≡ take n other)
      × (this ≡ take n other → same_first n this other ≡ true)
unfolding same_first
same_first-lem zero [] other e h = (λ _. refl, λ _. refl)
same_first-lem zero (a ∷ as') other e h = absurd (omega arith)
same_first-lem (suc n) [] other e h = absurd (omega arith)
same_first-lem (suc n) (a ∷ as') [] e h = absurd (omega arith)
same_first-lem (suc n) (a ∷ as') (b ∷ bs) e h =
    let (sound, complete) = same_first-lem n as' bs (omega arith) (omega arith) in
    ground (arith, sound, complete, same_iff a b)

-- A mount point matches the first n elements of a path exactly when the path has n elements and the
-- mount point is those.
pub equals_partial_path-eq :
    (this other : List Bytes) (n : ℕ)
    → (equals_partial_path this other n ≡ true → (n ≤ length other) × (this ≡ take n other))
      × (n ≤ length other → this ≡ take n other → equals_partial_path this other n ≡ true)
unfolding equals_partial_path
equals_partial_path-eq this other n = (
  λ h. ground (arith, same_first-lem n this other),
  λ h e. ground (arith, short h e, same_first-lem n this other),
)
  where
    short : n ≤ length other → this ≡ take n other → length this ≡ n
    short h e = omega (arith, ap length e, length-take n other)

-- The last mount of the table on exactly these first elements of the stack.
unfoldable pub last_match : List MountPoint → List Bytes → ℕ → Option MountPoint
last_match [] stack cnt = none
last_match (mp ∷ rest) stack cnt = elim (last_match rest stack cnt) [
  | some later ↦ some later
  | none ↦ if equals_partial_path mp.unix_mount_point stack cnt then some mp else none
]

-- The mount that governs the first n elements: the newest on the longest prefix, else the root's.
unfoldable pub governing : KernelTable → List Bytes → ℕ → Option MountPoint
governing kt stack zero = kt.root_mount_point
governing kt stack (suc n) = elim (last_match kt.mount_points stack (suc n)) [
  | some mp ↦ some mp
  | none ↦ governing kt stack n
]

abbrev or_else : Option MountPoint → Option MountPoint → Option MountPoint
or_else (some mp) other = some mp
or_else none other = other

abbrev is_found : Bool → Option MountPoint → Bool
is_found b (some mp) = true
is_found b none = b

enter_mounts-final_mount :
    (mounts : List MountPoint) (stack : List Bytes) (cnt : ℕ) (element : Bytes) (w : Walk)
    (found : Bool)
    → ((enter_mounts mounts stack cnt element w found).0.final_mount
        ≡ or_else (last_match mounts stack cnt) w.final_mount)
      × ((enter_mounts mounts stack cnt element w found).1
          ≡ is_found found (last_match mounts stack cnt))
unfolding enter_mounts enter_mount last_match
enter_mounts-final_mount [] stack cnt element w found = (refl, refl)
enter_mounts-final_mount (mp ∷ rest) stack cnt element w found = ground (
  arith,
  enter_mounts-final_mount rest stack cnt element w found,
  enter_mounts-final_mount rest stack cnt element (enter_mount mp element w) true,
)

pub visit-final_mount :
    (fs : Filesystem) (w : Walk) (element : Bytes) (follow : Bool)
    → (visit fs w element follow).final_mount ≡ w.final_mount
unfolding visit follow_link normal_element
visit-final_mount fs w element follow = ground arith

arrive-final_mount :
    (element : Bytes) (follow : Bool) (entered : Walk × Bool) (mp : MountPoint)
    → entered.0.final_mount ≡ some mp
    → (v : Walk) × (arrive element follow entered ≡ some v) × (v.final_mount ≡ some mp)
unfolding arrive
arrive-final_mount element follow (entered, true) mp h = (entered, refl, h)
arrive-final_mount element follow (entered, false) mp h = (
  visit mp.filesystem entered element follow,
  simp (h, arrive),
  visit-final_mount mp.filesystem entered element follow ∙ h,
)

-- With a mount to be in, a round goes through and ends in the mount that governs one element more.
step_element-governing :
    (kt : KernelTable) (stack : List Bytes) (follow : Bool) (n : ℕ) (element : Bytes) (w : Walk)
    (mp next : MountPoint)
    → w.final_mount ≡ governing kt stack n
    → governing kt stack n ≡ some mp
    → governing kt stack (suc n) ≡ some next
    → (v : Walk) × (step_element kt stack follow (suc n) element w ≡ some v)
      × (v.final_mount ≡ governing kt stack (suc n))
unfolding step_element
step_element-governing kt stack follow n element w mp next h e e' =
    let (at, _) = enter_mounts-final_mount kt.mount_points stack (suc n) element w false in
    let (v, ran, end) =
      arrive-final_mount element follow (enter_mounts kt.mount_points stack (suc n) element w false)
        next (at ∙ or_governing (last_match kt.mount_points stack (suc n)) refl) in
    (v, ran, end ∙ sym e')
  where
    or_governing :
        (o : Option MountPoint)
        → last_match kt.mount_points stack (suc n) ≡ o
        → or_else o w.final_mount ≡ some next
    or_governing none q = unfold governing in ground arith
    or_governing (some m) q = unfold governing in ground arith

governing-some :
    (kt : KernelTable) (stack : List Bytes) (root : MountPoint)
    → kt.root_mount_point ≡ some root
    → (n : ℕ) → (mp : MountPoint) × (governing kt stack n ≡ some mp)
unfolding governing
governing-some kt stack root h zero = (root, h)
governing-some kt stack root h (suc n) =
    elim (Option-cases (last_match kt.mount_points stack (suc n))) [
      | inl no_mount ↦ rw (no_mount, governing) (governing-some kt stack root h n)
      | inr (m, hit) ↦ (m, rw (hit, governing) refl)
    ]

walk_from-governing :
    (kt : KernelTable) (stack : List Bytes) (follow : Bool) (root : MountPoint)
    → kt.root_mount_point ≡ some root
    → (rest : List Bytes) (n : ℕ) (w : Walk) → w.final_mount ≡ governing kt stack n
    → (v : Walk) × (walk_from kt stack follow (suc n) rest w ≡ some v)
      × (v.final_mount ≡ governing kt stack (n + length rest))
unfolding walk_from
walk_from-governing kt stack follow root h [] n w e =
    (w, refl, e ∙ ap (governing kt stack) (omega arith))
walk_from-governing kt stack follow root h (element ∷ rest) n w e =
    let (mp, some_mount) = governing-some kt stack root h n in
    let (next, some_next) = governing-some kt stack root h (suc n) in
    let (v, ran, at) =
      step_element-governing kt stack follow n element w mp next e some_mount some_next in
    let (u, left, end) = walk_from-governing kt stack follow root h rest (suc n) v at in
    (u, rw ran left, end ∙ ap (governing kt stack) (omega arith))

-- With a root mount the walk goes through on every stack, and it ends in the newest mount on the
-- longest prefix of the stack that is a mount point, whatever links it meets on its way.
pub walk-governing :
    (kt : KernelTable) (stack : List Bytes) (follow : Bool) (root : MountPoint)
    → kt.root_mount_point ≡ some root
    → (v : Walk) × (walk kt stack follow ≡ some v)
      × (v.final_mount ≡ governing kt stack (length stack))
unfolding walk start_walk governing
walk-governing kt stack follow root h =
    let (v, ran, at) = walk_from-governing kt stack follow root h stack 0 (start_walk kt) refl in
    (v, ran, at ∙ ap (governing kt stack) (omega arith))
