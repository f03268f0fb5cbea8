-- ===== src/Traverse/Caching.antt =====
-- The caches of a path object, and the paths that SetUnixPath builds.
use keow.Prelude.{◌≡◌, refl, ap, sym, ◌∙◌, inl, inr, true, false, List, [], ◌∷◌, some, Bool-cases}
use keow.FilePath.{Bytes, slash, is_absolute, append_path, join_list}
use keow.FilePath.Canonical.{IsCanonical, append_path-join}
use keow.Traverse.{
  MountPoint, KernelTable, UnixPath, tranverse_mount_points, calculated, filled, get_unix_path,
  append_unix_path, set_unix_path, Walk, walk,
}
use keow.Traverse.Walking.{walk-governing}

-- A path that claims to be calculated holds what a new walk would give.
abbrev pub IsFresh : KernelTable → UnixPath → Type 0
IsFresh kt p = p.need_calculation ≡ false → tranverse_mount_points kt p ≡ some p

-- With fresh caches a getter's calculation is a new walk through the table.
pub calculated-IsFresh :
    (kt : KernelTable) (p : UnixPath) → IsFresh kt p → calculated kt p ≡ tranverse_mount_points kt p
unfolding calculated
calculated-IsFresh kt p fresh = elim (Bool-cases p.need_calculation) [
  | inl need ↦ rw need refl
  | inr cached ↦ simp cached (sym (fresh cached))
]

-- With a root mount a walk fills the caches, and a second walk finds the same.
tranverse-total :
    (kt : KernelTable) (p : UnixPath) (root : MountPoint)
    → kt.root_mount_point ≡ some root
    → (q : UnixPath) × (tranverse_mount_points kt p ≡ some q)
      × (q.path_stack ≡ p.path_stack)
      × (q.need_calculation ≡ false)
      × IsFresh kt q
unfolding tranverse_mount_points filled
tranverse-total kt p root h =
    let (w, ran, _) = walk-governing kt p.path_stack p.follow_sym_links root h in
    (filled p w, rw ran refl, refl, refl, λ _. rw ran refl)

-- With a root mount `SetUnixPath` of an absolute path succeeds for every path object. The new stack
-- is that of the text alone, and its caches are filled as by a new walk.
pub set_unix_path-absolute :
    (kt : KernelTable) (pwd p : UnixPath) (path : Bytes) (root : MountPoint)
    → kt.root_mount_point ≡ some root
    → is_absolute path ≡ true
    → (q : UnixPath) × (set_unix_path kt pwd p path ≡ some (pwd, q))
      × (q.path_stack ≡ append_path [] path)
      × (q.need_calculation ≡ false)
      × IsFresh kt q
unfolding set_unix_path calculated append_unix_path
set_unix_path-absolute kt pwd p path root h abs =
    let (q, ran, stack, done, fresh) =
      tranverse-total kt (append_unix_path (record p { path_stack = [] }) path) root h in
    (q, rw (abs, ran) refl, stack, done, fresh)

-- A relative path is added to the working directory: where that has calculated to the unix path of a
-- canonical stack, the new stack is this stack with the text appended.
pub set_unix_path-relative :
    (kt : KernelTable) (pwd p pwd' : UnixPath) (path : Bytes) (names : List Bytes)
    (root : MountPoint)
    → kt.root_mount_point ≡ some root
    → is_absolute path ≡ false
    → calculated kt pwd ≡ some pwd'
    → pwd'.actual_unix_path ≡ slash ∷ join_list names slash
    → IsCanonical names
    → (q : UnixPath) × (set_unix_path kt pwd p path ≡ some (pwd', q))
      × (q.path_stack ≡ append_path names path)
      × IsFresh kt q
unfolding set_unix_path get_unix_path append_unix_path
set_unix_path-relative kt pwd p pwd' path names root h rel ran at canonical =
    let base = append_unix_path (record p { path_stack = [] }) pwd'.actual_unix_path in
    let (q, ran', stack, done, fresh) = tranverse-total kt (append_unix_path base path) root h in
    let again : calculated kt (append_unix_path base path) ≡ some q = unfold calculated in ran' in
    (
      q,
      rw (rel, ran) (rw again refl),
      stack
          ∙ ap (λ s. append_path s path)
              (ap (append_path []) at ∙ append_path-join [] names canonical),
      fresh,
    )

-- With a root mount `SetUnixPath` of an absolute path fills its caches from the walk of the stack of
-- the text.
pub set_unix_path-filled :
    (kt : KernelTable) (pwd p : UnixPath) (path : Bytes) (root : MountPoint)
    → kt.root_mount_point ≡ some root
    → is_absolute path ≡ true
    → (w : Walk) × (walk kt (append_path [] path) p.follow_sym_links ≡ some w)
      × (set_unix_path kt pwd p path
          ≡ some (pwd, filled (append_unix_path (record p { path_stack = [] }) path) w))
unfolding set_unix_path calculated append_unix_path tranverse_mount_points
set_unix_path-filled kt pwd p path root h abs =
    let (w, ran, _) = walk-governing kt (append_path [] path) p.follow_sym_links root h in
    (w, ran, rw (abs, ran) refl)
