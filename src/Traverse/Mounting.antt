-- ===== src/Traverse/Mounting.antt =====
-- Mounting and unmounting: the mount table as a stack.
use keow.Prelude.{
  ℕ, ◌≡◌, ◌≢◌, ◌↔◌, refl, sym, ◌∙◌, true, List, [], ◌∷◌, ◌++◌, none, some, arith, if◌then◌else◌,
  length, take, take_all, All,
}
use keow.FilePath.{Bytes, equals_partial_path, equals_path}
use keow.Traverse.{MountPoint, KernelTable, mount, umount, remove_last_mount}
use keow.Traverse.Walking.{equals_partial_path-eq, last_match}

-- Paths are equal exactly when their stacks are.
pub equals_path-eq :
    (this other : List Bytes)
    → (equals_path this other ≡ true → this ≡ other)
      × (this ≡ other → equals_path this other ≡ true)
unfolding equals_path
equals_path-eq this other =
    let (sound, complete) = equals_partial_path-eq this other (length other) in
    let all : take (length other) other ≡ other = take_all (length other) other (omega arith) in
    (λ h. (sound h).1 ∙ all, λ e. complete (omega arith) (e ∙ sym all))

remove_last_mount-append :
    (mounts : List MountPoint) (mp : MountPoint)
    → remove_last_mount (mounts ++ mp ∷ []) mp.unix_mount_point ≡ some mounts
unfolding remove_last_mount
remove_last_mount-append [] mp =
    rw ((equals_path-eq mp.unix_mount_point mp.unix_mount_point).1 refl) refl
remove_last_mount-append (m ∷ ms) mp = rw (remove_last_mount-append ms mp) refl

-- Unmounting the path that was mounted last gives the table back, whatever else is mounted there.
pub umount-mount :
    (kt : KernelTable) (mp : MountPoint) → umount (mount kt mp) mp.unix_mount_point ≡ some kt
unfolding umount mount
umount-mount kt mp = rw (remove_last_mount-append kt.mount_points mp) refl

remove_last_mount-none :
    (mounts : List MountPoint) (target : List Bytes)
    → (remove_last_mount mounts target ≡ none → All (λ mp. mp.unix_mount_point ≢ target) mounts)
      × (All (λ mp. mp.unix_mount_point ≢ target) mounts → remove_last_mount mounts target ≡ none)
unfolding remove_last_mount
remove_last_mount-none [] target = (λ _. tt, λ _. refl)
remove_last_mount-none (mp ∷ ms) target =
    let (only, all) = remove_last_mount-none ms target in
    let (sound, complete) = equals_path-eq mp.unix_mount_point target in
    ground (arith, only, all, sound, complete)

-- `umount` fails exactly when nothing is mounted on the target.
pub umount-none :
    (kt : KernelTable) (target : List Bytes)
    → (umount kt target ≡ none) ↔ All (λ mp. mp.unix_mount_point ≢ target) kt.mount_points
unfolding umount
umount-none kt target =
    let (only, all) = remove_last_mount-none kt.mount_points target in
    (λ h. only (ground arith), λ h. ground (arith, all h))

-- The newest mount on a path hides the others on it and no other path's.
pub last_match-mount :
    (mounts : List MountPoint) (mp : MountPoint) (stack : List Bytes) (cnt : ℕ)
    → last_match (mounts ++ mp ∷ []) stack cnt ≡ (
        if equals_partial_path mp.unix_mount_point stack cnt
        then some mp
        else last_match mounts stack cnt)
unfolding last_match
last_match-mount [] mp stack cnt = refl
last_match-mount (m ∷ ms) mp stack cnt = ground (arith, last_match-mount ms mp stack cnt)
