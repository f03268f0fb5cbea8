-- ===== src/Mounts.antt =====
-- The system calls mount and umount of keow-kernel/KeowKernel/sys_mount.cpp, and chdir of sys_io.cpp.
-- The strings are those that are read from the process.
pub mod Calls
mod Tests
use keow.Prelude.{
  ℕ, zero, suc, Bool, true, false, ◌&&◌, ◌||◌, List, [], ◌∷◌, Option, none, some, ◌==◌,
  if◌then◌else◌, ◌>>=◌, get_or,
}
use keow.Errno.{negative, einval, Win32Error, win32_err_to_unix_error}
use keow.FilePath.{Bytes, same, is_nil}
use keow.Traverse.{
  Filesystem, MountPoint, KernelTable, UnixPath, set_unix_path, get_win32_path, new_path, mount,
  umount,
}

abbrev pub enotdir : ℕ
enotdir = 20

abbrev pub enodev : ℕ
enodev = 19

-- What GetFileAttributes says of a path: the error, or whether it is a directory.
pub data Attributes : Type 0 where
  invalid : Win32Error → Attributes
  present : Bool → Attributes

abbrev pub is_directory : Attributes → Bool
is_directory (Attributes.invalid e) = false
is_directory (Attributes.present b) = b

-- The names of the filesystem types.
abbrev pub keow_type : Bytes
keow_type = b'k' ∷ b'e' ∷ b'o' ∷ b'w' ∷ []

abbrev pub proc_type : Bytes
proc_type = b'p' ∷ b'r' ∷ b'o' ∷ b'c' ∷ []

abbrev pub dev_type : Bytes
dev_type = b'd' ∷ b'e' ∷ b'v' ∷ []

-- What a call leaves: the table, the working directory with its caches, and eax.
abbrev pub Answer : Type 0
Answer = KernelTable × UnixPath × ℕ

-- The filesystems that `new FilesystemKeow()`, `FilesystemProc` and `FilesystemDev` make.
pub record Makers : Type 0 where
  pub make_keow : Filesystem
  pub make_proc : Filesystem
  pub make_dev : Filesystem

abbrev pub no_mounts : List MountPoint → Bool
no_mounts [] = true
no_mounts (mp ∷ mounts) = false

module _ (attributes : Bytes → Attributes) (makers : Makers) where
  -- `MountPoint::Mount(Path(target), source, pFS, ...)` and success.
  unfoldable pub mount_at : KernelTable → UnixPath → Bytes → Bytes → Filesystem → Option Answer
  mount_at kt pwd source target fs = set_unix_path kt pwd (new_path true) target >>= λ (pwd', q).
      some (
        mount kt
            (record { unix_mount_point = q.path_stack; destination = source; filesystem = fs }),
        pwd',
        0,
      )

  -- Only a drive letter, `C:`.
  abbrev pub is_drive : Bytes → Bool
  is_drive source = is_nil source || (get_or source 1 0 == b':' && get_or source 2 0 == 0)

  -- The choice of the filesystem.
  unfoldable pub mount_type : KernelTable → UnixPath → Bytes → Bytes → Bytes → Option Answer
  mount_type kt pwd source target type_name =
      if same type_name keow_type
      then (if is_drive source
          then some (kt, pwd, negative enotdir)
          else if is_directory (attributes source)
          then mount_at kt pwd source target makers.make_keow
          else some (kt, pwd, negative enotdir))
      else if same type_name proc_type
      then mount_at kt pwd source target makers.make_proc
      else if same type_name dev_type
      then mount_at kt pwd source target makers.make_dev
      else some (kt, pwd, negative enodev)

  unfoldable pub sys_mount : KernelTable → UnixPath → Bytes → Bytes → Bytes → Option Answer
  sys_mount kt pwd source target type_name =
      if is_nil target || is_nil type_name
      then some (kt, pwd, negative einval)
      else (set_unix_path kt pwd (new_path false) target >>= λ (pwd', p).
          get_win32_path kt p >>= λ (p', real).
          if is_directory (attributes real)
          then mount_type kt pwd' source target type_name
          else some (kt, pwd', negative enotdir))

  -- What the search leaves.
  abbrev pub unmounted : KernelTable → UnixPath → Option KernelTable → Answer
  unmounted kt pwd none = (kt, pwd, negative einval)
  unmounted kt pwd (some left) = (left, pwd, 0)

  -- The path of the target is made anew to compare it with each mount. It is the same each time, and
  -- not made if there is no mount.
  unfoldable pub sys_umount : KernelTable → UnixPath → Bytes → Option Answer
  sys_umount kt pwd target =
      if is_nil target
      then some (kt, pwd, negative einval)
      else if no_mounts kt.mount_points
      then some (kt, pwd, negative einval)
      else (set_unix_path kt pwd (new_path true) target >>= λ (pwd', q).
          some (unmounted kt pwd' (umount kt q.path_stack)))

  -- The working directory and eax.
  unfoldable pub sys_chdir : KernelTable → UnixPath → Bytes → Option (UnixPath × ℕ)
  sys_chdir kt pwd path = set_unix_path kt pwd (new_path true) path >>= λ (pwd', p).
      get_win32_path kt p >>= λ (p', real). elim (attributes real) [
        | Attributes.invalid e ↦ some (pwd', negative (win32_err_to_unix_error e))
        | Attributes.present is_dir ↦ if is_dir then some (p', 0) else some (pwd', negative enotdir)
      ]
