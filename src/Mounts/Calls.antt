-- ===== src/Mounts/Calls.antt =====
-- What mount, umount and chdir promise of absolute paths.
use keow.Prelude.{ℕ, if◌then◌else◌, ◌≡◌, ◌∙◌, refl, sym, true, false, List, [], ◌∷◌, ◌++◌, some}
use keow.Errno.{negative, win32_err_to_unix_error}
use keow.FilePath.{Bytes, same, is_nil, is_absolute, append_path, slash, join_list}
use keow.Traverse.{
  MountPoint, KernelTable, UnixPath, set_unix_path, get_win32_path, new_path, mount, umount,
  calculated, filled, append_unix_path, Walk, walk, get_final_path,
}
use keow.Traverse.Caching.{set_unix_path-filled, set_unix_path-absolute}
use keow.Traverse.Mounting.{umount-mount}
use keow.Mounts.{
  Attributes, Makers, proc_type, mount_at, mount_type, sys_mount, sys_umount, sys_chdir, enotdir,
  no_mounts,
}

absolute-some : (path : Bytes) → is_absolute path ≡ true → is_nil path ≡ false
absolute-some [] h = cc
absolute-some (c ∷ cs) h = refl

some-mounts : (mounts : List MountPoint) (mp : MountPoint) → no_mounts (mounts ++ mp ∷ []) ≡ false
some-mounts [] mp = refl
some-mounts (m ∷ mounts) mp = refl

win32_cached :
    (kt : KernelTable) (p : UnixPath)
    → p.need_calculation ≡ false
    → get_win32_path kt p ≡ some (p, p.win32_path)
unfolding get_win32_path calculated
win32_cached kt p h = rw h refl

-- The working directory and the result that the attributes of its new path ask for.
abbrev pub chdir_result : Attributes → UnixPath → UnixPath → UnixPath × ℕ
chdir_result (Attributes.present true) old new = (new, 0)
chdir_result (Attributes.present false) old new = (old, negative enotdir)
chdir_result (Attributes.invalid e) old new = (old, negative (win32_err_to_unix_error e))

module _ (attributes : Bytes → Attributes) (makers : Makers) where
  -- `chdir` to an absolute path ends, with a root mount. It asks Windows about the path that the walk
  -- of the mounts for the stack of the text comes to, links followed. Where that is a
  -- directory, it returns 0 and the working directory has the stack of the text and caches what the
  -- walk found; where it is something else it returns ENOTDIR, and
  -- where Windows has an error for it that error's number, and keeps the directory.
  pub sys_chdir-absolute :
      (kt : KernelTable) (pwd : UnixPath) (path : Bytes) (root : MountPoint)
      → kt.root_mount_point ≡ some root
      → is_absolute path ≡ true
      → (w : Walk) × (q : UnixPath) × (walk kt (append_path [] path) true ≡ some w)
        × (q.path_stack ≡ append_path [] path)
        × (q.win32_path ≡ get_final_path w)
        × (q.actual_unix_path ≡ slash ∷ join_list w.final_unix_path slash)
        × (q.final_mount_point ≡ w.final_mount)
        × (q.need_calculation ≡ false)
        × (sys_chdir attributes makers kt pwd path
            ≡ some (chdir_result (attributes (get_final_path w)) pwd q))
  unfolding sys_chdir filled append_unix_path new_path
  sys_chdir-absolute kt pwd path root h abs =
      let (w, walked, ran) = set_unix_path-filled kt pwd (new_path true) path root h abs in
      let q = filled (append_unix_path (record (new_path true) { path_stack = [] }) path) w in
      (
        w,
        q,
        walked,
        refl,
        refl,
        refl,
        refl,
        refl,
        rw (ran, win32_cached kt q refl) (by_attributes (attributes (get_final_path w)) q),
      )
    where
      by_attributes :
          (a : Attributes) (q : UnixPath)
          → elim a [
            | Attributes.invalid e ↦ some (pwd, negative (win32_err_to_unix_error e))
            | Attributes.present is_dir ↦
                if is_dir then some (q, 0) else some (pwd, negative enotdir)
          ]
            ≡ some (chdir_result a pwd q)
      by_attributes (Attributes.invalid e) q = refl
      by_attributes (Attributes.present true) q = refl
      by_attributes (Attributes.present false) q = refl

  mounted :
      (kt : KernelTable) (pwd : UnixPath) (target : Bytes) (mp root : MountPoint)
      → kt.root_mount_point ≡ some root
      → is_absolute target ≡ true
      → mp.unix_mount_point ≡ append_path [] target
      → sys_umount attributes makers (mount kt mp) pwd target ≡ some (kt, pwd, 0)
  unfolding sys_umount mount
  mounted kt pwd target mp root h abs at =
      let (q, ran, stack, done, fresh) =
        set_unix_path-absolute (mount kt mp) pwd (new_path true) target root h abs in
      let found : umount (mount kt mp) q.path_stack ≡ some kt =
        rw (stack ∙ sym at) (umount-mount kt mp) in
      rw (absolute-some target abs, some-mounts kt.mount_points mp, ran, found) refl

  -- With a root mount, mounting a `proc` filesystem on an absolute path that is a directory returns 0,
  -- and unmounting the path after it returns 0 and gives the table back, whatever was mounted there.
  pub sys_umount-sys_mount :
      (kt : KernelTable) (pwd : UnixPath) (source target : Bytes) (root : MountPoint)
      → kt.root_mount_point ≡ some root
      → is_absolute target ≡ true
      → ((p : UnixPath)
          → set_unix_path kt pwd (new_path false) target ≡ some (pwd, p)
          → attributes p.win32_path ≡ Attributes.present true)
      → (kt' : KernelTable) × (sys_mount attributes makers kt pwd source target proc_type
          ≡ some (kt', pwd, 0))
        × (sys_umount attributes makers kt' pwd target ≡ some (kt, pwd, 0))
  unfolding sys_mount mount_type mount_at
  sys_umount-sys_mount kt pwd source target root h abs dir =
      let (p, ran, _, done, _) = set_unix_path-absolute kt pwd (new_path false) target root h abs in
      let (q, ran', stack, _, _) =
        set_unix_path-absolute kt pwd (new_path true) target root h abs in
      let mp : MountPoint = record {
        unix_mount_point = q.path_stack;
        destination = source;
        filesystem = makers.make_proc;
      } in
      (
        mount kt mp,
        rw (absolute-some target abs, ran, win32_cached kt p done, dir p ran, ran')
            (unfold same keow.Text.strcmp in refl),
        mounted kt pwd target mp root h abs stack,
      )
