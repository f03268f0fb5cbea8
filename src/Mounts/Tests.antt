-- ===== src/Mounts/Tests.antt =====
-- A root on a filesystem with no links, and every path a directory.
use keow.Prelude.{◌≡◌, refl, [], ◌∷◌, some, true, false}
use keow.FilePath.{Bytes, slash, append_path, join_list}
use keow.Traverse.{
  Filesystem, MountPoint, KernelTable, UnixPath, new_path, Walk, walk, get_final_path,
}
use keow.Mounts.{Attributes, Makers, sys_mount, sys_umount, sys_chdir, proc_type}
use keow.Mounts.Calls.{sys_chdir-absolute, sys_umount-sys_mount}

abbrev plain : Filesystem
plain = record {
  path_separator = slash ∷ [];
  link_destination = λ path. [];
  is_relative_path = λ path. true;
  is_link = λ path. false;
}

abbrev makers : Makers
makers = record { make_keow = plain; make_proc = plain; make_dev = plain }

abbrev root : MountPoint
root = record { unix_mount_point = []; destination = b'c' ∷ []; filesystem = plain }

abbrev table : KernelTable
table = record { root_mount_point = some root; mount_points = [] }

abbrev slash_proc : Bytes
slash_proc = slash ∷ proc_type

abbrev directories : Bytes → Attributes
directories real = Attributes.present true

sys_chdir-absolute_example :
    (w : Walk) × (q : UnixPath) × (walk table (append_path [] slash_proc) true ≡ some w)
    × (q.path_stack ≡ append_path [] slash_proc)
    × (q.win32_path ≡ get_final_path w)
    × (q.actual_unix_path ≡ slash ∷ join_list w.final_unix_path slash)
    × (q.final_mount_point ≡ w.final_mount)
    × (q.need_calculation ≡ false)
    × (sys_chdir directories makers table (new_path true) slash_proc ≡ some (q, 0))
sys_chdir-absolute_example =
    sys_chdir-absolute directories makers table (new_path true) slash_proc root refl refl

sys_umount-sys_mount_example :
    (kt' : KernelTable) × (sys_mount directories makers table
        (new_path true)
        []
        slash_proc
        proc_type
      ≡ some (kt', new_path true, 0))
    × (sys_umount directories makers kt' (new_path true) slash_proc
        ≡ some (table, new_path true, 0))
sys_umount-sys_mount_example =
    sys_umount-sys_mount directories makers table (new_path true) [] slash_proc root refl refl
      (λ p ran. refl)
