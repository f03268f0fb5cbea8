-- ===== src/Traverse/Tests.antt =====
-- A root with a mount at /usr, and paths below it.
use keow.Prelude.{◌≡◌, refl, [], ◌∷◌, some, arith, true, false, inr, if◌then◌else◌}
use keow.FilePath.{Bytes, slash, join_list, equals_partial_path, same_first, same}
use keow.FilePath.Canonical.{IsName, IsCanonical}
use keow.Traverse.{Filesystem, MountPoint, KernelTable, UnixPath, Walk, walk, calculated, new_path}
use keow.Traverse.Walking.{governing, last_match, walk-governing}
use keow.Traverse.UnixName.{TableUnlinked, shown, NotStacked, count_matches, copies}
use keow.Traverse.Mounting.{last_match-mount}

abbrev usr : Bytes
usr = b'u' ∷ b's' ∷ b'r' ∷ []

abbrev lib : Bytes
lib = b'l' ∷ b'i' ∷ b'b' ∷ []

-- A filesystem with no links.
abbrev plain : Filesystem
plain = record {
  path_separator = slash ∷ [];
  link_destination = λ path. [];
  is_relative_path = λ path. true;
  is_link = λ path. false;
}

abbrev root : MountPoint
root = record { unix_mount_point = []; destination = b'c' ∷ []; filesystem = plain }

abbrev usr_mount : MountPoint
usr_mount = record { unix_mount_point = usr ∷ []; destination = b'd' ∷ []; filesystem = plain }

abbrev table : KernelTable
table = record { root_mount_point = some root; mount_points = usr_mount ∷ [] }

usr-IsName : IsName usr
usr-IsName = record {
  some_byte = λ e. cc;
  not_dot = λ e. cc;
  not_dot_dot = λ e. cc;
  no_slash = (omega arith, (omega arith, (omega arith, tt)));
}

lib-IsName : IsName lib
lib-IsName = record {
  some_byte = λ e. cc;
  not_dot = λ e. cc;
  not_dot_dot = λ e. cc;
  no_slash = (omega arith, (omega arith, (omega arith, tt)));
}

names : IsCanonical (usr ∷ lib ∷ [])
names = (usr-IsName, (lib-IsName, tt))

table-TableUnlinked : TableUnlinked true table
table-TableUnlinked = ((root, refl, inr (λ path. refl)), (inr (λ path. refl), tt))

table-NotStacked : NotStacked table (usr ∷ lib ∷ [])
unfolding count_matches
table-NotStacked cnt = ground arith

governing_test : governing table (usr ∷ lib ∷ []) 2 ≡ some usr_mount
unfolding governing last_match equals_partial_path same_first same keow.Text.strcmp
governing_test = refl

walk-governing_example :
    (v : Walk) × (walk table (usr ∷ lib ∷ []) true ≡ some v)
    × (v.final_mount ≡ governing table (usr ∷ lib ∷ []) 2)
walk-governing_example = walk-governing table (usr ∷ lib ∷ []) true root refl

-- With /usr mounted twice the unix path is /usr/usr/lib.
shown_test :
    shown (usr_mount ∷ usr_mount ∷ []) (usr ∷ lib ∷ []) 1 (usr ∷ lib ∷ []) ≡ usr ∷ usr ∷ lib ∷ []
unfolding copies count_matches equals_partial_path same_first same keow.Text.strcmp
shown_test = refl

last_match-mount_example : last_match (usr_mount ∷ root ∷ []) (lib ∷ []) 1 ≡ (
    if equals_partial_path [] (lib ∷ []) 1
    then some root
    else last_match (usr_mount ∷ []) (lib ∷ []) 1)
last_match-mount_example = last_match-mount (usr_mount ∷ []) root (lib ∷ []) 1

-- A process whose working directory is /usr/lib, calculated.
abbrev in_lib : UnixPath
in_lib = record (new_path true) {
  path_stack = usr ∷ lib ∷ [];
  actual_unix_path = slash ∷ join_list (usr ∷ lib ∷ []) slash;
  need_calculation = false;
}

in_lib-calculated : calculated table in_lib ≡ some in_lib
unfolding calculated new_path
in_lib-calculated = refl
