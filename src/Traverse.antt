-- ===== src/Traverse.antt =====
-- Path.cpp with the mount points: the path object, its walk through the mount table, its caches.
-- A Filesystem is its virtual functions, a mount point what the walk reads of it.
pub mod Walking
pub mod UnixName
pub mod Caching
pub mod Mounting
mod Tests
use keow.Prelude.{
  ℕ, zero, suc, ◌+◌, Bool, true, false, not, ◌&&◌, List, [], ◌∷◌, ◌++◌, Option, none, some, ◌==◌,
  if◌then◌else◌, ◌>>=◌, length,
}
use keow.FilePath.{
  Bytes, slash, is_nil, is_absolute, append_path, join_list, equals_partial_path, equals_path,
}

pub record Filesystem : Type 0 where
  pub path_separator : Bytes
  pub link_destination : Bytes → Bytes
  pub is_relative_path : Bytes → Bool
  pub is_link : Bytes → Bool

pub record MountPoint : Type 0 where
  pub unix_mount_point : List Bytes
  pub destination : Bytes
  pub filesystem : Filesystem

-- The part of the kernel table that paths read.
pub record KernelTable : Type 0 where
  pub root_mount_point : Option MountPoint
  pub mount_points : List MountPoint

pub record UnixPath : Type 0 where
  pub path_stack : List Bytes
  pub final_mount_point : Option MountPoint
  pub mount_real_path : Bytes
  pub path_in_mount_point : Bytes
  pub actual_unix_path : Bytes
  pub follow_sym_links : Bool
  pub need_calculation : Bool
  pub win32_path : Bytes

-- What `TranverseMountPoints` changes on its way.
pub record Walk : Type 0 where
  pub final_mount : Option MountPoint
  pub real_path : Bytes
  pub in_mount : Bytes
  pub final_unix_path : List Bytes

abbrev pub lnk : Bytes
lnk = b'.' ∷ b'l' ∷ b'n' ∷ b'k' ∷ []

abbrev pub separator_or : Bytes → Option MountPoint → Bytes
separator_or other none = other
separator_or other (some mp) = mp.filesystem.path_separator

abbrev pub destination_of : Option MountPoint → Bytes
destination_of none = []
destination_of (some mp) = mp.destination

unfoldable pub get_final_path : Walk → Bytes
get_final_path w =
    (if is_nil w.real_path then [] else w.real_path ++ separator_or (slash ∷ []) w.final_mount)
    ++ w.in_mount

-- Start at the root.
unfoldable pub start_walk : KernelTable → Walk
start_walk kt = record {
  final_mount = kt.root_mount_point;
  real_path = destination_of kt.root_mount_point;
  in_mount = separator_or (b'\\' ∷ []) kt.root_mount_point;
  final_unix_path = [];
}

-- A mount that matches the path so far.
unfoldable pub enter_mount : MountPoint → Bytes → Walk → Walk
enter_mount mp element w = record {
  final_mount = some mp;
  real_path = mp.destination;
  in_mount = slash ∷ [];
  final_unix_path = append_path w.final_unix_path element;
}

-- The loop over the mount table for the element that ends the first `cnt` elements of the stack.
-- Every mount that matches is entered, in the order of the table; the flag is `bMountFound`.
unfoldable pub enter_mounts : List MountPoint → List Bytes → ℕ → Bytes → Walk → Bool → Walk × Bool
enter_mounts [] stack cnt element w found = (w, found)
enter_mounts (mp ∷ rest) stack cnt element w found =
    elim (equals_partial_path mp.unix_mount_point stack cnt) [
      | true ↦ enter_mounts rest stack cnt element (enter_mount mp element w) true
      | false ↦ enter_mounts rest stack cnt element w found
    ]

-- The path that is tested for a link, less its suffix.
unfoldable pub current_path : Filesystem → Walk → Bytes → Bytes
current_path fs w element =
    let curpath = get_final_path w in
    (if is_nil curpath then [] else curpath ++ fs.path_separator) ++ element

unfoldable pub follow_link : Filesystem → Walk → Bytes → Walk
follow_link fs w dest =
    if fs.is_relative_path dest
    then record w {
      in_mount = (w.in_mount ++ fs.path_separator) ++ dest;
      final_unix_path = append_path w.final_unix_path dest;
    }
    else record w { real_path = slash ∷ []; in_mount = dest; final_unix_path = append_path [] dest }

unfoldable pub normal_element : Filesystem → Walk → Bytes → Bool → Walk
normal_element fs w element is_lnk = record w {
  in_mount = ((w.in_mount ++ fs.path_separator) ++ element) ++ (if is_lnk then lnk else []);
  final_unix_path = append_path w.final_unix_path element;
}

-- An element that is no mount point.
unfoldable pub visit : Filesystem → Walk → Bytes → Bool → Walk
visit fs w element follow =
    let dest = fs.link_destination (current_path fs w element ++ lnk) in
    let is_lnk = not (is_nil dest) in
    if is_lnk && follow then follow_link fs w dest else normal_element fs w element is_lnk

-- What a round does with the outcome of the loop. `none` is the use of a NULL mount point.
unfoldable pub arrive : Bytes → Bool → Walk × Bool → Option Walk
arrive element follow (entered, true) = some entered
arrive element follow (entered, false) = elim entered.final_mount [
  | none ↦ none
  | some mp ↦ some (visit mp.filesystem entered element follow)
]

unfoldable pub step_element : KernelTable → List Bytes → Bool → ℕ → Bytes → Walk → Option Walk
step_element kt stack follow cnt element w =
    arrive element follow (enter_mounts kt.mount_points stack cnt element w false)

unfoldable pub walk_from : KernelTable → List Bytes → Bool → ℕ → List Bytes → Walk → Option Walk
walk_from kt stack follow cnt [] w = some w
walk_from kt stack follow cnt (element ∷ rest) w =
    step_element kt stack follow cnt element w >>= walk_from kt stack follow (suc cnt) rest

unfoldable pub walk : KernelTable → List Bytes → Bool → Option Walk
walk kt stack follow = walk_from kt stack follow 1 stack (start_walk kt)

-- The caches after a walk.
unfoldable pub filled : UnixPath → Walk → UnixPath
filled p w = record p {
  final_mount_point = w.final_mount;
  mount_real_path = w.real_path;
  path_in_mount_point = w.in_mount;
  actual_unix_path = slash ∷ join_list w.final_unix_path slash;
  win32_path = get_final_path w;
  need_calculation = false;
}

unfoldable pub tranverse_mount_points : KernelTable → UnixPath → Option UnixPath
tranverse_mount_points kt p = walk kt p.path_stack p.follow_sym_links >>= λ w. some (filled p w)

unfoldable pub calculated : KernelTable → UnixPath → Option UnixPath
calculated kt p = if p.need_calculation then tranverse_mount_points kt p else some p

-- The getters return the path object too, since they may fill its caches.
unfoldable pub get_unix_path : KernelTable → UnixPath → Option (UnixPath × Bytes)
get_unix_path kt p = calculated kt p >>= λ q. some (q, q.actual_unix_path)

unfoldable pub get_win32_path : KernelTable → UnixPath → Option (UnixPath × Bytes)
get_win32_path kt p = calculated kt p >>= λ q. some (q, q.win32_path)

unfoldable pub get_path_in_filesystem : KernelTable → UnixPath → Option (UnixPath × Bytes)
get_path_in_filesystem kt p = calculated kt p >>= λ q. some (q, q.path_in_mount_point)

unfoldable pub get_final_filesystem : KernelTable → UnixPath → Option (UnixPath × Filesystem)
get_final_filesystem kt p = calculated kt p >>= λ q. elim q.final_mount_point [
  | none ↦ none
  | some mp ↦ some (q, mp.filesystem)
]

-- `IsSymbolicLink` asks the filesystem about the final path.
unfoldable pub is_symbolic_link : KernelTable → UnixPath → Option (UnixPath × Bool)
is_symbolic_link kt p = calculated kt p >>= λ q. elim q.final_mount_point [
  | none ↦ none
  | some mp ↦ some (
    q,
    mp.filesystem.is_link (
        get_final_path (record {
          final_mount = some mp;
          real_path = q.mount_real_path;
          in_mount = q.path_in_mount_point;
          final_unix_path = [];
        })),
  )
]

unfoldable pub new_path : Bool → UnixPath
new_path follow = record {
  path_stack = [];
  final_mount_point = none;
  mount_real_path = [];
  path_in_mount_point = [];
  actual_unix_path = [];
  follow_sym_links = follow;
  need_calculation = true;
  win32_path = [];
}

unfoldable pub follow_links : UnixPath → Bool → UnixPath
follow_links p follow = record p { follow_sym_links = follow; need_calculation = true }

unfoldable pub append_unix_path : UnixPath → Bytes → UnixPath
append_unix_path p unixp = record p {
  path_stack = append_path p.path_stack unixp;
  need_calculation = true;
}

-- `SetUnixPath` for a process whose working directory is `pwd`, which it may calculate. The two
-- getters in its trace calls calculate the path itself. The results are `pwd` and the path.
unfoldable pub set_unix_path :
    KernelTable → UnixPath → UnixPath → Bytes → Option (UnixPath × UnixPath)
set_unix_path kt pwd p path =
    let cleared = record p { path_stack = [] } in
    (if is_absolute path
      then some (pwd, cleared)
      else (get_unix_path kt pwd >>= λ (pwd', base). some (pwd', append_unix_path cleared base)))
    >>= λ (pwd', q). calculated kt (append_unix_path q path) >>= λ r. some (pwd', r)

-- `MountPoint::Mount` adds to the end of the table.
unfoldable pub mount : KernelTable → MountPoint → KernelTable
mount kt mp = record kt { mount_points = kt.mount_points ++ mp ∷ [] }

-- The search of `sys_umount`: the table without the last mount on the target, if there is one.
unfoldable pub remove_last_mount : List MountPoint → List Bytes → Option (List MountPoint)
remove_last_mount [] target = none
remove_last_mount (mp ∷ rest) target = elim (remove_last_mount rest target) [
  | some left ↦ some (mp ∷ left)
  | none ↦ if equals_path mp.unix_mount_point target then some rest else none
]

unfoldable pub umount : KernelTable → List Bytes → Option KernelTable
umount kt target =
    remove_last_mount kt.mount_points target >>= λ left. some (record kt { mount_points = left })
