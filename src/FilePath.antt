-- ===== src/FilePath.antt =====
-- Unix paths as stacks of elements: keow-kernel/KeowKernel/Path.cpp, without the mount points.
-- A string is the list of its bytes (see Text for the class that holds them).
pub mod Pieces
pub mod Canonical
mod Tests
use Prim.Native.Nat.{Ordering}
use keow.Prelude.{
  ℕ, zero, suc, ◌+◌, ◌-◌, Bool, true, false, not, ◌||◌, List, [], ◌∷◌, ◌++◌, Option, none, some,
  ltb, ◌==◌, if◌then◌else◌, length, take, drop,
}
use keow.Text.{strcmp, find_from}

abbrev pub Bytes : Type 0
Bytes = List ℕ

abbrev pub slash : ℕ
slash = b'/'

abbrev pub dot : Bytes
dot = b'.' ∷ []

abbrev pub dot_dot : Bytes
dot_dot = b'.' ∷ b'.' ∷ []

-- `compare(...) == 0` and `operator ==` of the string class.
unfoldable pub same : Bytes → Bytes → Bool
unfolding strcmp
same a b = elim (strcmp a b) [ Ordering.eq ↦ true | _ ↦ false ]

abbrev pub is_nil : Bytes → Bool
is_nil [] = true
is_nil (c ∷ cs) = false

-- `path[0] == '/'`; the empty string reads as NUL.
abbrev pub is_absolute : Bytes → Bool
is_absolute [] = false
is_absolute (c ∷ cs) = c == slash

-- `pop_back` of a list that may be empty.
unfoldable pub pop_back : List Bytes → List Bytes
pop_back [] = []
pop_back (e ∷ []) = []
pop_back (e ∷ d ∷ es) = e ∷ pop_back (d ∷ es)

-- What one round of `AppendPath` does with an element.
unfoldable pub push_element : List Bytes → Bytes → List Bytes
unfolding same pop_back
push_element lst element =
    if same element dot
    then lst
    else if same element dot_dot
    then pop_back lst
    else if is_nil element
    then lst
    else lst ++ element ∷ []

-- The loop of `AppendPath` from a position. Each round but the last moves behind a slash, so one
-- round more than there are bytes is enough.
unfoldable pub append_from : ℕ → Bytes → ℕ → List Bytes → List Bytes
unfolding push_element find_from
append_from zero unixp pos lst = lst
append_from (suc rounds) unixp pos lst = elim (find_from slash (drop pos unixp) pos) [
  | none ↦ push_element lst (drop pos unixp)
  | some next_pos ↦
      append_from rounds unixp (next_pos + 1)
        (push_element lst (take (next_pos - pos) (drop pos unixp)))
]

unfoldable pub append_path : List Bytes → Bytes → List Bytes
unfolding append_from
append_path lst unixp =
    append_from (length unixp + 1) unixp 0 (if is_absolute unixp then [] else lst)

-- The loop of `JoinList` with the text so far.
unfoldable pub join_from : Bytes → List Bytes → ℕ → Bytes
join_from final [] delimiter = final
join_from final (element ∷ rest) delimiter =
    join_from ((if is_nil final then final else final ++ delimiter ∷ []) ++ element) rest delimiter

unfoldable pub join_list : List Bytes → ℕ → Bytes
unfolding join_from
join_list lst delimiter = join_from [] lst delimiter

unfoldable pub get_element_count : List Bytes → ℕ
get_element_count stack = length stack

-- `GetUnixPathElement`: the empty string past the end.
unfoldable pub get_unix_path_element : List Bytes → ℕ → Bytes
get_unix_path_element [] count = []
get_unix_path_element (element ∷ rest) zero = element
get_unix_path_element (element ∷ rest) (suc count) = get_unix_path_element rest count

-- The first n elements of two stacks, pairwise. The callers see to it that both have n.
unfoldable pub same_first : ℕ → List Bytes → List Bytes → Bool
unfolding same
same_first zero this other = true
same_first (suc n) [] other = false
same_first (suc n) (a ∷ as') [] = false
same_first (suc n) (a ∷ as') (b ∷ bs) = if same a b then same_first n as' bs else false

unfoldable pub equals_partial_path : List Bytes → List Bytes → ℕ → Bool
unfolding same_first
equals_partial_path this other n =
    if not (n == length this) || ltb (length other) n then false else same_first n this other

-- `operator ==` of paths.
unfoldable pub equals_path : List Bytes → List Bytes → Bool
unfolding equals_partial_path
equals_path this other = equals_partial_path this other (length other)
