-- ===== src/StaticTree.antt =====
-- The tree of patterns behind /proc: keow-kernel/KeowKernel/FilesystemGenericStatic.cpp, and the
-- additions of the constructor of FilesystemProc.cpp.
pub mod Children
pub mod Typing
pub mod Additions
pub mod Finding
pub mod Trees
mod Tests
use keow.Prelude.{
  ℕ, zero, suc, ◌+◌, Bool, true, false, not, ◌&&◌, List, [], ◌∷◌, ◌++◌, Option, none, some, ◌==◌,
  if◌then◌else◌, ◌>>=◌, get_elem?, map,
}
use keow.FilePath.{Bytes, same, append_path}

-- "*".
abbrev pub star : Bytes
star = b'*' ∷ []

-- GetHandlerProc0, 1 or 2 of the union, by the type that it was stored with. `I` is what a handler
-- returns; the first argument is the path.
pub data FileHandler (I : Type 0) : Type 0 where
  no_handler : FileHandler I
  handler0 : (Bytes → I) → FileHandler I
  handler1 : (Bytes → Bytes → I) → FileHandler I
  handler2 : (Bytes → Bytes → Bytes → I) → FileHandler I

-- Lister0 or Lister1 of the union, with the entries that it lists.
pub data Lister (E : Type 0) : Type 0 where
  no_lister : Lister E
  lister0 : List E → Lister E
  lister1 : (Bytes → List E) → Lister E

pub record Info (I : Type 0) (E : Type 0) : Type 0 where
  pub num_params : ℕ
  pub handler : FileHandler I
  pub lister : Lister E

-- A list of nodes: the pattern of the first, what it holds, its own children, and the nodes after it.
pub data Nodes (I : Type 0) (E : Type 0) : Type 0 where
  nil : Nodes I E
  cons : Bytes → Info I E → Nodes I E → Nodes I E → Nodes I E

-- A node without its pattern.
pub record Node (I : Type 0) (E : Type 0) : Type 0 where
  pub info : Info I E
  pub children : Nodes I E

-- What CreateIOHandler comes to: NULL, what the handler returns, a directory object with its entries,
-- or a fault, which is a read past the wildcards or a call through a wrong or NULL pointer.
pub data Created (I : Type 0) (E : Type 0) : Type 0 where
  fault : Created I E
  null : Created I E
  handled : I → Created I E
  directory : List E → Created I E

abbrev pub handler_params : {I : Type 0} → FileHandler I → ℕ
handler_params no_handler = 0
handler_params (handler0 f) = 0
handler_params (handler1 f) = 1
handler_params (handler2 f) = 2

abbrev pub lister_params : {E : Type 0} → Lister E → ℕ
lister_params no_lister = 0
lister_params (lister0 es) = 0
lister_params (lister1 f) = 1

abbrev pub has_lister : {E : Type 0} → Lister E → Bool
has_lister no_lister = false
has_lister (lister0 es) = true
has_lister (lister1 f) = true

module _ {I E : Type 0} where
  unfoldable pub new_info : Info I E
  new_info = record { num_params = 0; handler = no_handler; lister = no_lister }

  unfoldable pub new_node : Node I E
  unfolding new_info
  new_node = record { info = new_info; children = nil }

  unfoldable pub push_back : Nodes I E → Bytes → Info I E → Nodes I E
  push_back nil pattern i = cons pattern i nil nil
  push_back (cons p j children rest) pattern i = cons p j children (push_back rest pattern i)

  -- The first child with a pattern, or a new one at the end, is where the walk goes on.
  unfoldable pub at_child : Bytes → (Node I E → Node I E) → Nodes I E → Nodes I E
  unfolding new_node
  at_child want go nil = let n = go new_node in cons want n.info n.children nil
  at_child want go (cons p i children rest) =
      let n = go (record { info = i; children = children }) in
      let later = at_child want go rest in
      if same p want then cons p n.info n.children rest else cons p i children later

  -- `AddFileInternal`: the last element is a new leaf. A pattern with no element adds an empty one.
  unfoldable pub add_file_internal : Info I E → List Bytes → Node I E → Node I E
  unfolding push_back at_child
  add_file_internal leaf [] n = record n { children = push_back n.children [] leaf }
  add_file_internal leaf (e ∷ []) n = record n { children = push_back n.children e leaf }
  add_file_internal leaf (e ∷ d ∷ es) n = record n {
    children = at_child e (add_file_internal leaf (d ∷ es)) n.children;
  }

  unfoldable pub add_lister_internal : ℕ → Lister E → List Bytes → Node I E → Node I E
  unfolding at_child
  add_lister_internal wildcards l [] n = record n {
    info = record n.info { num_params = wildcards; lister = l };
  }
  add_lister_internal wildcards l (e ∷ es) n = record n {
    children = at_child e (add_lister_internal wildcards l es) n.children;
  }

  -- The overloads of `AddFile` and `AddLister`, on the elements of the pattern.
  unfoldable pub add_file : List Bytes → FileHandler I → Node I E → Node I E
  unfolding add_file_internal
  add_file pattern h =
      add_file_internal (record { num_params = handler_params h; handler = h; lister = no_lister })
        pattern

  unfoldable pub add_lister : List Bytes → Lister E → Node I E → Node I E
  unfolding add_lister_internal
  add_lister pattern l = add_lister_internal (lister_params l) l pattern

  -- The search for an element among the children, with what it has found so far.
  unfoldable pub find_child :
      Bytes → Nodes I E → Option (Bytes × Node I E) → Option (Bytes × Node I E)
  find_child want nil found = found
  find_child want (cons p i children rest) found =
      let this : Option (Bytes × Node I E) = some (p, record { info = i; children = children }) in
      let later = find_child want rest (if same p star then this else found) in
      if same p want then this else later

  -- The walk down the tree with the wildcards so far; `none` is the NULL of an element without a match.
  unfoldable pub find_node : List Bytes → Node I E → List Bytes → Option (Node I E × List Bytes)
  unfolding find_child
  find_node [] n wildcards = some (n, wildcards)
  find_node (want ∷ rest) n wildcards = find_child want n.children none >>= λ found.
      find_node rest found.1 (if same found.0 star then wildcards ++ want ∷ [] else wildcards)

  abbrev pub is_empty : Nodes I E → Bool
  is_empty nil = true
  is_empty (cons p i children rest) = false

  abbrev pub call0 : Bytes → FileHandler I → Created I E
  call0 path (handler0 f) = handled (f path)
  call0 path _ = fault

  abbrev pub call1 : Bytes → FileHandler I → Option Bytes → Created I E
  call1 path (handler1 f) (some a) = handled (f path a)
  call1 path _ _ = fault

  abbrev pub call2 : Bytes → FileHandler I → Option Bytes → Option Bytes → Created I E
  call2 path (handler2 f) (some a) (some b) = handled (f path a b)
  call2 path _ _ _ = fault

  -- The switch on NumParams for a file.
  unfoldable pub call_handler : Bytes → Info I E → List Bytes → Created I E
  call_handler path i wildcards =
      if i.num_params == 0
      then call0 path i.handler
      else if i.num_params == 1
      then call1 path i.handler (get_elem? wildcards 0)
      else if i.num_params == 2
      then call2 path i.handler (get_elem? wildcards 0) (get_elem? wildcards 1)
      else null

  abbrev pub list0 : List E → Lister E → Created I E
  list0 names (lister0 es) = directory (names ++ es)
  list0 names _ = fault

  abbrev pub list1 : List E → Lister E → Option Bytes → Created I E
  list1 names (lister1 f) (some a) = directory (names ++ f a)
  list1 names _ _ = fault

  unfoldable pub call_lister : List E → Info I E → List Bytes → Created I E
  call_lister names i wildcards =
      if not (has_lister i.lister)
      then directory names
      else if i.num_params == 0
      then list0 names i.lister
      else if i.num_params == 1
      then list1 names i.lister (get_elem? wildcards 0)
      else null

  -- The names among the children; `entry` makes the dirent64 of a name.
  unfoldable pub child_entries : (Bytes → E) → Nodes I E → List E
  child_entries entry nil = []
  child_entries entry (cons p i children rest) =
      let later = child_entries entry rest in if same p star then later else entry p ∷ later

  abbrev pub is_file : Node I E → Bool
  is_file n = is_empty n.children && not (has_lister n.info.lister)

  unfoldable pub open_node : (Bytes → E) → Bytes → Node I E × List Bytes → Created I E
  unfolding call_handler call_lister child_entries
  open_node entry path (n, wildcards) =
      if is_file n
      then call_handler path n.info wildcards
      else call_lister (child_entries entry n.children) n.info wildcards

  -- `CreateIOHandler`; `elements` are those of the path within the filesystem.
  unfoldable pub create_io_handler : (Bytes → E) → Node I E → Bytes → List Bytes → Created I E
  unfolding find_node open_node
  create_io_handler entry root path elements = elim (find_node elements root []) [
    | none ↦ null
    | some found ↦ open_node entry path found
  ]
