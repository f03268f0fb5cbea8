-- ===== src/StaticTree/Tests.antt =====
-- A tree with a wildcard, and the tree under /dev.
use keow.Prelude.{◌≡◌, ◌≢◌, refl, List, [], ◌∷◌}
use keow.FilePath.{Bytes, append_path}
use keow.StaticTree.{
  handler0, handler1, lister0, Node, fault, null, handled, directory, new_node, add_file,
  add_lister, create_io_handler,
}
use keow.StaticTree.Children.{first_named}
use keow.StaticTree.Additions.{add, stars, Addition, file, list, add_all, create_io_handler-add_all}
use keow.StaticTree.Finding.{node_at, create_io_handler-add_file}
use keow.StaticTree.Trees.{codes}

-- A handler returns the texts that it is called with, and an entry is its name.
abbrev show0 : Bytes → List Bytes
show0 path = path ∷ []

abbrev show1 : Bytes → Bytes → List Bytes
show1 path a = path ∷ a ∷ []

abbrev name : Bytes → Bytes
name b = b

abbrev additions : List (Addition (List Bytes) Bytes)
additions =
    file (codes "/*/stat") (handler1 show1)
    ∷ file (codes "/stat") (handler0 show0)
    ∷ list (codes "/") (lister0 (codes "7" ∷ []))
    ∷ []

abbrev tree : Node (List Bytes) Bytes
tree = add_all new_node additions

wildcard_runs :
    create_io_handler name tree (codes "p") (codes "7" ∷ codes "stat" ∷ [])
    ≡ handled (codes "p" ∷ codes "7" ∷ [])
unfolding add_all add add_lister append_path add_file create_io_handler
wildcard_runs = refl

root_lists : create_io_handler name tree [] [] ≡ directory (codes "stat" ∷ codes "7" ∷ [])
unfolding add_all add add_lister append_path add_file create_io_handler
root_lists = refl

below_a_file : create_io_handler name tree [] (codes "stat" ∷ codes "stat" ∷ []) ≡ null
unfolding add_all add add_lister append_path add_file create_io_handler
below_a_file = refl

create_io_handler-add_all_example :
    create_io_handler name (add_all new_node additions) (codes "p") (codes "7" ∷ codes "stat" ∷ [])
    ≢ fault
unfolding stars append_path
create_io_handler-add_all_example =
    create_io_handler-add_all name (file (codes "/*/stat") (handler1 show1))
      (file (codes "/stat") (handler0 show0) ∷ list (codes "/") (lister0 (codes "7" ∷ [])) ∷ [])
      (refl, refl) ((refl, refl), ((refl, refl), tt)) (codes "p") (codes "7" ∷ codes "stat" ∷ [])

create_io_handler-add_file_example :
    create_io_handler name
      (add_file (codes "9" ∷ codes "stat" ∷ []) (handler0 show0) tree)
      (codes "p")
      (codes "9" ∷ codes "stat" ∷ [])
    ≡ handled (codes "p" ∷ [])
unfolding node_at first_named add_all add add_lister append_path add_file
create_io_handler-add_file_example =
    create_io_handler-add_file name tree (codes "p") (codes "9") (codes "stat" ∷ []) show0 refl
