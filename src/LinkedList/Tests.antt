-- ===== src/LinkedList/Tests.antt =====
-- A list of two numbers in a store.
use keow.Prelude.{ℕ, ◌≡◌, refl, List, [], ◌∷◌, none, some, arith, ◌==◌}
use keow.LinkedList.{Store, Linked, put, erase, find, element}
use keow.LinkedList.Ends.{Represents}
use keow.LinkedList.Erasing.{erase-Represents}
use keow.LinkedList.Refinement.{Call, abstract_run, list_run, Simulates, list_run-Simulates}

abbrev two_nodes : Store ℕ
two_nodes = record {
  nodes =
      put 0 (record { prev = none; next = some 1; value = 40 })
        (put 1 (record { prev = some 0; next = none; value = 50 }) (λ p. none));
  fresh = 2;
}

abbrev pair : Linked
pair = record { head = some 0; tail = some 1 }

abbrev cells : List (ℕ × ℕ)
cells = (0, 40) ∷ (1, 50) ∷ []

pair-Represents : Represents two_nodes pair cells
pair-Represents = record {
  head = refl;
  tail = refl;
  chain = (refl, (refl, tt));
  distinct = ((omega arith, tt), (tt, tt));
  below = (omega arith, (omega arith, tt));
}

element_test : element 3 1 pair.head two_nodes ≡ some 50
unfolding element
element_test = refl

find_test : find (λ a b. a == b) 60 3 pair.head two_nodes ≡ some none
unfolding find
find_test = refl

erase-Represents_example :
    (l : Linked) × (s : Store ℕ) × (erase (some 0) pair two_nodes ≡ some (l, s))
    × Represents s l ((1, 50) ∷ [])
    × (s.nodes 0 ≡ none)
erase-Represents_example = erase-Represents pair two_nodes [] ((1, 50) ∷ []) 0 40 pair-Represents

list_run-Simulates_example :
    Simulates
      (λ a b. a == b)
      (abstract_run
        (λ a b. a == b)
        (Call.push 60 ∷ Call.remove 50 ∷ Call.pop ∷ Call.pop ∷ Call.pop ∷ [])
        (40 ∷ 50 ∷ []))
      (list_run
        (λ a b. a == b)
        8
        (Call.push 60 ∷ Call.remove 50 ∷ Call.pop ∷ Call.pop ∷ Call.pop ∷ [])
        pair
        two_nodes)
list_run-Simulates_example =
    list_run-Simulates (λ a b. a == b) 8
      (Call.push 60 ∷ Call.remove 50 ∷ Call.pop ∷ Call.pop ∷ Call.pop ∷ []) pair two_nodes cells
      pair-Represents (omega arith)
