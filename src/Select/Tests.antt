-- ===== src/Select/Tests.antt =====
-- Two open objects, of which the second becomes ready to be read in the second turn.
use keow.Prelude.{
  ℕ, ◌≡◌, refl, true, false, List, [], ◌∷◌, Option, none, some, arith, ◌==◌, length, replicate,
  length-replicate,
}
use keow.Select.{
  FdSets, Pointers, Watch, Selection, fd_setsize, requests, store_results, sys_newselect,
  request_set, fd_zero, is_ready,
}
use keow.Select.Answers.{sys_newselect-forever, sys_newselect-past}

abbrev table : List (Option ℕ)
table = some 5 ∷ some 7 ∷ replicate 1022 none

length-table : length table ≡ fd_setsize
length-table = let empty : Option ℕ = none in omega (arith, length-replicate 1022 empty)

abbrev garbage : FdSets
garbage = record { reads = λ i. true; writes = λ i. true; excepts = λ i. true }

-- Both descriptors are asked for to be read, and no pointer is given for exceptions.
abbrev asking : Pointers
asking = record { read_fds = some (λ i. true); write_fds = some (λ i. false); except_fds = none }

abbrev idle : Watch ℕ
idle = record { can_read = λ o. false; can_write = λ o. true; has_exception = λ o. false }

abbrev input : Watch ℕ
input = record idle { can_read = λ o. o == 7 }

sys_newselect-forever_example :
    (r : FdSets) × (sys_newselect table garbage garbage 2 asking none 100 ((idle, 150) ∷ [])
      ≡ Selection.returned (store_results asking r) 0)
unfolding requests request_set fd_zero is_ready
sys_newselect-forever_example =
    sys_newselect-forever table garbage garbage 2 asking 100 [] idle 150 length-table (omega arith)
      (λ e. absurd (omega (arith, e))) (omega arith) (omega arith) refl

sys_newselect-past_example :
    sys_newselect table garbage garbage 1025 asking none 100 ((idle, 150) ∷ []) ≡ Selection.fault
sys_newselect-past_example =
    sys_newselect-past table garbage garbage 1025 asking none 100 (idle, 150) [] length-table
      (omega arith) refl
