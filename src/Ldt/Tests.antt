-- ===== src/Ldt/Tests.antt =====
-- A table with one entry of thread 5 at 16, one with a marker there, and an empty one.
use keow.Prelude.{
  ℕ, zero, suc, ◌-◌, ◌^◌, ◌≡◌, ◌⊎◌, ◌∙◌, refl, List, [], ◌∷◌, none, some, arith, true, false, Bool,
  length, get_elem?, set, length-set,
}
use keow.Ldt.{
  UserDesc, LdtData, LdtEntry, Ldt, search, first_index, is_free, is_own,
  calculate_ldt_entry_for_thread, sys_set_thread_area, sys_get_thread_area, allowed_limit,
  max_limit,
}
use keow.Ldt.Isolation.{calculate_isolated, KeepsHeld, IsOwnOrMarker}
use keow.Ldt.ThreadArea.{get-set_thread_area}

abbrev any_entry : UserDesc
any_entry = record {
  entry_number = 2 ^ 32 - 1;
  base_addr = 1073745920;
  limit = 1048575;
  seg_32bit = true;
  contents = 0;
  read_exec_only = false;
  limit_in_pages = true;
  seg_not_present = false;
  useable = true;
}

abbrev sixteen : UserDesc
sixteen = record any_entry { entry_number = 16 }

abbrev unused : LdtData
unused = record { allocating_thread = 0; is_really_ldt = false; user_desc = any_entry }

abbrev of_five : LdtData
of_five = record unused { allocating_thread = 5 }

abbrev marker : LdtData
marker = record unused { allocating_thread = 2 ^ 32 - 1; is_really_ldt = true }

blank : ℕ → List LdtData
blank zero = []
blank (suc n) = unused ∷ blank n

length-blank : (n : ℕ) → length (blank n) ≡ n
unfolding blank
length-blank zero = refl
length-blank (suc n) = omega (arith, length-blank n)

abbrev empty_ldt : Ldt
empty_ldt = record { entries = blank 8192; written = [] }

abbrev ldt_of_five : Ldt
ldt_of_five = record { entries = set (blank 8192) 16 of_five; written = [] }

abbrev accept_all : ℕ → LdtEntry → Bool
accept_all index e = true

-- The limit of the whole address space is cut to the pages below Windows' bound.
allowed_limit_test : allowed_limit any_entry ≡ 262126
unfolding allowed_limit max_limit
allowed_limit_test = refl

search_test : search is_free (blank 8192) ≡ some 16
unfolding search first_index blank
search_test = refl

five_there : get_elem? (set (blank 8192) 16 of_five) 16 ≡ some of_five
unfolding blank
five_there = refl

marker_there : get_elem? (set (blank 8192) 16 marker) 16 ≡ some marker
unfolding blank
marker_there = refl

calculate_isolated_example :
    (t' : List LdtData) × (i : ℕ) × (calculate_ldt_entry_for_thread
        (set (blank 8192) 16 of_five)
        6
        16
      ≡ some (t', i))
    × (length t' ≡ length (set (blank 8192) 16 of_five))
    × KeepsHeld (set (blank 8192) 16 of_five) t'
    × ((i ≡ 0) ⊎ IsOwnOrMarker t' 6 i)
calculate_isolated_example =
    calculate_isolated (set (blank 8192) 16 of_five) 6 16
      (length-set (blank 8192) 16 of_five ∙ length-blank 8192)

-- Two entries are enough to see the lookup of a marker: it is at 16, and 17 is free.
abbrev with_marker : List LdtData
with_marker = set (blank 18) 16 marker

nothing_own : search (is_own 6 16) with_marker ≡ none
unfolding search first_index blank
nothing_own = refl

seventeen_free : search is_free with_marker ≡ some 17
unfolding search first_index blank
seventeen_free = refl

marker_stands : get_elem? with_marker 16 ≡ some marker
unfolding blank
marker_stands = refl

get-set_thread_area_example :
    (l' : Ldt) × (sys_set_thread_area accept_all empty_ldt 5 any_entry ≡ some (l', 0, some sixteen))
    × (sys_get_thread_area accept_all l' 5 sixteen ≡ some (l', 0, some sixteen))
get-set_thread_area_example =
    get-set_thread_area accept_all empty_ldt 5 16 any_entry (length-blank 8192) refl search_test
      refl
