-- ===== src/Ldt/ThreadArea.antt =====
-- set_thread_area and get_thread_area.
use keow.Prelude.{
  ℕ, ◌<◌, ◌-◌, ◌≡◌, refl, Bool, true, false, some, arith, ◌==◌, get_elem?, set, length,
  get_elem?-set_self, get_elem?-length,
}
use keow.Errno.{word}
use keow.Ldt.{
  LdtData, UserDesc, Ldt, LdtEntry, search, is_free, allocated, allocate_ldt_selector,
  max_ldt_entries, set_ldt_selector, store, to_ldt_entry, chosen_entry, sys_set_thread_area,
  sys_get_thread_area,
}
use keow.Ldt.Search.{search-Found}
use keow.Ldt.Allocation.{IsIndex}
use keow.Ldt.RoundTrip.{calculate_own, get-set_ldt_selector}

module _ (accepts : ℕ → LdtEntry → Bool) where
  pub set_own :
      (l : Ldt) (thread : ℕ) (u : UserDesc) (b : Bool) (d : LdtData)
      → IsIndex u.entry_number
      → get_elem? l.entries u.entry_number ≡ some d
      → d.allocating_thread ≡ thread
      → accepts u.entry_number (to_ldt_entry u) ≡ true
      → set_ldt_selector accepts l thread u b ≡ some (store accepts l u.entry_number d u b, true)
  unfolding set_ldt_selector
  set_own l thread u b d index at mine accepted =
      let real : (u.entry_number == 0) ≡ false = ground (arith, index) in
      rw (calculate_own l.entries thread u.entry_number d index at mine, real, at, accepted) refl

  chosen_any :
      (l : Ldt) (thread i : ℕ) (u : UserDesc) (d : LdtData)
      → u.entry_number ≡ word - 1
      → search is_free l.entries ≡ some i
      → get_elem? l.entries i ≡ some d
      → chosen_entry accepts l thread u
        ≡ some (
          record l {
            entries =
                set l.entries i (record d { allocating_thread = thread; is_really_ldt = false });
          },
          record u { entry_number = i },
        )
  unfolding chosen_entry allocate_ldt_selector allocated
  chosen_any l thread i u d any free at =
      let asked : (u.entry_number == word - 1) ≡ true = ground (arith, any) in
      rw (asked, free, at) refl

  -- On a table of 8192 entries, asked for any entry (-1), `set_thread_area` takes the first usable entry that is free, if Windows
  -- accepts the descriptor there: it returns 0 and writes the entry's number back, and
  -- `get_thread_area` of that number then returns 0 and the same descriptor.
  pub get-set_thread_area :
      (l : Ldt) (thread i : ℕ) (u : UserDesc)
      → length l.entries ≡ max_ldt_entries
      → u.entry_number ≡ word - 1
      → search is_free l.entries ≡ some i
      → accepts i (to_ldt_entry (record u { entry_number = i })) ≡ true
      → (l' : Ldt) × (sys_set_thread_area accepts l thread u
          ≡ some (l', 0, some (record u { entry_number = i })))
        × (sys_get_thread_area accepts l' thread (record u { entry_number = i })
            ≡ some (l', 0, some (record u { entry_number = i })))
  unfolding sys_set_thread_area sys_get_thread_area
  get-set_thread_area l thread i u size any free accepted =
      let (d, f) = search-Found is_free l.entries i free in
      let d' : LdtData = record d { allocating_thread = thread; is_really_ldt = false } in
      let l1 : Ldt = record l { entries = set l.entries i d' } in
      let u' : UserDesc = record u { entry_number = i } in
      let inside : i < length l.entries = get_elem?-length l.entries i f.at in
      let index : IsIndex i = (omega (arith, f.usable), omega (arith, inside, size)) in
      let at : get_elem? l1.entries i ≡ some d' = get_elem?-set_self l.entries i d' inside in
      let ran = set_own l1 thread u' false d' index at refl accepted in
      let back = get-set_ldt_selector accepts l1 _ thread u' u' false d' index at refl refl ran in
      (
        store accepts l1 i d' u' false,
        rw (chosen_any l thread i u d any free f.at, sys_set_thread_area, ran) refl,
        rw back refl,
      )
