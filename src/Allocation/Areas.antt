-- ===== src/Allocation/Areas.antt =====
-- An allocation as a whole: AllocateMemAndProtectProcess of keow-kernel/KeowKernel/MemoryHelper.cpp, and
-- the call brk of sys_mem.cpp.
use keow.Prelude.{
  ℕ, [], ◌∷◌, ◌++◌, ◌+◌, ◌-◌, ◌*◌, ◌%◌, ◌<◌, ◌≤◌, ◌≡◌, ◌⊎◌, refl, Bool, true, false, some, ltb,
  ◌==◌, if◌then◌else◌, arith, inl, inr,
}
use keow.Errno.{word}
use keow.Allocation.{
  sys_brk, allocate_mem, moved_brk, Owner, minus, PageState, free, reserved, committed, Region,
  VirtualMemory, block, page, failed, round_down, allocate_parts, allocate_at, first_address,
  allocate_mem_process,
}
use keow.Allocation.Windows.{IsWindows}
use keow.Allocation.Reserving.{is_free_false, IsBlocked, Reserved, reserve_parts}
use keow.Allocation.Loops.{NoneFree, Committed, Finished, commit_parts}

module _ (memory : VirtualMemory) (state_at : memory.Space → ℕ → PageState)
    (windows : IsWindows memory state_at) where
  open memory use {Space}

  Reserved-NoneFree :
      (s t : Space) (at from end : ℕ)
      → Reserved memory state_at windows s t at end
      → at ≤ from
      → NoneFree memory state_at windows t from end
  Reserved-NoneFree s t at from end r le p h k =
      is_free_false (state_at t p) (r.inside p (omega (arith, le, h)) k)

  -- The two loops of an allocation at an address.
  allocate_at_lem :
      (fuel : ℕ) (s : Space) (addr size p : ℕ)
      → block ≤ addr
      → addr + size + block ≤ windows.limit
      → size + 2 * block ≤ fuel * page
      → IsBlocked memory state_at windows s
      → addr < p * page + page
      → p * page < addr + size
      → (t : Space) × (r : ℕ) × (allocate_at memory fuel s addr size ≡ some (t, r))
        × ((r ≡ failed) ⊎ ((r ≡ addr) × (state_at t p ≡ committed)))
  unfolding allocate_at
  allocate_at_lem fuel s addr size p low room enough blocked starts stops =
      let end : (addr + size) % word ≡ addr + size = omega (arith, room, windows.limit_within) in
      let (t, ok, mbi, ran, done) =
        reserve_parts memory state_at windows fuel s memory.stack_mbi (round_down block addr)
          (addr + size) (omega (arith, low)) (omega arith) room (omega arith)
          (omega (arith, enough)) blocked in
      by_first t ok mbi ran end done
    where
      mapped :
          (t u : Space) (ok : Bool)
          → Finished memory state_at windows
              (λ v. Committed memory state_at windows t v (round_down page addr) (addr + size))
              u
              ok
          → ((if ok then addr else failed) ≡ failed)
            ⊎ (((if ok then addr else failed) ≡ addr) × (state_at u p ≡ committed))
      mapped t u ok (inl e) = inl (rw e refl)
      mapped t u ok (inr (e, c)) = inr (rw e refl, c.inside p (omega (arith, starts)) stops)

      by_second :
          (t u : Space) (mbi last : Region) (ok : Bool)
          → allocate_parts memory block free memory.reserve fuel s memory.stack_mbi
              (round_down block addr)
              (addr + size)
            ≡ some (t, mbi, true)
          → allocate_parts memory page reserved memory.commit fuel t mbi
              (round_down page addr)
              (addr + size)
            ≡ some (u, last, ok)
          → (addr + size) % word ≡ addr + size
          → Finished memory state_at windows
              (λ v. Committed memory state_at windows t v (round_down page addr) (addr + size))
              u
              ok
          → (v : Space) × (r : ℕ) × (allocate_at memory fuel s addr size ≡ some (v, r))
            × ((r ≡ failed) ⊎ ((r ≡ addr) × (state_at v p ≡ committed)))
      by_second t u mbi last ok first second end done =
          (u, if ok then addr else failed, rw end (rw first (rw second refl)), mapped t u ok done)

      by_first :
          (t : Space) (ok : Bool) (mbi : Region)
          → allocate_parts memory block free memory.reserve fuel s memory.stack_mbi
              (round_down block addr)
              (addr + size)
            ≡ some (t, mbi, ok)
          → (addr + size) % word ≡ addr + size
          → Finished memory state_at windows
              (λ v. Reserved memory state_at windows s v (round_down block addr) (addr + size))
              t
              ok
          → (v : Space) × (r : ℕ) × (allocate_at memory fuel s addr size ≡ some (v, r))
            × ((r ≡ failed) ⊎ ((r ≡ addr) × (state_at v p ≡ committed)))
      by_first t false mbi first end done = (t, failed, rw end (rw first refl), inl refl)
      by_first t true mbi first end (inl e) = cc
      by_first t true mbi first end (inr (e, r)) =
          let none_free =
            Reserved-NoneFree s t (round_down block addr) (round_down page addr) (addr + size) r
              (omega arith) in
          let (u, ok, last, second, done) =
            commit_parts memory state_at windows fuel t mbi (round_down page addr) (addr + size)
              (omega (arith, low)) (omega arith) room (omega arith) (omega (arith, enough))
              none_free in
          by_second t u mbi last ok first second end done

  -- Under the documented behaviour of the pages of Windows: if what is reserved is whole blocks of
  -- 64 KB, the address is not in the first of them, and the area
  -- ends a block before the end of the user's part of the address space, then with fuel for the pages of the area and of
  -- two blocks AllocateMemAndProtectProcess comes to an end. Its result is -1, or it is the address and
  -- each page that the area touches is committed.
  pub allocate_mem_process_lem :
      (fuel : ℕ) (s : Space) (addr size p : ℕ)
      → block ≤ addr
      → addr + size + block ≤ windows.limit
      → size + 2 * block ≤ fuel * page
      → IsBlocked memory state_at windows s
      → addr < p * page + page
      → p * page < addr + size
      → (t : Space) × (r : ℕ) × (allocate_mem_process memory fuel s addr size ≡ some (t, r))
        × ((r ≡ failed) ⊎ ((r ≡ addr) × (state_at t p ≡ committed)))
  unfolding allocate_mem_process first_address
  allocate_mem_process_lem fuel s addr size p low room enough blocked starts stops =
      let given : (addr == 0) ≡ false = ground (arith, low) in
      let (t, r, ran, done) =
        allocate_at_lem fuel s addr size p low room enough blocked starts stops in
      (t, r, rw given ran, done)

  -- Under the documented behaviour of the pages of Windows: if what is reserved is whole blocks of
  -- 64 KB, the break is not in the first of them, the new break
  -- is above it and stays a block below the end of the user's part of the address space, then with fuel for the pages
  -- between and of two blocks brk comes to an end. It fails with -1 and leaves the break as it was, or
  -- it returns the new break and sets it, has recorded the area between, and each page that the area
  -- touches is committed.
  pub sys_brk_lem :
      (fuel : ℕ) (o : Owner Space) (new_brk p : ℕ)
      → block ≤ o.brk
      → o.brk < new_brk
      → new_brk + block ≤ windows.limit
      → new_brk - o.brk + 2 * block ≤ fuel * page
      → IsBlocked memory state_at windows o.space
      → o.brk < p * page + page
      → p * page < new_brk
      → (u : Owner Space) × (r : ℕ) × (sys_brk memory fuel o new_brk ≡ some (u, r))
        × (((r ≡ failed) × (u.brk ≡ o.brk))
            ⊎ ((r ≡ new_brk)
                × (u.brk ≡ new_brk)
                × (state_at u.space p ≡ committed)
                × (u.allocations ≡ o.allocations ++ (o.brk, new_brk - o.brk) ∷ [])))
  unfolding sys_brk allocate_mem moved_brk
  sys_brk_lem fuel o new_brk p low grows room enough blocked starts stops =
      let nonzero : (new_brk == 0) ≡ false = ground (arith, grows) in
      let not_below : ltb new_brk o.brk ≡ false = ground (arith, grows) in
      let above : ltb o.brk new_brk ≡ true = ground (arith, grows) in
      let size : minus new_brk o.brk ≡ new_brk - o.brk =
        omega (arith, grows, room, windows.limit_within) in
      let (t, r, ran, done) =
        allocate_mem_process_lem fuel o.space o.brk (new_brk - o.brk) p low
          (omega (arith, grows, room)) enough blocked starts (omega (arith, stops, grows)) in
      by_result t r nonzero not_below above size ran done
    where
      by_result :
          (t : Space) (r : ℕ)
          → (new_brk == 0) ≡ false
          → ltb new_brk o.brk ≡ false
          → ltb o.brk new_brk ≡ true
          → minus new_brk o.brk ≡ new_brk - o.brk
          → allocate_mem_process memory fuel o.space o.brk (new_brk - o.brk) ≡ some (t, r)
          → ((r ≡ failed) ⊎ ((r ≡ o.brk) × (state_at t p ≡ committed)))
          → (u : Owner Space) × (k : ℕ) × (sys_brk memory fuel o new_brk ≡ some (u, k))
            × (((k ≡ failed) × (u.brk ≡ o.brk))
                ⊎ ((k ≡ new_brk)
                    × (u.brk ≡ new_brk)
                    × (state_at u.space p ≡ committed)
                    × (u.allocations ≡ o.allocations ++ (o.brk, new_brk - o.brk) ∷ [])))
      by_result t r nonzero not_below above size ran (inl e) =
          let bad : (r == failed) ≡ true = ground (arith, e) in
          (
            record o { space = t },
            failed,
            rw (nonzero, not_below, above, size, ran, bad) refl,
            inl (refl, refl),
          )
      by_result t r nonzero not_below above size ran (inr (e, state)) =
          let good : (r == failed) ≡ false = ground (arith, e, grows, room, windows.limit_within) in
          (
            record o {
              space = t;
              brk = new_brk;
              allocations = o.allocations ++ (r, new_brk - o.brk) ∷ [];
            },
            new_brk,
            rw (nonzero, not_below, above, size, ran, good) refl,
            inr (refl, refl, state, rw e refl),
          )
