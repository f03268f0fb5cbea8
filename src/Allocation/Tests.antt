-- ===== src/Allocation/Tests.antt =====
-- An address space whose regions are single pages.
use keow.Prelude.{
  ltb, lt→ltb, none, ◌-◌, ◌^◌, ℕ, ◌+◌, ◌*◌, ◌/◌, ◌<◌, ◌≤◌, ◌≡◌, ◌⊎◌, refl, ap, true, [], ◌∷◌, some,
  if◌then◌else◌, arith,
}
use keow.Allocation.{
  PageState, free, reserved, committed, VirtualMemory, page, failed, Owner, allocate_mem_process,
  sys_brk,
}
use keow.Allocation.Windows.{IsWindows, within}
use keow.Allocation.Areas.{allocate_mem_process_lem, sys_brk_lem}

abbrev Pages : Type 0
Pages = ℕ → PageState

abbrev become : PageState → Pages → ℕ → ℕ → Pages × ℕ
become st s a n = ((λ p. if within a n p then st else s p), a)

-- The end of the user's part, 2 GB less 64 KB.
abbrev highest : ℕ
highest = 2 ^ 31 - 2 ^ 16

abbrev page_memory : VirtualMemory
page_memory = record {
  Space = Pages;
  stack_mbi = record { base = 0; size = 0; state = free };
  query = λ s a.
      if ltb a highest
      then some (record { base = a / page * page; size = page; state = s (a / page) })
      else none;
  reserve = become reserved;
  commit = become committed;
  decommit = λ s a n. ((λ p. if within a n p then reserved else s p), true);
}

abbrev state_at : Pages → ℕ → PageState
state_at s p = s p

same_page :
    (a p : ℕ) → a / page * page ≤ p * page → p * page < a / page * page + page → p ≡ a / page
same_page a p h k = omega arith

page_memory-IsWindows : IsWindows page_memory state_at
page_memory-IsWindows = record {
  limit = highest;
  limit_within = omega arith;
  region = λ s a. record { base = a / page * page; size = page; state = s (a / page) };
  query_below = λ s a h. rw (lt→ltb a highest h) refl;
  query_within = λ s a h. (omega arith, omega arith, omega (arith, h), omega arith);
  query_aligned = λ s a h. (omega arith, omega arith);
  query_state = λ s a p below h k. ap s (same_page a p h k);
  reserve_lem = λ s a n p positive even whole same. refl;
  commit_lem = λ s a n p positive even whole same. refl;
}

abbrev nothing : Pages
nothing p = free

abbrev owner : Owner Pages
owner = record { space = nothing; allocations = []; brk = 131080 }

allocate_mem_process_lem_example :
    (t : Pages) × (r : ℕ) × (allocate_mem_process page_memory 40 nothing 131080 4096 ≡ some (t, r))
    × ((r ≡ failed) ⊎ ((r ≡ 131080) × (t 33 ≡ committed)))
unfolding page_memory-IsWindows
allocate_mem_process_lem_example =
    allocate_mem_process_lem page_memory state_at page_memory-IsWindows 40 nothing 131080 4096 33
      (omega arith) (omega arith) (omega arith) (λ p. refl) (omega arith) (omega arith)

sys_brk_lem_example :
    (u : Owner Pages) × (r : ℕ) × (sys_brk page_memory 40 owner 135176 ≡ some (u, r))
    × (((r ≡ failed) × (u.brk ≡ 131080))
        ⊎ ((r ≡ 135176)
            × (u.brk ≡ 135176)
            × (u.space 33 ≡ committed)
            × (u.allocations ≡ (131080, 4096) ∷ [])))
unfolding page_memory-IsWindows
sys_brk_lem_example =
    sys_brk_lem page_memory state_at page_memory-IsWindows 40 owner 135176 33 (omega arith)
      (omega arith) (omega arith) (omega arith) (λ p. refl) (omega arith) (omega arith)
