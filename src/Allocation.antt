-- ===== src/Allocation.antt =====
-- The allocation of a process's memory: AllocateMemAndProtectProcess, AllocateMemAndProtect and
-- DeallocateMemory of keow-kernel/KeowKernel/MemoryHelper.cpp, and the call brk of sys_mem.cpp.
pub mod Windows
pub mod Loops
pub mod Reserving
pub mod Areas
mod Tests
use keow.Prelude.{
  ℕ, zero, suc, ◌+◌, ◌-◌, ◌*◌, ◌/◌, ◌%◌, ◌^◌, Bool, true, false, not, ◌&&◌, ◌||◌, List, [], ◌∷◌,
  ◌++◌, Option, none, some, ltb, leb, ◌==◌, if◌then◌else◌, ◌>>=◌,
}
use keow.Errno.{word, negative, Win32Error, win32_err_to_unix_error}

-- MEM_FREE, MEM_RESERVE and MEM_COMMIT.
pub data PageState : Type 0 where
  free reserved committed : PageState

-- The part of MEMORY_BASIC_INFORMATION that the code reads.
pub record Region : Type 0 where
  pub base : ℕ
  pub size : ℕ
  pub state : PageState

-- VirtualQueryEx, VirtualAllocEx and VirtualFreeEx on the address space of a process. A query that
-- fails writes no region; an allocation returns its address, or 0. `stack_mbi` is what the local mbi
-- holds before the first query.
pub record VirtualMemory : Type 1 where
  pub Space : Type 0
  pub stack_mbi : Region
  pub query : Space → ℕ → Option Region
  pub reserve : Space → ℕ → ℕ → Space × ℕ
  pub commit : Space → ℕ → ℕ → Space × ℕ
  pub decommit : Space → ℕ → ℕ → Space × Bool

abbrev pub block : ℕ
block = 2 ^ 16

abbrev pub page : ℕ
page = 2 ^ 12

abbrev pub failed : ℕ
failed = word - 1

-- A difference of DWORDs.
abbrev pub minus : ℕ → ℕ → ℕ
minus a b = (a + (word - b)) % word

-- `(n + unit-1) & ~(unit-1)`, for a unit that is a power of two.
abbrev pub round_up : ℕ → ℕ → ℕ
round_up unit n = (n + (unit - 1)) % word / unit * unit

abbrev pub round_down : ℕ → ℕ → ℕ
round_down unit n = n / unit * unit

abbrev pub is_in : PageState → PageState → Bool
is_in free free = true
is_in reserved reserved = true
is_in committed committed = true
is_in a b = false

-- How far a round goes: to the end of the area or of the region, rounded up.
unfoldable pub part_len : ℕ → ℕ → ℕ → Region → ℕ
part_len unit at end r =
    let len = minus end at in
    let rest = minus r.size (minus at r.base) in round_up unit (if ltb rest len then rest else len)

-- The code does not look at whether the query failed, and then goes on with the region of the last.
unfoldable pub queried : Region → Option Region → Region
queried mbi none = mbi
queried mbi (some r) = r

module _ (memory : VirtualMemory) where
  open memory use {Space}

  -- What a round does with the part it is at: where the region has the state `from` it calls
  -- VirtualAllocEx, and the test is whether that returned the address.
  unfoldable pub allocate_part :
      PageState → (Space → ℕ → ℕ → Space × ℕ) → Space → ℕ → ℕ → PageState → Space × Bool
  allocate_part from allocate s at len state =
      if is_in from state then (let (s', p) = allocate s at len in (s', p == at)) else (s, true)

  -- The two loops, which differ in the unit, in the state that they look for, and in what they ask for:
  -- `while(tmp < end_addr)`. The results are the space, the last region, and `false` for the return of -1;
  -- `none` is fuel that ran out.
  unfoldable pub allocate_parts :
      ℕ
      → PageState
      → (Space → ℕ → ℕ → Space × ℕ)
      → ℕ
      → Space
      → Region
      → ℕ
      → ℕ
      → Option (Space × Region × Bool)
  unfolding allocate_part part_len queried
  allocate_parts unit from allocate zero s mbi at end = none
  allocate_parts unit from allocate (suc fuel) s mbi at end =
      let r = queried mbi (memory.query s at) in
      let len = part_len unit at end r in
      let done = allocate_part from allocate s at len r.state in
      let rest = allocate_parts unit from allocate fuel done.0 r ((at + len) % word) end in
      if ltb at end then (if done.1 then rest else some (done.0, r, false)) else some (s, mbi, true)

  -- With no address the first reservation finds one.
  unfoldable pub first_address : Space → ℕ → ℕ → Space × ℕ
  first_address s addr size = if addr == 0 then memory.reserve s 0 size else (s, addr)

  unfoldable pub allocate_at : ℕ → Space → ℕ → ℕ → Option (Space × ℕ)
  unfolding allocate_parts
  allocate_at fuel s addr size =
      let end = (addr + size) % word in
      allocate_parts block free memory.reserve fuel s memory.stack_mbi (round_down block addr) end
      >>= λ reserved_to.
          if reserved_to.2
          then (allocate_parts page reserved memory.commit fuel reserved_to.0 reserved_to.1
                (round_down page addr) end
              >>= λ committed_to. some (committed_to.0, if committed_to.2 then addr else failed))
          else some (reserved_to.0, failed)

  -- AllocateMemAndProtectProcess.
  unfoldable pub allocate_mem_process : ℕ → Space → ℕ → ℕ → Option (Space × ℕ)
  unfolding first_address allocate_at
  allocate_mem_process fuel s addr size =
      let start = first_address s addr size in allocate_at fuel start.0 start.1 size

-- The part of a process that these calls change: its address space, the addresses and lengths of
-- m_MemoryAllocations, and m_ElfLoadData.brk.
pub record Owner (S : Type 0) : Type 0 where
  pub space : S
  pub allocations : List (ℕ × ℕ)
  pub brk : ℕ

-- The recorded areas without the first that has the address and the length; `none` is none.
unfoldable pub remove_allocation : List (ℕ × ℕ) → ℕ → ℕ → Option (List (ℕ × ℕ))
remove_allocation [] addr size = none
remove_allocation ((a, n) ∷ rest) addr size =
    let later = remove_allocation rest addr size in
    if a == addr && n == size then some rest else (later >>= λ others. some ((a, n) ∷ others))

module _ (memory : VirtualMemory) where
  open memory use {Space}

  -- AllocateMemAndProtect, which records the area.
  unfoldable pub allocate_mem : ℕ → Owner Space → ℕ → ℕ → Option (Owner Space × ℕ)
  unfolding allocate_mem_process
  allocate_mem fuel p addr size = allocate_mem_process memory fuel p.space addr size >>= λ got.
      some (
        (if got.1 == failed
            then record p { space = got.0 }
            else record p { space = got.0; allocations = p.allocations ++ (got.1, size) ∷ [] }),
        got.1,
      )

  -- What DeallocateMemory does once it has looked for the area.
  unfoldable pub release : Owner Space → ℕ → ℕ → Option (List (ℕ × ℕ)) → Owner Space × Bool
  release p addr size none = (p, false)
  release p addr size (some others) =
      let (s, freed) = memory.decommit p.space addr size in
      if freed
      then (record p { space = s; allocations = others }, true)
      else (record p { space = s }, false)

  unfoldable pub deallocate_memory : Owner Space → ℕ → ℕ → Owner Space × Bool
  unfolding remove_allocation release
  deallocate_memory p addr size = release p addr size (remove_allocation p.allocations addr size)

  -- The result of brk's allocation.
  unfoldable pub moved_brk : ℕ → Owner Space × ℕ → Owner Space × ℕ
  moved_brk new_brk (p, at) =
      if at == failed then (p, failed) else (record p { brk = new_brk }, new_brk)

  unfoldable pub sys_brk : ℕ → Owner Space → ℕ → Option (Owner Space × ℕ)
  unfolding allocate_mem moved_brk
  sys_brk fuel p new_brk =
      if new_brk == 0
      then some (p, p.brk)
      else if ltb new_brk p.brk
      then some (p, failed)
      else if ltb p.brk new_brk
      then (allocate_mem fuel p p.brk (minus new_brk p.brk) >>= λ got. some (moved_brk new_brk got))
      else some (record p { brk = new_brk }, new_brk)
