-- ===== src/Ldt.antt =====
-- The local descriptor table of a process: keow-kernel/KeowKernel/MemoryHelper.cpp from
-- AllocateLDTSelector on, and set_thread_area, get_thread_area and modify_ldt of sys_mem.cpp.
pub mod Search
pub mod Allocation
pub mod Isolation
pub mod RoundTrip
pub mod Encoding
pub mod ThreadArea
mod Tests
use keow.Prelude.{
  ℕ, zero, suc, ◌+◌, ◌-◌, ◌*◌, ◌/◌, ◌%◌, ◌^◌, Bool, true, false, not, ◌&&◌, ◌||◌, List, [], ◌∷◌,
  Option, none, some, ltb, leb, ◌==◌, if◌then◌else◌, ◌>>=◌, get_elem?, set, drop,
}
use keow.Errno.{word, negative, is_negative, esrch, einval, enosys}

-- `struct user_desc` of linux-abi/linux/linux_types.h; a field of one bit is a Boolean.
pub record UserDesc : Type 0 where
  pub entry_number : ℕ
  pub base_addr : ℕ
  pub limit : ℕ
  pub seg_32bit : Bool
  pub contents : ℕ
  pub read_exec_only : Bool
  pub limit_in_pages : Bool
  pub seg_not_present : Bool
  pub useable : Bool

pub record LdtData : Type 0 where
  pub allocating_thread : ℕ
  pub is_really_ldt : Bool
  pub user_desc : UserDesc

-- The fields of a hardware descriptor that are written.
pub record LdtEntry : Type 0 where
  pub base_low : ℕ
  pub base_mid : ℕ
  pub base_hi : ℕ
  pub limit_low : ℕ
  pub limit_hi : ℕ
  pub granularity : Bool
  pub default_big : Bool
  pub segment_type : ℕ
  pub pres : Bool
  pub dpl : ℕ
  pub sys : ℕ

-- A process's table, and the descriptors that Windows has taken for it, newest first.
pub record Ldt : Type 0 where
  pub entries : List LdtData
  pub written : List (ℕ × LdtEntry)

abbrev pub max_ldt_entries : ℕ
max_ldt_entries = 8192

abbrev pub first_usable_ldt_entry : ℕ
first_usable_ldt_entry = 16

-- The thread id -1.
abbrev pub no_thread : ℕ
no_thread = 2 ^ 32 - 1

-- The first entry of a table that passes a test; `i` is the index of the head.
unfoldable pub first_index : (LdtData → Bool) → List LdtData → ℕ → Option ℕ
first_index test [] i = none
first_index test (d ∷ ds) i =
    let later = first_index test ds (suc i) in if test d then some i else later

-- The loops over the table start at FIRST_USABLE_LDT_ENTRY.
unfoldable pub search : (LdtData → Bool) → List LdtData → Option ℕ
search test t = first_index test (drop first_usable_ldt_entry t) first_usable_ldt_entry

abbrev pub is_free : LdtData → Bool
is_free d = d.allocating_thread == 0

abbrev pub is_own : ℕ → ℕ → LdtData → Bool
is_own thread requested d = d.user_desc.entry_number == requested && d.allocating_thread == thread

unfoldable pub allocated : ℕ → Bool → LdtData → LdtData
allocated thread is_for_ldt d = record d {
  is_really_ldt = is_for_ldt;
  allocating_thread = if is_for_ldt then no_thread else thread;
}

-- The new table and the index; the outer `none` is the -1 of a full table.
unfoldable pub allocate_ldt_selector : List LdtData → ℕ → Bool → Option (List LdtData × ℕ)
allocate_ldt_selector t thread is_for_ldt = search is_free t >>= λ i.
    get_elem? t i >>= λ d. some (set t i (allocated thread is_for_ldt d), i)

-- What is left of the lookup if the table has no entry of the thread for the index.
unfoldable pub allocate_for_thread : List LdtData → ℕ → Bool → List LdtData × ℕ
allocate_for_thread t thread is_for_ldt = elim (allocate_ldt_selector t thread is_for_ldt) [
  | none ↦ (t, 0)
  | some made ↦ made
]

-- The table, in which an entry may have been allocated, and the index; 0 is a bad index. `none` is a
-- read outside of the table.
unfoldable pub calculate_ldt_entry_for_thread : List LdtData → ℕ → ℕ → Option (List LdtData × ℕ)
calculate_ldt_entry_for_thread t thread requested =
    if is_negative requested || leb max_ldt_entries requested || requested == 0
    then some (t, 0)
    else (get_elem? t requested >>= λ d.
        if d.allocating_thread == thread
        then some (t, requested)
        else if d.allocating_thread == 0
        then some (t, 0)
        else elim (search (is_own thread requested) t) [
          | some i ↦ some (t, i)
          | none ↦ some (allocate_for_thread t thread d.is_really_ldt)
        ])

-- The inner result is false and the caller's descriptor, or true and the stored one.
unfoldable pub get_ldt_selector : Ldt → ℕ → UserDesc → Option (Ldt × Bool × UserDesc)
get_ldt_selector l thread u =
    calculate_ldt_entry_for_thread l.entries thread u.entry_number >>= λ (t, index).
    if index == 0
    then some (record l { entries = t }, false, u)
    else (get_elem? t index >>= λ d. some (record l { entries = t }, true, d.user_desc))

-- The limit, cut to what Windows allows. The differences are those of 32-bit words.
unfoldable pub max_limit : UserDesc → ℕ
max_limit u =
    if u.limit_in_pages
    then (let base4k = ((u.base_addr + 4095) % 2 ^ 32) / 4096 * 4096 in
        ((2147418111 + 2 ^ 32 - base4k) % 2 ^ 32) / 4096)
    else (2147418111 + 2 ^ 32 - u.base_addr) % 2 ^ 32

unfoldable pub allowed_limit : UserDesc → ℕ
allowed_limit u = if ltb (max_limit u) u.limit then max_limit u else u.limit

unfoldable pub to_ldt_entry : UserDesc → LdtEntry
to_ldt_entry u = record {
  base_low = u.base_addr % 2 ^ 16;
  base_mid = u.base_addr / 2 ^ 16 % 2 ^ 8;
  base_hi = u.base_addr / 2 ^ 24 % 2 ^ 8;
  limit_low = allowed_limit u % 2 ^ 16;
  limit_hi = allowed_limit u / 2 ^ 16 % 2 ^ 4;
  granularity = u.limit_in_pages;
  default_big = u.seg_32bit;
  segment_type = if u.read_exec_only then 27 else 19;
  pres = not u.seg_not_present;
  dpl = 3;
  sys = 1;
}

-- `EXTRACT_INDEX` and `MAKE_SELECTOR`.
abbrev pub extract_index : ℕ → ℕ
extract_index selector = selector / 8

abbrev pub make_selector : ℕ → ℕ
make_selector index = index * 8 + 7

-- The registers that the trap handler changes, and the value to be injected.
pub record Registers : Type 0 where
  pub eax : ℕ
  pub seg_gs : ℕ
  pub eip : ℕ
  pub injected_gs : ℕ

-- The instruction `mov gs, eax`, 0xe88e.
abbrev pub mov_gs_eax : ℕ
mov_gs_eax = 59534

unfoldable pub handle_possible_ldt_exception :
    Ldt → ℕ → ℕ → Registers → Option (Ldt × Bool × Registers)
handle_possible_ldt_exception l thread instruction regs =
    if instruction == mov_gs_eax
    then (calculate_ldt_entry_for_thread l.entries thread (extract_index regs.eax) >>= λ (t, index).
        some (
          record l { entries = t },
          true,
          record {
            eax = make_selector index;
            seg_gs = make_selector index;
            eip = (regs.eip + 2) % word;
            injected_gs = make_selector index;
          },
        ))
    else some (l, false, regs)

-- `accepts` is whether NtSetInformationProcess takes a descriptor at an index.
module _ (accepts : ℕ → LdtEntry → Bool) where
  -- The record that is kept of a descriptor which Windows took.
  unfoldable pub store : Ldt → ℕ → LdtData → UserDesc → Bool → Ldt
  store l index d u is_really_ldt = record {
    entries = set l.entries index (record d { user_desc = u; is_really_ldt = is_really_ldt });
    written = (index, to_ldt_entry u) ∷ l.written;
  }

  unfoldable pub set_ldt_selector : Ldt → ℕ → UserDesc → Bool → Option (Ldt × Bool)
  set_ldt_selector l thread u is_really_ldt =
      calculate_ldt_entry_for_thread l.entries thread u.entry_number >>= λ (t, index).
      if index == 0
      then some (record l { entries = t }, false)
      else (get_elem? t index >>= λ d.
          if accepts index (to_ldt_entry u)
          then some (store (record l { entries = t }) index d u is_really_ldt, true)
          else some (record l { entries = t }, false))

  -- The calls on the descriptor that is read from the process. The results are the table, eax, and
  -- the descriptor that is written back, if one is.
  abbrev pub Answer : Type 0
  Answer = Ldt × ℕ × Option UserDesc

  abbrev pub set_answer : UserDesc → Ldt × Bool → Answer
  set_answer u (l, true) = (l, 0, some u)
  set_answer u (l, false) = (l, negative einval, none)

  abbrev pub get_answer : Ldt × Bool × UserDesc → Answer
  get_answer (l, true, u) = (l, 0, some u)
  get_answer (l, false, u) = (l, negative einval, none)

  -- The descriptor with the index to use, or none if there is no room.
  unfoldable pub chosen_entry : Ldt → ℕ → UserDesc → Option (Ldt × UserDesc)
  chosen_entry l thread u =
      if u.entry_number == word - 1
      then (allocate_ldt_selector l.entries thread false >>= λ (t, i).
          some (record l { entries = t }, record u { entry_number = i }))
      else some (l, u)

  unfoldable pub sys_set_thread_area : Ldt → ℕ → UserDesc → Option Answer
  sys_set_thread_area l thread u = elim (chosen_entry l thread u) [
    | none ↦ some (l, negative esrch, none)
    | some chosen ↦
        set_ldt_selector chosen.0 thread chosen.1 false >>= λ r. some (set_answer chosen.1 r)
  ]

  unfoldable pub sys_get_thread_area : Ldt → ℕ → UserDesc → Option Answer
  sys_get_thread_area l thread u = get_ldt_selector l thread u >>= λ r. some (get_answer r)

  -- sizeof(user_desc) is 16.
  unfoldable pub sys_modify_ldt : Ldt → ℕ → ℕ → ℕ → UserDesc → Option Answer
  sys_modify_ldt l thread function size u =
      if not (size == 16)
      then some (l, negative einval, none)
      else if function == 0
      then (get_ldt_selector l thread u >>= λ r. some (get_answer r))
      else if function == 1
      then (set_ldt_selector l thread u true >>= λ r. some (set_answer u r))
      else some (l, negative enosys, none)
