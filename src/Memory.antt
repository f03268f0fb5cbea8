-- ===== src/Memory.antt =====
-- keow-kernel/KeowKernel/MemoryHelper.cpp: the transfers between a process and the kernel.
pub mod Chunks
pub mod Copies
pub mod Reading
pub mod Tests
use keow.Prelude.{
  ℕ, zero, suc, ◌+◌, ◌-◌, ◌*◌, ◌/◌, ◌%◌, ◌^◌, Bool, true, false, ◌&&◌, List, [], ◌∷◌, ◌++◌, Option,
  none, some, ltb, leb, ◌==◌, if◌then◌else◌, ◌>>=◌,
}
use keow.Errno.{word}

-- SIZE4k.
abbrev pub page : ℕ
page = 4096

-- One call of ReadProcessMemory or WriteProcessMemory.
pub record Chunk : Type 0 where
  pub remote : ℕ
  pub local : ℕ
  pub count : ℕ

-- (p & 0xFFFFF000) + SIZE4k - p.
unfoldable pub to_next : ℕ → ℕ
to_next p = ((p - p % page + page) % word + (word - p % word)) % word

abbrev pub at_most : ℕ → ℕ → ℕ
at_most limit n = if ltb limit n then limit else n

unfoldable pub local_to_copy : ℕ → ℕ → ℕ
local_to_copy local left = at_most left (to_next local)

unfoldable pub remote_to_copy : ℕ → ℕ → ℕ → ℕ
remote_to_copy remote local left = at_most (local_to_copy local left) (to_next remote)

-- The one or two calls of a turn.
unfoldable pub turn : ℕ → ℕ → ℕ → List Chunk
turn remote local left =
    let n = local_to_copy local left in
    let k = remote_to_copy remote local left in
    record { remote = remote; local = local; count = k }
    ∷ (if n - k == 0
        then []
        else record { remote = (remote + k) % word; local = (local + k) % word; count = n - k }
          ∷ [])

-- The calls of ProcessReadWriteMemory in their order, one unit of fuel for each turn; `none` is too
-- little fuel.
unfoldable pub chunks : ℕ → ℕ → ℕ → ℕ → Option (List Chunk)
chunks fuel remote local zero = some []
chunks zero remote local (suc left) = none
chunks (suc fuel) remote local (suc left) =
    let n = local_to_copy local (suc left) in
    chunks fuel ((remote + n) % word) ((local + n) % word) (suc left - n) >>= λ cs.
    some (turn remote local (suc left) ++ cs)

abbrev pub Bytes : Type 0
Bytes = ℕ → ℕ

-- The calls one after the other, on the memory that is written. What a call does to it, also one that
-- fails, is the parameter `transfer`: the code goes on after a failure and returns true.
unfoldable pub run_chunks : (Chunk → Bytes → Bytes) → List Chunk → Bytes → Bytes
run_chunks transfer [] m = m
run_chunks transfer (c ∷ cs) m = run_chunks transfer cs (transfer c m)

-- ReadMemory: `transfer` is ReadProcessMemory from the process's memory into the kernel's.
unfoldable pub read_memory : (Chunk → Bytes → Bytes) → ℕ → ℕ → ℕ → Bytes → Option Bytes
read_memory transfer to from len m =
    chunks len from to len >>= λ cs. some (run_chunks transfer cs m)

-- WriteMemory: `transfer` is WriteProcessMemory from the kernel's memory into the process's.
unfoldable pub write_memory : (Chunk → Bytes → Bytes) → ℕ → ℕ → ℕ → Bytes → Option Bytes
write_memory transfer to len from m =
    chunks len to from len >>= λ cs. some (run_chunks transfer cs m)

-- A block of ReadString is searched for the end of the string.
pub data Scan : Type 0 where
  ended : List ℕ → Scan
  goes_on : List ℕ → Scan

abbrev pub add_byte : ℕ → Scan → Scan
add_byte c (ended s) = ended (c ∷ s)
add_byte c (goes_on s) = goes_on (c ∷ s)

unfoldable pub scan : Bytes → ℕ → ℕ → Scan
scan m zero p = goes_on []
scan m (suc n) p =
    let later = scan m n (p + 1) in if m p == 0 then ended [] else add_byte (m p) later

abbrev pub after_scan : (List ℕ → Option (List ℕ)) → Scan → List ℕ → Option (List ℕ)
after_scan next (ended s) str = some (str ++ s)
after_scan next (goes_on s) str = next (str ++ s)

-- ReadString, one unit of fuel for each block; `buf` is the buffer's address in the memory `m`.
unfoldable pub read_string : (Chunk → Bytes → Bytes) → ℕ → ℕ → ℕ → Bytes → List ℕ → Option (List ℕ)
read_string get buf zero address m str = none
read_string get buf (suc fuel) address m str =
    read_memory get buf address (to_next address) m >>= λ m'.
    after_scan (read_string get buf fuel ((address + to_next address) % word) m')
      (scan m' (to_next address) buf) str

-- The loop of FillMem, whose buffer of 1024 bytes is at `buf`; one unit of fuel for each turn.
-- The length is an int that is not negative.
unfoldable pub fill_mem : (Chunk → Bytes → Bytes) → ℕ → ℕ → ℕ → ℕ → Bytes → Option Bytes
fill_mem put buf fuel to zero m = some m
fill_mem put buf zero to (suc len) m = none
fill_mem put buf (suc fuel) to (suc len) m =
    let last = write_memory put to (suc len) buf m in
    let more =
      write_memory put to 1024 buf m
      >>= fill_mem put buf fuel ((to + 1024) % word) (suc len - 1024) in
    if ltb 1024 (suc len) then more else last
