-- ===== src/Memory/Tests.antt =====
-- Memories in which every call copies its bytes.
use keow.Prelude.{false, ℕ, ◌+◌, ◌≡◌, refl, List, [], ◌∷◌, ◌++◌, some, arith, if◌then◌else◌, ◌==◌}
use keow.Memory.{
  Chunk, Bytes, to_next, local_to_copy, remote_to_copy, turn, chunks, read_memory, write_memory,
  read_string, fill_mem,
}
use keow.Memory.Chunks.{Transferred, chunks-Transferred}
use keow.Memory.Copies.{in_range, copied, read_memory-write_memory}
use keow.Memory.Reading.{read_string-Holds, fill_mem-filled}

abbrev get_from : Bytes → Chunk → Bytes → Bytes
get_from source c m a = copied source c.remote c.local c.count m a

abbrev put_from : Bytes → Chunk → Bytes → Bytes
put_from source c m a = copied source c.local c.remote c.count m a

abbrev zeros : Bytes
zeros a = 0

-- The string "abc" at address 4094, across a page boundary.
abbrev text : Bytes
text a = if a == 4094 then b'a' else if a == 4095 then b'b' else if a == 4096 then b'c' else 0

-- Two turns, in three calls.
chunks_test :
    chunks 9 4090 8190 9
    ≡ some (
        record { remote = 4090; local = 8190; count = 2 }
        ∷ record { remote = 4092; local = 8192; count = 4 }
        ∷ record { remote = 4096; local = 8196; count = 3 }
        ∷ [])
unfolding chunks turn to_next local_to_copy remote_to_copy
chunks_test = refl

chunks-Transferred_example :
    (cs : List Chunk) × (chunks 9 4090 8190 9 ≡ some cs) × Transferred 4090 8190 9 cs
chunks-Transferred_example =
    chunks-Transferred 9 4090 8190 9 (omega arith) (omega arith) (omega arith)

read_memory-write_memory_example :
    (process' : Bytes) × (m : Bytes) × (write_memory (put_from text) 100 2 4094 zeros
      ≡ some process')
    × (read_memory (get_from process') 300 100 2 text ≡ some m)
    × (m (300 + 1) ≡ text (4094 + 1))
    × ((a : ℕ) → in_range 100 2 a ≡ false → process' a ≡ zeros a)
read_memory-write_memory_example =
    read_memory-write_memory put_from get_from text zeros 4094 100 300 2 1
      (λ source c fit above below m a. refl) (λ source c fit above below m a. refl) (omega arith)
      (omega arith) (omega arith) (omega arith)

read_string-Holds_example :
    read_string (get_from text) 20000 4 4094 zeros [] ≡ some ([] ++ (b'a' ∷ b'b' ∷ b'c' ∷ []))
read_string-Holds_example =
    read_string-Holds (get_from text) text 20000 4 4094 zeros [] (b'a' ∷ b'b' ∷ b'c' ∷ [])
      (λ c fit m a. refl) (refl, omega arith, (refl, omega arith, (refl, omega arith, refl)))
      (omega arith) (omega arith) (omega arith)

fill_mem-filled_example :
    (m' : Bytes) × (fill_mem (put_from zeros) 4000 3000 5000 3000 text ≡ some m')
    × ((a : ℕ) → m' a ≡ (if in_range 5000 3000 a then 0 else text a))
fill_mem-filled_example =
    fill_mem-filled (put_from zeros) zeros 4000 0 3000 5000 3000 text (λ c fit m a. refl)
      (λ i h. refl) (omega arith) (omega arith) (omega arith)
