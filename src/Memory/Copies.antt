-- ===== src/Memory/Copies.antt =====
-- ReadMemory and WriteMemory copy their bytes.
use keow.Prelude.{
  ℕ, ◌+◌, ◌-◌, ◌^◌, ◌≤◌, ◌<◌, ◌≡◌, ◌∙◌, refl, ap, sym, inl, inr, Bool, true, false, ◌&&◌, List, [],
  ◌∷◌, some, ltb, leb, if◌then◌else◌, arith, All, Bool-cases,
}
use keow.Memory.{Chunk, Bytes, run_chunks, read_memory, write_memory}
use keow.Memory.Chunks.{Fits, Covers, chunks-Transferred}

abbrev pub in_range : ℕ → ℕ → ℕ → Bool
in_range from count a = leb from a && ltb a (from + count)

-- A copy of `count` bytes.
abbrev pub copied : Bytes → ℕ → ℕ → ℕ → Bytes → Bytes
copied source from to count m a = if in_range to count a then source (from + (a - to)) else m a

-- ReadProcessMemory copies the bytes of a call that stays in one page on either side.
abbrev pub CopiesIn : (Chunk → Bytes → Bytes) → Bytes → Type 0
CopiesIn transfer source =
    (c : Chunk)
    → Fits c
    → (m : Bytes) (a : ℕ) → transfer c m a ≡ copied source c.remote c.local c.count m a

-- So does WriteProcessMemory, from the kernel's memory.
abbrev pub CopiesOut : (Chunk → Bytes → Bytes) → Bytes → Type 0
CopiesOut transfer source =
    (c : Chunk)
    → Fits c
    → (m : Bytes) (a : ℕ) → transfer c m a ≡ copied source c.local c.remote c.count m a

pub copied_none :
    (source : Bytes) (from to : ℕ) (m : Bytes) (a : ℕ) → copied source from to 0 m a ≡ m a
copied_none source from to m a = ground arith

-- A copy in two parts.
pub copied-copied :
    (source m m' : Bytes) (from to k n a : ℕ)
    → k ≤ n
    → m' a ≡ copied source from to k m a
    → copied source (from + k) (to + k) (n - k) m' a ≡ copied source from to n m a
copied-copied source m m' from to k n a h first = elim (Bool-cases (in_range to k a)) [
  | inl here ↦
      let out : in_range (to + k) (n - k) a ≡ false = ground (arith, here) in
      let inside : in_range to n a ≡ true = ground (arith, here, h) in
      rw (out, inside) (first ∙ rw here refl)
  | inr not_here ↦ elim (Bool-cases (in_range (to + k) (n - k) a)) [
    | inl later ↦
        let inside : in_range to n a ≡ true = ground (arith, later, h) in
        let same : (from + k) + (a - (to + k)) ≡ from + (a - to) = ground (arith, later) in
        rw (later, inside) (ap source same)
    | inr nowhere ↦
        let outside : in_range to n a ≡ false = ground (arith, nowhere, not_here, h) in
        rw (nowhere, outside) (first ∙ rw not_here refl)
  ]
]

-- Each call inside an area of the process copies its bytes: to where `to` says of the call, from where
-- `from` says.
abbrev pub CopiesArea : (Chunk → Bytes → Bytes) → Bytes → (Chunk → ℕ) → (Chunk → ℕ) → ℕ → ℕ → Type 0
CopiesArea transfer source from to low high =
    (c : Chunk)
    → Fits c
    → low ≤ c.remote
    → c.remote + c.count ≤ high
    → (m : Bytes) (a : ℕ) → transfer c m a ≡ copied source (from c) (to c) c.count m a

run_chunks_in :
    (transfer : Chunk → Bytes → Bytes) (source : Bytes) (low high : ℕ)
    → CopiesArea transfer source (λ c. c.remote) (λ c. c.local) low high
    → (cs : List Chunk) (remote local n : ℕ) (m : Bytes) (a : ℕ) → low ≤ remote
    → remote + n ≤ high
    → Covers remote local n cs
    → All Fits cs
    → run_chunks transfer cs m a ≡ copied source remote local n m a
unfolding run_chunks
run_chunks_in transfer source low high law [] remote local n m a above below none_left fits =
    sym (ap (λ k. copied source remote local k m a) none_left ∙ copied_none source remote local m a)
run_chunks_in transfer source low high law (c ∷ cs) remote local n m a above below
      (er, el, small, rest) (fit, fits) =
    run_chunks_in transfer source low high law cs (remote + c.count) (local + c.count) (n - c.count)
      (transfer c m) a (omega (arith, above)) (omega (arith, below, small)) rest fits
    ∙ copied-copied source m (transfer c m) remote local c.count n a small (
        law c fit (omega (arith, er, above)) (omega (arith, er, below, small)) m a
        ∙ ap (λ r. copied source r c.local c.count m a) er
        ∙ ap (λ l. copied source remote l c.count m a) el)

run_chunks_area :
    (transfer : Chunk → Bytes → Bytes) (source : Bytes) (low high : ℕ)
    → CopiesArea transfer source (λ c. c.local) (λ c. c.remote) low high
    → (cs : List Chunk) (remote local n : ℕ) (m : Bytes) (a : ℕ) → low ≤ remote
    → remote + n ≤ high
    → Covers remote local n cs
    → All Fits cs
    → run_chunks transfer cs m a ≡ copied source local remote n m a
unfolding run_chunks
run_chunks_area transfer source low high law [] remote local n m a above below none_left fits =
    sym (ap (λ k. copied source local remote k m a) none_left ∙ copied_none source local remote m a)
run_chunks_area transfer source low high law (c ∷ cs) remote local n m a above below
      (er, el, small, rest) (fit, fits) =
    run_chunks_area transfer source low high law cs (remote + c.count) (local + c.count)
      (n - c.count) (transfer c m) a (omega (arith, above)) (omega (arith, below, small)) rest fits
    ∙ copied-copied source m (transfer c m) local remote c.count n a small (
        law c fit (omega (arith, er, above)) (omega (arith, er, below, small)) m a
        ∙ ap (λ l. copied source l c.remote c.count m a) el
        ∙ ap (λ r. copied source local r c.count m a) er)

pub run_chunks_out :
    (transfer : Chunk → Bytes → Bytes) (source : Bytes)
    → CopiesOut transfer source
    → (cs : List Chunk) (remote local n : ℕ) (m : Bytes) (a : ℕ) → Covers remote local n cs
    → All Fits cs
    → run_chunks transfer cs m a ≡ copied source local remote n m a
run_chunks_out transfer source law cs remote local n m a covers fits =
    run_chunks_area transfer source remote (remote + n) (λ c fit above below. law c fit) cs remote
      local n m a (omega arith) (omega arith) covers fits

-- When ReadProcessMemory copies every call inside the area that crosses no page boundary, ReadMemory of
-- the area copies all its bytes, wherever the pages begin, and leaves the rest of the kernel's
-- memory alone.
read_memory-area :
    (transfer : Chunk → Bytes → Bytes) (source : Bytes) (to from len : ℕ) (m : Bytes)
    → CopiesArea transfer source (λ c. c.remote) (λ c. c.local) from (from + len)
    → from + len ≤ 2 ^ 32
    → to + len ≤ 2 ^ 32
    → (m' : Bytes) × (read_memory transfer to from len m ≡ some m')
      × ((a : ℕ) → m' a ≡ copied source from to len m a)
unfolding read_memory
read_memory-area transfer source to from len m law hf ht =
    let (cs, ran, t) = chunks-Transferred len from to len (omega arith) hf ht in
    (
      run_chunks transfer cs m,
      rw ran refl,
      λ a.
          run_chunks_in transfer source from (from + len) law cs from to len m a (omega arith)
            (omega arith) t.covers t.fits,
    )

pub read_memory-copied :
    (transfer : Chunk → Bytes → Bytes) (source : Bytes) (to from len : ℕ) (m : Bytes)
    → CopiesIn transfer source
    → from + len ≤ 2 ^ 32
    → to + len ≤ 2 ^ 32
    → (m' : Bytes) × (read_memory transfer to from len m ≡ some m')
      × ((a : ℕ) → m' a ≡ copied source from to len m a)
read_memory-copied transfer source to from len m law hf ht =
    read_memory-area transfer source to from len m (λ c fit above below. law c fit) hf ht

-- WriteMemory of an area and then ReadMemory of it come to an end, and what is read back is what was
-- written, while the process's memory outside of the area stays as it was. The area and the two
-- buffers of the kernel are in the address space, and the calls of Windows copy their bytes when they are
-- inside the area and cross no page boundary, as they do where the process has access to it.
pub read_memory-write_memory :
    (put get : Bytes → Chunk → Bytes → Bytes) (kernel process : Bytes) (local remote back len i : ℕ)
    → ((source : Bytes)
        → CopiesArea (put source) source (λ c. c.local) (λ c. c.remote) remote (remote + len))
    → ((source : Bytes)
        → CopiesArea (get source) source (λ c. c.remote) (λ c. c.local) remote (remote + len))
    → remote + len ≤ 2 ^ 32
    → local + len ≤ 2 ^ 32
    → back + len ≤ 2 ^ 32
    → i < len
    → (process' : Bytes) × (m : Bytes) × (write_memory (put kernel) remote len local process
        ≡ some process')
      × (read_memory (get process') back remote len kernel ≡ some m)
      × (m (back + i) ≡ kernel (local + i))
      × ((a : ℕ) → in_range remote len a ≡ false → process' a ≡ process a)
unfolding write_memory
read_memory-write_memory put get kernel process local remote back len i out into hr hl hb small =
    let (cs, ran, t) = chunks-Transferred len remote local len (omega arith) hr hl in
    let process' = run_chunks (put kernel) cs process in
    let wrote = λ (a : ℕ).
      run_chunks_area (put kernel) kernel remote (remote + len) (out kernel) cs remote local len
        process a (omega arith) (omega arith) t.covers t.fits in
    let (m, read, bytes) =
      read_memory-area (get process') process' back remote len kernel (into process') hr hb in
    let inside : in_range back len (back + i) ≡ true = ground (arith, small) in
    let there : in_range remote len (remote + i) ≡ true = ground (arith, small) in
    let a : remote + ((back + i) - back) ≡ remote + i = omega arith in
    let b : local + ((remote + i) - remote) ≡ local + i = omega arith in
    (
      process',
      m,
      rw ran refl,
      read,
      bytes (back + i) ∙ rw inside (ap process' a) ∙ wrote (remote + i) ∙ rw there (ap kernel b),
      λ a outside. wrote a ∙ rw outside refl,
    )
