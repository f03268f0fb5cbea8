-- ===== src/Memory/Reading.antt =====
-- ReadString returns the string that a process holds, and FillMem fills a block.
use keow.Prelude.{
  ℕ, zero, suc, ◌+◌, ◌-◌, ◌%◌, ◌^◌, ◌≤◌, ◌<◌, ◌≡◌, ◌≢◌, ◌∙◌, refl, ap, sym, subst, inl, inr, ◌⊎◌,
  true, false, List, [], ◌∷◌, ◌++◌, some, ltb, ◌==◌, if◌then◌else◌, arith, Bool-cases, length, take,
  drop, length-drop, take-append-drop, append_assoc,
}
use keow.Errno.{word}
use keow.Memory.{
  page, Chunk, Bytes, to_next, write_memory, run_chunks, Scan, add_byte, scan, read_string,
  fill_mem,
}
use keow.Memory.Chunks.{to_next_lem, chunks-Transferred}
use keow.Memory.Copies.{
  in_range, copied, copied_none, CopiesIn, CopiesOut, run_chunks_out, copied-copied,
  read_memory-copied,
}

-- The memory holds the string at an address, with its null byte.
abbrev pub Holds : Bytes → ℕ → List ℕ → Type 0
Holds source a [] = source a ≡ 0
Holds source a (c ∷ cs) = (source a ≡ c) × (c ≢ 0) × Holds source (a + 1) cs

-- What a search of `n` bytes comes to.
abbrev Searched : Bytes → ℕ → List ℕ → ℕ → Scan → Type 0
Searched source a s n r =
    ((length s < n) × (r ≡ Scan.ended s))
    ⊎ ((n ≤ length s) × (r ≡ Scan.goes_on (take n s)) × Holds source (a + n) (drop n s))

scan-Searched :
    (m source : Bytes) (n p a : ℕ) (s : List ℕ)
    → ((i : ℕ) → i < n → m (p + i) ≡ source (a + i))
    → Holds source a s
    → Searched source a s n (scan m n p)
unfolding scan
scan-Searched m source zero p a s same holds =
    let e : a + 0 ≡ a = omega arith in
    inr (omega arith, refl, subst (λ b. Holds source b s) (sym e) holds)
scan-Searched m source (suc n) p a [] same holds =
    let e : p + 0 ≡ p = omega arith in
    let f : a + 0 ≡ a = omega arith in
    let z : m p ≡ 0 = ap m (sym e) ∙ same 0 (omega arith) ∙ ap source f ∙ holds in
    let ends : (m p == 0) ≡ true = ground (arith, z) in inl (omega arith, rw ends refl)
scan-Searched m source (suc n) p a (c ∷ cs) same (here, nonzero, rest) =
    let e : p + 0 ≡ p = omega arith in
    let f : a + 0 ≡ a = omega arith in
    let z : m p ≡ c = ap m (sym e) ∙ same 0 (omega arith) ∙ ap source f ∙ here in
    let more : (m p == 0) ≡ false = ground (arith, z, nonzero) in
    elim (scan-Searched m source n (p + 1) (a + 1) cs (λ i h. shifted i h) rest) [
      | inl (short, r) ↦
          inl (
            omega (arith, short),
            rw more (ap (add_byte (m p)) r ∙ ap (λ d. Scan.ended (d ∷ cs)) z),
          )
      | inr (long, r, holds) ↦
          let g : (a + 1) + n ≡ a + suc n = omega arith in
          inr (
            omega (arith, long),
            rw more (ap (add_byte (m p)) r ∙ ap (λ d. Scan.goes_on (d ∷ take n cs)) z),
            subst (λ b. Holds source b (drop n cs)) g holds,
          )
    ]
  where
    shifted : (i : ℕ) → i < n → m ((p + 1) + i) ≡ source ((a + 1) + i)
    shifted i h =
        let e : (p + 1) + i ≡ p + suc i = omega arith in
        let f : (a + 1) + i ≡ a + suc i = omega arith in
        ap m e ∙ same (suc i) (omega (arith, h)) ∙ ap source (sym f)

block :
    (source before m : Bytes) (to from n : ℕ)
    → ((a : ℕ) → m a ≡ copied source from to n before a)
    → (i : ℕ) → i < n
    → m (to + i) ≡ source (from + i)
block source before m to from n bytes i h =
    let inside : in_range to n (to + i) ≡ true = ground (arith, h) in
    let e : from + ((to + i) - to) ≡ from + i = omega arith in
    bytes (to + i) ∙ rw inside (ap source e)

-- When ReadProcessMemory copies what stays in a page, ReadString on a string of the process returns
-- the string: it takes the bytes up to the null byte, over as many pages as there are, and with one
-- more block than the string has bytes it always ends.
pub read_string-Holds :
    (get : Chunk → Bytes → Bytes) (source : Bytes) (buf fuel address : ℕ) (m : Bytes)
    (str s : List ℕ)
    → CopiesIn get source
    → Holds source address s
    → address + length s < 2 ^ 32
    → buf + page ≤ 2 ^ 32
    → length s < fuel
    → read_string get buf fuel address m str ≡ some (str ++ s)
unfolding read_string
read_string-Holds get source buf zero address m str s law holds inside room enough =
    absurd (omega (arith, enough))
read_string-Holds get source buf (suc fuel) address m str s law holds inside room enough =
    let size = to_next_lem address (omega (arith, inside)) in
    let (m', read, bytes) =
      read_memory-copied get source buf address (to_next address) m law
        (omega (arith, size, inside)) (omega (arith, size, room)) in
    let same = block source m m' buf address (to_next address) bytes in
    elim (scan-Searched m' source (to_next address) buf address s same holds) [
      | inl (short, r) ↦ rw (read, r) refl
      | inr (long, r, holds') ↦
          let e : (address + to_next address) % word ≡ address + to_next address =
            omega (arith, long, inside) in
          rw (read, r, e)
            (read_string-Holds get source buf fuel (address + to_next address) m'
                (str ++ take (to_next address) s) (drop (to_next address) s) law holds'
                (omega (arith, length-drop (to_next address) s, long, inside)) room
                (omega (arith, length-drop (to_next address) s, long, size, enough))
              ∙ ap some (append_assoc str (take (to_next address) s) (drop (to_next address) s))
              ∙ ap (λ t. some (str ++ t)) (take-append-drop (to_next address) s))
    ]

write_lem :
    (put : Chunk → Bytes → Bytes) (kernel : Bytes) (to from len : ℕ) (m : Bytes)
    → CopiesOut put kernel
    → to + len ≤ 2 ^ 32
    → from + len ≤ 2 ^ 32
    → (m' : Bytes) × (write_memory put to len from m ≡ some m')
      × ((a : ℕ) → m' a ≡ copied kernel from to len m a)
unfolding write_memory
write_lem put kernel to from len m law ht hf =
    let (cs, ran, t) = chunks-Transferred len to from len (omega arith) ht hf in
    (
      run_chunks put cs m,
      rw ran refl,
      λ a. run_chunks_out put kernel law cs to from len m a t.covers t.fits,
    )

abbrev filled : ℕ → ℕ → ℕ → Bytes → ℕ → ℕ
filled fill to count m a = if in_range to count a then fill else m a

filled_lem :
    (kernel : Bytes) (buf fill to count : ℕ) (m : Bytes) (a : ℕ)
    → ((i : ℕ) → i < 1024 → kernel (buf + i) ≡ fill)
    → count ≤ 1024
    → copied kernel buf to count m a ≡ filled fill to count m a
filled_lem kernel buf fill to count m a same small = elim (Bool-cases (in_range to count a)) [
  | inl here ↦ let low : a - to < 1024 = ground (arith, here, small) in rw here (same (a - to) low)
  | inr outside ↦ rw outside refl
]

fill_mem_none :
    (put : Chunk → Bytes → Bytes) (buf fuel to : ℕ) (m : Bytes)
    → fill_mem put buf fuel to 0 m ≡ some m
unfolding fill_mem
fill_mem_none put buf zero to m = refl
fill_mem_none put buf (suc fuel) to m = refl

fill_step :
    (put : Chunk → Bytes → Bytes) (buf fuel to len : ℕ) (m m1 : Bytes) (next : ℕ)
    → ltb 1024 (suc len) ≡ true
    → (to + 1024) % word ≡ next
    → write_memory put to 1024 buf m ≡ some m1
    → fill_mem put buf (suc fuel) to (suc len) m ≡ fill_mem put buf fuel next (suc len - 1024) m1
unfolding fill_mem
fill_step put buf fuel to len m m1 next more e wrote =
    rw (more, wrote) (ap (λ n. fill_mem put buf fuel n (suc len - 1024) m1) e)

-- When WriteProcessMemory copies what stays in a page, FillMem ends and sets every byte of the block
-- to the fill byte, and no other byte of the process.
pub fill_mem-filled :
    (put : Chunk → Bytes → Bytes) (kernel : Bytes) (buf fill fuel to len : ℕ) (m : Bytes)
    → CopiesOut put kernel
    → ((i : ℕ) → i < 1024 → kernel (buf + i) ≡ fill)
    → to + len ≤ 2 ^ 32
    → buf + 1024 ≤ 2 ^ 32
    → len ≤ fuel
    → (m' : Bytes) × (fill_mem put buf fuel to len m ≡ some m')
      × ((a : ℕ) → m' a ≡ (if in_range to len a then fill else m a))
unfolding fill_mem
fill_mem-filled put kernel buf fill fuel to zero m law same ht hb enough =
    (m, fill_mem_none put buf fuel to m, λ a. sym (copied_none (λ b. fill) 0 to m a))
fill_mem-filled put kernel buf fill zero to (suc len) m law same ht hb enough =
    absurd (omega (arith, enough))
fill_mem-filled put kernel buf fill (suc fuel) to (suc len) m law same ht hb enough =
    elim (Bool-cases (ltb 1024 (suc len))) [
      | inr last ↦
          let small : suc len ≤ 1024 = ground (arith, last) in
          let (m', wrote, bytes) =
            write_lem put kernel to buf (suc len) m law ht (omega (arith, small, hb)) in
          (m', rw last wrote, λ a. bytes a ∙ filled_lem kernel buf fill to (suc len) m a same small)
      | inl more ↦
          let large : 1024 < suc len = ground (arith, more) in
          let (m1, wrote, bytes) =
            write_lem put kernel to buf 1024 m law (omega (arith, ht, large)) hb in
          let e : (to + 1024) % word ≡ to + 1024 = omega (arith, ht, large) in
          let (m', rest, later) =
            fill_mem-filled put kernel buf fill fuel (to + 1024) (suc len - 1024) m1 law same
              (omega (arith, ht, large)) hb (omega (arith, enough)) in
          (
            m',
            fill_step put buf fuel to len m m1 (to + 1024) more e wrote ∙ rest,
            λ a.
                later a
                ∙ copied-copied (λ b. fill) m m1 0 to 1024 (suc len) a (omega (arith, large))
                    (bytes a ∙ filled_lem kernel buf fill to 1024 m a same (omega arith)),
          )
    ]
