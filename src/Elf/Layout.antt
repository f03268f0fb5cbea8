-- ===== src/Elf/Layout.antt =====
-- Where LoadElfImage of keow-kernel/KeowKernel/Process.cpp puts the segments of a program.
use keow.Prelude.{
  ℕ, zero, suc, ◌+◌, ◌-◌, ◌%◌, ◌<◌, ◌≤◌, ◌≡◌, refl, sym, ap, ◌∙◌, Bool, true, false, not, List, [],
  ◌∷◌, none, some, ltb, ◌==◌, if◌then◌else◌, get_elem?, length, Bool-cases, inl, inr, some_inj,
  ==_iff, take, min, ◌/◌, arith,
}
use keow.Errno.{word}
use keow.Elf.{
  after_segment, go_on, load_elf_image, base_addr, start_load, is_format, ElfHeader, ProgramHeader,
  ElfLoadData, ImageMemory, pt_load, pt_phdr, pt_interp, align_down, want_mem, aligned_mem,
  aligned_size, raise, track_program, track, load_segment, load_header, load_headers,
}
use Prim.Native.Nat.{bit_and, bit_and-bitwise, digits}

-- A bitwise and is at most the second number.
and_digits_le : (n a b : ℕ) → digits (λ y. zero) min n a b ≤ b
and_digits_le zero a b = omega arith
and_digits_le (suc n) zero b = omega arith
and_digits_le (suc n) (suc a) b = omega (arith, and_digits_le n (suc a / 2) (b / 2))

-- Nor is it more than the first.
and_digits_le_first : (n a b : ℕ) → digits (λ y. zero) min n a b ≤ a
and_digits_le_first zero a b = omega arith
and_digits_le_first (suc n) zero b = omega arith
and_digits_le_first (suc n) (suc a) b = omega (arith, and_digits_le_first n (suc a / 2) (b / 2))

align_down_bounds : (a x : ℕ) → 0 < a → (align_down a x ≤ x) × (x < align_down a x + a)
unfolding align_down
align_down_bounds a x h =
    let m = bit_and x (a - 1) in
    let low : m ≤ a - 1 = rw (bit_and-bitwise x (a - 1)) (and_digits_le x x (a - 1)) in
    let within : m ≤ x = rw (bit_and-bitwise x (a - 1)) (and_digits_le_first x x (a - 1)) in
    omega (arith, h, low, within)

-- The allocation of a segment covers its memory.
segment_covered :
    (base : ℕ) (p : ProgramHeader)
    → want_mem base p + p.p_memsz + p.p_align < word
    → (aligned_mem base p ≤ want_mem base p)
      × (want_mem base p + p.p_memsz ≤ aligned_mem base p + aligned_size base p)
      × (aligned_mem base p + aligned_size base p < word)
unfolding aligned_mem aligned_size
segment_covered base p room = elim (Bool-cases (ltb 1 p.p_align)) [
  | inl y ↦
      let a = p.p_align in
      let positive : 0 < a = ground (arith, y) in
      let (b1, b2) = align_down_bounds a (want_mem base p) positive in
      let gap = want_mem base p - align_down a (want_mem base p) in
      let x = p.p_memsz + gap + (a - 1) in
      let small : x % word ≡ x = omega (arith, b1, b2, room, positive) in
      let (c1, c2) = align_down_bounds a x positive in
      rw y (
        rw small (
          b1,
          omega (arith, b1, b2, c1, c2, positive),
          omega (arith, b1, b2, c1, c2, positive, room),
        ))
  | inr y ↦ rw y (omega arith, omega arith, omega (arith, room))
]

not_done : false ≡ true → ⊥
not_done x = cc

raise_le : (kept x : ℕ) → (kept ≤ raise kept x) × (x ≤ raise kept x)
raise_le kept x = ground arith

module _ (image : ImageMemory) (h : ElfHeader) (count base : ℕ) where
  open image use {Space}

  after_segment-brk :
      (d : ElfLoadData) (p : ProgramHeader) (r : Space × Bool)
      → d.brk ≤ (after_segment image false base d p r).1.brk
  unfolding after_segment track track_program
  after_segment-brk d p (t, true) =
      (raise_le d.brk ((aligned_mem base p + aligned_size base p) % word)).0
  after_segment-brk d p (t, false) = omega arith

  -- The break does not go down.
  load_header-brk :
      (s : Space) (d : ElfLoadData) (p : ProgramHeader)
      → d.brk ≤ (load_header image false h count base s d p).1.brk
  unfolding load_header
  load_header-brk s d p =
      by_type (p.p_type == pt_load) (p.p_type == pt_phdr) (p.p_type == pt_interp)
        (after_segment image false base d p (load_segment image s base p))
        (after_segment-brk d p (load_segment image s base p))
    where
      by_type :
          (a b c : Bool) (r : Space × ElfLoadData × Bool)
          → d.brk ≤ r.1.brk
          → d.brk
            ≤ (if a
                then r
                else if b
                then (
                  s,
                  record d {
                    phdr_addr = (p.p_vaddr + base) % word;
                    phdr_phnum = count;
                    phdr_phent = h.e_phentsize;
                  },
                  true,
                )
                else if c
                then (s, record d { interpreter = image.read_file p.p_offset p.p_filesz }, true)
                else (s, d, true)).1.brk
      by_type true b c r e = e
      by_type false true c r e = omega arith
      by_type false false true r e = omega arith
      by_type false false false r e = omega arith

  load_headers-brk :
      (ps : List ProgramHeader) (s : Space) (d : ElfLoadData)
      → d.brk ≤ (load_headers image false h count base ps s d).1.brk
  unfolding load_headers go_on
  load_headers-brk [] s d = omega arith
  load_headers-brk (p ∷ ps) s d =
      onward (load_header image false h count base s d p) (load_header-brk s d p)
        (load_headers-brk ps)
    where
      onward :
          (r : Space × ElfLoadData × Bool)
          → d.brk ≤ r.1.brk
          → ((t : Space) (e : ElfLoadData)
              → e.brk ≤ (load_headers image false h count base ps t e).1.brk)
          → d.brk ≤ (go_on image (load_headers image false h count base ps) r).1.brk
      onward (t, e, true) here rest = omega (arith, here, rest t e)
      onward (t, e, false) here rest = here

  -- A segment that is loaded ends at the break or below it.
  load_segment-brk :
      (s t : Space) (d e : ElfLoadData) (p : ProgramHeader)
      → load_header image false h count base s d p ≡ (t, e, true)
      → p.p_type ≡ pt_load
      → want_mem base p + p.p_memsz + p.p_align < word
      → want_mem base p + p.p_memsz ≤ e.brk
  unfolding load_header after_segment track track_program
  load_segment-brk s t d e p ran load room =
      let y : (p.p_type == pt_load) ≡ true = ground (arith, load) in
      loaded (load_segment image s base p) (rw y at ran)
    where
      loaded :
          (r : Space × Bool)
          → after_segment image false base d p r ≡ (t, e, true)
          → want_mem base p + p.p_memsz ≤ e.brk
      loaded (u, true) ran =
          let (a, b, c) = segment_covered base p room in
          let fresh : (aligned_mem base p + aligned_size base p) % word
              ≡ aligned_mem base p + aligned_size base p =
            omega (arith, c) in
          let kept = (raise_le d.brk ((aligned_mem base p + aligned_size base p) % word)).1 in
          let same : (track false d p (aligned_mem base p) (aligned_size base p)).brk ≡ e.brk =
            ap (λ q. q.1.brk) ran in
          omega (arith, b, fresh, kept, same)
      loaded (u, false) ran = absurd (not_done (ap (λ q. q.2) ran))

  load_headers-covered :
      (ps : List ProgramHeader) (s t : Space) (d e : ElfLoadData) (i : ℕ) (p : ProgramHeader)
      → load_headers image false h count base ps s d ≡ (t, e, true)
      → get_elem? ps i ≡ some p
      → p.p_type ≡ pt_load
      → want_mem base p + p.p_memsz + p.p_align < word
      → want_mem base p + p.p_memsz ≤ e.brk
  unfolding load_headers go_on
  load_headers-covered [] s t d e i p ran at load room = absurd (cc)
  load_headers-covered (q ∷ ps) s t d e zero p ran at load room =
      onward (load_header image false h count base s d q) refl ran
    where
      onward :
          (r : Space × ElfLoadData × Bool)
          → load_header image false h count base s d q ≡ r
          → go_on image (load_headers image false h count base ps) r ≡ (t, e, true)
          → want_mem base p + p.p_memsz ≤ e.brk
      onward (u, f, true) first rest =
          let same : q ≡ p = some_inj at in
          let here =
            load_segment-brk s u d f p
              (ap (load_header image false h count base s d) (sym same) ∙ first) load room in
          let up = load_headers-brk ps u f in
          let end : (load_headers image false h count base ps u f).1.brk ≡ e.brk =
            ap (λ r. r.1.brk) rest in
          omega (arith, here, up, end)
      onward (u, f, false) first rest = absurd (not_done (ap (λ r. r.2) rest))
  load_headers-covered (q ∷ ps) s t d e (suc i) p ran at load room =
      onward (load_header image false h count base s d q) ran (load_headers-covered ps)
    where
      onward :
          (r : Space × ElfLoadData × Bool)
          → go_on image (load_headers image false h count base ps) r ≡ (t, e, true)
          → ((s t : Space) (d e : ElfLoadData) (i : ℕ) (p : ProgramHeader)
              → load_headers image false h count base ps s d ≡ (t, e, true)
              → get_elem? ps i ≡ some p
              → p.p_type ≡ pt_load
              → want_mem base p + p.p_memsz + p.p_align < word
              → want_mem base p + p.p_memsz ≤ e.brk)
          → want_mem base p + p.p_memsz ≤ e.brk
      onward (u, f, true) rest later = later u t f e i p rest at load room
      onward (u, f, false) rest later = absurd (not_done (ap (λ r. r.2) rest))

module _ (image : ImageMemory) (h : ElfHeader) (count base : ℕ) where
  open image use {Space}

  -- A segment is loaded only if its allocation returns the address that was asked for.
  load_segment_at_address :
      (s u : Space) (p : ProgramHeader)
      → load_segment image s base p ≡ (u, true)
      → (image.allocate s (aligned_mem base p) (aligned_size base p)).1 ≡ aligned_mem base p
  unfolding load_segment
  load_segment_at_address s u p ran =
      let mem = aligned_mem base p in
      let got = (image.allocate s mem (aligned_size base p)).1 in
      elim (Bool-cases (got == mem)) [
        | inl same ↦ (==_iff got mem).0 same
        | inr other ↦ absurd (not_done (ap (λ r. r.1) (rw other at ran)))
      ]

  -- The space before a header, which the headers in front of it leave, and what it allocates there.
  abbrev pub Allocated : List ProgramHeader → Space → ElfLoadData → ℕ → ProgramHeader → Type 0
  Allocated ps s d i p =
      (u : Space) × (f : ElfLoadData) × (load_headers image false h count base (take i ps) s d
        ≡ (u, f, true))
      × ((image.allocate u (aligned_mem base p) (aligned_size base p)).1 ≡ aligned_mem base p)

  load_header_at_address :
      (s t : Space) (d e : ElfLoadData) (p : ProgramHeader)
      → load_header image false h count base s d p ≡ (t, e, true)
      → p.p_type ≡ pt_load
      → (image.allocate s (aligned_mem base p) (aligned_size base p)).1 ≡ aligned_mem base p
  unfolding load_header after_segment
  load_header_at_address s t d e p ran load =
      let y : (p.p_type == pt_load) ≡ true = ground (arith, load) in
      loaded (load_segment image s base p) refl (rw y at ran)
    where
      loaded :
          (r : Space × Bool)
          → load_segment image s base p ≡ r
          → after_segment image false base d p r ≡ (t, e, true)
          → (image.allocate s (aligned_mem base p) (aligned_size base p)).1 ≡ aligned_mem base p
      loaded (u, true) done ran = load_segment_at_address s u p done
      loaded (u, false) done ran = absurd (not_done (ap (λ q. q.2) ran))

  load_headers-Allocated :
      (ps : List ProgramHeader) (s t : Space) (d e : ElfLoadData) (i : ℕ) (p : ProgramHeader)
      → load_headers image false h count base ps s d ≡ (t, e, true)
      → get_elem? ps i ≡ some p
      → p.p_type ≡ pt_load
      → Allocated ps s d i p
  unfolding load_headers go_on
  load_headers-Allocated [] s t d e i p ran at load = absurd (cc)
  load_headers-Allocated (q ∷ ps) s t d e zero p ran at load =
      onward (load_header image false h count base s d q) refl ran
    where
      onward :
          (r : Space × ElfLoadData × Bool)
          → load_header image false h count base s d q ≡ r
          → go_on image (load_headers image false h count base ps) r ≡ (t, e, true)
          → Allocated (q ∷ ps) s d 0 p
      onward (u, f, true) first rest =
          let same : q ≡ p = some_inj at in
          (
            s,
            d,
            refl,
            load_header_at_address s u d f p
                (ap (load_header image false h count base s d) (sym same) ∙ first) load,
          )
      onward (u, f, false) first rest = absurd (not_done (ap (λ r. r.2) rest))
  load_headers-Allocated (q ∷ ps) s t d e (suc i) p ran at load =
      onward (load_header image false h count base s d q) refl ran (load_headers-Allocated ps)
    where
      onward :
          (r : Space × ElfLoadData × Bool)
          → load_header image false h count base s d q ≡ r
          → go_on image (load_headers image false h count base ps) r ≡ (t, e, true)
          → ((s t : Space) (d e : ElfLoadData) (i : ℕ) (p : ProgramHeader)
              → load_headers image false h count base ps s d ≡ (t, e, true)
              → get_elem? ps i ≡ some p
              → p.p_type ≡ pt_load
              → Allocated ps s d i p)
          → Allocated (q ∷ ps) s d (suc i) p
      onward (u, f, true) first rest later =
          let (v, g, before, got) = later u t f e i p rest at load in (v, g, rw first before, got)
      onward (u, f, false) first rest later = absurd (not_done (ap (λ r. r.2) rest))

-- If the image of a program loads up to its interpreter, then each of its PT_LOAD segments whose
-- memory ends an alignment below the end of the address space has been allocated in the process as the
-- headers in front of it leave it, at the address that was asked for; the area covers the
-- memory of the segment, and the memory ends at the program break or below it.
pub load_elf_image-covered :
    (image : ImageMemory) (h : ElfHeader) (ps : List ProgramHeader) (s t : image.Space)
    (d e : ElfLoadData) (i : ℕ) (p : ProgramHeader)
    → load_elf_image image false h ps s d ≡ some (t, e, true)
    → get_elem? ps i ≡ some p
    → p.p_type ≡ pt_load
    → want_mem (base_addr false h d) p + p.p_memsz + p.p_align < word
    → Allocated image h (length ps) (base_addr false h d) ps s (start_load false h d) i p
      × (aligned_mem (base_addr false h d) p ≤ want_mem (base_addr false h d) p)
      × (want_mem (base_addr false h d) p + p.p_memsz
          ≤ aligned_mem (base_addr false h d) p + aligned_size (base_addr false h d) p)
      × (want_mem (base_addr false h d) p + p.p_memsz ≤ e.brk)
unfolding load_elf_image
load_elf_image-covered image h ps s t d e i p ran at load room =
    let base = base_addr false h d in
    let (a, b, c) = segment_covered base p room in
    let done = checked (is_format h) (h.e_phoff == 0) ran in
    (
      load_headers-Allocated image h (length ps) base ps s t (start_load false h d) e i p done at
          load,
      a,
      b,
      load_headers-covered image h (length ps) base ps s t (start_load false h d) e i p done at load
          room,
    )
  where
    checked :
        (f g : Bool)
        → (if not f
            then none
            else if g
            then some (s, d, false)
            else some (
                load_headers image false h
                  (length ps)
                  (base_addr false h d)
                  ps
                  s
                  (start_load false h d)))
          ≡ some (t, e, true)
        → load_headers image false h (length ps) (base_addr false h d) ps s (start_load false h d)
          ≡ (t, e, true)
    checked false g r = absurd (cc)
    checked true true r = absurd (not_done (ap (λ x. x.2) (some_inj r)))
    checked true false r = some_inj r
