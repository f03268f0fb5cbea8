-- ===== src/Text/Contents.antt =====
-- Growing a string and adding to it: the bytes that it stands for.
use keow.Prelude.{
  ◌<◌, ◌^◌, ◌%◌, false, ℕ, ◌+◌, ◌-◌, ◌≤◌, ◌≡◌, refl, ap, sym, ◌∙◌, inl, inr, true, List, [], ◌∷◌,
  ◌++◌, some, arith, leb, length, append-nil, Bool-cases, tests, leb-false→lt,
}
use keow.Errno.{word, is_negative}
use keow.Text.{
  Text, Allocator, read_at, grow, grow_block, reserve, null_terminate, append_bytes, append_char,
  append_c_string, append, is_empty, c_string,
}
use keow.Text.Blocks.{
  IsShort, contents, IsSized, IsValid, Gives, length-contents, Gives-eq, write_at_lem, read_at_lem,
  grow_bounds, get_elem?_of_drop, take_at, take_none, old_lem,
}

module _ (heap : Allocator) where
  reserve_fits :
      (s : Text) (size : ℕ)
      → size % word ≡ size
      → is_negative size ≡ false
      → leb size s.capacity ≡ true
      → reserve heap s size ≡ some s
  unfolding reserve
  reserve_fits s size same plain fits = rw (same, plain, fits) refl

  reserve_grown :
      (s : Text) (size : ℕ)
      → size % word ≡ size
      → is_negative size ≡ false
      → leb size s.capacity ≡ false
      → is_negative (grow size s.capacity size) ≡ false
      → reserve heap s size ≡ grow_block heap s (grow size s.capacity size)
  unfolding reserve
  reserve_grown s size same plain short grown = rw (same, plain, short, grown) refl

  -- `reserve` of a size that leaves room in an int never faults on a string whose block has its recorded
  -- size: the text stays, the block is
  -- as large as was asked for, and it has grown by less than 1024 bytes more than it had to.
  pub reserve_lem :
      (s : Text) (size : ℕ)
      → IsSized s
      → size + 1024 ≤ 2 ^ 31
      → (r : Text) × (reserve heap s size ≡ some r)
        × IsSized r
        × (r.len ≡ s.len)
        × (contents r ≡ contents s)
        × (size ≤ r.capacity)
        × (r.capacity ≤ s.capacity + (size + 1023 - s.capacity))
  unfolding grow_block
  reserve_lem s size v int =
      let same : size % word ≡ size = omega (arith, int) in
      let plain : is_negative size ≡ false = ground (arith, int) in
      elim (Bool-cases (leb size s.capacity)) [
        | inl fits ↦
            (s, reserve_fits s size same plain fits, v, refl, refl, omega tests, omega arith)
        | inr short ↦
            let cap = grow size s.capacity size in
            let low : s.capacity < size = leb-false→lt size s.capacity short in
            let (up, _, least) = grow_bounds size s.capacity size (omega arith) in
            let grown : is_negative cap ≡ false = ground (arith, least, int, low) in
            let (old, len_old) = old_lem s v in
            let more : s.len ≤ cap = omega (arith, v.within, up, low) in
            let (block, e, size_block, front, _, _) =
              write_at_lem (heap.fresh cap) 0 (contents s)
                (omega (arith, heap.length-fresh cap, len_old, more)) in
            (
              record { chars = block; len = s.len; capacity = cap },
              reserve_grown s size same plain short grown ∙ rw (old, e) refl,
              record { sized = size_block ∙ heap.length-fresh cap; within = more },
              refl,
              take_at (0 + length (contents s)) s.len block (omega (arith, len_old)) front,
              up,
              least,
            )
      ]

  -- The last write of every change: the text keeps its bytes and gains its NUL.
  pub null_terminate_lem :
      (s : Text) → IsSized s → IsShort s.len → Gives (null_terminate heap s) (contents s)
  unfolding null_terminate
  null_terminate_lem s v short =
      let (r, e, w, n, c, room, _) = reserve_lem s (s.len + 1) v (omega (arith, short)) in
      let (block, e', size, _, back, front) =
        write_at_lem r.chars r.len (0 ∷ []) (omega (arith, w.sized, n, room)) in
      (
        record r { chars = block },
        rw (e, e'),
        record {
          is_sized = record { sized = size ∙ w.sized; within = w.within };
          closed = inr (omega (arith, n, room), get_elem?_of_drop r.len block back);
          short = omega (arith, n, short);
        },
        front ∙ c,
      )

  append_bytes_lem :
      (s : Text) (room : ℕ) (bytes : List ℕ)
      → IsSized s
      → s.len + length bytes ≤ room
      → IsShort room
      → Gives (append_bytes heap s room bytes) (contents s ++ bytes)
  unfolding append_bytes
  append_bytes_lem s room bytes v fits short =
      let (r, e, w, n, c, up, _) = reserve_lem s room v (omega (arith, short)) in
      let (block, e', size, front, _, _) =
        write_at_lem r.chars r.len bytes (omega (arith, w.sized, n, up)) in
      let s' : Text = record { chars = block; len = r.len + length bytes; capacity = r.capacity } in
      rw (e, e')
        (Gives-eq (front ∙ ap (λ xs. xs ++ bytes) c) (
          null_terminate_lem s' (record { sized = size ∙ w.sized; within = omega (arith, n, up) })
            (omega (arith, n, fits, short))))

  -- `operator += (char)` never faults on a valid string that leaves room for it in an int, and adds the
  -- character at the end.
  pub append_char_lem :
      (s : Text) (c : ℕ)
      → IsValid s
      → IsShort (s.len + 2)
      → Gives (append_char heap s c) (contents s ++ c ∷ [])
  unfolding append_char
  append_char_lem s c v short =
      append_bytes_lem s (s.len + 2) (c ∷ []) v.is_sized (omega arith) short

  -- `operator += (const char *)` adds the bytes of a C string that ends within its block, when the
  -- sum of the lengths leaves room in an int.
  pub append_c_string_lem :
      (s : Text) (str bytes : List ℕ)
      → IsValid s
      → c_string str ≡ some bytes
      → IsShort (s.len + length bytes)
      → Gives (append_c_string heap s str) (contents s ++ bytes)
  unfolding append_c_string
  append_c_string_lem s str bytes v e short =
      rw e (append_bytes_lem s (s.len + length bytes) bytes v.is_sized (omega arith) short)

  -- What is read out of a valid string.
  pub read_contents : (t : Text) → IsSized t → (read_at t.chars 0 t.len ≡ some (contents t))
  read_contents t v = (read_at_lem t.chars 0 t.len (omega (arith, v.sized, v.within))).0

  is_empty-contents : (t : Text) → IsSized t → is_empty t ≡ true → contents t ≡ []
  unfolding is_empty
  is_empty-contents t v e = take_none t.len t.chars (grind (arith, v.within))

  -- `operator += (const string&)` never faults on valid strings, and concatenates, when the sum of their
  -- lengths is at most the largest int less 1024, which leaves room for the NUL and for the step by which
  -- a block grows.
  pub append_lem :
      (s t : Text)
      → IsValid s
      → IsValid t
      → s.len + t.len + 1025 ≤ 2 ^ 31
      → Gives (append heap s t) (contents s ++ contents t)
  unfolding append
  append_lem s t v w short = elim (Bool-cases (is_empty t)) [
    | inl none_there ↦
        rw (none_there, is_empty-contents t w.is_sized none_there)
          (s, refl, v, sym (append-nil (contents s)))
    | inr some_there ↦
        rw (some_there, read_contents t w.is_sized)
          (append_bytes_lem s (s.len + t.len) (contents t) v.is_sized
            (omega (arith, length-contents t w.is_sized)) short)
  ]
