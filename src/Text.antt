-- ===== src/Text.antt =====
-- The string class of keow-kernel/KeowKernel/String.cpp, over the block of bytes it owns.
pub mod Blocks
pub mod Contents
pub mod Assign
pub mod Search
mod Tests
use keow.Prelude.{
  ℕ, zero, suc, ◌+◌, ◌-◌, ◌%◌, ◌^◌, ◌≡◌, refl, Bool, true, false, ◌||◌, List, [], ◌∷◌, ◌++◌, Option,
  none, some, ltb, leb, ◌==◌, if◌then◌else◌, ◌>>=◌, length, get_elem?, get_or, take, drop,
}
use keow.Errno.{word, is_negative}
use Prim.Native.Nat.{compare, Ordering}

-- `chars` is the block at m_pChars, and is empty where that is NULL. The lengths are ints,
-- and not negative; `reserve` says what it does of a sum that is past the largest.
pub record Text : Type 0 where
  pub chars : List ℕ
  pub len : ℕ
  pub capacity : ℕ

-- What `new char[n]` returns: a block of n bytes that nothing has written yet.
pub record Allocator : Type 0 where
  pub fresh : ℕ → List ℕ
  pub length-fresh : (n : ℕ) → length (fresh n) ≡ n

-- A C string: the bytes before the first NUL. `none` is a read past the block, NULL included.
unfoldable pub c_string : List ℕ → Option (List ℕ)
c_string [] = none
c_string (c ∷ cs) =
    let rest = c_string cs in if c == 0 then some [] else (rest >>= λ s. some (c ∷ s))

-- memcpy to an offset of a block. `none` is a write past the block.
unfoldable pub write_at : List ℕ → ℕ → List ℕ → Option (List ℕ)
write_at block at bytes =
    if leb (at + length bytes) (length block)
    then some (take at block ++ (bytes ++ drop (at + length bytes) block))
    else none

-- memcpy from a block. `none` is a read past it.
unfoldable pub read_at : List ℕ → ℕ → ℕ → Option (List ℕ)
read_at block at n = if leb (at + n) (length block) then some (take n (drop at block)) else none

-- `while(m_nCapacity < size) m_nCapacity += 1024`; `size` rounds are enough.
unfoldable pub grow : ℕ → ℕ → ℕ → ℕ
grow zero capacity size = capacity
grow (suc rounds) capacity size =
    let more = grow rounds (capacity + 1024) size in if ltb capacity size then more else capacity

unfoldable pub strcmp : List ℕ → List ℕ → Ordering
strcmp [] [] = Ordering.eq
strcmp [] (d ∷ ds) = Ordering.lt
strcmp (c ∷ cs) [] = Ordering.gt
strcmp (c ∷ cs) (d ∷ ds) =
    let rest = strcmp cs ds in
    elim (compare c d) [
      | Ordering.lt ↦ Ordering.lt
      | Ordering.eq ↦ rest
      | Ordering.gt ↦ Ordering.gt
    ]

unfoldable pub empty_text : Text
empty_text = record { chars = []; len = 0; capacity = 0 }

unfoldable pub is_empty : Text → Bool
is_empty s = s.capacity == 0 || s.len == 0

-- The loop of `find` from a position; `i` is the position of the head.
unfoldable pub find_from : ℕ → List ℕ → ℕ → Option ℕ
find_from c [] i = none
find_from c (d ∷ ds) i = let later = find_from c ds (i + 1) in if d == c then some i else later

-- `none` is the -1 of a character that is not there.
unfoldable pub find : Text → ℕ → ℕ → Option ℕ
find s c pos = if is_empty s then none else find_from c (drop pos (take s.len s.chars)) pos

-- `operator[]` read: past the end it is the static dummy, which is NUL.
unfoldable pub at : Text → ℕ → ℕ
at s pos = if leb s.len pos then 0 else get_or s.chars pos 0

unfoldable pub compare_bytes : Text → List ℕ → Option Ordering
compare_bytes s str = c_string s.chars >>= λ a. some (strcmp a str)

unfoldable pub compare_text : Text → Text → Option Ordering
compare_text s t = c_string s.chars >>= λ a. c_string t.chars >>= λ b. some (strcmp a b)

-- A `char` is signed, and is added to an unsigned 32-bit sum.
unfoldable pub hash_from : ℕ → List ℕ → ℕ
hash_from h [] = h
hash_from h (c ∷ cs) = hash_from ((h + (if ltb c 128 then c else c + 2 ^ 32 - 256)) % 2 ^ 32) cs

unfoldable pub hash : Text → ℕ
hash s = hash_from 0 (take s.len s.chars)

module _ (heap : Allocator) where
  -- The new block, with the text copied over.
  unfoldable pub grow_block : Text → ℕ → Option Text
  grow_block s capacity = (if s.capacity == 0 then some [] else read_at s.chars 0 s.len) >>= λ old.
      write_at (heap.fresh capacity) 0 old >>= λ block.
      some (record { chars = block; len = s.len; capacity = capacity })

  -- The size is a sum as the caller writes it, and an int once it is passed: one past the largest int
  -- is negative. `none` is also a capacity that grows past the largest int.
  unfoldable pub reserve : Text → ℕ → Option Text
  reserve s size =
      let n = size % word in
      if is_negative n || leb n s.capacity
      then some s
      else (let capacity = grow n s.capacity n in
          if is_negative capacity then none else grow_block s capacity)

  unfoldable pub null_terminate : Text → Option Text
  null_terminate s = reserve s (s.len + 1) >>= λ r.
      write_at r.chars r.len (0 ∷ []) >>= λ block. some (record r { chars = block })

  -- reserve, memcpy behind the text, the new length, null_terminate.
  unfoldable pub append_bytes : Text → ℕ → List ℕ → Option Text
  append_bytes s room bytes = reserve s room >>= λ r. write_at r.chars r.len bytes >>= λ block.
      null_terminate (record { chars = block; len = r.len + length bytes; capacity = r.capacity })

  -- `operator += (char)` reserves two bytes.
  unfoldable pub append_char : Text → ℕ → Option Text
  append_char s c = append_bytes s (s.len + 2) (c ∷ [])

  -- `operator += (const char *)`: the argument is a block with its NUL.
  unfoldable pub append_c_string : Text → List ℕ → Option Text
  append_c_string s str = c_string str >>= λ bytes. append_bytes s (s.len + length bytes) bytes

  unfoldable pub append : Text → Text → Option Text
  append s t =
      if is_empty t
      then some s
      else (read_at t.chars 0 t.len >>= λ bytes. append_bytes s (s.len + t.len) bytes)

  -- `operator =` from a C string.
  unfoldable pub assign_c_string : Text → List ℕ → Option Text
  assign_c_string s str = c_string str >>= λ bytes. reserve s (length bytes) >>= λ r.
      write_at r.chars 0 bytes >>= λ block.
      null_terminate (record { chars = block; len = length bytes; capacity = r.capacity })

  -- `operator =` copies only if the source has a block.
  unfoldable pub assign : Text → Text → Option Text
  assign s t = reserve s t.len >>= λ r.
      (if t.capacity == 0
        then some r.chars
        else (read_at t.chars 0 t.len >>= λ bytes. write_at r.chars 0 bytes))
      >>= λ block. null_terminate (record { chars = block; len = t.len; capacity = r.capacity })

  -- The body of `substr` once the count is clipped.
  unfoldable pub copy_out : Text → ℕ → ℕ → Option Text
  copy_out s pos n = reserve empty_text n >>= λ r. read_at s.chars pos n >>= λ bytes.
      write_at r.chars 0 bytes >>= λ block.
      null_terminate (record { chars = block; len = n; capacity = r.capacity })

  unfoldable pub substr : Text → ℕ → ℕ → Option Text
  substr s pos n =
      if ltb pos s.len
      then copy_out s pos (if ltb s.len (pos + n) then s.len - pos else n)
      else some empty_text

  unfoldable pub substr_from : Text → ℕ → Option Text
  substr_from s pos = substr s pos s.len

  unfoldable pub get_buffer : Text → ℕ → Option Text
  get_buffer s size = reserve s (size + 1)

-- The length is what strlen finds in the block.
unfoldable pub release_buffer : Text → Option Text
release_buffer s = c_string s.chars >>= λ bytes. some (record s { len = length bytes })
