-- ===== src/Text/Assign.antt =====
-- Overwriting a string and taking a part of one: the bytes that the result stands for.
use keow.Prelude.{
  ℕ, ◌+◌, ◌-◌, ◌≤◌, ◌<◌, ◌≡◌, refl, sym, ◌∙◌, inl, inr, List, some, arith, ltb, ◌==◌, if◌then◌else◌,
  ◌>>=◌, length, take, drop, take-drop-take, take-nil, drop_all, ltb→lt, ltb-false→le, length-drop,
  take_all, Bool-cases, ==_iff, tests,
}
use keow.Text.{
  Text, Allocator, write_at, null_terminate, assign, assign_c_string, copy_out, substr, empty_text,
  c_string,
}
use keow.Text.Blocks.{
  IsShort, contents, IsSized, IsValid, Gives, length-contents, Gives-eq, write_at_lem, read_at_lem,
  take_at, take_none,
}
use keow.Text.Contents.{reserve_lem, null_terminate_lem, read_contents}

module _ (heap : Allocator) where
  -- The new contents are written over the reserved block from its start.
  overwrite_lem :
      (r : Text) (n : ℕ) (bytes : List ℕ)
      → IsSized r
      → n ≡ length bytes
      → n ≤ r.capacity
      → IsShort n
      → Gives
          (write_at r.chars 0 bytes >>= λ block.
            null_terminate heap (record { chars = block; len = n; capacity = r.capacity }))
          bytes
  overwrite_lem r n bytes w e fits short =
      let (block, e', size, front, _, _) = write_at_lem r.chars 0 bytes (omega (arith, w.sized)) in
      let s' : Text = record { chars = block; len = n; capacity = r.capacity } in
      rw e' (
        Gives-eq (take_at _ n block (omega arith) front)
          (null_terminate_lem heap s' (record { sized = size ∙ w.sized; within = fits }) short))

  -- `operator = (const char *)` makes a valid string hold the bytes of a C string, when they
  -- leave room in an int.
  pub assign_c_string_lem :
      (s : Text) (str bytes : List ℕ)
      → IsValid s
      → c_string str ≡ some bytes
      → IsShort (length bytes)
      → Gives (assign_c_string heap s str) bytes
  unfolding assign_c_string
  assign_c_string_lem s str bytes v e short =
      let (r, e', w, _, _, up, _) =
        reserve_lem heap s (length bytes) v.is_sized (omega (arith, short)) in
      rw (e, e') (overwrite_lem r (length bytes) bytes w refl up short)

  -- `operator =` never faults on valid strings, and makes the target hold the source's text.
  pub assign_lem : (s t : Text) → IsValid s → IsValid t → Gives (assign heap s t) (contents t)
  unfolding assign
  assign_lem s t v u =
      let (r, e, w, n, c, up, _) = reserve_lem heap s t.len v.is_sized (omega (arith, u.short)) in
      elim (Bool-cases (t.capacity == 0)) [
        | inl null ↦
            let nothing : t.len ≡ 0 =
              omega (arith, (==_iff t.capacity 0).0 null, u.is_sized.within) in
            let s' : Text = record { chars = r.chars; len = t.len; capacity = r.capacity } in
            rw (e, null)
              (Gives-eq (take_none t.len r.chars nothing ∙ sym (take_none t.len t.chars nothing))
                (null_terminate_lem heap s' (record { sized = w.sized; within = up }) u.short))
        | inr block ↦
            rw (e, block, read_contents heap t u.is_sized)
              (overwrite_lem r t.len (contents t) w (sym (length-contents t u.is_sized)) up u.short)
      ]

  empty_text-IsSized : IsSized empty_text
  unfolding empty_text
  empty_text-IsSized = record { sized = refl; within = omega arith }

  copy_out_lem :
      (s : Text) (pos n : ℕ)
      → IsSized s
      → pos + n ≤ s.len
      → IsShort n
      → Gives (copy_out heap s pos n) (take n (drop pos (contents s)))
  unfolding copy_out
  copy_out_lem s pos n v fits short =
      let (r, e, w, _, _, up, _) =
        reserve_lem heap empty_text n empty_text-IsSized (omega (arith, short)) in
      let (e', size) = read_at_lem s.chars pos n (omega (arith, v.sized, v.within)) in
      rw (e, e')
        (Gives-eq (sym (take-drop-take pos n s.len s.chars fits))
          (overwrite_lem r n (take n (drop pos s.chars)) w (sym size) up short))

  -- `substr` never faults on a valid string: it gives the part of the text from `pos` that is there.
  pub substr_lem :
      (s : Text) (pos n : ℕ)
      → IsValid s
      → Gives (substr heap s pos n) (take n (drop pos (contents s)))
  unfolding substr empty_text
  substr_lem s pos n v = elim (Bool-cases (ltb pos s.len)) [
    | inl inside ↦ rw inside (inside_lem (ltb→lt _ _ inside))
    | inr outside ↦
        rw
          (
            outside,
            drop_all pos (contents s) (omega (tests, length-contents s v.is_sized)),
            take-nil {A = ℕ} n,
          )
          (
            empty_text,
            refl,
            record {
              is_sized = empty_text-IsSized;
              closed = inl (refl, refl);
              short = omega arith;
            },
            refl,
          )
  ]
    where
      inside_lem :
          pos < s.len
          → Gives
              (copy_out heap s pos (if ltb s.len (pos + n) then s.len - pos else n))
              (take n (drop pos (contents s)))
      inside_lem h = elim (Bool-cases (ltb s.len (pos + n))) [
        | inl clipped ↦
            let most : s.len < pos + n = ltb→lt _ _ clipped in
            let rest : length (drop pos (contents s)) ≡ s.len - pos =
              omega (arith, length-drop pos (contents s), length-contents s v.is_sized) in
            rw clipped (
              Gives-eq
                (take_all (s.len - pos) (drop pos (contents s)) (omega (arith, rest))
                  ∙ sym (take_all n (drop pos (contents s)) (omega (arith, rest))))
                (copy_out_lem s pos (s.len - pos) v.is_sized (omega arith)
                  (omega (arith, v.short))))
        | inr whole ↦ rw whole (
            copy_out_lem s pos n v.is_sized (ltb-false→le _ _ whole)
              (omega (arith, v.short, ltb-false→le _ _ whole)))
      ]
