-- ===== src/StaticData/Reading.antt =====
-- Reading an object that holds its data.
use keow.Prelude.{
  ℕ, ◌+◌, ◌-◌, ◌%◌, ◌^◌, ◌≤◌, ◌<◌, ◌≡◌, ◌∙◌, refl, ap, sym, inl, inr, false, List, [], ◌++◌, Option,
  none, some, arith, ltb, ◌==◌, length, take, drop, take-nil, drop_all, take_all, length-take,
  length-drop, drop-drop, take-add, length-append, Bool-cases, ltb→lt, ltb-false→le, ==_iff,
}
use keow.Errno.{is_negative, word}
use keow.Text.Blocks.{read_at_lem}
use keow.StaticData.{StaticData, read_fresh, read_data, refresh_data}

-- The pointer is in the data or at its end, and the length is an int.
pub record IsPlaced (d : StaticData) : Type 0 where
  pub placed : d.file_pointer ≤ length d.data_block
  pub int : length d.data_block < 2 ^ 31

-- What is left to read.
abbrev pub remaining : StaticData → List ℕ
remaining d = drop d.file_pointer d.data_block

-- A read gives the first bytes of what is left, and the pointer moves behind them.
abbrev pub Reads : StaticData → ℕ → Option (StaticData × List ℕ) → Type 0
Reads d size r =
    (d' : StaticData) × (r ≡ some (d', take size (remaining d)))
    × (d'.data_block ≡ d.data_block)
    × (d'.refreshable ≡ d.refreshable)
    × (d'.file_pointer ≡ d.file_pointer + length (take size (remaining d)))
    × IsPlaced d'

left_lem :
    (d : StaticData)
    → IsPlaced d
    → (length d.data_block + (word - d.file_pointer)) % word ≡ length d.data_block - d.file_pointer
left_lem d p = omega (arith, p.placed, p.int)

length-remaining : (d : StaticData) → length (remaining d) ≡ length d.data_block - d.file_pointer
length-remaining d = length-drop d.file_pointer d.data_block

advance :
    (d : StaticData) (size n : ℕ)
    → IsPlaced d
    → d.file_pointer + n ≤ length d.data_block
    → take n (remaining d) ≡ take size (remaining d)
    → Reads d size
        (some (record d { file_pointer = (d.file_pointer + n) % word }, take n (remaining d)))
advance d size n p fits same =
    let counted : length (take size (remaining d)) ≡ n =
      rw⁻¹ same (omega (arith, length-take n (remaining d), length-remaining d)) in
    let end : (d.file_pointer + n) % word ≡ d.file_pointer + n = omega (arith, fits, p.int) in
    (
      record d { file_pointer = (d.file_pointer + n) % word },
      rw same refl,
      refl,
      refl,
      omega (arith, counted, end),
      record { placed = omega (arith, end, fits); int = p.int },
    )

ended :
    (d : StaticData) (size : ℕ)
    → IsPlaced d
    → length d.data_block - d.file_pointer ≡ 0
    → take size (remaining d) ≡ []
ended d size p e =
    ap (take size) (drop_all d.file_pointer d.data_block (omega (arith, p.placed))) ∙ take-nil size

small : (n : ℕ) → n < 2 ^ 31 → is_negative n ≡ false
small n h = ground arith

-- With the pointer in the data or at its end, a read gives the first bytes of what is left, all of it
-- if less is left than was asked for, and moves the pointer behind them.
pub read_fresh_lem : (d : StaticData) (size : ℕ) → IsPlaced d → Reads d size (read_fresh d size)
unfolding read_fresh
read_fresh_lem d size p =
    rw (left_lem d p) (elim (Bool-cases (length d.data_block - d.file_pointer == 0)) [
      | inl end ↦
          let nothing = ended d size p ((==_iff _ 0).0 end) in
          rw (end, nothing) (d, refl, refl, refl, omega arith, p)
      | inr more ↦
          rw (more, small (length d.data_block - d.file_pointer) (omega (arith, p.int)))
            (elim (Bool-cases (ltb (length d.data_block - d.file_pointer) size)) [
              | inl clipped ↦
                  let fits : d.file_pointer + (length d.data_block - d.file_pointer)
                      ≤ length d.data_block =
                    omega (arith, p.placed) in
                  rw (clipped, (read_at_lem d.data_block d.file_pointer _ fits).0)
                    (advance d size (length d.data_block - d.file_pointer) p fits (
                      take_all (length d.data_block - d.file_pointer) (remaining d)
                        (omega (arith, length-remaining d))
                      ∙ sym (
                          take_all size (remaining d)
                            (omega (arith, length-remaining d, ltb→lt _ _ clipped)))))
              | inr whole ↦
                  let fits : d.file_pointer + size ≤ length d.data_block =
                    omega (arith, p.placed, ltb-false→le _ _ whole) in
                  rw (whole, (read_at_lem d.data_block d.file_pointer size fits).0)
                    (advance d size size p fits refl)
            ])
    ])

-- What is left after a read.
remaining-after :
    (d d' : StaticData) (n m : ℕ)
    → d'.data_block ≡ d.data_block
    → d'.file_pointer ≡ d.file_pointer + length (take n (remaining d))
    → take m (remaining d') ≡ take m (drop n (remaining d))
remaining-after d d' n m same moved =
    ap (take m) (elim (Bool-cases (ltb (length (remaining d)) n)) [
      | inl past ↦
          drop_all d'.file_pointer d'.data_block (
            omega (
              arith,
              moved,
              ap length same,
              length-remaining d,
              length-take n (remaining d),
              ltb→lt _ _ past,
            ))
          ∙ sym (drop_all n (remaining d) (omega (arith, ltb→lt _ _ past)))
      | inr inside ↦
          let at : d'.file_pointer ≡ d.file_pointer + n =
            omega (arith, moved, length-take n (remaining d), ltb-false→le _ _ inside) in
          ap (drop d'.file_pointer) same
          ∙ ap (λ k. drop k d.data_block) at
          ∙ sym (drop-drop d.file_pointer n d.data_block)
    ])

refresh_fixed :
    (source : Option (List ℕ)) (d : StaticData) → d.refreshable ≡ false → refresh_data source d ≡ d
unfolding refresh_data
refresh_fixed none d fixed = refl
refresh_fixed (some fresh) d fixed = rw fixed refl

read_fixed :
    (source : Option (List ℕ)) (d : StaticData) (n : ℕ)
    → d.refreshable ≡ false
    → read_data source d n ≡ read_fresh d n
unfolding read_data
read_fixed source d n fixed = ap (λ x. read_fresh x n) (refresh_fixed source d fixed)

-- With the pointer in the data or at its end, and data that is not refreshed, reading n bytes and then
-- m gives what a single read of n + m bytes gives, and leaves the pointer where that leaves it.
pub read-read :
    (source : Option (List ℕ)) (d : StaticData) (n m : ℕ)
    → d.refreshable ≡ false
    → IsPlaced d
    → (d1 d2 d3 : StaticData) × (first second : List ℕ) × (read_data source d n ≡ some (d1, first))
      × (read_data source d1 m ≡ some (d2, second))
      × (read_data source d (n + m) ≡ some (d3, first ++ second))
      × (d2.file_pointer ≡ d3.file_pointer)
read-read source d n m fixed p =
    let (d1, ran1, data1, flag1, moved1, p1) = read_fresh_lem d n p in
    let (d2, ran2, data2, flag2, moved2, p2) = read_fresh_lem d1 m p1 in
    let (d3, ran3, data3, flag3, moved3, p3) = read_fresh_lem d (n + m) p in
    let split : take (n + m) (remaining d) ≡ take n (remaining d) ++ take m (remaining d1) =
      take-add n m (remaining d)
      ∙ ap (λ x. take n (remaining d) ++ x) (sym (remaining-after d d1 n m data1 moved1)) in
    (
      d1,
      d2,
      d3,
      take n (remaining d),
      take m (remaining d1),
      read_fixed source d n fixed ∙ ran1,
      read_fixed source d1 m (flag1 ∙ fixed) ∙ ran2,
      read_fixed source d (n + m) fixed ∙ ran3 ∙ ap (λ x. some (d3, x)) split,
      omega (
        arith,
        moved1,
        moved2,
        moved3,
        ap length split,
        length-append (take n (remaining d)) (take m (remaining d1)),
      ),
    )
