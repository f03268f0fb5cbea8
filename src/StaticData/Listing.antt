-- ===== src/StaticData/Listing.antt =====
-- GetDirEnts64 on an object whose data is a sequence of records.
use keow.Prelude.{
  ℕ, zero, suc, ◌+◌, ◌%◌, ◌^◌, ◌≤◌, ◌<◌, ◌≡◌, ◌>>=◌, ◌∙◌, refl, ap, sym, ◌⊎◌, inl, inr, Bool, true,
  false, ◌&&◌, List, [], ◌∷◌, ◌++◌, Option, some, arith, ltb, length, All, length-append,
  Bool-cases, ltb-false→le, ltb→lt,
}
use keow.StaticData.{StaticData, DirEnt, dir_ents, get_dir_ents64, can_read}
use keow.Errno.{word}
use keow.Prelude.{append_assoc, take-append_length, drop-append_length, append-nil, take, drop}
use keow.Text.{read_at}
use keow.Text.Blocks.{read_at_lem}

unfoldable pub joined : List (List ℕ) → List ℕ
joined [] = []
joined (r ∷ rs) = r ++ joined rs

abbrev pub raws : List DirEnt → List (List ℕ)
raws [] = []
raws (e ∷ es) = e.raw ∷ raws es

-- The pointer stands in front of these records, behind `pre`.
pub record Stands (size : ℕ) (d : StaticData) (pre : List ℕ) (records : List (List ℕ))
    : Type 0 where
  pub block : d.data_block ≡ pre ++ joined records
  pub pointer : d.file_pointer ≡ length pre
  pub sizes : All (λ r. length r ≡ size) records
  pub int : length d.data_block < 2 ^ 31

-- What a call that starts there with `filled` bytes done gives: the first of the records, of which any
-- that are listed end below `maxbytes`, and which are all or as many as end there.
abbrev pub Lists :
    ℕ → List ℕ → List (List ℕ) → ℕ → ℕ → Option (StaticData × List DirEnt × ℕ) → Type 0
Lists size pre records filled maxbytes r =
    (d' : StaticData) × (es : List DirEnt) × (total : ℕ) × (left : List (List ℕ)) × (r
      ≡ some (d', es, total))
    × (records ≡ raws es ++ left)
    × Stands size d' (pre ++ joined (raws es)) left
    × (total ≡ filled + length (joined (raws es)))
    × ((es ≡ []) ⊎ (total < maxbytes))
    × ((left ≡ []) ⊎ (maxbytes ≤ total + size))

and-false : (b : Bool) → (b && false) ≡ false
and-false true = refl
and-false false = refl

can_read_more :
    (size : ℕ) (d : StaticData) (pre r : List ℕ) (rs : List (List ℕ))
    → 0 < size
    → Stands size d pre (r ∷ rs)
    → (can_read d ≡ true) × (length pre + size ≤ length d.data_block)
unfolding can_read joined
can_read_more size d pre r rs positive s =
    let total : length pre + size ≤ length d.data_block = omega (
      arith,
      ap length s.block,
      length-append pre (r ++ joined rs),
      length-append r (joined rs),
      s.sizes.0,
    ) in
    (ground (arith, total, s.pointer), total)

can_read_end :
    (size : ℕ) (d : StaticData) (pre : List ℕ) → Stands size d pre [] → can_read d ≡ false
unfolding can_read joined
can_read_end size d pre s =
    let total : length d.data_block ≡ length pre = ap length (s.block ∙ append-nil pre) in
    ground (arith, total, s.pointer, s.int)

module _ (size this : ℕ) where
  stop :
      (d : StaticData) (pre : List ℕ) (records : List (List ℕ)) (filled maxbytes : ℕ)
      → Stands size d pre records
      → (records ≡ []) ⊎ (maxbytes ≤ filled + size)
      → Lists size pre records filled maxbytes (some (d, [], filled))
  unfolding joined
  stop d pre records filled maxbytes s why =
      (d, [], filled, records, refl, refl, rw append-nil s, omega arith, inl refl, why)

  next :
      (d : StaticData) (pre r : List ℕ) (rs : List (List ℕ))
      → 0 < size
      → Stands size d pre (r ∷ rs)
      → Stands size (record d { file_pointer = (d.file_pointer + size) % word }) (pre ++ r) rs
  unfolding joined
  next d pre r rs positive s =
      let (_, fits) = can_read_more size d pre r rs positive s in
      record {
        block = s.block ∙ sym (append_assoc pre r (joined rs));
        pointer = omega (arith, s.pointer, s.int, fits, length-append pre r, s.sizes.0);
        sizes = s.sizes.1;
        int = s.int;
      }

  first_record :
      (d : StaticData) (pre r : List ℕ) (rs : List (List ℕ))
      → 0 < size
      → Stands size d pre (r ∷ rs)
      → read_at d.data_block d.file_pointer size ≡ some r
  unfolding joined
  first_record d pre r rs positive s =
      let (_, fits) = can_read_more size d pre r rs positive s in
      (read_at_lem d.data_block d.file_pointer size (omega (arith, s.pointer, fits))).0
      ∙ ap (λ p. some (take size (drop p d.data_block))) s.pointer
      ∙ ap (λ b. some (take size (drop (length pre) b))) s.block
      ∙ ap (λ b. some (take size b)) (drop-append_length (length pre) pre (r ++ joined rs) refl)
      ∙ ap some (take-append_length size r (joined rs) s.sizes.0)

  -- One more record in front of what the rest of the loop lists.
  cons_record :
      (pre r : List ℕ) (rs : List (List ℕ)) (filled maxbytes : ℕ) (e : DirEnt)
      (rest : Option (StaticData × List DirEnt × ℕ))
      → filled + size < maxbytes
      → length r ≡ size
      → e.raw ≡ r
      → Lists size (pre ++ r) rs (filled + size) maxbytes rest
      → Lists size pre
          (r ∷ rs)
          filled
          maxbytes
          (rest >>= λ (d', later, total). some (d', e ∷ later, total))
  unfolding joined
  cons_record pre r rs filled maxbytes e rest room sized copied
        (d', es, total, left, ran, all, s, sum, below, why) =
      (
        d',
        e ∷ es,
        total,
        left,
        rw ran refl,
        rw copied (ap (◌∷◌ r) all),
        rw (copied, ← append_assoc) s,
        rw copied (omega (arith, sum, sized, length-append r (joined (raws es)))),
        inr (within_bytes es total below sum),
        why,
      )
    where
      within_bytes :
          (es : List DirEnt) (total : ℕ)
          → ((es ≡ []) ⊎ (total < maxbytes))
          → total ≡ (filled + size) + length (joined (raws es))
          → total < maxbytes
      within_bytes es total (inr small) sum = small
      within_bytes es total (inl e) sum =
          let none_more : length (joined (raws es)) ≡ 0 = ap (λ l. length (joined (raws l))) e in
          omega (arith, sum, none_more, room)

  dir_ents_lem :
      (rounds : ℕ) (d : StaticData) (pre : List ℕ) (records : List (List ℕ)) (filled maxbytes : ℕ)
      → 0 < size
      → maxbytes ≤ filled + rounds
      → Stands size d pre records
      → Lists size pre records filled maxbytes (dir_ents size this rounds d filled maxbytes)
  unfolding dir_ents
  dir_ents_lem zero d pre records filled maxbytes positive enough s =
      stop d pre records filled maxbytes s (inr (omega arith))
  dir_ents_lem (suc rounds) d pre [] filled maxbytes positive enough s =
      let closed : (ltb (filled + size) maxbytes && can_read d) ≡ false =
        rw (can_read_end size d pre s) (and-false (ltb (filled + size) maxbytes)) in
      rw (closed, dir_ents) (stop d pre [] filled maxbytes s (inl refl))
  dir_ents_lem (suc rounds) d pre (r ∷ rs) filled maxbytes positive enough s =
      elim (Bool-cases (ltb (filled + size) maxbytes)) [
        | inl room ↦
            let again : (ltb (filled + size) maxbytes && can_read d) ≡ true =
              rw room (can_read_more size d pre r rs positive s).0 in
            rw (again, dir_ents, first_record d pre r rs positive s)
              (cons_record pre r rs filled maxbytes _ _ (ltb→lt _ _ room) s.sizes.0 refl (
                dir_ents_lem rounds (record d { file_pointer = (d.file_pointer + size) % word })
                  (pre ++ r) rs (filled + size) maxbytes positive (omega arith)
                  (next d pre r rs positive s)))
        | inr full ↦
            let closed : (ltb (filled + size) maxbytes && can_read d) ≡ false = rw full refl in
            rw (closed, dir_ents)
              (stop d pre (r ∷ rs) filled maxbytes s (inr (ltb-false→le _ _ full)))
      ]

  -- On less than 2 ^ 31 bytes of data whose rest, from the pointer, is records of one positive size,
  -- `GetDirEnts64` ends and lists the records from there in order. It counts their bytes, moves the
  -- pointer behind them, fills less than the bytes that were asked for when it lists any, and
  -- stops only at the end of the data or when one more record would reach the bytes that were asked for.
  pub get_dir_ents64_lem :
      (d : StaticData) (pre : List ℕ) (records : List (List ℕ)) (maxbytes : ℕ)
      → 0 < size
      → Stands size d pre records
      → Lists size pre records 0 maxbytes (get_dir_ents64 size this d maxbytes)
  unfolding get_dir_ents64
  get_dir_ents64_lem d pre records maxbytes positive s =
      dir_ents_lem maxbytes d pre records 0 maxbytes positive (omega arith) s
