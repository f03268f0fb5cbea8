-- ===== src/Memory/Chunks.antt =====
-- The calls of a transfer cover it, in order, and none crosses a page at either end.
use keow.Prelude.{
  ℕ, zero, suc, ◌+◌, ◌-◌, ◌%◌, ◌^◌, ◌≤◌, ◌<◌, ◌≡◌, ◌≢◌, ◌∙◌, refl, ap, sym, subst, inl, inr, List,
  [], ◌∷◌, ◌++◌, some, ◌==◌, arith, All, All-append, Bool-cases,
}
use keow.Errno.{word}
use keow.Memory.{page, Chunk, to_next, local_to_copy, remote_to_copy, turn, chunks}

-- The call stays in one page on either side.
abbrev pub Fits : Chunk → Type 0
Fits c = (c.remote % page + c.count ≤ page) × (c.local % page + c.count ≤ page)

-- The calls move `n` bytes from the two addresses on, without a gap.
abbrev pub Covers : ℕ → ℕ → ℕ → List Chunk → Type 0
Covers remote local n [] = n ≡ 0
Covers remote local n (c ∷ cs) =
    (c.remote ≡ remote)
    × (c.local ≡ local)
    × (c.count ≤ n)
    × Covers (remote + c.count) (local + c.count) (n - c.count) cs

pub to_next_lem : (p : ℕ) → p < 2 ^ 32 → to_next p ≡ page - p % page
unfolding to_next
to_next_lem p h = omega (arith, h)

record Turn (remote local left : ℕ) : Type 0 where
  positive : 0 < local_to_copy local left
  bounded : local_to_copy local left ≤ left
  in_page : local % page + local_to_copy local left ≤ page
  part : remote_to_copy remote local left ≤ local_to_copy local left
  remote_page : remote % page + remote_to_copy remote local left ≤ page
  rest :
      local_to_copy local left ≢ remote_to_copy remote local left
      → remote % page + remote_to_copy remote local left ≡ page

turn_lem :
    (remote local left : ℕ) → remote < 2 ^ 32 → local < 2 ^ 32 → 0 < left → Turn remote local left
unfolding local_to_copy remote_to_copy
turn_lem remote local left hr hl pos =
    let er = to_next_lem remote hr in
    let el = to_next_lem local hl in
    record {
      positive = ground (arith, el, pos);
      bounded = ground (arith, el, pos);
      in_page = ground (arith, el, pos);
      part = ground (arith, el, er, pos);
      remote_page = ground (arith, el, er, pos);
      rest = λ h. ground (arith, el, er, pos, h);
    }

turn-Fits :
    (remote local left : ℕ)
    → remote + left ≤ 2 ^ 32
    → local + left ≤ 2 ^ 32
    → 0 < left
    → All Fits (turn remote local left)
unfolding turn
turn-Fits remote local left hr hl pos =
    let t = turn_lem remote local left (omega (arith, hr, pos)) (omega (arith, hl, pos)) pos in
    elim (Bool-cases (local_to_copy local left - remote_to_copy remote local left == 0)) [
      | inl whole ↦ rw whole ((t.remote_page, omega (arith, t.in_page, t.part)), tt)
      | inr more ↦
          let differ : local_to_copy local left ≢ remote_to_copy remote local left =
            ground (arith, more) in
          rw more (
            (t.remote_page, omega (arith, t.in_page, t.part)),
            (
              (
                omega (arith, t.rest differ, t.in_page, t.part, hr, t.bounded),
                omega (arith, t.in_page, t.part, hl, t.bounded),
              ),
              tt,
            ),
          )
    ]

turn-Covers :
    (remote local left : ℕ) (cs : List Chunk)
    → remote + left ≤ 2 ^ 32
    → local + left ≤ 2 ^ 32
    → 0 < left
    → Covers
        (remote + local_to_copy local left)
        (local + local_to_copy local left)
        (left - local_to_copy local left)
        cs
    → Covers remote local left (turn remote local left ++ cs)
unfolding turn
turn-Covers remote local left cs hr hl pos rest =
    let t = turn_lem remote local left (omega (arith, hr, pos)) (omega (arith, hl, pos)) pos in
    elim (Bool-cases (local_to_copy local left - remote_to_copy remote local left == 0)) [
      | inl whole ↦
          let same : remote_to_copy remote local left ≡ local_to_copy local left =
            ground (arith, whole, t.part) in
          rw whole (
            refl,
            refl,
            omega (arith, t.part, t.bounded),
            subst (λ k. Covers (remote + k) (local + k) (left - k) cs) (sym same) rest,
          )
      | inr more ↦
          let differ : local_to_copy local left ≢ remote_to_copy remote local left =
            ground (arith, more) in
          let a : (remote + remote_to_copy remote local left)
                + (local_to_copy local left - remote_to_copy remote local left)
              ≡ remote + local_to_copy local left =
            omega (arith, t.part) in
          let b : (local + remote_to_copy remote local left)
                + (local_to_copy local left - remote_to_copy remote local left)
              ≡ local + local_to_copy local left =
            omega (arith, t.part) in
          let c : (left - remote_to_copy remote local left)
                - (local_to_copy local left - remote_to_copy remote local left)
              ≡ left - local_to_copy local left =
            omega (arith, t.part, t.bounded) in
          rw more (
            refl,
            refl,
            omega (arith, t.part, t.bounded),
            (
              omega (arith, hr, t.part, t.bounded, differ),
              omega (arith, hl, t.part, t.bounded, differ),
              omega (arith, t.part, t.bounded),
              rw (a, b, c) rest,
            ),
          )
    ]

chunks_none : (fuel remote local : ℕ) → chunks fuel remote local 0 ≡ some []
unfolding chunks
chunks_none zero remote local = refl
chunks_none (suc fuel) remote local = refl

chunks_step :
    (fuel remote local len next_remote next_local : ℕ) (cs : List Chunk)
    → (remote + local_to_copy local (suc len)) % word ≡ next_remote
    → (local + local_to_copy local (suc len)) % word ≡ next_local
    → chunks fuel next_remote next_local (suc len - local_to_copy local (suc len)) ≡ some cs
    → chunks (suc fuel) remote local (suc len) ≡ some (turn remote local (suc len) ++ cs)
unfolding chunks
chunks_step fuel remote local len next_remote next_local cs er el ran = rw (er, el, ran) refl

-- What a transfer comes to: its calls, in order.
pub record Transferred (remote local len : ℕ) (cs : List Chunk) : Type 0 where
  pub covers : Covers remote local len cs
  pub fits : All Fits cs

-- A transfer within the address space ends, with as many turns as bytes at most: its calls move the
-- bytes in order and without a gap, and none of them crosses a page boundary on either side.
pub chunks-Transferred :
    (fuel remote local len : ℕ)
    → len ≤ fuel
    → remote + len ≤ 2 ^ 32
    → local + len ≤ 2 ^ 32
    → (cs : List Chunk) × (chunks fuel remote local len ≡ some cs) × Transferred remote local len cs
chunks-Transferred fuel remote local zero enough hr hl =
    ([], chunks_none fuel remote local, record { covers = refl; fits = tt })
chunks-Transferred zero remote local (suc len) enough hr hl = absurd (omega (arith, enough))
chunks-Transferred (suc fuel) remote local (suc len) enough hr hl =
    let pos : 0 < suc len = omega arith in
    let t = turn_lem remote local (suc len) (omega (arith, hr)) (omega (arith, hl)) pos in
    let n = local_to_copy local (suc len) in
    elim (Bool-cases (suc len - n == 0)) [
      | inl done ↦
          let e : suc len - n ≡ 0 = ground (arith, done) in
          (
            turn remote local (suc len) ++ [],
            chunks_step fuel remote local len ((remote + n) % word) ((local + n) % word) [] refl
                refl
                (ap (chunks fuel ((remote + n) % word) ((local + n) % word)) e
                  ∙ chunks_none fuel _ _),
            record {
              covers = turn-Covers remote local (suc len) [] hr hl pos e;
              fits =
                  All-append Fits (turn remote local (suc len)) []
                    (turn-Fits remote local (suc len) hr hl pos) tt;
            },
          )
      | inr more ↦
          let low : 0 < suc len - n = ground (arith, more) in
          let er : (remote + n) % word ≡ remote + n = omega (arith, hr, low, t.bounded) in
          let el : (local + n) % word ≡ local + n = omega (arith, hl, low, t.bounded) in
          let (cs, ran, w) =
            chunks-Transferred fuel (remote + n) (local + n) (suc len - n)
              (omega (arith, enough, t.positive)) (omega (arith, hr, t.bounded))
              (omega (arith, hl, t.bounded)) in
          (
            turn remote local (suc len) ++ cs,
            chunks_step fuel remote local len (remote + n) (local + n) cs er el ran,
            record {
              covers = turn-Covers remote local (suc len) cs hr hl pos w.covers;
              fits =
                  All-append Fits (turn remote local (suc len)) cs
                    (turn-Fits remote local (suc len) hr hl pos) w.fits;
            },
          )
    ]
