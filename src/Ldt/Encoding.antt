-- ===== src/Ldt/Encoding.antt =====
-- The hardware descriptor that SetLDTSelector writes.
use keow.Prelude.{
  ℕ, ◌+◌, ◌-◌, ◌*◌, ◌^◌, ◌≤◌, ◌<◌, ◌≡◌, refl, Bool, true, false, arith, if◌then◌else◌,
}
use keow.Ldt.{UserDesc, LdtEntry, to_ldt_entry, allowed_limit, max_limit}

-- The base and the limit that the processor reads in a descriptor, the limit in its own unit.
abbrev pub base_of : LdtEntry → ℕ
base_of e = e.base_low + e.base_mid * 2 ^ 16 + e.base_hi * 2 ^ 24

abbrev pub limit_of : LdtEntry → ℕ
limit_of e = e.limit_low + e.limit_hi * 2 ^ 16

-- Every base of 32 bits is written whole: the processor reads it back from the three parts.
pub to_ldt_entry-base :
    (u : UserDesc) → u.base_addr < 2 ^ 32 → base_of (to_ldt_entry u) ≡ u.base_addr
unfolding to_ldt_entry
to_ldt_entry-base u h = omega arith

max_limit-pages :
    (u : UserDesc)
    → u.limit_in_pages ≡ true
    → u.base_addr < 2147418111 - 4095
    → u.base_addr + max_limit u * 4096 ≤ 2147418111
unfolding max_limit
max_limit-pages u pages low = rw pages (omega arith)

max_limit-bytes :
    (u : UserDesc)
    → u.limit_in_pages ≡ false
    → u.base_addr ≤ 2147418111
    → u.base_addr + max_limit u ≡ 2147418111
unfolding max_limit
max_limit-bytes u bytes low = rw bytes (omega arith)

allowed_limit_bounds :
    (u : UserDesc) → (allowed_limit u ≤ max_limit u) × (allowed_limit u ≤ u.limit)
unfolding allowed_limit
allowed_limit_bounds u = ground arith

limit_whole : (u : UserDesc) → u.limit < 2 ^ 20 → limit_of (to_ldt_entry u) ≡ allowed_limit u
unfolding to_ldt_entry
limit_whole u short = omega (arith, allowed_limit_bounds u)

scaled :
    (pages : Bool) (base n top : ℕ)
    → (pages ≡ true → base + n * 4096 ≤ top)
    → (pages ≡ false → base + n ≤ top)
    → base + n * (if pages then 4096 else 1) ≤ top
scaled true base n top h k = h refl
scaled false base n top h k = omega (arith, k refl)

-- For a limit of 20 bits and a base more than a page below 0x7ffeffff, the processor reads a limit no
-- larger than was asked for, and the base plus that limit, in bytes, is at most 0x7ffeffff.
pub to_ldt_entry-limit :
    (u : UserDesc)
    → u.base_addr < 2147418111 - 4095
    → u.limit < 2 ^ 20
    → (limit_of (to_ldt_entry u) ≤ u.limit)
      × (u.base_addr + limit_of (to_ldt_entry u) * (if u.limit_in_pages then 4096 else 1)
          ≤ 2147418111)
to_ldt_entry-limit u low short =
    let (most, asked) = allowed_limit_bounds u in
    let whole = limit_whole u short in
    (
      omega (arith, asked, whole),
      scaled u.limit_in_pages u.base_addr (limit_of (to_ldt_entry u)) 2147418111
          (λ pages. omega (arith, most, whole, max_limit-pages u pages low))
          (λ bytes. omega (arith, most, whole, max_limit-bytes u bytes (omega arith))),
    )
