-- ===== src/Positions/Returns.antt =====
-- What lseek promises of every object whose `Seek` keeps the laws of a position.
use keow.Prelude.{
  ℕ, ◌+◌, ◌%◌, ◌^◌, ◌<◌, ◌≡◌, ◌∙◌, refl, ap, some, arith, get_elem?, get_elem?-length,
}
use keow.Errno.{Win32Error, win32_err_to_unix_error}
use keow.Files.{Device, Handler, Process, put, with_open, max_open_files}
use keow.Files.Checks.{IsTable}
use keow.Files.Duplicates.{OnlySlot, put-OnlySlot, good_fd}
use keow.StaticData.{Method}
use keow.Positions.{Seekable, sys_lseek, to_method, moved, after_seek, seek_open}

-- The position of an object, and what `Seek` does with it: the offset from the start is the new
-- position, and one from the current position is added to it, on 32 bits. The result has the position
-- as its low word, and no error is left behind.
pub record Positioned (device : Device) (seekable : Seekable device) : Type 0 where
  pub position : device.Object → ℕ
  pub seek_begin :
      (o : device.Object) (k : ℕ)
      → k < 2 ^ 32
      → (o' : device.Object) × (a : ℕ) × (seekable.seek_object o k Method.file_begin
          ≡ (o', a, Win32Error.success))
        × (a % 2 ^ 32 ≡ k)
        × (position o' ≡ k)
  pub seek_current :
      (o : device.Object) (k : ℕ)
      → position o < 2 ^ 32
      → k < 2 ^ 32
      → (o' : device.Object) × (a : ℕ) × (seekable.seek_object o k Method.file_current
          ≡ (o', a, Win32Error.success))
        × (a % 2 ^ 32 ≡ (position o + k) % 2 ^ 32)
        × (position o' ≡ (position o + k) % 2 ^ 32)

module _ (device : Device) (seekable : Seekable device) where
  open device use {Object}

  seek_open_lem :
      (p : Process Object) (fd offset whence a : ℕ) (method : Method) (h : Handler Object)
      (o : Object)
      → to_method whence ≡ some method
      → seekable.seek_object h.object offset method ≡ (o, a, Win32Error.success)
      → seek_open device seekable p fd offset whence h
        ≡ some (put device p fd (some (record h { object = o })), a % 2 ^ 32)
  unfolding seek_open after_seek moved win32_err_to_unix_error
  seek_open_lem p fd offset whence a method h o way ran =
      rw (way, seek_open) (ap (λ x. some (after_seek device seekable p fd h x)) ran)

  -- A seek that succeeds, on an open descriptor.
  lseek_lem :
      (p : Process Object) (fd offset whence a : ℕ) (method : Method) (h : Handler Object)
      (o : Object)
      → IsTable device p
      → get_elem? p.open_files fd ≡ some (some h)
      → to_method whence ≡ some method
      → seekable.seek_object h.object offset method ≡ (o, a, Win32Error.success)
      → (q : Process Object) × (sys_lseek device seekable p fd offset whence ≡ some (q, a % 2 ^ 32))
        × OnlySlot device p fd (some (record h { object = o })) q
  unfolding sys_lseek with_open
  lseek_lem p fd offset whence a method h o t at way ran =
      let inside : fd < max_open_files = omega (arith, get_elem?-length p.open_files fd at, t) in
      (
        put device p fd (some (record h { object = o })),
        rw (good_fd fd inside, at) (seek_open_lem p fd offset whence a method h o way ran),
        put-OnlySlot device p fd (some (record h { object = o })) t inside,
      )

  -- On an open descriptor whose object keeps the laws of a position, `lseek` to k from the start
  -- returns k, and `lseek` by m from the current position then returns k + m, on 32 bits. Only the
  -- object in the descriptor's slot changes.
  pub lseek-lseek :
      (laws : Positioned device seekable) (p : Process Object) (fd k m : ℕ) (h : Handler Object)
      → IsTable device p
      → get_elem? p.open_files fd ≡ some (some h)
      → k < 2 ^ 32
      → m < 2 ^ 32
      → (q r : Process Object) × (o o' : Object) × (sys_lseek device seekable p fd k 0
          ≡ some (q, k))
        × (sys_lseek device seekable q fd m 1 ≡ some (r, (k + m) % 2 ^ 32))
        × OnlySlot device p fd (some (record h { object = o })) q
        × OnlySlot device q fd (some (record h { object = o' })) r
  unfolding to_method
  lseek-lseek laws p fd k m h t at small small' =
      let (o, a, ran, low, there) = laws.seek_begin h.object k small in
      let (o', b, ran', low', there') =
        laws.seek_current o m (omega (arith, there, small)) small' in
      let (q, first, only) = lseek_lem p fd k 0 a Method.file_begin h o t at refl ran in
      let (r, second, only') =
        lseek_lem q fd m 1 b Method.file_current (record h { object = o }) o' only.2 only.0 refl
          ran' in
      (
        q,
        r,
        o,
        o',
        first ∙ ap (λ n. some (q, n)) low,
        second ∙ ap (λ n. some (r, n)) (low' ∙ ap (λ n. (n + m) % 2 ^ 32) there),
        only,
        only',
      )
