-- ===== src/Positions.antt =====
-- lseek, _llseek and getdents64 of keow-kernel/KeowKernel/sys_io.cpp: the calls on the position of an
-- open object. The table and the tests of the descriptor are those of Files.
pub mod Returns
mod Tests
use keow.Prelude.{
  ℕ, ◌+◌, ◌*◌, ◌%◌, ◌^◌, Bool, true, false, Option, none, some, List, ◌==◌, if◌then◌else◌, ◌>>=◌,
  [], ◌∷◌, length, get_elem?,
}
use keow.Errno.{word, negative, einval, ebadf, Win32Error, win32_err_to_unix_error}
use keow.Files.{Device, Handler, Process, put, with_open, bad_fd}
use keow.StaticData.{Method}

-- `Seek` and `GetDirEnts64` of IOHandler. The last error after a call is part of its result.
pub record Seekable (device : Device) : Type 0 where
  -- The offset and the new position are 64 bits.
  pub seek_object : device.Object → ℕ → Method → device.Object × ℕ × Win32Error
  -- The bytes that are filled, or failure.
  pub list_object : device.Object → ℕ → device.Object × Option (List ℕ) × Win32Error

unfoldable pub to_method : ℕ → Option Method
to_method whence =
    if whence == 0
    then some Method.file_begin
    else if whence == 2
    then some Method.file_end
    else if whence == 1
    then some Method.file_current
    else none

module _ (device : Device) (seekable : Seekable device) where
  open device use {Object}

  -- A handler's object after a call.
  unfoldable pub moved : Process Object → ℕ → Handler Object → Object → Process Object
  moved p fd h o = put device p fd (some (record h { object = o }))

  unfoldable pub after_seek :
      Process Object → ℕ → Handler Object → Object × ℕ × Win32Error → Process Object × ℕ
  after_seek p fd h (o, position, e) =
      let eax = negative (win32_err_to_unix_error e) in
      (moved p fd h o, if eax == 0 then position % word else eax)

  -- The rest of lseek once the descriptor has passed.
  unfoldable pub seek_open :
      Process Object → ℕ → ℕ → ℕ → Handler Object → Option (Process Object × ℕ)
  seek_open p fd offset whence h = elim (to_method whence) [
    | none ↦ some (p, negative einval)
    | some method ↦ some (after_seek p fd h (seekable.seek_object h.object offset method))
  ]

  -- The 32-bit offset is not sign extended; only the low word of the position is returned.
  unfoldable pub sys_lseek : Process Object → ℕ → ℕ → ℕ → Option (Process Object × ℕ)
  sys_lseek p fd offset whence = with_open device p fd (seek_open p fd offset whence)

  -- The rest of a call that also writes to the process, after the two tests.
  abbrev pub Transferred : Type 0 → Type 0
  Transferred A = Option (Process Object × ℕ × Option A)

  unfoldable pub with_handler :
      {A : Type 0} → Process Object → ℕ → (Handler Object → Transferred A) → Transferred A
  with_handler p fd rest =
      if bad_fd fd
      then some (p, negative ebadf, none)
      else (get_elem? p.open_files fd >>= λ slot. elim slot [
        | none ↦ some (p, negative ebadf, none)
        | some h ↦ rest h
      ])

  -- The position goes to the process, whether there was an error or not.
  unfoldable pub sys_llseek : Process Object → ℕ → ℕ → ℕ → ℕ → Transferred ℕ
  sys_llseek p fd offset_high offset_low whence = with_handler p fd λ h. elim (to_method whence) [
    | none ↦ some (p, negative einval, none)
    | some method ↦
        let (o, position, e) =
          seekable.seek_object h.object (offset_high * word + offset_low) method in
        some (moved p fd h o, negative (win32_err_to_unix_error e), some position)
  ]

  -- Bytes go to the process only if there are some.
  unfoldable pub sys_getdents64 : Process Object → ℕ → ℕ → Transferred (List ℕ)
  sys_getdents64 p fd maxbytes = with_handler p fd λ h.
      let (o, filled, e) = seekable.list_object h.object maxbytes in
      elim filled [
        | none ↦ some (moved p fd h o, negative (win32_err_to_unix_error e), none)
        | some [] ↦ some (moved p fd h o, 0, none)
        | some (b ∷ bs) ↦ some (moved p fd h o, length (b ∷ bs), some (b ∷ bs))
      ]
