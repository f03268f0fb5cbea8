-- ===== src/Files.antt =====
-- The descriptor table of a process and the system calls of keow-kernel/KeowKernel/sys_io.cpp that
-- work on it: write, writev, read, close, ioctl, fcntl, dup, dup2, pipe, and Process::FindFreeFD.
pub mod Free
pub mod Duplicates
pub mod Checks
pub mod Pipes
mod Tests
use keow.Prelude.{
  ℕ, zero, suc, ◌+◌, ◌%◌, ◌≡◌, Bool, true, false, not, ◌||◌, List, [], ◌∷◌, ◌++◌, Option, none,
  some, ltb, leb, ◌==◌, if◌then◌else◌, ◌>>=◌, get_elem?, set,
}
use keow.Errno.{
  word, negative, is_negative, ebadf, einval, emfile, enosys, Win32Error, win32_err_to_unix_error,
}
use keow.Errno

-- What a transfer of an I/O object returns: a count, or failure with the error that is then the last.
pub data Transfer : Type 0 where
  transferred : ℕ → Transfer
  failed : Win32Error → Transfer

-- The virtual functions of IOHandler that the calls below use, on the state of an object. Addresses
-- are those of the user process, whose memory is the other part of what an object may change.
pub record Device : Type 1 where
  pub Object : Type 0
  pub write : Object → ℕ → ℕ → Object × Transfer
  pub read : Object → ℕ → ℕ → Object × Transfer
  pub ioctl : Object → ℕ → ℕ → Object × ℕ
  pub duplicate : Object → Option Object
  -- The error after a `Duplicate` that returns NULL.
  pub duplicate_error : Object → Win32Error

-- sys_io.cpp tests a descriptor with `fd<0 || fd>MAX_OPEN_FILES`.
abbrev pub max_open_files : ℕ
max_open_files = 1024

unfoldable pub bad_fd : ℕ → Bool
bad_fd fd = is_negative fd || ltb max_open_files fd

abbrev pub sigpipe : ℕ
sigpipe = 13

abbrev pub f_dupfd : ℕ
f_dupfd = 0

abbrev pub f_getfd : ℕ
f_getfd = 1

abbrev pub f_setfd : ℕ
f_setfd = 2

abbrev pub f_getfl : ℕ
f_getfl = 3

abbrev pub f_setfl : ℕ
f_setfl = 4

-- The errors on which a writer is sent SIGPIPE.
abbrev pub is_pipe_error : Win32Error → Bool
is_pipe_error Win32Error.broken_pipe = true
is_pipe_error Win32Error.no_data = true
is_pipe_error Win32Error.pipe_not_connected = true
is_pipe_error _ = false

-- An I/O object with the fields that IOHandler itself keeps.
pub record Handler (O : Type 0) : Type 0 where
  pub object : O
  pub inheritable : Bool
  pub flags : ℕ

-- The part of a process that these calls change; `signals` are those it has sent itself, newest first.
pub record Process (O : Type 0) : Type 0 where
  pub open_files : List (Option (Handler O))
  pub signals : List ℕ

-- The first free slot of a table that starts at descriptor `fd`.
unfoldable pub find_free_from {ℓ} : {A : Type ℓ} → List (Option A) → ℕ → Option ℕ
find_free_from [] fd = none
find_free_from (none ∷ rest) fd = some fd
find_free_from (some h ∷ rest) fd = find_free_from rest (suc fd)

-- `none` is the -1 of a full table.
unfoldable pub find_free_fd {ℓ} : {A : Type ℓ} → List (Option A) → Option ℕ
find_free_fd open_files = find_free_from open_files 0

module _ (device : Device) where
  open device use {Object}

  -- The registers' results: the process, and eax. `none` is an access outside the table or through
  -- a NULL handler.
  abbrev pub Outcome : Type 0
  Outcome = Option (Process Object × ℕ)

  -- The IOHandler constructor, which every `Duplicate` runs, sets the inherited fields.
  unfoldable pub new_handler : Object → Handler Object
  new_handler o = record { object = o; inheritable = true; flags = 0 }

  unfoldable pub put : Process Object → ℕ → Option (Handler Object) → Process Object
  put p fd h = record p { open_files = set p.open_files fd h }

  -- The two tests that every call starts with, and then the rest of the call.
  unfoldable pub with_open : Process Object → ℕ → (Handler Object → Outcome) → Outcome
  with_open p fd rest =
      if bad_fd fd
      then some (p, negative ebadf)
      else (get_elem? p.open_files fd >>= λ slot. elim slot [
        | none ↦ some (p, negative ebadf)
        | some h ↦ rest h
      ])

  unfoldable pub write_failed : Process Object → Win32Error → Process Object × ℕ
  write_failed p e = (
    (if is_pipe_error e then record p { signals = sigpipe ∷ p.signals } else p),
    negative (win32_err_to_unix_error e),
  )

  unfoldable pub after_write :
      Process Object → ℕ → Handler Object → Object × Transfer → Process Object × ℕ
  after_write p fd h (o, transferred n) = (put p fd (some (record h { object = o })), n)
  after_write p fd h (o, failed e) = write_failed (put p fd (some (record h { object = o }))) e

  unfoldable pub sys_write : Process Object → ℕ → ℕ → ℕ → Outcome
  sys_write p fd address size =
      with_open p fd λ h. some (after_write p fd h (device.write h.object address size))

  -- The loop of writev over the buffers that are left, with the bytes done so far.
  unfoldable pub write_buffers :
      Process Object → ℕ → Handler Object → List (ℕ × ℕ) → ℕ → Process Object × ℕ
  write_buffers p fd h [] total = (put p fd (some h), total)
  write_buffers p fd h ((base, size) ∷ rest) total =
      let (o, result) = device.write h.object base size in
      elim result [
        | transferred done ↦
            write_buffers p fd (record h { object = o }) rest ((total + done) % word)
        | failed e ↦ write_failed (put p fd (some (record h { object = o }))) e
      ]

  -- `buffers` is the iovec array as it is read from the process.
  unfoldable pub sys_writev : Process Object → ℕ → List (ℕ × ℕ) → Outcome
  sys_writev p fd buffers = with_open p fd λ h. some (write_buffers p fd h buffers 0)

  unfoldable pub after_read :
      Process Object → ℕ → Handler Object → Object × Transfer → Process Object × ℕ
  after_read p fd h (o, transferred n) = (put p fd (some (record h { object = o })), n)
  after_read p fd h (o, failed e) =
      (put p fd (some (record h { object = o })), negative (win32_err_to_unix_error e))

  unfoldable pub sys_read : Process Object → ℕ → ℕ → ℕ → Outcome
  sys_read p fd address size =
      with_open p fd λ h. some (after_read p fd h (device.read h.object address size))

  unfoldable pub sys_close : Process Object → ℕ → Outcome
  sys_close p fd = with_open p fd λ h. some (put p fd none, 0)

  unfoldable pub sys_ioctl : Process Object → ℕ → ℕ → ℕ → Outcome
  sys_ioctl p fd request argument = with_open p fd λ h.
      let (o, result) = device.ioctl h.object request argument in
      some (put p fd (some (record h { object = o })), result)

  -- The rest of dup2 once both descriptors have passed: the new slot is closed, then filled.
  unfoldable pub replace : Process Object → Handler Object → ℕ → Outcome
  replace p old fdnew = get_elem? p.open_files fdnew >>= λ slot.
      let closed = put p fdnew none in
      elim (device.duplicate old.object) [
        | none ↦
            some (closed, negative (win32_err_to_unix_error (device.duplicate_error old.object)))
        | some o ↦ some (put closed fdnew (some (new_handler o)), fdnew)
      ]

  unfoldable pub sys_dup2 : Process Object → ℕ → ℕ → Outcome
  sys_dup2 p fdold fdnew = with_open p fdold λ old.
      if bad_fd fdnew || fdnew == fdold then some (p, negative ebadf) else replace p old fdnew

  unfoldable pub sys_dup : Process Object → ℕ → Outcome
  sys_dup p fd = elim (find_free_fd p.open_files) [
    | none ↦ some (p, negative emfile)
    | some fdnew ↦ sys_dup2 p fd fdnew
  ]

  -- `m_OpenFiles[fd]->SetInheritable(b)`.
  unfoldable pub set_inheritable : Process Object → ℕ → Bool → Option (Process Object)
  set_inheritable p fd b = get_elem? p.open_files fd >>= λ slot.
      slot >>= λ h. some (put p fd (some (record h { inheritable = b })))

  -- The case F_DUPFD: `maxfd` is compared as a signed int.
  unfoldable pub dup_fd : Process Object → ℕ → ℕ → Outcome
  dup_fd p fd maxfd = elim (find_free_fd p.open_files) [
    | none ↦ some (p, negative emfile)
    | some fdnew ↦
        if is_negative maxfd || ltb maxfd fdnew
        then some (p, einval)
        else (sys_dup2 p fd fdnew >>= λ (q, eax).
            set_inheritable q fdnew false >>= λ r. some (r, eax))
  ]

  unfoldable pub sys_fcntl : Process Object → ℕ → ℕ → ℕ → Outcome
  sys_fcntl p fd cmd argument = with_open p fd λ h.
      if cmd == f_getfd
      then some (p, if h.inheritable then 0 else 1)
      else if cmd == f_setfd
      then some (put p fd (some (record h { inheritable = argument == 0 })), 0)
      else if cmd == f_getfl
      then some (p, h.flags)
      else if cmd == f_setfl
      then some (put p fd (some (record h { flags = argument })), 0)
      else if cmd == f_dupfd
      then dup_fd p fd argument
      else some (p, negative enosys)

  -- The loop of FreeResourcesBeforeExec over the table.
  unfoldable pub close_on_exec : List (Option (Handler Object)) → List (Option (Handler Object))
  close_on_exec [] = []
  close_on_exec (none ∷ rest) = none ∷ close_on_exec rest
  close_on_exec (some h ∷ rest) = (if h.inheritable then some h else none) ∷ close_on_exec rest
