-- ===== src/Files/Pipes.antt =====
-- pipe of keow-kernel/KeowKernel/sys_io.cpp on the descriptor table. What CreatePipe returns is an
-- argument: an error, or the objects of the two ends.
use keow.Prelude.{
  ℕ, ◌<◌, ◌≡◌, ◌≢◌, refl, ◌∙◌, inl, inr, ◌⊎◌, Option, none, some, arith, ◌>>=◌, get_elem?,
  Option-cases, get_elem?-length, subst,
}
use keow.Errno.{negative, Win32Error, win32_err_to_unix_error}
use keow.Files.{Device, Process, max_open_files, put, new_handler, find_free_fd}
use keow.Files.Free.{find_free_fd-IsLowestFree, IsLowestFree}
use keow.Files.Checks.{IsTable}
use keow.Files.Duplicates.{put-OnlySlot}

module _ (device : Device) where
  open device use {Object}

  -- The process, the descriptors that are stored, and eax. `none` is a write to the slot -1, when
  -- FindFreeFD has found none.
  unfoldable pub sys_pipe :
      Process Object → Win32Error ⊎ (Object × Object) → Option (Process Object × Option (ℕ × ℕ) × ℕ)
  sys_pipe p (inl e) = some (p, none, negative (win32_err_to_unix_error e))
  sys_pipe p (inr (reader, writer)) = find_free_fd p.open_files >>= λ fd.
      let q = put device p fd (some (new_handler device reader)) in
      find_free_fd q.open_files >>= λ fd'.
      some (put device q fd' (some (new_handler device writer)), some (fd, fd'), 0)

  lowest :
      (p : Process Object) (r : Option ℕ)
      → find_free_fd p.open_files ≡ r
      → IsLowestFree p.open_files r
  lowest p r e = subst (IsLowestFree p.open_files) e (find_free_fd-IsLowestFree p.open_files)

  -- `pipe` stores two different descriptors and returns 0: the lowest free one has the end that is
  -- read, the lowest one that is then free has the end that is written, and no other slot changes.
  abbrev pub MakesPipe : Process Object → Object → Object → Type 0
  MakesPipe p reader writer =
      (fd : ℕ) × (fd' : ℕ) × (q : Process Object) × (sys_pipe p (inr (reader, writer))
        ≡ some (q, some (fd, fd'), 0))
      × IsLowestFree p.open_files (some fd)
      × IsLowestFree (put device p fd (some (new_handler device reader))).open_files (some fd')
      × (fd ≢ fd')
      × (get_elem? q.open_files fd ≡ some (some (new_handler device reader)))
      × (get_elem? q.open_files fd' ≡ some (some (new_handler device writer)))
      × ((j : ℕ) → j ≢ fd → j ≢ fd' → get_elem? q.open_files j ≡ get_elem? p.open_files j)

  -- `pipe` writes outside of the table, with no free slot at first or none after the first end.
  abbrev pub OverrunsTable : Process Object → Object → Object → Type 0
  OverrunsTable p reader writer =
      (sys_pipe p (inr (reader, writer)) ≡ none)
      × (IsLowestFree p.open_files none
          ⊎ ((fd : ℕ) × IsLowestFree p.open_files (some fd)
              × IsLowestFree (put device p fd (some (new_handler device reader))).open_files none))

  -- With a table of 1024 slots and the two ends made, `pipe` puts them into the two lowest free slots,
  -- with fresh flags, stores these descriptors in order, returns 0 and changes no other slot; or there are
  -- not two free slots, and it writes outside of the table.
  pub sys_pipe_lem :
      (p : Process Object) (reader writer : Object)
      → IsTable device p
      → MakesPipe p reader writer ⊎ OverrunsTable p reader writer
  unfolding sys_pipe
  sys_pipe_lem p reader writer t = elim (Option-cases (find_free_fd p.open_files)) [
    | inl full ↦ inr (rw full refl, inl (lowest p none full))
    | inr (fd, found) ↦
        let free = lowest p (some fd) found in
        let small : fd < max_open_files =
          omega (arith, get_elem?-length p.open_files fd free.0, t) in
        let q = put device p fd (some (new_handler device reader)) in
        let first = put-OnlySlot device p fd (some (new_handler device reader)) t small in
        elim (Option-cases (find_free_fd q.open_files)) [
          | inl full ↦ inr (rw (found, full) refl, inr (fd, free, lowest q none full))
          | inr (fd', found') ↦
              let free' = lowest q (some fd') found' in
              let small' : fd' < max_open_files =
                omega (arith, get_elem?-length q.open_files fd' free'.0, first.2) in
              let second =
                put-OnlySlot device q fd' (some (new_handler device writer)) first.2 small' in
              let differs : fd ≢ fd' = λ e. cc (e, free'.0, first.0) in
              inl (
                fd,
                fd',
                put device q fd' (some (new_handler device writer)),
                rw (found, found') refl,
                free,
                free',
                differs,
                second.1 fd differs ∙ first.0,
                second.0,
                λ j a b. second.1 j b ∙ first.1 j a,
              )
        ]
  ]
