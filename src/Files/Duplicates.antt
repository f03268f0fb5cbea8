-- ===== src/Files/Duplicates.antt =====
-- dup, dup2, fcntl(F_DUPFD), close and exec on the descriptor table.
use keow.Prelude.{
  ℕ, zero, suc, ◌^◌, ◌≤◌, ◌<◌, ◌≡◌, ◌≢◌, refl, sym, ◌∙◌, inl, inr, ◌⊎◌, false, ◌||◌, List, [], ◌∷◌,
  Option, none, some, arith, ltb, ◌==◌, if◌then◌else◌, ◌>>=◌, get_elem?, Option-cases, length-set,
  get_elem?-set_self, get_elem?-set_ne, subst, get_elem?-length, get_elem?_within,
}
use keow.Errno.{negative, is_negative, emfile, win32_err_to_unix_error}
use keow.Files.{
  Device, Handler, Process, bad_fd, with_open, max_open_files, put, new_handler, replace, sys_dup,
  sys_dup2, sys_close, dup_fd, sys_fcntl, set_inheritable, find_free_fd, close_on_exec, f_getfd,
  f_setfd, f_dupfd,
}
use keow.Files.Free.{find_free_fd-IsLowestFree, IsLowestFree}
use keow.Files.Checks.{IsTable}

pub good_fd : (fd : ℕ) → fd < max_open_files → bad_fd fd ≡ false
unfolding bad_fd
good_fd fd h = ground arith

in_range :
    (maxfd fdnew : ℕ)
    → fdnew ≤ maxfd
    → maxfd < 2 ^ 31
    → (is_negative maxfd || ltb maxfd fdnew) ≡ false
in_range maxfd fdnew fits int = ground arith

module _ (device : Device) where
  open device use {Object}

  -- One slot of the table differs, and this is what it holds now.
  abbrev pub OnlySlot : Process Object → ℕ → Option (Handler Object) → Process Object → Type 0
  OnlySlot p fd slot q =
      (get_elem? q.open_files fd ≡ some slot)
      × ((j : ℕ) → j ≢ fd → get_elem? q.open_files j ≡ get_elem? p.open_files j)
      × IsTable device q
      × (q.signals ≡ p.signals)

  pub put-OnlySlot :
      (p : Process Object) (fd : ℕ) (slot : Option (Handler Object))
      → IsTable device p
      → fd < max_open_files
      → OnlySlot p fd slot (put device p fd slot)
  unfolding put
  put-OnlySlot p fd slot t h = (
    get_elem?-set_self p.open_files fd slot (omega (arith, t)),
    λ j other. get_elem?-set_ne p.open_files slot (λ e. other (sym e)),
    length-set p.open_files fd slot ∙ t,
    refl,
  )

  -- `put` twice into one slot.
  put-put-OnlySlot :
      (p : Process Object) (fd : ℕ) (slot slot' : Option (Handler Object))
      → IsTable device p
      → fd < max_open_files
      → OnlySlot p fd slot' (put device (put device p fd slot) fd slot')
  put-put-OnlySlot p fd slot slot' t h =
      let (_, same, t', quiet) = put-OnlySlot p fd slot t h in
      let (now, same', t'', quiet') = put-OnlySlot (put device p fd slot) fd slot' t' h in
      (now, λ j other. same' j other ∙ same j other, t'', quiet' ∙ quiet)

  -- `dup2` of an open descriptor to another place of the table, where the object can be duplicated,
  -- puts the duplicate with fresh flags there, touches no other slot, and returns the new descriptor.
  pub sys_dup2_lem :
      (p : Process Object) (fdold fdnew : ℕ) (old : Handler Object) (o : Object)
      → IsTable device p
      → get_elem? p.open_files fdold ≡ some (some old)
      → fdnew < max_open_files
      → fdnew ≢ fdold
      → device.duplicate old.object ≡ some o
      → (q : Process Object) × (sys_dup2 device p fdold fdnew ≡ some (q, fdnew))
        × OnlySlot p fdnew (some (new_handler device o)) q
  unfolding sys_dup2 with_open replace
  sys_dup2_lem p fdold fdnew old o t at small other made =
      let (slot, there) = get_elem?_within p.open_files fdnew (omega (arith, t)) in
      let inside : fdold < max_open_files =
        omega (arith, get_elem?-length p.open_files fdold at, t) in
      (
        put device (put device p fdnew none) fdnew (some (new_handler device o)),
        rw (good_fd fdold inside, at, good_fd fdnew small, differs, there, made) refl,
        put-put-OnlySlot p fdnew none (some (new_handler device o)) t small,
      )
    where
      differs : (fdnew == fdold) ≡ false
      differs = ground arith

  -- A duplicate that cannot be made leaves the new slot closed.
  sys_dup2-none :
      (p : Process Object) (fdold fdnew : ℕ) (old : Handler Object)
      → IsTable device p
      → get_elem? p.open_files fdold ≡ some (some old)
      → fdnew < max_open_files
      → fdnew ≢ fdold
      → device.duplicate old.object ≡ none
      → sys_dup2 device p fdold fdnew
        ≡ some (
          put device p fdnew none,
          negative (win32_err_to_unix_error (device.duplicate_error old.object)),
        )
  unfolding sys_dup2 with_open replace
  sys_dup2-none p fdold fdnew old t at small other made =
      let (slot, there) = get_elem?_within p.open_files fdnew (omega (arith, t)) in
      let inside : fdold < max_open_files =
        omega (arith, get_elem?-length p.open_files fdold at, t) in
      rw (good_fd fdold inside, at, good_fd fdnew small, differs, there, made) refl
    where
      differs : (fdnew == fdold) ≡ false
      differs = ground arith

  -- `dup` of an open descriptor whose object can be duplicated puts the duplicate into the lowest free slot and returns it; with no
  -- free slot it returns EMFILE and changes nothing.
  pub sys_dup_lem :
      (p : Process Object) (fd : ℕ) (old : Handler Object) (o : Object)
      → IsTable device p
      → get_elem? p.open_files fd ≡ some (some old)
      → device.duplicate old.object ≡ some o
      → ((fdnew : ℕ) × (q : Process Object) × (sys_dup device p fd ≡ some (q, fdnew))
          × IsLowestFree p.open_files (some fdnew)
          × OnlySlot p fdnew (some (new_handler device o)) q)
        ⊎ ((sys_dup device p fd ≡ some (p, negative emfile)) × IsLowestFree p.open_files none)
  unfolding sys_dup
  sys_dup_lem p fd old o t at made = elim (Option-cases (find_free_fd p.open_files)) [
    | inl full ↦ inr (rw (full, sys_dup) refl, lowest none full)
    | inr (fdnew, found) ↦
        let (free, before) = lowest (some fdnew) found in
        let small : fdnew < max_open_files =
          omega (arith, get_elem?-length p.open_files fdnew free, t) in
        let (q, ran, only) = sys_dup2_lem p fd fdnew old o t at small (taken fdnew free) made in
        inl (fdnew, q, rw (found, sys_dup) ran, (free, before), only)
  ]
    where
      lowest : (r : Option ℕ) → find_free_fd p.open_files ≡ r → IsLowestFree p.open_files r
      lowest r e = subst (IsLowestFree p.open_files) e (find_free_fd-IsLowestFree p.open_files)

      taken : (fdnew : ℕ) → get_elem? p.open_files fdnew ≡ some none → fdnew ≢ fd
      taken fdnew free e = cc (e, free, at)

  -- `close` of an open descriptor frees its slot, touches no other slot, and returns 0.
  pub sys_close_lem :
      (p : Process Object) (fd : ℕ) (h : Handler Object)
      → IsTable device p
      → get_elem? p.open_files fd ≡ some (some h)
      → (q : Process Object) × (sys_close device p fd ≡ some (q, 0)) × OnlySlot p fd none q
  unfolding sys_close with_open
  sys_close_lem p fd h t at =
      let inside : fd < max_open_files = omega (arith, get_elem?-length p.open_files fd at, t) in
      (put device p fd none, rw (good_fd fd inside, at) refl, put-OnlySlot p fd none t inside)

  -- After `F_SETFD` of an open descriptor, `F_GETFD` reads 0 if the argument was 0 and 1 otherwise;
  -- no other slot has changed.
  pub getfd-setfd :
      (p : Process Object) (fd argument : ℕ) (h : Handler Object)
      → IsTable device p
      → get_elem? p.open_files fd ≡ some (some h)
      → (q : Process Object) × (sys_fcntl device p fd f_setfd argument ≡ some (q, 0))
        × (sys_fcntl device q fd f_getfd 0 ≡ some (q, if argument == 0 then 0 else 1))
        × OnlySlot p fd (some (record h { inheritable = argument == 0 })) q
  unfolding sys_fcntl with_open
  getfd-setfd p fd argument h t at =
      let inside : fd < max_open_files = omega (arith, get_elem?-length p.open_files fd at, t) in
      let slot = some (record h { inheritable = argument == 0 }) in
      let only = put-OnlySlot p fd slot t inside in
      (
        put device p fd slot,
        rw (good_fd fd inside, at) refl,
        rw (good_fd fd inside, only.0) refl,
        only,
      )

  -- The case F_DUPFD after its two tests, whatever `dup2` did.
  dup_fd_lem :
      (p : Process Object) (fd fdnew maxfd : ℕ) (q : Process Object)
      → find_free_fd p.open_files ≡ some fdnew
      → fdnew ≤ maxfd
      → maxfd < 2 ^ 31
      → (eax : ℕ) → sys_dup2 device p fd fdnew ≡ some (q, eax)
      → dup_fd device p fd maxfd ≡ (set_inheritable device q fdnew false >>= λ r. some (r, eax))
  unfolding dup_fd
  dup_fd_lem p fd fdnew maxfd q found fits int eax ran =
      rw (found, dup_fd, in_range maxfd fdnew fits int, ran) refl

  -- `F_DUPFD` of an open descriptor whose object can be duplicated, with a free slot at most the
  -- argument, returns the lowest free slot, and `F_GETFD` then reads 1 (close on exec) of the copy.
  pub dup_fd-getfd :
      (p : Process Object) (fd fdnew maxfd : ℕ) (old : Handler Object) (o : Object)
      → IsTable device p
      → get_elem? p.open_files fd ≡ some (some old)
      → device.duplicate old.object ≡ some o
      → find_free_fd p.open_files ≡ some fdnew
      → fdnew ≤ maxfd
      → maxfd < 2 ^ 31
      → (q : Process Object) × (sys_fcntl device p fd f_dupfd maxfd ≡ some (q, fdnew))
        × (sys_fcntl device q fdnew f_getfd 0 ≡ some (q, 1))
  unfolding sys_fcntl with_open set_inheritable
  dup_fd-getfd p fd fdnew maxfd old o t at made found fits int =
      let (free, _) =
        subst (IsLowestFree p.open_files) found (find_free_fd-IsLowestFree p.open_files) in
      let small : fdnew < max_open_files =
        omega (arith, get_elem?-length p.open_files fdnew free, t) in
      let inside : fd < max_open_files = omega (arith, get_elem?-length p.open_files fd at, t) in
      let (q, ran, only) = sys_dup2_lem p fd fdnew old o t at small (λ e. cc (e, free, at)) made in
      let copy = some (record (new_handler device o) { inheritable = false }) in
      let now = (put-OnlySlot q fdnew copy only.2 small).0 in
      let copied : dup_fd device p fd maxfd ≡ some (put device q fdnew copy, fdnew) =
        dup_fd_lem p fd fdnew maxfd q found fits int fdnew ran
        ∙ rw (only.0, set_inheritable) refl in
      (
        put device q fdnew copy,
        rw (good_fd fd inside, at, copied) refl,
        rw (good_fd fdnew small, now) refl,
      )

  -- If the object of an open descriptor cannot be duplicated and a slot at most the argument is free,
  -- `F_DUPFD` goes on to a NULL handler.
  pub dup_fd-fault :
      (p : Process Object) (fd fdnew maxfd : ℕ) (old : Handler Object)
      → IsTable device p
      → get_elem? p.open_files fd ≡ some (some old)
      → device.duplicate old.object ≡ none
      → find_free_fd p.open_files ≡ some fdnew
      → fdnew ≤ maxfd
      → maxfd < 2 ^ 31
      → sys_fcntl device p fd f_dupfd maxfd ≡ none
  unfolding sys_fcntl with_open set_inheritable
  dup_fd-fault p fd fdnew maxfd old t at made found fits int =
      let (free, _) =
        subst (IsLowestFree p.open_files) found (find_free_fd-IsLowestFree p.open_files) in
      let small : fdnew < max_open_files =
        omega (arith, get_elem?-length p.open_files fdnew free, t) in
      let inside : fd < max_open_files = omega (arith, get_elem?-length p.open_files fd at, t) in
      let ran = sys_dup2-none p fd fdnew old t at small (λ e. cc (e, free, at)) made in
      let now = (put-OnlySlot p fdnew none t small).0 in
      let fault : dup_fd device p fd maxfd ≡ none =
        dup_fd_lem p fd fdnew maxfd _ found fits int _ ran ∙ rw (now, set_inheritable) refl in
      rw (good_fd fd inside, at, fault) refl

-- Exec keeps the inheritable handlers in their places and closes all others.
pub close_on_exec_lem :
    (device : Device) (t : List (Option (Handler device.Object))) (fd : ℕ)
    → get_elem? (close_on_exec device t) fd
      ≡ (get_elem? t fd >>= λ slot. some (slot >>= λ h. if h.inheritable then some h else none))
unfolding close_on_exec
close_on_exec_lem device [] fd = refl
close_on_exec_lem device (none ∷ t) zero = refl
close_on_exec_lem device (some h ∷ t) zero = refl
close_on_exec_lem device (none ∷ t) (suc fd) = close_on_exec_lem device t fd
close_on_exec_lem device (some h ∷ t) (suc fd) = close_on_exec_lem device t fd
