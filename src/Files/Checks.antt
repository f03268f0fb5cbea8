-- ===== src/Files/Checks.antt =====
-- The tests of the descriptor that every call starts with.
use keow.Prelude.{
  ℕ, zero, suc, ◌≤◌, ◌<◌, ◌≡◌, ◌≢◌, refl, ap, ◌∙◌, inl, inr, ◌⊎◌, true, false, List, [], ◌∷◌, none,
  some, arith, get_elem?, length, Bool-cases, Option-cases, get_elem?_within,
}
use keow.Errno.{negative, ebadf}
use keow.Files.{Device, Handler, Process, Outcome, bad_fd, with_open, max_open_files}

get_elem?_beyond {ℓ} : {A : Type ℓ} (t : List A) (i : ℕ) → length t ≤ i → get_elem? t i ≡ none
get_elem?_beyond [] i h = refl
get_elem?_beyond (x ∷ t) zero h = absurd (omega arith)
get_elem?_beyond (x ∷ t) (suc i) h = get_elem?_beyond t i (omega arith)

bad_fd-false : (fd : ℕ) → bad_fd fd ≡ false → fd ≤ max_open_files
unfolding bad_fd
bad_fd-false fd h = ground arith

bad_fd-true : (fd : ℕ) → bad_fd fd ≡ true → max_open_files < fd
unfolding bad_fd
bad_fd-true fd h = ground arith

module _ (device : Device) where
  open device use {Object}

  -- A table of the size that the process declares, where no open slot lies past the end.
  abbrev pub IsTable : Process Object → Type 0
  IsTable p = length p.open_files ≡ max_open_files

  -- With a table of 1024 slots, on every descriptor but 1024 a call goes on with the open object, or it returns EBADF, changes
  -- nothing, and no object is open there.
  pub with_open_lem :
      (p : Process Object) (fd : ℕ) (rest : Handler Object → Outcome device)
      → IsTable p
      → fd ≢ max_open_files
      → ((h : Handler Object) × (get_elem? p.open_files fd ≡ some (some h))
          × (with_open device p fd rest ≡ rest h))
        ⊎ ((with_open device p fd rest ≡ some (p, negative ebadf))
            × ((h : Handler Object) → get_elem? p.open_files fd ≢ some (some h)))
  unfolding with_open
  with_open_lem p fd rest t other = elim (Bool-cases (bad_fd fd)) [
    | inl bad ↦ inr (
      rw bad refl,
      λ h e. cc (e, get_elem?_beyond p.open_files fd (omega (arith, bad_fd-true fd bad, t))),
    )
    | inr good ↦
        let (slot, at) =
          get_elem?_within p.open_files fd (omega (arith, bad_fd-false fd good, t)) in
        elim (Option-cases slot) [
          | inl closed ↦ inr (rw (good, at, closed) refl, λ h e. cc (e, at, closed))
          | inr (h, open_there) ↦ inl (h, at ∙ ap some open_there, rw (good, at, open_there) refl)
        ]
  ]

  -- The test of the descriptor lets 1024 through, one past a table of 1024 slots: every call that
  -- starts with it then reads outside of the table, whatever it would do with the handler.
  pub with_open_past :
      (p : Process Object) (rest : Handler Object → Outcome device)
      → IsTable p
      → with_open device p max_open_files rest ≡ none
  unfolding with_open bad_fd
  with_open_past p rest t =
      rw (get_elem?_beyond p.open_files max_open_files (omega (arith, t))) refl
