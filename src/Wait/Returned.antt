-- ===== src/Wait/Returned.antt =====
-- What sys_wait4 of keow-kernel/KeowKernel/sys_process.cpp may return.
use keow.Prelude.{
  ℕ, zero, suc, ◌≡◌, refl, subst, ◌⊎◌, inl, inr, Bool, true, false, List, [], ◌∷◌, Option, none,
  some, if◌then◌else◌, get_elem?, All, some_inj,
}
use keow.Errno.{is_negative, negative}
use keow.Wait.{
  Process, Options, Round, timed_out, Waited, Outcome, is_selected, select_children, finish,
  start_wait, wait_rounds, sys_wait4, one_round, test_event, after_event, echild,
}
use keow.Wait.Rounds.{Allowed, EaxHas, EaxHas-if, finish-EaxHas, wait_rounds-EaxHas}

module _ (me : Process) (wait_pid : ℕ) where
  -- The pid is one of a process of the table that is a child of the caller and that the call asks for.
  abbrev pub IsAwaited : List Process → ℕ → Type 0
  IsAwaited ps pid =
      (c : Process) × ((j : ℕ) × (get_elem? ps j ≡ some c))
      × (is_selected me wait_pid c ≡ true)
      × (c.pid ≡ pid)

  IsAwaited-later :
      (b : Process) (ps : List Process) (pid : ℕ) → IsAwaited ps pid → IsAwaited (b ∷ ps) pid
  IsAwaited-later b ps pid (c, (j, at), sel, same) = (c, (suc j, at), sel, same)

  abbrev AllAwaited : List Process → List ℕ × Option ℕ → Type 0
  AllAwaited ps (pids, none) = All (IsAwaited ps) pids
  AllAwaited ps (pids, some pid) = All (IsAwaited ps) pids × IsAwaited ps pid

  All-later :
      (b : Process) (ps : List Process) (pids : List ℕ)
      → All (IsAwaited ps) pids
      → All (IsAwaited (b ∷ ps)) pids
  All-later b ps [] all = tt
  All-later b ps (pid ∷ pids) (h, all) = (IsAwaited-later b ps pid h, All-later b ps pids all)

  AllAwaited-later :
      (b : Process) (ps : List Process) (s : List ℕ × Option ℕ)
      → AllAwaited ps s
      → AllAwaited (b ∷ ps) s
  AllAwaited-later b ps (pids, none) all = All-later b ps pids all
  AllAwaited-later b ps (pids, some pid) (all, h) =
      (All-later b ps pids all, IsAwaited-later b ps pid h)

  AllAwaited-add :
      (ps : List Process) (pid : ℕ) (s : List ℕ × Option ℕ)
      → IsAwaited ps pid
      → AllAwaited ps s
      → AllAwaited ps (pid ∷ s.0, s.1)
  AllAwaited-add ps pid (pids, none) h all = (h, all)
  AllAwaited-add ps pid (pids, some k) h (all, g) = ((h, all), g)

  select_children-AllAwaited : (ps : List Process) → AllAwaited ps (select_children me wait_pid ps)
  unfolding select_children
  select_children-AllAwaited [] = tt
  select_children-AllAwaited (c ∷ cs) =
      by_test (is_selected me wait_pid c) refl
        (AllAwaited-later c cs (select_children me wait_pid cs) (select_children-AllAwaited cs))
    where
      by_running :
          (b : Bool) (s : List ℕ × Option ℕ)
          → IsAwaited (c ∷ cs) c.pid
          → AllAwaited (c ∷ cs) s
          → AllAwaited (c ∷ cs) (if b then (c.pid ∷ s.0, s.1) else (c.pid ∷ [], some c.pid))
      by_running true s this later = AllAwaited-add (c ∷ cs) c.pid s this later
      by_running false s this later = ((this, tt), this)

      by_test :
          (b : Bool)
          → is_selected me wait_pid c ≡ b
          → AllAwaited (c ∷ cs) (select_children me wait_pid cs)
          → AllAwaited (c ∷ cs) (
              if b
              then (if c.still_running
                  then ((
                    c.pid ∷ (select_children me wait_pid cs).0,
                    (select_children me wait_pid cs).1,
                  ))
                  else (c.pid ∷ [], some c.pid))
              else select_children me wait_pid cs)
      by_test true e later =
          by_running c.still_running (select_children me wait_pid cs) (c, (0, refl), e, refl) later
      by_test false e later = later

  abbrev pub ErrorOrAwaited : List Process → ℕ → Type 0
  ErrorOrAwaited ps r = (is_negative r ≡ true) ⊎ IsAwaited ps r

  All-at :
      (ps : List Process) (pids : List ℕ) (i : ℕ) (r : ℕ)
      → All (IsAwaited ps) pids
      → get_elem? pids i ≡ some r
      → IsAwaited ps r
  All-at ps [] i r all at = absurd (cc)
  All-at ps (p ∷ pids) zero r (h, all) at = subst (IsAwaited ps) (some_inj at) h
  All-at ps (p ∷ pids) (suc i) r (h, all) at = All-at ps pids i r all at

  from_Allowed :
      (ps : List Process) (pids : List ℕ) (o : Outcome)
      → All (IsAwaited ps) pids
      → EaxHas (Allowed pids) o
      → EaxHas (ErrorOrAwaited ps) o
  from_Allowed ps pids Outcome.waiting all h = tt
  from_Allowed ps pids Outcome.fault all h = tt
  from_Allowed ps pids (Outcome.returned w) all (inl e) = inl e
  from_Allowed ps pids (Outcome.returned w) all (inr (i, at)) = inr (All-at ps pids i w.eax all at)

  start_wait-EaxHas :
      (options : Options) (wants : Bool) (ps : List Process) (rounds : List Round)
      (s : List ℕ × Option ℕ)
      → AllAwaited ps s
      → EaxHas (ErrorOrAwaited ps) (start_wait me options wants ps rounds s)
  unfolding start_wait
  start_wait-EaxHas options wants ps rounds ([], none) all =
      finish-EaxHas (ErrorOrAwaited ps) me wants ps (negative echild) false (inl refl)
  start_wait-EaxHas options wants ps rounds (pid ∷ pids, none) all =
      from_Allowed ps (pid ∷ pids) _ all (wait_rounds-EaxHas me options wants (pid ∷ pids) rounds)
  start_wait-EaxHas options wants ps rounds (pids, some pid) (all, h) =
      EaxHas-if (ErrorOrAwaited ps) (is_negative pid) _ _
        (from_Allowed ps pids _ all (wait_rounds-EaxHas me options wants pids rounds))
        (finish-EaxHas (ErrorOrAwaited ps) me wants ps pid false (inr h))

  -- If wait4 returns and eax is not negative as an int, then eax is the pid of a process that stood in
  -- the table when the call began, as a child of the caller that the call asks for.
  pub sys_wait4-IsAwaited :
      (options : Options) (wants : Bool) (ps : List Process) (rounds : List Round) (w : Waited)
      → sys_wait4 me wait_pid options wants ps rounds ≡ Outcome.returned w
      → is_negative w.eax ≡ false
      → IsAwaited ps w.eax
  unfolding sys_wait4
  sys_wait4-IsAwaited options wants ps rounds w ran int = no_error (
      subst (EaxHas (ErrorOrAwaited ps)) ran (
        start_wait-EaxHas options wants ps rounds (select_children me wait_pid ps)
          (select_children-AllAwaited ps)))
    where
      no_error : ErrorOrAwaited ps w.eax → IsAwaited ps w.eax
      no_error (inl e) = cc
      no_error (inr h) = h

-- If the call waits for children of which none has exited, the first round of the wait ends by its time,
-- and the caller asked not to hang, then wait4 returns -ECHILD, as it does where there are no children.
pub sys_wait4-no_hang :
    (me : Process) (wait_pid pid : ℕ) (pids : List ℕ) (options : Options) (wants : Bool)
    (ps qs : List Process) (rounds : List Round)
    → select_children me wait_pid ps ≡ (pid ∷ pids, none)
    → options.no_hang ≡ true
    → sys_wait4 me wait_pid options wants ps (record { event = timed_out; processes = qs } ∷ rounds)
      ≡ Outcome.returned (record { eax = negative echild; status = none; processes = qs })
unfolding sys_wait4 start_wait wait_rounds one_round test_event after_event finish
sys_wait4-no_hang me wait_pid pid pids options wants ps qs rounds selected hang =
    rw selected (rw hang refl)
