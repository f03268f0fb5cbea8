-- ===== src/Wait/Rounds.antt =====
-- What the rounds of sys_wait4 in keow-kernel/KeowKernel/sys_process.cpp come to.
use keow.Prelude.{
  ℕ, suc, ◌≡◌, refl, ◌⊎◌, inl, inr, Bool, true, false, ◌||◌, List, [], ◌∷◌, Option, none, some, ltb,
  ◌==◌, if◌then◌else◌, ◌>>=◌, get_elem?, length, Bool-cases,
}
use keow.Errno.{is_negative}
use keow.Wait.{
  Process, Options, Round, Event, signalled, timed_out, failed, Outcome, find_process, found,
  finish, wait_rounds, Step, one_round, test_event, test_child, after_event, find_stopped,
  is_stopped,
}

-- A result of the loop: an error, or one of the pids.
abbrev pub Allowed : List ℕ → ℕ → Type 0
Allowed pids r = (is_negative r ≡ true) ⊎ ((i : ℕ) × (get_elem? pids i ≡ some r))

abbrev pub StepAllowed : List ℕ → Step → Type 0
StepAllowed pids none = Unit {0}
StepAllowed pids (some none) = Unit {0}
StepAllowed pids (some (some (r, stopped))) = Allowed pids r

Allowed-later : (p : ℕ) (pids : List ℕ) (r : ℕ) → Allowed pids r → Allowed (p ∷ pids) r
Allowed-later p pids r (inl e) = inl e
Allowed-later p pids r (inr (i, at)) = inr (suc i, at)

StepAllowed-later :
    (p : ℕ) (pids : List ℕ) (s : Step) → StepAllowed pids s → StepAllowed (p ∷ pids) s
StepAllowed-later p pids none h = tt
StepAllowed-later p pids (some none) h = tt
StepAllowed-later p pids (some (some (r, stopped))) h = Allowed-later p pids r h

find_stopped-StepAllowed :
    (me : Process) (options : Options) (pids : List ℕ) (ps : List Process)
    → StepAllowed pids (find_stopped me options pids ps)
unfolding find_stopped
find_stopped-StepAllowed me options [] ps = tt
find_stopped-StepAllowed me options (pid ∷ pids) ps =
    let later = find_stopped me options pids ps in
    looked (find_process pid ps) later
      (StepAllowed-later pid pids later (find_stopped-StepAllowed me options pids ps))
  where
    picked :
        (b : Bool) (s : Step)
        → StepAllowed (pid ∷ pids) s
        → StepAllowed (pid ∷ pids) (if b then some (some (pid, true)) else s)
    picked true s h = inr (0, refl)
    picked false s h = h

    looked :
        (o : Option Process) (s : Step)
        → StepAllowed (pid ∷ pids) s
        → StepAllowed
            (pid ∷ pids)
            (o >>= λ c. if is_stopped me options c then some (some (pid, true)) else s)
    looked none s h = tt
    looked (some c) s h = picked (is_stopped me options c) s h

after_event-StepAllowed :
    (me : Process) (options : Options) (pids : List ℕ) (ps : List Process) (o : Option (ℕ × Bool))
    → StepAllowed pids (some o)
    → StepAllowed pids (after_event me options pids ps o)
unfolding after_event
after_event-StepAllowed me options pids ps (some (r, stopped)) h = h
after_event-StepAllowed me options pids ps none h = elim (Bool-cases options.no_hang) [
  | inl y ↦ rw y (inl refl)
  | inr y ↦ rw y (find_stopped-StepAllowed me options pids ps)
]

test_event-StepAllowed :
    (pids : List ℕ) (e : Event) (ps : List Process) → StepAllowed pids (test_event pids e ps)
unfolding test_event test_child
test_event-StepAllowed pids timed_out ps = tt
test_event-StepAllowed pids failed ps = inl refl
test_event-StepAllowed pids (signalled i) ps = elim (Bool-cases (i == length pids)) [
  | inl y ↦ rw y (inl refl)
  | inr y ↦ rw y (elim (Bool-cases (ltb i (length pids))) [
    | inl z ↦ rw z (at_handle (get_elem? pids i) refl)
    | inr z ↦ rw z tt
  ])
]
  where
    of_child :
        (pid : ℕ) (o : Option Process)
        → get_elem? pids i ≡ some pid
        → StepAllowed pids (o >>= λ c. some (if c.still_running then none else some (pid, false)))
    of_child pid none at = tt
    of_child pid (some c) at = elim (Bool-cases c.still_running) [
      | inl y ↦ rw y tt
      | inr y ↦ rw y (inr (i, at))
    ]

    at_handle :
        (o : Option ℕ)
        → get_elem? pids i ≡ o
        → StepAllowed pids (
            o >>= λ pid.
            find_process pid ps >>= λ c. some (if c.still_running then none else some (pid, false)))
    at_handle none at = tt
    at_handle (some pid) at = of_child pid (find_process pid ps) at

one_round-StepAllowed :
    (me : Process) (options : Options) (pids : List ℕ) (r : Round)
    → StepAllowed pids (one_round me options pids r)
unfolding one_round
one_round-StepAllowed me options pids r =
    tested (test_event pids r.event r.processes) (test_event-StepAllowed pids r.event r.processes)
  where
    tested :
        (s : Step)
        → StepAllowed pids s
        → StepAllowed pids (s >>= λ o. after_event me options pids r.processes o)
    tested none h = tt
    tested (some o) h = after_event-StepAllowed me options pids r.processes o h

-- The eax of the outcome, where there is one, has the property.
abbrev pub EaxHas {ℓ} : (ℕ → Type ℓ) → Outcome → Type ℓ
EaxHas P Outcome.waiting = Unit
EaxHas P Outcome.fault = Unit
EaxHas P (Outcome.returned w) = P w.eax

pub EaxHas-if :
    (P : ℕ → Type 0) (b : Bool) (x y : Outcome)
    → EaxHas P x
    → EaxHas P y
    → EaxHas P (if b then x else y)
EaxHas-if P true x y hx hy = hx
EaxHas-if P false x y hx hy = hy

found-EaxHas :
    (P : ℕ → Type 0) (me : Process) (wants : Bool) (r : ℕ) (stopped : Bool) (ps : List Process)
    (o : Option Process)
    → P r
    → EaxHas P (found me wants r stopped ps o)
unfolding found
found-EaxHas P me wants r stopped ps none h = tt
found-EaxHas P me wants r stopped ps (some c) h = h

pub finish-EaxHas :
    (P : ℕ → Type 0) (me : Process) (wants : Bool) (ps : List Process) (r : ℕ) (stopped : Bool)
    → P r
    → EaxHas P (finish me wants ps (r, stopped))
unfolding finish
finish-EaxHas P me wants ps r stopped h = elim (Bool-cases (is_negative r || r == 0)) [
  | inl y ↦ rw y h
  | inr y ↦ rw y (found-EaxHas P me wants r stopped ps (find_process r ps) h)
]

pub wait_rounds-EaxHas :
    (me : Process) (options : Options) (wants : Bool) (pids : List ℕ) (rounds : List Round)
    → EaxHas (Allowed pids) (wait_rounds me options wants pids rounds)
unfolding wait_rounds
wait_rounds-EaxHas me options wants pids [] = tt
wait_rounds-EaxHas me options wants pids (r ∷ rs) =
    stepped (one_round me options pids r) (one_round-StepAllowed me options pids r)
      (wait_rounds-EaxHas me options wants pids rs)
  where
    stepped :
        (s : Step)
        → StepAllowed pids s
        → EaxHas (Allowed pids) (wait_rounds me options wants pids rs)
        → EaxHas (Allowed pids) (elim s as (λ _. Outcome) [
          | none ↦ Outcome.fault
          | some none ↦ wait_rounds me options wants pids rs
          | some (some result) ↦ finish me wants r.processes result
        ])
    stepped none h later = tt
    stepped (some none) h later = later
    stepped (some (some (k, stopped))) h later =
        finish-EaxHas (Allowed pids) me wants r.processes k stopped h
