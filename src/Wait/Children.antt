-- ===== src/Wait/Children.antt =====
-- Which child sys_wait4 of keow-kernel/KeowKernel/sys_process.cpp returns.
use keow.Prelude.{
  ℕ, ◌^◌, ◌<◌, ◌≡◌, ◌≢◌, refl, ap, ◌∙◌, inl, inr, Bool, true, false, not, ◌&&◌, ◌||◌, List, [], ◌∷◌,
  ◌++◌, Option, none, some, ◌==◌, if◌then◌else◌, All, Bool-cases, arith,
}
use keow.Errno.{is_negative}
use keow.Wait.{
  Process, Options, Round, Outcome, find_process, is_selected, select_children, exit_status, erase,
  found, finish, start_wait, sys_wait4,
}

-- The call would return at once for the child.
abbrev pub is_waiting_for : Process → ℕ → Process → Bool
is_waiting_for me wait_pid b = is_selected me wait_pid b && not b.still_running

module _ (me : Process) (wait_pid : ℕ) (c : Process) where
  select_children-exited :
      (before after : List Process)
      → All (λ b. is_waiting_for me wait_pid b ≡ false) before
      → is_selected me wait_pid c ≡ true
      → c.still_running ≡ false
      → (select_children me wait_pid (before ++ c ∷ after)).1 ≡ some c.pid
  unfolding select_children
  select_children-exited [] after all sel exited = rw sel (rw exited refl)
  select_children-exited (b ∷ before) after (skip, all) sel exited =
      elim (Bool-cases (is_selected me wait_pid b)) [
        | inl y ↦
            let running : b.still_running ≡ true = ground arith in
            rw y (rw running (select_children-exited before after all sel exited))
        | inr y ↦ rw y (select_children-exited before after all sel exited)
      ]

module _ (c : Process) where
  find_process-first :
      (before after : List Process)
      → All (λ b. b.pid ≢ c.pid) before
      → find_process c.pid (before ++ c ∷ after) ≡ some c
  unfolding find_process
  find_process-first [] after all = let y : (c.pid == c.pid) ≡ true = ground arith in rw y refl
  find_process-first (b ∷ before) after (other, all) =
      let y : (b.pid == c.pid) ≡ false = ground (arith, other) in
      rw y (find_process-first before after all)

  erase-first :
      (before after : List Process)
      → All (λ b. b.pid ≢ c.pid) before
      → erase c.pid (before ++ c ∷ after) ≡ before ++ after
  unfolding erase
  erase-first [] after all = let y : (c.pid == c.pid) ≡ true = ground arith in rw y refl
  erase-first (b ∷ before) after (other, all) =
      let y : (b.pid == c.pid) ≡ false = ground (arith, other) in
      rw y (ap (◌∷◌ b) (erase-first before after all))

start_wait-exited :
    (me : Process) (options : Options) (wants_status : Bool) (ps : List Process)
    (rounds : List Round) (s : List ℕ × Option ℕ) (pid : ℕ)
    → s.1 ≡ some pid
    → is_negative pid ≡ false
    → start_wait me options wants_status ps rounds s ≡ finish me wants_status ps (pid, false)
unfolding start_wait
start_wait-exited me options wants_status ps rounds (pids, none) pid e h = absurd (cc)
start_wait-exited me options wants_status ps rounds (pids, some k) pid e h =
    let same : k ≡ pid = cc in rw same (rw h refl)

-- If a process of the table is a child of the caller that the call waits for and has exited, no such
-- child stands before it and neither does another process with its pid, and the pid is a positive int,
-- then wait4 returns at once, whatever happens in the rounds: eax is the pid, the status is the exit
-- status of that child if the caller wants one, and that child alone leaves the table.
pub sys_wait4-exited :
    (me : Process) (wait_pid : ℕ) (options : Options) (wants_status : Bool)
    (before after : List Process) (c : Process) (rounds : List Round)
    → All (λ b. is_waiting_for me wait_pid b ≡ false) before
    → All (λ b. b.pid ≢ c.pid) before
    → is_selected me wait_pid c ≡ true
    → c.still_running ≡ false
    → 0 < c.pid
    → c.pid < 2 ^ 31
    → sys_wait4 me wait_pid options wants_status (before ++ c ∷ after) rounds
      ≡ Outcome.returned (record {
        eax = c.pid;
        status = if wants_status then some (exit_status c) else none;
        processes = before ++ after;
      })
unfolding sys_wait4 finish found
sys_wait4-exited me wait_pid options wants_status before after c rounds skip others sel exited low
      high =
    let int : is_negative c.pid ≡ false = ground arith in
    let positive : (is_negative c.pid || c.pid == 0) ≡ false = ground arith in
    start_wait-exited me options wants_status (before ++ c ∷ after) rounds
      (select_children me wait_pid (before ++ c ∷ after)) c.pid
      (select_children-exited me wait_pid c before after skip sel exited) int
    ∙ rw positive (
        rw (find_process-first c before after others) (rw (erase-first c before after others) refl))
