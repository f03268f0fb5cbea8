-- ===== src/Wait.antt =====
-- Waiting for children: sys_wait4 and sys_waitpid of keow-kernel/KeowKernel/sys_process.cpp.
pub mod Children
pub mod Status
pub mod Returned
pub mod Rounds
mod Tests
use keow.Prelude.{
  ℕ, zero, suc, ◌+◌, ◌-◌, ◌*◌, ◌/◌, ◌%◌, ◌^◌, Bool, true, false, not, ◌&&◌, ◌||◌, List, [], ◌∷◌,
  Option, none, some, ltb, leb, ◌==◌, if◌then◌else◌, ◌>>=◌, get_elem?, length,
}
use keow.Errno.{word, negative, is_negative, einval}
use keow.Signals.{sigtrap}

abbrev pub echild : ℕ
echild = 10

abbrev pub eintr : ℕ
eintr = 4

-- The fields of a process that wait4 reads.
pub record Process : Type 0 where
  pub pid : ℕ
  pub parent_pid : ℕ
  pub group : ℕ
  pub still_running : Bool
  pub in_win32_setup : Bool
  pub suspended : Bool
  pub exit_code : ℕ
  pub killed_by : ℕ
  pub core_dumped : Bool
  pub current_signal : ℕ
  pub ptrace_owner : ℕ
  pub ptrace_request : ℕ

-- WNOHANG and WUNTRACED of the options.
pub record Options : Type 0 where
  pub no_hang : Bool
  pub untraced : Bool

-- What WaitForMultipleObjects returns: the handle that is signalled, the end of its time, or a failure.
pub data Event : Type 0 where
  signalled : ℕ → Event
  timed_out : Event
  failed : Event

-- One round of the wait: the event, and the processes as the code finds them after it.
pub record Round : Type 0 where
  pub event : Event
  pub processes : List Process

unfoldable pub find_process : ℕ → List Process → Option Process
find_process pid [] = none
find_process pid (p ∷ ps) =
    let later = find_process pid ps in if p.pid == pid then some p else later

unfoldable pub is_waited : Process → ℕ → Process → Bool
is_waited me wait_pid c =
    is_negative wait_pid && not (wait_pid == word - 1) && c.group == wait_pid
    || wait_pid == word - 1
    || wait_pid == 0 && c.group == me.group
    || not (is_negative wait_pid) && not (wait_pid == 0) && c.pid == wait_pid

abbrev pub is_selected : Process → ℕ → Process → Bool
is_selected me wait_pid c = c.parent_pid == me.pid && is_waited me wait_pid c

-- The pids to wait for, up to the first child that has exited already, and that child.
unfoldable pub select_children : Process → ℕ → List Process → List ℕ × Option ℕ
select_children me wait_pid [] = ([], none)
select_children me wait_pid (c ∷ cs) =
    let later = select_children me wait_pid cs in
    if is_selected me wait_pid c
    then (if c.still_running then (c.pid ∷ later.0, later.1) else (c.pid ∷ [], some c.pid))
    else later

-- The result of a round: `some none` goes on, and a pair is the result with one_stopped. `none` is a
-- process that FindProcess does not find any more.
abbrev pub Step : Type 0
Step = Option (Option (ℕ × Bool))

-- The child that a handle belongs to has exited, or there was something else to test.
unfoldable pub test_child : ℕ → List Process → Step
unfolding find_process
test_child pid ps =
    find_process pid ps >>= λ c. some (if c.still_running then none else some (pid, false))

-- The handle after the children's is m_hWaitTerminatingEvent.
unfoldable pub test_event : List ℕ → Event → List Process → Step
unfolding test_child
test_event pids (Event.signalled i) ps =
    if i == length pids
    then some (some (negative eintr, false))
    else if ltb i (length pids)
    then (get_elem? pids i >>= λ pid. test_child pid ps)
    else some none
test_event pids Event.timed_out ps = some none
test_event pids Event.failed ps = some (some (negative einval, false))

abbrev pub is_stopped : Process → Options → Process → Bool
is_stopped me options c =
    (options.untraced || c.ptrace_owner == me.pid) && not c.in_win32_setup && c.suspended

-- The loop that looks for a stopped child.
unfoldable pub find_stopped : Process → Options → List ℕ → List Process → Step
unfolding find_process
find_stopped me options [] ps = some none
find_stopped me options (pid ∷ pids) ps =
    let later = find_stopped me options pids ps in
    find_process pid ps >>= λ c. if is_stopped me options c then some (some (pid, true)) else later

-- A round after its event. With WNOHANG the loop ends, and the result is still -ECHILD.
unfoldable pub after_event : Process → Options → List ℕ → List Process → Option (ℕ × Bool) → Step
unfolding find_stopped
after_event me options pids ps (some r) = some (some r)
after_event me options pids ps none =
    if options.no_hang
    then some (some (negative echild, false))
    else find_stopped me options pids ps

unfoldable pub one_round : Process → Options → List ℕ → Round → Step
unfolding test_event after_event
one_round me options pids r =
    test_event pids r.event r.processes >>= λ tested. after_event me options pids r.processes tested

-- The exit status as waitpid's caller decodes it. The parts have no bit in common.
unfoldable pub exit_status : Process → ℕ
exit_status c = c.exit_code % 256 * 256 + c.killed_by % 128 + (if c.core_dumped then 128 else 0)

unfoldable pub stop_status : Process → Process → ℕ
stop_status me c =
    127
    + (if c.ptrace_owner == me.pid && not (c.ptrace_request == 0)
        then sigtrap * 256
        else c.current_signal % 256 * 256)

-- `list::erase` of the process found: the first of the pid.
unfoldable pub erase : ℕ → List Process → List Process
erase pid [] = []
erase pid (p ∷ ps) = let later = erase pid ps in if p.pid == pid then ps else p ∷ later

-- What wait4 leaves: eax, what it writes to the status if the caller wants it, and the processes.
pub record Waited : Type 0 where
  pub eax : ℕ
  pub status : Option ℕ
  pub processes : List Process

-- A wait that has not come to an end within the rounds that are given, or a fault.
pub data Outcome : Type 0 where
  waiting : Outcome
  fault : Outcome
  returned : Waited → Outcome

unfoldable pub found : Process → Bool → ℕ → Bool → List Process → Option Process → Outcome
unfolding exit_status stop_status erase
found me wants_status result stopped ps none = Outcome.fault
found me wants_status result stopped ps (some c) = Outcome.returned (record {
  eax = result;
  status =
      if wants_status then some (if stopped then stop_status me c else exit_status c) else none;
  processes = if stopped then ps else erase result ps;
})

-- The end of the call, from `if(result>0)`.
unfoldable pub finish : Process → Bool → List Process → ℕ × Bool → Outcome
unfolding found find_process
finish me wants_status ps (result, stopped) =
    if is_negative result || result == 0
    then Outcome.returned (record { eax = result; status = none; processes = ps })
    else found me wants_status result stopped ps (find_process result ps)

unfoldable pub wait_rounds : Process → Options → Bool → List ℕ → List Round → Outcome
unfolding one_round finish
wait_rounds me options wants_status pids [] = Outcome.waiting
wait_rounds me options wants_status pids (r ∷ rs) =
    let later = wait_rounds me options wants_status pids rs in
    elim (one_round me options pids r) [
      | none ↦ Outcome.fault
      | some none ↦ later
      | some (some result) ↦ finish me wants_status r.processes result
    ]

-- With a child that has exited already there is no wait.
unfoldable pub start_wait :
    Process → Options → Bool → List Process → List Round → List ℕ × Option ℕ → Outcome
unfolding wait_rounds finish
start_wait me options wants_status ps rounds (pids, some pid) =
    if is_negative pid
    then wait_rounds me options wants_status pids rounds
    else finish me wants_status ps (pid, false)
start_wait me options wants_status ps rounds ([], none) =
    finish me wants_status ps (negative echild, false)
start_wait me options wants_status ps rounds (pid ∷ pids, none) =
    wait_rounds me options wants_status (pid ∷ pids) rounds

-- `wants_status` is whether the pointer to the status is not NULL.
unfoldable pub sys_wait4 : Process → ℕ → Options → Bool → List Process → List Round → Outcome
unfolding select_children start_wait
sys_wait4 me wait_pid options wants_status ps rounds =
    start_wait me options wants_status ps rounds (select_children me wait_pid ps)
