-- ===== src/Wait/Tests.antt =====
-- A shell with two jobs.
use keow.Prelude.{◌≡◌, refl, true, false, [], ◌∷◌, none, some, arith}
use keow.Errno.{negative}
use keow.Wait.{
  Process, Options, signalled, timed_out, Outcome, sys_wait4, exit_status, select_children,
  is_waited, echild,
}
use keow.Wait.Children.{sys_wait4-exited}
use keow.Wait.Returned.{IsAwaited, sys_wait4-IsAwaited, sys_wait4-no_hang}
use keow.Wait.Status.{statuses_lem, high_byte, term_signal, core_bit}

abbrev shell : Process
shell = record {
  pid = 2;
  parent_pid = 1;
  group = 2;
  still_running = true;
  in_win32_setup = false;
  suspended = false;
  exit_code = 0;
  killed_by = 0;
  core_dumped = false;
  current_signal = 0;
  ptrace_owner = 0;
  ptrace_request = 0;
}

abbrev job : Process
job = record shell { pid = 3; parent_pid = 2; group = 3 }

abbrev dead : Process
dead = record shell { pid = 4; parent_pid = 2; still_running = false; exit_code = 258 }

abbrev options : Options
options = record { no_hang = false; untraced = false }

-- The pid -3 asks for the group 3, and the test compares the group with the word of -3.
group_test :
    sys_wait4 shell (negative 3) options true (shell ∷ job ∷ dead ∷ []) []
    ≡ Outcome.returned
        (record { eax = negative echild; status = none; processes = shell ∷ job ∷ dead ∷ [] })
unfolding sys_wait4 is_waited
group_test = refl

-- The event of a child that has exited in the meantime.
later_test :
    sys_wait4 shell 3 options true (shell ∷ job ∷ []) (
      record { event = timed_out; processes = shell ∷ job ∷ [] }
      ∷ record {
        event = signalled 0;
        processes = shell ∷ record job { still_running = false } ∷ [];
      }
      ∷ [])
    ≡ Outcome.returned (record { eax = 3; status = some 0; processes = shell ∷ [] })
unfolding sys_wait4 is_waited
later_test = refl

sys_wait4-exited_example :
    sys_wait4 shell (negative 1) options true (shell ∷ job ∷ dead ∷ []) []
    ≡ Outcome.returned
        (record { eax = 4; status = some (exit_status dead); processes = shell ∷ job ∷ [] })
unfolding is_waited
sys_wait4-exited_example =
    sys_wait4-exited shell (negative 1) options true (shell ∷ job ∷ []) [] dead []
      (refl, (refl, tt)) (omega arith, (omega arith, tt)) refl refl (omega arith) (omega arith)

sys_wait4-IsAwaited_example : IsAwaited shell (negative 1) (shell ∷ job ∷ dead ∷ []) 4
unfolding sys_wait4 is_waited
sys_wait4-IsAwaited_example =
    sys_wait4-IsAwaited shell (negative 1) options false (shell ∷ job ∷ dead ∷ []) []
      (record { eax = 4; status = none; processes = shell ∷ job ∷ [] }) refl refl

no_hang_test :
    sys_wait4 shell 3
      (record options { no_hang = true })
      true
      (shell ∷ job ∷ [])
      (record { event = timed_out; processes = shell ∷ job ∷ [] } ∷ [])
    ≡ Outcome.returned
        (record { eax = negative echild; status = none; processes = shell ∷ job ∷ [] })
unfolding select_children is_waited
no_hang_test =
    sys_wait4-no_hang shell 3 3 [] (record options { no_hang = true }) true (shell ∷ job ∷ [])
      (shell ∷ job ∷ []) [] refl refl

statuses_lem_example :
    (high_byte (exit_status dead) ≡ 2)
    × (term_signal (exit_status dead) ≡ 0)
    × (core_bit (exit_status dead) ≡ 0)
statuses_lem_example = let (a, b, c, d, e) = statuses_lem shell dead in (a, b, c)
