-- ===== src/Kill/Tests.antt =====
-- A table of three processes, of which the last two are one group.
use keow.Prelude.{ℕ, ◌≡◌, refl, [], ◌∷◌, some, false}
use keow.Errno.{negative, esrch}
use keow.Signals.{SignalState, Layout, nsig}
use keow.Signals.Delivery.{repeated, default_action}
use keow.Kill.{Entry, sys_kill, find_process, kill_one, sys_getpgid, set_group}

abbrev layout : Layout
layout = record { frame_size = 900; saved_at = 140; siginfo_at = 12; restorer_at = 880 }

abbrev no_tracer : ℕ → ℕ
no_tracer sig = sig

abbrev quiet : SignalState
quiet = record {
  current_signal = 0;
  killed_by = 0;
  pending = repeated nsig false;
  signal_mask = λ b. false;
  actions = repeated nsig default_action;
  context = record { eip = 0; esp = 0; eax = 0; ecx = 0; edx = 0; others = [] };
  ptrace_owner = 0;
  new_signal = 0;
  effects = [];
}

abbrev init : Entry
init = record { pid = 1; group = 1; signals = quiet }

abbrev shell : Entry
shell = record { pid = 2; group = 2; signals = quiet }

abbrev job : Entry
job = record { pid = 3; group = 2; signals = quiet }

absent_test :
    sys_kill layout no_tracer 1 (init ∷ shell ∷ job ∷ []) 7 15
    ≡ some (init ∷ shell ∷ job ∷ [], negative esrch)
unfolding sys_kill find_process kill_one
absent_test = refl

-- getpgid of process 3 and group 9 sets the group.
getpgid_test :
    sys_getpgid 1 (init ∷ shell ∷ job ∷ []) 3 9
    ≡ some (init ∷ shell ∷ record job { group = 9 } ∷ [], 0)
unfolding sys_getpgid find_process set_group
getpgid_test = refl
