-- ===== src/Signals.antt =====
-- Signals: SendSignal, HandleSignal, InitSignalHandling and the dispatch of DebuggerLoop in
-- keow-kernel/KeowKernel/Process.cpp, and the calls sigaction, sigprocmask and sigreturn.
pub mod Delivery
pub mod Calls
pub mod Kept
pub mod Totality
pub mod Returning
pub mod Draining
pub mod Masks
pub mod Sound
pub mod Reachable
pub mod Tests
use keow.Prelude.{
  ℕ, zero, suc, ◌+◌, ◌-◌, ◌*◌, ◌/◌, ◌%◌, ◌^◌, Bool, true, false, not, ◌&&◌, ◌||◌, List, [], ◌∷◌,
  Option, none, some, ltb, leb, ◌==◌, if◌then◌else◌, ◌>>=◌, get_elem?, set,
}
use keow.Errno.{word, negative, einval}

-- A sigset_t: bit b of the set is bit b % 32 of its word b / 32. Signal n has bit n - 1.
abbrev pub SigSet : Type 0
SigSet = ℕ → Bool

abbrev pub nsig : ℕ
nsig = 64

abbrev pub nsig_bpw : ℕ
nsig_bpw = 32

abbrev pub nsig_words : ℕ
nsig_words = 2

abbrev pub sigkill : ℕ
sigkill = 9

abbrev pub sigchld : ℕ
sigchld = 17

abbrev pub sigcont : ℕ
sigcont = 18

abbrev pub sigstop : ℕ
sigstop = 19

abbrev pub sigtrap : ℕ
sigtrap = 5

-- SIG_DFL and SIG_IGN are the handlers 0 and 1.
abbrev pub sig_dfl : ℕ
sig_dfl = 0

abbrev pub sig_ign : ℕ
sig_ign = 1

-- The numbers of the bits SA_SIGINFO, SA_NODEFER = SA_NOMASK and SA_RESETHAND = SA_ONESHOT.
abbrev pub sa_siginfo : ℕ
sa_siginfo = 2

abbrev pub sa_nodefer : ℕ
sa_nodefer = 30

abbrev pub sa_resethand : ℕ
sa_resethand = 31

abbrev pub has_flag : ℕ → ℕ → Bool
has_flag flags bit = flags / 2 ^ bit % 2 == 1

pub record SignalAction : Type 0 where
  pub handler : ℕ
  pub flags : ℕ
  pub restorer : ℕ
  pub mask : SigSet

-- The registers of the user thread; `others` are those that signals leave alone.
pub record Context : Type 0 where
  pub eip : ℕ
  pub esp : ℕ
  pub eax : ℕ
  pub ecx : ℕ
  pub edx : ℕ
  pub others : List ℕ

pub record SaveState : Type 0 where
  pub context : Context
  pub signal_mask : SigSet

-- What is written onto the user stack. The restorer's code loads `restorer_ebx` and calls sigreturn.
pub record Frame : Type 0 where
  pub return_address : ℕ
  pub arg_signal : ℕ
  pub arg_sig_info : ℕ
  pub arg_data : ℕ
  pub saved_state : SaveState
  pub restorer_ebx : ℕ

-- The size of that structure, and the offsets of its parts.
pub record Layout : Type 0 where
  pub frame_size : ℕ
  pub saved_at : ℕ
  pub siginfo_at : ℕ
  pub restorer_at : ℕ

-- What is done outside of the process's own record.
pub data Effect : Type 0 where
  exit : ℕ → Effect
  core_dump : Effect
  suspend_threads : Effect
  resume_threads : Effect
  single_step : Effect
  notify_owner : ℕ → Effect
  write_frame : ℕ → Frame → Effect

-- `effects` are newest first.
pub record SignalState : Type 0 where
  pub current_signal : ℕ
  pub killed_by : ℕ
  pub pending : List Bool
  pub signal_mask : SigSet
  pub actions : List SignalAction
  pub context : Context
  pub ptrace_owner : ℕ
  pub new_signal : ℕ
  pub effects : List Effect
