-- ===== src/SysCalls/Dispatch.antt =====
-- HandleInt80SysCall and Unhandled of keow-kernel/KeowKernel/SysCalls.cpp.
use keow.Prelude.{
  ℕ, Bool, true, false, not, ◌&&◌, ◌||◌, List, [], ◌∷◌, Option, none, some, ltb, ◌==◌,
  if◌then◌else◌, ◌>>=◌, get_elem?,
}
use keow.Errno.{negative, is_negative, enosys}
use keow.Signals.{Context, SignalState, Layout, sigtrap}
use keow.Signals.Delivery.{send_signal_self}
use keow.SysCalls.Numbers.{nr_syscalls}
use keow.SysCalls.Names.{stub_names}
use keow.SysCalls.Table.{Handler, unhandled, sys}
use Prim.Native.String.{String}
use text.Mathlib.Text.{◌==◌ as str_eq}

abbrev pub ptrace_syscall : ℕ
ptrace_syscall = 24

-- A process with its m_ptrace; OwnerPid stands with its signals.
pub record Traced : Type 0 where
  pub signals : SignalState
  pub request : ℕ
  pub saved_eax : ℕ
  pub ptrace_context : Context
  pub context_valid : Bool

-- eax becomes -ENOSYS. `none` is the trace's read outside of syscall_names, for a number that is
-- negative as an int.
unfoldable pub call_unhandled : Context → Option Context
call_unhandled ctx =
    if is_negative ctx.eax then none else some (record ctx { eax = negative enosys })

unfoldable pub has_name : String → List String → Bool
has_name name [] = false
has_name name (n ∷ ns) = str_eq n name || has_name name ns

abbrev pub is_stopping : Traced → Bool
is_stopping p = not (p.signals.ptrace_owner == 0) && p.request == ptrace_syscall

-- `resume` is what the tracer leaves in the process while it is stopped, and `implemented` are the
-- functions sys_ of the other files.
module _ (layout : Layout) (tracer : ℕ → ℕ) (resume : Traced → Traced)
    (implemented : String → Traced × Context → Option (Traced × Context)) where
  unfoldable pub stop : Traced → Option Traced
  stop p = send_signal_self layout tracer sigtrap p.signals >>= λ s.
      some (resume (record p { signals = s }))

  unfoldable pub entry_stop : Traced → Context → Option Traced
  unfolding stop
  entry_stop p ctx =
      if is_stopping p
      then stop
          (record p { saved_eax = ctx.eax; ptrace_context = record ctx { eax = negative enosys } })
      else some p

  unfoldable pub exit_stop : ℕ → Traced → Context → Option Traced
  unfolding stop
  exit_stop number p ctx =
      if is_stopping p then stop (record p { saved_eax = number; ptrace_context = ctx }) else some p

  unfoldable pub call_handler : Handler → Traced → Context → Option (Traced × Context)
  unfolding call_unhandled stub_names has_name
  call_handler unhandled p ctx = call_unhandled ctx >>= λ c. some (p, c)
  call_handler (sys name) p ctx =
      if has_name name stub_names
      then (call_unhandled ctx >>= λ c. some (p, c))
      else implemented name (p, ctx)

  unfoldable pub call_number : List Handler → Traced → Context → Option (Traced × Context)
  unfolding entry_stop exit_stop call_handler
  call_number table p ctx = entry_stop p ctx >>= λ stopped. get_elem? table ctx.eax >>= λ h.
      call_handler h stopped ctx >>= λ called.
      exit_stop ctx.eax called.0 called.1 >>= λ q. some (q, called.1)

  unfoldable pub handle_int80_sys_call : List Handler → Traced → Context → Option (Traced × Context)
  unfolding call_number call_unhandled
  handle_int80_sys_call table p ctx =
      let started = record p { ptrace_context = ctx; context_valid = true } in
      (if ltb ctx.eax nr_syscalls
        then call_number table started ctx
        else (call_unhandled ctx >>= λ c. some (started, c)))
      >>= λ done. some (record done.0 { context_valid = false }, done.1)
