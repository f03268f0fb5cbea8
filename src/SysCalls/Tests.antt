-- ===== src/SysCalls/Tests.antt =====
-- A process that is not traced, at a call that is yet to be implemented and at others.
use keow.Prelude.{
  ℕ, ◌≡◌, ◌^◌, refl, true, false, List, [], ◌∷◌, Option, none, some, get_elem?, arith,
}
use keow.Errno.{negative, enosys}
use keow.Signals.{Context, Layout, nsig}
use keow.Signals.Delivery.{repeated, default_action}
use keow.SysCalls.Numbers.{nr}
use keow.SysCalls.Names.{defined_names, stub_names}
use keow.SysCalls.Table.{
  Handler, unhandled, sys, init_sys_call_table, last_defined, init_sys_call_table_lem,
}
use keow.SysCalls.Dispatch.{Traced, has_name, handle_int80_sys_call}
use keow.SysCalls.Refusals.{
  is_refused, entry_of, handle_int80_sys_call-refused, handle_int80_sys_call-negative,
}
use Prim.Native.String.{String}

abbrev layout : Layout
layout = record { frame_size = 900; saved_at = 140; siginfo_at = 12; restorer_at = 880 }

abbrev no_tracer : ℕ → ℕ
no_tracer sig = sig

abbrev quiet : Traced
quiet = record {
  signals = record {
    current_signal = 0;
    killed_by = 0;
    pending = repeated nsig false;
    signal_mask = λ b. false;
    actions = repeated nsig default_action;
    context = record { eip = 0; esp = 0; eax = 0; ecx = 0; edx = 0; others = [] };
    ptrace_owner = 0;
    new_signal = 0;
    effects = [];
  };
  request = 0;
  saved_eax = 0;
  ptrace_context = record { eip = 0; esp = 0; eax = 0; ecx = 0; edx = 0; others = [] };
  context_valid = false;
}

abbrev at_call : ℕ → Context
at_call n = record { eip = 256; esp = 512; eax = n; ecx = 1; edx = 2; others = 3 ∷ [] }

abbrev untouched : Traced → Traced
untouched p = p

abbrev answer : String → Traced × Context → Option (Traced × Context)
answer name (p, ctx) = some (p, record ctx { eax = 7 })

-- madvise and madvise1 have one number, and the later definition takes it.
madvise_test : last_defined defined_names 219 unhandled ≡ sys "madvise1"
unfolding last_defined defined_names nr
madvise_test = refl

init_sys_call_table_lem_example :
    (t : List Handler) × (init_sys_call_table ≡ some t)
    × (get_elem? t 8 ≡ some (last_defined defined_names 8 unhandled))
init_sys_call_table_lem_example = init_sys_call_table_lem 8 (omega arith)

table : List Handler
table = (init_sys_call_table_lem 0 (omega arith)).0

made : init_sys_call_table ≡ some table
unfolding table
made = (init_sys_call_table_lem 0 (omega arith)).1

creat-refused : is_refused (entry_of 8) ≡ true
unfolding entry_of last_defined defined_names nr is_refused has_name stub_names
creat-refused = refl

handle_int80_sys_call-refused_example :
    handle_int80_sys_call layout no_tracer untouched answer table quiet (at_call 8)
    ≡ some (
      record quiet { ptrace_context = at_call 8; context_valid = false },
      record (at_call 8) { eax = negative enosys },
    )
handle_int80_sys_call-refused_example =
    handle_int80_sys_call-refused layout no_tracer untouched answer table quiet (at_call 8) made
      refl (omega arith) creat-refused

negative_test :
    handle_int80_sys_call layout no_tracer untouched answer table quiet (at_call (2 ^ 31)) ≡ none
negative_test =
    handle_int80_sys_call-negative layout no_tracer untouched answer table quiet (at_call (2 ^ 31))
      (omega arith)
