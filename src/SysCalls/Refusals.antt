-- ===== src/SysCalls/Refusals.antt =====
-- The calls that the kernel does not implement.
use keow.Prelude.{
  ℕ, ◌^◌, ◌<◌, ◌≤◌, ◌≡◌, refl, sym, ap, ◌∙◌, inl, inr, Bool, true, false, List, Option, none, some,
  ltb, ltb→lt, if◌then◌else◌, get_elem?, some_inj, Bool-cases, arith,
}
use keow.Errno.{negative, enosys, is_negative}
use keow.Signals.{Context, Layout}
use keow.SysCalls.Numbers.{nr_syscalls}
use keow.SysCalls.Names.{defined_names, stub_names}
use keow.SysCalls.Table.{
  Handler, unhandled, sys, init_sys_call_table, last_defined, init_sys_call_table_lem,
}
use keow.SysCalls.Dispatch.{
  Traced, call_unhandled, has_name, is_stopping, entry_stop, exit_stop, call_handler, call_number,
  handle_int80_sys_call,
}
use Prim.Native.String.{String}

-- What stands in the table for a number.
unfoldable pub entry_of : ℕ → Handler
entry_of n = if ltb n nr_syscalls then last_defined defined_names n unhandled else unhandled

-- No name is defined with the number, or the function of the last that is calls Unhandled.
unfoldable pub is_refused : Handler → Bool
is_refused unhandled = true
is_refused (sys name) = has_name name stub_names

unhandled_lem :
    (ctx : Context)
    → ctx.eax < 2 ^ 31
    → call_unhandled ctx ≡ some (record ctx { eax = negative enosys })
unfolding call_unhandled
unhandled_lem ctx h = let int : is_negative ctx.eax ≡ false = ground arith in rw int refl

module _ (layout : Layout) (tracer : ℕ → ℕ) (resume : Traced → Traced)
    (implemented : String → Traced × Context → Option (Traced × Context)) where
  call_handler-refused :
      (h : Handler) (p : Traced) (ctx c : Context)
      → is_refused h ≡ true
      → call_unhandled ctx ≡ some c
      → call_handler layout tracer resume implemented h p ctx ≡ some (p, c)
  unfolding is_refused call_handler
  call_handler-refused unhandled p ctx c h e = rw e refl
  call_handler-refused (sys name) p ctx c h e = rw (h, e) refl

  call_number-refused :
      (table : List Handler) (p : Traced) (ctx c : Context) (h : Handler)
      → is_stopping p ≡ false
      → get_elem? table ctx.eax ≡ some h
      → is_refused h ≡ true
      → call_unhandled ctx ≡ some c
      → call_number layout tracer resume implemented table p ctx ≡ some (p, c)
  unfolding call_number entry_stop exit_stop
  call_number-refused table p ctx c h alone at refused e =
      rw alone (rw at (rw (call_handler-refused h p ctx c refused e) (rw alone refl)))

  -- A call whose number is not negative as an int and is not defined, or is defined last by a function
  -- that is yet to be implemented, returns -ENOSYS to a process that is not stopped at system calls,
  -- with the table that InitSysCallTable fills: no other register changes, and of the process only the
  -- context that a tracer sees, which is the one of the call and no longer valid.
  pub handle_int80_sys_call-refused :
      (table : List Handler) (p : Traced) (ctx : Context)
      → init_sys_call_table ≡ some table
      → is_stopping p ≡ false
      → ctx.eax < 2 ^ 31
      → is_refused (entry_of ctx.eax) ≡ true
      → handle_int80_sys_call layout tracer resume implemented table p ctx
        ≡ some (
          record p { ptrace_context = ctx; context_valid = false },
          record ctx { eax = negative enosys },
        )
  unfolding handle_int80_sys_call entry_of
  handle_int80_sys_call-refused table p ctx init alone int refused =
      elim (Bool-cases (ltb ctx.eax nr_syscalls)) [
        | inl within ↦
            let (t, made, at) =
              init_sys_call_table_lem ctx.eax (ltb→lt ctx.eax nr_syscalls within) in
            let same : t ≡ table = some_inj (sym made ∙ init) in
            let refused' : is_refused (last_defined defined_names ctx.eax unhandled) ≡ true =
              rw within at refused in
            rw within (
              rw
                (call_number-refused table (record p { ptrace_context = ctx; context_valid = true })
                  ctx (record ctx { eax = negative enosys }) _ alone
                  (ap (λ l. get_elem? l ctx.eax) (sym same) ∙ at) refused' (unhandled_lem ctx int))
                refl)
        | inr beyond ↦ rw beyond (rw (unhandled_lem ctx int) refl)
      ]

  -- A number that is negative as an int makes the kernel read outside of syscall_names.
  pub handle_int80_sys_call-negative :
      (table : List Handler) (p : Traced) (ctx : Context)
      → 2 ^ 31 ≤ ctx.eax
      → handle_int80_sys_call layout tracer resume implemented table p ctx ≡ none
  unfolding handle_int80_sys_call call_unhandled
  handle_int80_sys_call-negative table p ctx h =
      let beyond : ltb ctx.eax nr_syscalls ≡ false = ground arith in
      let bad : is_negative ctx.eax ≡ true = ground arith in rw beyond (rw bad refl)
