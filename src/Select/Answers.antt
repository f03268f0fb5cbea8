-- ===== src/Select/Answers.antt =====
-- What sys__newselect of keow-kernel/KeowKernel/sys_io.cpp answers.
use keow.Prelude.{
  ℕ, zero, suc, ◌+◌, ◌-◌, ◌%◌, ◌≤◌, ◌<◌, ◌≡◌, ◌≢◌, refl, ap, ◌∙◌, true, false, not, ◌||◌, List, [],
  ◌∷◌, ◌++◌, Option, none, arith, if◌then◌else◌, length, All,
}
use keow.Errno.{word, is_negative}
use keow.Select.{
  FdSets, Pointers, Watch, PollTurn, Selection, fd_setsize, fd_zero, requests, store_results,
  wait_ms, polls_again, bound, select_turns, sys_newselect,
}
use keow.Select.Polls.{poll_past}
use keow.Select.Rounds.{finds, Results, IsQuiet, select_turns-ended}

-- The sets of the results as the memset leaves them.
abbrev pub cleared : FdSets → FdSets
cleared s = record {
  reads = fd_zero s.reads;
  writes = fd_zero s.writes;
  excepts = fd_zero s.excepts;
}

-- INFINITE after a tick count is the tick count before it.
wraps :
    (ticks tick : ℕ)
    → ticks ≢ 0
    → ticks < word
    → ticks ≤ suc tick
    → polls_again (word - 1) ((ticks + (word - 1)) % word) tick ≡ false
unfolding polls_again
wraps (suc t) tick started small later =
    let end : (suc t + (word - 1)) % word ≡ t = omega arith in rw end (ground arith)
wraps zero tick started small later = absurd (started refl)

module _ {O : Type 0} (files : List (Option O)) (stack_requests stack_results : FdSets) (num : ℕ)
    (p : Pointers) where
  pub sys_newselect-ended :
      (timeout : Option (ℕ × ℕ)) (ticks : ℕ) (before after : List (PollTurn O)) (w : Watch O)
      (tick : ℕ)
      → length files ≡ fd_setsize
      → num ≤ fd_setsize
      → All
          (IsQuiet files
            (requests stack_requests p)
            num
            (wait_ms timeout)
            ((ticks + wait_ms timeout) % word))
          before
      → finds files (requests stack_requests p) num w
          || not (polls_again (wait_ms timeout) ((ticks + wait_ms timeout) % word) tick)
        ≡ true
      → (r : FdSets) × (sys_newselect files stack_requests stack_results num p timeout ticks
            (before ++ ((w, tick) ∷ after))
          ≡ Selection.returned
              (store_results p r)
              (if finds files (requests stack_requests p) num w then num else 0))
        × Results files (requests stack_requests p) num w (cleared stack_results) r
  unfolding sys_newselect
  sys_newselect-ended timeout ticks before after w tick whole h quiet ends =
      select_turns-ended files (requests stack_requests p) num p (wait_ms timeout)
        ((ticks + wait_ms timeout) % word) before after w tick (cleared stack_results) whole h quiet
        ends

  -- With a table of 1024 slots and a count of at most 1024, a call with no timeout at a tick count that is a
  -- DWORD and not 0 does not wait: where the first turn finds nothing, and the tick count after it is at
  -- least the one before it less one, the call returns 0 as on a timeout.
  pub sys_newselect-forever :
      (ticks : ℕ) (after : List (PollTurn O)) (w : Watch O) (tick : ℕ)
      → length files ≡ fd_setsize
      → num ≤ fd_setsize
      → ticks ≢ 0
      → ticks < word
      → ticks ≤ suc tick
      → finds files (requests stack_requests p) num w ≡ false
      → (r : FdSets) × (sys_newselect files stack_requests stack_results num p none ticks
            ((w, tick) ∷ after)
          ≡ Selection.returned (store_results p r) 0)
  unfolding wait_ms
  sys_newselect-forever ticks after w tick whole h started small later nothing =
      let over : polls_again (wait_ms none) ((ticks + wait_ms none) % word) tick ≡ false =
        wraps ticks tick started small later in
      let (r, ended, results) =
        sys_newselect-ended none ticks [] after w tick whole h tt (rw (nothing, over) refl) in
      (r, ended ∙ ap (λ b. Selection.returned (store_results p r) (if b then num else 0)) nothing)

  -- With a table of 1024 slots, a call whose count is a positive int above 1024 reads past the end of a set
  -- in its first turn, whatever is asked for.
  pub sys_newselect-past :
      (timeout : Option (ℕ × ℕ)) (ticks : ℕ) (turn : PollTurn O) (after : List (PollTurn O))
      → length files ≡ fd_setsize
      → fd_setsize < num
      → is_negative num ≡ false
      → sys_newselect files stack_requests stack_results num p timeout ticks (turn ∷ after)
        ≡ Selection.fault
  unfolding sys_newselect bound select_turns
  sys_newselect-past timeout ticks (w, tick) after whole h positive =
      rw
        (
          select_turns,
          positive,
          poll_past files whole (requests stack_requests p) w num 0 _ (omega arith)
              (omega (arith, h)),
        )
        refl
