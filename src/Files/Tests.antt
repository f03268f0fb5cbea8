-- ===== src/Files/Tests.antt =====
-- A device whose objects are numbers that count the bytes written to them, and a table of 1024 slots.
use keow.Prelude.{
  ℕ, zero, suc, ◌+◌, ◌≡◌, ◌≢◌, ◌⊎◌, refl, List, [], ◌∷◌, Option, none, some, arith, true, false,
  inr, length, get_elem?, ◌==◌, if◌then◌else◌,
}
use keow.Errno.{negative, ebadf, einval, Win32Error}
use keow.Files.{
  Device, Transfer, Handler, Process, with_open, new_handler, find_free_fd, find_free_from,
  write_buffers, put,
}
use keow.Files.Checks.{IsTable, with_open_lem}
use keow.Files.Pipes.{MakesPipe, OverrunsTable, sys_pipe, sys_pipe_lem}

-- Object 9 cannot be duplicated, and writes to it fail.
abbrev counter : Device
counter = record {
  Object = ℕ;
  write = λ o address size.
      if o == 9
      then (o, Transfer.failed Win32Error.broken_pipe)
      else (o + size, Transfer.transferred size);
  read = λ o address size. (o, Transfer.transferred 0);
  ioctl = λ o request argument. (o, negative einval);
  duplicate = λ o. if o == 9 then none else some o;
  duplicate_error = λ o. Win32Error.not_enough_memory;
}

slots : ℕ → List (Option (Handler ℕ))
slots zero = []
slots (suc n) = none ∷ slots n

length-slots : (n : ℕ) → length (slots n) ≡ n
unfolding slots
length-slots zero = refl
length-slots (suc n) = omega (arith, length-slots n)

-- Descriptor 0 is open on object 5 and descriptor 2 on object 9.
abbrev five : Handler ℕ
five = record { object = 5; inheritable = true; flags = 0 }

abbrev nine : Handler ℕ
nine = record { object = 9; inheritable = false; flags = 0 }

abbrev shell : Process ℕ
shell = record { open_files = some five ∷ none ∷ some nine ∷ slots 1021; signals = [] }

shell-IsTable : IsTable counter shell
shell-IsTable = omega (arith, length-slots 1021)

writev_test :
    write_buffers counter
      (record { open_files = some five ∷ []; signals = [] })
      0
      five
      ((100, 3) ∷ (200, 4) ∷ [])
      0
    ≡ (
      record {
        open_files = some (record { object = 12; inheritable = true; flags = 0 }) ∷ [];
        signals = [];
      },
      7,
    )
unfolding write_buffers put
writev_test = refl

find_free_fd_test : find_free_fd (shell.open_files) ≡ some 1
unfolding find_free_fd find_free_from
find_free_fd_test = refl

with_open_lem_example :
    ((h : Handler ℕ) × (get_elem? shell.open_files 1 ≡ some (some h))
      × (with_open counter shell 1 (λ h. some (shell, 0)) ≡ some (shell, 0)))
    ⊎ ((with_open counter shell 1 (λ h. some (shell, 0)) ≡ some (shell, negative ebadf))
        × ((h : Handler ℕ) → get_elem? shell.open_files 1 ≢ some (some h)))
with_open_lem_example =
    with_open_lem counter shell 1 (λ h. some (shell, 0)) shell-IsTable (omega arith)

sys_pipe_lem_example : MakesPipe counter shell 20 30 ⊎ OverrunsTable counter shell 20 30
sys_pipe_lem_example = sys_pipe_lem counter shell 20 30 shell-IsTable

-- The slots 0 and 2 are free.
sys_pipe_test :
    sys_pipe counter
      (record { open_files = none ∷ some five ∷ none ∷ []; signals = [] })
      (inr (20, 30))
    ≡ some (
      record {
        open_files = some (new_handler counter 20) ∷ some five ∷ some (new_handler counter 30) ∷ [];
        signals = [];
      },
      some (0, 2),
      0,
    )
unfolding sys_pipe find_free_fd find_free_from put
sys_pipe_test = refl
