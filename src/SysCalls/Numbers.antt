-- ===== src/SysCalls/Numbers.antt =====
-- The numbers of the system calls: linux-abi/linux/linux_defines.h of keow-kernel/KeowKernel.
pub mod Low
pub mod Middle
pub mod High
use keow.Prelude.{ℕ, List, [], ◌∷◌, ◌++◌, Option, none, some, if◌then◌else◌}
use keow.SysCalls.Numbers.Low.{first_numbers}
use keow.SysCalls.Numbers.Middle.{second_numbers}
use keow.SysCalls.Numbers.High.{third_numbers}
use Prim.Native.String.{String}
use text.Mathlib.Text.{◌==◌ as str_eq}

abbrev pub nr_syscalls : ℕ
nr_syscalls = 338

unfoldable pub lookup_number : String → List (String × ℕ) → Option ℕ
lookup_number name [] = none
lookup_number name ((n, number) ∷ rest) =
    let later = lookup_number name rest in if str_eq n name then some number else later

-- `linux::__NR_` of a name; `none` is a name that has none.
unfoldable pub nr : String → Option ℕ
unfolding lookup_number first_numbers second_numbers third_numbers
nr name = lookup_number name (first_numbers ++ (second_numbers ++ third_numbers))
