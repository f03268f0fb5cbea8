-- ===== src/Console.antt =====
-- keow-kernel/KeowConsole/cons25.cpp: the terminal that the console's process keeps for the kernel's
-- text, and its use of the Windows console.
pub mod Output
pub mod Sequences
pub mod Faults
pub mod Keys
pub mod Tests
use keow.Prelude.{ℕ, ◌+◌, ◌-◌, ◌*◌, ◌/◌, ◌%◌, ◌^◌, Bool, List, get_or, ◌==◌, if◌then◌else◌}

-- A SHORT or a WORD.
abbrev pub short : ℕ
short = 2 ^ 16

abbrev pub minus : ℕ → ℕ → ℕ
minus a b = (a + (short - b % short)) % short

abbrev pub esc : ℕ
esc = 27

abbrev pub lf : ℕ
lf = 10

-- CONSOLE_SCREEN_BUFFER_INFO: the window, the size of the buffer, the cursor and the attributes.
pub record Screen : Type 0 where
  pub left : ℕ
  pub top : ℕ
  pub right : ℕ
  pub bottom : ℕ
  pub size_x : ℕ
  pub size_y : ℕ
  pub cursor_x : ℕ
  pub cursor_y : ℕ
  pub attributes : ℕ

pub record Rect : Type 0 where
  pub left : ℕ
  pub top : ℕ
  pub right : ℕ
  pub bottom : ℕ

-- The calls of the Windows console. `fill` writes spaces, `scroll` fills with spaces of the given
-- attributes, and the flag of `set_cursor_info` says that the cursor is made visible.
pub data ConsoleCall : Type 0 where
  write_console : List ℕ → ConsoleCall
  fill : ℕ → ℕ → ℕ → ConsoleCall
  set_position : ℕ → ℕ → ConsoleCall
  scroll : Rect → ℕ → ℕ → ℕ → ConsoleCall
  set_attribute : ℕ → ConsoleCall
  set_cursor_info : Bool → ConsoleCall

-- m_OutputState: 0, ESC, ESC<<8 | '[' and '['<<8 | '='.
pub data OutputState : Type 0 where
  plain escape bracket equals : OutputState

-- `calls` are newest first.
pub record Terminal : Type 0 where
  pub output_state : OutputState
  pub output_data : List ℕ
  pub calls : List ConsoleCall

abbrev pub screen_width : Screen → ℕ
screen_width s = (minus s.right s.left + 1) % short

abbrev pub screen_height : Screen → ℕ
screen_height s = (minus s.bottom s.top + 1) % short

-- The first line of the actual screen.
unfoldable pub first_y : Screen → ℕ
first_y s = minus (minus s.size_y (screen_height s)) 1
