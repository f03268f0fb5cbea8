-- ===== src/Console/Tests.antt =====
-- A console of 80 columns and 25 lines at the end of a buffer of 300 lines.
use keow.Prelude.{
  ℕ, ◌+◌, ◌≡◌, ◌-◌, refl, List, [], ◌∷◌, ◌++◌, some, arith, replicate, length, length-replicate,
}
use keow.Console.{
  Screen, Terminal, ConsoleCall, OutputState, write_console, set_position, set_attribute, esc,
}
use keow.Console.Output.{
  start, output_char, output_chars, add_digit, command, collect, end_bracket, advance,
  new_attributes,
}
use keow.Console.Sequences.{value, output_chars-set_position}
use keow.Console.Faults.{separators, output_chars-start}
use keow.Console.Keys.{
  input_char, translate, special_key, pressed, is_translated, input_char_injective,
}

abbrev screen : Screen
screen = record {
  left = 0;
  top = 275;
  right = 79;
  bottom = 299;
  size_x = 80;
  size_y = 300;
  cursor_x = 4;
  cursor_y = 280;
  attributes = 7;
}

abbrev console : List ConsoleCall → Screen
console calls = screen

abbrev fresh : Terminal
fresh = record { output_state = OutputState.plain; output_data = replicate 100 170; calls = [] }

-- Bold, then the character x, with a bell inside of the sequence.
bold_test :
    output_chars console (esc ∷ b'[' ∷ 7 ∷ b'1' ∷ b'm' ∷ b'x' ∷ []) fresh
    ≡ some (record {
      output_state = OutputState.plain;
      output_data = 0 ∷ 1 ∷ replicate 98 0;
      calls = write_console (b'x' ∷ []) ∷ set_attribute 15 ∷ write_console (7 ∷ []) ∷ [];
    })
unfolding output_chars output_char advance collect add_digit end_bracket command new_attributes
bold_test = refl

-- Columns past 256 come out at the wrong place.
wide_test :
    output_chars console (esc ∷ b'[' ∷ b'2' ∷ b'5' ∷ b'8' ∷ b'`' ∷ []) fresh
    ≡ some (record {
      output_state = OutputState.plain;
      output_data = 0 ∷ 2 ∷ replicate 98 0;
      calls = set_position 1 280 ∷ [];
    })
unfolding output_chars output_char advance collect add_digit end_bracket command
wide_test = refl

output_chars-set_position_example :
    (u : Terminal) × (output_chars console
        (esc ∷ b'[' ∷ (b'1' ∷ b'2' ∷ []) ++ (b';' ∷ (b'7' ∷ b'3' ∷ []) ++ (b'H' ∷ [])))
        fresh
      ≡ some u)
    × (u.calls ≡ set_position 72 (11 + (300 - (299 - 275 + 1) - 1)) ∷ fresh.calls)
    × (u.output_state ≡ OutputState.plain)
unfolding value
output_chars-set_position_example =
    output_chars-set_position console (b'1' ∷ b'2' ∷ []) (b'7' ∷ b'3' ∷ []) 72 11 fresh
      (refl, (refl, tt)) (refl, (refl, tt)) refl refl (omega arith) (omega arith) refl (omega arith)
      (omega arith) (omega arith) (omega arith)

output_chars-start_example :
    (u : Terminal) × (output_chars console
        (esc ∷ b'[' ∷ b'1' ∷ b';' ∷ b'2' ∷ b'H' ∷ [])
        (start (replicate 100 170))
      ≡ some u)
    × (length u.output_data ≡ 100)
unfolding separators
output_chars-start_example =
    output_chars-start console (esc ∷ b'[' ∷ b'1' ∷ b';' ∷ b'2' ∷ b'H' ∷ []) (replicate 100 170)
      (length-replicate {A = ℕ} 100 170) (omega arith)

up_lem : input_char (pressed 38 0) ≡ input_char (pressed 38 65)
unfolding input_char translate special_key
up_lem = refl

input_char_injective_example : ◌≡◌ {A = ℕ} 38 38
unfolding is_translated
input_char_injective_example = input_char_injective 38 38 0 65 refl refl up_lem
