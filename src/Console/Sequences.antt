-- ===== src/Console/Sequences.antt =====
-- The numbers of a sequence ESC [ ... and what its end does.
use keow.Prelude.{
  ℕ, suc, ◌+◌, ◌-◌, ◌*◌, ◌%◌, ◌<◌, ◌≡◌, ◌≤◌, ◌-◌, ◌^◌, ◌∙◌, refl, ap, true, false, List, [], ◌∷◌,
  ◌++◌, some, arith, ◌==◌, replicate, All,
}
use keow.Console.{
  Screen, Terminal, ConsoleCall, set_position, OutputState, short, minus, esc, first_y,
}
use keow.Console.Output.{
  is_control, is_line_feed, is_digit, add_digit, next_param, steps, command, add_calls, end_bracket,
  collect, advance, output_char, output_chars,
}

abbrev pub IsDigits : List ℕ → Type 0
IsDigits ds = All (λ c. is_digit c ≡ true) ds

-- The number that digits write, after a number that is already there.
unfoldable pub value : ℕ → List ℕ → ℕ
value n [] = n
value n (c ∷ cs) = value (n * 10 + (c - b'0')) cs

-- The same in a byte.
unfoldable byte_value : ℕ → List ℕ → ℕ
byte_value n [] = n
byte_value n (c ∷ cs) = byte_value ((n * 10 % 256 + (c - b'0')) % 256) cs

byte_value-value : (cs : List ℕ) (n m : ℕ) → n ≡ m % 256 → byte_value n cs ≡ value m cs % 256
unfolding byte_value value
byte_value-value [] n m h = h
byte_value-value (c ∷ cs) n m h =
    byte_value-value cs ((n * 10 % 256 + (c - b'0')) % 256) (m * 10 + (c - b'0')) (omega (arith, h))

digit_not_control : (c : ℕ) → is_digit c ≡ true → is_control c ≡ false
digit_not_control c h = ground arith

digit_not_line_feed : (c : ℕ) → is_digit c ≡ true → is_line_feed c ≡ false
digit_not_line_feed c h = ground arith

abbrev in_bracket : Terminal → List ℕ → Terminal
in_bracket t d = record t { output_state = OutputState.bracket; output_data = d }

-- The end of a sequence is none of the characters that go on with it.
pub record IsEnd (c : ℕ) : Type 0 where
  pub not_control : is_control c ≡ false
  pub not_line_feed : is_line_feed c ≡ false
  pub not_digit : is_digit c ≡ false
  pub not_separator : (c == b';') ≡ false
  pub not_equals : (c == b'=') ≡ false

-- The ways that the cursor moves, and the letter of each.
pub data Direction : Type 0 where
  up down right left : Direction

abbrev pub letter : Direction → ℕ
letter up = b'A'
letter down = b'B'
letter right = b'C'
letter left = b'D'

abbrev pub moved_by : Direction → ℕ → Screen → ConsoleCall
moved_by up n s = set_position s.cursor_x (minus s.cursor_y n)
moved_by down n s = set_position s.cursor_x ((s.cursor_y + n) % short)
moved_by right n s = set_position ((s.cursor_x + n) % short) s.cursor_y
moved_by left n s = set_position (minus s.cursor_x n) s.cursor_y

letter-IsEnd : (way : Direction) → IsEnd (letter way)
letter-IsEnd up = record {
  not_control = refl;
  not_line_feed = refl;
  not_digit = refl;
  not_separator = refl;
  not_equals = refl;
}
letter-IsEnd down = record {
  not_control = refl;
  not_line_feed = refl;
  not_digit = refl;
  not_separator = refl;
  not_equals = refl;
}
letter-IsEnd right = record {
  not_control = refl;
  not_line_feed = refl;
  not_digit = refl;
  not_separator = refl;
  not_equals = refl;
}
letter-IsEnd left = record {
  not_control = refl;
  not_line_feed = refl;
  not_digit = refl;
  not_separator = refl;
  not_equals = refl;
}

add_digit_first :
    (c n : ℕ)
    → add_digit c (0 ∷ n ∷ replicate 98 0)
      ≡ some (0 ∷ (n * 10 % 256 + (c - b'0')) % 256 ∷ replicate 98 0)
unfolding add_digit
add_digit_first c n = refl

add_digit_second :
    (p c n : ℕ)
    → add_digit c (1 ∷ p ∷ n ∷ replicate 97 0)
      ≡ some (1 ∷ p ∷ (n * 10 % 256 + (c - b'0')) % 256 ∷ replicate 97 0)
unfolding add_digit
add_digit_second p c n = refl

next_param_first : (p : ℕ) → next_param (0 ∷ p ∷ replicate 98 0) ≡ 1 ∷ p ∷ 0 ∷ replicate 97 0
unfolding next_param
next_param_first p = refl

screen_row :
    (s : Screen) (y : ℕ)
    → y < 255
    → s.top ≤ s.bottom
    → s.bottom < 2 ^ 15
    → s.bottom + 2 ≤ s.top + s.size_y
    → s.size_y < 2 ^ 15
    → (y + first_y s) % short ≡ y + (s.size_y - (s.bottom - s.top + 1) - 1)
unfolding first_y
screen_row s y small upright low above tall = omega (arith, small, upright, low, above, tall)

module _ (console : List ConsoleCall → Screen) where
  -- Digits go into the parameter that `d` leaves open.
  collect_digits :
      (d : ℕ → List ℕ) (ds rest : List ℕ) (v : ℕ) (t : Terminal)
      → ((c n : ℕ) → add_digit c (d n) ≡ some (d ((n * 10 % 256 + (c - b'0')) % 256)))
      → IsDigits ds
      → output_chars console (ds ++ rest) (in_bracket t (d v))
        ≡ output_chars console rest (in_bracket t (d (byte_value v ds)))
  unfolding output_chars output_char advance collect byte_value
  collect_digits d [] rest v t h digits = refl
  collect_digits d (c ∷ cs) rest v t h (digit, digits) =
      rw (digit_not_control c digit, digit_not_line_feed c digit, digit, h c v)
        (collect_digits d cs rest ((v * 10 % 256 + (c - b'0')) % 256) t h digits)

  open_bracket :
      (rest : List ℕ) (t : Terminal)
      → t.output_state ≡ OutputState.plain
      → output_chars console (esc ∷ b'[' ∷ rest) t
        ≡ output_chars console rest (in_bracket t (replicate 100 0))
  unfolding output_chars output_char advance
  open_bracket rest t plain = rw plain refl

  separate :
      (rest d : List ℕ) (t : Terminal)
      → output_chars console (b';' ∷ rest) (in_bracket t d)
        ≡ output_chars console rest (in_bracket t (next_param d))
  unfolding output_chars output_char advance collect
  separate rest d t = refl

  end_sequence :
      (c : ℕ) (d : List ℕ) (t : Terminal)
      → IsEnd c
      → output_chars console (c ∷ []) (in_bracket t d)
        ≡ some (record (add_calls (command (console t.calls) d c) (in_bracket t d)) {
          output_state = OutputState.plain;
        })
  unfolding output_chars output_char advance collect end_bracket
  end_sequence c d t e =
      rw (e.not_control, e.not_line_feed, e.not_digit, e.not_separator, e.not_equals) refl

  abbrev after_end : ℕ → List ℕ → Terminal → Terminal
  after_end c d t = record (add_calls (command (console t.calls) d c) (in_bracket t d)) {
    output_state = OutputState.plain;
  }

  -- ESC [ n c.
  one_param :
      (ds : List ℕ) (c : ℕ) (t : Terminal)
      → IsDigits ds
      → IsEnd c
      → t.output_state ≡ OutputState.plain
      → output_chars console (esc ∷ b'[' ∷ ds ++ (c ∷ [])) t
        ≡ some (after_end c (0 ∷ value 0 ds % 256 ∷ replicate 98 0) t)
  one_param ds c t digits e plain =
      open_bracket (ds ++ (c ∷ [])) t plain
      ∙ collect_digits (λ n. 0 ∷ n ∷ replicate 98 0) ds (c ∷ []) 0 t add_digit_first digits
      ∙ end_sequence c (0 ∷ byte_value 0 ds ∷ replicate 98 0) t e
      ∙ ap (λ n. some (after_end c (0 ∷ n ∷ replicate 98 0) t)) (byte_value-value ds 0 0 refl)

  -- ESC [ n ; m c.
  two_params :
      (ds es : List ℕ) (c : ℕ) (t : Terminal)
      → IsDigits ds
      → IsDigits es
      → IsEnd c
      → t.output_state ≡ OutputState.plain
      → output_chars console (esc ∷ b'[' ∷ ds ++ (b';' ∷ es ++ (c ∷ []))) t
        ≡ some (after_end c (1 ∷ value 0 ds % 256 ∷ value 0 es % 256 ∷ replicate 97 0) t)
  two_params ds es c t digits more e plain =
      open_bracket (ds ++ (b';' ∷ es ++ (c ∷ []))) t plain
      ∙ collect_digits (λ n. 0 ∷ n ∷ replicate 98 0) ds (b';' ∷ es ++ (c ∷ [])) 0 t add_digit_first
          digits
      ∙ separate (es ++ (c ∷ [])) (0 ∷ byte_value 0 ds ∷ replicate 98 0) t
      ∙ ap (λ d. output_chars console (es ++ (c ∷ [])) (in_bracket t d))
          (next_param_first (byte_value 0 ds))
      ∙ collect_digits (λ n. 1 ∷ byte_value 0 ds ∷ n ∷ replicate 97 0) es (c ∷ []) 0 t
          (add_digit_second (byte_value 0 ds)) more
      ∙ end_sequence c (1 ∷ byte_value 0 ds ∷ byte_value 0 es ∷ replicate 97 0) t e
      ∙ ap (λ n. some (after_end c (1 ∷ n ∷ byte_value 0 es ∷ replicate 97 0) t))
          (byte_value-value ds 0 0 refl)
      ∙ ap (λ n. some (after_end c (1 ∷ value 0 ds % 256 ∷ n ∷ replicate 97 0) t))
          (byte_value-value es 0 0 refl)

  -- On a terminal that is in no sequence, ESC [ row ; column H with a row and a column from 1 to 255 makes
  -- one call, which puts the cursor into that column and, counted from the line above the bottom-most
  -- screen of the buffer, row - 1 lines down; it leaves the terminal ready for text. The bottom of the
  -- window is not above its top, the buffer has one line more than the window at least, and the bottom and
  -- the size of the buffer are below 2 ^ 15.
  pub output_chars-set_position :
      (row column : List ℕ) (x y : ℕ) (t : Terminal)
      → IsDigits row
      → IsDigits column
      → value 0 row ≡ suc y
      → value 0 column ≡ suc x
      → y < 255
      → x < 255
      → t.output_state ≡ OutputState.plain
      → (console t.calls).top ≤ (console t.calls).bottom
      → (console t.calls).bottom < 2 ^ 15
      → (console t.calls).bottom + 2 ≤ (console t.calls).top + (console t.calls).size_y
      → (console t.calls).size_y < 2 ^ 15
      → (u : Terminal) × (output_chars console
            (esc ∷ b'[' ∷ row ++ (b';' ∷ column ++ (b'H' ∷ [])))
            t
          ≡ some u)
        × (u.calls
            ≡ set_position x (
                y
                + ((console t.calls).size_y
                    - ((console t.calls).bottom - (console t.calls).top + 1)
                    - 1))
              ∷ t.calls)
        × (u.output_state ≡ OutputState.plain)
  unfolding command
  output_chars-set_position row column x y t r c is_row is_column small_y small_x plain upright low
        above tall =
      (
        _,
        two_params row column b'H' t r c
            (record {
              not_control = refl;
              not_line_feed = refl;
              not_digit = refl;
              not_separator = refl;
              not_equals = refl;
            })
            plain,
        let line : minus (value 0 row % 256) 1 ≡ y = omega (arith, is_row, small_y) in
            let place : minus (value 0 column % 256) 1 ≡ x = omega (arith, is_column, small_x) in
            rw (line, place, screen_row (console t.calls) y small_y upright low above tall) refl,
        refl,
      )

  -- The sequences that move the cursor, on a terminal that is in no sequence: ESC [ n X moves by one,
  -- whatever the number, and ESC [ n ; m X moves by n, modulo 256. Either makes that one call and
  -- leaves the terminal ready for text.
  pub output_chars-moved_by :
      (way : Direction) (ds es : List ℕ) (t : Terminal)
      → IsDigits ds
      → IsDigits es
      → t.output_state ≡ OutputState.plain
      → (u v : Terminal) × (output_chars console (esc ∷ b'[' ∷ ds ++ (letter way ∷ [])) t ≡ some u)
        × (u.calls ≡ moved_by way 1 (console t.calls) ∷ t.calls)
        × (u.output_state ≡ OutputState.plain)
        × (output_chars console (esc ∷ b'[' ∷ ds ++ (b';' ∷ es ++ (letter way ∷ []))) t ≡ some v)
        × (v.calls ≡ moved_by way (value 0 ds % 256) (console t.calls) ∷ t.calls)
        × (v.output_state ≡ OutputState.plain)
  unfolding command steps
  output_chars-moved_by way ds es t digits more plain = (
    after_end (letter way) (0 ∷ value 0 ds % 256 ∷ replicate 98 0) t,
    after_end (letter way) (1 ∷ value 0 ds % 256 ∷ value 0 es % 256 ∷ replicate 97 0) t,
    one_param ds (letter way) t digits (letter-IsEnd way) plain,
    by_one way,
    refl,
    two_params ds es (letter way) t digits more (letter-IsEnd way) plain,
    by_many way,
    refl,
  )
    where
      by_one :
          (w : Direction)
          → (after_end (letter w) (0 ∷ value 0 ds % 256 ∷ replicate 98 0) t).calls
            ≡ moved_by w 1 (console t.calls) ∷ t.calls
      by_one up = refl
      by_one down = refl
      by_one right = refl
      by_one left = refl

      by_many :
          (w : Direction)
          → (after_end
              (letter w)
              (1 ∷ value 0 ds % 256 ∷ value 0 es % 256 ∷ replicate 97 0)
              t).calls
            ≡ moved_by w (value 0 ds % 256) (console t.calls) ∷ t.calls
      by_many up = refl
      by_many down = refl
      by_many right = refl
      by_many left = refl
