-- ===== src/Console/Output.antt =====
-- OutputChar of cons25.cpp.
use keow.Prelude.{
  ℕ, ◌+◌, ◌-◌, ◌*◌, ◌/◌, ◌%◌, ◌^◌, Bool, false, ◌&&◌, ◌||◌, List, [], ◌∷◌, Option, none, some, leb,
  ◌==◌, if◌then◌else◌, ◌>>=◌, get_elem?, get_or, set, replicate,
}
use keow.Console.{
  Screen, Terminal, ConsoleCall, write_console, fill, set_position, scroll, set_attribute,
  set_cursor_info, OutputState, plain, escape, bracket, equals, short, minus, esc, lf, screen_width,
  first_y,
}

abbrev pub is_one_of : ℕ → List ℕ → Bool
is_one_of c [] = false
is_one_of c (d ∷ ds) = c == d || is_one_of c ds

-- CTRL-G, backspace, tab and carriage return.
abbrev pub is_control : ℕ → Bool
is_control c = is_one_of c (7 ∷ 8 ∷ 9 ∷ 13 ∷ [])

-- LF, FF and VT.
abbrev pub is_line_feed : ℕ → Bool
is_line_feed c = is_one_of c (10 ∷ 12 ∷ 11 ∷ [])

abbrev pub is_digit : ℕ → Bool
is_digit c = leb b'0' c && leb c b'9'

-- m_OutputStateData[i], for i below 100.
abbrev pub param : List ℕ → ℕ → ℕ
param d i = get_or d i 0

-- A digit goes into the parameter that is collected. `none` is a write outside of the array.
unfoldable pub add_digit : ℕ → List ℕ → Option (List ℕ)
add_digit c d = get_elem? d (param d 0 + 1) >>= λ v.
    some (set d (param d 0 + 1) ((v * 10 % 256 + (c - b'0')) % 256))

unfoldable pub next_param : List ℕ → List ℕ
next_param d = set d 0 ((param d 0 + 1) % 256)

-- How far the cursor moves.
unfoldable pub steps : List ℕ → ℕ
steps d = if param d 0 == 0 then 1 else param d 1

-- The attributes that ESC [ n m sets.
unfoldable pub new_attributes : ℕ → ℕ → ℕ
new_attributes n a =
    if n == 0
    then a - a % 16 + 7
    else if n == 1
    then (if a / 8 % 2 == 1 then a else a + 8)
    else if n == 2
    then (if a / 8 % 2 == 1 then a - 8 else a)
    else if n == 7
    then (if a / 2 ^ 14 % 2 == 1 then a else a + 2 ^ 14)
    else a

-- The end of a sequence ESC [ ...; `none` is an unknown one.
unfoldable pub command : Screen → List ℕ → ℕ → Option ConsoleCall
command s d c =
    if c == b'J'
    then some (
        fill ((minus (screen_width s) s.cursor_x + minus s.size_y s.cursor_y * s.size_x) % short)
          s.cursor_x s.cursor_y)
    else if c == b'K'
    then some (fill (minus (screen_width s) s.cursor_x) s.cursor_x s.cursor_y)
    else if c == b'`'
    then some (set_position (minus (param d 1) 1) s.cursor_y)
    else if c == b'H'
    then some (
        if param d 0 == 0
        then set_position 0 (first_y s)
        else set_position (minus (param d 2) 1) ((minus (param d 1) 1 + first_y s) % short))
    else if c == b'B'
    then some (set_position s.cursor_x ((s.cursor_y + steps d) % short))
    else if c == b'A'
    then some (set_position s.cursor_x (minus s.cursor_y (steps d)))
    else if c == b'C'
    then some (set_position ((s.cursor_x + steps d) % short) s.cursor_y)
    else if c == b'D'
    then some (set_position (minus s.cursor_x (steps d)) s.cursor_y)
    else if c == b'E'
    then some (write_console (13 ∷ 10 ∷ []))
    else if c == b'P'
    then some (
        scroll
          (record {
            left = (s.cursor_x + 1) % short;
            top = s.cursor_y;
            right = s.size_x;
            bottom = s.cursor_y;
          })
          s.cursor_x s.cursor_y s.attributes)
    else if c == b'M'
    then some (
        scroll
          (record { left = 0; top = (s.cursor_y + 1) % short; right = s.size_x; bottom = s.size_y })
          0 s.cursor_y s.attributes)
    else if c == b'@'
    then some (
        scroll
          (record { left = s.cursor_x; top = s.cursor_y; right = s.size_x; bottom = s.cursor_y })
          ((s.cursor_x + 1) % short) s.cursor_y s.attributes)
    else if c == b'L'
    then some (
        scroll (record { left = 0; top = s.cursor_y; right = s.size_x; bottom = s.size_y }) 0
          ((s.cursor_y + 1) % short) s.attributes)
    else if c == b'm'
    then some (set_attribute (new_attributes (param d 1) s.attributes))
    else none

abbrev pub add_call : ConsoleCall → Terminal → Terminal
add_call call t = record t { calls = call ∷ t.calls }

abbrev pub add_calls : Option ConsoleCall → Terminal → Terminal
add_calls none t = t
add_calls (some call) t = add_call call t

-- A character of a sequence ESC [ ... that is not a number.
unfoldable pub end_bracket : (List ConsoleCall → Screen) → ℕ → Terminal → Terminal
end_bracket console c t =
    if c == b'='
    then record t { output_state = equals }
    else record (add_calls (command (console t.calls) t.output_data c) t) { output_state = plain }

unfoldable pub end_equals : ℕ → Terminal → Terminal
end_equals c t =
    if c == b'C'
    then add_call (set_cursor_info (leb (param t.output_data 1) 1))
        (record t { output_state = plain })
    else record t { output_state = plain }

-- A digit, a separator or another character of a sequence.
unfoldable pub collect : (Terminal → Terminal) → ℕ → Terminal → Option Terminal
collect last c t =
    if is_digit c
    then (add_digit c t.output_data >>= λ d. some (record t { output_data = d }))
    else if c == b';'
    then some (record t { output_data = next_param t.output_data })
    else some (last t)

-- The state machine.
unfoldable pub advance : (List ConsoleCall → Screen) → OutputState → ℕ → Terminal → Option Terminal
advance console plain c t = some (
    if c == esc
    then record t { output_state = escape }
    else add_call (write_console ((if is_line_feed c then lf else c) ∷ [])) t)
advance console escape c t = some (
    if c == b'['
    then record t { output_state = bracket; output_data = replicate 100 0 }
    else record t { output_state = plain })
advance console bracket c t = collect (end_bracket console c) c t
advance console equals c t = collect (end_equals c) c t

-- `console` is what the Windows console reports after the calls made so far.
unfoldable pub output_char : (List ConsoleCall → Screen) → ℕ → Terminal → Option Terminal
output_char console c t =
    if is_control c
    then some (add_call (write_console (c ∷ [])) t)
    else if is_line_feed c
    then some (add_call (write_console (lf ∷ [])) t)
    else advance console t.output_state c t

-- The characters of a text, one after the other.
unfoldable pub output_chars : (List ConsoleCall → Screen) → List ℕ → Terminal → Option Terminal
output_chars console [] t = some t
output_chars console (c ∷ cs) t = output_char console c t >>= output_chars console cs

-- The constructor; the array holds what the memory held.
unfoldable pub start : List ℕ → Terminal
start memory = record { output_state = plain; output_data = memory; calls = [] }
