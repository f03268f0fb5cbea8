-- ===== src/Console/Faults.antt =====
-- A text with few separators never writes outside of the terminal's array.
use keow.Prelude.{
  ℕ, suc, ◌+◌, ◌-◌, ◌*◌, ◌%◌, ◌≤◌, ◌≡◌, ◌∙◌, refl, ap, inl, inr, true, List, [], ◌∷◌, Option, none,
  some, arith, ◌==◌, if◌then◌else◌, get_or, set, replicate, length, length-set, length-replicate,
  Bool-cases, get_elem?_within,
}
use keow.Console.{Screen, Terminal, ConsoleCall, OutputState, lf, esc, write_console}
use keow.Console.Output.{
  is_control, is_line_feed, is_digit, param, add_digit, next_param, command, add_call, add_calls,
  end_bracket, end_equals, collect, advance, output_char, output_chars, start,
}

abbrev is_separator : ℕ → ℕ
is_separator c = if c == b';' then 1 else 0

unfoldable pub separators : List ℕ → ℕ
separators [] = 0
separators (c ∷ cs) = is_separator c + separators cs

-- The parameters that are already behind a separator.
abbrev used : OutputState → List ℕ → ℕ
used OutputState.plain d = 0
used OutputState.escape d = 0
used OutputState.bracket d = param d 0
used OutputState.equals d = param d 0

-- The array has room for `n` more separators.
pub record HasRoom (t : Terminal) (n : ℕ) : Type 0 where
  pub size : length t.output_data ≡ 100
  pub room : used t.output_state t.output_data + n ≤ 98

get_or-set_zero : (d : List ℕ) (i v : ℕ) → get_or (set d (suc i) v) 0 0 ≡ get_or d 0 0
get_or-set_zero [] i v = refl
get_or-set_zero (x ∷ d) i v = refl

param-next_param :
    (d : List ℕ) → length d ≡ 100 → param d 0 ≤ 98 → param (next_param d) 0 ≡ param d 0 + 1
unfolding next_param
param-next_param [] h small = absurd (omega (arith, h))
param-next_param (x ∷ d) h small = omega (arith, small)

next_param_size : (d : List ℕ) → length (next_param d) ≡ length d
unfolding next_param
next_param_size d = length-set d 0 _

add_calls-data :
    (o : Option ConsoleCall) (t : Terminal) → (add_calls o t).output_data ≡ t.output_data
add_calls-data none t = refl
add_calls-data (some call) t = refl

abbrev Goes : Option Terminal → ℕ → Type 0
Goes o n = (u : Terminal) × (o ≡ some u) × HasRoom u n

collect-HasRoom :
    (last : Terminal → Terminal) (c n : ℕ) (t : Terminal)
    → HasRoom (last t) n
    → HasRoom (record t { output_state = OutputState.bracket }) (is_separator c + n)
    → ((d : List ℕ) → used t.output_state d ≡ param d 0)
    → Goes (collect last c t) n
unfolding collect add_digit
collect-HasRoom last c n t ended r always = elim (Bool-cases (is_digit c)) [
  | inl digit ↦
      let (v, at) =
        get_elem?_within t.output_data (param t.output_data 0 + 1)
          (omega (arith, r.room, r.size)) in
      let e : param t.output_data 0 + 1 ≡ suc (param t.output_data 0) = omega arith in
      let d = set t.output_data (param t.output_data 0 + 1) ((v * 10 % 256 + (c - b'0')) % 256) in
      (
        record t { output_data = d },
        rw (digit, at) refl,
        record {
          size = length-set t.output_data _ _ ∙ r.size;
          room = omega (arith, r.room, always d, digit_zero v, e);
        },
      )
  | inr other ↦ elim (Bool-cases (c == b';')) [
    | inl separator ↦ (
      record t { output_data = next_param t.output_data },
      rw (other, separator) refl,
      record { size = next_size; room = next_room separator },
    )
    | inr more ↦ (last t, rw (other, more) refl, ended)
  ]
]
  where
    digit_zero :
        (v : ℕ)
        → param
            (set t.output_data (param t.output_data 0 + 1) ((v * 10 % 256 + (c - b'0')) % 256))
            0
          ≡ param t.output_data 0
    digit_zero v =
        let e : param t.output_data 0 + 1 ≡ suc (param t.output_data 0) = omega arith in
        rw e (get_or-set_zero t.output_data (param t.output_data 0) _)

    next_size : length (next_param t.output_data) ≡ 100
    next_size = next_param_size t.output_data ∙ r.size

    next_room : (c == b';') ≡ true → used t.output_state (next_param t.output_data) + n ≤ 98
    next_room separator =
        let one : is_separator c ≡ 1 = rw separator refl in
        omega (
          arith,
          always (next_param t.output_data),
          r.room,
          one,
          param-next_param t.output_data r.size (omega (arith, r.room)),
        )

end_bracket-HasRoom :
    (console : List ConsoleCall → Screen) (c n : ℕ) (t : Terminal)
    → length t.output_data ≡ 100
    → param t.output_data 0 + n ≤ 98
    → HasRoom (end_bracket console c t) n
unfolding end_bracket
end_bracket-HasRoom console c n t size room = elim (Bool-cases (c == b'=')) [
  | inl more ↦ rw more (record { size = size; room = room })
  | inr last ↦ rw last (record {
    size = ap length (add_calls-data (command (console t.calls) t.output_data c) t) ∙ size;
    room = omega (arith, room);
  })
]

end_equals-HasRoom :
    (c n : ℕ) (t : Terminal)
    → length t.output_data ≡ 100
    → param t.output_data 0 + n ≤ 98
    → HasRoom (end_equals c t) n
unfolding end_equals
end_equals-HasRoom c n t size room = elim (Bool-cases (c == b'C')) [
  | inl shown ↦ rw shown (record { size = size; room = omega (arith, room) })
  | inr last ↦ rw last (record { size = size; room = omega (arith, room) })
]

module _ (console : List ConsoleCall → Screen) where
  advance-HasRoom :
      (s : OutputState) (c n : ℕ) (t : Terminal)
      → t.output_state ≡ s
      → HasRoom t (is_separator c + n)
      → Goes (advance console s c t) n
  unfolding advance
  advance-HasRoom OutputState.plain c n t e r = elim (Bool-cases (c == esc)) [
    | inl begin ↦ (
      record t { output_state = OutputState.escape },
      rw begin refl,
      record { size = r.size; room = omega (arith, r.room) },
    )
    | inr other ↦ (
      add_call (write_console ((if is_line_feed c then lf else c) ∷ [])) t,
      rw other refl,
      record { size = r.size; room = omega (arith, r.room) },
    )
  ]
  advance-HasRoom OutputState.escape c n t e r = elim (Bool-cases (c == b'[')) [
    | inl begin ↦ (
      record t { output_state = OutputState.bracket; output_data = replicate 100 0 },
      rw begin refl,
      record { size = length-replicate {A = ℕ} 100 0; room = omega (arith, r.room) },
    )
    | inr other ↦ (
      record t { output_state = OutputState.plain },
      rw other refl,
      record { size = r.size; room = omega (arith, r.room) },
    )
  ]
  advance-HasRoom OutputState.bracket c n t e r =
      let always : (d : List ℕ) → used t.output_state d ≡ param d 0 = λ d. ap (λ s. used s d) e in
      let room : param t.output_data 0 + (is_separator c + n) ≤ 98 =
        omega (arith, r.room, always t.output_data) in
      collect-HasRoom (end_bracket console c) c n t
        (end_bracket-HasRoom console c n t r.size (omega (arith, room)))
        (record { size = r.size; room = room }) always
  advance-HasRoom OutputState.equals c n t e r =
      let always : (d : List ℕ) → used t.output_state d ≡ param d 0 = λ d. ap (λ s. used s d) e in
      let room : param t.output_data 0 + (is_separator c + n) ≤ 98 =
        omega (arith, r.room, always t.output_data) in
      collect-HasRoom (end_equals c) c n t (end_equals-HasRoom c n t r.size (omega (arith, room)))
        (record { size = r.size; room = room }) always

  output_char-HasRoom :
      (c n : ℕ) (t : Terminal) → HasRoom t (is_separator c + n) → Goes (output_char console c t) n
  unfolding output_char
  output_char-HasRoom c n t r = elim (Bool-cases (is_control c)) [
    | inl control ↦ (add_call (write_console (c ∷ [])) t, rw control refl, weaken)
    | inr other ↦ elim (Bool-cases (is_line_feed c)) [
      | inl feed ↦ (add_call (write_console (lf ∷ [])) t, rw (other, feed) refl, weaken)
      | inr more ↦ rw (other, more) (advance-HasRoom t.output_state c n t refl r)
    ]
  ]
    where
      weaken : {call : ConsoleCall} → HasRoom (add_call call t) n
      weaken = record { size = r.size; room = omega (arith, r.room) }

  output_chars-HasRoom :
      (cs : List ℕ) (t : Terminal)
      → HasRoom t (separators cs)
      → (u : Terminal) × (output_chars console cs t ≡ some u) × HasRoom u 0
  unfolding output_chars separators
  output_chars-HasRoom [] t r = (t, refl, r)
  output_chars-HasRoom (c ∷ cs) t r =
      let (u, ran, room) = output_char-HasRoom c (separators cs) t r in
      let (v, more, end) = output_chars-HasRoom cs u room in (v, rw ran more, end)

  -- A new terminal takes any text of at most 98 separators `;` without a write outside of its array.
  pub output_chars-start :
      (cs memory : List ℕ)
      → length memory ≡ 100
      → separators cs ≤ 98
      → (u : Terminal) × (output_chars console cs (start memory) ≡ some u)
        × (length u.output_data ≡ 100)
  unfolding start
  output_chars-start cs memory size few =
      let (u, ran, r) =
        output_chars-HasRoom cs (start memory)
          (record { size = size; room = omega (arith, few) }) in
      (u, ran, r.size)
