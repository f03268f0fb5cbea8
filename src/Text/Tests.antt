-- ===== src/Text/Tests.antt =====
-- The string class on small texts.
use keow.Prelude.{ℕ, zero, suc, ◌≡◌, refl, inr, List, [], ◌∷◌, some, arith, length}
use keow.Text.{
  Text, Allocator, append, append_char, append_c_string, assign, assign_c_string, substr, reserve,
  find, compare_text, c_string, get_buffer, hash, release_buffer, grow, empty_text,
}
use keow.Text.Blocks.{IsValid, Gives}
use keow.Text.Contents.{append_lem, append_c_string_lem}
use keow.Text.Assign.{assign_lem}

zeros : ℕ → List ℕ
zeros zero = []
zeros (suc n) = 0 ∷ zeros n

length-zeros : (n : ℕ) → length (zeros n) ≡ n
unfolding zeros
length-zeros zero = refl
length-zeros (suc n) = omega (arith, length-zeros n)

abbrev zeroed : Allocator
zeroed = record { fresh = zeros; length-fresh = length-zeros }

-- "/u" in a block of four bytes, and "bin".
abbrev slash_u : Text
slash_u = record { chars = b'/' ∷ b'u' ∷ 0 ∷ 7 ∷ []; len = 2; capacity = 4 }

abbrev bin : Text
bin = record { chars = b'b' ∷ b'i' ∷ b'n' ∷ 0 ∷ []; len = 3; capacity = 4 }

slash_u-IsValid : IsValid slash_u
slash_u-IsValid = record {
  is_sized = record { sized = refl; within = omega arith };
  closed = inr (omega arith, refl);
  short = omega arith;
}

bin-IsValid : IsValid bin
bin-IsValid = record {
  is_sized = record { sized = refl; within = omega arith };
  closed = inr (omega arith, refl);
  short = omega arith;
}

grow_test : grow 2000 4 2000 ≡ 2052
unfolding grow
grow_test = refl

hash_test : hash bin ≡ 313
unfolding hash keow.Text.hash_from
hash_test = refl

release_buffer_test : release_buffer slash_u ≡ some slash_u
unfolding release_buffer c_string
release_buffer_test = refl

append_lem_example : Gives (append zeroed slash_u bin) (b'/' ∷ b'u' ∷ b'b' ∷ b'i' ∷ b'n' ∷ [])
append_lem_example = append_lem zeroed slash_u bin slash_u-IsValid bin-IsValid (omega arith)

append_c_string_lem_example :
    Gives (append_c_string zeroed bin (b'x' ∷ 0 ∷ b'y' ∷ [])) (b'b' ∷ b'i' ∷ b'n' ∷ b'x' ∷ [])
unfolding c_string
append_c_string_lem_example =
    append_c_string_lem zeroed bin (b'x' ∷ 0 ∷ b'y' ∷ []) (b'x' ∷ []) bin-IsValid refl (omega arith)

assign_lem_example : Gives (assign zeroed bin slash_u) (b'/' ∷ b'u' ∷ [])
assign_lem_example = assign_lem zeroed bin slash_u bin-IsValid slash_u-IsValid
