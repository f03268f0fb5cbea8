-- ===== src/FilePath/Tests.antt =====
-- Path stacks of a few elements.
use keow.Prelude.{◌≡◌, refl, [], ◌∷◌, ◌++◌, arith}
use keow.FilePath.{
  Bytes, slash, dot, dot_dot, append_path, append_from, push_element, same, pop_back,
}
use keow.FilePath.Canonical.{IsName, IsCanonical, append_path-IsCanonical}

abbrev usr : Bytes
usr = b'u' ∷ b's' ∷ b'r' ∷ []

abbrev bin : Bytes
bin = b'b' ∷ b'i' ∷ b'n' ∷ []

-- "../bin/./x/".
abbrev up_bin : Bytes
up_bin = dot_dot ++ slash ∷ (bin ++ slash ∷ (dot ++ slash ∷ b'x' ∷ slash ∷ []))

usr-IsName : IsName usr
usr-IsName = record {
  some_byte = λ e. cc;
  not_dot = λ e. cc;
  not_dot_dot = λ e. cc;
  no_slash = (omega arith, (omega arith, (omega arith, tt)));
}

bin-IsName : IsName bin
bin-IsName = record {
  some_byte = λ e. cc;
  not_dot = λ e. cc;
  not_dot_dot = λ e. cc;
  no_slash = (omega arith, (omega arith, (omega arith, tt)));
}

append_path_test : append_path (usr ∷ usr ∷ []) up_bin ≡ usr ∷ bin ∷ (b'x' ∷ []) ∷ []
unfolding append_path append_from push_element same pop_back keow.Text.strcmp keow.Text.find_from
append_path_test = refl

append_path-IsCanonical_example : IsCanonical (append_path (usr ∷ bin ∷ []) up_bin)
append_path-IsCanonical_example =
    append_path-IsCanonical (usr ∷ bin ∷ []) up_bin (usr-IsName, (bin-IsName, tt))
