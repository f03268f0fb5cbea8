-- ===== src/Prelude/Options.antt =====
-- Chains of options, and the places of a list as options.
use keow.Prelude.Lists.{length, get_elem?}
use keow.Prelude.Tests.{◌>>=◌}
use Prim.Native.Nat.{ℕ, zero, suc, ◌<◌}
use mathlib.Core.Path.{◌≡◌, refl}
use mathlib.Core.List.{List, [], ◌∷◌}
use mathlib.Core.Option.{Option, none, some}
use native.Mathlib.Omega.{arith}

pub some_inj {ℓ} : {A : Type ℓ} {x y : A} → some x ≡ some y → x ≡ y
some_inj e = cc

-- A chain that comes to a value had one at its first step.
pub bind_some {ℓ κ} :
    {A : Type ℓ} {B : Type κ} (o : Option A) (f : A → Option B) {b : B}
    → (o >>= f) ≡ some b
    → (a : A) × (o ≡ some a) × (f a ≡ some b)
bind_some none f h = absurd (cc)
bind_some (some a) f h = (a, refl, h)

pub get_elem?-length {ℓ} :
    {A : Type ℓ} (t : List A) (i : ℕ) {a : A} → get_elem? t i ≡ some a → i < length t
get_elem?-length [] i h = absurd (cc)
get_elem?-length (x ∷ t) zero h = omega arith
get_elem?-length (x ∷ t) (suc i) h = omega (arith, get_elem?-length t i h)

pub get_elem?_within {ℓ} :
    {A : Type ℓ} (t : List A) (i : ℕ) → i < length t → (a : A) × (get_elem? t i ≡ some a)
get_elem?_within [] i h = absurd (omega arith)
get_elem?_within (x ∷ t) zero h = (x, refl)
get_elem?_within (x ∷ t) (suc i) h = get_elem?_within t i (omega arith)
