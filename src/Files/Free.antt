-- ===== src/Files/Free.antt =====
-- Process::FindFreeFD.
use keow.Prelude.{
  ℕ, zero, suc, ◌+◌, ◌<◌, ◌≡◌, ◌≢◌, refl, ap, List, [], ◌∷◌, Option, none, some, arith, get_elem?,
  ◌∙◌,
}
use keow.Files.{find_free_from, find_free_fd}

-- The first free place of what is left, as a descriptor that counts from `fd`.
abbrev FreeFrom {ℓ} : {A : Type ℓ} → List (Option A) → ℕ → Option ℕ → Type ℓ
FreeFrom t fd none = (j : ℕ) → get_elem? t j ≢ some none
FreeFrom t fd (some k) =
    (m : ℕ) × (k ≡ fd + m)
    × (get_elem? t m ≡ some none)
    × ((j : ℕ) → j < m → get_elem? t j ≢ some none)

FreeFrom-cons {ℓ} :
    {A : Type ℓ} (h : A) (t : List (Option A)) (fd : ℕ) (r : Option ℕ)
    → FreeFrom t (suc fd) r
    → FreeFrom (some h ∷ t) fd r
FreeFrom-cons {A} h t fd none full = taken
  where
    taken : (j : ℕ) → get_elem? (some h ∷ t) j ≢ some none
    taken zero e = cc
    taken (suc j) e = full j e
FreeFrom-cons {A} h t fd (some k) (m, e, free, before) = (suc m, omega arith, free, taken)
  where
    taken : (j : ℕ) → j < suc m → get_elem? (some h ∷ t) j ≢ some none
    taken zero l e = cc
    taken (suc j) l e = before j (omega arith) e

find_free_from-FreeFrom {ℓ} :
    {A : Type ℓ} (t : List (Option A)) (fd : ℕ) → FreeFrom t fd (find_free_from t fd)
unfolding find_free_from
find_free_from-FreeFrom [] fd = λ j e. cc
find_free_from-FreeFrom (none ∷ t) fd = (0, omega arith, refl, λ j l e. absurd (omega arith))
find_free_from-FreeFrom (some h ∷ t) fd =
    FreeFrom-cons h t fd (find_free_from t (suc fd)) (find_free_from-FreeFrom t (suc fd))

-- What `FindFreeFD` promises: the lowest free slot, or that no slot is free.
abbrev pub IsLowestFree {ℓ} : {A : Type ℓ} → List (Option A) → Option ℕ → Type ℓ
IsLowestFree t none = (j : ℕ) → get_elem? t j ≢ some none
IsLowestFree t (some fd) =
    (get_elem? t fd ≡ some none) × ((j : ℕ) → j < fd → get_elem? t j ≢ some none)

IsLowestFree-FreeFrom {ℓ} :
    {A : Type ℓ} (t : List (Option A)) (r : Option ℕ) → FreeFrom t 0 r → IsLowestFree t r
IsLowestFree-FreeFrom t none h = h
IsLowestFree-FreeFrom t (some k) (m, e, free, before) =
    (ap (get_elem? t) (omega arith) ∙ free, λ j l. before j (omega arith))

-- `FindFreeFD` returns the lowest free slot of every table, and -1 only if there is none.
pub find_free_fd-IsLowestFree {ℓ} :
    {A : Type ℓ} (t : List (Option A)) → IsLowestFree t (find_free_fd t)
unfolding find_free_fd
find_free_fd-IsLowestFree t =
    IsLowestFree-FreeFrom t (find_free_from t 0) (find_free_from-FreeFrom t 0)
