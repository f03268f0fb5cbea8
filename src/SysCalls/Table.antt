-- ===== src/SysCalls/Table.antt =====
-- The table that InitSysCallTable of keow-kernel/KeowKernel/SysCalls.cpp fills.
use keow.Prelude.{
  ℕ, zero, suc, ◌<◌, ◌≡◌, refl, sym, ap, ◌∙◌, inl, inr, Bool, true, false, ◌&&◌, List, [], ◌∷◌,
  Option, none, some, ltb, ltb→lt, ◌==◌, if◌then◌else◌, ◌>>=◌, length, get_elem?, set, replicate,
  length-replicate, length-set, get_elem?-set_self, get_elem?-set_ne, bind_some, some_inj,
  Bool-cases, arith,
}
use keow.SysCalls.Numbers.{nr_syscalls, nr}
use keow.SysCalls.Names.{defined_names}
use Prim.Native.String.{String}

-- An entry of syscall_handlers: `Unhandled`, or the function with a name.
pub data Handler : Type 0 where
  unhandled : Handler
  sys : String → Handler

-- The loop that sets every entry to `Unhandled`.
unfoldable pub unhandled_table : List Handler
unhandled_table = replicate nr_syscalls unhandled

-- DEF_SYSCALL. `none` is a name without a number, or a write outside of the table.
unfoldable pub def_syscall : List Handler → String → Option (List Handler)
def_syscall table name =
    nr name >>= λ n. if ltb n (length table) then some (set table n (sys name)) else none

unfoldable pub def_syscalls : List Handler → List String → Option (List Handler)
unfolding def_syscall
def_syscalls table [] = some table
def_syscalls table (name ∷ names) = def_syscall table name >>= λ t. def_syscalls t names

unfoldable pub init_sys_call_table : Option (List Handler)
unfolding unhandled_table def_syscalls defined_names
init_sys_call_table = def_syscalls unhandled_table defined_names

abbrev pub is_number : Option ℕ → ℕ → Bool
is_number none i = false
is_number (some n) i = n == i

-- The name has the number.
abbrev pub has_number : String → ℕ → Bool
has_number name i = is_number (nr name) i

-- The last of some names that has a number; of none the entry stays as it is.
unfoldable pub last_defined : List String → ℕ → Handler → Handler
last_defined [] i h = h
last_defined (name ∷ names) i h = last_defined names i (if has_number name i then sys name else h)

entry_set :
    (table : List Handler) (n i : ℕ) (h v : Handler)
    → n < length table
    → get_elem? table i ≡ some h
    → get_elem? (set table n v) i ≡ some (if n == i then v else h)
entry_set table n i h v within at = elim (Bool-cases (n == i)) [
  | inl e ↦
      let same : n ≡ i = ground arith in
      rw e (ap (λ k. get_elem? (set table n v) k) (sym same) ∙ get_elem?-set_self table n v within)
  | inr e ↦ rw e (get_elem?-set_ne table v (ground arith) ∙ at)
]

-- The entry after one definition.
def_syscall_entry :
    (table t : List Handler) (name : String) (i : ℕ) (h : Handler)
    → def_syscall table name ≡ some t
    → get_elem? table i ≡ some h
    → get_elem? t i ≡ some (if has_number name i then sys name else h)
unfolding def_syscall
def_syscall_entry table t name i h ran at =
    let (n, number, rest) = bind_some (nr name) _ ran in
    elim (Bool-cases (ltb n (length table))) [
      | inl within ↦
          let written : set table n (sys name) ≡ t = some_inj (rw within at rest) in
          ap (λ l. get_elem? l i) (sym written)
          ∙ entry_set table n i h (sys name) (ltb→lt n (length table) within) at
          ∙ ap (λ o. some (if is_number o i then sys name else h)) (sym number)
      | inr outside ↦ absurd (no_table (rw outside at rest))
    ]
  where
    no_table : none ≡ some t → ⊥
    no_table e = cc

def_syscalls_entry :
    (names : List String) (table t : List Handler) (i : ℕ) (h : Handler)
    → def_syscalls table names ≡ some t
    → get_elem? table i ≡ some h
    → get_elem? t i ≡ some (last_defined names i h)
unfolding def_syscalls last_defined
def_syscalls_entry [] table t i h ran at = ap (λ l. get_elem? l i) (sym (some_inj ran)) ∙ at
def_syscalls_entry (name ∷ names) table t i h ran at =
    let (u, first, rest) = bind_some (def_syscall table name) _ ran in
    def_syscalls_entry names u t i (if has_number name i then sys name else h) rest
      (def_syscall_entry table u name i h first at)

abbrev pub below : Option ℕ → ℕ → Bool
below none size = false
below (some n) size = ltb n size

-- Every name has a number below the size of the table.
unfoldable pub fits_all : List String → ℕ → Bool
fits_all [] size = true
fits_all (name ∷ names) size = below (nr name) size && fits_all names size

def_syscall_total :
    (table : List Handler) (name : String) (o : Option ℕ)
    → nr name ≡ o
    → below o (length table) ≡ true
    → (t : List Handler) × (def_syscall table name ≡ some t) × (length t ≡ length table)
unfolding def_syscall
def_syscall_total table name none e h = absurd (cc)
def_syscall_total table name (some n) e h =
    (set table n (sys name), rw (e, ◌>>=◌) (rw h refl), length-set table n (sys name))

and_parts : (a b : Bool) → (a && b) ≡ true → (a ≡ true) × (b ≡ true)
and_parts true b h = (refl, h)
and_parts false b h = absurd (cc)

def_syscalls_total :
    (names : List String) (table : List Handler)
    → fits_all names (length table) ≡ true
    → (t : List Handler) × (def_syscalls table names ≡ some t)
unfolding def_syscalls fits_all
def_syscalls_total [] table h = (table, refl)
def_syscalls_total (name ∷ names) table h =
    let (one, others) =
      and_parts (below (nr name) (length table)) (fits_all names (length table)) h in
    let (t, ran, kept) = def_syscall_total table name (nr name) refl one in
    let (u, rest) = def_syscalls_total names t (ap (fits_all names) kept ∙ others) in
    (u, rw ran rest)

numbers_fit : fits_all defined_names nr_syscalls ≡ true
unfolding fits_all defined_names nr
numbers_fit = refl

replicate_entry : (n i : ℕ) (h : Handler) → i < n → get_elem? (replicate n h) i ≡ some h
replicate_entry zero i h within = absurd (omega arith)
replicate_entry (suc n) zero h within = refl
replicate_entry (suc n) (suc i) h within = replicate_entry n i h (omega arith)

-- InitSysCallTable writes inside the table only, and below NR_syscalls each entry ends up as the
-- function of the last name defined with that number, or as Unhandled where no name has it.
pub init_sys_call_table_lem :
    (i : ℕ)
    → i < nr_syscalls
    → (t : List Handler) × (init_sys_call_table ≡ some t)
      × (get_elem? t i ≡ some (last_defined defined_names i unhandled))
unfolding init_sys_call_table unhandled_table
init_sys_call_table_lem i h =
    let fit = ap (fits_all defined_names) (length-replicate nr_syscalls unhandled) ∙ numbers_fit in
    let (t, ran) = def_syscalls_total defined_names (replicate nr_syscalls unhandled) fit in
    (
      t,
      ran,
      def_syscalls_entry defined_names (replicate nr_syscalls unhandled) t i unhandled ran
          (replicate_entry nr_syscalls i unhandled h),
    )
