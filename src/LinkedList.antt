-- ===== src/LinkedList.antt =====
-- keow-kernel/KeowKernel/List.h: the doubly linked list of the kernel, over a store of nodes.
pub mod Chains
pub mod Ends
pub mod Erasing
pub mod Walking
pub mod Refinement
pub mod Tests
use keow.Prelude.{
  ℕ, zero, suc, ◌+◌, ◌-◌, Bool, true, false, List, [], ◌∷◌, Option, none, some, ◌==◌, if◌then◌else◌,
  ◌>>=◌,
}

-- A pointer is an address, or `none` for NULL.
abbrev pub Pointer : Type 0
Pointer = Option ℕ

pub record Node {ℓ} (A : Type ℓ) : Type ℓ where
  pub prev : Pointer
  pub next : Pointer
  pub value : A

-- The nodes that are allocated; `fresh` is the address of the next one.
pub record Store {ℓ} (A : Type ℓ) : Type ℓ where
  pub nodes : ℕ → Option (Node A)
  pub fresh : ℕ

pub record Linked : Type 0 where
  pub head : Pointer
  pub tail : Pointer

-- The constructor.
abbrev pub empty_list : Linked
empty_list = record { head = none; tail = none }

abbrev pub is_null : Pointer → Bool
is_null none = true
is_null (some p) = false

unfoldable pub is_empty : Linked → Bool
is_empty l = is_null l.head

abbrev pub points_to : Pointer → ℕ → Bool
points_to none n = false
points_to (some p) n = p == n

module _ {ℓ} {A : Type ℓ} where
  abbrev pub put : ℕ → Node A → (ℕ → Option (Node A)) → ℕ → Option (Node A)
  put p n nodes q = if q == p then some n else nodes q

  abbrev pub delete : ℕ → (ℕ → Option (Node A)) → ℕ → Option (Node A)
  delete p nodes q = if q == p then none else nodes q

  -- p->next = v and p->prev = v; `none` is an access to a node that is not there.
  unfoldable pub set_next : ℕ → Pointer → Store A → Option (Store A)
  set_next p v s =
      s.nodes p >>= λ n. some (record s { nodes = put p (record n { next = v }) s.nodes })

  unfoldable pub set_prev : ℕ → Pointer → Store A → Option (Store A)
  set_prev p v s =
      s.nodes p >>= λ n. some (record s { nodes = put p (record n { prev = v }) s.nodes })

  abbrev pub new_node : Pointer → A → Store A → Store A
  new_node tail a s = record {
    nodes = put s.fresh (record { prev = tail; next = none; value = a }) s.nodes;
    fresh = suc s.fresh;
  }

  -- The new node is linked behind the old tail.
  unfoldable pub link_tail : Pointer → ℕ → Linked → Store A → Option (Linked × Store A)
  link_tail none n l s = some (record { head = some n; tail = some n }, s)
  link_tail (some t) n l s = set_next t (some n) s >>= λ s'. some (record l { tail = some n }, s')

  unfoldable pub push_back : A → Linked → Store A → Option (Linked × Store A)
  push_back a l s = link_tail l.tail s.fresh l (new_node l.tail a s)

  -- The end of pop_back: the value is read, and the node freed.
  unfoldable pub take_node : ℕ → Linked → Store A → Option (Linked × Store A × A)
  take_node n l s =
      s.nodes n >>= λ node. some (l, record s { nodes = delete n s.nodes }, node.value)

  unfoldable pub drop_tail : Pointer → ℕ → Linked → Store A → Option (Linked × Store A × A)
  drop_tail none n l s = take_node n empty_list s
  drop_tail (some t) n l s = set_next t none s >>= take_node n (record l { tail = some t })

  unfoldable pub pop_from : Pointer → Linked → Store A → Option (Linked × Store A × A)
  pop_from none l s = none
  pop_from (some n) l s = s.nodes n >>= λ node. drop_tail node.prev n l s

  -- `none` is a fault, as on an empty list.
  unfoldable pub pop_back : Linked → Store A → Option (Linked × Store A × A)
  pop_back l s = pop_from l.tail l s

  unfoldable pub skip_next : Pointer → Pointer → Store A → Option (Store A)
  skip_next none v s = some s
  skip_next (some p) v s = set_next p v s

  unfoldable pub skip_prev : Pointer → Pointer → Store A → Option (Store A)
  skip_prev none v s = some s
  skip_prev (some p) v s = set_prev p v s

  -- erase at an iterator; a null one does nothing.
  unfoldable pub erase : Pointer → Linked → Store A → Option (Linked × Store A)
  erase none l s = some (l, s)
  erase (some n) l s = s.nodes n >>= λ m. skip_next m.prev m.next s >>= λ s1. s1.nodes n >>= λ m1.
      skip_prev m1.next m1.prev s1 >>= λ s2. s2.nodes n >>= λ m2. some (
        record {
          head = if points_to l.head n then m2.next else l.head;
          tail = if points_to l.tail n then m2.prev else l.tail;
        },
        record s2 { nodes = delete n s2.nodes },
      )

  -- The loops over a list take fuel, one for each turn; `none` is a fault or too little fuel.
  unfoldable pub find : (A → A → Bool) → A → ℕ → Pointer → Store A → Option Pointer
  find eq v zero it s = none
  find eq v (suc fuel) none s = some none
  find eq v (suc fuel) (some p) s = s.nodes p >>= λ n.
      let rest = find eq v fuel n.next s in if eq n.value v then some (some p) else rest

  unfoldable pub size : ℕ → Pointer → Store A → Option ℕ
  size zero it s = none
  size (suc fuel) none s = some 0
  size (suc fuel) (some p) s = s.nodes p >>= λ n. size fuel n.next s >>= λ k. some (suc k)

  -- operator[]: past the end the null iterator is read.
  unfoldable pub element : ℕ → ℕ → Pointer → Store A → Option A
  element zero index it s = none
  element (suc fuel) index none s = none
  element (suc fuel) zero (some p) s = s.nodes p >>= λ n. some n.value
  element (suc fuel) (suc index) (some p) s = s.nodes p >>= λ n. element fuel index n.next s

  unfoldable pub erase_value : (A → A → Bool) → A → ℕ → Linked → Store A → Option (Linked × Store A)
  erase_value eq v fuel l s = find eq v fuel l.head s >>= λ it. erase it l s

  unfoldable pub clear : ℕ → Linked → Store A → Option (Linked × Store A)
  clear zero l s = none
  clear (suc fuel) l s =
      let rest = pop_back l s >>= λ (l', s', a). clear fuel l' s' in
      if is_empty l then some (l, s) else rest
