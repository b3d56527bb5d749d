-- ===== src/Pointers/Unique.antt =====
-- `unique_ptr` of mypointer.h, for a type that is not an array. A program has its pointers in
-- variables; an object is at its address until it is deleted, and to delete one that is not there is
-- undefined.
pub mod Owned
pub mod Steps
pub mod Run
use studycpp.Prelude.{
  ℕ, ◌+◌, Bool, true, false, Option, none, some, ◌==◌, if◌then◌else◌, get_elem?, set,
}
use studycpp.Prelude.Do.{◌>>=◌}
use studycpp.Pointers.Slots.{Slots}

-- The addresses in `released` were handed to the program by `release`.
pub record Machine : Type 0 where
  pub objects : ℕ → Bool
  pub next_object : ℕ
  pub slots : Slots
  pub released : ℕ → Bool

abbrev pub set_at : (ℕ → Bool) → ℕ → Bool → ℕ → Bool
set_at f p b q = if q == p then b else f q

-- `delete p`
unfoldable pub delete_object : Option ℕ → Machine → Option Machine
delete_object none s = some s
delete_object (some p) s =
    if s.objects p then some (record s { objects = set_at s.objects p false }) else none

-- the `ptr` of the pointer object in a variable
abbrev pub pointer : ℕ → Machine → Option (Option ℕ)
pointer x s = get_elem? s.slots x >>= λ o. o

abbrev pub assign : ℕ → Option (Option ℕ) → Machine → Machine
assign x v s = record s { slots = set s.slots x v }

-- `new T`
abbrev pub with_object : Machine → Machine
with_object s = record s {
  objects = set_at s.objects s.next_object true;
  next_object = s.next_object + 1;
}

-- `unique_ptr()`
unfoldable pub construct_default : ℕ → Machine → Option Machine
construct_default x s = some (assign x (some none) s)

-- `unique_ptr(new T)`
unfoldable pub construct_new : ℕ → Machine → Option Machine
construct_new x s = some (assign x (some (some s.next_object)) (with_object s))

-- `unique_ptr(unique_ptr &&rhs)`
unfoldable pub construct_move : ℕ → ℕ → Machine → Option Machine
construct_move x y s = do c ← pointer y s; some (assign y (some none) (assign x (some c) s))

-- `operator=(unique_ptr &&rhs)`
unfoldable pub assign_move : ℕ → ℕ → Machine → Option Machine
unfolding delete_object
assign_move x y s = if x == y then some s else (do
  old ← pointer x s
  t ← delete_object old s
  c ← pointer y t
  some (assign y (some none) (assign x (some c) t)))

-- `reset(new T)`
unfoldable pub reset_new : ℕ → Machine → Option Machine
unfolding delete_object
reset_new x s = do
  old ← pointer x s
  delete_object old (assign x (some (some s.next_object)) (with_object s))

-- `reset()`
unfoldable pub reset : ℕ → Machine → Option Machine
unfolding delete_object
reset x s = do old ← pointer x s; delete_object old (assign x (some none) s)

abbrev hand_over : Option ℕ → Machine → Machine
hand_over none s = s
hand_over (some p) s = record s { released = set_at s.released p true }

-- `release()`
unfoldable pub release : ℕ → Machine → Option Machine
release x s = do c ← pointer x s; some (hand_over c (assign x (some none) s))

-- `~unique_ptr()`
unfoldable pub destruct : ℕ → Machine → Option Machine
unfolding delete_object
destruct x s = do old ← pointer x s; t ← delete_object old s; some (assign x none t)
