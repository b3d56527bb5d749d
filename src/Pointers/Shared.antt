-- ===== src/Pointers/Shared.antt =====
-- `shared_ptr` of mypointer.h. Objects and control blocks have addresses, which are not given
-- twice. `none` is the end of a run at a call that has no defined behaviour or a failed `assert`.
pub mod Counted
pub mod Program
pub mod Run
use studycpp.Prelude.{
  [], ℕ, ◌+◌, ◌-◌, ◌%◌, ◌^◌, Bool, true, false, Option, none, some, ◌==◌, if◌then◌else◌, get_elem?,
  set,
}
use studycpp.Prelude.Do.{◌>>=◌, ◌>>◌}
use studycpp.Pointers.Slots.{Slots}

abbrev pub word : ℕ
word = 2 ^ 64

pub record ControlBlock : Type 0 where
  pub ptr : Option ℕ
  pub ref_count : ℕ

pub record Memory : Type 0 where
  pub blocks : ℕ → Option ControlBlock
  pub next_block : ℕ
  pub objects : ℕ → Bool  -- whether an object is at the address
  pub next_object : ℕ

abbrev pub update {ℓ} : {A : Type ℓ} → (ℕ → A) → ℕ → A → ℕ → A
update f p v q = if p == q then v else f q

abbrev pub set_block : Memory → ℕ → Option ControlBlock → Memory
set_block m a b = record m { blocks = update m.blocks a b }

-- `new T`
unfoldable pub new_object : Memory → ℕ × Memory
new_object m = (
  m.next_object,
  record m { objects = update m.objects m.next_object true; next_object = m.next_object + 1 },
)

-- `delete p`
unfoldable pub delete_object : Option ℕ → Memory → Option Memory
delete_object none m = some m
delete_object (some p) m =
    if m.objects p then some (record m { objects = update m.objects p false }) else none

-- `new control_block(p)`
unfoldable pub new_block : ℕ → Memory → ℕ × Memory
new_block p m = (
  m.next_block,
  record m {
    blocks = update m.blocks m.next_block (some (record { ptr = some p; ref_count = 1 }));
    next_block = m.next_block + 1;
  },
)

-- `delete ctrl`, with the asserts of the destructor of the control block
unfoldable pub delete_block : ℕ → Memory → Option Memory
delete_block a m = do
  b ← m.blocks a
  if b.ref_count == 0 then elim b.ptr [ none ↦ some (set_block m a none) | some p ↦ none ] else none

unfoldable pub increment_ref : ℕ → Memory → Option Memory
increment_ref a m = do
  b ← m.blocks a
  some (set_block m a (some (record b { ref_count = (b.ref_count + 1) % word })))

-- The last reference deletes the object, and reports so.
unfoldable pub decrement_ref : ℕ → Memory → Option (Bool × Memory)
unfolding delete_object
decrement_ref a m = m.blocks a >>= λ b.
    let left = (b.ref_count + (word - 1)) % word in
    let m' = set_block m a (some (record b { ref_count = left })) in
    if b.ref_count == 1
    then (delete_object b.ptr m' >>= λ d.
        some (true, set_block d a (some (record { ptr = none; ref_count = left }))))
    else some (false, m')

-- `if (ctrl) ctrl->increment_ref();`
unfoldable pub retain : Option ℕ → Memory → Option Memory
unfolding increment_ref
retain none m = some m
retain (some a) m = increment_ref a m

abbrev pub delete_last : ℕ → Bool × Memory → Option Memory
delete_last a (true, m) = delete_block a m
delete_last a (false, m) = some m

-- `if (ctrl && ctrl->decrement_ref()) delete ctrl;`
unfoldable pub release : Option ℕ → Memory → Option Memory
unfolding decrement_ref delete_block
release none m = some m
release (some a) m = decrement_ref a m >>= delete_last a

-- A program's memory and its variables.
pub record Machine : Type 0 where
  pub memory : Memory
  pub slots : Slots

-- the `ctrl` of the pointer object in a variable
abbrev pub read : ℕ → Machine → Option (Option ℕ)
read x s = get_elem? s.slots x >>= λ o. o

abbrev pub write : ℕ → Option (Option ℕ) → Memory → Machine → Machine
write x v m s = record { memory = m; slots = set s.slots x v }

-- `shared_ptr()`
unfoldable pub construct_default : ℕ → Machine → Option Machine
construct_default x s = some (write x (some none) s.memory s)

-- `shared_ptr(T *ptr)`
unfoldable pub construct : ℕ → Option ℕ → Machine → Option Machine
unfolding new_block
construct x none s = some (write x (some none) s.memory s)
construct x (some p) s = let (a, m) = new_block p s.memory in some (write x (some (some a)) m s)

-- `shared_ptr(const shared_ptr &rhs)`
unfoldable pub construct_copy : ℕ → ℕ → Machine → Option Machine
unfolding retain
construct_copy x y s = do c ← read y s; m ← retain c s.memory; some (write x (some c) m s)

-- `operator=(const shared_ptr &rhs)`
unfoldable pub assign_copy : ℕ → ℕ → Machine → Option Machine
unfolding retain release
assign_copy x y s = if x == y then some s else (do
  old ← read x s
  m ← release old s.memory
  c ← read y s
  m' ← retain c m
  some (write x (some c) m' s))

-- `shared_ptr(shared_ptr &&rhs)`
unfoldable pub construct_move : ℕ → ℕ → Machine → Option Machine
construct_move x y s = do
  c ← read y s
  some (write y (some none) s.memory (write x (some c) s.memory s))

-- `operator=(shared_ptr &&rhs)`
unfoldable pub assign_move : ℕ → ℕ → Machine → Option Machine
unfolding release
assign_move x y s = if x == y then some s else (do
  old ← read x s
  m ← release old s.memory
  c ← read y s
  some (write y (some none) m (write x (some c) m s)))

-- `~shared_ptr()`
unfoldable pub destruct : ℕ → Machine → Option Machine
unfolding release
destruct x s = do old ← read x s; m ← release old s.memory; some (write x none m s)

-- `get()`; the outer `none` is an access to a block that is gone
unfoldable pub get : ℕ → Machine → Option (Option ℕ)
get x s = do
  c ← read x s
  elim c [ none ↦ some none | some a ↦ (s.memory.blocks a >>= λ b. some b.ptr) ]
