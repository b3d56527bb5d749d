-- ===== src/Pointers/Shared/Run.antt =====
-- Programs that construct, assign and destroy shared pointers in their variables.
use studycpp.Prelude.{
  ℕ, zero, suc, ◌<◌, ◌≡◌, refl, subst, inl, inr, Bool, true, false, ◌&&◌, Option, none, some, List,
  [], ◌∷◌, arith, ℕ_discrete, if◌then◌else◌, Bool-cases, Option-cases, get_elem?, replicate,
  length-replicate,
}
use studycpp.Prelude.Do.{◌>>=◌}
use studycpp.Pointers.Slots.{
  free_slot, full_slot, free_slot_eq, full_slot_eq, and_left, count, count-pos,
}
use studycpp.Pointers.Shared.{
  word, ControlBlock, Machine, construct_default, construct_copy, assign_copy, construct_move,
  assign_move, destruct, get,
}
use studycpp.Pointers.Shared.Program.{
  IsSound, make, make-IsSound, construct_default-IsSound, construct_copy-IsSound,
  assign_copy-IsSound, construct_move-IsSound, assign_move-IsSound, destruct-IsSound,
}

pub data Command : Type 0 where
  default_of make_of destroy : ℕ → Command
  copy_of move_of copy_to move_to : ℕ → ℕ → Command

abbrev is_free : ℕ → Machine → Bool
is_free x s = free_slot (get_elem? s.slots x)

abbrev is_full : ℕ → Machine → Bool
is_full x s = full_slot (get_elem? s.slots x)

unfoldable pub allowed : Command → Machine → Bool
allowed (default_of x) s = is_free x s
allowed (make_of x) s = is_free x s
allowed (destroy x) s = is_full x s
allowed (copy_of x y) s = is_free x s && is_full y s
allowed (move_of x y) s = is_free x s && is_full y s
allowed (copy_to x y) s = is_full x s && is_full y s
allowed (move_to x y) s = is_full x s && is_full y s

unfoldable pub execute : Command → Machine → Option Machine
execute (default_of x) s = construct_default x s
execute (make_of x) s = make x s
execute (destroy x) s = destruct x s
execute (copy_of x y) s = construct_copy x y s
execute (move_of x y) s = construct_move x y s
execute (copy_to x y) s = assign_copy x y s
execute (move_to x y) s = assign_move x y s

-- A command that is not allowed is none of the program's: it is passed over.
unfoldable pub step : Command → Machine → Option Machine
unfolding allowed execute
step c s = if allowed c s then execute c s else some s

unfoldable pub run : List Command → Machine → Option Machine
run [] s = some s
run (c ∷ cs) s = step c s >>= run cs

-- `n` variables without objects, and nothing allocated.
abbrev pub start : ℕ → Machine
start n = record {
  memory = record { blocks = λ a. none; next_block = 0; objects = λ p. false; next_object = 0 };
  slots = replicate n none;
}

abbrev Succeeds : Option Machine → Type 0
Succeeds r = (s : Machine) × ((r ≡ some s) × IsSound s)

self_copy : (x : ℕ) (s : Machine) → assign_copy x x s ≡ some s
unfolding assign_copy
self_copy x s = ground arith

self_move : (x : ℕ) (s : Machine) → assign_move x x s ≡ some s
unfolding assign_move
self_move x s = ground arith

execute-Succeeds :
    (c : Command) (s : Machine) → IsSound s → allowed c s ≡ true → Succeeds (execute c s)
unfolding allowed execute
execute-Succeeds (default_of x) s i h = construct_default-IsSound x s i (free_slot_eq _ h)
execute-Succeeds (make_of x) s i h = make-IsSound x s i (free_slot_eq _ h)
execute-Succeeds (destroy x) s i h = let (c, e) = full_slot_eq _ h in destruct-IsSound x c s i e
execute-Succeeds (copy_of x y) s i h =
    let (p, q) = and_left _ _ h in
    let (c, e) = full_slot_eq _ q in construct_copy-IsSound x y c s i (free_slot_eq _ p) e
execute-Succeeds (move_of x y) s i h =
    let (p, q) = and_left _ _ h in
    let (c, e) = full_slot_eq _ q in construct_move-IsSound x y c s i (free_slot_eq _ p) e
execute-Succeeds (copy_to x y) s i h =
    let (p, q) = and_left _ _ h in
    let (old, d) = full_slot_eq _ p in
    let (c, e) = full_slot_eq _ q in
    elim (ℕ_discrete x y) [
      | yes z ↦ (s, (subst (λ (k : ℕ). assign_copy x k s ≡ some s) z (self_copy x s), i))
      | no ne ↦ assign_copy-IsSound x y old c s i d e ne
    ]
execute-Succeeds (move_to x y) s i h =
    let (p, q) = and_left _ _ h in
    let (old, d) = full_slot_eq _ p in
    let (c, e) = full_slot_eq _ q in
    elim (ℕ_discrete x y) [
      | yes z ↦ (s, (subst (λ (k : ℕ). assign_move x k s ≡ some s) z (self_move x s), i))
      | no ne ↦ assign_move-IsSound x y old c s i d e ne
    ]

step-Succeeds : (c : Command) (s : Machine) → IsSound s → Succeeds (step c s)
unfolding step
step-Succeeds c s i = elim (Bool-cases (allowed c s)) [
  | inl e ↦ rw e (execute-Succeeds c s i e)
  | inr e ↦ rw e (s, (refl, i))
]

run-Succeeds : (cs : List Command) (s : Machine) → IsSound s → Succeeds (run cs s)
unfolding run
run-Succeeds [] s i = (s, (refl, i))
run-Succeeds (c ∷ cs) s i =
    let (t, r) = step-Succeeds c s i in
    let (u, q) = run-Succeeds cs t r.1 in (u, (rw (r.0, q.0) refl, q.1))

count-start : (a n : ℕ) → count a (replicate n none) ≡ 0
unfolding count
count-start a zero = refl
count-start a (suc n) = omega (arith, count-start a n)

start-IsSound : (n : ℕ) → n < word → IsSound (start n)
start-IsSound n h = record {
  counted = record {
    owner = λ p. 0;
    dead = λ a e. count-start a n;
    alive = λ a b e. cc e;
    owned = λ p e. cc e;
    fresh_block = λ a e. refl;
    fresh_object = λ p e. refl;
  };
  few = omega (arith, length-replicate {A = Option (Option ℕ)} n none);
}

-- What a program leaves: every control block has as many references as there are variables that
-- hold it, at least one, and its object is there; a variable with a block leads to an object that is
-- there; and if no variable holds a block, then no object is left.
pub record IsClean (s : Machine) : Type 0 where
  pub counted :
      (a : ℕ) (b : ControlBlock)
      → s.memory.blocks a ≡ some b
      → (b.ref_count ≡ count a s.slots)
        × ((0 < b.ref_count) × ((p : ℕ) × ((b.ptr ≡ some p) × (s.memory.objects p ≡ true))))
  pub pointing :
      (x a : ℕ)
      → get_elem? s.slots x ≡ some (some (some a))
      → (p : ℕ) × ((get x s ≡ some (some p)) × (s.memory.objects p ≡ true))
  pub freed : ((a : ℕ) → count a s.slots ≡ 0) → (p : ℕ) → s.memory.objects p ≡ false

get_lem :
    (x a p : ℕ) (b : ControlBlock) (s : Machine)
    → get_elem? s.slots x ≡ some (some (some a))
    → s.memory.blocks a ≡ some b
    → b.ptr ≡ some p
    → get x s ≡ some (some p)
unfolding get
get_lem x a p b s e f g = rw (e, get, f, g) refl

pointing_lem :
    (x a : ℕ) (s : Machine)
    → IsSound s
    → get_elem? s.slots x ≡ some (some (some a))
    → (p : ℕ) × ((get x s ≡ some (some p)) × (s.memory.objects p ≡ true))
pointing_lem x a s i e = elim (Option-cases (s.memory.blocks a)) [
  | inl f ↦ absurd (omega (arith, i.counted.dead a f, count-pos a s.slots x e))
  | inr (b, f) ↦
      let l = i.counted.alive a b f in (l.object, (get_lem x a l.object b s e f l.ptr_eq, l.live))
]

IsSound-IsClean : (s : Machine) → IsSound s → IsClean s
IsSound-IsClean s i = record {
  counted = λ a b e.
      let l = i.counted.alive a b e in
      (l.counted, (omega (arith, l.counted, l.held), (l.object, (l.ptr_eq, l.live))));
  pointing = λ x a e. pointing_lem x a s i e;
  freed = λ z p. elim (Bool-cases (s.memory.objects p)) [
    | inl e ↦
        let (b, r) = i.counted.owned p e in
        absurd
          (omega (arith, (i.counted.alive (i.counted.owner p) b r.0).held, z (i.counted.owner p)))
    | inr e ↦ e
  ];
}

-- A program on fewer than 2^64 variables, whose constructors run where there is no object and whose
-- other calls run where there is one, has no undefined behaviour and fails no assert: no object is
-- deleted twice, and no block is used after it is gone. Afterwards every block that is left counts
-- the variables that hold it, there is at least one, and its object is there; `get` of a variable with
-- a block returns an object that is there; and if no variable holds a block, no object is left.
pub run-IsClean :
    (n : ℕ) (cs : List Command)
    → n < word
    → (s : Machine) × ((run cs (start n) ≡ some s) × IsClean s)
run-IsClean n cs h =
    let (s, r) = run-Succeeds cs (start n) (start-IsSound n h) in (s, (r.0, IsSound-IsClean s r.1))
