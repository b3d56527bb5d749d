-- ===== src/Pointers/Unique/Run.antt =====
-- Programs that construct, assign, reset, release and destroy unique pointers in their variables.
use studycpp.Prelude.{
  ℕ, zero, suc, ◌≡◌, refl, ◌∙◌, inl, inr, Bool, true, false, ◌&&◌, Option, none, some, List, [],
  ◌∷◌, arith, if◌then◌else◌, Bool-cases, get_elem?, replicate,
}
use studycpp.Prelude.Do.{◌>>=◌, >>=-some}
use studycpp.Pointers.Slots.{count, free_slot, full_slot, free_slot_eq, full_slot_eq, and_left}
use studycpp.Pointers.Unique.{
  Machine, construct_default, construct_new, construct_move, assign_move, reset_new, reset, release,
  destruct, assign,
}
use studycpp.Pointers.Unique.Owned.{IsOwned, Succeeds, assign_null-IsOwned, construct_new-Succeeds}
use studycpp.Pointers.Unique.Steps.{
  construct_move-Succeeds, destruct-Succeeds, reset-Succeeds, reset_new-Succeeds, release-Succeeds,
  assign_move-Succeeds,
}

pub data Command : Type 0 where
  default_of new_of destroy reset_null reset_to_new release_of : ℕ → Command
  move_of move_to : ℕ → ℕ → Command

abbrev is_free : ℕ → Machine → Bool
is_free x s = free_slot (get_elem? s.slots x)

abbrev is_full : ℕ → Machine → Bool
is_full x s = full_slot (get_elem? s.slots x)

-- A constructor runs in a variable without an object, all else in one with an object.
unfoldable pub allowed : Command → Machine → Bool
allowed (default_of x) s = is_free x s
allowed (new_of x) s = is_free x s
allowed (destroy x) s = is_full x s
allowed (reset_null x) s = is_full x s
allowed (reset_to_new x) s = is_full x s
allowed (release_of x) s = is_full x s
allowed (move_of x y) s = is_free x s && is_full y s
allowed (move_to x y) s = is_full x s && is_full y s

unfoldable pub execute : Command → Machine → Option Machine
execute (default_of x) s = construct_default x s
execute (new_of x) s = construct_new x s
execute (destroy x) s = destruct x s
execute (reset_null x) s = reset x s
execute (reset_to_new x) s = reset_new x s
execute (release_of x) s = release x s
execute (move_of x y) s = construct_move x y s
execute (move_to x y) s = assign_move x y s

-- A command that is not allowed is none of the program's: it is passed over.
unfoldable pub step : Command → Machine → Option Machine
unfolding allowed execute
step c s = if allowed c s then execute c s else some s

unfoldable pub run : List Command → Machine → Option Machine
unfolding step
run [] s = some s
run (c ∷ cs) s = step c s >>= run cs

-- `n` variables without objects, and nothing allocated.
abbrev pub start : ℕ → Machine
start n = record {
  objects = λ p. false;
  next_object = 0;
  slots = replicate n none;
  released = λ p. false;
}

execute-Succeeds :
    (c : Command) (s : Machine) → IsOwned s → allowed c s ≡ true → Succeeds (execute c s)
unfolding allowed execute construct_default
execute-Succeeds (default_of x) s i h = (
  assign x (some none) s,
  (refl, assign_null-IsOwned x none s i (free_slot_eq _ h) (λ p. refl) (some none) (λ p. refl)),
)
execute-Succeeds (new_of x) s i h = construct_new-Succeeds x s i (free_slot_eq _ h)
execute-Succeeds (destroy x) s i h = let (c, e) = full_slot_eq _ h in destruct-Succeeds x c s i e
execute-Succeeds (reset_null x) s i h = let (c, e) = full_slot_eq _ h in reset-Succeeds x c s i e
execute-Succeeds (reset_to_new x) s i h =
    let (c, e) = full_slot_eq _ h in reset_new-Succeeds x c s i e
execute-Succeeds (release_of x) s i h = let (c, e) = full_slot_eq _ h in release-Succeeds x c s i e
execute-Succeeds (move_of x y) s i h =
    let (p, q) = and_left _ _ h in
    let (c, e) = full_slot_eq _ q in construct_move-Succeeds x y c s i (free_slot_eq _ p) e
execute-Succeeds (move_to x y) s i h =
    let (p, q) = and_left _ _ h in
    let (old, d) = full_slot_eq _ p in
    let (c, e) = full_slot_eq _ q in assign_move-Succeeds x y old c s i d e

step-Succeeds : (c : Command) (s : Machine) → IsOwned s → Succeeds (step c s)
unfolding step
step-Succeeds c s i = elim (Bool-cases (allowed c s)) [
  | inl e ↦ rw e (execute-Succeeds c s i e)
  | inr e ↦ rw e (s, (refl, i))
]

run-Succeeds : (cs : List Command) (s : Machine) → IsOwned s → Succeeds (run cs s)
unfolding run
run-Succeeds [] s i = (s, (refl, i))
run-Succeeds (c ∷ cs) s i =
    let (t, r) = step-Succeeds c s i in
    let (u, q) = run-Succeeds cs t r.1 in (u, (>>=-some (run cs) r.0 ∙ q.0, q.1))

count-start : (p n : ℕ) → count p (replicate n none) ≡ 0
unfolding count
count-start p zero = refl
count-start p (suc n) = omega (arith, count-start p n)

-- A program whose constructors run where there is no object and whose other calls run where there
-- is one, and which deletes nothing itself, deletes no object twice. Afterwards an object that is
-- there has one owner, which is one pointer that holds its address or the program, if it was
-- released; and no pointer holds the address of an object that is gone.
pub run-IsOwned :
    (n : ℕ) (cs : List Command) → (s : Machine) × ((run cs (start n) ≡ some s) × IsOwned s)
run-IsOwned n cs =
    run-Succeeds cs (start n)
      (record { owned = λ p. omega (arith, count-start p n); fresh = λ p h. refl })
