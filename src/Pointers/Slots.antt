-- ===== src/Pointers/Slots.antt =====
-- The variables of a program that hold smart pointers, and how many of them hold an address.
use studycpp.Prelude.{
  ℕ, zero, suc, ◌+◌, ◌≤◌, ◌<◌, ◌≡◌, refl, subst, Bool, true, false, ◌&&◌, Option, none, some, List,
  [], ◌∷◌, arith, ◌==◌, if◌then◌else◌, length, get_elem?, set,
}

-- `none` is a variable without a pointer object in it, before its constructor or after its
-- destructor; `some none` is a null pointer.
abbrev pub Slots : Type 0
Slots = List (Option (Option ℕ))

-- one if the slot holds the address
abbrev pub holds : ℕ → Option (Option ℕ) → ℕ
holds a none = 0
holds a (some none) = 0
holds a (some (some b)) = if a == b then 1 else 0

unfoldable pub count : ℕ → Slots → ℕ
count a [] = 0
count a (s ∷ ss) = holds a s + count a ss

pub count-set :
    (a : ℕ) (ss : Slots) (x : ℕ) (old new : Option (Option ℕ))
    → get_elem? ss x ≡ some old
    → count a (set ss x new) + holds a old ≡ count a ss + holds a new
unfolding count
count-set a [] x old new e = cc
count-set a (s ∷ ss) zero old new e =
    let q : s ≡ old = cc e in
    subst (λ o. holds a new + count a ss + holds a o ≡ holds a s + count a ss + holds a new) q
      (omega arith)
count-set a (s ∷ ss) (suc x) old new e = omega (arith, count-set a ss x old new e)

pub holds-le : (a : ℕ) (s : Option (Option ℕ)) → holds a s ≤ 1
holds-le a none = omega arith
holds-le a (some none) = omega arith
holds-le a (some (some b)) = ground arith

pub count-le : (a : ℕ) (ss : Slots) → count a ss ≤ length ss
unfolding count
count-le a [] = omega arith
count-le a (s ∷ ss) = omega (arith, holds-le a s, count-le a ss)

-- What a slot holds is counted.
pub count-pos :
    (a : ℕ) (ss : Slots) (x : ℕ) → get_elem? ss x ≡ some (some (some a)) → 0 < count a ss
unfolding count
count-pos a [] x e = cc
count-pos a (s ∷ ss) zero e =
    let q : some (some a) ≡ s = cc e in subst (λ o. 0 < holds a o + count a ss) q (ground arith)
count-pos a (s ∷ ss) (suc x) e = omega (arith, count-pos a ss x e)

pub get_elem?-set-some :
    (ss : Slots) (x : ℕ) (old new : Option (Option ℕ))
    → get_elem? ss x ≡ some old
    → get_elem? (set ss x new) x ≡ some new
get_elem?-set-some [] x old new e = cc
get_elem?-set-some (s ∷ ss) zero old new e = refl
get_elem?-set-some (s ∷ ss) (suc x) old new e = get_elem?-set-some ss x old new e

-- A constructor runs in a variable without an object, all else in one with an object.
abbrev pub free_slot : Option (Option (Option ℕ)) → Bool
free_slot (some none) = true
free_slot (some (some c)) = false
free_slot none = false

abbrev pub full_slot : Option (Option (Option ℕ)) → Bool
full_slot (some (some c)) = true
full_slot (some none) = false
full_slot none = false

pub free_slot_eq : (o : Option (Option (Option ℕ))) → free_slot o ≡ true → o ≡ some none
free_slot_eq none e = cc
free_slot_eq (some none) e = refl
free_slot_eq (some (some c)) e = cc

pub full_slot_eq :
    (o : Option (Option (Option ℕ))) → full_slot o ≡ true → (c : Option ℕ) × (o ≡ some (some c))
full_slot_eq none e = cc
full_slot_eq (some none) e = cc
full_slot_eq (some (some c)) e = (c, refl)

pub and_left : (a b : Bool) → (a && b) ≡ true → (a ≡ true) × (b ≡ true)
and_left true b h = (refl, h)
and_left false b h = cc
