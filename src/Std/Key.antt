-- ===== src/Std/Key.antt =====
-- `operator==` of a key type, as an interface.
use studycpp.Prelude.{ℕ, ◌≡◌, refl, subst, Bool, true, false, ◌&&◌, List, [], ◌∷◌, arith}
use studycpp.Prelude.{◌==◌ as nat_beq}

pub record Key {ℓ} (K : Type ℓ) : Type ℓ where
  pub equals : K → K → Bool
  pub sound : (j k : K) → equals j k ≡ true → j ≡ k
  pub reflexive : (k : K) → equals k k ≡ true

module _ {ℓ} {K : Type ℓ} ⦃key : Key K⦄ where
  infix 50 ◌==◌
  abbrev pub ◌==◌ : K → K → Bool
  j == k = key.equals j k

  pub eq_of_beq : (j k : K) → (j == k) ≡ true → j ≡ k
  eq_of_beq = key.sound

  pub beq_of_eq : (j k : K) → j ≡ k → (j == k) ≡ true
  beq_of_eq j k e = subst (λ i. (j == i) ≡ true) e (key.reflexive j)

pub nat_sound : (m n : ℕ) → nat_beq m n ≡ true → m ≡ n
nat_sound m n h = ground arith

pub nat_reflexive : (n : ℕ) → nat_beq n n ≡ true
nat_reflexive n = ground arith

instance abbrev pub nat_eq : Key ℕ
nat_eq = record { equals = nat_beq; sound = nat_sound; reflexive = nat_reflexive }

abbrev pub list_beq : List ℕ → List ℕ → Bool
list_beq [] [] = true
list_beq [] (y ∷ ys) = false
list_beq (x ∷ xs) [] = false
list_beq (x ∷ xs) (y ∷ ys) = nat_beq x y && list_beq xs ys

pub list_beq_sound : (xs ys : List ℕ) → list_beq xs ys ≡ true → xs ≡ ys
list_beq_sound [] [] h = refl
list_beq_sound [] (y ∷ ys) h = cc
list_beq_sound (x ∷ xs) [] h = cc
list_beq_sound (x ∷ xs) (y ∷ ys) h = ground (arith, list_beq_sound xs ys)

pub list_beq_refl : (xs : List ℕ) → list_beq xs xs ≡ true
list_beq_refl [] = refl
list_beq_refl (x ∷ xs) = ground (arith, list_beq_refl xs)

instance abbrev pub list_eq : Key (List ℕ)
list_eq = record { equals = list_beq; sound = list_beq_sound; reflexive = list_beq_refl }
