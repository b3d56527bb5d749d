-- ===== src/Engine/Float.antt =====
-- The `double` of the prices, as an interface: the comparisons and the values that the engine uses,
-- with the laws that hold of the numbers other than NaN.
use studycpp.Prelude.{◌≡◌, ◌⊎◌, inl, inr, Bool, true, false, arith, Bool-cases}

pub record Float (P : Type 0) : Type 0 where
  pub lt : P → P → Bool
  pub ne : P → P → Bool
  pub sub : P → P → P
  pub zero : P
  pub max_value : P
  -- `<` is a strict order
  pub lt_irrefl : (a : P) → lt a a ≡ false
  pub lt_trans : (a b c : P) → lt a b ≡ true → lt b c ≡ true → lt a c ≡ true
  -- of two unequal numbers one is less
  pub ne_total : (a b : P) → ne a b ≡ true → (lt a b ≡ true) ⊎ (lt b a ≡ true)
  pub lt-ne : (a b : P) → lt a b ≡ true → ne a b ≡ true
  pub ne_symm : (a b : P) → ne a b ≡ ne b a
  -- equal numbers compare alike
  pub lt_congr_left : (a b c : P) → ne a b ≡ false → lt a c ≡ lt b c
  pub lt_congr_right : (a b c : P) → ne a b ≡ false → lt c a ≡ lt c b

module _ {P : Type 0} ⦃f : Float P⦄ where
  abbrev pub lt : P → P → Bool
  lt = f.lt

  abbrev pub ne : P → P → Bool
  ne = f.ne

  pub ne_trans : (a b c : P) → ne a b ≡ false → ne b c ≡ false → ne a c ≡ false
  ne_trans a b c p q = elim (Bool-cases (ne a c)) [
    | inr e ↦ e
    | inl e ↦ elim (f.ne_total a c e) [
      | inl l ↦ ground (arith, f.lt_congr_left a b c p, f.lt-ne b c)
      | inr l ↦ ground (arith, f.lt_congr_right a b c p, f.lt-ne c b, f.ne_symm c b)
    ]
  ]

  pub lt_asymm : (a b : P) → lt a b ≡ true → lt b a ≡ false
  lt_asymm a b h = ground (arith, f.lt_trans a b a, f.lt_irrefl a)

  -- `a ≤ b` and `b < c`
  pub lt_of_not_lt : (a b c : P) → lt b a ≡ false → lt b c ≡ true → lt a c ≡ true
  lt_of_not_lt a b c p q = elim (Bool-cases (ne a b)) [
    | inl e ↦ elim (f.ne_total a b e) [ inl l ↦ f.lt_trans a b c l q | inr l ↦ cc ]
    | inr e ↦ ground (arith, f.lt_congr_left a b c e)
  ]
