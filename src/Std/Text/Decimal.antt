-- ===== src/Std/Text/Decimal.antt =====
-- `std::to_string` gives different texts for different numbers.
use studycpp.Prelude.{
  ℕ, zero, suc, ◌+◌, ◌-◌, ◌*◌, ◌/◌, ◌%◌, ◌≤◌, ◌<◌, ◌≡◌, refl, ap, inl, inr, [], ◌∷◌, ◌++◌, arith,
  ltb, lt→ltb, Bool-cases,
}
use studycpp.Std.Text.{Text, decimal, to_string}

-- The number that a run of digits stands for, after the number `acc`.
value_from : ℕ → Text → ℕ
value_from acc [] = acc
value_from acc (c ∷ s) = value_from (acc * 10 + (c - 48)) s

value_from-append :
    (acc : ℕ) (s t : Text) → value_from acc (s ++ t) ≡ value_from (value_from acc s) t
unfolding value_from
value_from-append acc [] t = refl
value_from-append acc (c ∷ s) t = value_from-append (acc * 10 + (c - 48)) s t

value_from-decimal : (fuel n : ℕ) → n < fuel → value_from 0 (decimal fuel n) ≡ n
unfolding decimal value_from
value_from-decimal zero n h = absurd (omega arith)
value_from-decimal (suc fuel) n h = elim (Bool-cases (ltb n 10)) [
  | inl e ↦ rw e (omega arith)
  | inr e ↦
      rw (e, value_from-append 0 (decimal fuel (n / 10)) ((b'0' + n % 10) ∷ []))
        (rw (value_from-decimal fuel (n / 10) (ground arith)) (omega arith))
]

pub to_string-injective : (m n : ℕ) → to_string m ≡ to_string n → m ≡ n
unfolding to_string
to_string-injective m n e = omega (
  arith,
  ap (value_from 0) e,
  value_from-decimal (suc m) m (omega arith),
  value_from-decimal (suc n) n (omega arith),
)

pub to_string-below_10 : (n : ℕ) → n < 10 → to_string n ≡ (b'0' + n) ∷ []
unfolding to_string
to_string-below_10 n h = rw (lt→ltb n 10 h) refl

decimal-below_10 : (fuel n : ℕ) → n < 10 → decimal (suc fuel) n ≡ (b'0' + n) ∷ []
unfolding decimal
decimal-below_10 fuel n h = rw (lt→ltb n 10 h) refl

decimal-below_100 :
    (fuel n : ℕ)
    → 10 ≤ n
    → n < 100
    → decimal (suc (suc fuel)) n ≡ (b'0' + n / 10) ∷ (b'0' + n % 10) ∷ []
unfolding decimal
decimal-below_100 fuel n h k = ground (arith, decimal-below_10 fuel (n / 10))

pub to_string-below_100 :
    (n : ℕ) → 10 ≤ n → n < 100 → to_string n ≡ (b'0' + n / 10) ∷ (b'0' + n % 10) ∷ []
unfolding to_string
to_string-below_100 zero h k = absurd (omega arith)
to_string-below_100 (suc n) h k = decimal-below_100 n (suc n) h k
