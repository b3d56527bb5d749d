-- ===== src/Encoder/Bytes.antt =====
-- The digits of a number to the base 128, and the powers of the base.
use native.Mathlib.Nat.{one-le-pow}
use native.Mathlib.Numerals.{towards_suc}
use studycpp.Prelude.{
  ℕ, zero, suc, ◌+◌, ◌*◌, ◌/◌, ◌%◌, ◌^◌, ◌≤◌, ◌<◌, bit_or, ◌≡◌, refl, ap, ◌∙◌, List, [], ◌∷◌, ◌++◌,
  arith, length, length-append,
}
use studycpp.Prelude.Bits.{bit_or-add}

-- The values that `n` bytes can hold.
abbrev pub capacity : ℕ → ℕ
capacity n = 2 ^ (7 * n)

seven : (s : ℕ) → 2 ^ (s + 7) ≡ 128 * 2 ^ s
seven s = simp towards_suc (omega arith)

pub capacity-suc : (n : ℕ) → capacity (suc n) ≡ 128 * capacity n
capacity-suc n = ap (λ (k : ℕ). 2 ^ k) {x = 7 * suc n} {y = 7 * n + 7} (omega arith) ∙ seven (7 * n)

pub capacity-pos : (n : ℕ) → 1 ≤ capacity n
capacity-pos n = one-le-pow (7 * n) 2 (omega arith)

-- The last `n` digits of `v`, the most significant first.
unfoldable pub digits : ℕ → ℕ → List ℕ
digits zero v = []
digits (suc n) v = digits n (v / 128) ++ ((v % 128) ∷ [])

pub length-digits : (n v : ℕ) → length (digits n v) ≡ n
unfolding digits
length-digits zero v = refl
length-digits (suc n) v =
    omega (arith, length-append (digits n (v / 128)) ((v % 128) ∷ []), length-digits n (v / 128))

-- The bytes of `v` in `n + 1` places: its digits, the last one with the stop bit.
unfoldable pub encoding : ℕ → ℕ → List ℕ
unfolding digits
encoding n v = digits n (v / 128) ++ ((v % 128 + 128) ∷ [])

-- The next digit goes below the ones that are there.
pub bit_or-digit :
    (n a d : ℕ)
    → d < 128
    → bit_or (a * capacity (suc n)) (d * capacity n) ≡ (a * 128 + d) * capacity n
bit_or-digit n a d h = bit_or-add (7 * suc n) a (d * capacity n) fits ∙ sum
  where
    le : d * capacity n ≤ 127 * capacity n
    le = grind arith

    fits : d * capacity n < capacity (suc n)
    fits = omega (arith, capacity-suc n, capacity-pos n, le)

    sum : a * capacity (suc n) + d * capacity n ≡ (a * 128 + d) * capacity n
    sum = omega (arith, ap (λ (t : ℕ). a * t) (capacity-suc n))
