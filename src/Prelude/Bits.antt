-- ===== src/Prelude/Bits.antt =====
-- `|` of numbers whose ones lie apart is their sum, and is never less than either side.
use Prim.Native.Nat.{digits, bit_or-bitwise, bit_and-bitwise}
use native.Mathlib.Nat.{
  pow-suc, pow-le-pow_right, div-add-mod, mod-lt, mod-eq_of_lt, add-mul-mod_self_left,
}
use studycpp.Prelude.{
  ℕ, zero, suc, ◌+◌, ◌-◌, ◌*◌, ◌/◌, ◌%◌, ◌^◌, ◌≤◌, ◌<◌, min, max, bit_or, bit_and, ◌≡◌, refl, ap,
  ◌∙◌, arith,
}

-- One operation on the digits: `base` at the end of the first number, `bit` at each digit.
module _ (base : ℕ → ℕ) (bit : ℕ → ℕ → ℕ) where
  abbrev combine : ℕ → ℕ → ℕ → ℕ
  combine = digits base bit

  -- Fuel above the first number changes nothing.
  fuel-enough : (n a b : ℕ) → a ≤ n → combine (suc n) a b ≡ combine n a b
  fuel-enough zero zero b h = refl
  fuel-enough zero (suc a) b h = absurd (omega arith)
  fuel-enough (suc n) zero b h = refl
  fuel-enough (suc n) (suc a) b h = rw (fuel-enough n (suc a / 2) (b / 2) (omega arith)) refl

  combine_fuel : (m n a b : ℕ) → m ≡ n → combine m a b ≡ combine n a b
  combine_fuel m n a b e = ap (λ k. combine k a b) e

  combine-more : (k a b : ℕ) → combine (k + a) a b ≡ combine a a b
  combine-more zero a b = combine_fuel (0 + a) a a b (omega arith)
  combine-more (suc k) a b =
      combine_fuel (suc k + a) (suc (k + a)) a b (omega arith)
      ∙ fuel-enough (k + a) a b (omega arith)
      ∙ combine-more k a b

  combine-half : (a b : ℕ) → combine a (suc a / 2) b ≡ combine (suc a / 2) (suc a / 2) b
  combine-half a b =
      combine_fuel a (a - suc a / 2 + suc a / 2) (suc a / 2) b (omega arith)
      ∙ combine-more (a - suc a / 2) (suc a / 2) b

-- The equation of the lowest digit.
bit_or_low : (p q : ℕ) → bit_or p q ≡ max (p % 2) (q % 2) + 2 * bit_or (p / 2) (q / 2)
bit_or_low zero b = simp bit_or-bitwise (omega arith)
bit_or_low (suc a) b = simp bit_or-bitwise (omega (arith, combine-half (λ y. y) max a (b / 2)))

bit_and_low : (p q : ℕ) → bit_and p q ≡ min (p % 2) (q % 2) + 2 * bit_and (p / 2) (q / 2)
bit_and_low zero b = simp bit_and-bitwise (omega arith)
bit_and_low (suc a) b = simp bit_and-bitwise (omega (arith, combine-half (λ y. zero) min a (b / 2)))

bit_or-zero_below : (n a : ℕ) → a ≤ n → bit_or a 0 ≡ a
bit_or-zero_below n zero h = refl
bit_or-zero_below zero (suc a) h = absurd (omega arith)
bit_or-zero_below (suc n) (suc a) h =
    omega (arith, bit_or_low (suc a) 0, bit_or-zero_below n (suc a / 2) (omega arith))

-- A multiple of a power of two and a number below that power.
pub bit_or-add : (k q r : ℕ) → r < 2 ^ k → bit_or (q * 2 ^ k) r ≡ q * 2 ^ k + r
bit_or-add zero q r h =
    let r0 : r ≡ 0 = omega arith in rw r0 (omega (arith, bit_or-zero_below (q * 1) (q * 1)))
bit_or-add (suc k) q r h =
    let twice : q * 2 ^ suc k ≡ 2 * (q * 2 ^ k) =
      omega (arith, ap (λ (t : ℕ). q * t) (pow-suc 2 k)) in
    let half : q * 2 ^ suc k / 2 ≡ q * 2 ^ k = omega arith in
    let rest = bit_or-add k q (r / 2) (omega (arith, pow-suc 2 k)) in
    bit_or_low (q * 2 ^ suc k) r ∙ rw half (omega arith)

pub bit_or-ge : (n a b : ℕ) → a ≤ n → a ≤ bit_or a b
bit_or-ge n zero b h = omega arith
bit_or-ge zero (suc a) b h = absurd (omega arith)
bit_or-ge (suc n) (suc a) b h =
    omega (arith, bit_or_low (suc a) b, bit_or-ge n (suc a / 2) (b / 2) (omega arith))

pub two_pow_mono : (i j : ℕ) → i ≤ j → 2 ^ i ≤ 2 ^ j
two_pow_mono i j h = pow-le-pow_right {n = 2} (omega arith) h

bit_and-zero_below : (n a : ℕ) → a ≤ n → bit_and a 0 ≡ 0
bit_and-zero_below n zero h = refl
bit_and-zero_below zero (suc a) h = absurd (omega arith)
bit_and-zero_below (suc n) (suc a) h =
    omega (arith, bit_and_low (suc a) 0, bit_and-zero_below n (suc a / 2) (omega arith))

mod_unique : (n q r p : ℕ) → r < n → p ≡ r + n * q → p % n ≡ r
mod_unique n q r p h e = ap (λ (t : ℕ). t % n) e ∙ add-mul-mod_self_left r n q ∙ mod-eq_of_lt h

mod-half : (m p : ℕ) → 0 < m → p % (m * 2) ≡ p % 2 + 2 * (p / 2 % m)
mod-half m p h =
    let e = div-add-mod (p / 2) m in
    let l = mod-lt (p / 2) h in
    mod_unique (m * 2) (p / 2 / m) (p % 2 + 2 * (p / 2 % m)) p (omega arith) (omega arith)

pub two_pow_pos : (k : ℕ) → 0 < 2 ^ k
two_pow_pos k = pow-le-pow_right {n = 2} (omega arith) {i = 0} {j = k} (omega arith)

-- The mask of the `k` lowest digits keeps the remainder.
pub bit_and-mod : (k p : ℕ) → bit_and p (2 ^ k - 1) ≡ p % 2 ^ k
bit_and-mod zero p = omega (arith, bit_and-zero_below p p (omega arith))
bit_and-mod (suc k) p =
    let q = two_pow_pos k in
    let half : (2 ^ suc k - 1) / 2 ≡ 2 ^ k - 1 = omega (arith, pow-suc 2 k) in
    let odd : (2 ^ suc k - 1) % 2 ≡ 1 = omega (arith, pow-suc 2 k) in
    bit_and_low p (2 ^ suc k - 1)
    ∙ rw (half, odd, bit_and-mod k (p / 2), pow-suc 2 k) (omega (arith, mod-half (2 ^ k) p q))
