-- ===== src/Ring/Fifo/Positions.antt =====
-- What a ring holds, by the numbers of its pops and pushes, and how the positions tell them.
use native.Mathlib.Nat.{mod-mod_of_dvd, dvd_refl, dvd-mul_left_of_dvd, pow-succ'}
use Prim.Native.Nat.{◌∣◌}
use studycpp.Prelude.{
  ℕ, zero, suc, ◌+◌, ◌-◌, ◌%◌, ◌^◌, ◌≤◌, ◌<◌, ◌≡◌, sym, ap, subst, ◌∙◌, List, arith, leb, length,
}
use studycpp.Prelude.Bits.{bit_and-mod, two_pow_mono}
use studycpp.Ring.Slots.{Holds}
use studycpp.Ring.Fifo.{FifoQ, word, sub_word, index, is_full}

-- The queue holds `xs`, and `c` elements were popped before: the capacity is `2 ^ k`, the positions
-- are the numbers of pops and of pushes, and the slots between them hold the elements.
pub record Refines {T : Type 0} (k c : ℕ) (q : FifoQ T) (xs : List T) : Type 0 where
  pub capacity : length q.ring ≡ 2 ^ k
  pub bounded : length xs ≤ 2 ^ k
  pub consumer : q.consumer_pos ≡ c % word
  pub producer : q.producer_pos ≡ (c + length xs) % word
  pub holds : Holds q.ring c xs

pub sub_word-mod : (a b : ℕ) → b ≤ a → a < b + word → sub_word (a % word) (b % word) ≡ a - b
sub_word-mod a b h k = omega arith

pow-dvd : (k j : ℕ) → 2 ^ k ∣ 2 ^ (j + k)
pow-dvd k zero =
    subst (λ (e : ℕ). 2 ^ k ∣ 2 ^ e) {x = k} {y = 0 + k} (omega arith) (dvd_refl (2 ^ k))
pow-dvd k (suc j) =
    subst (λ (n : ℕ). 2 ^ k ∣ n)
      (sym (pow-succ' 2 (j + k))
        ∙ ap (λ (e : ℕ). 2 ^ e) {x = suc (j + k)} {y = suc j + k} (omega arith))
      (dvd-mul_left_of_dvd (2 ^ k) (pow-dvd k j) 2)

mod-word : (k p : ℕ) → k ≤ 63 → p % word % 2 ^ k ≡ p % 2 ^ k
mod-word k p h = mod-mod_of_dvd (2 ^ k) {b = word} p (
    subst (λ (n : ℕ). 2 ^ k ∣ n) (ap (λ (e : ℕ). 2 ^ e) {x = 64 - k + k} {y = 64} (omega arith))
      (pow-dvd k (64 - k)))

pub index-word : (k n p : ℕ) → k ≤ 63 → n ≡ 2 ^ k → index n (p % word) ≡ p % n
unfolding index
index-word k n p h e = rw e (bit_and-mod k (p % word) ∙ mod-word k p h)

pub pow_word : (k : ℕ) → k ≤ 63 → 2 ^ k < word
pow_word k h = let p = two_pow_mono k 63 h in omega arith

pub full_iff :
    (k c s l : ℕ)
    → k ≤ 63
    → s ≤ c
    → c + l ≤ s + 2 ^ k
    → is_full (2 ^ k) ((c + l) % word) (s % word) ≡ leb (2 ^ k) (c + l - s)
unfolding is_full
full_iff k c s l h i j =
    ap (leb (2 ^ k)) (let p = pow_word k h in sub_word-mod (c + l) s (omega arith) (omega arith))
