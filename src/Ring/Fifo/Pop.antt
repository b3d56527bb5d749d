-- ===== src/Ring/Fifo/Pop.antt =====
-- `Pop` on a ring whose producer may have moved on since its position was read.
use native.Mathlib.Nat.{add-mod_right}
use studycpp.Prelude.{
  ℕ, zero, suc, ◌+◌, ◌%◌, ◌^◌, ◌≤◌, ◌<◌, ◌≡◌, refl, subst, ◌∙◌, inl, inr, true, false, none, some,
  List, [], ◌∷◌, arith, ◌==◌, List-cases, length, get_elem?, set, length-set, get_or,
}
use studycpp.Ring.Slots.{Holds, Holds-set}
use studycpp.Ring.Fifo.{FifoQ, word, index, is_empty, pop_seen}
use studycpp.Ring.Fifo.Positions.{Refines, pow_word, index-word}

pub get_or-get_elem? :
    {A : Type 0} (xs : List A) (i : ℕ) (d v : A) → get_elem? xs i ≡ some v → get_or xs i d ≡ v
get_or-get_elem? [] i d v e = cc e
get_or-get_elem? (x ∷ xs) zero d v e = cc e
get_or-get_elem? (x ∷ xs) (suc i) d v e = get_or-get_elem? xs i d v e

pub empty_iff :
    (k c t : ℕ) → k ≤ 63 → c ≤ t → t ≤ c + 2 ^ k → is_empty (t % word) (c % word) ≡ (t == c)
unfolding is_empty
empty_iff k c t h i j = let p = pow_word k h in ground (arith, i, j)

module _ {T : Type 0} where
  popped : FifoQ T → ℕ → FifoQ T
  popped q i = record q { ring = set q.ring i none; consumer_pos = (q.consumer_pos + 1) % word }

  pop_seen-empty : (t : ℕ) (q : FifoQ T) → is_empty t q.consumer_pos ≡ true → pop_seen t q ≡ none
  unfolding pop_seen is_empty
  pop_seen-empty t q e = rw e refl

  pop_seen-first :
      (t i : ℕ) (q : FifoQ T)
      → is_empty t q.consumer_pos ≡ false
      → index (length q.ring) q.consumer_pos ≡ i
      → pop_seen t q ≡ some (get_or q.ring i none, popped q i)
  unfolding pop_seen is_empty index popped
  pop_seen-first t i q e f = rw (e, f) refl

  popped-Refines :
      (k c : ℕ) (q : FifoQ T) (x : T) (xs : List T)
      → Refines k c q (x ∷ xs)
      → Refines k (suc c) (popped q (c % length q.ring)) xs
  unfolding popped
  popped-Refines k c q x xs r = record {
    capacity = length-set q.ring (c % length q.ring) none ∙ r.capacity;
    bounded = omega (arith, r.bounded);
    consumer = omega (arith, r.consumer);
    producer = omega (arith, r.producer);
    holds =
        subst (λ i. Holds (set q.ring i none) (suc c) xs) (add-mod_right c (length q.ring))
          (Holds-set q.ring (suc c) (c + length q.ring) xs none
            (omega (arith, r.bounded, r.capacity)) (omega arith) r.holds.1);
  }

  -- What a pop does to a queue that holds `xs`, when the producer was seen after `t` pushes.
  pub record Popped (k c t : ℕ) (q : FifoQ T) (xs : List T) : Type 0 where
    pub nothing : t ≡ c → pop_seen (t % word) q ≡ none
    pub first :
        c < t
        → (x : T) × (ys : List T) × (q' : FifoQ T) × ((xs ≡ x ∷ ys)
            × ((pop_seen (t % word) q ≡ some (some x, q')) × Refines k (suc c) q' ys))

  -- On a ring of `2 ^ k` slots, `k` at most 63, a pop that saw the producer at an earlier position,
  -- not before the consumer's, finds nothing if that is the consumer's position, and otherwise
  -- returns the first element that the ring holds and leaves the others.
  pub pop_seen-Popped :
      (k c t : ℕ) (q : FifoQ T) (xs : List T)
      → k ≤ 63
      → Refines k c q xs
      → c ≤ t
      → t ≤ c + length xs
      → Popped k c t q xs
  pop_seen-Popped k c t q xs h r i j =
      let test : is_empty (t % word) q.consumer_pos ≡ (t == c) =
        rw r.consumer (empty_iff k c t h i (omega (arith, r.bounded))) in
      let slot : index (length q.ring) q.consumer_pos ≡ c % length q.ring =
        rw r.consumer (index-word k (length q.ring) c h r.capacity) in
      record {
        nothing = λ e. pop_seen-empty (t % word) q (test ∙ ground (arith, e));
        first = λ l. elim (List-cases xs) [
          | inl e ↦ absurd (ground (arith, e))
          | inr (x, ys, e) ↦
              let r' = subst (Refines k c q) e r in
              let p =
                pop_seen-first (t % word) (c % length q.ring) q (test ∙ ground (arith, l)) slot in
              (
                x,
                ys,
                popped q (c % length q.ring),
                (
                  e,
                  (
                    rw (p, get_or-get_elem? q.ring (c % length q.ring) none (some x) r'.holds.0)
                        refl,
                    popped-Refines k c q x ys r',
                  ),
                ),
              )
        ];
      }
