-- ===== src/Ring/Fifo/Destroy.antt =====
-- The destructor of `SPSC_FifoQ`.
use mathlib.Core.Option
use studycpp.Prelude.{
  ℕ, zero, suc, ◌+◌, ◌%◌, ◌≤◌, ◌≡◌, refl, ◌∙◌, true, false, Option, none, some, List, [], ◌∷◌, map,
  arith, ◌==◌, if◌then◌else◌, length, get_or,
}
use studycpp.Ring.Fifo.{FifoQ, word, index, is_empty}
use studycpp.Ring.Fifo.Positions.{Refines, index-word}
use studycpp.Ring.Fifo.Pop.{empty_iff, get_or-get_elem?}

module _ {T : Type 0} where
  -- What the loop destroys, in order, on fuel (`none` if it runs out).
  unfoldable pub destroy : ℕ → FifoQ T → Option (List (Option T))
  unfolding index is_empty
  destroy zero q = none
  destroy (suc fuel) q =
      let rest = destroy fuel (record q { consumer_pos = (q.consumer_pos + 1) % word }) in
      if is_empty q.producer_pos q.consumer_pos
      then some []
      else Option.map (λ vs. get_or q.ring (index (length q.ring) q.consumer_pos) none ∷ vs) rest

  destroy-empty :
      (fuel : ℕ) (q : FifoQ T)
      → is_empty q.producer_pos q.consumer_pos ≡ true
      → destroy (suc fuel) q ≡ some []
  unfolding destroy is_empty
  destroy-empty fuel q e = rw e refl

  destroy-next :
      (fuel i : ℕ) (q : FifoQ T) (v : Option T) (vs : List (Option T))
      → is_empty q.producer_pos q.consumer_pos ≡ false
      → index (length q.ring) q.consumer_pos ≡ i
      → get_or q.ring i none ≡ v
      → destroy fuel (record q { consumer_pos = (q.consumer_pos + 1) % word }) ≡ some vs
      → destroy (suc fuel) q ≡ some (v ∷ vs)
  unfolding destroy is_empty index
  destroy-next fuel i q v vs e f g h = rw (e, f, g, h) refl

  next-Refines :
      (k c : ℕ) (q : FifoQ T) (x : T) (xs : List T)
      → Refines k c q (x ∷ xs)
      → Refines k (suc c) (record q { consumer_pos = (q.consumer_pos + 1) % word }) xs
  next-Refines k c q x xs r = record {
    capacity = r.capacity;
    bounded = omega (arith, r.bounded);
    consumer = omega (arith, r.consumer);
    producer = omega (arith, r.producer);
    holds = r.holds.1;
  }

  test_of :
      (k c : ℕ) (q : FifoQ T) (xs : List T)
      → k ≤ 63
      → Refines k c q xs
      → is_empty q.producer_pos q.consumer_pos ≡ (c + length xs == c)
  test_of k c q xs h r =
      rw (r.producer, r.consumer)
        (empty_iff k c (c + length xs) h (omega arith) (omega (arith, r.bounded)))

  -- The destructor of a ring of `2 ^ k` slots, `k` at most 63, destroys the elements that are in the
  -- ring, in order, and ends: one round for each of them and one for the last test are enough.
  pub destroy_lem :
      (k c : ℕ) (q : FifoQ T) (xs : List T)
      → k ≤ 63
      → Refines k c q xs
      → destroy (suc (length xs)) q ≡ some (map some xs)
  destroy_lem k c q [] h r = destroy-empty 0 q (test_of k c q [] h r ∙ ground arith)
  destroy_lem k c q (x ∷ xs) h r =
      destroy-next (suc (length xs)) (c % length q.ring) q (some x) (map some xs)
        (test_of k c q (x ∷ xs) h r ∙ ground arith)
        (rw r.consumer (index-word k (length q.ring) c h r.capacity))
        (get_or-get_elem? q.ring (c % length q.ring) none (some x) r.holds.0)
        (destroy_lem k (suc c) (record q { consumer_pos = (q.consumer_pos + 1) % word }) xs h
          (next-Refines k c q x xs r))
