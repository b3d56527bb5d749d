-- ===== src/Ring/Fifo/Push.antt =====
-- `Push` on a ring whose consumer may have moved on since its position was read.
use studycpp.Prelude.{
  ℕ, ◌+◌, ◌-◌, ◌%◌, ◌^◌, ◌≤◌, ◌<◌, ◌≡◌, refl, ◌∙◌, true, false, some, List, [], ◌∷◌, ◌++◌, arith,
  leb, length, set, length-append, length-set,
}
use studycpp.Ring.Slots.{Holds-push}
use studycpp.Ring.Fifo.{FifoQ, word, index, is_full, push_seen}
use studycpp.Ring.Fifo.Positions.{Refines, full_iff, index-word}

module _ {T : Type 0} where
  pushed : FifoQ T → ℕ → T → FifoQ T
  pushed q i x = record q {
    ring = set q.ring i (some x);
    producer_pos = (q.producer_pos + 1) % word;
  }

  push_seen-full :
      (s : ℕ) (q : FifoQ T) (x : T)
      → is_full (length q.ring) q.producer_pos s ≡ true
      → push_seen s q x ≡ (false, q)
  unfolding push_seen is_full
  push_seen-full s q x e = rw e refl

  push_seen-room :
      (s i : ℕ) (q : FifoQ T) (x : T)
      → is_full (length q.ring) q.producer_pos s ≡ false
      → index (length q.ring) q.producer_pos ≡ i
      → push_seen s q x ≡ (true, pushed q i x)
  unfolding push_seen is_full index pushed
  push_seen-room s i q x e f = rw (e, f) refl

  pushed-Refines :
      (k c : ℕ) (q : FifoQ T) (xs : List T) (x : T)
      → Refines k c q xs
      → length xs < 2 ^ k
      → Refines k c (pushed q ((c + length xs) % length q.ring) x) (xs ++ (x ∷ []))
  unfolding pushed
  pushed-Refines k c q xs x r h = record {
    capacity = length-set q.ring ((c + length xs) % length q.ring) (some x) ∙ r.capacity;
    bounded = omega (arith, length-append xs (x ∷ []));
    consumer = r.consumer;
    producer = omega (arith, length-append xs (x ∷ []), r.producer);
    holds = Holds-push q.ring c xs x (omega (arith, r.capacity)) r.holds;
  }

  -- What a push does to a queue that holds `xs`, when the consumer was seen after `s` pops.
  pub record Pushed (k c s : ℕ) (q : FifoQ T) (xs : List T) (x : T) : Type 0 where
    pub full : c + length xs ≡ s + 2 ^ k → push_seen (s % word) q x ≡ (false, q)
    pub told : c + length xs < s + 2 ^ k → (push_seen (s % word) q x).0 ≡ true
    pub added :
        c + length xs < s + 2 ^ k → Refines k c (push_seen (s % word) q x).1 (xs ++ (x ∷ []))

  -- On a ring of `2 ^ k` slots, `k` at most 63, a push that saw the consumer at an earlier position,
  -- one that leaves at most `2 ^ k` elements since, fails and changes nothing if these are `2 ^ k`,
  -- and otherwise succeeds and appends the element to those that the ring holds.
  pub push_seen-Pushed :
      (k c s : ℕ) (q : FifoQ T) (xs : List T) (x : T)
      → k ≤ 63
      → Refines k c q xs
      → s ≤ c
      → c + length xs ≤ s + 2 ^ k
      → Pushed k c s q xs x
  push_seen-Pushed k c s q xs x h r i j =
      let test : is_full (length q.ring) q.producer_pos (s % word)
          ≡ leb (2 ^ k) (c + length xs - s) =
        rw (r.capacity, r.producer) (full_iff k c s (length xs) h i j) in
      let slot : index (length q.ring) q.producer_pos ≡ (c + length xs) % length q.ring =
        rw r.producer (index-word k (length q.ring) (c + length xs) h r.capacity) in
      let room : c + length xs < s + 2 ^ k
          → push_seen (s % word) q x ≡ (true, pushed q ((c + length xs) % length q.ring) x) =
        λ l.
          push_seen-room (s % word) ((c + length xs) % length q.ring) q x (test ∙ ground (arith, l))
            slot in
      record {
        full = λ e. push_seen-full (s % word) q x (test ∙ ground (arith, e));
        told = λ l. rw (room l) refl;
        added = λ l. rw (room l) (pushed-Refines k c q xs x r (omega (arith, i, j, l)));
      }
