-- ===== src/Ring/Fifo/Run.antt =====
-- The two threads on one ring, their loads and stores in any order.
use studycpp.Prelude.{
  ℕ, suc, ◌+◌, ◌%◌, ◌^◌, ◌≤◌, ◌<◌, ◌≡◌, refl, sym, ap, subst, ◌∙◌, Bool, true, false, Option, none,
  some, List, [], ◌∷◌, ◌++◌, map, append_assoc, arith, dec_lt, length, length-append,
  length-replicate,
}
use studycpp.Ring.Fifo.{FifoQ, word, push_seen, pop_seen, empty_fifo}
use studycpp.Ring.Fifo.Positions.{Refines}
use studycpp.Ring.Fifo.Push.{push_seen-Pushed}
use studycpp.Ring.Fifo.Pop.{pop_seen-Popped}

-- A thread loads the other's position, and later pushes or pops with the position that it has seen.
pub data Event (T : Type 0) : Type 0 where
  load_consumer load_producer : Event T
  push_event : T → Event T
  pop_event : Event T

pub record Threads (T : Type 0) : Type 0 where
  pub queue : FifoQ T
  pub seen_consumer : ℕ
  pub seen_producer : ℕ
  -- the elements of the pushes that succeeded, and what was popped
  pub accepted : List T
  pub taken : List (Option T)

module _ {T : Type 0} where
  abbrev pub start : ℕ → Threads T
  start capacity = record {
    queue = empty_fifo capacity;
    seen_consumer = 0;
    seen_producer = 0;
    accepted = [];
    taken = [];
  }

  abbrev pub after_push : Threads T → T → Bool × FifoQ T → Threads T
  after_push w x (true, q) = record w { queue = q; accepted = w.accepted ++ (x ∷ []) }
  after_push w x (false, q) = record w { queue = q }

  abbrev pub after_pop : Threads T → Option (Option T × FifoQ T) → Threads T
  after_pop w none = w
  after_pop w (some (v, q)) = record w { queue = q; taken = w.taken ++ (v ∷ []) }

  unfoldable pub step : Threads T → Event T → Threads T
  step w load_consumer = record w { seen_consumer = w.queue.consumer_pos }
  step w load_producer = record w { seen_producer = w.queue.producer_pos }
  step w (push_event x) = after_push w x (push_seen w.seen_consumer w.queue x)
  step w pop_event = after_pop w (pop_seen w.seen_producer w.queue)

  unfoldable pub run : Threads T → List (Event T) → Threads T
  run w [] = w
  run w (e ∷ es) = run (step w e) es

  -- The queue holds the accepted elements that were not taken; each thread has seen a position that
  -- the other had.
  record IsSound (k : ℕ) (w : Threads T) : Type 0 where
    pops : ℕ
    seen_pops : ℕ
    seen_pushes : ℕ
    contents : List T
    refines : Refines k pops w.queue contents
    consumer_le : seen_pops ≤ pops
    room : pops + length contents ≤ seen_pops + 2 ^ k
    producer_ge : pops ≤ seen_pushes
    producer_le : seen_pushes ≤ pops + length contents
    consumer_eq : w.seen_consumer ≡ seen_pops % word
    producer_eq : w.seen_producer ≡ seen_pushes % word
    ordered : map some w.accepted ≡ w.taken ++ map some contents

  map-append : (xs ys : List T) → map some (xs ++ ys) ≡ map some xs ++ map some ys
  map-append [] ys = refl
  map-append (x ∷ xs) ys = ap (λ zs. some x ∷ zs) (map-append xs ys)

  pushed-IsSound :
      (k : ℕ) (w : Threads T) (x : T) (q : FifoQ T) (i : IsSound k w)
      → i.pops + length i.contents < i.seen_pops + 2 ^ k
      → Refines k i.pops q (i.contents ++ (x ∷ []))
      → IsSound k (after_push w x (true, q))
  pushed-IsSound k w x q i l r = record {
    pops = i.pops;
    seen_pops = i.seen_pops;
    seen_pushes = i.seen_pushes;
    contents = i.contents ++ (x ∷ []);
    refines = r;
    consumer_le = i.consumer_le;
    room = omega (arith, l, length-append i.contents (x ∷ []));
    producer_ge = i.producer_ge;
    producer_le = omega (arith, i.producer_le, length-append i.contents (x ∷ []));
    consumer_eq = i.consumer_eq;
    producer_eq = i.producer_eq;
    ordered =
        map-append w.accepted (x ∷ [])
        ∙ ap (λ zs. zs ++ (some x ∷ [])) i.ordered
        ∙ append_assoc w.taken (map some i.contents) (some x ∷ [])
        ∙ ap (λ zs. w.taken ++ zs) (sym (map-append i.contents (x ∷ [])));
  }

  IsSound-push :
      (k : ℕ) (w : Threads T) (x : T) → k ≤ 63 → IsSound k w → IsSound k (step w (push_event x))
  unfolding step
  IsSound-push k w x h i =
      let p =
        push_seen-Pushed k i.pops i.seen_pops w.queue i.contents x h i.refines i.consumer_le
          i.room in
      let result = push_seen (i.seen_pops % word) w.queue x in
      subst (λ (n : ℕ). IsSound k (after_push w x (push_seen n w.queue x))) (sym i.consumer_eq)
        (elim (dec_lt (i.pops + length i.contents) (i.seen_pops + 2 ^ k)) [
          | yes l ↦
              subst (λ r. IsSound k (after_push w x r)) (ap (λ b. (b, result.1)) (sym (p.told l)))
                (pushed-IsSound k w x result.1 i l (p.added l))
          | no l ↦
              subst (λ r. IsSound k (after_push w x r)) (sym (p.full (omega (arith, l, i.room)))) i
        ])

  popped-IsSound :
      (k : ℕ) (w : Threads T) (x : T) (ys : List T) (q : FifoQ T) (i : IsSound k w)
      → i.pops < i.seen_pushes
      → i.contents ≡ x ∷ ys
      → Refines k (suc i.pops) q ys
      → IsSound k (after_pop w (some (some x, q)))
  popped-IsSound k w x ys q i l e r = record {
    pops = suc i.pops;
    seen_pops = i.seen_pops;
    seen_pushes = i.seen_pushes;
    contents = ys;
    refines = r;
    consumer_le = omega (arith, i.consumer_le);
    room = omega (arith, i.room, ap length e);
    producer_ge = omega (arith, l);
    producer_le = omega (arith, i.producer_le, ap length e);
    consumer_eq = i.consumer_eq;
    producer_eq = i.producer_eq;
    ordered =
        i.ordered
        ∙ ap (λ zs. w.taken ++ map some zs) e
        ∙ sym (append_assoc w.taken (some x ∷ []) (map some ys));
  }

  IsSound-pop : (k : ℕ) (w : Threads T) → k ≤ 63 → IsSound k w → IsSound k (step w pop_event)
  unfolding step
  IsSound-pop k w h i =
      let p =
        pop_seen-Popped k i.pops i.seen_pushes w.queue i.contents h i.refines i.producer_ge
          i.producer_le in
      subst (λ (n : ℕ). IsSound k (after_pop w (pop_seen n w.queue))) (sym i.producer_eq)
        (elim (dec_lt i.pops i.seen_pushes) [
          | yes l ↦
              let (x, ys, q, e) = p.first l in
              subst (λ r. IsSound k (after_pop w r)) (sym e.1.0)
                (popped-IsSound k w x ys q i l e.0 e.1.1)
          | no l ↦
              subst (λ r. IsSound k (after_pop w r))
                (sym (p.nothing (omega (arith, l, i.producer_ge)))) i
        ])

  IsSound-step : (k : ℕ) (w : Threads T) (e : Event T) → k ≤ 63 → IsSound k w → IsSound k (step w e)
  unfolding step
  IsSound-step k w load_consumer h i = record {
    pops = i.pops;
    seen_pops = i.pops;
    seen_pushes = i.seen_pushes;
    contents = i.contents;
    refines = i.refines;
    consumer_le = omega arith;
    room = omega (arith, i.refines.bounded);
    producer_ge = i.producer_ge;
    producer_le = i.producer_le;
    consumer_eq = i.refines.consumer;
    producer_eq = i.producer_eq;
    ordered = i.ordered;
  }
  IsSound-step k w load_producer h i = record {
    pops = i.pops;
    seen_pops = i.seen_pops;
    seen_pushes = i.pops + length i.contents;
    contents = i.contents;
    refines = i.refines;
    consumer_le = i.consumer_le;
    room = i.room;
    producer_ge = omega arith;
    producer_le = omega arith;
    consumer_eq = i.consumer_eq;
    producer_eq = i.refines.producer;
    ordered = i.ordered;
  }
  IsSound-step k w (push_event x) h i = IsSound-push k w x h i
  IsSound-step k w pop_event h i = IsSound-pop k w h i

  IsSound-run :
      (k : ℕ) (w : Threads T) (es : List (Event T)) → k ≤ 63 → IsSound k w → IsSound k (run w es)
  unfolding run
  IsSound-run k w [] h i = i
  IsSound-run k w (e ∷ es) h i = IsSound-run k (step w e) es h (IsSound-step k w e h i)

  IsSound-start : (k : ℕ) → IsSound k (start (2 ^ k))
  IsSound-start k = record {
    pops = 0;
    seen_pops = 0;
    seen_pushes = 0;
    contents = [];
    refines = record {
      capacity = length-replicate (2 ^ k) none;
      bounded = omega arith;
      consumer = refl;
      producer = refl;
      holds = tt;
    };
    consumer_le = omega arith;
    room = omega arith;
    producer_ge = omega arith;
    producer_le = omega arith;
    consumer_eq = refl;
    producer_eq = refl;
    ordered = refl;
  }

  -- Whatever the order in which the two threads load the positions, push and pop on a new ring of
  -- `2 ^ k` slots, `k` at most 63: what was popped, followed by at most `2 ^ k` further elements, is
  -- what was pushed with success, in order, and no pop reads a slot without an object.
  pub run_lem :
      (k : ℕ) (es : List (Event T))
      → k ≤ 63
      → let w = run (start (2 ^ k)) es in
        (rest : List T) × ((length rest ≤ 2 ^ k) × (map some w.accepted ≡ w.taken ++ map some rest))
  run_lem k es h =
      let i = IsSound-run k (start (2 ^ k)) es h (IsSound-start k) in
      (i.contents, (i.refines.bounded, i.ordered))
