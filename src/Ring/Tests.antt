-- ===== src/Ring/Tests.antt =====
-- A ring of four slots and runs on it.
use studycpp.Prelude.{
  ℕ, ◌-◌, ◌^◌, ◌≤◌, ◌≡◌, refl, true, none, some, List, [], ◌∷◌, ◌++◌, map, arith, length,
}
use studycpp.Ring.Fifo.{FifoQ, word, push_seen, pop_seen, empty_fifo, push, pop}
use studycpp.Ring.Fifo.Positions.{Refines}
use studycpp.Ring.Fifo.Push.{Pushed, push_seen-Pushed}
use studycpp.Ring.Fifo.Pop.{Popped, pop_seen-Popped}
use studycpp.Ring.Fifo.Destroy.{destroy, destroy_lem}
use studycpp.Ring.Fifo.Run.{
  Event, load_consumer, load_producer, push_event, pop_event, Threads, start, run, run_lem,
}

-- The ring after three pushes and one pop, with both positions about to wrap around.
abbrev late : FifoQ ℕ
late = record {
  ring = none ∷ none ∷ some 5 ∷ some 6 ∷ [];
  producer_pos = 0;
  consumer_pos = word - 2;
}

late-Refines : Refines 2 (word - 2) late (5 ∷ 6 ∷ [])
late-Refines = record {
  capacity = refl;
  bounded = omega arith;
  consumer = refl;
  producer = refl;
  holds = (refl, (refl, tt));
}

push_wraps : push late 7 ≡ (
  true,
  record { ring = some 7 ∷ none ∷ some 5 ∷ some 6 ∷ []; producer_pos = 1; consumer_pos = word - 2 },
)
unfolding push
push_wraps = refl

push_seen-Pushed_example : Pushed 2 (word - 2) (word - 3) late (5 ∷ 6 ∷ []) 7
push_seen-Pushed_example =
    push_seen-Pushed 2 (word - 2) (word - 3) late (5 ∷ 6 ∷ []) 7 (omega arith) late-Refines
      (omega arith) (omega arith)

pop_seen-Popped_example : Popped 2 (word - 2) (word - 1) late (5 ∷ 6 ∷ [])
pop_seen-Popped_example =
    pop_seen-Popped 2 (word - 2) (word - 1) late (5 ∷ 6 ∷ []) (omega arith) late-Refines
      (omega arith) (omega arith)

-- A pop before the producer's position is loaded finds nothing, and a third push is refused.
abbrev mixed : List (Event ℕ)
mixed =
    push_event 1
    ∷ pop_event
    ∷ load_producer
    ∷ push_event 2
    ∷ push_event 3
    ∷ pop_event
    ∷ load_consumer
    ∷ push_event 4
    ∷ []

run-mixed : let w = run (start 2) mixed in (w.accepted ≡ 1 ∷ 2 ∷ 4 ∷ []) × (w.taken ≡ some 1 ∷ [])
unfolding run studycpp.Ring.Fifo.Run.step push_seen pop_seen
run-mixed = (refl, refl)

run_lem_example :
    let w = run (start (2 ^ 1)) mixed in
    (rest : List ℕ) × ((length rest ≤ 2 ^ 1) × (map some w.accepted ≡ w.taken ++ map some rest))
run_lem_example = run_lem 1 mixed (omega arith)

destroy_lem_example : destroy 3 late ≡ some (some 5 ∷ some 6 ∷ [])
destroy_lem_example = destroy_lem 2 (word - 2) late (5 ∷ 6 ∷ []) (omega arith) late-Refines
