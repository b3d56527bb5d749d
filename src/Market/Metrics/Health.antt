-- ===== src/Market/Metrics/Health.antt =====
-- The invariant of the collector, and what the ring of latencies never has.
use studycpp.Prelude.{ℕ, ◌+◌, ◌≤◌, ◌≡◌, refl, ◌∙◌, none, List, [], ◌∷◌, arith, length}
use studycpp.Std.Key.{list_eq}
use studycpp.Std.OrderedSet.{All}
use studycpp.Std.Text.{Text}
use studycpp.Market.Metrics.{
  MessageType, type_eq, TimeWindow, MetricsCollector, max_windows, window_size, new_window,
  new_collector, get_current_window, in_window, count_message, record_latency, record_message,
  record_sequence_gap, record_out_of_order_message, record_memory_usage, record_queue_size,
}
use studycpp.Market.Metrics.Windows.{
  total, total-add_count, length-get_current_window, length-update_back, All-get_current_window,
  All-update_back,
}

-- One call of the collector other than that for a latency, at a reading of the clock.
pub data Event : Type 0 where
  message : MessageType → Text → Event
  sequence_gap out_of_order : Event
  memory_usage queue_length : ℕ → Event

unfoldable pub record_event : ℕ → Event → MetricsCollector → MetricsCollector
record_event now (message type symbol) c = record_message now type symbol c
record_event now sequence_gap c = record_sequence_gap now c
record_event now out_of_order c = record_out_of_order_message now c
record_event now (memory_usage bytes) c = record_memory_usage bytes c
record_event now (queue_length size) c = record_queue_size size c

unfoldable pub record_events : List (ℕ × Event) → MetricsCollector → MetricsCollector
record_events [] c = c
record_events ((now, e) ∷ es) c = record_events es (record_event now e c)

-- The window is one second long, and its messages are counted once by type and once by symbol.
abbrev pub IsCounted : TimeWindow → Type 0
IsCounted w =
    (w.end_time ≡ w.start_time + window_size)
    × ((total w.message_type_counts ≡ w.message_count) × (total w.symbol_counts ≡ w.message_count))

pub record IsHealthy (c : MetricsCollector) : Type 0 where
  pub bounded : length c.time_windows ≤ max_windows
  pub counted : All IsCounted c.time_windows
  pub memory : c.memory_used ≤ c.peak_memory_used
  pub queue : c.queue_size ≤ c.peak_queue_size
  pub unsized : c.latency_buffer ≡ []

new_window-IsCounted : (now : ℕ) → IsCounted (new_window now)
unfolding total
new_window-IsCounted now = (refl, (refl, refl))

count_message-IsCounted :
    (type : MessageType) (symbol : Text) (w : TimeWindow)
    → IsCounted w
    → IsCounted (count_message type symbol w)
count_message-IsCounted type symbol w (e, (f, g)) = (
  e,
  (
    total-add_count type 1 w.message_type_counts ∙ omega (arith, f),
    total-add_count symbol 1 w.symbol_counts ∙ omega (arith, g),
  ),
)

in_window-IsHealthy :
    (now : ℕ) (f : TimeWindow → TimeWindow) (c : MetricsCollector)
    → ((w : TimeWindow) → IsCounted w → IsCounted (f w))
    → IsHealthy c
    → IsHealthy (in_window now f c)
in_window-IsHealthy now f c k h = record {
  bounded = omega (
    arith,
    length-update_back f (get_current_window now c.time_windows),
    length-get_current_window now c.time_windows h.bounded,
  );
  counted =
      All-update_back IsCounted f (get_current_window now c.time_windows) k
        (All-get_current_window IsCounted now c.time_windows (new_window-IsCounted now) h.counted);
  memory = h.memory;
  queue = h.queue;
  unsized = h.unsized;
}

record_event-IsHealthy :
    (now : ℕ) (e : Event) (c : MetricsCollector) → IsHealthy c → IsHealthy (record_event now e c)
unfolding record_event record_message record_sequence_gap record_out_of_order_message
    record_memory_usage record_queue_size
record_event-IsHealthy now (message type symbol) c h =
    in_window-IsHealthy now (count_message type symbol) c (count_message-IsCounted type symbol) h
record_event-IsHealthy now sequence_gap c h =
    in_window-IsHealthy now (λ w. record w { sequence_gaps = w.sequence_gaps + 1 }) c (λ w k. k) h
record_event-IsHealthy now out_of_order c h =
    in_window-IsHealthy now (λ w. record w { out_of_order_messages = w.out_of_order_messages + 1 })
      c (λ w k. k) h
record_event-IsHealthy now (memory_usage bytes) c h = record {
  bounded = h.bounded;
  counted = h.counted;
  memory = omega arith;
  queue = h.queue;
  unsized = h.unsized;
}
record_event-IsHealthy now (queue_length size) c h = record {
  bounded = h.bounded;
  counted = h.counted;
  memory = h.memory;
  queue = omega arith;
  unsized = h.unsized;
}

record_events_from :
    (es : List (ℕ × Event)) (c : MetricsCollector) → IsHealthy c → IsHealthy (record_events es c)
unfolding record_events
record_events_from [] c h = h
record_events_from ((now, e) ∷ es) c h =
    record_events_from es (record_event now e c) (record_event-IsHealthy now e c h)

new_collector-IsHealthy : IsHealthy new_collector
new_collector-IsHealthy = record {
  bounded = omega arith;
  counted = tt;
  memory = omega arith;
  queue = omega arith;
  unsized = refl;
}

-- After any calls of a new collector other than those for latencies, and at any readings of the
-- clock: there are at most 60 windows; each is one second long, and both the counters of its message
-- types and those of its symbols add up to its number of messages; neither peak is below the level
-- that it is the peak of; and the ring of latencies has no slots.
pub record_events-IsHealthy : (es : List (ℕ × Event)) → IsHealthy (record_events es new_collector)
record_events-IsHealthy es = record_events_from es new_collector new_collector-IsHealthy

-- After any calls of a new collector other than those for latencies, recording a latency writes
-- outside of the ring.
pub record_latency_undefined :
    (es : List (ℕ × Event)) (now latency : ℕ)
    → record_latency now latency (record_events es new_collector) ≡ none
unfolding record_latency
record_latency_undefined es now latency =
    let h = record_events-IsHealthy es in rw h.unsized (ground arith)
