-- ===== src/Market/Metrics/Summary.antt =====
-- `getMetricsSummary`: the percentiles of the ring, and the totals over the windows.
use studycpp.Prelude.{
  ℕ, suc, ◌+◌, ◌*◌, ◌/◌, ◌≡◌, refl, ap, ap₂, ◌∙◌, Option, none, some, List, [], ◌∷◌, arith, leb,
  if◌then◌else◌, length, get_elem?,
}
use studycpp.Std.Key.{Key, list_eq}
use studycpp.Std.Dict.{Dict}
use studycpp.Std.OrderedSet.{All}
use studycpp.Std.Text.{Text}
use studycpp.Market.Metrics.{
  new_collector, MessageType, type_eq, TimeWindow, MetricsCollector, latency_buffer_size, add_count,
}
use studycpp.Market.Metrics.Windows.{total, total-add_count}
use studycpp.Market.Metrics.Health.{IsCounted, Event, record_events, record_events-IsHealthy}

-- `avg_latency` is never set, and has no field. A `double` that was assigned from an integer below
-- 2^53 is that integer.
pub record MetricsSummary : Type 0 where
  pub p50_latency : ℕ
  pub p95_latency : ℕ
  pub p99_latency : ℕ
  pub message_rate : ℕ
  pub sequence_gaps : ℕ
  pub out_of_order_messages : ℕ
  pub message_type_distribution : Dict MessageType ℕ
  pub symbol_distribution : Dict Text ℕ
  pub memory_used : ℕ
  pub peak_memory_used : ℕ
  pub queue_size : ℕ
  pub peak_queue_size : ℕ

insert_latency : ℕ → List ℕ → List ℕ
insert_latency n [] = n ∷ []
insert_latency n (m ∷ ms) = if leb n m then n ∷ m ∷ ms else m ∷ insert_latency n ms

-- `std::sort`
unfoldable pub sort_latencies : List ℕ → List ℕ
unfolding insert_latency
sort_latencies [] = []
sort_latencies (n ∷ ns) = insert_latency n (sort_latencies ns)

-- the slot `p` of a hundred of the sorted ring, `none` out of bounds
abbrev pub percentile : ℕ → List ℕ → Option ℕ
percentile p sorted = get_elem? sorted (latency_buffer_size * p / 100)

-- the sum of a counter over the windows
unfoldable pub sum_of : (TimeWindow → ℕ) → List TimeWindow → ℕ
sum_of f [] = 0
sum_of f (w ∷ ws) = f w + sum_of f ws

-- The counters of one window are added to those that are there, and then those of the next one.
unfoldable pub add_counts : {K : Type 0} ⦃key : Key K⦄ → Dict K ℕ → Dict K ℕ → Dict K ℕ
add_counts [] d = d
add_counts ((k, n) ∷ m) d = add_counts m (add_count k n d)

unfoldable pub distribution :
    {K : Type 0} ⦃key : Key K⦄ → (TimeWindow → Dict K ℕ) → List TimeWindow → Dict K ℕ → Dict K ℕ
unfolding add_counts
distribution f [] d = d
distribution f (w ∷ ws) d = distribution f ws (add_counts (f w) d)

-- `none` if there is no window, where the code divides by zero
abbrev message_rate_of : List TimeWindow → Option ℕ
message_rate_of [] = none
message_rate_of (w ∷ ws) = some (sum_of (λ v. v.message_count) (w ∷ ws) / length (w ∷ ws))

abbrev summary_with : MetricsCollector → ℕ → ℕ → ℕ → ℕ → MetricsSummary
summary_with c p50 p95 p99 rate = record {
  p50_latency = p50;
  p95_latency = p95;
  p99_latency = p99;
  message_rate = rate;
  sequence_gaps = sum_of (λ w. w.sequence_gaps) c.time_windows;
  out_of_order_messages = sum_of (λ w. w.out_of_order_messages) c.time_windows;
  message_type_distribution = distribution (λ w. w.message_type_counts) c.time_windows [];
  symbol_distribution = distribution (λ w. w.symbol_counts) c.time_windows [];
  memory_used = c.memory_used;
  peak_memory_used = c.peak_memory_used;
  queue_size = c.queue_size;
  peak_queue_size = c.peak_queue_size;
}

abbrev summary_of :
    MetricsCollector → Option ℕ → Option ℕ → Option ℕ → Option ℕ → Option MetricsSummary
summary_of c (some p50) (some p95) (some p99) (some rate) = some (summary_with c p50 p95 p99 rate)
summary_of c (some p50) (some p95) (some p99) none = none
summary_of c (some p50) (some p95) none rate = none
summary_of c (some p50) none p99 rate = none
summary_of c none p95 p99 rate = none

-- `none` where a step is undefined
unfoldable pub get_metrics_summary : MetricsCollector → Option MetricsSummary
unfolding sort_latencies sum_of distribution
get_metrics_summary c =
    let sorted = sort_latencies c.latency_buffer in
    summary_of c (percentile 50 sorted) (percentile 95 sorted) (percentile 99 sorted)
      (message_rate_of c.time_windows)

length-insert_latency : (n : ℕ) (ms : List ℕ) → length (insert_latency n ms) ≡ suc (length ms)
unfolding insert_latency
length-insert_latency n [] = refl
length-insert_latency n (m ∷ ms) = ground (arith, length-insert_latency n ms)

length-sort_latencies : (ns : List ℕ) → length (sort_latencies ns) ≡ length ns
unfolding sort_latencies
length-sort_latencies [] = refl
length-sort_latencies (n ∷ ns) =
    length-insert_latency n (sort_latencies ns) ∙ ap suc (length-sort_latencies ns)

total-add_counts :
    {K : Type 0} ⦃key : Key K⦄ (m d : Dict K ℕ) → total (add_counts m d) ≡ total d + total m
unfolding add_counts total
total-add_counts [] d = omega arith
total-add_counts ((k, n) ∷ m) d =
    omega (arith, total-add_counts m (add_count k n d), total-add_count k n d)

total-distribution :
    {K : Type 0} ⦃key : Key K⦄ (f : TimeWindow → Dict K ℕ) (ws : List TimeWindow) (d : Dict K ℕ)
    → total (distribution f ws d) ≡ total d + sum_of (λ w. total (f w)) ws
unfolding distribution sum_of
total-distribution f [] d = omega arith
total-distribution f (w ∷ ws) d =
    omega (arith, total-distribution f ws (add_counts (f w) d), total-add_counts (f w) d)

sum_of_eq :
    (f g : TimeWindow → ℕ) (ws : List TimeWindow)
    → ((w : TimeWindow) → IsCounted w → f w ≡ g w)
    → All IsCounted ws
    → sum_of f ws ≡ sum_of g ws
unfolding sum_of
sum_of_eq f g [] e h = refl
sum_of_eq f g (w ∷ ws) e h = ap₂ (λ (a b : ℕ). a + b) (e w h.0) (sum_of_eq f g ws e h.1)

distribution-counted :
    {K : Type 0} ⦃key : Key K⦄ (f : TimeWindow → Dict K ℕ) (ws : List TimeWindow)
    → ((w : TimeWindow) → IsCounted w → total (f w) ≡ w.message_count)
    → All IsCounted ws
    → total (distribution f ws []) ≡ sum_of (λ w. w.message_count) ws
unfolding total
distribution-counted f ws e h =
    omega (
      arith,
      total-distribution f ws [],
      sum_of_eq (λ w. total (f w)) (λ w. w.message_count) ws e h,
    )

-- After any calls of a new collector other than those for latencies, the loop of the summary over the
-- windows makes two distributions, and the counters of either add up to the number of messages of
-- all windows.
pub distribution-record_events :
    (es : List (ℕ × Event))
    → let ws = (record_events es new_collector).time_windows in
      (total (distribution (λ w. w.message_type_counts) ws []) ≡ sum_of (λ w. w.message_count) ws)
      × (total (distribution (λ w. w.symbol_counts) ws []) ≡ sum_of (λ w. w.message_count) ws)
distribution-record_events es =
    let h = record_events-IsHealthy es in
    let ws = (record_events es new_collector).time_windows in
    (
      distribution-counted (λ w. w.message_type_counts) ws (λ w i. i.1.0) h.counted,
      distribution-counted (λ w. w.symbol_counts) ws (λ w i. i.1.1) h.counted,
    )

-- After any calls of a new collector other than those for latencies, the summary is undefined.
pub get_metrics_summary_undefined :
    (es : List (ℕ × Event)) → get_metrics_summary (record_events es new_collector) ≡ none
unfolding get_metrics_summary
get_metrics_summary_undefined es = let h = record_events-IsHealthy es in rw h.unsized refl
