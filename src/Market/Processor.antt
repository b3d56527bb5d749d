-- ===== src/Market/Processor.antt =====
-- `MarketDataProcessor`. The readings of the clock in a call are numbered from 0.
pub mod Order
pub mod Errors
mod Tests
use Prim.Native.String.{String}
use studycpp.Prelude.{
  [], ℕ, ◌+◌, ◌-◌, ◌/◌, ◌%◌, ◌^◌, Bool, true, false, Option, none, some, List, ◌∷◌, ◌++◌, ltb, leb,
  if◌then◌else◌, length,
}
use studycpp.Prelude.Do.{◌>>=◌}
use studycpp.Std.Key.{list_eq}
use studycpp.Std.Dict.{Dict, find, assign}
use studycpp.Std.Text.{Text, codes, to_string}
use studycpp.Market.Alerts.{
  AlertLevel, info, Alert, AlertManager, Levels, raise_alert, check_metrics,
}
use studycpp.Market.Metrics.{
  MessageType, trade, quote, order_book, system_status, heartbeat, MetricsCollector, new_collector,
  record_latency, record_message, record_sequence_gap, record_out_of_order_message,
  record_queue_size,
}
use studycpp.Market.Metrics.Summary.{MetricsSummary, get_metrics_summary}
use studycpp.Market.Parser.{MarketDataMessage, parse}

pub record MarketDataProcessor : Type 0 where
  pub metrics : MetricsCollector
  pub alerts : AlertManager
  pub running : Bool
  pub monitoring_thread : Bool  -- whether the thread can be joined
  pub message_queue : List MarketDataMessage
  pub last_sequence_numbers : Dict Text ℕ

-- How a call ends: an exception leaves everything as it was, since only the parser throws.
pub data Outcome : Type 0 where
  returned : MarketDataProcessor → Outcome
  thrown undefined : Outcome

abbrev pub defined : Option MarketDataProcessor → Outcome
defined none = undefined
defined (some p) = returned p

abbrev pub word : ℕ
word = 2 ^ 64

-- the microseconds from one reading of the clock to a later one, as `uint64_t`
abbrev pub micros : ℕ → ℕ → ℕ
micros from till =
    if leb from till then (till - from) / 1000 else (word - (from - till) / 1000) % word

-- The check of a sequence number against the last one of its symbol.
unfoldable pub check_sequence : ℕ → Option ℕ → ℕ → MetricsCollector → MetricsCollector
check_sequence now none number m = m
check_sequence now (some last) number m =
    if leb number last
    then record_out_of_order_message now m
    else if ltb ((last + 1) % word) number
    then record_sequence_gap now m
    else m

abbrev pub alert_text : MessageType → String
alert_text trade = "New trade processed"
alert_text quote = "Quote processed"
alert_text order_book = "Order book update processed"
alert_text system_status = "System status update received"
alert_text heartbeat = "Heartbeat received"

abbrev pub alert_source : MessageType → String
alert_source trade = "TradeProcessor"
alert_source quote = "QuoteProcessor"
alert_source order_book = "OrderBookProcessor"
alert_source system_status = "SystemStatusProcessor"
alert_source heartbeat = "HeartbeatProcessor"

-- `processTrade`, `processQuote`, `processOrderBook`, `processSystemStatus`, `processHeartbeat`
abbrev pub process : MessageType → ℕ → ℕ → Text → ℕ → AlertManager → AlertManager
process type made raised symbol number alerts = raise_alert alerts raised (record {
  message = codes (alert_text type);
  level = info;
  timestamp = made;
  source = codes (alert_source type);
  symbol = symbol;
  additional_info = (codes "sequence", to_string number) ∷ [];
})

-- The loop over the queue. The reading number `k` is the next one. `none` if the number of a message
-- is indeterminate.
unfoldable pub process_queue :
    (ℕ → ℕ) → ℕ → List MarketDataMessage → MarketDataProcessor → Option MarketDataProcessor
process_queue clock k [] p = some (record p { message_queue = [] })
process_queue clock k (msg ∷ queue) p = msg.sequence_number >>= λ number.
    process_queue clock (k + 2) queue (record p {
      alerts = process msg.type (clock k) (clock (k + 1)) msg.symbol number p.alerts;
      metrics = record_queue_size (length queue) p.metrics;
    })

unfoldable pub process_next_message : (ℕ → ℕ) → ℕ → MarketDataProcessor → Option MarketDataProcessor
unfolding process_queue
process_next_message clock k p = process_queue clock k p.message_queue p

-- `onMessage` after the parser; `none` if it is undefined
unfoldable pub handle :
    (ℕ → ℕ) → MarketDataMessage → MarketDataProcessor → Option MarketDataProcessor
unfolding check_sequence process_next_message
handle clock msg p = record_latency (clock 2) (micros msg.timestamp (clock 1)) p.metrics >>= λ m₁.
    msg.sequence_number >>= λ number.
    let m₂ = record_message (clock 3) msg.type msg.symbol m₁ in
    let m₃ = check_sequence (clock 4) (find msg.symbol p.last_sequence_numbers) number m₂ in
    let queue = p.message_queue ++ (msg ∷ []) in
    process_next_message clock 5 (record p {
      metrics = record_queue_size (length queue) m₃;
      last_sequence_numbers = assign msg.symbol number p.last_sequence_numbers;
      message_queue = queue;
    })

unfoldable pub on_message : (ℕ → ℕ) → Text → MarketDataProcessor → Outcome
unfolding handle
on_message clock raw p = elim (parse (clock 0) raw) [
  | none ↦ thrown
  | some msg ↦ defined (handle clock msg p)
]

abbrev pub levels_of : MetricsSummary → Levels
levels_of s = record {
  p95_latency = s.p95_latency;
  p99_latency = s.p99_latency;
  message_rate = s.message_rate;
  sequence_gaps = s.sequence_gaps;
  queue_size = s.queue_size;
}

-- A round of the monitoring thread; `none` if the summary is undefined.
unfoldable pub monitor : (ℕ → ℕ) → MarketDataProcessor → Option MarketDataProcessor
unfolding get_metrics_summary check_metrics
monitor clock p = get_metrics_summary p.metrics >>= λ s. some (record p {
  alerts = check_metrics p.alerts (clock 0) (clock 1) (clock 2) (clock 3) (clock 4) (levels_of s);
})

-- The constructor, which starts the monitoring thread.
abbrev pub new_processor : MarketDataProcessor
new_processor = record {
  metrics = new_collector;
  alerts = record { alert_queue = []; active_alerts = 0; alert_cooldowns = []; logged = [] };
  running = true;
  monitoring_thread = true;
  message_queue = [];
  last_sequence_numbers = [];
}

-- `stop`, once the thread has come to its end
unfoldable pub stop : MarketDataProcessor → MarketDataProcessor
stop p = record p { running = false; monitoring_thread = false }
