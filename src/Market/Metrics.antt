-- ===== src/Market/Metrics.antt =====
-- `MetricsCollector`: the windows of one second, the ring of latencies, and the levels of the memory
-- and the queue. The deque of windows is a list, the oldest one first. Counters have no bound.
pub mod Windows
pub mod Health
pub mod Summary
use studycpp.Prelude.{
  ℕ, zero, suc, ◌+◌, ◌*◌, ◌/◌, ◌%◌, max, ◌≡◌, ap, refl, sym, ◌∙◌, Bool, true, false, Option, none,
  some, List, [], ◌∷◌, ◌++◌, leb, ltb, ◌==◌ as nat_beq, if◌then◌else◌, length, get_elem?, set,
}
use studycpp.Std.Key.{Key, nat_sound, nat_reflexive, list_eq}
use studycpp.Std.Dict.{Dict, find, assign}
use studycpp.Std.Text.{Text}

-- `MarketDataMessage::Type`, with the values that C++ gives to it
pub data MessageType : Type 0 where
  trade quote order_book system_status heartbeat : MessageType

abbrev pub type_code : MessageType → ℕ
type_code trade = 0
type_code quote = 1
type_code order_book = 2
type_code system_status = 3
type_code heartbeat = 4

abbrev of_code : ℕ → MessageType
of_code zero = trade
of_code (suc zero) = quote
of_code (suc (suc zero)) = order_book
of_code (suc (suc (suc zero))) = system_status
of_code (suc (suc (suc (suc n)))) = heartbeat

of_code-type_code : (t : MessageType) → of_code (type_code t) ≡ t
of_code-type_code trade = refl
of_code-type_code quote = refl
of_code-type_code order_book = refl
of_code-type_code system_status = refl
of_code-type_code heartbeat = refl

pub type_sound : (s t : MessageType) → nat_beq (type_code s) (type_code t) ≡ true → s ≡ t
type_sound s t h =
    sym (of_code-type_code s)
    ∙ ap of_code (nat_sound (type_code s) (type_code t) h)
    ∙ of_code-type_code t

instance abbrev pub type_eq : Key MessageType
type_eq = record {
  equals = λ s t. nat_beq (type_code s) (type_code t);
  sound = type_sound;
  reflexive = λ t. nat_reflexive (type_code t);
}

-- A counter of a map, which starts at 0.
abbrev pub count_of : Option ℕ → ℕ
count_of none = 0
count_of (some n) = n

-- `m[k] += n`
unfoldable pub add_count : {K : Type 0} ⦃key : Key K⦄ → K → ℕ → Dict K ℕ → Dict K ℕ
add_count k n m = assign k (count_of (find k m) + n) m

pub record TimeWindow : Type 0 where
  pub start_time : ℕ
  pub end_time : ℕ
  pub latencies : List ℕ
  pub message_count : ℕ
  pub message_type_counts : Dict MessageType ℕ
  pub symbol_counts : Dict Text ℕ
  pub sequence_gaps : ℕ
  pub out_of_order_messages : ℕ

pub record MetricsCollector : Type 0 where
  pub time_windows : List TimeWindow
  pub latency_buffer : List ℕ
  pub latency_buffer_pos : ℕ
  pub memory_used : ℕ
  pub peak_memory_used : ℕ
  pub queue_size : ℕ
  pub peak_queue_size : ℕ

abbrev pub max_windows : ℕ
max_windows = 60

abbrev pub latency_buffer_size : ℕ
latency_buffer_size = 10000

-- one second in nanoseconds
abbrev pub window_size : ℕ
window_size = 1_000_000_000

-- Nothing gives the ring of latencies a size: it is empty.
abbrev pub new_collector : MetricsCollector
new_collector = record {
  time_windows = [];
  latency_buffer = [];
  latency_buffer_pos = 0;
  memory_used = 0;
  peak_memory_used = 0;
  queue_size = 0;
  peak_queue_size = 0;
}

abbrev pub new_window : ℕ → TimeWindow
new_window now = record {
  start_time = now;
  end_time = now + window_size;
  latencies = [];
  message_count = 0;
  message_type_counts = [];
  symbol_counts = [];
  sequence_gaps = 0;
  out_of_order_messages = 0;
}

-- the loop that drops the oldest windows
unfoldable pub trim : List TimeWindow → List TimeWindow
trim [] = []
trim (w ∷ ws) = let rest = trim ws in if leb max_windows (length (w ∷ ws)) then rest else w ∷ ws

-- no window, or the last one has run for its time
unfoldable pub needs_window : ℕ → List TimeWindow → Bool
needs_window now [] = true
needs_window now (w ∷ []) = leb (w.start_time + window_size) now
needs_window now (w ∷ v ∷ ws) = needs_window now (v ∷ ws)

-- The windows, of which the last one is the current one.
unfoldable pub get_current_window : ℕ → List TimeWindow → List TimeWindow
unfolding trim needs_window
get_current_window now ws = if needs_window now ws then trim ws ++ (new_window now ∷ []) else ws

-- A change of the last window.
unfoldable pub update_back : (TimeWindow → TimeWindow) → List TimeWindow → List TimeWindow
update_back f [] = []
update_back f (w ∷ []) = f w ∷ []
update_back f (w ∷ v ∷ ws) = w ∷ update_back f (v ∷ ws)

abbrev pub in_window : ℕ → (TimeWindow → TimeWindow) → MetricsCollector → MetricsCollector
in_window now f c = record c {
  time_windows = update_back f (get_current_window now c.time_windows);
}

-- `none` if the write to the ring is out of its bounds, which is undefined
unfoldable pub record_latency : ℕ → ℕ → MetricsCollector → Option MetricsCollector
record_latency now latency c =
    if ltb c.latency_buffer_pos (length c.latency_buffer)
    then some (
        in_window now (λ w. record w { latencies = w.latencies ++ (latency ∷ []) })
          (record c {
            latency_buffer = set c.latency_buffer c.latency_buffer_pos latency;
            latency_buffer_pos = (c.latency_buffer_pos + 1) % latency_buffer_size;
          }))
    else none

abbrev pub count_message : MessageType → Text → TimeWindow → TimeWindow
count_message type symbol w = record w {
  message_count = w.message_count + 1;
  message_type_counts = add_count type 1 w.message_type_counts;
  symbol_counts = add_count symbol 1 w.symbol_counts;
}

unfoldable pub record_message : ℕ → MessageType → Text → MetricsCollector → MetricsCollector
record_message now type symbol c = in_window now (count_message type symbol) c

unfoldable pub record_sequence_gap : ℕ → MetricsCollector → MetricsCollector
record_sequence_gap now c = in_window now (λ w. record w { sequence_gaps = w.sequence_gaps + 1 }) c

unfoldable pub record_out_of_order_message : ℕ → MetricsCollector → MetricsCollector
record_out_of_order_message now c =
    in_window now (λ w. record w { out_of_order_messages = w.out_of_order_messages + 1 }) c

unfoldable pub record_memory_usage : ℕ → MetricsCollector → MetricsCollector
record_memory_usage bytes c = record c {
  memory_used = bytes;
  peak_memory_used = max c.peak_memory_used bytes;
}

unfoldable pub record_queue_size : ℕ → MetricsCollector → MetricsCollector
record_queue_size size c = record c {
  queue_size = size;
  peak_queue_size = max c.peak_queue_size size;
}
