-- ===== src/Market/Alerts.antt =====
-- `AlertManager`: the queue of alerts, the cooldown of each kind of alert, and the thresholds.
pub mod Cooldown
pub mod Check
use Prim.Native.String.{String}
use studycpp.Prelude.{
  ℕ, ◌+◌, ◌*◌, Bool, false, Option, none, some, List, [], ◌∷◌, ◌++◌, ltb, if◌then◌else◌,
}
use studycpp.Std.Key.{list_eq}
use studycpp.Std.Dict.{Dict, find, assign}
use studycpp.Std.Text.{Text, codes, to_string}

pub data AlertLevel : Type 0 where
  info warning critical : AlertLevel

pub record Alert : Type 0 where
  pub message : Text
  pub level : AlertLevel
  pub timestamp : ℕ
  pub source : Text
  pub symbol : Text
  pub additional_info : Dict Text Text

pub record AlertManager : Type 0 where
  pub alert_queue : List Alert
  pub active_alerts : ℕ
  pub alert_cooldowns : Dict Text ℕ
  -- the alerts that were written to the log, the last one at the end
  pub logged : List Alert

abbrev pub seconds : ℕ → ℕ
seconds n = n * 1_000_000_000

abbrev pub cooldown_period : ℕ
cooldown_period = seconds 60

-- `thresholds_`: nothing reads the largest message rate and the out-of-order messages.
pub record Thresholds : Type 0 where
  pub latency_warning_micros : ℕ
  pub latency_critical_micros : ℕ
  pub min_message_rate : ℕ
  pub max_message_rate : ℕ
  pub max_queue_size : ℕ
  pub max_sequence_gaps : ℕ
  pub max_out_of_order : ℕ

abbrev pub thresholds : Thresholds
thresholds = record {
  latency_warning_micros = 100;
  latency_critical_micros = 1000;
  min_message_rate = 1000;
  max_message_rate = 100000;
  max_queue_size = 10000;
  max_sequence_gaps = 10;
  max_out_of_order = 100;
}

abbrev pub cooldown_key : Alert → Text
cooldown_key a = a.source ++ a.message

-- `now - it->second < COOLDOWN_PERIOD`, for an entry of the map
abbrev pub in_cooldown : ℕ → Option ℕ → Bool
in_cooldown now none = false
in_cooldown now (some last) = ltb now (last + cooldown_period)

unfoldable pub raise_alert : AlertManager → ℕ → Alert → AlertManager
raise_alert m now alert =
    if in_cooldown now (find (cooldown_key alert) m.alert_cooldowns) then m else record {
      alert_queue = m.alert_queue ++ (alert ∷ []);
      active_alerts = m.active_alerts + 1;
      alert_cooldowns = assign (cooldown_key alert) now m.alert_cooldowns;
      logged = m.logged ++ (alert ∷ []);
    }

-- What `checkMetrics` reads of a summary. The percentiles are `double`s that were assigned from
-- integers: they are whole numbers here.
pub record Levels : Type 0 where
  pub p95_latency : ℕ
  pub p99_latency : ℕ
  pub message_rate : ℕ
  pub sequence_gaps : ℕ
  pub queue_size : ℕ

-- `std::to_string` of a `double` that holds the whole number `n`, below 2^53
abbrev pub double_to_string : ℕ → Text
double_to_string n = to_string n ++ codes ".000000"

-- An alert of one of the monitors, made at the time `now`.
abbrev pub monitor_alert : String → AlertLevel → ℕ → String → String → Text → Alert
monitor_alert message level now source name value = record {
  message = codes message;
  level = level;
  timestamp = now;
  source = codes source;
  symbol = [];
  additional_info = (codes name, value) ∷ [];
}

abbrev pub critical_latency : ℕ → Levels → Alert
critical_latency now l =
    monitor_alert "Critical latency threshold exceeded" critical now "LatencyMonitor" "p99_latency"
      (double_to_string l.p99_latency)

abbrev pub warning_latency : ℕ → Levels → Alert
warning_latency now l =
    monitor_alert "Warning latency threshold exceeded" warning now "LatencyMonitor" "p95_latency"
      (double_to_string l.p95_latency)

abbrev pub low_rate : ℕ → Levels → Alert
low_rate now l =
    monitor_alert "Message rate below minimum threshold" warning now "MessageRateMonitor" "rate"
      (to_string l.message_rate)

abbrev pub many_gaps : ℕ → Levels → Alert
many_gaps now l =
    monitor_alert "Excessive sequence gaps detected" critical now "SequenceMonitor" "gaps"
      (to_string l.sequence_gaps)

abbrev pub long_queue : ℕ → Levels → Alert
long_queue now l =
    monitor_alert "Processing queue size exceeded threshold" warning now "QueueMonitor" "size"
      (to_string l.queue_size)

-- `now` is read first, and each of the four alerts may be raised at a time of its own.
unfoldable pub check_metrics : AlertManager → ℕ → ℕ → ℕ → ℕ → ℕ → Levels → AlertManager
check_metrics m now t₁ t₂ t₃ t₄ l =
    let m₁ =
      if ltb thresholds.latency_critical_micros l.p99_latency
      then raise_alert m t₁ (critical_latency now l)
      else if ltb thresholds.latency_warning_micros l.p95_latency
      then raise_alert m t₁ (warning_latency now l)
      else m in
    let m₂ =
      if ltb l.message_rate thresholds.min_message_rate
      then raise_alert m₁ t₂ (low_rate now l)
      else m₁ in
    let m₃ =
      if ltb thresholds.max_sequence_gaps l.sequence_gaps
      then raise_alert m₂ t₃ (many_gaps now l)
      else m₂ in
    if ltb thresholds.max_queue_size l.queue_size then raise_alert m₃ t₄ (long_queue now l) else m₃
