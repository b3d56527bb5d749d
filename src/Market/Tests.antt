-- ===== src/Market/Tests.antt =====
-- A few alerts, and runs of the alert manager on them.
use studycpp.Prelude.{ℕ, ◌+◌, ◌≡◌, refl, none, List, [], ◌∷◌, ◌++◌, map, arith, length}
use studycpp.Std.Text.{codes}
use studycpp.Market.Metrics.{type_eq, trade, quote, new_collector, record_latency}
use studycpp.Market.Metrics.Windows.{total}
use studycpp.Market.Metrics.Summary.{
  get_metrics_summary, sum_of, distribution, distribution-record_events,
  get_metrics_summary_undefined,
}
use studycpp.Std.Dict.{find, assign}
use studycpp.Std.Key.{list_eq}
use studycpp.Market.Metrics.Health.{
  Event, message, memory_usage, record_events, IsHealthy, record_events-IsHealthy,
  record_latency_undefined,
}
use studycpp.Market.Alerts.{
  warning, Alert, AlertManager, Levels, raise_alert, check_metrics, seconds,
}
use studycpp.Market.Alerts.Cooldown.{
  Call, accepted, raise_all, AreApart, raise_alert-counted, raise_all-AreApart, IsPart,
}
use studycpp.Market.Alerts.Check.{due, check_metrics-due}

abbrev slow_feed : Alert
slow_feed = record {
  message = codes "slow";
  level = warning;
  timestamp = 5;
  source = codes "feed";
  symbol = codes "ABC";
  additional_info = [];
}

abbrev no_alerts : AlertManager
no_alerts = record { alert_queue = []; active_alerts = 0; alert_cooldowns = []; logged = [] }

-- The second call is within the cooldown of the first one, the third is not.
abbrev three_calls : List Call
three_calls = (seconds 1, slow_feed) ∷ (seconds 30, slow_feed) ∷ (seconds 61, slow_feed) ∷ []

two_accepted :
    accepted no_alerts three_calls ≡ (seconds 1, slow_feed) ∷ (seconds 61, slow_feed) ∷ []
unfolding accepted raise_alert studycpp.Std.Dict.find studycpp.Std.Dict.assign
two_accepted = refl

raise_all-AreApart_example :
    (queued : List Call) × (((raise_all no_alerts three_calls).alert_queue
        ≡ [] ++ map (λ c. c.1) queued)
      × (IsPart queued three_calls × AreApart queued))
raise_all-AreApart_example =
    raise_all-AreApart no_alerts three_calls 0 (omega arith, (omega arith, (omega arith, tt)))

raise_alert-counted_example :
    let m = raise_alert no_alerts 7 slow_feed in
    (m.active_alerts ≡ length m.alert_queue) × (m.logged ≡ m.alert_queue)
raise_alert-counted_example = raise_alert-counted no_alerts 7 slow_feed refl refl

abbrev bad_levels : Levels
bad_levels = record {
  p95_latency = 200;
  p99_latency = 2000;
  message_rate = 1000;
  sequence_gaps = 11;
  queue_size = 0;
}

check_metrics-due_example :
    (check_metrics no_alerts 9 10 11 12 13 bad_levels).alert_queue ≡ [] ++ due 9 bad_levels
check_metrics-due_example = check_metrics-due no_alerts 9 10 11 12 13 bad_levels refl

-- Two messages in the first window, one in the second, and a level of the memory.
abbrev four_calls : List (ℕ × Event)
four_calls =
    (seconds 1, message trade (codes "ABC"))
    ∷ (seconds 1 + 5, message quote (codes "ABC"))
    ∷ (seconds 2, message trade (codes "XYZ"))
    ∷ (seconds 2, memory_usage 100)
    ∷ []

record_events-IsHealthy_example : IsHealthy (record_events four_calls new_collector)
record_events-IsHealthy_example = record_events-IsHealthy four_calls

record_latency_undefined_example :
    record_latency (seconds 3) 8 (record_events four_calls new_collector) ≡ none
record_latency_undefined_example = record_latency_undefined four_calls (seconds 3) 8

distribution-record_events_example :
    let ws = (record_events four_calls new_collector).time_windows in
    (total (distribution (λ w. w.message_type_counts) ws []) ≡ sum_of (λ w. w.message_count) ws)
    × (total (distribution (λ w. w.symbol_counts) ws []) ≡ sum_of (λ w. w.message_count) ws)
distribution-record_events_example = distribution-record_events four_calls

get_metrics_summary_undefined_example :
    get_metrics_summary (record_events four_calls new_collector) ≡ none
get_metrics_summary_undefined_example = get_metrics_summary_undefined four_calls
