-- ===== src/Market/Processor/Errors.antt =====
-- How a call of `onMessage` ends on any text, and a round of the monitoring thread.
use studycpp.Prelude.{ℕ, ◌+◌, ◌≡◌, refl, Option, none, some, [], arith}
use studycpp.Prelude.Do.{>>=-none}
use studycpp.Std.Text.{Text, codes}
use studycpp.Std.Text.Search.{position, substr, stoull}
use studycpp.Market.Parser.{MarketDataMessage, type_of, symbol_of, sequence_of, parse}
use studycpp.Market.Processor.{
  MarketDataProcessor, thrown, undefined, micros, handle, on_message, monitor,
}
use studycpp.Market.Metrics.{record_latency}
use studycpp.Market.Metrics.Summary.{get_metrics_summary, sort_latencies}

abbrev parsed : ℕ → Text → Option ℕ → MarketDataMessage
parsed now raw n = record {
  symbol = symbol_of raw;
  type = type_of raw;
  sequence_number = n;
  timestamp = now;
  raw_message = raw;
}

parse_lem :
    (now : ℕ) (raw : Text) (n : Option ℕ)
    → sequence_of raw ≡ some n
    → parse now raw ≡ some (parsed now raw n)
unfolding parse
parse_lem now raw n e = rw (parse, e) refl

parse_thrown : (now : ℕ) (raw : Text) → sequence_of raw ≡ none → parse now raw ≡ none
unfolding parse
parse_thrown now raw e = rw (parse, e) refl

-- no slot of the ring of latencies
abbrev pub IsUnsized : MarketDataProcessor → Type 0
IsUnsized p = p.metrics.latency_buffer ≡ []

record_latency-IsUnsized :
    (now latency : ℕ) (p : MarketDataProcessor)
    → IsUnsized p
    → record_latency now latency p.metrics ≡ none
unfolding record_latency
record_latency-IsUnsized now latency p u = rw u (ground arith)

handle_undefined :
    (clock : ℕ → ℕ) (msg : MarketDataMessage) (p : MarketDataProcessor)
    → IsUnsized p
    → handle clock msg p ≡ none
unfolding handle record_latency
handle_undefined clock msg p u =
    >>=-none _ (record_latency-IsUnsized (clock 2) (micros msg.timestamp (clock 1)) p u)

sequence_of-none : (raw : Text) → position (codes "seq=") raw ≡ none → sequence_of raw ≡ some none
unfolding sequence_of
sequence_of-none raw e = rw (sequence_of, e) refl

sequence_of-some :
    (raw : Text) (i : ℕ) (o : Option ℕ)
    → position (codes "seq=") raw ≡ some i
    → stoull (substr (i + 4) 10 raw) ≡ o
    → sequence_of raw ≡ elim o [ none ↦ none | some n ↦ some (some n) ]
unfolding sequence_of
sequence_of-some raw i o e f = rw (sequence_of, e, f) refl

no_summary : (p : MarketDataProcessor) → IsUnsized p → get_metrics_summary p.metrics ≡ none
unfolding get_metrics_summary sort_latencies
no_summary p u = rw u refl

-- The ring of latencies of a processor has no slots, as the constructor leaves it, and a text comes.
-- Without a `seq=` in the text the call is undefined. With one, what the ten characters after the
-- first one give decides: if `stoull` refuses them the call throws, and else it is undefined. So it never
-- returns. A round of the monitoring thread is undefined too.
pub on_message_cases :
    (clock : ℕ → ℕ) (raw : Text) (p : MarketDataProcessor)
    → IsUnsized p
    → (position (codes "seq=") raw ≡ none → on_message clock raw p ≡ undefined)
      × (((i : ℕ)
            → position (codes "seq=") raw ≡ some i
            → (stoull (substr (i + 4) 10 raw) ≡ none → on_message clock raw p ≡ thrown)
              × ((n : ℕ)
                  → stoull (substr (i + 4) 10 raw) ≡ some n
                  → on_message clock raw p ≡ undefined))
          × (monitor clock p ≡ none))
unfolding on_message monitor
on_message_cases clock raw p u = (
  λ e.
      rw
        (
          on_message,
          parse_lem (clock 0) raw none (sequence_of-none raw e),
          handle_undefined clock (parsed (clock 0) raw none) p u,
        )
        refl,
  (
    λ i e. (
      λ f. rw (on_message, parse_thrown (clock 0) raw (sequence_of-some raw i none e f)) refl,
      λ n f.
          rw
            (
              on_message,
              parse_lem (clock 0) raw (some n) (sequence_of-some raw i (some n) e f),
              handle_undefined clock (parsed (clock 0) raw (some n)) p u,
            )
            refl,
    ),
    >>=-none _ (no_summary p u),
  ),
)
