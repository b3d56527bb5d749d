-- ===== src/Market/Processor/Tests.antt =====
-- A new processor, and the check of sequence numbers.
use studycpp.Prelude.{ℕ, ◌+◌, ◌≡◌, refl, ◌↔◌, true, none, some, [], ◌∷◌, arith}
use studycpp.Std.OrderedSet.{All}
use studycpp.Std.Text.{Text, codes}
use studycpp.Std.Text.Search.{position, starts_with, substr, stoull, skip_spaces, read_digits}
use studycpp.Market.Metrics.{trade, MetricsCollector, new_collector, new_window}
use studycpp.Market.Parser.{MarketDataMessage, type_of, symbol_of, sequence_of, parse}
use studycpp.Market.Processor.{
  thrown, undefined, on_message, check_sequence, new_processor, monitor,
}
use studycpp.Market.Processor.Order.{IsQuiet, follows, check_sequence-flags}
use studycpp.Market.Processor.Errors.{on_message_cases}

abbrev clock : ℕ → ℕ
clock k = 1000 + k

abbrev text : Text
text = codes "TRADE symbol=ABCD seq=9"

abbrev message : MarketDataMessage
message = record {
  symbol = codes "ABCD";
  type = trade;
  sequence_number = some 9;
  timestamp = 1000;
  raw_message = text;
}

parse-text : parse 1000 text ≡ some message
unfolding parse type_of symbol_of sequence_of position starts_with stoull skip_spaces read_digits
parse-text = refl

abbrev one_window : MetricsCollector
one_window = record new_collector { time_windows = new_window 0 ∷ [] }

check_sequence-flags_example :
    All IsQuiet (check_sequence 5 (some 7) 9 one_window).time_windows ↔ (follows (some 7) 9 ≡ true)
check_sequence-flags_example =
    check_sequence-flags 5 (some 7) 9 one_window (omega arith) ((refl, refl), tt)

on_message_cases_example :
    (position (codes "seq=") text ≡ none → on_message clock text new_processor ≡ undefined)
    × (((i : ℕ)
          → position (codes "seq=") text ≡ some i
          → (stoull (substr (i + 4) 10 text) ≡ none → on_message clock text new_processor ≡ thrown)
            × ((n : ℕ)
                → stoull (substr (i + 4) 10 text) ≡ some n
                → on_message clock text new_processor ≡ undefined))
        × (monitor clock new_processor ≡ none))
on_message_cases_example = on_message_cases clock text new_processor refl
