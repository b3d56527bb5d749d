-- ===== src/Market/Parser.antt =====
-- `MarketDataMessage` and `MessageParser`.
use Prim.Native.String.{String}
use studycpp.Prelude.{ℕ, ◌+◌, Bool, true, false, Option, none, some, [], if◌then◌else◌}
use studycpp.Std.Text.{Text, codes}
use studycpp.Std.Text.Search.{position, substr, stoull}
use studycpp.Market.Metrics.{MessageType, trade, quote, order_book, system_status, heartbeat}

-- A sequence number that was never set is `none`: it is indeterminate.
pub record MarketDataMessage : Type 0 where
  pub symbol : Text
  pub type : MessageType
  pub sequence_number : Option ℕ
  pub timestamp : ℕ
  pub raw_message : Text

abbrev pub mentions : String → Text → Bool
mentions word raw = elim (position (codes word) raw) [ none ↦ false | some i ↦ true ]

unfoldable pub type_of : Text → MessageType
unfolding position
type_of raw =
    if mentions "TRADE" raw
    then trade
    else if mentions "QUOTE" raw
    then quote
    else if mentions "BOOK" raw
    then order_book
    else if mentions "STATUS" raw
    then system_status
    else heartbeat

unfoldable pub symbol_of : Text → Text
unfolding position
symbol_of raw = elim (position (codes "symbol=") raw) [ none ↦ [] | some i ↦ substr (i + 7) 4 raw ]

-- The outer `none` is an exception of `stoull`.
unfoldable pub sequence_of : Text → Option (Option ℕ)
unfolding position stoull
sequence_of raw = elim (position (codes "seq=") raw) [
  | none ↦ some none
  | some i ↦ elim (stoull (substr (i + 4) 10 raw)) [ none ↦ none | some n ↦ some (some n) ]
]

-- `parse` at a reading of the clock; `none` if it throws
unfoldable pub parse : ℕ → Text → Option MarketDataMessage
unfolding type_of symbol_of sequence_of
parse now raw = elim (sequence_of raw) [
  | none ↦ none
  | some n ↦ some (record {
    symbol = symbol_of raw;
    type = type_of raw;
    sequence_number = n;
    timestamp = now;
    raw_message = raw;
  })
]
