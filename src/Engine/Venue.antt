-- ===== src/Engine/Venue.antt =====
-- `MatchingEngine`: a book for each symbol, and the ids of the orders.
pub mod Ids
pub mod Ready
pub mod Cancel
use mathlib.Core.Option
use studycpp.Prelude.{
  ℕ, zero, suc, ◌+◌, ◌-◌, ◌*◌, ◌/◌, ◌%◌, ◌^◌, ◌≤◌, ◌<◌, min, max, bit_and, bit_or, ◌≡◌, refl, sym,
  ap, ap₂, subst, ◌∙◌, ◌≢◌, ◌↔◌, ◌⊎◌, inl, inr, Bool, true, false, not, ◌&&◌, ◌||◌, Option, none,
  some, List, [], ◌∷◌, ◌++◌, map, append_assoc, append-nil, arith, dec_lt, ℕ_discrete, ltb, leb,
  ◌==◌, if◌then◌else◌, ltb→lt, lt→ltb, leb→le, ==_iff, Bool-cases, Option-cases, length, get_elem?,
  set, length-append, length-set, get_elem?-set_self, get_elem?-set_ne, get_or, take, drop,
  replicate, take-append-drop, length-take, length-drop, length-replicate, length-map,
}
use studycpp.Prelude.Int.{ℤ, int_max}
use studycpp.Prelude.Do.{◌>>=◌}
use studycpp.Std.Key.{list_eq}
use studycpp.Std.Dict.{Dict, find, assign}
use studycpp.Std.Text.{Text, codes, to_string}
use studycpp.Engine.Float.{Float}
use studycpp.Engine.Order.{Side, buy, sell, Order, Trade}
use studycpp.Engine.Book.{
  OrderBook, empty_book, remove_order, match_order, get_best_bid, get_best_ask, get_spread,
}

pub record MatchingEngine (P : Type 0) : Type 0 where
  pub order_books : Dict Text (OrderBook P)
  -- whether a notifier is set
  pub trade_notifier : Bool
  pub next_order_id : ℕ

pub record MarketData (P : Type 0) : Type 0 where
  pub best_bid : P
  pub best_ask : P
  pub spread : P

-- The id that the counter's value gives.
unfoldable pub order_id : ℕ → Text
order_id n = codes "order-" ++ to_string n

module _ {P : Type 0} where
  unfoldable pub initial : MatchingEngine P
  initial = record { order_books = []; trade_notifier = false; next_order_id = 1 }

  -- `set`: whether the function given is not empty.
  unfoldable pub set_trade_notifier : Bool → MatchingEngine P → MatchingEngine P
  set_trade_notifier set e = record e { trade_notifier = set }

  -- The counter is an `int`, and an increment that overflows has no result.
  unfoldable pub generate_order_id : MatchingEngine P → Option (Text × MatchingEngine P)
  generate_order_id e =
      if ltb e.next_order_id int_max
      then some (order_id e.next_order_id, record e { next_order_id = e.next_order_id + 1 })
      else none

  -- The book of the symbol, and the engine that has it.
  unfoldable pub get_order_book : MatchingEngine P → Text → OrderBook P × MatchingEngine P
  get_order_book e symbol = elim (find symbol e.order_books) [
    | some b ↦ (b, e)
    | none ↦
        let b : OrderBook P = empty_book symbol in
        (b, record e { order_books = e.order_books ++ ((symbol, b) ∷ []) })
  ]

module _ {P : Type 0} ⦃f : Float P⦄ where
  -- The new engine, the order's id and the trades that the notifier was told.
  unfoldable pub place_order :
      MatchingEngine P → Text → P → ℤ → Bool → Option (MatchingEngine P × Text × List (Trade P))
  unfolding get_order_book
  place_order e symbol price size is_buy = do
    (id, e₁) ← generate_order_id e
    let o : Order P = record {
      info = record {
        id = id;
        symbol = symbol;
        price = price;
        side = if is_buy then buy else sell;
      };
      remaining_size = size;
    }
    let (b, e₂) = get_order_book e₁ symbol
    r ← match_order e₂.trade_notifier b o
    some (record e₂ { order_books = assign symbol r.0 e₂.order_books }, id, r.1)

  -- The loop over the books: the first that has the order.
  unfoldable pub remove_from_books : Dict Text (OrderBook P) → Text → Bool × Dict Text (OrderBook P)
  remove_from_books [] id = (false, [])
  remove_from_books ((symbol, b) ∷ bs) id =
      let (found, b') = remove_order b id in
      let (found', bs') = remove_from_books bs id in
      if found then (true, (symbol, b') ∷ bs) else (found', (symbol, b) ∷ bs')

  unfoldable pub cancel_order : MatchingEngine P → Text → Bool × MatchingEngine P
  unfolding remove_from_books
  cancel_order e id =
      let (found, books) = remove_from_books e.order_books id in
      (found, record e { order_books = books })

  unfoldable pub get_market_data : MatchingEngine P → Text → MarketData P × MatchingEngine P
  unfolding get_order_book
  get_market_data e symbol =
      let (b, e') = get_order_book e symbol in
      (record { best_bid = get_best_bid b; best_ask = get_best_ask b; spread = get_spread b }, e')
