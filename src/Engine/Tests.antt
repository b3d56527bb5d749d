-- ===== src/Engine/Tests.antt =====
-- Whole numbers of ticks as prices, a few orders, and runs of the engine on them.
use Prim.Native.String.{String}
use studycpp.Prelude.{
  ℕ, ◌-◌, ◌<◌, ◌≡◌, refl, sym, subst, ◌≢◌, ◌⊎◌, inl, inr, true, false, not, some, List, [], ◌∷◌,
  arith, ltb, ◌==◌ as tick_eq, Bool-cases,
}
use studycpp.Prelude.Int.{ℤ, pos, negsuc, ◌-ℤ◌}
use studycpp.Std.Key.{list_eq, eq_of_beq, ◌==◌}
use studycpp.Std.Dict.{find, assign}
use studycpp.Std.Dict
use studycpp.Std.OrderedSet
use studycpp.Std.OrderedSet.{All}
use studycpp.Std.Text.{Text, codes, to_string}
use studycpp.Engine.Float.{Float, lt}
use studycpp.Engine.Order.{Side, buy, sell, Info, Order, Trade, before, reduce_size}
use studycpp.Engine.Book.{
  OrderBook, empty_book, with_resting, trade_of, add_order, remove_order, match_order, match_step,
  match_loop, get_best_bid, get_best_ask, get_spread,
}
use studycpp.Engine.Invariant.{IsValid, empty_book-IsValid}
use studycpp.Engine.Invariant.Add.{add_order-IsValid}
use studycpp.Engine.Invariant.Remove.{Removed, remove_order-Removed}
use studycpp.Engine.Quotes.{quotes_lem}
use studycpp.Engine.Matching.Result.{Matched, match_order-Matched}
use studycpp.Engine.Matching.Negative.{match_order_negative}
use studycpp.Engine.Venue.{MatchingEngine, initial, order_id, place_order, cancel_order}
use studycpp.Engine.Venue.Ids.{order_id-injective, later_first}
use studycpp.Engine.Venue.Ready.{IsReady, Placed, place_order-Placed}
use studycpp.Engine.Venue.Cancel.{any_book, Gone, cancel_order-Gone}

tick_lt_trans : (a b c : ℕ) → ltb a b ≡ true → ltb b c ≡ true → ltb a c ≡ true
tick_lt_trans a b c h k = ground arith

tick_total : (a b : ℕ) → not (tick_eq a b) ≡ true → (ltb a b ≡ true) ⊎ (ltb b a ≡ true)
tick_total a b h = ground arith

tick_lt-ne : (a b : ℕ) → ltb a b ≡ true → not (tick_eq a b) ≡ true
tick_lt-ne a b h = ground arith

tick_congr_left : (a b c : ℕ) → not (tick_eq a b) ≡ false → ltb a c ≡ ltb b c
tick_congr_left a b c h = ground arith

tick_congr_right : (a b c : ℕ) → not (tick_eq a b) ≡ false → ltb c a ≡ ltb c b
tick_congr_right a b c h = ground arith

tick_irrefl : (a : ℕ) → ltb a a ≡ false
tick_irrefl a = ground arith

tick_symm : (a b : ℕ) → not (tick_eq a b) ≡ not (tick_eq b a)
tick_symm a b = ground arith

instance abbrev ticks : Float ℕ
ticks = record {
  lt = ltb;
  ne = λ a b. not (tick_eq a b);
  sub = λ a b. a - b;
  zero = 0;
  max_value = 1_000_000;
  lt_irrefl = tick_irrefl;
  lt_trans = tick_lt_trans;
  ne_total = tick_total;
  lt-ne = tick_lt-ne;
  ne_symm = tick_symm;
  lt_congr_left = tick_congr_left;
  lt_congr_right = tick_congr_right;
}

abbrev aapl : Text
aapl = codes "AAPL"

abbrev order : String → ℕ → ℤ → Side → Order ℕ
order id price size side = record {
  info = record { id = codes id; symbol = aapl; price = price; side = side };
  remaining_size = size;
}

abbrev bid : Order ℕ
bid = order "order-1" 150 (pos 100) buy

abbrev ask : Order ℕ
ask = order "order-2" 149 (pos 130) sell

-- A book with the one bid.
abbrev book : OrderBook ℕ
book = record {
  symbol = aapl;
  orders = (codes "order-1", bid.info) ∷ [];
  buy_orders = bid ∷ [];
  sell_orders = [];
}

book-add_order : add_order (empty_book aapl) bid ≡ book
unfolding add_order OrderedSet.insert assign
book-add_order = refl

book-IsValid : IsValid book
unfolding find
book-IsValid =
    subst IsValid book-add_order
      (add_order-IsValid (empty_book aapl) bid (empty_book-IsValid aapl) refl (omega arith) tt)

-- The bid is filled, and 30 of the ask stay.
match_order_run :
    match_order true book ask
    ≡ some (
      record {
        symbol = aapl;
        orders = (codes "order-2", ask.info) ∷ [];
        buy_orders = [];
        sell_orders = record ask { remaining_size = pos 30 } ∷ [];
      },
      record {
        symbol = aapl;
        price = 150;
        size = pos 100;
        buy_order_id = codes "order-1";
        sell_order_id = codes "order-2";
      }
          ∷ [],
    )
unfolding match_order match_loop match_step reduce_size add_order OrderedSet.insert assign
    Dict.erase ◌-ℤ◌
match_order_run = refl

match_order-Matched_example :
    (r : OrderBook ℕ × List (Trade ℕ)) × (match_order true book ask ≡ some r)
    × Matched true book ask r
unfolding find
match_order-Matched_example = match_order-Matched true book ask book-IsValid (omega arith) refl

remove_order-Removed_example :
    Removed book book-IsValid (codes "order-1") (remove_order book (codes "order-1"))
remove_order-Removed_example = remove_order-Removed book book-IsValid (codes "order-1")

quotes_lem_example :
    All (λ o. lt (get_best_bid book) o.price ≡ false) book.buy_orders
    × All (λ o. lt o.price (get_best_ask book) ≡ false) book.sell_orders
    × (book.buy_orders ≢ []
        → book.sell_orders ≢ []
        → (lt (get_best_bid book) (get_best_ask book) ≡ true)
          × (get_spread book ≡ get_best_ask book - get_best_bid book))
quotes_lem_example = quotes_lem book book-IsValid

place_order-Placed_example :
    (r : MatchingEngine ℕ × Text × List (Trade ℕ)) × (place_order initial aapl 150 (pos 100) true
      ≡ some r)
    × Placed initial aapl 150 (pos 100) true r
unfolding initial
place_order-Placed_example =
    place_order-Placed initial aapl 150 (pos 100) true tt (omega arith) (omega arith)

abbrev open_engine : MatchingEngine ℕ
open_engine = record { order_books = (aapl, book) ∷ []; trade_notifier = true; next_order_id = 2 }

open_ids :
    (id : Text) (i : Info ℕ) → find id book.orders ≡ some i → (k : ℕ) × (k < 2) × (id ≡ order_id k)
unfolding find order_id to_string
open_ids id i e = elim (Bool-cases (codes "order-1" == id)) [
  | inl q ↦ (1, omega arith, sym (eq_of_beq (codes "order-1") id q))
  | inr q ↦ cc (rw q at e)
]

open_engine-IsReady : IsReady open_engine
open_engine-IsReady = ((book-IsValid, open_ids), tt)

cancel_order-Gone_example :
    let (found, e') = cancel_order open_engine (codes "order-1") in
    (found ≡ any_book (codes "order-1") open_engine.order_books)
    × IsReady e'
    × Gone (codes "order-1") open_engine.order_books e'.order_books
cancel_order-Gone_example = cancel_order-Gone open_engine (codes "order-1") open_engine-IsReady

order_id-injective_example : ◌≡◌ {A = ℕ} 12 12
order_id-injective_example = order_id-injective 12 12 refl

later_first_example :
    (9 < 10)
    × (before buy (order "order-10" 150 (pos 1) buy).info (order "order-9" 150 (pos 1) buy).info
        ≡ true)
unfolding order_id to_string
later_first_example =
    later_first buy (order "order-9" 150 (pos 1) buy).info (order "order-10" 150 (pos 1) buy).info 9
      10 refl refl refl (omega arith) (omega arith) (omega arith) (omega arith)

match_order_negative_example :
    match_order true book (order "order-2" 149 (negsuc 49) sell)
    ≡ some (
      with_resting buy (record bid { remaining_size = pos 150 } ∷ []) book,
      trade_of sell aapl (negsuc 49) (order "order-2" 149 (negsuc 49) sell) bid ∷ [],
    )
match_order_negative_example =
    match_order_negative book (order "order-2" 149 (negsuc 49) sell) bid [] 49 100 refl refl
      (omega arith) book-IsValid refl refl
