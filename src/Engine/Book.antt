-- ===== src/Engine/Book.antt =====
-- `OrderBook`. The map `orders_` and the two sets share their orders; of those in the map the code
-- reads the fixed part alone, so the map holds that part, and a set holds the whole order.
use mathlib.Core.Option
use studycpp.Prelude.{
  ℕ, zero, suc, Bool, true, false, ◌||◌, Option, none, some, List, [], ◌∷◌, ◌++◌, if◌then◌else◌,
  length,
}
use studycpp.Prelude.Do.{◌>>=◌}
use studycpp.Prelude.Int.{ℤ, min_ℤ}
use studycpp.Std.Key.{list_eq}
use studycpp.Std.Dict.{Dict, find, assign}
use studycpp.Std.Dict
use studycpp.Std.OrderedSet
use studycpp.Std.Text.{Text}
use studycpp.Engine.Float.{Float, lt}
use studycpp.Engine.Order.{
  Side, buy, sell, opposite, Info, Order, info_of, before, reduce_size, is_filled, Trade,
}

pub record OrderBook (P : Type 0) : Type 0 where
  pub symbol : Text
  pub orders : Dict Text (Info P)
  pub buy_orders : List (Order P)
  pub sell_orders : List (Order P)

module _ {P : Type 0} where
  -- The set of one side.
  abbrev pub resting : Side → OrderBook P → List (Order P)
  resting buy b = b.buy_orders
  resting sell b = b.sell_orders

  abbrev pub with_resting : Side → List (Order P) → OrderBook P → OrderBook P
  with_resting buy os b = record b { buy_orders = os }
  with_resting sell os b = record b { sell_orders = os }

  abbrev pub empty_book : Text → OrderBook P
  empty_book symbol = record { symbol = symbol; orders = []; buy_orders = []; sell_orders = [] }

  -- What both orders of a trade lose.
  abbrev pub trade_size : Order P → Order P → ℤ
  trade_size incoming best = min_ℤ incoming.remaining_size best.remaining_size

  -- The call of the notifier for an incoming order of side `s` that meets the order `best`.
  abbrev pub trade_of : Side → Text → ℤ → Order P → Order P → Trade P
  trade_of buy symbol size incoming best = record {
    symbol = symbol;
    price = best.price;
    size = size;
    buy_order_id = incoming.id;
    sell_order_id = best.id;
  }
  trade_of sell symbol size incoming best = record {
    symbol = symbol;
    price = best.price;
    size = size;
    buy_order_id = best.id;
    sell_order_id = incoming.id;
  }

module _ {P : Type 0} ⦃f : Float P⦄ where
  abbrev pub insert : Side → Order P → List (Order P) → List (Order P)
  insert s = OrderedSet.insert info_of (before s)

  abbrev pub erase : Side → Info P → List (Order P) → List (Order P)
  erase s = OrderedSet.erase info_of (before s)

  unfoldable pub add_order : OrderBook P → Order P → OrderBook P
  add_order b o =
      with_resting o.side (insert o.side o (resting o.side b))
        (record b { orders = assign o.id o.info b.orders })

  unfoldable pub remove_order : OrderBook P → Text → Bool × OrderBook P
  remove_order b id = elim (find id b.orders) [
    | none ↦ (false, b)
    | some o ↦ (
      true,
      with_resting o.side (erase o.side o (resting o.side b))
          (record b { orders = Dict.erase id b.orders }),
    )
  ]

  -- The price test that ends the loop: an incoming buy order stops at a higher sell price, an
  -- incoming sell order at a lower buy price.
  abbrev pub stops : Side → P → P → Bool
  stops buy best incoming = lt incoming best
  stops sell best incoming = lt best incoming

  -- What a round leaves once both orders are reduced, and the call of the notifier.
  abbrev pub after_trade :
      Side
      → Bool
      → OrderBook P
      → Order P
      → Order P
      → List (Order P)
      → Order P
      → Order P
      → OrderBook P × Order P × List (Trade P)
  after_trade s notifier b incoming best rest incoming' best' = (
    if is_filled best'
        then with_resting (opposite s) rest (record b { orders = Dict.erase best.id b.orders })
        else with_resting (opposite s) (insert (opposite s) best' rest) b,
    incoming',
    if notifier then trade_of s b.symbol (trade_size incoming best) incoming best ∷ [] else [],
  )

  -- The rest of the loop's body, for the first order `best` of the other side and those behind it;
  -- `none` if a subtraction overflows.
  unfoldable pub match_step :
      Side
      → Bool
      → OrderBook P
      → Order P
      → Order P
      → List (Order P)
      → Option (OrderBook P × Order P × List (Trade P))
  match_step s notifier b incoming best rest =
      reduce_size incoming (trade_size incoming best) >>= λ (_, incoming').
      reduce_size best (trade_size incoming best) >>= λ (_, best').
      some (after_trade s notifier b incoming best rest incoming' best')

  -- The loop of an incoming order of side `s` against the other side, on fuel (`none` if it runs
  -- out, or a subtraction overflows). It returns the book, the incoming order and the trades that
  -- the notifier was told.
  unfoldable pub match_loop :
      ℕ → Side → Bool → OrderBook P → Order P → Option (OrderBook P × Order P × List (Trade P))
  match_loop zero s notifier b incoming = none
  match_loop (suc fuel) s notifier b incoming = elim (resting (opposite s) b) [
    | [] ↦ some (b, incoming, [])
    | best ∷ rest ↦
        let more : Option (OrderBook P × Order P × List (Trade P)) =
          match_step s notifier b incoming best rest >>= λ (b', incoming', ts).
          Option.map (λ r. (r.0, r.1, ts ++ r.2)) (match_loop fuel s notifier b' incoming') in
        if is_filled incoming || stops s best.price incoming.price
        then some (b, incoming, [])
        else more
  ]

  unfoldable pub match_buy_order :
      ℕ → Bool → OrderBook P → Order P → Option (OrderBook P × Order P × List (Trade P))
  match_buy_order fuel = match_loop fuel buy

  unfoldable pub match_sell_order :
      ℕ → Bool → OrderBook P → Order P → Option (OrderBook P × Order P × List (Trade P))
  match_sell_order fuel = match_loop fuel sell

  -- One round for each resting order and one for the last test are enough.
  abbrev pub match_fuel : Side → OrderBook P → ℕ
  match_fuel s b = suc (length (resting (opposite s) b))

  abbrev pub rest_unfilled : OrderBook P × Order P × List (Trade P) → OrderBook P × List (Trade P)
  rest_unfilled (b, o, ts) = (if is_filled o then b else add_order b o, ts)

  unfoldable pub match_order : Bool → OrderBook P → Order P → Option (OrderBook P × List (Trade P))
  unfolding match_buy_order match_sell_order
  match_order notifier b o = Option.map rest_unfilled (elim o.side [
    | buy ↦ match_buy_order (match_fuel buy b) notifier b o
    | sell ↦ match_sell_order (match_fuel sell b) notifier b o
  ])

  -- the price of `*begin()`, or the value for an empty set
  abbrev pub first_price : P → List (Order P) → P
  first_price p [] = p
  first_price p (o ∷ os) = o.price

  unfoldable pub get_best_bid : OrderBook P → P
  get_best_bid b = first_price f.zero b.buy_orders

  unfoldable pub get_best_ask : OrderBook P → P
  get_best_ask b = first_price f.max_value b.sell_orders

  abbrev pub is_empty : List (Order P) → Bool
  is_empty [] = true
  is_empty (o ∷ os) = false

  unfoldable pub get_spread : OrderBook P → P
  unfolding get_best_bid get_best_ask
  get_spread b =
      if is_empty b.buy_orders || is_empty b.sell_orders
      then f.max_value
      else f.sub (get_best_ask b) (get_best_bid b)
