-- ===== src/Engine/Order.antt =====
-- `Order`, the comparators of the two sides of a book, and the trades that are notified.
use studycpp.Prelude.{Bool, true, false, ◌&&◌, Option, none, some, if◌then◌else◌}
use studycpp.Prelude.Int.{ℤ, pos, int_max, ◌-ℤ◌, ltb_ℤ, is_zero}
use studycpp.Std.Text.{Text, text_lt}
use studycpp.Engine.Float.{Float, lt, ne}

pub data Side : Type 0 where
  buy sell : Side

-- The part of an order that never changes.
pub record Info (P : Type 0) : Type 0 where
  pub id : Text
  pub symbol : Text
  pub price : P
  pub side : Side

pub record Order (P : Type 0) : Type 0 where
  pub info : Info P
  pub open info use *
  pub remaining_size : ℤ

-- Whether `remaining -= size` leaves the range of `int`: for two of its values, the second one not the
-- greater one, it does so above and only if the second one is negative.
abbrev pub overflows : ℤ → ℤ → Bool
overflows remaining size = ltb_ℤ size (pos 0) && ltb_ℤ (pos int_max) (remaining -ℤ size)

module _ {P : Type 0} where
  abbrev pub info_of : Order P → Info P
  info_of o = o.info

  -- `false` and no change if the order is smaller; `none` if the subtraction overflows
  unfoldable pub reduce_size : Order P → ℤ → Option (Bool × Order P)
  reduce_size o size =
      if ltb_ℤ o.remaining_size size
      then some (false, o)
      else if overflows o.remaining_size size
      then none
      else some (true, record o { remaining_size = o.remaining_size -ℤ size })

  abbrev pub is_filled : Order P → Bool
  is_filled o = is_zero o.remaining_size

module _ {P : Type 0} ⦃f : Float P⦄ where
  -- `BuyOrderComparator`: highest price first, then the smaller id
  unfoldable pub buy_before : Info P → Info P → Bool
  buy_before x y = if ne x.price y.price then lt y.price x.price else text_lt x.id y.id

  -- `SellOrderComparator`: lowest price first, then the smaller id
  unfoldable pub sell_before : Info P → Info P → Bool
  sell_before x y = if ne x.price y.price then lt x.price y.price else text_lt x.id y.id

  abbrev pub before : Side → Info P → Info P → Bool
  before buy = buy_before
  before sell = sell_before

-- The arguments of the trade notifier.
pub record Trade (P : Type 0) : Type 0 where
  pub symbol : Text
  pub price : P
  pub size : ℤ
  pub buy_order_id : Text
  pub sell_order_id : Text

abbrev pub opposite : Side → Side
opposite buy = sell
opposite sell = buy
