-- ===== src/Engine/Venue/Ids.antt =====
-- The ids of the orders: they never repeat, and their order is not that of the orders' arrival.
use studycpp.Prelude.{ℕ, ◌/◌, ◌≤◌, ◌<◌, ◌≡◌, ap, true, false, arith, drop}
use studycpp.Std.Text.{text_lt}
use studycpp.Std.Text.Decimal.{to_string-injective, to_string-below_10, to_string-below_100}
use studycpp.Engine.Float.{Float}
use studycpp.Engine.Order.{Side, buy, sell, Info, before, buy_before, sell_before}
use studycpp.Engine.Venue.{order_id}

-- The ids of different values of the counter differ.
pub order_id-injective : (m n : ℕ) → order_id m ≡ order_id n → m ≡ n
unfolding order_id
order_id-injective m n e = to_string-injective m n (ap (drop 6) e)

module _ {P : Type 0} ⦃f : Float P⦄ where
  -- The texts of the ids decide between orders of one price, and they compare digit by digit: of
  -- an order numbered below 10 and a later one of two digits whose first digit is the smaller one,
  -- both sides of the book serve the later order first.
  pub later_first :
      (s : Side) (x y : Info P) (m n : ℕ)
      → f.ne y.price x.price ≡ false
      → x.id ≡ order_id m
      → y.id ≡ order_id n
      → m < 10
      → 10 ≤ n
      → n < 100
      → n / 10 < m
      → (m < n) × (before s y x ≡ true)
  unfolding order_id text_lt buy_before sell_before
  later_first buy x y m n p ex ey a b c d = (
    omega arith,
    rw (p, ex, ey, to_string-below_10 m a, to_string-below_100 n b c) (ground arith),
  )
  later_first sell x y m n p ex ey a b c d = (
    omega arith,
    rw (p, ex, ey, to_string-below_10 m a, to_string-below_100 n b c) (ground arith),
  )
