-- ===== src/Engine/Compare.antt =====
-- The comparators of the two sides are strict orders, as `std::set` requires, and two orders are
-- equivalent only with the same id and unequal prices excluded.
use studycpp.Prelude.{◌≡◌, true, false, arith}
use studycpp.Std.Text.Order.{text_lt_irrefl, text_lt_trans, text_lt_total}
use studycpp.Engine.Float.{Float, ne_trans}
use studycpp.Engine.Order.{Side, buy, sell, Info, before, buy_before, sell_before}

module _ {P : Type 0} ⦃f : Float P⦄ where
  pub before_irrefl : (s : Side) (x : Info P) → before s x x ≡ false
  unfolding buy_before sell_before
  before_irrefl buy x = ground (arith, f.lt_irrefl x.price, text_lt_irrefl x.id)
  before_irrefl sell x = ground (arith, f.lt_irrefl x.price, text_lt_irrefl x.id)

  pub before_trans :
      (s : Side) (x y z : Info P) → before s x y ≡ true → before s y z ≡ true → before s x z ≡ true
  unfolding buy_before sell_before
  before_trans buy x y z h k = ground (
    arith,
    ne_trans x.price y.price z.price,
    f.lt-ne z.price x.price,
    f.ne_symm x.price z.price,
    f.lt_trans z.price y.price x.price,
    f.lt_congr_right x.price y.price z.price,
    f.lt_congr_left y.price z.price x.price,
    text_lt_trans x.id y.id z.id,
  )
  before_trans sell x y z h k = ground (
    arith,
    ne_trans x.price y.price z.price,
    f.lt-ne x.price z.price,
    f.lt_trans x.price y.price z.price,
    f.lt_congr_left x.price y.price z.price,
    f.lt_congr_right y.price z.price x.price,
    text_lt_trans x.id y.id z.id,
  )

  -- Of two orders with different ids one is before the other.
  pub before_total :
      (s : Side) (x y : Info P) → before s x y ≡ false → before s y x ≡ false → x.id ≡ y.id
  unfolding buy_before sell_before
  before_total buy x y h k =
      ground (arith, f.ne_total x.price y.price, f.ne_symm x.price y.price, text_lt_total x.id y.id)
  before_total sell x y h k =
      ground (arith, f.ne_total x.price y.price, f.ne_symm x.price y.price, text_lt_total x.id y.id)
