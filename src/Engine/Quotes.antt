-- ===== src/Engine/Quotes.antt =====
-- `getBestBid`, `getBestAsk` and `getSpread` of a valid book.
use mathlib.Core.Path.{subst₂}
use studycpp.Prelude.{◌≡◌, refl, ◌≢◌, inl, inr, true, false, List, [], ◌∷◌, arith, List-cases}
use studycpp.Std.OrderedSet.{All, AllAfter, IsSorted}
use studycpp.Engine.Float.{Float, lt, lt_asymm}
use studycpp.Engine.Order.{buy, sell, Info, Order, info_of, buy_before, sell_before}
use studycpp.Engine.Book.{OrderBook, first_price, get_best_bid, get_best_ask, get_spread}
use studycpp.Engine.Invariant.{IsValid}

module _ {P : Type 0} ⦃f : Float P⦄ where
  behind_bid :
      (x : Info P) (os : List (Order P))
      → AllAfter info_of buy_before x os
      → All (λ o. lt x.price o.price ≡ false) os
  unfolding buy_before
  behind_bid x [] h = tt
  behind_bid x (y ∷ os) h =
      (ground (arith, lt_asymm y.price x.price, f.lt-ne x.price y.price), behind_bid x os h.1)

  behind_ask :
      (x : Info P) (os : List (Order P))
      → AllAfter info_of sell_before x os
      → All (λ o. lt o.price x.price ≡ false) os
  unfolding sell_before
  behind_ask x [] h = tt
  behind_ask x (y ∷ os) h = (
    ground (arith, lt_asymm x.price y.price, f.lt-ne y.price x.price, f.ne_symm x.price y.price),
    behind_ask x os h.1,
  )

  -- In a valid book no resting buy order has a price above the best bid, no resting sell order has
  -- one below the best ask, and, where both sides have orders, the bid is below the ask and the
  -- spread is their difference.
  pub quotes_lem :
      (b : OrderBook P)
      → IsValid b
      → All (λ o. lt (get_best_bid b) o.price ≡ false) b.buy_orders
        × All (λ o. lt o.price (get_best_ask b) ≡ false) b.sell_orders
        × (b.buy_orders ≢ []
            → b.sell_orders ≢ []
            → (lt (get_best_bid b) (get_best_ask b) ≡ true)
              × (get_spread b ≡ f.sub (get_best_ask b) (get_best_bid b)))
  unfolding get_best_bid get_best_ask get_spread
  quotes_lem b v =
      (bids b.buy_orders (v.sorted buy), asks b.sell_orders (v.sorted sell), λ p q. both p q)
    where
      bids :
          (os : List (Order P))
          → IsSorted info_of buy_before os
          → All (λ o. lt (first_price f.zero os) o.price ≡ false) os
      bids [] h = tt
      bids (o ∷ os) h = (f.lt_irrefl o.price, behind_bid o.info os h.0)

      asks :
          (os : List (Order P))
          → IsSorted info_of sell_before os
          → All (λ o. lt o.price (first_price f.max_value os) ≡ false) os
      asks [] h = tt
      asks (o ∷ os) h = (f.lt_irrefl o.price, behind_ask o.info os h.0)

      both :
          b.buy_orders ≢ []
          → b.sell_orders ≢ []
          → (lt (get_best_bid b) (get_best_ask b) ≡ true)
            × (get_spread b ≡ f.sub (get_best_ask b) (get_best_bid b))
      both p q = elim (List-cases b.buy_orders) [
        | inl e ↦ absurd (p e)
        | inr (x, xs, e) ↦ elim (List-cases b.sell_orders) [
          | inl e' ↦ absurd (q e')
          | inr (y, ys, e') ↦
              let u : All (λ x. All (λ y. lt x.price y.price ≡ true) (y ∷ ys)) (x ∷ xs) =
                subst₂ (λ bs ss. All (λ x. All (λ y. lt x.price y.price ≡ true) ss) bs) e e'
                  v.uncrossed in
              rw (e, e') (u.0.0, refl)
        ]
      ]
