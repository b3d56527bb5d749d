-- ===== src/Engine/Invariant/Add.antt =====
-- Resting a new order keeps the invariant of the book.
use studycpp.Prelude.{
  ◌≡◌, refl, sym, ap, subst, ◌∙◌, ◌⊎◌, inl, inr, true, none, some, List, [], ◌∷◌, arith,
}
use studycpp.Prelude.Int.{pos, ◌≤ℤ◌}
use studycpp.Std.Key.{list_eq, eq_of_beq}
use studycpp.Std.Dict.{Dict, find, find-assign, assign}
use studycpp.Std.OrderedSet.{All, All-insert, IsSorted, insert-IsSorted}
use studycpp.Std.Text.{Text}
use studycpp.Engine.Float.{Float, lt}
use studycpp.Engine.Order.{Side, buy, sell, opposite, Info, Order, info_of, before}
use studycpp.Engine.Book.{OrderBook, resting, with_resting, insert, add_order, stops}
use studycpp.Engine.Compare.{before_trans}
use studycpp.Engine.Holds.{Holds, Holds-insert, Holds-insert_self}
use studycpp.Engine.Invariant.{IsValid}
use studycpp.Engine.Invariant.Index.{Indexed, Indexed-assign, fresh_id, find-assign_self}
use studycpp.Engine.Invariant.Match.{update_side, orders-with_resting, Uncrossed}

-- The order's price is worse than every price of the other side.
abbrev pub Clear : {P : Type 0} ⦃f : Float P⦄ → OrderBook P → Order P → Type 0
Clear b o = All (λ y. stops o.side y.price o.price ≡ true) (resting (opposite o.side) b)

module _ {P : Type 0} ⦃f : Float P⦄ where
  Uncrossed-insert :
      (t : Side) (b : OrderBook P) (o : Order P) (m : Dict Text (Info P))
      → All (λ y. stops t y.price o.price ≡ true) (resting (opposite t) b)
      → Uncrossed b.buy_orders b.sell_orders
      → let b' = with_resting t (insert t o (resting t b)) (record b { orders = m }) in
        Uncrossed b'.buy_orders b'.sell_orders
  Uncrossed-insert buy b o m c u =
      All-insert info_of (before buy) (λ x. All (λ y. lt x.price y.price ≡ true) b.sell_orders) o
        b.buy_orders c u
  Uncrossed-insert sell b o m c u = both b.buy_orders c u
    where
      both :
          (xs : List (Order P))
          → All (λ y. lt y.price o.price ≡ true) xs
          → Uncrossed xs b.sell_orders
          → Uncrossed xs (insert sell o b.sell_orders)
      both [] c u = tt
      both (x ∷ xs) c u = (
        All-insert info_of (before sell) (λ y. lt x.price y.price ≡ true) o b.sell_orders c.0 u.0,
        both xs c.1 u.1,
      )

  module _ (b : OrderBook P) (o : Order P) (v : IsValid b) (fresh : find o.id b.orders ≡ none) where
    abbrev added : OrderBook P
    added =
        with_resting o.side (insert o.side o (resting o.side b))
          (record b { orders = assign o.id o.info b.orders })

    orders-added : added.orders ≡ assign o.id o.info b.orders
    orders-added =
        orders-with_resting o.side (insert o.side o (resting o.side b))
          (record b { orders = assign o.id o.info b.orders })

    added-Indexed : (s : Side) → Indexed b.orders (assign o.id o.info b.orders) (resting s added)
    added-Indexed =
        update_side (λ s. Indexed b.orders (assign o.id o.info b.orders)) o.side _ b _
          (All-insert info_of (before o.side) _ o (resting o.side b) (find-assign_self b.orders o)
            (Indexed-assign b.orders o fresh (resting o.side b) (v.indexed o.side)))
          (λ s n. Indexed-assign b.orders o fresh (resting s b) (v.indexed s))

    added-Holds_old : (i : Info P) → Holds i (resting i.side b) → Holds i (resting i.side added)
    added-Holds_old i h =
        update_side (λ s xs. i.side ≡ s → Holds i xs) o.side _ b (assign o.id o.info b.orders)
          (λ q. Holds-insert o.side i o (resting o.side b) (subst (λ s. Holds i (resting s b)) q h))
          (λ s n q. subst (λ s. Holds i (resting s b)) q h) i.side refl

    added-Holds_self : Holds o.info (resting o.side added)
    added-Holds_self =
        update_side (λ s xs. o.side ≡ s → Holds o.info xs) o.side _ b (assign o.id o.info b.orders)
          (λ q.
            Holds-insert_self o.side o (resting o.side b)
              (fresh_id b.orders o.id fresh (resting o.side b) (v.indexed o.side)))
          (λ s n q. absurd (n (sym q))) o.side refl

    found_new :
        (id : Text) (i : Info P)
        → find id (assign o.id o.info b.orders) ≡ some i
        → ((o.id ≡ id) × (o.info ≡ i)) ⊎ (find id b.orders ≡ some i)
    found_new id i h = ground (arith, find-assign o.id id o.info b.orders, eq_of_beq o.id id)

    added-held :
        (id : Text) (i : Info P)
        → find id (assign o.id o.info b.orders) ≡ some i
        → (i.id ≡ id) × Holds i (resting i.side added)
    added-held id i h = elim (found_new id i h) [
      | inl (q, r) ↦ (
        sym (ap (λ j. j.id) r) ∙ q,
        subst (λ j. Holds j (resting j.side added)) r added-Holds_self,
      )
      | inr old ↦ ((v.held id i old).0, added-Holds_old i (v.held id i old).1)
    ]

    pub add_order-IsValid : pos 1 ≤ℤ o.remaining_size → Clear b o → IsValid (add_order b o)
    unfolding add_order
    add_order-IsValid p c = record {
      sorted =
          update_side (λ s. IsSorted info_of (before s)) o.side _ b _
            (insert-IsSorted info_of (before o.side) (before_trans o.side) o (resting o.side b)
              (v.sorted o.side))
            (λ s n. v.sorted s);
      sided =
          update_side (λ s. All (λ x. x.side ≡ s)) o.side _ b _
            (All-insert info_of (before o.side) _ o (resting o.side b) refl (v.sided o.side))
            (λ s n. v.sided s);
      indexed = λ s. rw orders-added (added-Indexed s);
      held = λ id i h. added-held id i (rw orders-added at h);
      positive =
          update_side (λ s. All (λ x. pos 1 ≤ℤ x.remaining_size)) o.side _ b _
            (All-insert info_of (before o.side) _ o (resting o.side b) p (v.positive o.side))
            (λ s n. v.positive s);
      uncrossed = Uncrossed-insert o.side b o _ c v.uncrossed;
    }
