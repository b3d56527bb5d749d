-- ===== src/Engine/Invariant/Match.antt =====
-- A round of the matching loop keeps the invariant of the book.
use studycpp.Prelude.{
  ◌≡◌, refl, sym, ap, subst, ◌∙◌, ◌≢◌, inl, inr, Bool, true, false, some, List, [], ◌∷◌, arith,
  Bool-cases,
}
use studycpp.Prelude.Int.{ℤ, pos, ◌≤ℤ◌, ◌-ℤ◌, is_zero, min_ℤ}
use studycpp.Std.Key.{list_eq, beq_of_eq}
use studycpp.Std.Dict.{Dict, find, find-erase}
use studycpp.Std.Dict
use studycpp.Std.OrderedSet.{All, All-imp, AllAfter, IsSorted}
use studycpp.Std.Text.{Text}
use studycpp.Engine.Float.{Float, lt}
use studycpp.Engine.Order.{Side, buy, sell, opposite, Info, Order, info_of, before, is_filled}
use studycpp.Engine.Book.{OrderBook, resting, with_resting, trade_size}
use studycpp.Engine.Step.{stepped, reduced, match_step_book}
use studycpp.Engine.Holds.{Holds, AllAfter-ne}
use studycpp.Engine.Invariant.{IsValid}
use studycpp.Engine.Invariant.Index.{Indexed, Indexed-erase}

-- A fact of both sides, after a new set for the side `t`.
pub update_side :
    {P : Type 0} (Q : Side → List (Order P) → Type 0) (t : Side) (os : List (Order P))
    (b : OrderBook P) (m : Dict Text (Info P))
    → Q t os
    → ((s : Side) → s ≢ t → Q s (resting s b))
    → (s : Side) → Q s (resting s (with_resting t os (record b { orders = m })))
update_side Q buy os b m k h buy = k
update_side Q buy os b m k h sell = h sell (λ e. cc)
update_side Q sell os b m k h buy = h buy (λ e. cc)
update_side Q sell os b m k h sell = k

pub orders-with_resting :
    {P : Type 0} (t : Side) (os : List (Order P)) (b : OrderBook P)
    → (with_resting t os b).orders ≡ b.orders
orders-with_resting buy os b = refl
orders-with_resting sell os b = refl

pub side-ne :
    {P : Type 0} (i : Info P) (s : Side) (os : List (Order P))
    → s ≢ i.side
    → All (λ o. o.side ≡ s) os
    → All (λ o. o.info ≢ i) os
side-ne i s [] n h = tt
side-ne i s (x ∷ os) n h = ((λ e. n (sym h.0 ∙ ap (λ j. j.side) e)), side-ne i s os n h.1)

-- Prices as they stand in the two sets.
abbrev pub Uncrossed : {P : Type 0} ⦃f : Float P⦄ → List (Order P) → List (Order P) → Type 0
Uncrossed buys sells = All (λ x. All (λ y. lt x.price y.price ≡ true) sells) buys

-- A set that has no price of its own keeps the two sides apart.
pub Uncrossed-update :
    {P : Type 0} ⦃f : Float P⦄ (t : Side) (os : List (Order P)) (b : OrderBook P)
    (m : Dict Text (Info P))
    → Uncrossed b.buy_orders b.sell_orders
    → ((Q : Info P → Type 0) → All (λ o. Q o.info) (resting t b) → All (λ o. Q o.info) os)
    → let b' = with_resting t os (record b { orders = m }) in Uncrossed b'.buy_orders b'.sell_orders
Uncrossed-update buy os b m u narrow =
    narrow (λ i. All (λ y. lt i.price y.price ≡ true) b.sell_orders) u
Uncrossed-update sell os b m u narrow =
    All-imp _ _ (λ x h. narrow (λ i. lt x.price i.price ≡ true) h) b.buy_orders u

module _ {P : Type 0} ⦃f : Float P⦄ (t : Side) (b : OrderBook P) (best : Order P)
    (rest : List (Order P)) (v : IsValid b) (e : resting t b ≡ best ∷ rest) where
  at_head : (Q : List (Order P) → Type 0) → Q (resting t b) → Q (best ∷ rest)
  at_head Q h = subst Q e h

  pub best-side : best.side ≡ t
  best-side = (at_head (All (λ o. o.side ≡ t)) (v.sided t)).0

  pub best-indexed : find best.id b.orders ≡ some best.info
  best-indexed = (at_head (Indexed b.orders b.orders) (v.indexed t)).0

  pub rest-AllAfter : AllAfter info_of (before t) best.info rest
  rest-AllAfter = (at_head (IsSorted info_of (before t)) (v.sorted t)).0

  abbrev dropped : OrderBook P
  dropped = with_resting t rest (record b { orders = Dict.erase best.id b.orders })

  dropped-ne : (s : Side) → All (λ x. x.info ≢ best.info) (resting s dropped)
  dropped-ne =
      update_side (λ s. All (λ x. x.info ≢ best.info)) t rest b _
        (AllAfter-ne t best.info rest rest-AllAfter)
        (λ s n. side-ne best.info s (resting s b) (λ q. n (q ∙ best-side)) (v.sided s))

  dropped-Indexed : (s : Side) → Indexed b.orders b.orders (resting s dropped)
  dropped-Indexed =
      update_side (λ s. Indexed b.orders b.orders) t rest b _
        (at_head (Indexed b.orders b.orders) (v.indexed t)).1 (λ s n. v.indexed s)

  dropped-find :
      (id : Text) (i : Info P)
      → find id (Dict.erase best.id b.orders) ≡ some i
      → (find id b.orders ≡ some i) × (best.id ≢ id)
  dropped-find id i h = (
    ground (arith, find-erase best.id id b.orders),
    λ q. ground (arith, find-erase best.id id b.orders, beq_of_eq best.id id q),
  )

  dropped-held :
      (id : Text) (i : Info P)
      → find id (Dict.erase best.id b.orders) ≡ some i
      → (i.id ≡ id) × Holds i (resting i.side dropped)
  dropped-held id i h =
      let (old, other) = dropped-find id i h in
      let (same, holds) = v.held id i old in
      (
        same,
        update_side (λ s xs. i.side ≡ s → Holds i xs) t rest b _
            (λ q. elim (at_head (Holds i) (subst (λ s. Holds i (resting s b)) q holds)) [
              | inl p ↦ absurd (other (ap (λ j. j.id) p ∙ same))
              | inr p ↦ p
            ])
            (λ s n q. subst (λ s. Holds i (resting s b)) q holds) i.side refl,
      )

  orders-dropped : dropped.orders ≡ Dict.erase best.id b.orders
  orders-dropped = orders-with_resting t rest (record b { orders = Dict.erase best.id b.orders })

  -- A filled order leaves the set and the map.
  pub drop-IsValid : IsValid dropped
  drop-IsValid = record {
    sorted =
        update_side (λ s. IsSorted info_of (before s)) t rest b _
          (at_head (IsSorted info_of (before t)) (v.sorted t)).1 (λ s n. v.sorted s);
    sided =
        update_side (λ s. All (λ o. o.side ≡ s)) t rest b _
          (at_head (All (λ o. o.side ≡ t)) (v.sided t)).1 (λ s n. v.sided s);
    indexed = λ s. rw orders-dropped (
        Indexed-erase b.orders best.info best-indexed (resting s dropped) (dropped-ne s)
          (dropped-Indexed s));
    held = λ id i h. dropped-held id i (rw orders-dropped at h);
    positive =
        update_side (λ s. All (λ o. pos 1 ≤ℤ o.remaining_size)) t rest b _
          (at_head (All (λ o. pos 1 ≤ℤ o.remaining_size)) (v.positive t)).1 (λ s n. v.positive s);
    uncrossed =
        Uncrossed-update t rest b _ v.uncrossed (λ Q h. (at_head (All (λ o. Q o.info)) h).1);
  }

  -- An order that keeps its place with another size.
  module _ (size : ℤ) (left : pos 1 ≤ℤ size) where
    abbrev resized : Order P
    resized = record best { remaining_size = size }

    abbrev replaced : OrderBook P
    replaced = with_resting t (resized ∷ rest) b

    replaced-held :
        (id : Text) (i : Info P)
        → find id b.orders ≡ some i
        → (i.id ≡ id) × Holds i (resting i.side replaced)
    replaced-held id i h =
        let (same, holds) = v.held id i h in
        (
          same,
          update_side (λ s xs. i.side ≡ s → Holds i xs) t (resized ∷ rest) b _
              (λ q. at_head (Holds i) (subst (λ s. Holds i (resting s b)) q holds))
              (λ s n q. subst (λ s. Holds i (resting s b)) q holds) i.side refl,
        )

    pub replace-IsValid : IsValid replaced
    replace-IsValid = record {
      sorted =
          update_side (λ s. IsSorted info_of (before s)) t (resized ∷ rest) b _
            (at_head (IsSorted info_of (before t)) (v.sorted t)) (λ s n. v.sorted s);
      sided =
          update_side (λ s. All (λ o. o.side ≡ s)) t (resized ∷ rest) b _
            (at_head (All (λ o. o.side ≡ t)) (v.sided t)) (λ s n. v.sided s);
      indexed = λ s. rw (orders-with_resting t (resized ∷ rest) b) (
          update_side (λ s. Indexed b.orders b.orders) t (resized ∷ rest) b _
            (at_head (Indexed b.orders b.orders) (v.indexed t)) (λ s n. v.indexed s) s);
      held = λ id i h. replaced-held id i (rw (orders-with_resting t (resized ∷ rest) b) at h);
      positive =
          update_side (λ s. All (λ o. pos 1 ≤ℤ o.remaining_size)) t (resized ∷ rest) b _
            (left, (at_head (All (λ o. pos 1 ≤ℤ o.remaining_size)) (v.positive t)).1)
            (λ s n. v.positive s);
      uncrossed =
          Uncrossed-update t (resized ∷ rest) b _ v.uncrossed
            (λ Q h. at_head (All (λ o. Q o.info)) h);
    }

left_over : (a b : ℤ) → pos 1 ≤ℤ b → is_zero (b -ℤ min_ℤ a b) ≡ false → pos 1 ≤ℤ b -ℤ min_ℤ a b
unfolding ◌-ℤ◌
left_over a b h k = ground arith

pub match_step-IsValid :
    {P : Type 0} ⦃f : Float P⦄ (s : Side) (n : Bool) (b : OrderBook P) (o best : Order P)
    (rest : List (Order P))
    → IsValid b
    → resting (opposite s) b ≡ best ∷ rest
    → IsValid (stepped s n b o best rest).0
match_step-IsValid s n b o best rest v e =
    rw (match_step_book s n b o best rest (rest-AllAfter (opposite s) b best rest v e))
      (elim (Bool-cases (is_filled (reduced best (trade_size o best)))) [
        | inl q ↦ rw q (drop-IsValid (opposite s) b best rest v e)
        | inr q ↦ rw q (
            replace-IsValid (opposite s) b best rest v e _ (
              left_over o.remaining_size best.remaining_size
                (at_head (opposite s) b best rest v e (All (λ x. pos 1 ≤ℤ x.remaining_size))
                  (v.positive (opposite s))).0
                q))
      ])
