-- ===== src/Engine/Invariant/Remove.antt =====
-- `OrderBook::removeOrder`: what it removes and what it keeps.
use studycpp.Prelude.{
  ◌≡◌, refl, sym, ap, subst, ◌∙◌, ◌≢◌, inl, inr, Bool, none, some, arith, if◌then◌else◌, Bool-cases,
  Option-cases,
}
use studycpp.Prelude.Int.{pos, ◌≤ℤ◌}
use studycpp.Std.Key.{list_eq, beq_of_eq, eq_of_beq, ◌==◌ as text_eq}
use studycpp.Std.Dict.{Dict, find, find-erase, is_some}
use studycpp.Std.Dict
use studycpp.Std.OrderedSet.{All, All-erase, IsSorted, erase-IsSorted}
use studycpp.Std.Text.{Text}
use studycpp.Engine.Float.{Float}
use studycpp.Engine.Order.{Side, Info, info_of, before}
use studycpp.Engine.Book.{OrderBook, resting, with_resting, erase, remove_order}
use studycpp.Engine.Holds.{Holds, Holds-erase, erase-ne}
use studycpp.Engine.Invariant.{IsValid}
use studycpp.Engine.Invariant.Index.{Indexed, Indexed-erase, fresh_id, same_id}
use studycpp.Engine.Invariant.Match.{update_side, orders-with_resting, Uncrossed-update, side-ne}

module _ {P : Type 0} ⦃f : Float P⦄ (b : OrderBook P) (v : IsValid b) where
  module _ (k : Info P) (e : find k.id b.orders ≡ some k) where
    abbrev removed : OrderBook P
    removed =
        with_resting k.side (erase k.side k (resting k.side b))
          (record b { orders = Dict.erase k.id b.orders })

    orders-removed : removed.orders ≡ Dict.erase k.id b.orders
    orders-removed =
        orders-with_resting k.side (erase k.side k (resting k.side b))
          (record b { orders = Dict.erase k.id b.orders })

    removed-ne : (s : Side) → All (λ x. x.info ≢ k) (resting s removed)
    removed-ne =
        update_side (λ s. All (λ x. x.info ≢ k)) k.side _ b _
          (erase-ne k.side k (resting k.side b)
            (same_id b.orders k e (resting k.side b) (v.indexed k.side)) (v.sorted k.side))
          (λ s n. side-ne k s (resting s b) n (v.sided s))

    removed-Indexed : (s : Side) → Indexed b.orders b.orders (resting s removed)
    removed-Indexed =
        update_side (λ s. Indexed b.orders b.orders) k.side _ b _
          (All-erase info_of (before k.side) _ k (resting k.side b) (v.indexed k.side))
          (λ s n. v.indexed s)

    removed-Holds :
        (s : Side) (i : Info P) → i ≢ k → Holds i (resting s b) → Holds i (resting s removed)
    removed-Holds s i n h =
        update_side (λ t xs. s ≡ t → Holds i xs) k.side _ b (Dict.erase k.id b.orders)
          (λ q.
            Holds-erase k.side i k (resting k.side b)
              (same_id b.orders k e (resting k.side b) (v.indexed k.side)) n
              (subst (λ t. Holds i (resting t b)) q h))
          (λ t m q. subst (λ t. Holds i (resting t b)) q h) s refl

    removed-held :
        (id : Text) (i : Info P)
        → find id (Dict.erase k.id b.orders) ≡ some i
        → (i.id ≡ id) × Holds i (resting i.side removed)
    removed-held id i h =
        let old : find id b.orders ≡ some i = ground (arith, find-erase k.id id b.orders) in
        let other : k.id ≢ id =
          λ q. ground (arith, find-erase k.id id b.orders, beq_of_eq k.id id q) in
        let (same, holds) = v.held id i old in
        (same, removed-Holds i.side i (λ q. other (sym (ap (λ j. j.id) q) ∙ same)) holds)

    removed-IsValid : IsValid removed
    removed-IsValid = record {
      sorted =
          update_side (λ s. IsSorted info_of (before s)) k.side _ b _
            (erase-IsSorted info_of (before k.side) k (resting k.side b) (v.sorted k.side))
            (λ s n. v.sorted s);
      sided =
          update_side (λ s. All (λ x. x.side ≡ s)) k.side _ b _
            (All-erase info_of (before k.side) _ k (resting k.side b) (v.sided k.side))
            (λ s n. v.sided s);
      indexed = λ s.
          rw orders-removed
            (Indexed-erase b.orders k e (resting s removed) (removed-ne s) (removed-Indexed s));
      held = λ id i h. removed-held id i (rw orders-removed at h);
      positive =
          update_side (λ s. All (λ x. pos 1 ≤ℤ x.remaining_size)) k.side _ b _
            (All-erase info_of (before k.side) _ k (resting k.side b) (v.positive k.side))
            (λ s n. v.positive s);
      uncrossed =
          Uncrossed-update k.side _ b _ v.uncrossed
            (λ Q h. All-erase info_of (before k.side) (λ x. Q x.info) k (resting k.side b) h);
    }

  -- What a call of `remove_order` with this id has done.
  pub record Removed (id : Text) (r : Bool × OrderBook P) : Type 0 where
    pub reports : r.0 ≡ is_some (find id b.orders)
    pub valid : IsValid r.1
    -- the map loses the id's entry and no other
    pub map_after :
        (j : Text) → find j r.1.orders ≡ (if text_eq id j then none else find j b.orders)
    pub gone : (s : Side) → All (λ x. x.id ≢ id) (resting s r.1)
    pub kept : (s : Side) (i : Info P) → i.id ≢ id → Holds i (resting s b) → Holds i (resting s r.1)

  Removed-found : (k : Info P) → find k.id b.orders ≡ some k → Removed k.id (remove_order b k.id)
  unfolding remove_order
  Removed-found k e =
      rw (e, remove_order)
        (record {
          reports = rw e refl;
          valid = removed-IsValid k e;
          map_after = λ j. rw (orders-removed k e) (find-erase k.id j b.orders);
          gone = λ s.
              fresh_id (Dict.erase k.id b.orders) k.id
                (ground (arith, find-erase k.id k.id b.orders, beq_of_eq k.id k.id))
                (resting s (removed k e))
                (Indexed-erase b.orders k e (resting s (removed k e)) (removed-ne k e s)
                  (removed-Indexed k e s));
          kept = λ s i n. removed-Holds k e s i (λ q. n (ap (λ j. j.id) q));
        })

  -- For a valid book, `remove_order` reports whether the map has the id; after it the book is
  -- valid, no resting order of either side has the id, and every order with another id still rests.
  pub remove_order-Removed : (id : Text) → Removed id (remove_order b id)
  unfolding remove_order
  remove_order-Removed id = elim (Option-cases (find id b.orders)) [
    | inl e ↦
        rw (e, remove_order)
          (record {
            reports = rw e refl;
            valid = v;
            map_after = λ j. elim (Bool-cases (text_eq id j)) [
              | inl q ↦ rw q (ap (λ i. find i b.orders) (sym (eq_of_beq id j q)) ∙ e)
              | inr q ↦ rw q refl
            ];
            gone = λ s. fresh_id b.orders id e (resting s b) (v.indexed s);
            kept = λ s i n h. h;
          })
    | inr (k, e) ↦
        let q : k.id ≡ id = (v.held id k e).0 in
        subst (λ j. Removed j (remove_order b j)) q
          (Removed-found k (subst (λ j. find j b.orders ≡ some k) (sym q) e))
  ]
