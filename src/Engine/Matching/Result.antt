-- ===== src/Engine/Matching/Result.antt =====
-- The whole call of `matchOrder`.
use mathlib.Core.Option
use studycpp.Prelude.{
  ◌≡◌, refl, sym, ap, subst, ◌∙◌, ◌⊎◌, inl, inr, Bool, true, false, none, some, List, [], ◌∷◌, ◌++◌,
  arith, Bool-cases,
}
use studycpp.Prelude.Int.{ℤ, pos, pos_part, neg_part, ◌+ℤ◌, ◌≤ℤ◌, is_zero, int_laws}
use studycpp.Std.Key.{list_eq, eq_of_beq}
use studycpp.Std.Dict.{Dict, find, assign, find-assign}
use studycpp.Std.Text.{Text}
use studycpp.Std.OrderedSet.{All, IsSorted, AllAfter}
use studycpp.Engine.Float.{Float}
use studycpp.Engine.Order.{
  Side, buy, sell, opposite, Info, Order, info_of, before, buy_before, sell_before, is_filled,
  Trade,
}
use studycpp.Engine.Book.{
  OrderBook, resting, with_resting, insert, match_step, match_loop, match_fuel, trade_size,
  trade_of, stops, add_order, match_order, rest_unfilled,
}
use studycpp.Engine.Step.{stepped, match_step-pos, match_step_incoming, match_step_trades}
use studycpp.Engine.Loop.{Stopped, match_loop_rule, resting-with_resting}
use studycpp.Engine.Trades.{
  total, total-insert, zero_of, traded, traded-append, min-pos, sub-min_nonneg,
}
use studycpp.Engine.Invariant.{IsValid}
use studycpp.Engine.Invariant.Index.{fresh_id}
use studycpp.Engine.Invariant.Match.{match_step-IsValid, orders-with_resting}
use studycpp.Engine.Invariant.Add.{add_order-IsValid}
use studycpp.Engine.Matching.{
  IsFair, Matching, All-append, trade_of-price, trade_of-size, after-own, after-old, after-fresh,
  after-total,
}

map_left : {A B C : Type 0} → (A → B) → A ⊎ C → B ⊎ C
map_left f (inl a) = inl (f a)
map_left f (inr c) = inr c

positive : (q : ℤ) → pos 0 ≤ℤ q → is_zero q ≡ false → pos 1 ≤ℤ q
positive q h k = ground arith

taken_more : (x y z w t : ℤ) → x +ℤ t ≡ y → y +ℤ w ≡ z → x +ℤ (w +ℤ t) ≡ z
taken_more x y z w t p q =
    omega (int_laws, ap pos_part p, ap neg_part p, ap pos_part q, ap neg_part q)

module _ {P : Type 0} ⦃f : Float P⦄ (s : Side) (n : Bool) (b₀ : OrderBook P) (o₀ : Order P) where
  module _ (b : OrderBook P) (o best : Order P) (rest : List (Order P)) (ts : List (Trade P))
      (m : Matching s n b₀ o₀ b o ts) (e : resting (opposite s) b ≡ best ∷ rest)
      (open_ : is_filled o ≡ false) (go : stops s best.price o.price ≡ false) where
    abbrev size : ℤ
    size = trade_size o best

    abbrev trade : Trade P
    trade = trade_of s b.symbol size o best

    trade-IsFair : IsFair s o₀.price trade
    trade-IsFair = (
      rw (trade_of-price s b.symbol size o best)
          (subst (λ i. stops s best.price i.price ≡ false) m.same go),
      rw (trade_of-size s b.symbol size o best) (
          min-pos o.remaining_size best.remaining_size m.left open_
            (subst (All (λ x. pos 1 ≤ℤ x.remaining_size)) e (m.valid.positive (opposite s))).0),
    )

    round_trades : n ≡ true → traded (ts ++ (stepped s n b o best rest).2) ≡ traded ts +ℤ size
    round_trades q =
        rw (match_step_trades s n b o best rest, q)
          (rw (traded-append ts (trade ∷ []), trade_of-size s b.symbol size o best)
            (omega int_laws))

    defined : match_step s n b o best rest ≡ some (stepped s n b o best rest)
    defined = match_step-pos s n b o best rest (
        min-pos o.remaining_size best.remaining_size m.left open_
          (subst (All (λ x. pos 1 ≤ℤ x.remaining_size)) e (m.valid.positive (opposite s))).0)

    match_step-Matching :
        let (b', o', ts') = stepped s n b o best rest in Matching s n b₀ o₀ b' o' (ts ++ ts')
    match_step-Matching = record {
      valid = match_step-IsValid s n b o best rest m.valid e;
      same = rw (match_step_incoming s n b o best rest) m.same;
      left =
          rw (match_step_incoming s n b o best rest)
            (sub-min_nonneg o.remaining_size best.remaining_size);
      fresh = after-fresh s n b o best rest m.valid e o₀.id m.fresh;
      old = λ id i h. m.old id i (after-old s n b o best rest m.valid e id i h);
      own = after-own s n b o best rest m.valid e ∙ m.own;
      fair = All-append (IsFair s o₀.price) ts _ m.fair (
          rw (match_step_trades s n b o best rest)
            (elim (Bool-cases n) [ inl q ↦ rw q (trade-IsFair, tt) | inr q ↦ rw q tt ]));
      spent = λ q.
          rw (match_step_incoming s n b o best rest, round_trades q)
            (omega (int_laws, ap pos_part (m.spent q), ap neg_part (m.spent q)));
      taken = λ q.
          rw (round_trades q)
            (taken_more _ _ _ _ _ (after-total s n b o best rest m.valid e) (m.taken q));
    }

  begin :
      IsValid b₀
      → pos 1 ≤ℤ o₀.remaining_size
      → find o₀.id b₀.orders ≡ none
      → Matching s n b₀ o₀ b₀ o₀ []
  begin v p fresh = record {
    valid = v;
    same = refl;
    left = omega arith;
    fresh = fresh;
    old = λ id i h. h;
    own = refl;
    fair = tt;
    spent = λ q. omega int_laws;
    taken = λ q. omega int_laws;
  }

  -- The loop ends in a state with all of that.
  pub match_loop-Matching :
      IsValid b₀
      → pos 1 ≤ℤ o₀.remaining_size
      → find o₀.id b₀.orders ≡ none
      → (r : OrderBook P × Order P × List (Trade P)) × (match_loop (match_fuel s b₀) s n b₀ o₀
          ≡ some r)
        × Matching s n b₀ o₀ r.0 r.1 r.2
        × Stopped s r.0 r.1
  match_loop-Matching v p fresh =
      match_loop_rule s n (Matching s n b₀ o₀)
        (λ b o best rest ts m e open_ go. (
          defined b o best rest ts m e open_ go,
          match_step-Matching b o best rest ts m e open_ go,
        ))
        (match_fuel s b₀) b₀ o₀ [] (ground arith) (begin v p fresh)

module _ {P : Type 0} ⦃f : Float P⦄ where
  -- A price that is out of reach at one order is so at every order behind it.
  stops_behind :
      (s : Side) (x y : Info P) (p : P)
      → before (opposite s) x y ≡ true
      → stops s x.price p ≡ true
      → stops s y.price p ≡ true
  unfolding buy_before sell_before
  stops_behind buy x y p h k =
      ground (arith, f.lt_trans p x.price y.price, f.lt_congr_right x.price y.price p)
  stops_behind sell x y p h k =
      ground (arith, f.lt_trans y.price x.price p, f.lt_congr_left x.price y.price p)

  stops_rest :
      (s : Side) (x : Info P) (p : P) (os : List (Order P))
      → AllAfter info_of (before (opposite s)) x os
      → stops s x.price p ≡ true
      → All (λ y. stops s y.price p ≡ true) os
  stops_rest s x p [] h k = tt
  stops_rest s x p (y ∷ os) h k = (stops_behind s x y.info p h.0 k, stops_rest s x p os h.1 k)

  Stopped-Clear :
      (s : Side) (b : OrderBook P) (o : Order P)
      → IsValid b
      → is_filled o ≡ false
      → Stopped s b o
      → All (λ y. stops s y.price o.price ≡ true) (resting (opposite s) b)
  Stopped-Clear s b o v h (inl e) = cc
  Stopped-Clear s b o v h (inr (inl e)) = rw e tt
  Stopped-Clear s b o v h (inr (inr (best, rest, e, stop))) = rw e (
    stop,
    stops_rest s best.info o.price rest
        (subst (IsSorted info_of (before (opposite s))) e (v.sorted (opposite s))).0 stop,
  )

  pub record Matched (n : Bool) (b : OrderBook P) (o : Order P) (r : OrderBook P × List (Trade P))
      : Type 0 where
    pub valid : IsValid r.0
    -- the map has the entries that it had, but for those filled, and the order's
    pub ids :
        (id : Text) (i : Info P)
        → find id r.0.orders ≡ some i
        → (find id b.orders ≡ some i) ⊎ (id ≡ o.id)
    pub fair : All (IsFair o.side o.price) r.1
    pub taken :
        n ≡ true
        → total (resting (opposite o.side) r.0) +ℤ traded r.1 ≡ total (resting (opposite o.side) b)
    pub spent :
        n ≡ true
        → total (resting o.side r.0) +ℤ traded r.1 ≡ total (resting o.side b) +ℤ o.remaining_size

  pub match_order-side :
      (t : Side) (n : Bool) (b : OrderBook P) (o : Order P)
      → o.side ≡ t
      → match_order n b o ≡ Option.map rest_unfilled (match_loop (match_fuel t b) t n b o)
  unfolding match_order
  match_order-side buy n b o e = simp (e, match_order)
  match_order-side sell n b o e = simp (e, match_order)

  resting_other :
      (t : Side) (os : List (Order P)) (b : OrderBook P) (m : Dict Text (Info P))
      → resting (opposite t) (with_resting t os (record b { orders = m })) ≡ resting (opposite t) b
  resting_other buy os b m = refl
  resting_other sell os b m = refl

  module _ (b : OrderBook P) (o : Order P) where
    add_order-other : resting (opposite o.side) (add_order b o) ≡ resting (opposite o.side) b
    unfolding add_order
    add_order-other =
        resting_other o.side (insert o.side o (resting o.side b)) b (assign o.id o.info b.orders)

    add_order-find :
        (id : Text) (i : Info P)
        → find id (add_order b o).orders ≡ some i
        → (find id b.orders ≡ some i) ⊎ (id ≡ o.id)
    unfolding add_order
    add_order-find id i =
        rw
          (orders-with_resting o.side (insert o.side o (resting o.side b))
            (record b { orders = assign o.id o.info b.orders }))
          (λ e. ground (arith, find-assign o.id id o.info b.orders, eq_of_beq o.id id))

    add_order-own : resting o.side (add_order b o) ≡ insert o.side o (resting o.side b)
    unfolding add_order
    add_order-own =
        resting-with_resting o.side (insert o.side o (resting o.side b))
          (record b { orders = assign o.id o.info b.orders })

  module _ (n : Bool) (b : OrderBook P) (o : Order P) (v : IsValid b)
      (p : pos 1 ≤ℤ o.remaining_size) (fresh : find o.id b.orders ≡ none) where
    rested :
        (b' : OrderBook P) (q : ℤ) (ts : List (Trade P))
        → Matching o.side n b o b' (record o { remaining_size = q }) ts
        → is_zero q ≡ false
        → Stopped o.side b' (record o { remaining_size = q })
        → Matched n b o (add_order b' (record o { remaining_size = q }), ts)
    rested b' q ts m h d =
        let o' : Order P = record o { remaining_size = q } in
        record {
          valid =
              add_order-IsValid b' o' m.valid m.fresh (positive q m.left h)
                (Stopped-Clear o.side b' o' m.valid h d);
          ids = λ id i e. map_left (m.old id i) (add_order-find b' o' id i e);
          fair = m.fair;
          taken = λ e. rw (add_order-other b' o') (m.taken e);
          spent = λ e.
              rw
                (
                  add_order-own b' o',
                  total-insert o.side o' (resting o.side b') (
                      fresh_id b'.orders o.id m.fresh (resting o.side b') (m.valid.indexed o.side)),
                  m.own,
                )
                (omega (int_laws, ap pos_part (m.spent e), ap neg_part (m.spent e)));
        }

    filled :
        (b' : OrderBook P) (q : ℤ) (ts : List (Trade P))
        → Matching o.side n b o b' (record o { remaining_size = q }) ts
        → q ≡ pos 0
        → Matched n b o (b', ts)
    filled b' q ts m z = record {
      valid = m.valid;
      ids = λ id i e. inl (m.old id i e);
      fair = m.fair;
      taken = m.taken;
      spent = λ e. rw m.own (
          omega (
            int_laws,
            ap pos_part (m.spent e),
            ap neg_part (m.spent e),
            ap pos_part z,
            ap neg_part z,
          ));
    }

    finished_as :
        (b' : OrderBook P) (q : ℤ) (ts : List (Trade P))
        → Matching o.side n b o b' (record o { remaining_size = q }) ts
        → Stopped o.side b' (record o { remaining_size = q })
        → Matched n b o (rest_unfilled (b', record o { remaining_size = q }, ts))
    finished_as b' q ts m d = elim (Bool-cases (is_zero q)) [
      | inl e ↦ rw e (filled b' q ts m (zero_of q e))
      | inr e ↦ rw e (rested b' q ts m e d)
    ]

    finished :
        (b' : OrderBook P) (o' : Order P) (ts : List (Trade P))
        → Matching o.side n b o b' o' ts
        → Stopped o.side b' o'
        → Matched n b o (rest_unfilled (b', o', ts))
    finished b' o' ts m d =
        let e : o' ≡ record o { remaining_size = o'.remaining_size } =
          λ i. record { info = m.same i; remaining_size = o'.remaining_size } in
        subst (λ x. Matched n b o (rest_unfilled (b', x, ts))) (sym e)
          (finished_as b' o'.remaining_size ts (subst (λ x. Matching o.side n b o b' x ts) e m)
            (subst (Stopped o.side b') e d))

    -- A call with a valid book and a new order of a fresh id and a positive size ends. The book is
    -- valid after it, every trade is within the order's limit and of a positive size, and, if a
    -- notifier is set, the notified sizes are what the other side has lost, and what the order has
    -- lost on its way into its own side.
    pub match_order-Matched :
        (r : OrderBook P × List (Trade P)) × (match_order n b o ≡ some r) × Matched n b o r
    match_order-Matched =
        let (r, run, m, d) = match_loop-Matching o.side n b o v p fresh in
        (
          rest_unfilled r,
          match_order-side o.side n b o refl ∙ ap (Option.map rest_unfilled) run,
          finished r.0 r.1 r.2 m d,
        )
