-- ===== src/Engine/Loop.antt =====
-- The matching loop: it ends, and what each round keeps holds at its end.
use studycpp.Prelude.{
  ℕ, zero, suc, ◌<◌, ◌≡◌, refl, sym, subst, ◌∙◌, ◌⊎◌, inl, inr, Bool, true, false, ◌||◌, some, List,
  [], ◌∷◌, ◌++◌, append_assoc, append-nil, arith, if◌then◌else◌, Bool-cases, List-cases, length,
}
use studycpp.Prelude.Do.{>>=-some}
use studycpp.Std.Key.{list_eq}
use studycpp.Std.Dict
use studycpp.Engine.Float.{Float}
use studycpp.Engine.Order.{Side, buy, sell, opposite, Order, is_filled, Trade}
use studycpp.Engine.Book.{OrderBook, with_resting, resting, match_step, match_loop, stops}
use studycpp.Engine.Step.{stepped, match_step_incoming, sub-min_cases, match_step_filled}

module _ {P : Type 0} where
  pub resting-with_resting :
      (s : Side) (os : List (Order P)) (b : OrderBook P) → resting s (with_resting s os b) ≡ os
  resting-with_resting buy os b = refl
  resting-with_resting sell os b = refl

  -- A bound on the rounds that are left.
  abbrev pub rounds : Side → OrderBook P → Order P → ℕ
  rounds s b o = if is_filled o then 0 else length (resting (opposite s) b)

module _ {P : Type 0} ⦃f : Float P⦄ where
  -- The three ways in which the loop ends.
  abbrev pub Stopped : Side → OrderBook P → Order P → Type 0
  Stopped s b o =
      (is_filled o ≡ true)
      ⊎ (resting (opposite s) b ≡ [])
      ⊎ ((best : Order P) × (rest : List (Order P)) × (resting (opposite s) b ≡ best ∷ rest)
          × (stops s best.price o.price ≡ true))

  -- A round leaves fewer rounds: it fills one of the two orders.
  pub rounds-match_step :
      (s : Side) (n : Bool) (b : OrderBook P) (o best : Order P) (rest : List (Order P))
      → is_filled o ≡ false
      → resting (opposite s) b ≡ best ∷ rest
      → let (b', o', ts) = stepped s n b o best rest in rounds s b' o' < rounds s b o
  rounds-match_step s n b o best rest h e =
      elim (sub-min_cases o.remaining_size best.remaining_size) [
        | inl filled ↦ rw (match_step_incoming s n b o best rest, filled, h, e) (omega arith)
        | inr filled ↦
            rw (match_step_filled s n b o best rest filled, h, e)
              (rw
                (resting-with_resting (opposite s) rest
                  (record b { orders = Dict.erase best.id b.orders }))
                (ground arith))
      ]

  -- The rule of the loop, for an invariant of the book, the incoming order and the trades so far.
  module _ (s : Side) (n : Bool) (Inv : OrderBook P → Order P → List (Trade P) → Type 0) where
    abbrev pub Kept : Type 0
    Kept =
        (b : OrderBook P) (o best : Order P) (rest : List (Order P)) (ts : List (Trade P))
        → Inv b o ts
        → resting (opposite s) b ≡ best ∷ rest
        → is_filled o ≡ false
        → stops s best.price o.price ≡ false
        → (match_step s n b o best rest ≡ some (stepped s n b o best rest))
          × (let (b', o', ts') = stepped s n b o best rest in Inv b' o' (ts ++ ts'))

    abbrev pub Ends : ℕ → OrderBook P → Order P → List (Trade P) → Type 0
    Ends fuel b o ts =
        (r : OrderBook P × Order P × List (Trade P)) × (match_loop fuel s n b o ≡ some r)
        × Inv r.0 r.1 (ts ++ r.2)
        × Stopped s r.0 r.1

    match_loop_stop :
        (fuel : ℕ) (b : OrderBook P) (o : Order P) (ts : List (Trade P))
        → match_loop fuel s n b o ≡ some (b, o, [])
        → Inv b o ts
        → Stopped s b o
        → Ends fuel b o ts
    match_loop_stop fuel b o ts e h d = ((b, o, []), e, subst (Inv b o) (sym (append-nil ts)) h, d)

    -- With a filled order the loop ends at once.
    pub match_loop_filled :
        (fuel : ℕ) (b : OrderBook P) (o : Order P)
        → is_filled o ≡ true
        → match_loop (suc fuel) s n b o ≡ some (b, o, [])
    unfolding match_loop
    match_loop_filled fuel b o h = elim (List-cases (resting (opposite s) b)) [
      | inl e ↦ rw (e, match_loop) refl
      | inr (best, rest, e) ↦ rw (e, match_loop) (rw h refl)
    ]

    match_loop-nil :
        (fuel : ℕ) (b : OrderBook P) (o : Order P)
        → resting (opposite s) b ≡ []
        → match_loop (suc fuel) s n b o ≡ some (b, o, [])
    unfolding match_loop
    match_loop-nil fuel b o e = rw (e, match_loop)

    module _ (fuel : ℕ) (b : OrderBook P) (o best : Order P) (rest : List (Order P)) where
      match_loop-stop :
          resting (opposite s) b ≡ best ∷ rest
          → (is_filled o || stops s best.price o.price) ≡ true
          → match_loop (suc fuel) s n b o ≡ some (b, o, [])
      unfolding match_loop
      match_loop-stop e h = rw (e, match_loop) (rw h refl)

      pub match_loop-more :
          (r : OrderBook P × Order P × List (Trade P))
          → resting (opposite s) b ≡ best ∷ rest
          → is_filled o ≡ false
          → stops s best.price o.price ≡ false
          → match_step s n b o best rest ≡ some (stepped s n b o best rest)
          → let (b', o', ts) = stepped s n b o best rest in
            match_loop fuel s n b' o' ≡ some r
            → match_loop (suc fuel) s n b o ≡ some (r.0, r.1, ts ++ r.2)
      unfolding match_loop
      match_loop-more r e h k d m = rw (e, match_loop) (rw (h, k) (>>=-some _ d ∙ rw m refl))

    pub match_loop_rule :
        Kept
        → (fuel : ℕ) (b : OrderBook P) (o : Order P) (ts : List (Trade P)) → rounds s b o < fuel
        → Inv b o ts
        → Ends fuel b o ts
    match_loop_rule keep zero b o ts m h = absurd (omega arith)
    match_loop_rule keep (suc fuel) b o ts m h = elim (List-cases (resting (opposite s) b)) [
      | inl e ↦ match_loop_stop (suc fuel) b o ts (match_loop-nil fuel b o e) h (inr (inl e))
      | inr (best, rest, e) ↦ elim (Bool-cases (is_filled o)) [
        | inl filled ↦
            match_loop_stop (suc fuel) b o ts
              (match_loop-stop fuel b o best rest e (rw filled refl)) h (inl filled)
        | inr open_ ↦ elim (Bool-cases (stops s best.price o.price)) [
          | inl stop ↦
              match_loop_stop (suc fuel) b o ts
                (match_loop-stop fuel b o best rest e (rw (open_, stop) refl)) h
                (inr (inr (best, rest, e, stop)))
          | inr go ↦
              let step : OrderBook P × Order P × List (Trade P) = stepped s n b o best rest in
              let (defined, kept) = keep b o best rest ts h e open_ go in
              let (r, run, inv, d) =
                match_loop_rule keep fuel step.0 step.1 (ts ++ step.2)
                  (omega (arith, rounds-match_step s n b o best rest open_ e)) kept in
              (
                (r.0, r.1, step.2 ++ r.2),
                match_loop-more fuel b o best rest r e open_ go defined run,
                subst (Inv r.0 r.1) (append_assoc ts step.2 r.2) inv,
                d,
              )
        ]
      ]
    ]
