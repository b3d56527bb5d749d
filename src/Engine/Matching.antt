-- ===== src/Engine/Matching.antt =====
-- `OrderBook::matchOrder`: what the loop keeps, and what the whole call does.
pub mod Result
pub mod Negative
use mathlib.Core.Option
use studycpp.Prelude.{
  ℕ, zero, suc, ◌+◌, ◌-◌, ◌*◌, ◌/◌, ◌%◌, ◌^◌, ◌≤◌, ◌<◌, min, max, bit_and, bit_or, ◌≡◌, refl, sym,
  ap, ap₂, subst, ◌∙◌, ◌≢◌, ◌↔◌, ◌⊎◌, inl, inr, Bool, true, false, not, ◌&&◌, ◌||◌, Option, none,
  some, List, [], ◌∷◌, ◌++◌, map, append_assoc, append-nil, arith, dec_lt, ℕ_discrete, ltb, leb,
  ◌==◌, if◌then◌else◌, ltb→lt, lt→ltb, leb→le, ==_iff, Bool-cases, Option-cases, List-cases, length,
  get_elem?, set, length-append, length-set, get_elem?-set_self, get_elem?-set_ne, get_or, take,
  drop, replicate, take-append-drop, length-take, length-drop, length-replicate, length-map,
}
use studycpp.Prelude.Int.{ℤ, pos, pos_part, neg_part, ◌+ℤ◌, ◌-ℤ◌, ◌≤ℤ◌, min_ℤ, is_zero, int_laws}
use studycpp.Std.Key.{list_eq}
use studycpp.Std.Dict.{find, find-erase}
use studycpp.Std.Dict
use studycpp.Std.OrderedSet.{All, All-imp, AllAfter, IsSorted}
use studycpp.Std.Text.{Text}
use studycpp.Engine.Float.{Float, lt, lt_of_not_lt}
use studycpp.Engine.Order.{
  Side, buy, sell, opposite, Info, Order, info_of, before, is_filled, Trade,
}
use studycpp.Engine.Book.{
  OrderBook, resting, with_resting, match_step, match_loop, match_fuel, trade_size, trade_of, stops,
}
use studycpp.Engine.Step.{stepped, reduced, match_step_book, match_step_incoming, match_step_trades}
use studycpp.Engine.Loop.{rounds, Stopped, Ends, match_loop_rule, resting-with_resting}
use studycpp.Engine.Trades.{total, traded, traded-append, zero_of, min-pos, sub-min_nonneg}
use studycpp.Engine.Invariant.{IsValid}
use studycpp.Engine.Invariant.Match.{rest-AllAfter, match_step-IsValid, orders-with_resting}

-- A trade of an incoming order of side `s` at this limit: within the limit, and not empty.
abbrev pub IsFair : {P : Type 0} ⦃f : Float P⦄ → Side → P → Trade P → Type 0
IsFair s limit t = (stops s t.price limit ≡ false) × (pos 1 ≤ℤ t.size)

-- What holds at each round of the loop that began with the book `b₀` and the order `o₀`.
pub record Matching {P : Type 0} ⦃f : Float P⦄ (s : Side) (n : Bool) (b₀ : OrderBook P)
    (o₀ : Order P) (b : OrderBook P) (o : Order P) (ts : List (Trade P)) : Type 0 where
  pub valid : IsValid b
  pub same : o.info ≡ o₀.info
  pub left : pos 0 ≤ℤ o.remaining_size
  pub fresh : find o₀.id b.orders ≡ none
  pub old : (id : Text) (i : Info P) → find id b.orders ≡ some i → find id b₀.orders ≡ some i
  pub own : resting s b ≡ resting s b₀
  pub fair : All (IsFair s o₀.price) ts
  -- with a notifier, the trades account for what the incoming order has lost
  pub spent : n ≡ true → o.remaining_size +ℤ traded ts ≡ o₀.remaining_size
  -- and for what the other side has lost
  pub taken :
      n ≡ true → total (resting (opposite s) b) +ℤ traded ts ≡ total (resting (opposite s) b₀)

All-append : {A : Type 0} (Q : A → Type 0) (xs ys : List A) → All Q xs → All Q ys → All Q (xs ++ ys)
All-append Q [] ys h k = k
All-append Q (x ∷ xs) ys h k = (h.0, All-append Q xs ys h.1 k)

module _ {P : Type 0} ⦃f : Float P⦄ where
  resting_own :
      (s : Side) (os : List (Order P)) (b : OrderBook P)
      → resting s (with_resting (opposite s) os b) ≡ resting s b
  resting_own buy os b = refl
  resting_own sell os b = refl

  trade_of-price :
      (s : Side) (x : Text) (q : ℤ) (o best : Order P) → (trade_of s x q o best).price ≡ best.price
  trade_of-price buy x q o best = refl
  trade_of-price sell x q o best = refl

  trade_of-size :
      (s : Side) (x : Text) (q : ℤ) (o best : Order P) → (trade_of s x q o best).size ≡ q
  trade_of-size buy x q o best = refl
  trade_of-size sell x q o best = refl

  module _ (s : Side) (n : Bool) (b : OrderBook P) (o best : Order P) (rest : List (Order P))
      (v : IsValid b) (e : resting (opposite s) b ≡ best ∷ rest) where
    abbrev size : ℤ
    size = trade_size o best

    abbrev after : OrderBook P
    after = (stepped s n b o best rest).0

    after_book : after ≡ (
        if is_filled (reduced best size)
        then with_resting (opposite s) rest (record b { orders = Dict.erase best.id b.orders })
        else with_resting (opposite s) (reduced best size ∷ rest) b)
    after_book = match_step_book s n b o best rest (rest-AllAfter (opposite s) b best rest v e)

    after-own : resting s after ≡ resting s b
    after-own = rw after_book (elim (Bool-cases (is_filled (reduced best size))) [
      | inl q ↦ rw q (
          resting_own s rest (record b { orders = Dict.erase best.id b.orders }) ∙ resting_orders s)
      | inr q ↦ rw q (resting_own s (reduced best size ∷ rest) b)
    ])
      where
        resting_orders :
            (t : Side) → resting t (record b { orders = Dict.erase best.id b.orders }) ≡ resting t b
        resting_orders buy = refl
        resting_orders sell = refl

    after-fresh : (id : Text) → find id b.orders ≡ none → find id after.orders ≡ none
    after-fresh id h = rw after_book (elim (Bool-cases (is_filled (reduced best size))) [
      | inl q ↦ rw q (
          rw
            (orders-with_resting (opposite s) rest
              (record b { orders = Dict.erase best.id b.orders }))
            (ground (arith, find-erase best.id id b.orders)))
      | inr q ↦ rw q (rw (orders-with_resting (opposite s) (reduced best size ∷ rest) b) h)
    ])

    after-old : (id : Text) (i : Info P) → find id after.orders ≡ some i → find id b.orders ≡ some i
    after-old id i = rw after_book (elim (Bool-cases (is_filled (reduced best size))) [
      | inl q ↦ rw q (
          rw
            (orders-with_resting (opposite s) rest
              (record b { orders = Dict.erase best.id b.orders }))
            (λ h. ground (arith, find-erase best.id id b.orders)))
      | inr q ↦ rw q (rw (orders-with_resting (opposite s) (reduced best size ∷ rest) b) (λ h. h))
    ])

    -- The other side loses the size of the trade.
    after-total : total (resting (opposite s) after) +ℤ size ≡ total (resting (opposite s) b)
    after-total =
        rw (after_book, e)
          (elim (Bool-cases (is_filled (reduced best size))) [
            | inl q ↦ rw q (
                rw
                  (resting-with_resting (opposite s) rest
                    (record b { orders = Dict.erase best.id b.orders }))
                  (let z : best.remaining_size -ℤ size ≡ pos 0 =
                      zero_of (best.remaining_size -ℤ size) q in
                    omega (int_laws, ap pos_part z, ap neg_part z)))
            | inr q ↦ rw q (
                rw (resting-with_resting (opposite s) (reduced best size ∷ rest) b)
                  (omega int_laws))
          ])
