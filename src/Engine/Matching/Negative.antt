-- ===== src/Engine/Matching/Negative.antt =====
-- What the missing check of `size` in `placeOrder` lets through.
use mathlib.Core.Option
use studycpp.Prelude.{
  ℕ, suc, ◌+◌, ◌≤◌, ◌≡◌, refl, ap, ◌∙◌, true, false, some, List, [], ◌∷◌, arith, length,
}
use studycpp.Prelude.Int.{pos, negsuc, int_max, ◌-ℤ◌}
use studycpp.Std.Key.{list_eq}
use studycpp.Std.OrderedSet.{AllAfter}
use studycpp.Engine.Float.{Float}
use studycpp.Engine.Order.{Side, opposite, Order, info_of, before, overflows, is_filled}
use studycpp.Engine.Book.{
  OrderBook, trade_size, resting, with_resting, match_step, match_loop, trade_of, stops,
  rest_unfilled, match_order,
}
use studycpp.Engine.Step.{
  stepped, match_step-stepped, reduced, match_step_book, match_step_incoming, match_step_trades,
}
use studycpp.Engine.Loop.{match_loop-more, match_loop_filled}
use studycpp.Engine.Invariant.{IsValid}
use studycpp.Engine.Invariant.Match.{rest-AllAfter}
use studycpp.Engine.Matching.Result.{match_order-side}

grown : (k r : ℕ) → pos r -ℤ negsuc k ≡ pos (r + k + 1)
unfolding ◌-ℤ◌
grown k r = ground arith

spent_off : (k : ℕ) → negsuc k -ℤ negsuc k ≡ pos 0
unfolding ◌-ℤ◌
spent_off k = ground arith

overflows_off : (k : ℕ) → overflows (negsuc k) (negsuc k) ≡ false
unfolding ◌-ℤ◌
overflows_off k = ground arith

overflows_grown : (k r : ℕ) → r + k + 1 ≤ int_max → overflows (pos r) (negsuc k) ≡ false
unfolding ◌-ℤ◌
overflows_grown k r h = ground arith

module _ {P : Type 0} ⦃f : Float P⦄ (s : Side) (b : OrderBook P) (o best : Order P)
    (rest : List (Order P)) (k r : ℕ) (ek : o.remaining_size ≡ negsuc k)
    (er : best.remaining_size ≡ pos r) (fits : r + k + 1 ≤ int_max) where
  -- the best order of the other side, larger by the size that the new order is short of
  abbrev pub enlarged : Order P
  enlarged = record best { remaining_size = pos (r + k + 1) }

  negative_size : trade_size o best ≡ negsuc k
  negative_size = rw (ek, er) (ground arith)

  reduced_best : reduced best (trade_size o best) ≡ enlarged
  reduced_best = λ i. record best { remaining_size = left i }
    where
      left : best.remaining_size -ℤ trade_size o best ≡ pos (r + k + 1)
      left = rw (negative_size, er) (grown k r)

  reduced_incoming : reduced o (trade_size o best) ≡ record o { remaining_size = pos 0 }
  reduced_incoming = λ i. record o { remaining_size = left i }
    where
      left : o.remaining_size -ℤ trade_size o best ≡ pos 0
      left = rw (negative_size, ek) (spent_off k)

  not_filled : is_filled (reduced best (trade_size o best)) ≡ false
  not_filled = ap is_filled reduced_best ∙ ground arith

  negative_step : match_step s true b o best rest ≡ some (stepped s true b o best rest)
  negative_step =
      match_step-stepped s true b o best rest (rw (negative_size, ek) (overflows_off k))
        (rw (negative_size, er) (overflows_grown k r fits))

  module _ (behind : AllAfter info_of (before (opposite s)) best.info rest) where
    negative_book : (stepped s true b o best rest).0 ≡ with_resting (opposite s) (enlarged ∷ rest) b
    negative_book =
        match_step_book s true b o best rest behind
        ∙ rw not_filled (ap (λ x. with_resting (opposite s) (x ∷ rest) b) reduced_best)

    negative_trades : (stepped s true b o best rest).2 ≡ trade_of s b.symbol (negsuc k) o best ∷ []
    negative_trades = match_step_trades s true b o best rest ∙ rw negative_size refl

    negative_loop :
        (fuel : ℕ)
        → resting (opposite s) b ≡ best ∷ rest
        → stops s best.price o.price ≡ false
        → match_loop (suc (suc fuel)) s true b o
          ≡ some (
            with_resting (opposite s) (enlarged ∷ rest) b,
            record o { remaining_size = pos 0 },
            trade_of s b.symbol (negsuc k) o best ∷ [],
          )
    negative_loop fuel e go =
        match_loop-more s true (λ _ _ _. Unit {0}) (suc fuel) b o best rest
          (with_resting (opposite s) (enlarged ∷ rest) b, record o { remaining_size = pos 0 }, []) e
          (rw ek refl) go negative_step
          (rw (negative_book, match_step_incoming s true b o best rest ∙ reduced_incoming)
            (match_loop_filled s true (λ _ _ _. Unit {0}) fuel
              (with_resting (opposite s) (enlarged ∷ rest) b) (record o { remaining_size = pos 0 })
              refl))
        ∙ rw negative_trades refl

-- An order of a negative size that meets a resting order within its limit is not refused: it counts
-- as filled, a trade of that negative size is notified, and the resting order grows by the size
-- that the new order is short of, when the sum of the two sizes is an `int`.
pub match_order_negative :
    {P : Type 0} ⦃f : Float P⦄ (b : OrderBook P) (o best : Order P) (rest : List (Order P))
    (k r : ℕ)
    → o.remaining_size ≡ negsuc k
    → best.remaining_size ≡ pos r
    → r + k + 1 ≤ int_max
    → IsValid b
    → resting (opposite o.side) b ≡ best ∷ rest
    → stops o.side best.price o.price ≡ false
    → match_order true b o
      ≡ some (
        with_resting (opposite o.side) (record best { remaining_size = pos (r + k + 1) } ∷ rest) b,
        trade_of o.side b.symbol (negsuc k) o best ∷ [],
      )
match_order_negative b o best rest k r ek er fits v e go =
    match_order-side o.side true b o refl
    ∙ ap (Option.map rest_unfilled) (
        ap (λ n. match_loop (suc n) o.side true b o) (ap length e)
        ∙ negative_loop o.side b o best rest k r ek er fits
            (rest-AllAfter (opposite o.side) b best rest v e) (length rest) e go)
