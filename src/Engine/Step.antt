-- ===== src/Engine/Step.antt =====
-- One round of the matching loop: its trade, and the two orders after it.
use studycpp.Prelude.{
  ◌≡◌, refl, ◌∙◌, ◌⊎◌, inl, inr, Bool, true, false, some, List, [], ◌∷◌, arith, if◌then◌else◌,
  Bool-cases,
}
use studycpp.Prelude.Do.{>>=-some}
use studycpp.Prelude.Int.{ℤ, pos, ◌-ℤ◌, ◌≤ℤ◌, min_ℤ, ltb_ℤ, is_zero}
use studycpp.Std.Key.{list_eq}
use studycpp.Std.Dict
use studycpp.Std.OrderedSet.{AllAfter, insert_first}
use studycpp.Engine.Float.{Float}
use studycpp.Engine.Order.{
  Side, opposite, Order, info_of, before, overflows, reduce_size, is_filled, Trade,
}
use studycpp.Engine.Book.{OrderBook, with_resting, match_step, after_trade, trade_of, trade_size}

ltb_ℤ-min_left : (a b : ℤ) → ltb_ℤ a (min_ℤ a b) ≡ false
ltb_ℤ-min_left a b = ground arith

ltb_ℤ-min_right : (a b : ℤ) → ltb_ℤ b (min_ℤ a b) ≡ false
ltb_ℤ-min_right a b = ground arith

sub_self : (a : ℤ) → a -ℤ a ≡ pos 0
unfolding ◌-ℤ◌
sub_self a = ground arith

-- Taking the smaller of two numbers off both leaves a zero.
pub sub-min_cases :
    (a b : ℤ) → (is_zero (a -ℤ min_ℤ a b) ≡ true) ⊎ (is_zero (b -ℤ min_ℤ a b) ≡ true)
sub-min_cases a b = elim (Bool-cases (ltb_ℤ b a)) [
  | inl e ↦ inr (rw (e, sub_self b))
  | inr e ↦ inl (rw (e, sub_self a))
]

abbrev pub reduced : {P : Type 0} → Order P → ℤ → Order P
reduced o size = record o { remaining_size = o.remaining_size -ℤ size }

module _ {P : Type 0} (o best : Order P) where
  reduce_size_incoming :
      overflows o.remaining_size (trade_size o best) ≡ false
      → reduce_size o (trade_size o best) ≡ some (true, reduced o (trade_size o best))
  unfolding reduce_size
  reduce_size_incoming h =
      rw (reduce_size, ltb_ℤ-min_left o.remaining_size best.remaining_size, h) refl

  reduce_size_best :
      overflows best.remaining_size (trade_size o best) ≡ false
      → reduce_size best (trade_size o best) ≡ some (true, reduced best (trade_size o best))
  unfolding reduce_size
  reduce_size_best h =
      rw (reduce_size, ltb_ℤ-min_right o.remaining_size best.remaining_size, h) refl

overflows-pos : (a b : ℤ) → pos 1 ≤ℤ b → overflows a b ≡ false
overflows-pos a b h = let e : ltb_ℤ b (pos 0) ≡ false = ground (arith, h) in rw e refl

module _ {P : Type 0} ⦃f : Float P⦄ (s : Side) (notifier : Bool) (b : OrderBook P)
    (o best : Order P) (rest : List (Order P)) where
  -- a round whose subtractions do not overflow
  unfoldable pub stepped : OrderBook P × Order P × List (Trade P)
  stepped =
      after_trade s notifier b o best rest (reduced o (trade_size o best))
        (reduced best (trade_size o best))

  pub match_step-stepped :
      overflows o.remaining_size (trade_size o best) ≡ false
      → overflows best.remaining_size (trade_size o best) ≡ false
      → match_step s notifier b o best rest ≡ some stepped
  unfolding match_step stepped
  match_step-stepped h k =
      >>=-some _ (reduce_size_incoming o best h) ∙ >>=-some _ (reduce_size_best o best k)

  -- A trade of a positive size does not overflow.
  pub match_step-pos :
      pos 1 ≤ℤ trade_size o best → match_step s notifier b o best rest ≡ some stepped
  match_step-pos h =
      match_step-stepped (overflows-pos o.remaining_size (trade_size o best) h)
        (overflows-pos best.remaining_size (trade_size o best) h)

  pub match_step_incoming : stepped.1 ≡ reduced o (trade_size o best)
  unfolding stepped
  match_step_incoming = refl

  pub match_step_trades :
      stepped.2 ≡ (if notifier then trade_of s b.symbol (trade_size o best) o best ∷ [] else [])
  unfolding stepped
  match_step_trades = refl

  pub match_step_book :
      AllAfter info_of (before (opposite s)) best.info rest
      → stepped.0 ≡ (
          if is_filled (reduced best (trade_size o best))
          then with_resting (opposite s) rest (record b { orders = Dict.erase best.id b.orders })
          else with_resting (opposite s) (reduced best (trade_size o best) ∷ rest) b)
  unfolding stepped
  match_step_book h =
      rw (insert_first info_of (before (opposite s)) (reduced best (trade_size o best)) rest h) refl

  -- A resting order that is filled leaves the book.
  pub match_step_filled :
      is_zero (best.remaining_size -ℤ trade_size o best) ≡ true
      → stepped.0
        ≡ with_resting (opposite s) rest (record b { orders = Dict.erase best.id b.orders })
  unfolding stepped
  match_step_filled h = rw h refl
