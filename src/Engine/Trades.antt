-- ===== src/Engine/Trades.antt =====
-- Sizes of resting orders and of trades, summed.
use studycpp.Prelude.{◌≡◌, refl, ◌≢◌, inl, inr, true, false, List, [], ◌∷◌, ◌++◌, arith, Bool-cases}
use studycpp.Prelude.Int.{ℤ, pos, ◌+ℤ◌, ◌-ℤ◌, is_zero, min_ℤ, ◌≤ℤ◌, int_laws}
use studycpp.Std.OrderedSet.{All}
use studycpp.Std.OrderedSet
use studycpp.Engine.Float.{Float}
use studycpp.Engine.Order.{Side, Order, Trade, before}
use studycpp.Engine.Book.{insert}
use studycpp.Engine.Compare.{before_total}

module _ {P : Type 0} where
  -- what the resting orders of a side still offer
  abbrev pub total : List (Order P) → ℤ
  total [] = pos 0
  total (o ∷ os) = o.remaining_size +ℤ total os

  -- what was traded
  abbrev pub traded : List (Trade P) → ℤ
  traded [] = pos 0
  traded (t ∷ ts) = t.size +ℤ traded ts

  pub traded-append : (ts us : List (Trade P)) → traded (ts ++ us) ≡ traded ts +ℤ traded us
  traded-append [] us = omega int_laws
  traded-append (t ∷ ts) us = rw (traded-append ts us) (omega int_laws)

  pub total-insert :
      ⦃f : Float P⦄ (s : Side) (o : Order P) (os : List (Order P))
      → All (λ x. x.id ≢ o.id) os
      → total (insert s o os) ≡ o.remaining_size +ℤ total os
  unfolding OrderedSet.insert
  total-insert s o [] h = refl
  total-insert s o (x ∷ os) h = elim (Bool-cases (before s o.info x.info)) [
    | inl e ↦ rw e refl
    | inr e ↦ elim (Bool-cases (before s x.info o.info)) [
      | inl e' ↦ rw (e, e') (rw (total-insert s o os h.1) (omega int_laws))
      | inr e' ↦ absurd (h.0 (before_total s x.info o.info e' e))
    ]
  ]

pub zero_of : (a : ℤ) → is_zero a ≡ true → a ≡ pos 0
zero_of a h = ground arith

pub min-pos : (a b : ℤ) → pos 0 ≤ℤ a → is_zero a ≡ false → pos 1 ≤ℤ b → pos 1 ≤ℤ min_ℤ a b
min-pos a b h k l = ground arith

pub sub-min_nonneg : (a b : ℤ) → pos 0 ≤ℤ a -ℤ min_ℤ a b
unfolding ◌-ℤ◌
sub-min_nonneg a b = ground arith
