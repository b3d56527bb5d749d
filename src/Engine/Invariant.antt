-- ===== src/Engine/Invariant.antt =====
-- What holds of every book between two calls.
pub mod Index
pub mod Match
pub mod Add
pub mod Remove
use studycpp.Prelude.{
  ℕ, zero, suc, ◌+◌, ◌-◌, ◌*◌, ◌/◌, ◌%◌, ◌^◌, ◌≤◌, ◌<◌, min, max, bit_and, bit_or, ◌≡◌, refl, sym,
  ap, ap₂, subst, ◌∙◌, ◌≢◌, ◌↔◌, ◌⊎◌, inl, inr, Bool, true, false, not, ◌&&◌, ◌||◌, Option, none,
  some, List, [], ◌∷◌, ◌++◌, map, append_assoc, append-nil, arith, dec_lt, ℕ_discrete, ltb, leb,
  ◌==◌, if◌then◌else◌, ltb→lt, lt→ltb, leb→le, ==_iff, Bool-cases, Option-cases, List-cases, length,
  get_elem?, set, length-append, length-set, get_elem?-set_self, get_elem?-set_ne, get_or, take,
  drop, replicate, take-append-drop, length-take, length-drop, length-replicate, length-map,
}
use studycpp.Prelude.Int.{ℤ, pos, ◌≤ℤ◌}
use studycpp.Std.Key.{list_eq}
use studycpp.Std.Dict.{find}
use studycpp.Std.OrderedSet.{All, IsSorted}
use studycpp.Std.Text.{Text}
use studycpp.Engine.Float.{Float, lt}
use studycpp.Engine.Order.{Side, buy, sell, Info, Order, info_of, before}
use studycpp.Engine.Book.{OrderBook, resting, empty_book}
use studycpp.Engine.Holds.{Holds}

pub record IsValid {P : Type 0} ⦃f : Float P⦄ (b : OrderBook P) : Type 0 where
  -- each set is in the order of its comparator, with no two equivalent orders
  pub sorted : (s : Side) → IsSorted info_of (before s) (resting s b)
  -- and has orders of its side alone
  pub sided : (s : Side) → All (λ o. o.side ≡ s) (resting s b)
  -- the map has every resting order under its id
  pub indexed : (s : Side) → All (λ o. find o.id b.orders ≡ some o.info) (resting s b)
  -- and nothing else
  pub held :
      (id : Text) (i : Info P)
      → find id b.orders ≡ some i
      → (i.id ≡ id) × Holds i (resting i.side b)
  -- no resting order is filled
  pub positive : (s : Side) → All (λ o. pos 1 ≤ℤ o.remaining_size) (resting s b)
  -- every bid is below every ask
  pub uncrossed : All (λ x. All (λ y. lt x.price y.price ≡ true) b.sell_orders) b.buy_orders

pub empty_book-IsValid :
    {P : Type 0} ⦃f : Float P⦄ (symbol : Text) → IsValid (empty_book {P = P} symbol)
unfolding find
empty_book-IsValid symbol = record {
  sorted = elim [ buy ↦ tt | sell ↦ tt ];
  sided = elim [ buy ↦ tt | sell ↦ tt ];
  indexed = elim [ buy ↦ tt | sell ↦ tt ];
  held = λ id i e. cc;
  positive = elim [ buy ↦ tt | sell ↦ tt ];
  uncrossed = tt;
}
