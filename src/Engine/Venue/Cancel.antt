-- ===== src/Engine/Venue/Cancel.antt =====
-- `MatchingEngine::cancelOrder` over all books.
use studycpp.Prelude.{
  ℕ, ◌≡◌, refl, ◌≢◌, ◌⊎◌, inl, inr, Bool, true, false, ◌||◌, [], ◌∷◌, arith, Bool-cases,
}
use studycpp.Std.Key.{list_eq}
use studycpp.Std.Dict.{Dict, find, is_some}
use studycpp.Std.OrderedSet.{All}
use studycpp.Std.Text.{Text}
use studycpp.Engine.Float.{Float}
use studycpp.Engine.Order.{Side}
use studycpp.Engine.Book.{OrderBook, resting, remove_order}
use studycpp.Engine.Invariant.Remove.{remove_order-Removed}
use studycpp.Engine.Venue.{MatchingEngine, remove_from_books, cancel_order}
use studycpp.Engine.Venue.Ready.{IsGood, AreGood, IsReady}

module _ {P : Type 0} ⦃f : Float P⦄ where
  -- some book has an order with this id
  abbrev pub any_book : Text → Dict Text (OrderBook P) → Bool
  any_book id [] = false
  any_book id ((x, b) ∷ bs) = is_some (find id b.orders) || any_book id bs

  -- no resting order of the first book that had the id has it any more
  abbrev pub Gone : Text → Dict Text (OrderBook P) → Dict Text (OrderBook P) → Type 0
  Gone id [] bs' = bs' ≡ []
  Gone id (e ∷ bs) [] = ⊥
  Gone id ((x, b) ∷ bs) ((x', b') ∷ bs') =
      (x' ≡ x)
      × (((is_some (find id b.orders) ≡ true)
            × ((s : Side) → All (λ o. o.id ≢ id) (resting s b'))
            × (bs' ≡ bs))
          ⊎ ((is_some (find id b.orders) ≡ false) × (b' ≡ b) × Gone id bs bs'))

  remove_order-IsGood :
      (n : ℕ) (b : OrderBook P) (id : Text) → IsGood n b → IsGood n (remove_order b id).1
  remove_order-IsGood n b id (v, h) =
      let r = remove_order-Removed b v id in
      (r.valid, λ j i e. h j i (ground (arith, r.map_after j)))

  remove_from_books_lem :
      (n : ℕ) (bs : Dict Text (OrderBook P)) (id : Text)
      → AreGood n bs
      → let (found, bs') = remove_from_books bs id in
        (found ≡ any_book id bs) × AreGood n bs' × Gone id bs bs'
  unfolding remove_from_books
  remove_from_books_lem n [] id h = (refl, tt, refl)
  remove_from_books_lem n ((x, b) ∷ bs) id h =
      let r = remove_order-Removed b h.0.0 id in
      let (p, q, g) = remove_from_books_lem n bs id h.1 in
      elim (Bool-cases (is_some (find id b.orders))) [
        | inl e ↦
            rw (r.reports, e)
              (refl, (remove_order-IsGood n b id h.0, h.1), (refl, inl (e, r.gone, refl)))
        | inr e ↦ rw (r.reports, e) (p, (h.0, q), (refl, inr (e, refl, g)))
      ]

  -- On a ready engine, a cancellation reports whether some book has the id, and leaves the engine
  -- ready. The first book that has it is left with no resting order of that id, and the other books
  -- stay as they are.
  pub cancel_order-Gone :
      (e : MatchingEngine P) (id : Text)
      → IsReady e
      → let (found, e') = cancel_order e id in
        (found ≡ any_book id e.order_books) × IsReady e' × Gone id e.order_books e'.order_books
  unfolding cancel_order
  cancel_order-Gone e id h = remove_from_books_lem e.next_order_id e.order_books id h
