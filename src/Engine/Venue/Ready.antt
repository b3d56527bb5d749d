-- ===== src/Engine/Venue/Ready.antt =====
-- What holds of the engine between two calls, and that every call keeps it.
use studycpp.Prelude.{
  ℕ, ◌+◌, ◌<◌, ◌≡◌, refl, subst, ◌∙◌, inl, inr, Bool, none, some, List, [], ◌∷◌, ◌++◌, arith,
  if◌then◌else◌, Bool, false, lt→ltb, Bool-cases, Option-cases,
}
use studycpp.Prelude.Int.{ℤ, pos, int_max, ◌≤ℤ◌}
use studycpp.Prelude.Do.{>>=-some}
use studycpp.Std.Key.{list_eq, beq_of_eq, ◌==◌}
use studycpp.Std.Dict.{Dict, find, assign, find-assign}
use studycpp.Std.OrderedSet.{All}
use studycpp.Std.Text.{Text}
use studycpp.Engine.Float.{Float}
use studycpp.Engine.Order.{buy, sell, Info, Order, Trade}
use studycpp.Engine.Book.{OrderBook, empty_book, match_order}
use studycpp.Engine.Invariant.{IsValid, empty_book-IsValid}
use studycpp.Engine.Matching.Result.{Matched, match_order-Matched}
use studycpp.Engine.Venue.{MatchingEngine, order_id, generate_order_id, get_order_book, place_order}
use studycpp.Engine.Venue.Ids.{order_id-injective}

-- The ids of the book's orders were generated before the counter had the value `n`.
abbrev pub IdsBelow : {P : Type 0} → ℕ → OrderBook P → Type 0
IdsBelow n b =
    (id : Text) (i : Info _) → find id b.orders ≡ some i → (k : ℕ) × (k < n) × (id ≡ order_id k)

abbrev pub IsGood : {P : Type 0} ⦃f : Float P⦄ → ℕ → OrderBook P → Type 0
IsGood n b = IsValid b × IdsBelow n b

-- Every book is valid and has generated ids alone.
abbrev pub AreGood : {P : Type 0} ⦃f : Float P⦄ → ℕ → Dict Text (OrderBook P) → Type 0
AreGood n = All (λ e. IsGood n e.1)

abbrev pub IsReady : {P : Type 0} ⦃f : Float P⦄ → MatchingEngine P → Type 0
IsReady e = AreGood e.next_order_id e.order_books

module _ {P : Type 0} ⦃f : Float P⦄ where
  IdsBelow-mono : (n : ℕ) (b : OrderBook P) → IsGood n b → IsGood (n + 1) b
  IdsBelow-mono n b (v, h) = (v, λ id i e. let (k, l, q) = h id i e in (k, omega arith, q))

  AreGood-mono : (n : ℕ) (bs : Dict Text (OrderBook P)) → AreGood n bs → AreGood (n + 1) bs
  AreGood-mono n [] h = tt
  AreGood-mono n ((x, b) ∷ bs) h = (IdsBelow-mono n b h.0, AreGood-mono n bs h.1)

  AreGood-find :
      (n : ℕ) (bs : Dict Text (OrderBook P)) (x : Text) {b : OrderBook P}
      → AreGood n bs
      → find x bs ≡ some b
      → IsGood n b
  unfolding find
  AreGood-find n [] x h e = cc
  AreGood-find n ((y, c) ∷ bs) x h e = elim (Bool-cases (y == x)) [
    | inl q ↦ subst (IsGood n) (ground arith) h.0
    | inr q ↦ AreGood-find n bs x h.1 (ground arith)
  ]

  AreGood-assign :
      (n : ℕ) (bs : Dict Text (OrderBook P)) (x : Text) (b : OrderBook P)
      → AreGood n bs
      → IsGood n b
      → AreGood n (assign x b bs)
  unfolding assign
  AreGood-assign n [] x b h g = (g, tt)
  AreGood-assign n ((y, c) ∷ bs) x b h g = ground (arith, AreGood-assign n bs x b h.1 g)

  AreGood-append :
      (n : ℕ) (bs : Dict Text (OrderBook P)) (x : Text) (b : OrderBook P)
      → AreGood n bs
      → IsGood n b
      → AreGood n (bs ++ ((x, b) ∷ []))
  AreGood-append n [] x b h g = (g, tt)
  AreGood-append n ((y, c) ∷ bs) x b h g = (h.0, AreGood-append n bs x b h.1 g)

  empty_book-IsGood : (n : ℕ) (x : Text) → IsGood n (empty_book {P = P} x)
  unfolding find
  empty_book-IsGood n x = (empty_book-IsValid x, λ id i e. cc)

  get_order_book-AreGood :
      (n : ℕ) (e : MatchingEngine P) (x : Text)
      → AreGood n e.order_books
      → let (b, e') = get_order_book e x in
        IsGood n b × AreGood n e'.order_books × (e'.next_order_id ≡ e.next_order_id)
  unfolding get_order_book
  get_order_book-AreGood n e x h = elim (Option-cases (find x e.order_books)) [
    | inl q ↦
        rw (q, get_order_book)
          (
            empty_book-IsGood n x,
            AreGood-append n e.order_books x (empty_book x) h (empty_book-IsGood n x),
            refl,
          )
    | inr (b, q) ↦ rw (q, get_order_book) (AreGood-find n e.order_books x h q, h, refl)
  ]

  -- The book of the symbol, or an empty one.
  abbrev pub book_of : MatchingEngine P → Text → OrderBook P
  book_of e x = elim (find x e.order_books) [ some b ↦ b | none ↦ empty_book x ]

  find-append_ne :
      (bs : Dict Text (OrderBook P)) (x y : Text) (b : OrderBook P)
      → (x == y) ≡ false
      → find y (bs ++ ((x, b) ∷ [])) ≡ find y bs
  unfolding find
  find-append_ne [] x y b h = rw h refl
  find-append_ne ((z, c) ∷ bs) x y b h = ground (arith, find-append_ne bs x y b h)

  get_order_book_lem :
      (e : MatchingEngine P) (x : Text)
      → let (b, e') = get_order_book e x in
        (b ≡ book_of e x)
        × (e'.trade_notifier ≡ e.trade_notifier)
        × ((y : Text) → (x == y) ≡ false → find y e'.order_books ≡ find y e.order_books)
  unfolding get_order_book
  get_order_book_lem e x = elim (Option-cases (find x e.order_books)) [
    | inl q ↦
        rw (q, get_order_book)
          (rw (book_of, q) refl, refl, λ y. find-append_ne e.order_books x y (empty_book x))
    | inr (b, q) ↦ rw (q, get_order_book) (rw (book_of, q) refl, refl, λ y h. refl)
  ]

  -- A new id is in no book.
  IdsBelow-fresh : (n : ℕ) (b : OrderBook P) → IdsBelow n b → find (order_id n) b.orders ≡ none
  IdsBelow-fresh n b h = elim (Option-cases (find (order_id n) b.orders)) [
    | inl e ↦ e
    | inr (i, e) ↦
        let (k, l, q) = h (order_id n) i e in absurd (omega (arith, order_id-injective n k q))
  ]

  abbrev incoming : Text → Text → P → ℤ → Bool → Order P
  incoming id symbol price size is_buy = record {
    info = record { id = id; symbol = symbol; price = price; side = if is_buy then buy else sell };
    remaining_size = size;
  }

  -- What `place_order` has done with a ready engine.
  pub record Placed (e : MatchingEngine P) (symbol : Text) (price : P) (size : ℤ) (is_buy : Bool)
      (r : MatchingEngine P × Text × List (Trade P)) : Type 0 where
    pub ready : IsReady r.0
    pub new_id : r.1 ≡ order_id e.next_order_id
    pub counted : r.0.next_order_id ≡ e.next_order_id + 1
    pub book : OrderBook P
    pub stored : find symbol r.0.order_books ≡ some book
    -- the book stored is what the matching made of the symbol's book
    pub made :
        match_order e.trade_notifier (book_of e symbol) (incoming r.1 symbol price size is_buy)
        ≡ some (book, r.2)
    pub matched :
        Matched e.trade_notifier
          (book_of e symbol)
          (incoming r.1 symbol price size is_buy)
          (book, r.2)
    pub others : (y : Text) → (symbol == y) ≡ false → find y r.0.order_books ≡ find y e.order_books

  generate_order_id_lem :
      (e : MatchingEngine P)
      → e.next_order_id < int_max
      → generate_order_id e
        ≡ some (order_id e.next_order_id, record e { next_order_id = e.next_order_id + 1 })
  unfolding generate_order_id
  generate_order_id_lem e l = rw (lt→ltb e.next_order_id int_max l) refl

  Matched-IsGood :
      (n : ℕ) (b : OrderBook P) (o : Order P) (t : Bool) (r : OrderBook P × List (Trade P))
      → IdsBelow n b
      → o.id ≡ order_id n
      → Matched t b o r
      → IsGood (n + 1) r.0
  Matched-IsGood n b o t r h q m = (
    m.valid,
    λ id i e. elim (m.ids id i e) [
      | inl e' ↦ let (k, l, p) = h id i e' in (k, omega arith, p)
      | inr p ↦ (n, omega arith, p ∙ q)
    ],
  )

  -- A call of `place_order` with a positive size on a ready engine returns, when its counter is
  -- below the greatest `int`. The engine is ready after it, the id is that of the counter, which
  -- goes up by one, the symbol's book is what the matching of the new order makes of the book that
  -- the symbol had, or of an empty one, the trades notified are the matching's, within the price
  -- and of positive sizes, with a notifier these sizes account for what both sides have lost, and
  -- every other symbol has the book it had.
  pub place_order-Placed :
      (e : MatchingEngine P) (symbol : Text) (price : P) (size : ℤ) (is_buy : Bool)
      → IsReady e
      → e.next_order_id < int_max
      → pos 1 ≤ℤ size
      → (r : MatchingEngine P × Text × List (Trade P)) × (place_order e symbol price size is_buy
          ≡ some r)
        × Placed e symbol price size is_buy r
  unfolding place_order
  place_order-Placed e symbol price size is_buy h l p =
      let n : ℕ = e.next_order_id in
      let e₁ : MatchingEngine P = record e { next_order_id = n + 1 } in
      let o : Order P = incoming (order_id n) symbol price size is_buy in
      let (b, e₂) = get_order_book e₁ symbol in
      let (good, goods, next) = get_order_book-AreGood n e₁ symbol h in
      let (same, told, rest) = get_order_book_lem e₁ symbol in
      let (r, run, m) =
        match_order-Matched e₂.trade_notifier b o good.0 p (IdsBelow-fresh n b good.1) in
      (
        (record e₂ { order_books = assign symbol r.0 e₂.order_books }, order_id n, r.1),
        >>=-some _ (generate_order_id_lem e l) ∙ >>=-some _ run,
        record {
          ready = rw next (
              AreGood-assign (n + 1) e₂.order_books symbol r.0 (AreGood-mono n e₂.order_books goods)
                (Matched-IsGood n b o e₂.trade_notifier r good.1 refl m));
          new_id = refl;
          counted = next;
          book = r.0;
          stored =
              find-assign symbol symbol r.0 e₂.order_books ∙ rw (beq_of_eq symbol symbol refl) refl;
          made =
              subst (λ t. match_order t (book_of e symbol) o ≡ some r) told
                (subst (λ b'. match_order e₂.trade_notifier b' o ≡ some r) same run);
          matched =
              subst (λ t. Matched t (book_of e symbol) o r) told
                (subst (λ b'. Matched e₂.trade_notifier b' o r) same m);
          others = λ y q. find-assign symbol y r.0 e₂.order_books ∙ rw q (rest y q);
        },
      )
