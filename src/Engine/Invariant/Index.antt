-- ===== src/Engine/Invariant/Index.antt =====
-- The map of orders against the sets, when one order leaves or enters.
use studycpp.Prelude.{◌≡◌, ap, ◌≢◌, none, some, List, [], ◌∷◌, arith}
use studycpp.Std.Key.{list_eq, eq_of_beq, beq_of_eq}
use studycpp.Std.Dict.{Dict, find, assign, erase, find-erase, find-assign}
use studycpp.Std.OrderedSet.{All}
use studycpp.Std.Text.{Text}
use studycpp.Engine.Order.{Info, Order}

module _ {P : Type 0} (m : Dict Text (Info P)) where
  abbrev pub Indexed : Dict Text (Info P) → List (Order P) → Type 0
  Indexed m' os = All (λ o. find o.id m' ≡ some o.info) os

  module _ (k : Info P) (e : find k.id m ≡ some k) where
    -- The id of an entry that the map has is that of no other resting order.
    pub same_id : (os : List (Order P)) → Indexed m os → All (λ x. x.id ≡ k.id → x.info ≡ k) os
    same_id [] h = tt
    same_id (x ∷ os) h = ((λ q. ground (arith, ap (λ i. find i m) q)), same_id os h.1)

    pub Indexed-erase :
        (os : List (Order P)) → All (λ x. x.info ≢ k) os → Indexed m os → Indexed (erase k.id m) os
    Indexed-erase [] n h = tt
    Indexed-erase (x ∷ os) n h = (
      ground (
        arith,
        find-erase k.id x.id m,
        eq_of_beq k.id x.id,
        ap (λ i. find i m) {x = x.id} {y = k.id},
        n.0,
      ),
      Indexed-erase os n.1 h.1,
    )

  -- An id that the map does not have is that of no resting order.
  pub fresh_id :
      (id : Text)
      → find id m ≡ none
      → (os : List (Order P)) → Indexed m os
      → All (λ x. x.id ≢ id) os
  fresh_id id e [] h = tt
  fresh_id id e (x ∷ os) h = ((λ q. ground (arith, ap (λ i. find i m) q)), fresh_id id e os h.1)

  module _ (o : Order P) (e : find o.id m ≡ none) where
    pub Indexed-assign : (os : List (Order P)) → Indexed m os → Indexed (assign o.id o.info m) os
    Indexed-assign [] h = tt
    Indexed-assign (x ∷ os) h = (
      ground (
        arith,
        find-assign o.id x.id o.info m,
        eq_of_beq o.id x.id,
        (fresh_id o.id e (x ∷ os) h).0,
      ),
      Indexed-assign os h.1,
    )

  pub find-assign_self : (o : Order P) → find o.id (assign o.id o.info m) ≡ some o.info
  find-assign_self o = ground (arith, find-assign o.id o.id o.info m, beq_of_eq o.id o.id)
