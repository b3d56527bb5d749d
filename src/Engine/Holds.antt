-- ===== src/Engine/Holds.antt =====
-- Which orders a set of resting orders holds, under insertion and removal.
use studycpp.Prelude.{◌≡◌, refl, ap, subst, ◌≢◌, ◌⊎◌, inl, inr, List, [], ◌∷◌, arith, Bool-cases}
use studycpp.Std.OrderedSet.{All, AllAfter, IsSorted}
use studycpp.Std.OrderedSet
use studycpp.Engine.Float.{Float}
use studycpp.Engine.Order.{Side, Info, Order, info_of, before}
use studycpp.Engine.Book.{insert, erase}
use studycpp.Engine.Compare.{before_irrefl, before_trans, before_total}

-- The list has an order with this fixed part.
abbrev pub Holds : {P : Type 0} → Info P → List (Order P) → Type 0
Holds i [] = ⊥
Holds i (o ∷ os) = (o.info ≡ i) ⊎ Holds i os

module _ {P : Type 0} where
  pub Holds-All :
      (Q : Info P → Type 0) (i : Info P) (os : List (Order P))
      → Holds i os
      → All (λ o. Q o.info) os
      → Q i
  Holds-All Q i [] h a = absurd h
  Holds-All Q i (o ∷ os) (inl e) a = subst Q e a.0
  Holds-All Q i (o ∷ os) (inr h) a = Holds-All Q i os h a.1

module _ {P : Type 0} ⦃f : Float P⦄ (s : Side) where
  pub Holds-insert :
      (i : Info P) (o : Order P) (os : List (Order P)) → Holds i os → Holds i (insert s o os)
  unfolding OrderedSet.insert
  Holds-insert i o [] h = absurd h
  Holds-insert i o (x ∷ os) h = ground (arith, Holds-insert i o os)

  pub Holds-insert_self :
      (o : Order P) (os : List (Order P)) → All (λ x. x.id ≢ o.id) os → Holds o.info (insert s o os)
  unfolding OrderedSet.insert
  Holds-insert_self o [] h = inl refl
  Holds-insert_self o (x ∷ os) h =
      ground (arith, Holds-insert_self o os h.1, before_total s o.info x.info)

  pub Holds-erase :
      (i k : Info P) (os : List (Order P))
      → All (λ x. x.id ≡ k.id → x.info ≡ k) os
      → i ≢ k
      → Holds i os
      → Holds i (erase s k os)
  unfolding OrderedSet.erase
  Holds-erase i k [] u n h = absurd h
  Holds-erase i k (x ∷ os) u n h =
      ground (arith, Holds-erase i k os u.1 n, before_total s x.info k, u.0)

  -- What comes after `k` is not `k`.
  pub AllAfter-ne :
      (k : Info P) (os : List (Order P))
      → AllAfter info_of (before s) k os
      → All (λ x. x.info ≢ k) os
  AllAfter-ne k [] h = tt
  AllAfter-ne k (x ∷ os) h =
      ((λ e. ground (arith, before_irrefl s k, ap (before s k) e)), AllAfter-ne k os h.1)

  pub erase-ne :
      (k : Info P) (os : List (Order P))
      → All (λ x. x.id ≡ k.id → x.info ≡ k) os
      → IsSorted info_of (before s) os
      → All (λ x. x.info ≢ k) (erase s k os)
  unfolding OrderedSet.erase
  erase-ne k [] u h = tt
  erase-ne k (x ∷ os) u h = elim (Bool-cases (before s k x.info)) [
    | inl e ↦ rw e (
        AllAfter-ne k (x ∷ os)
          (e, OrderedSet.AllAfter-trans info_of (before s) (before_trans s) k x.info os e h.0))
    | inr e ↦ elim (Bool-cases (before s x.info k)) [
      | inl e' ↦
          rw (e, e')
            (
              (λ q. ground (arith, before_irrefl s k, ap (λ y. before s y k) q)),
              erase-ne k os u.1 h.1,
            )
      | inr e' ↦
          rw (e, e')
            (let q : x.info ≡ k = u.0 (before_total s x.info k e' e) in
              AllAfter-ne k os (subst (λ y. AllAfter info_of (before s) y os) q h.0))
    ]
  ]
