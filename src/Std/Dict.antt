-- ===== src/Std/Dict.antt =====
-- `std::unordered_map` as a list of entries. The order of iteration is that of the list.
use studycpp.Prelude.{
  ◌≡◌, refl, Bool, true, false, if◌then◌else◌, List, [], ◌∷◌, Option, none, some, arith,
}
use studycpp.Std.Key.{Key, ◌==◌, eq_of_beq, beq_of_eq}

abbrev pub is_some {ℓ} : {A : Type ℓ} → Option A → Bool
is_some none = false
is_some (some v) = true

abbrev pub Dict {ℓ} : Type ℓ → Type ℓ → Type ℓ
Dict K V = List (K × V)

module _ {ℓ} {K V : Type ℓ} ⦃key : Key K⦄ where
  -- `find(k)`, `none` for `end()`
  unfoldable pub find : K → Dict K V → Option V
  find k [] = none
  find k ((j, v) ∷ m) = if j == k then some v else find k m

  -- `m[k] = v`
  unfoldable pub assign : K → V → Dict K V → Dict K V
  assign k v [] = (k, v) ∷ []
  assign k v ((j, w) ∷ m) = if j == k then (j, v) ∷ m else (j, w) ∷ assign k v m

  -- `erase(k)`
  unfoldable pub erase : K → Dict K V → Dict K V
  erase k [] = []
  erase k ((j, w) ∷ m) = let rest = erase k m in if j == k then rest else (j, w) ∷ rest

  -- `contains(k)`
  unfoldable pub contains : K → Dict K V → Bool
  contains k m = is_some (find k m)

  pub find-assign :
      (k j : K) (v : V) (m : Dict K V)
      → find j (assign k v m) ≡ (if k == j then some v else find j m)
  unfolding find assign
  find-assign k j v [] = refl
  find-assign k j v ((i, w) ∷ m) = ground (
    arith,
    eq_of_beq k j,
    eq_of_beq i k,
    eq_of_beq i j,
    beq_of_eq k j,
    beq_of_eq i k,
    beq_of_eq i j,
    find-assign k j v m,
  )

  pub find-erase :
      (k j : K) (m : Dict K V) → find j (erase k m) ≡ (if k == j then none else find j m)
  unfolding find erase
  find-erase k j [] = ground arith
  find-erase k j ((i, w) ∷ m) = ground (
    arith,
    eq_of_beq k j,
    eq_of_beq i k,
    eq_of_beq i j,
    beq_of_eq k j,
    beq_of_eq i k,
    beq_of_eq i j,
    find-erase k j m,
  )
