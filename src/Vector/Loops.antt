-- ===== src/Vector/Loops.antt =====
-- The loops on cells of which the first ones have objects.
use studycpp.Prelude.{
  ℕ, zero, suc, ◌+◌, ◌-◌, ◌≤◌, ◌≡◌, refl, ap, subst, ◌∙◌, Option, none, some, List, [], ◌∷◌, ◌++◌,
  arith, length, take, replicate, length-replicate,
}
use studycpp.Std.Memory.{
  Cells, put_front, move_range, destroy_range, destroy_from, construct_at, construct_range,
  construct_from,
}

module _ {T : Type 0} where
  -- objects, and cells without objects behind them
  unfoldable pub filled : List T → ℕ → Cells T
  filled [] m = replicate m none
  filled (x ∷ xs) m = some x ∷ filled xs m

  pub length-filled : (xs : List T) (m : ℕ) → length (filled xs m) ≡ length xs + m
  unfolding filled
  length-filled [] m = omega (arith, length-replicate {A = Option T} m none)
  length-filled (x ∷ xs) m = omega (arith, length-filled xs m)

  pub move_range-filled :
      (xs : List T) (m k : ℕ)
      → move_range (length xs) (filled xs m) (replicate (length xs + k) none) ≡ some (filled xs k)
  unfolding move_range filled
  move_range-filled [] m k = ap (λ n. some (replicate n none)) (omega arith)
  move_range-filled (x ∷ xs) m k =
      let e : suc (length xs + k) ≡ suc (length xs) + k = omega arith in
      subst
        (λ n.
          move_range (suc (length xs)) (some x ∷ filled xs m) (replicate n none)
          ≡ some (some x ∷ filled xs k))
        e (ap (put_front (some x)) (move_range-filled xs m k))

  pub destroy_range-filled :
      (xs : List T) (m : ℕ)
      → destroy_range (length xs) (filled xs m) ≡ some (replicate (length xs + m) none)
  unfolding destroy_range filled
  destroy_range-filled [] m = ap (λ n. some (replicate n none)) (omega arith)
  destroy_range-filled (x ∷ xs) m =
      let e : suc (length xs + m) ≡ suc (length xs) + m = omega arith in
      let f : ℕ → Option (Cells T) = λ n. some (replicate n none) in
      ap (put_front none) (destroy_range-filled xs m) ∙ ap f e

  pub construct_at-filled :
      (xs : List T) (m : ℕ) (x : T)
      → construct_at (length xs) x (filled xs (suc m)) ≡ some (filled (xs ++ (x ∷ [])) m)
  unfolding construct_at filled
  construct_at-filled [] m x = refl
  construct_at-filled (y ∷ xs) m x = ap (put_front (some y)) (construct_at-filled xs m x)

  pub destroy_from-filled :
      (i : ℕ) (xs : List T) (m : ℕ)
      → i ≤ length xs
      → destroy_from i (length xs - i) (filled xs m) ≡ some (filled (take i xs) (length xs - i + m))
  unfolding destroy_from filled
  destroy_from-filled zero xs m h =
      let e : length xs ≡ length xs - 0 = omega arith in
      subst (λ n. destroy_range n (filled xs m) ≡ some (replicate (n + m) none)) e
        (destroy_range-filled xs m)
  destroy_from-filled (suc i) [] m h = absurd (omega (arith, h))
  destroy_from-filled (suc i) (x ∷ xs) m h =
      let e : length xs - i ≡ suc (length xs) - suc i = omega arith in
      subst
        (λ n.
          put_front (some x) (destroy_from i n (filled xs m))
          ≡ some (some x ∷ filled (take i xs) (n + m)))
        e (ap (put_front (some x)) (destroy_from-filled i xs m (omega (arith, h))))

  pub construct_range-filled :
      (n m : ℕ) (x : T)
      → construct_range n x (replicate (n + m) none) ≡ some (filled (replicate n x) m)
  unfolding construct_range filled
  construct_range-filled zero m x = ap (λ k. some (replicate k none)) (omega arith)
  construct_range-filled (suc n) m x =
      let e : suc (n + m) ≡ suc n + m = omega arith in
      subst
        (λ k.
          construct_range (suc n) x (replicate k none) ≡ some (some x ∷ filled (replicate n x) m))
        e (ap (put_front (some x)) (construct_range-filled n m x))

  pub construct_from-filled :
      (xs : List T) (n m : ℕ) (x : T)
      → construct_from (length xs) n x (filled xs (n + m)) ≡ some (filled (xs ++ replicate n x) m)
  unfolding construct_from filled
  construct_from-filled [] n m x = construct_range-filled n m x
  construct_from-filled (y ∷ xs) n m x = ap (put_front (some y)) (construct_from-filled xs n m x)
