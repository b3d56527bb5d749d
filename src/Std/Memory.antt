-- ===== src/Std/Memory.antt =====
-- Loops over cells of raw memory, of which `none` is one without an object. Each walks with its
-- pointers, and has no result where it is undefined.
use studycpp.Prelude.{ℕ, zero, suc, Option, none, some, List, [], ◌∷◌}

abbrev pub Cells : Type 0 → Type 0
Cells T = List (Option T)

module _ {T : Type 0} where
  abbrev pub put_front : Option T → Option (Cells T) → Option (Cells T)
  put_front c none = none
  put_front c (some cells) = some (c ∷ cells)

  -- The first `n` objects are moved or copied into cells without objects.
  unfoldable pub move_range : ℕ → Cells T → Cells T → Option (Cells T)
  move_range zero from till = some till
  move_range (suc n) [] till = none
  move_range (suc n) (none ∷ from) till = none
  move_range (suc n) (some x ∷ from) [] = none
  move_range (suc n) (some x ∷ from) (c ∷ till) = put_front (some x) (move_range n from till)

  -- The first `n` objects are destroyed.
  unfoldable pub destroy_range : ℕ → Cells T → Option (Cells T)
  destroy_range zero cells = some cells
  destroy_range (suc n) [] = none
  destroy_range (suc n) (none ∷ cells) = none
  destroy_range (suc n) (some x ∷ cells) = put_front none (destroy_range n cells)

  -- The `n` objects from the index `i` on are destroyed.
  unfoldable pub destroy_from : ℕ → ℕ → Cells T → Option (Cells T)
  unfolding destroy_range
  destroy_from zero n cells = destroy_range n cells
  destroy_from (suc i) n [] = none
  destroy_from (suc i) n (c ∷ cells) = put_front c (destroy_from i n cells)

  -- `new (arr + i) T(x)`
  unfoldable pub construct_at : ℕ → T → Cells T → Option (Cells T)
  construct_at i x [] = none
  construct_at zero x (c ∷ cells) = some (some x ∷ cells)
  construct_at (suc i) x (c ∷ cells) = put_front c (construct_at i x cells)

  -- The first `n` cells get an object.
  unfoldable pub construct_range : ℕ → T → Cells T → Option (Cells T)
  construct_range zero x cells = some cells
  construct_range (suc n) x [] = none
  construct_range (suc n) x (c ∷ cells) = put_front (some x) (construct_range n x cells)

  -- The `n` cells from the index `i` on get an object.
  unfoldable pub construct_from : ℕ → ℕ → T → Cells T → Option (Cells T)
  unfolding construct_range
  construct_from zero n x cells = construct_range n x cells
  construct_from (suc i) n x [] = none
  construct_from (suc i) n x (c ∷ cells) = put_front c (construct_from i n x cells)
