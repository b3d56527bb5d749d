-- ===== src/Vector/Assign.antt =====
-- The assignments of vectors.
use studycpp.Prelude.{ℕ, ◌+◌, ◌<◌, ◌≡◌, ◌∙◌, some, List, length}
use studycpp.Prelude.Do.{>>=-some}
use studycpp.Vector.{move, copy_assign, move_assign}
use studycpp.Vector.Refines.{vector_of, copy_lem, destroy_lem}

module _ {T : Type 0} where
  -- After a copy assignment the vector has the objects and the capacity of the other one; the
  -- objects that it had were destroyed.
  copy_assign_lem :
      (xs ys : List T) (m k : ℕ)
      → 0 < length ys + k
      → copy_assign (vector_of xs m) (vector_of ys k) ≡ some (vector_of ys k)
  unfolding copy_assign
  copy_assign_lem xs ys m k h = >>=-some _ (copy_lem k ys h) ∙ >>=-some _ (destroy_lem m xs)

  -- After a move assignment the vector has the memory of the other one, which has none.
  move_assign_lem :
      (xs ys : List T) (m k : ℕ)
      → move_assign (vector_of xs m) (vector_of ys k) ≡ some (move (vector_of ys k))
  unfolding move_assign
  move_assign_lem xs ys m k = >>=-some _ (destroy_lem m xs)
