-- ===== src/Vector/Tests.antt =====
-- A vector of numbers that grows by a half.
use studycpp.Prelude.{
  ℕ, ◌*◌, ◌/◌, ◌≡◌, refl, none, some, List, [], ◌∷◌, arith, length, get_elem?, replicate,
}
use studycpp.Vector.{Vector, new_vector, at, copy, destroy, push_back, move}
use studycpp.Vector.Refines.{Grows}
use studycpp.Vector.Run.{
  Command, pushes, reserves, resizes, run, contents, list_step, run-contents, push_back-moved,
}

abbrev by_half : ℕ → ℕ
by_half n = n * 3 / 2

by_half-Grows : Grows by_half
by_half-Grows n h = omega arith

-- four objects, of which two stay
abbrev six_calls : List (Command ℕ)
six_calls = pushes 1 ∷ pushes 2 ∷ pushes 3 ∷ reserves 4 ∷ pushes 4 ∷ resizes 0 2 ∷ []

run-contents_example :
    (contents by_half six_calls [] ≡ none → run by_half six_calls new_vector ≡ none)
    × ((xs : List ℕ)
        → contents by_half six_calls [] ≡ some xs
        → (v : Vector ℕ) × ((run by_half six_calls new_vector ≡ some v)
            × ((v.d_size ≡ length xs)
                × (((i : ℕ) → at i v ≡ get_elem? xs i)
                    × ((copy v ≡ some v)
                        × ((v.d_capacity ≡ 4) × (destroy v ≡ some (replicate 4 none))))))))
run-contents_example = run-contents by_half six_calls by_half-Grows

contents-six_calls : contents by_half six_calls [] ≡ some (1 ∷ 2 ∷ [])
unfolding contents list_step
contents-six_calls = refl

push_back-moved_example : push_back {T = ℕ} by_half 7 (move new_vector).1 ≡ none
push_back-moved_example = push_back-moved by_half 7 new_vector (omega arith)
