-- ===== src/Vector/Run.antt =====
-- Programs that work on one vector.
use studycpp.Prelude.{
  ℕ, ◌+◌, ◌<◌, ◌≡◌, refl, sym, subst, false, Option, none, some, List, [], ◌∷◌, arith, leb, length,
  get_elem?, replicate,
}
use studycpp.Prelude.Do.{◌>>=◌, >>=-some, >>=-none}
use studycpp.Vector.{
  Vector, init_capacity, new_vector, reserve, push_back, resize, at, copy, destroy, move,
}
use studycpp.Vector.Loops.{filled}
use studycpp.Vector.Refines.{
  vector_of, Grows, Agrees, list_push, list_reserve, list_resize, reserve-Agrees, push_back-Agrees,
  resize-Agrees, at_lem, copy_lem, destroy_lem,
}

pub data Command (T : Type 0) : Type 0 where
  pushes : T → Command T
  reserves : ℕ → Command T
  resizes : T → ℕ → Command T

module _ {T : Type 0} (grown : ℕ → ℕ) where
  unfoldable pub step : Command T → Vector T → Option (Vector T)
  unfolding push_back reserve resize
  step (pushes x) v = push_back grown x v
  step (reserves n) v = reserve n v
  step (resizes fresh n) v = resize grown fresh n v

  unfoldable pub run : List (Command T) → Vector T → Option (Vector T)
  unfolding step
  run [] v = some v
  run (c ∷ cs) v = step c v >>= run cs

  -- the same commands on a list of at most four
  unfoldable pub list_step : Command T → List T → Option (List T)
  list_step (pushes x) xs = list_push x xs
  list_step (reserves n) xs = list_reserve n xs
  list_step (resizes fresh n) xs = list_resize fresh n xs

  unfoldable pub contents : List (Command T) → List T → Option (List T)
  unfolding list_step
  contents [] xs = some xs
  contents (c ∷ cs) xs = list_step c xs >>= contents cs

  step-Agrees :
      (c : Command T) (m : ℕ) (xs : List T)
      → Grows grown
      → length xs + m ≡ 4
      → Agrees (list_step c xs) (step c (vector_of xs m))
  unfolding step list_step
  step-Agrees (pushes x) m xs g h = push_back-Agrees grown x m xs g h
  step-Agrees (reserves n) m xs g h = reserve-Agrees n m xs h
  step-Agrees (resizes fresh n) m xs g h = resize-Agrees grown fresh n m xs g h

  Agrees-then :
      (o : Option (List T)) (r : Option (Vector T)) (cs : List (Command T))
      → ((ys : List T) (k : ℕ)
          → length ys + k ≡ 4
          → Agrees (contents cs ys) (run cs (vector_of ys k)))
      → Agrees o r
      → Agrees (o >>= contents cs) (r >>= run cs)
  Agrees-then none r cs f a = >>=-none (run cs) a
  Agrees-then (some ys) r cs f (k, (e, h)) =
      subst (Agrees (contents cs ys)) (sym (>>=-some (run cs) e)) (f ys k h)

  run-Agrees :
      (cs : List (Command T)) (m : ℕ) (xs : List T)
      → Grows grown
      → length xs + m ≡ 4
      → Agrees (contents cs xs) (run cs (vector_of xs m))
  unfolding run contents
  run-Agrees [] m xs g h = (m, (refl, h))
  run-Agrees (c ∷ cs) m xs g h =
      Agrees-then (list_step c xs) (step c (vector_of xs m)) cs (λ ys k e. run-Agrees cs k ys g e)
        (step-Agrees c m xs g h)

  -- If the growth of four or more cells gives more of them, then any calls of `push_back`, `reserve`
  -- and `resize` on a new vector do what the same calls do on a list that has four places and takes no
  -- more: they are undefined exactly if one of them pushes onto four elements, reserves more than
  -- four places, or resizes to more elements than there are and not fewer than four, since memory is
  -- then given back with the wrong number. Else the size is the length of the list, `operator[]` gives
  -- its elements and fails its assert behind the last one, a copy has the same objects and
  -- capacity, the capacity is four, and the destructor destroys every object and leaves four empty
  -- cells.
  pub run-contents :
      (cs : List (Command T))
      → Grows grown
      → (contents cs [] ≡ none → run cs new_vector ≡ none)
        × ((xs : List T)
            → contents cs [] ≡ some xs
            → (v : Vector T) × ((run cs new_vector ≡ some v)
                × ((v.d_size ≡ length xs)
                    × (((i : ℕ) → at i v ≡ get_elem? xs i)
                        × ((copy v ≡ some v)
                            × ((v.d_capacity ≡ 4) × (destroy v ≡ some (replicate 4 none))))))))
  unfolding filled
  run-contents cs g =
      let a = run-Agrees cs init_capacity [] g refl in
      (
        λ e. subst (λ o. Agrees o (run cs new_vector)) e a,
        λ xs e.
            let (k, (f, h)) = subst (λ o. Agrees o (run cs new_vector)) e a in
            let all : destroy (vector_of xs k) ≡ some (replicate 4 none) =
              subst (λ (n : ℕ). destroy (vector_of xs k) ≡ some (replicate n none)) h
                (destroy_lem k xs) in
            (
              vector_of xs k,
              (f, (refl, (λ i. at_lem i k xs, (copy_lem k xs (omega (arith, h)), (h, all))))),
            ),
      )

  -- A vector that was moved from keeps its capacity without the memory: if that is positive, then
  -- the next `push_back` writes through a null pointer.
  pub push_back-moved :
      (x : T) (v : Vector T) → 0 < v.d_capacity → push_back grown x (move v).1 ≡ none
  unfolding push_back move
  push_back-moved x v h = let e : leb v.d_capacity 0 ≡ false = ground (arith, h) in rw e refl
