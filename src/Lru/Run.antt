-- ===== src/Lru/Run.antt =====
-- Any calls of a new cache.
use studycpp.Prelude.{
  ℕ, ◌<◌, ◌≡◌, refl, ap, subst, ◌∙◌, inl, inr, false, Option, none, some, List, [], ◌∷◌, arith,
  Option-cases,
}
use studycpp.Prelude.Int.{ℤ, pos, ltb_ℤ}
use studycpp.Std.Key.{Key}
use studycpp.Std.Dict.{find}
use studycpp.Lru.{LruCache, undefined, new_cache, put, make_room, back}
use studycpp.Lru.Nodes.{address_of}
use studycpp.Lru.Entries.{Answer, Call, list_step, step, entries, IsValid}
use studycpp.Lru.Refines.{Matches, step-Matches}

module _ {K V : Type 0} ⦃key : Key K⦄ where
  -- the answers of the calls; `none` if a call is undefined
  unfoldable pub run : LruCache K V → List (Call K V) → Option (List (Answer V))
  run c [] = some []
  run c (call ∷ calls) = elim (step c call) [
    | none ↦ none
    | some (a, c') ↦ elim (run c' calls) [ none ↦ none | some rest ↦ some (a ∷ rest) ]
  ]

  -- The same on a list of entries.
  unfoldable pub run_list : ℕ → List (K × V) → List (Call K V) → List (Answer V)
  run_list cap xs [] = []
  run_list cap xs (call ∷ calls) =
      (list_step cap xs call).0 ∷ run_list cap (list_step cap xs call).1 calls

  run-cons :
      (c c' : LruCache K V) (call : Call K V) (calls : List (Call K V)) (a : Answer V)
      (rest : List (Answer V))
      → step c call ≡ some (a, c')
      → run c' calls ≡ some rest
      → run c (call ∷ calls) ≡ some (a ∷ rest)
  unfolding run
  run-cons c c' call calls a rest e f = rw (e, run, f) refl

  run-IsValid :
      (cap : ℕ) (c : LruCache K V) (calls : List (Call K V))
      → 0 < cap
      → IsValid cap c
      → run c calls ≡ some (run_list cap (entries c.nodes) calls)
  unfolding run run_list
  run-IsValid cap c [] p i = refl
  run-IsValid cap c (call ∷ calls) p i = elim (Option-cases (step c call)) [
    | inl e ↦ absurd (subst (Matches cap (entries c.nodes) call) e (step-Matches cap c call p i))
    | inr ((a, c'), e) ↦
        let m = subst (Matches cap (entries c.nodes) call) e (step-Matches cap c call p i) in
        run-cons c c' call calls a (run_list cap (entries c'.nodes) calls) e
          (run-IsValid cap c' calls p m.0)
        ∙ ap (λ r. some (r.0 ∷ run_list cap r.1 calls)) m.1
  ]

  new_cache-IsValid : (cap : ℕ) → IsValid {K = K} {V = V} cap (new_cache (pos cap))
  unfolding find address_of
  new_cache-IsValid cap = record {
    links = record { linked = λ k. refl; distinct = tt; below = tt };
    sized = refl;
    bounded = omega arith;
    capacity_eq = refl;
  }

  -- Any calls of `put` and `get` on a new cache of a positive capacity have the answers of those
  -- calls on a list of entries, where the one used last is at the head, a new entry takes the place
  -- of the last one if there are as many as the capacity, and a key that is not there is missed. No
  -- call is undefined.
  pub run-run_list :
      (cap : ℕ) (calls : List (Call K V))
      → 0 < cap
      → run (new_cache (pos cap)) calls ≡ some (run_list cap [] calls)
  run-run_list cap calls p = run-IsValid cap (new_cache (pos cap)) calls p (new_cache-IsValid cap)

  -- A new cache whose capacity is not positive has no node to drop for its first entry.
  pub put_undefined :
      (capacity : ℤ) (k : K) (v : V)
      → ltb_ℤ (pos 0) capacity ≡ false
      → put (new_cache capacity) k v ≡ undefined
  unfolding put make_room back find
  put_undefined capacity k v h = rw h refl
