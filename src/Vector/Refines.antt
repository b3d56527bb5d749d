-- ===== src/Vector/Refines.antt =====
-- A vector stands for the list of its objects, and works as long as it never needs new memory.
use studycpp.Prelude.{
  ℕ, zero, suc, ◌+◌, ◌-◌, ◌≤◌, ◌<◌, ◌≡◌, refl, sym, ap, subst, ◌∙◌, inl, inr, true, false, Option,
  none, some, List, [], ◌∷◌, ◌++◌, arith, ltb, leb, ◌==◌, if◌then◌else◌, ltb→lt, lt→ltb, leb→le,
  Bool-cases, length, get_elem?, length-append, take, replicate, length-take, length-replicate,
}
use studycpp.Prelude.Do.{◌>>=◌, >>=-some, >>=-none}
use studycpp.Std.Memory.{Cells, destroy_from, construct_at, construct_from}
use studycpp.Vector.{Vector, reserve, push_back, resize, at, copy, destroy, with_arr}
use studycpp.Vector.Loops.{
  filled, move_range-filled, destroy_range-filled, construct_at-filled, destroy_from-filled,
  construct_from-filled,
}

-- the vector with these objects and `m` cells without objects
abbrev pub vector_of : {T : Type 0} → List T → ℕ → Vector T
vector_of xs m = record { arr = some (filled xs m); d_capacity = length xs + m; d_size = length xs }

abbrev vector_with : {T : Type 0} → Cells T → ℕ → ℕ → Vector T
vector_with c a n = record { arr = some c; d_capacity = a; d_size = n }

vector_with-eq :
    {T : Type 0} {c c' : Cells T} {a a' n n' : ℕ}
    → c ≡ c'
    → a ≡ a'
    → n ≡ n'
    → vector_with c a n ≡ vector_with c' a' n'
vector_with-eq p q r = λ i. vector_with (p i) (q i) (r i)

module _ {T : Type 0} where
  pub reserve_kept :
      (n m : ℕ) (xs : List T)
      → leb n (length xs + m) ≡ true
      → reserve n (vector_of xs m) ≡ some (vector_of xs m)
  unfolding reserve
  reserve_kept n m xs e = rw (reserve, e) refl

  reserve_more :
      (xs : List T) (m k : ℕ)
      → leb (length xs + k) (length xs + m) ≡ false
      → reserve (length xs + k) (vector_of xs m) ≡ none
  unfolding reserve
  reserve_more xs m k e =
      let f : (length (replicate {A = Option T} (length xs + m) none) == length xs + k) ≡ false =
        ground (arith, e, length-replicate {A = Option T} (length xs + m) none) in
      rw (reserve, e, move_range-filled xs m k, destroy_range-filled xs m, f) refl

  -- More memory is never got, since the old one is given back wrongly.
  pub reserve_refused :
      (n m : ℕ) (xs : List T) → leb n (length xs + m) ≡ false → reserve n (vector_of xs m) ≡ none
  reserve_refused n m xs e =
      let g : length xs + (n - length xs) ≡ n = ground (arith, e) in
      subst (λ c. reserve c (vector_of xs m) ≡ none) g
        (reserve_more xs m (n - length xs) (subst (λ c. leb c (length xs + m) ≡ false) (sym g) e))

  get_elem?-filled :
      (i m : ℕ) (xs : List T)
      → i < length xs
      → (get_elem? (filled xs m) i >>= λ c. c) ≡ get_elem? xs i
  unfolding filled
  get_elem?-filled i m [] h = absurd (omega (arith, h))
  get_elem?-filled zero m (x ∷ xs) h = refl
  get_elem?-filled (suc i) m (x ∷ xs) h = get_elem?-filled i m xs (omega (arith, h))

  get_elem?-none : (i : ℕ) (xs : List T) → length xs ≤ i → none ≡ get_elem? xs i
  get_elem?-none i [] h = refl
  get_elem?-none zero (x ∷ xs) h = absurd (omega (arith, h))
  get_elem?-none (suc i) (x ∷ xs) h = get_elem?-none i xs (omega (arith, h))

  pub at_lem : (i m : ℕ) (xs : List T) → at i (vector_of xs m) ≡ get_elem? xs i
  unfolding at
  at_lem i m xs = elim (Bool-cases (ltb i (length xs))) [
    | inl e ↦ rw (at, e) (get_elem?-filled i m xs (ltb→lt i (length xs) e))
    | inr e ↦ rw (at, e) (get_elem?-none i xs (ground (arith, e)))
  ]

  pub copy_lem :
      (m : ℕ) (xs : List T) → 0 < length xs + m → copy (vector_of xs m) ≡ some (vector_of xs m)
  unfolding copy
  copy_lem m xs h = rw (copy, lt→ltb 0 (length xs + m) h, move_range-filled xs m m) refl

  pub destroy_lem :
      (m : ℕ) (xs : List T) → destroy (vector_of xs m) ≡ some (replicate (length xs + m) none)
  unfolding destroy
  destroy_lem m xs =
      let f : (length (replicate {A = Option T} (length xs + m) none) == length xs + m) ≡ true =
        ground (arith, length-replicate {A = Option T} (length xs + m) none) in
      rw (destroy, destroy_range-filled xs m, f) refl

-- a vector of at least four cells grows
abbrev pub Grows : (ℕ → ℕ) → Type 0
Grows grown = (n : ℕ) → 4 ≤ n → n < grown n

module _ {T : Type 0} where
  -- An operation does what the list says, on four cells; `none` is an undefined call.
  abbrev pub Agrees : Option (List T) → Option (Vector T) → Type 0
  Agrees none r = r ≡ none
  Agrees (some ys) r = (k : ℕ) × ((r ≡ some (vector_of ys k)) × (length ys + k ≡ 4))

  abbrev pub list_push : T → List T → Option (List T)
  list_push x xs = if leb 4 (length xs) then none else some (xs ++ (x ∷ []))

  abbrev pub list_reserve : ℕ → List T → Option (List T)
  list_reserve n xs = if leb n 4 then some xs else none

  abbrev pub list_resize : T → ℕ → List T → Option (List T)
  list_resize fresh n xs =
      if leb n (length xs)
      then some (take n xs)
      else if ltb n 4
      then some (xs ++ replicate (n - length xs) fresh)
      else none

  pub reserve-Agrees :
      (n m : ℕ) (xs : List T)
      → length xs + m ≡ 4
      → Agrees (list_reserve n xs) (reserve n (vector_of xs m))
  reserve-Agrees n m xs h = elim (Bool-cases (leb n 4)) [
    | inl e ↦ rw e (m, (reserve_kept n m xs (subst (λ c. leb n c ≡ true) (sym h) e), h))
    | inr e ↦ rw e (reserve_refused n m xs (subst (λ c. leb n c ≡ false) (sym h) e))
  ]

module _ {T : Type 0} (grown : ℕ → ℕ) where
  push_there :
      (x : T) (k : ℕ) (xs : List T)
      → ((vector_of xs (suc k)).arr >>= λ cells.
          with_arr (vector_of xs (suc k)) (length xs + 1) (construct_at (length xs) x cells))
        ≡ some (vector_of (xs ++ (x ∷ [])) k)
  push_there x k xs =
      ap (with_arr (vector_of xs (suc k)) (length xs + 1)) (construct_at-filled xs k x)
      ∙ ap some (
          vector_with-eq refl (omega (arith, length-append xs (x ∷ [])))
            (omega (arith, length-append xs (x ∷ []))))

  push_full :
      (x : T) (m : ℕ) (xs : List T)
      → Grows grown
      → length xs + m ≡ 4
      → 4 ≤ length xs
      → push_back grown x (vector_of xs m) ≡ none
  unfolding push_back
  push_full x m xs g h k =
      let e : leb (length xs + m) (length xs) ≡ true = ground (arith, h, k) in
      let f : leb (grown (length xs)) (length xs + m) ≡ false =
        ground (arith, h, k, g (length xs) k) in
      rw (push_back, e) (>>=-none _ (reserve_refused (grown (length xs)) m xs f))

  push_free :
      (x : T) (m : ℕ) (xs : List T)
      → push_back grown x (vector_of xs (suc m)) ≡ some (vector_of (xs ++ (x ∷ [])) m)
  unfolding push_back
  push_free x m xs =
      let e : leb (length xs + suc m) (length xs) ≡ false = ground arith in
      rw (push_back, e) (push_there x m xs)

  pub push_back-Agrees :
      (x : T) (m : ℕ) (xs : List T)
      → Grows grown
      → length xs + m ≡ 4
      → Agrees (list_push x xs) (push_back grown x (vector_of xs m))
  push_back-Agrees x zero xs g h =
      let e : leb 4 (length xs) ≡ true = ground (arith, h) in
      rw e (push_full x 0 xs g h (omega (arith, h)))
  push_back-Agrees x (suc m) xs g h =
      let e : leb 4 (length xs) ≡ false = ground (arith, h) in
      rw e (m, (push_free x m xs, omega (arith, h, length-append xs (x ∷ []))))

  shrunk :
      (n m : ℕ) (xs : List T)
      → n ≤ length xs
      → with_arr (vector_of xs m) n (destroy_from n (length xs - n) (filled xs m))
        ≡ some (vector_of (take n xs) (length xs - n + m))
  shrunk n m xs h =
      ap (with_arr (vector_of xs m) n) (destroy_from-filled n xs m h)
      ∙ ap some (
          vector_with-eq refl (omega (arith, h, length-take n xs))
            (omega (arith, h, length-take n xs)))

  lengthened :
      (fresh : T) (n d k : ℕ) (xs : List T)
      → n ≡ length xs + d
      → with_arr
          (vector_of xs (d + k))
          n
          (construct_from (length xs) (n - length xs) fresh (filled xs (d + k)))
        ≡ some (vector_of (xs ++ replicate d fresh) k)
  lengthened fresh n d k xs e =
      let f : d ≡ n - length xs = omega (arith, e) in
      let l = length-append xs (replicate d fresh) in
      let r = length-replicate d fresh in
      subst
        (λ i.
          with_arr (vector_of xs (d + k)) n (construct_from (length xs) i fresh (filled xs (d + k)))
          ≡ some (vector_of (xs ++ replicate d fresh) k))
        f
        (ap (with_arr (vector_of xs (d + k)) n) (construct_from-filled xs d k fresh)
          ∙ ap some (vector_with-eq refl (omega (arith, l, r)) (omega (arith, l, r, e))))

  pub resize-Agrees :
      (fresh : T) (n m : ℕ) (xs : List T)
      → Grows grown
      → length xs + m ≡ 4
      → Agrees (list_resize fresh n xs) (resize grown fresh n (vector_of xs m))
  unfolding resize
  resize-Agrees fresh n m xs g h = elim (Bool-cases (leb n (length xs))) [
    | inl e ↦
        let c = leb→le n (length xs) e in
        rw (resize, e) (length xs - n + m, (shrunk n m xs c, omega (arith, c, h, length-take n xs)))
    | inr e ↦ elim (Bool-cases (ltb n 4)) [
      | inl f ↦
          let f' : ltb n (length xs + m) ≡ true = subst (λ c. ltb n c ≡ true) (sym h) f in
          let d = n - length xs in
          let p : n ≡ length xs + d = ground (arith, e) in
          let j = m - d in
          let z : m ≡ d + j = ground (arith, p, h, f) in
          let room : leb (length xs + m) (length xs + m) ≡ true = ground arith in
          rw (resize, e, f, f')
            (
              j,
              (
                >>=-some _ (
                      reserve_kept (length xs + m) m xs room
                      ∙ ap (λ (i : ℕ). some (vector_of xs i)) z)
                    ∙ lengthened fresh n d j xs p,
                omega (arith, z, h, length-append xs (replicate d fresh), length-replicate d fresh),
              ),
            )
      | inr f ↦
          let f' : ltb n (length xs + m) ≡ false = subst (λ c. ltb n c ≡ false) (sym h) f in
          let big : leb (grown n) (length xs + m) ≡ false =
            ground (arith, f, h, g n (ground (arith, f))) in
          rw (resize, e, f, f') (>>=-none _ (reserve_refused (grown n) m xs big))
    ]
  ]
