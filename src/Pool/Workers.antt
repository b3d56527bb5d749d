-- ===== src/Pool/Workers.antt =====
-- Sums over the workers of a pool.
use studycpp.Prelude.{
  ℕ, zero, suc, ◌+◌, ◌≤◌, ◌≡◌, refl, ap, subst, Bool, some, List, [], ◌∷◌, ◌++◌, map, arith,
  if◌then◌else◌, length, get_elem?, set, replicate,
}
use studycpp.Std.OrderedSet.{All}
use studycpp.Pool.{Worker, outside, testing, going_to_sleep, asleep, running, returned, woken, wake}

module _ {A : Type 0} where
  unfoldable pub weight : (Worker A → ℕ) → List (Worker A) → ℕ
  weight f [] = 0
  weight f (w ∷ ws) = f w + weight f ws

  pub weight-set :
      (f : Worker A → ℕ) (ws : List (Worker A)) (i : ℕ) (old new : Worker A)
      → get_elem? ws i ≡ some old
      → weight f (set ws i new) + f old ≡ weight f ws + f new
  unfolding weight
  weight-set f [] i old new e = cc
  weight-set f (w ∷ ws) zero old new e =
      let q : w ≡ old = cc e in
      subst (λ o. f new + weight f ws + f o ≡ f w + weight f ws + f new) q (omega arith)
  weight-set f (w ∷ ws) (suc i) old new e = omega (arith, weight-set f ws i old new e)

  pub weight-wake :
      (f : Worker A → ℕ) (i : ℕ) (ws : List (Worker A))
      → ((w : Worker A) → f (woken w) ≡ f w)
      → weight f (wake i ws) ≡ weight f ws
  unfolding weight wake
  weight-wake f i [] h = refl
  weight-wake f zero (w ∷ ws) h = omega (arith, h w)
  weight-wake f (suc i) (w ∷ ws) h = omega (arith, weight-wake f i ws h)

  pub weight-map-woken :
      (f : Worker A → ℕ) (ws : List (Worker A))
      → ((w : Worker A) → f (woken w) ≡ f w)
      → weight f (map woken ws) ≡ weight f ws
  unfolding weight
  weight-map-woken f [] h = refl
  weight-map-woken f (w ∷ ws) h = omega (arith, h w, weight-map-woken f ws h)

  pub weight-replicate :
      (f : Worker A → ℕ) (n : ℕ) (w : Worker A) → f w ≡ 0 → weight f (replicate n w) ≡ 0
  unfolding weight
  weight-replicate f zero w h = refl
  weight-replicate f (suc n) w h = omega (arith, h, weight-replicate f n w h)

  pub weight-at :
      (f : Worker A → ℕ) (ws : List (Worker A)) (i : ℕ) (w : Worker A)
      → get_elem? ws i ≡ some w
      → f w ≤ weight f ws
  unfolding weight
  weight-at f [] i w e = cc
  weight-at f (v ∷ ws) zero w e =
      let q : v ≡ w = cc e in subst (λ o. f o ≤ f v + weight f ws) q (omega arith)
  weight-at f (v ∷ ws) (suc i) w e = omega (arith, weight-at f ws i w e)

  -- whether a test holds of the task of a worker
  abbrev pub runs : (A → Bool) → Worker A → ℕ
  runs q outside = 0
  runs q testing = 0
  runs q going_to_sleep = 0
  runs q asleep = 0
  runs q (running task) = if q task then 1 else 0
  runs q returned = 0

  abbrev pub has_returned : Worker A → ℕ
  has_returned outside = 0
  has_returned testing = 0
  has_returned going_to_sleep = 0
  has_returned asleep = 0
  has_returned (running task) = 0
  has_returned returned = 1

  pub runs-woken : (q : A → Bool) (w : Worker A) → runs q (woken w) ≡ runs q w
  runs-woken q outside = refl
  runs-woken q testing = refl
  runs-woken q going_to_sleep = refl
  runs-woken q asleep = refl
  runs-woken q (running task) = refl
  runs-woken q returned = refl

  pub has_returned-woken : (w : Worker A) → has_returned (woken w) ≡ has_returned w
  has_returned-woken outside = refl
  has_returned-woken testing = refl
  has_returned-woken going_to_sleep = refl
  has_returned-woken asleep = refl
  has_returned-woken (running task) = refl
  has_returned-woken returned = refl

  -- how many tasks of a list pass a test
  unfoldable pub count : (A → Bool) → List A → ℕ
  count q [] = 0
  count q (x ∷ xs) = (if q x then 1 else 0) + count q xs

  pub count-append : (q : A → Bool) (xs ys : List A) → count q (xs ++ ys) ≡ count q xs + count q ys
  unfolding count
  count-append q [] ys = omega arith
  count-append q (x ∷ xs) ys = omega (arith, count-append q xs ys)

  -- every worker has returned
  abbrev pub AllReturned : List (Worker A) → Type 0
  AllReturned ws = All (λ w. w ≡ returned) ws

  pub weight-AllReturned :
      (f : Worker A → ℕ) (ws : List (Worker A)) → f returned ≡ 0 → AllReturned ws → weight f ws ≡ 0
  unfolding weight
  weight-AllReturned f [] e h = refl
  weight-AllReturned f (w ∷ ws) e h = omega (arith, ap f h.0, e, weight-AllReturned f ws e h.1)

  pub has_returned-AllReturned :
      (ws : List (Worker A)) → AllReturned ws → weight has_returned ws ≡ length ws
  unfolding weight
  has_returned-AllReturned [] h = refl
  has_returned-AllReturned (w ∷ ws) h =
      omega (arith, ap has_returned h.0, has_returned-AllReturned ws h.1)
