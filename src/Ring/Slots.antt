-- ===== src/Ring/Slots.antt =====
-- A window of a ring: the slots from a position on, each at its position modulo the capacity.
use native.Mathlib.Nat.{div-add-mod, mul-le-mul_left, mod-lt, add-mod}
use studycpp.Prelude.{
  ℕ, suc, ◌+◌, ◌/◌, ◌%◌, ◌≤◌, ◌<◌, ◌≡◌, sym, ap, subst, ◌∙◌, ◌≢◌, Option, some, List, [], ◌∷◌, ◌++◌,
  arith, dec_lt, length, get_elem?, set, length-set, get_elem?-set_self, get_elem?-set_ne,
}

-- Positions less than a round apart have slots of their own.
pub mod-distinct : (n a b : ℕ) → a < b → b < a + n → a % n ≢ b % n
mod-distinct n a b h k e =
    let p = div-add-mod a n in
    let q = div-add-mod b n in
    elim (dec_lt (a / n) (b / n)) [
      | yes l ↦ let m = mul-le-mul_left {m = suc (a / n)} {n = b / n} n l in absurd (omega arith)
      | no l ↦
          let m = mul-le-mul_left {m = b / n} {n = a / n} n (omega arith) in absurd (omega arith)
    ]

suc-mod : (s t n : ℕ) → s % n ≡ t % n → suc s % n ≡ suc t % n
suc-mod s t n e =
    ap (λ (r : ℕ). r % n) (omega arith)
    ∙ add-mod 1 s n
    ∙ ap (λ (r : ℕ). (1 % n + r) % n) e
    ∙ sym (add-mod 1 t n)
    ∙ ap (λ (r : ℕ). r % n) (omega arith)

module _ {T : Type 0} where
  -- The slots from `start` on hold the elements `xs`.
  abbrev pub Holds : List (Option T) → ℕ → List T → Type 0
  Holds ring start [] = Unit
  Holds ring start (x ∷ xs) =
      (get_elem? ring (start % length ring) ≡ some (some x)) × Holds ring (suc start) xs

  -- A write to a slot outside of the window.
  pub Holds-set :
      (ring : List (Option T)) (start p : ℕ) (xs : List T) (v : Option T)
      → start + length xs ≤ p
      → p < start + length ring
      → Holds ring start xs
      → Holds (set ring (p % length ring) v) start xs
  Holds-set ring start p [] v h k l = tt
  Holds-set ring start p (x ∷ xs) v h k l =
      let d = mod-distinct (length ring) start p (omega arith) (omega arith) in
      (
        rw (length-set ring (p % length ring) v) (get_elem?-set_ne ring v (λ e. d (sym e)) ∙ l.0),
        Holds-set ring (suc start) p xs v (omega arith) (omega arith) l.1,
      )

  Holds-append :
      (ring : List (Option T)) (start : ℕ) (xs : List T) (x : T)
      → Holds ring start xs
      → get_elem? ring ((start + length xs) % length ring) ≡ some (some x)
      → Holds ring start (xs ++ (x ∷ []))
  Holds-append ring start [] x h e =
      (subst (λ p. get_elem? ring (p % length ring) ≡ some (some x)) (omega arith) e, tt)
  Holds-append ring start (y ∷ xs) x h e = (
    h.0,
    Holds-append ring (suc start) xs x h.1
        (subst (λ p. get_elem? ring (p % length ring) ≡ some (some x)) (omega arith) e),
  )

  -- A write to the slot behind the window.
  pub Holds-push :
      (ring : List (Option T)) (start : ℕ) (xs : List T) (x : T)
      → length xs < length ring
      → Holds ring start xs
      → Holds (set ring ((start + length xs) % length ring) (some x)) start (xs ++ (x ∷ []))
  Holds-push ring start xs x h l =
      let p = (start + length xs) % length ring in
      let b = mod-lt (start + length xs) {m = length ring} (omega arith) in
      Holds-append (set ring p (some x)) start xs x
        (Holds-set ring start (start + length xs) xs (some x) (omega arith) (omega arith) l)
        (rw (length-set ring p (some x)) (get_elem?-set_self ring p (some x) b))

  -- The window depends on its start modulo the capacity only.
  pub Holds-shift :
      (ring : List (Option T)) (s t : ℕ) (xs : List T)
      → s % length ring ≡ t % length ring
      → Holds ring s xs
      → Holds ring t xs
  Holds-shift ring s t [] e h = tt
  Holds-shift ring s t (x ∷ xs) e h =
      (rw (sym e) h.0, Holds-shift ring (suc s) (suc t) xs (suc-mod s t (length ring) e) h.1)
