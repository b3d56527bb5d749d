-- ===== src/Pointers/Unique/Steps.antt =====
-- Each operation on unique pointers keeps the owners right.
use studycpp.Prelude.{
  ℕ, zero, suc, ◌≡◌, refl, sym, ap, subst, ◌∙◌, ◌≢◌, inl, inr, true, false, Option, none, some, [],
  ◌∷◌, arith, ℕ_discrete, ◌==◌, ==_iff, Bool-cases, get_elem?, set, get_elem?-set_ne,
}
use mathlib.Core.Option
use studycpp.Prelude.Do.{◌>>=◌, >>=-some}
use studycpp.Pointers.Slots.{Slots, holds, count-set, count-pos, get_elem?-set-some}
use studycpp.Pointers.Unique.{
  Machine, set_at, delete_object, pointer, assign, with_object, construct_move, assign_move,
  reset_new, reset, release, destruct,
}
use studycpp.Pointers.Unique.Owned.{
  IsOwned, Succeeds, assign_null-IsOwned, dropped-Succeeds, delete_there,
}

set-set : (ss : Slots) (x : ℕ) (a b : Option (Option ℕ)) → set (set ss x a) x b ≡ set ss x b
set-set [] x a b = refl
set-set (s ∷ ss) zero a b = refl
set-set (s ∷ ss) (suc x) a b = ap (λ ts. s ∷ ts) (set-set ss x a b)

moved-IsOwned :
    (x y : ℕ) (old : Option (Option ℕ)) (c : Option ℕ) (s : Machine)
    → IsOwned s
    → get_elem? s.slots x ≡ some old
    → ((p : ℕ) → holds p old ≡ 0)
    → get_elem? s.slots y ≡ some (some c)
    → x ≢ y
    → IsOwned (assign y (some none) (assign x (some c) s))
moved-IsOwned x y old c s i e h f ne =
    let g : get_elem? (set s.slots x (some c)) y ≡ some (some c) =
      get_elem?-set_ne s.slots {i = x} {j = y} (some c) ne ∙ f in
    record {
      owned = λ p. omega (
        arith,
        i.owned p,
        h p,
        count-set p s.slots x old (some c) e,
        count-set p (set s.slots x (some c)) y (some c) (some none) g,
      );
      fresh = i.fresh;
    }

distinct_slots :
    (x y : ℕ) (a b : Option (Option ℕ)) (s : Machine)
    → get_elem? s.slots x ≡ some a
    → get_elem? s.slots y ≡ some b
    → a ≢ b
    → x ≢ y
distinct_slots x y a b s e f ne z =
    let g : some a ≡ some b = sym e ∙ ap (λ (k : ℕ). get_elem? s.slots k) z ∙ f in ne (cc g)

pub construct_move-Succeeds :
    (x y : ℕ) (c : Option ℕ) (s : Machine)
    → IsOwned s
    → get_elem? s.slots x ≡ some none
    → get_elem? s.slots y ≡ some (some c)
    → Succeeds (construct_move x y s)
unfolding construct_move
construct_move-Succeeds x y c s i e f = (
  assign y (some none) (assign x (some c) s),
  (
    >>=-some _ (ap (λ o. o >>= λ v. v) f),
    moved-IsOwned x y none c s i e (λ p. refl) f
        (distinct_slots x y none (some c) s e f (λ z. cc z)),
  ),
)

pub destruct-Succeeds :
    (x : ℕ) (c : Option ℕ) (s : Machine)
    → IsOwned s
    → get_elem? s.slots x ≡ some (some c)
    → Succeeds (destruct x s)
unfolding destruct
destruct-Succeeds x c s i e =
    let (t, (d, (u, o))) = dropped-Succeeds x c none s i e (λ p. refl) in
    (assign x none t, (>>=-some _ (ap (λ o'. o' >>= λ v. v) e) ∙ >>=-some _ d, o))

delete_object-map :
    (c : Option ℕ) (x : ℕ) (v : Option (Option ℕ)) (s : Machine)
    → delete_object c (assign x v s) ≡ Option.map (assign x v) (delete_object c s)
unfolding delete_object
delete_object-map none x v s = refl
delete_object-map (some q) x v s = elim (Bool-cases (s.objects q)) [
  | inl f ↦ rw f refl
  | inr f ↦ rw f refl
]

pub reset-Succeeds :
    (x : ℕ) (c : Option ℕ) (s : Machine)
    → IsOwned s
    → get_elem? s.slots x ≡ some (some c)
    → Succeeds (reset x s)
unfolding reset
reset-Succeeds x c s i e =
    let (t, (d, (u, o))) = dropped-Succeeds x c (some none) s i e (λ p. refl) in
    (
      assign x (some none) t,
      (
        >>=-some _ (ap (λ o'. o' >>= λ v. v) e)
            ∙ delete_object-map c x (some none) s
            ∙ ap (Option.map (assign x (some none))) d,
        o,
      ),
    )

pub reset_new-Succeeds :
    (x : ℕ) (c : Option ℕ) (s : Machine)
    → IsOwned s
    → get_elem? s.slots x ≡ some (some c)
    → Succeeds (reset_new x s)
unfolding reset_new delete_object
reset_new-Succeeds x none s i e = (
  assign x (some (some s.next_object)) (with_object s),
  (
    >>=-some _ (ap (λ o'. o' >>= λ v. v) e),
    record {
      owned = λ p. ground (
        arith,
        i.owned p,
        i.fresh p,
        count-set p s.slots x (some none) (some (some s.next_object)) e,
      );
      fresh = λ p h. ground (arith, i.fresh p, h);
    },
  ),
)
reset_new-Succeeds x (some q) s i e =
    let f : s.objects q ≡ true = ground (arith, i.owned q, count-pos q s.slots x e) in
    let n = s.next_object in
    let ne : q ≢ n = λ z. ground (arith, i.fresh q, z, f) in
    let g : set_at s.objects n true q ≡ true = ground (arith, f) in
    let t = assign x (some (some n)) (with_object s) in
    (
      record t { objects = set_at (set_at s.objects n true) q false },
      (
        >>=-some _ (ap (λ o'. o' >>= λ v. v) e) ∙ delete_there q t g,
        record {
          owned = λ p. ground (
            arith,
            i.owned p,
            i.fresh p,
            count-set p s.slots x (some (some q)) (some (some n)) e,
            ne,
            f,
          );
          fresh = λ p h. ground (arith, i.fresh p, h);
        },
      ),
    )

pub release-Succeeds :
    (x : ℕ) (c : Option ℕ) (s : Machine)
    → IsOwned s
    → get_elem? s.slots x ≡ some (some c)
    → Succeeds (release x s)
unfolding release
release-Succeeds x none s i e = (
  assign x (some none) s,
  (
    >>=-some _ (ap (λ o'. o' >>= λ v. v) e),
    assign_null-IsOwned x (some none) s i e (λ p. refl) (some none) (λ p. refl),
  ),
)
release-Succeeds x (some q) s i e = (
  record s { slots = set s.slots x (some none); released = set_at s.released q true },
  (
    >>=-some _ (ap (λ o'. o' >>= λ v. v) e),
    record {
      owned = λ p. ground (
        arith,
        i.owned p,
        i.owned q,
        count-pos q s.slots x e,
        count-set p s.slots x (some (some q)) (some none) e,
      );
      fresh = i.fresh;
    },
  ),
)

old_pointer :
    (x : ℕ) (c : Option ℕ) (s : Machine)
    → get_elem? s.slots x ≡ some (some c)
    → pointer x s ≡ some c
old_pointer x c s e = ap (λ o. o >>= λ v. v) e

pub assign_move-Succeeds :
    (x y : ℕ) (old c : Option ℕ) (s : Machine)
    → IsOwned s
    → get_elem? s.slots x ≡ some (some old)
    → get_elem? s.slots y ≡ some (some c)
    → Succeeds (assign_move x y s)
unfolding assign_move
assign_move-Succeeds x y old c s i e f = elim (ℕ_discrete x y) [
  | yes z ↦ (s, (rw (assign_move, (==_iff x y).1 z) refl, i))
  | no ne ↦
      let (t, (d, (u, o))) = dropped-Succeeds x old (some none) s i e (λ p. refl) in
      let e' : get_elem? (set t.slots x (some none)) x ≡ some (some none) =
        get_elem?-set-some t.slots x (some old) (some none)
          (ap (λ (ss : Slots). get_elem? ss x) u ∙ e) in
      let f' : get_elem? (set t.slots x (some none)) y ≡ some (some c) =
        get_elem?-set_ne t.slots {i = x} {j = y} (some none) ne
        ∙ ap (λ (ss : Slots). get_elem? ss y) u
        ∙ f in
      let m = moved-IsOwned x y (some none) c (assign x (some none) t) o e' (λ p. refl) f' ne in
      let b : (x == y) ≡ false = ground (arith, ne) in
      (
        assign y (some none) (assign x (some c) t),
        (
          rw (assign_move, b)
              (>>=-some _ (old_pointer x old s e)
                ∙ >>=-some _ d
                ∙ >>=-some _ (old_pointer y c t (ap (λ (ss : Slots). get_elem? ss y) u ∙ f))),
          subst (λ (ss : Slots). IsOwned (record t { slots = set ss y (some none) }))
              (set-set t.slots x (some none) (some c)) m,
        ),
      )
]
