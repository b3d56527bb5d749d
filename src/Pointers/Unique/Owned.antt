-- ===== src/Pointers/Unique/Owned.antt =====
-- Every object has one owner.
use studycpp.Prelude.{
  ℕ, ◌+◌, ◌≤◌, ◌≡◌, refl, Bool, true, false, Option, none, some, arith, if◌then◌else◌, get_elem?,
}
use studycpp.Pointers.Slots.{holds, count, count-set, count-pos}
use studycpp.Pointers.Unique.{Machine, set_at, delete_object, assign, with_object, construct_new}

abbrev pub one_if : Bool → ℕ
one_if b = if b then 1 else 0

-- The owners of an object are the pointers that hold its address, and the program if it was released.
-- An object that is there has one, and an address without an object none.
pub record IsOwned (s : Machine) : Type 0 where
  pub owned : (p : ℕ) → count p s.slots + one_if (s.released p) ≡ one_if (s.objects p)
  pub fresh : (p : ℕ) → s.next_object ≤ p → s.objects p ≡ false

abbrev pub Succeeds : Option Machine → Type 0
Succeeds r = (s : Machine) × ((r ≡ some s) × IsOwned s)

pub assign_null-IsOwned :
    (x : ℕ) (old : Option (Option ℕ)) (s : Machine)
    → IsOwned s
    → get_elem? s.slots x ≡ some old
    → ((p : ℕ) → holds p old ≡ 0)
    → (new : Option (Option ℕ)) → ((p : ℕ) → holds p new ≡ 0)
    → IsOwned (assign x new s)
assign_null-IsOwned x old s i e h new k = record {
  owned = λ p. omega (arith, i.owned p, count-set p s.slots x old new e, h p, k p);
  fresh = i.fresh;
}

pub construct_new-Succeeds :
    (x : ℕ) (s : Machine)
    → IsOwned s
    → get_elem? s.slots x ≡ some none
    → Succeeds (construct_new x s)
unfolding construct_new
construct_new-Succeeds x s i e = (
  assign x (some (some s.next_object)) (with_object s),
  (
    refl,
    record {
      owned = λ p.
          ground
            (arith, i.owned p, i.fresh p, count-set p s.slots x none (some (some s.next_object)) e);
      fresh = λ p h. ground (arith, i.fresh p, h);
    },
  ),
)

pub delete_there :
    (q : ℕ) (s : Machine)
    → s.objects q ≡ true
    → delete_object (some q) s ≡ some (record s { objects = set_at s.objects q false })
unfolding delete_object
delete_there q s f = rw f refl

-- The object that a pointer holds goes, and the variable gets a value without a pointer.
pub dropped-Succeeds :
    (x : ℕ) (c : Option ℕ) (new : Option (Option ℕ)) (s : Machine)
    → IsOwned s
    → get_elem? s.slots x ≡ some (some c)
    → ((p : ℕ) → holds p new ≡ 0)
    → (t : Machine) × ((delete_object c s ≡ some t)
        × ((t.slots ≡ s.slots) × IsOwned (assign x new t)))
unfolding delete_object
dropped-Succeeds x none new s i e k =
    (s, (refl, (refl, assign_null-IsOwned x (some none) s i e (λ p. refl) new k)))
dropped-Succeeds x (some q) new s i e k =
    let f : s.objects q ≡ true = ground (arith, i.owned q, count-pos q s.slots x e) in
    (
      record s { objects = set_at s.objects q false },
      (
        rw (delete_object, f) refl,
        (
          refl,
          record {
            owned =
                λ p. ground (arith, i.owned p, count-set p s.slots x (some (some q)) new e, k p, f);
            fresh = λ p h. ground (arith, i.fresh p h);
          },
        ),
      ),
    )
