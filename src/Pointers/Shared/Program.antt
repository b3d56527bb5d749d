-- ===== src/Pointers/Shared/Program.antt =====
-- Any sequence of constructors, assignments and destructors of shared pointers.
use studycpp.Prelude.{
  ℕ, ◌+◌, ◌-◌, ◌<◌, ◌≡◌, refl, subst, ◌∙◌, ◌≢◌, false, Option, none, some, arith, ◌==◌, length,
  get_elem?, set, length-set, get_elem?-set_ne,
}
use studycpp.Prelude.Do.{>>=-some}
use studycpp.Pointers.Slots.{
  Slots, holds, count, count-set, count-le, count-pos, get_elem?-set-some,
}
use studycpp.Pointers.Shared.{
  word, Memory, update, new_object, new_block, retain, release, Machine, read, write,
  construct_default, construct, construct_copy, assign_copy, construct_move, assign_move, destruct,
}
use studycpp.Pointers.Shared.Counted.{
  IsCounted, IsCounted-eq, opened, retain-IsCounted, release-IsCounted,
}

abbrev pub counts : Slots → ℕ → ℕ
counts ss a = count a ss

pub record IsSound (s : Machine) : Type 0 where
  pub counted : IsCounted (counts s.slots) s.memory
  pub few : length s.slots < word

-- The pointer in a slot gives its reference up; the slot counts as null from then on.
release-slot :
    (ss : Slots) (m : Memory) (x : ℕ) (old : Option ℕ)
    → IsCounted (counts ss) m
    → length ss < word
    → get_elem? ss x ≡ some (some old)
    → (m' : Memory) × ((release old m ≡ some m') × IsCounted (counts (set ss x (some none))) m')
unfolding release
release-slot ss m x none i w e = (
  m,
  (
    refl,
    IsCounted-eq (counts ss) (counts (set ss x (some none))) m
        (λ a. omega (arith, count-set a ss x (some none) (some none) e)) i,
  ),
)
release-slot ss m x (some b) i w e =
    let (m', r) =
      release-IsCounted (counts ss) m b i (count-pos b ss x e) (omega (arith, count-le b ss)) in
    (
      m',
      (
        r.0,
        IsCounted-eq (update (counts ss) b (count b ss - 1)) (counts (set ss x (some none))) m'
            (λ a. ground (arith, count-set a ss x (some (some b)) (some none) e)) r.1,
      ),
    )

-- A slot that counts as null takes a reference to what another one holds.
retain-slot :
    (ss : Slots) (m : Memory) (x y : ℕ) (old : Option (Option ℕ)) (c : Option ℕ)
    → IsCounted (counts ss) m
    → length ss < word
    → get_elem? ss x ≡ some old
    → ((a : ℕ) → holds a old ≡ 0)
    → get_elem? ss y ≡ some (some c)
    → (m' : Memory) × ((retain c m ≡ some m') × IsCounted (counts (set ss x (some c))) m')
unfolding retain
retain-slot ss m x y old none i w e z f = (
  m,
  (
    refl,
    IsCounted-eq (counts ss) (counts (set ss x (some none))) m
        (λ a. omega (arith, count-set a ss x old (some none) e, z a)) i,
  ),
)
retain-slot ss m x y old (some b) i w e z f =
    let more = count-set b ss x old (some (some b)) e in
    let most = count-le b (set ss x (some (some b))) in
    let size = length-set ss x (some (some b)) in
    let (m', r) =
      retain-IsCounted (counts ss) m b i (count-pos b ss y f)
        (ground (arith, more, most, size, z b)) in
    (
      m',
      (
        r.0,
        IsCounted-eq (update (counts ss) b (count b ss + 1)) (counts (set ss x (some (some b)))) m'
            (λ a. ground (arith, count-set a ss x old (some (some b)) e, z a)) r.1,
      ),
    )

pub construct_default-IsSound :
    (x : ℕ) (s : Machine)
    → IsSound s
    → get_elem? s.slots x ≡ some none
    → (s' : Machine) × ((construct_default x s ≡ some s') × IsSound s')
unfolding construct_default
construct_default-IsSound x s i e = (
  write x (some none) s.memory s,
  (
    refl,
    record {
      counted =
          IsCounted-eq (counts s.slots) (counts (set s.slots x (some none))) s.memory
            (λ a. omega (arith, count-set a s.slots x none (some none) e)) i.counted;
      few = omega (arith, length-set s.slots x (some none), i.few);
    },
  ),
)

-- `shared_ptr<T> x(new T)`
abbrev pub make : ℕ → Machine → Option Machine
make x s = let (p, m) = new_object s.memory in construct x (some p) (record s { memory = m })

pub make-IsSound :
    (x : ℕ) (s : Machine)
    → IsSound s
    → get_elem? s.slots x ≡ some none
    → (s' : Machine) × ((make x s ≡ some s') × IsSound s')
unfolding construct new_object
make-IsSound x s i e =
    let b = s.memory.next_block in
    let m = (new_block (new_object s.memory).0 (new_object s.memory).1).1 in
    let zero_refs = i.counted.dead b (i.counted.fresh_block b (omega arith)) in
    (
      write x (some (some b)) m s,
      (
        refl,
        record {
          counted =
              IsCounted-eq (update (counts s.slots) b 1) (counts (set s.slots x (some (some b)))) m
                (λ a. ground (arith, count-set a s.slots x none (some (some b)) e, zero_refs))
                (opened (counts s.slots) s.memory i.counted);
          few = omega (arith, length-set s.slots x (some (some b)), i.few);
        },
      ),
    )

read-some :
    (x : ℕ) (s : Machine) (c : Option ℕ) → get_elem? s.slots x ≡ some (some c) → read x s ≡ some c
read-some x s c e = >>=-some (λ o. o) e

pub destruct-IsSound :
    (x : ℕ) (c : Option ℕ) (s : Machine)
    → IsSound s
    → get_elem? s.slots x ≡ some (some c)
    → (s' : Machine) × ((destruct x s ≡ some s') × IsSound s')
unfolding destruct
destruct-IsSound x c s i e =
    let (m, r) = release-slot s.slots s.memory x c i.counted i.few e in
    (
      write x none m s,
      (
        rw (read-some x s c e, r.0) refl,
        record {
          counted =
              IsCounted-eq (counts (set s.slots x (some none))) (counts (set s.slots x none)) m
                (λ a. omega (
                  arith,
                  count-set a s.slots x (some c) (some none) e,
                  count-set a s.slots x (some c) none e,
                ))
                r.1;
          few = omega (arith, length-set s.slots x none, i.few);
        },
      ),
    )

pub construct_copy-IsSound :
    (x y : ℕ) (c : Option ℕ) (s : Machine)
    → IsSound s
    → get_elem? s.slots x ≡ some none
    → get_elem? s.slots y ≡ some (some c)
    → (s' : Machine) × ((construct_copy x y s ≡ some s') × IsSound s')
unfolding construct_copy
construct_copy-IsSound x y c s i e f =
    let (m, r) = retain-slot s.slots s.memory x y none c i.counted i.few e (λ a. refl) f in
    (
      write x (some c) m s,
      (
        rw (read-some y s c f, r.0) refl,
        record { counted = r.1; few = omega (arith, length-set s.slots x (some c), i.few) },
      ),
    )

pub construct_move-IsSound :
    (x y : ℕ) (c : Option ℕ) (s : Machine)
    → IsSound s
    → get_elem? s.slots x ≡ some none
    → get_elem? s.slots y ≡ some (some c)
    → (s' : Machine) × ((construct_move x y s ≡ some s') × IsSound s')
unfolding construct_move
construct_move-IsSound x y c s i e f =
    let ss = set s.slots x (some c) in
    let ne : x ≢ y = λ z. cc (subst (λ (k : ℕ). get_elem? s.slots k ≡ some none) z e, f) in
    let f' = get_elem?-set_ne s.slots (some c) ne ∙ f in
    (
      write y (some none) s.memory (write x (some c) s.memory s),
      (
        rw (read-some y s c f) refl,
        record {
          counted =
              IsCounted-eq (counts s.slots) (counts (set ss y (some none))) s.memory
                (λ a. omega (
                  arith,
                  count-set a s.slots x none (some c) e,
                  count-set a ss y (some c) (some none) f',
                ))
                i.counted;
          few = omega (arith, length-set s.slots x (some c), length-set ss y (some none), i.few);
        },
      ),
    )

pub assign_copy-IsSound :
    (x y : ℕ) (old c : Option ℕ) (s : Machine)
    → IsSound s
    → get_elem? s.slots x ≡ some (some old)
    → get_elem? s.slots y ≡ some (some c)
    → x ≢ y
    → (s' : Machine) × ((assign_copy x y s ≡ some s') × IsSound s')
unfolding assign_copy
assign_copy-IsSound x y old c s i e f ne =
    let ss = set s.slots x (some none) in
    let (m, r) = release-slot s.slots s.memory x old i.counted i.few e in
    let e' = get_elem?-set-some s.slots x (some old) (some none) e in
    let t : (x == y) ≡ false = ground (arith, ne) in
    let f' = get_elem?-set_ne s.slots (some none) ne ∙ f in
    let (m', r') =
      retain-slot ss m x y (some none) c r.1
        (omega (arith, length-set s.slots x (some none), i.few)) e' (λ a. refl) f' in
    (
      write x (some c) m' s,
      (
        rw (t, read-some x s old e, r.0, read-some y s c f, r'.0) refl,
        record {
          counted =
              IsCounted-eq (counts (set ss x (some c))) (counts (set s.slots x (some c))) m'
                (λ a. omega (
                  arith,
                  count-set a s.slots x (some old) (some c) e,
                  count-set a s.slots x (some old) (some none) e,
                  count-set a ss x (some none) (some c) e',
                ))
                r'.1;
          few = omega (arith, length-set s.slots x (some c), i.few);
        },
      ),
    )

pub assign_move-IsSound :
    (x y : ℕ) (old c : Option ℕ) (s : Machine)
    → IsSound s
    → get_elem? s.slots x ≡ some (some old)
    → get_elem? s.slots y ≡ some (some c)
    → x ≢ y
    → (s' : Machine) × ((assign_move x y s ≡ some s') × IsSound s')
unfolding assign_move
assign_move-IsSound x y old c s i e f ne =
    let ss = set s.slots x (some c) in
    let (m, r) = release-slot s.slots s.memory x old i.counted i.few e in
    let t : (x == y) ≡ false = ground (arith, ne) in
    let f' = get_elem?-set_ne s.slots (some c) ne ∙ f in
    (
      write y (some none) m (write x (some c) m s),
      (
        rw (t, read-some x s old e, r.0, read-some y s c f) refl,
        record {
          counted =
              IsCounted-eq (counts (set s.slots x (some none))) (counts (set ss y (some none))) m
                (λ a. omega (
                  arith,
                  count-set a s.slots x (some old) (some none) e,
                  count-set a s.slots x (some old) (some c) e,
                  count-set a ss y (some c) (some none) f',
                ))
                r.1;
          few = omega (arith, length-set s.slots x (some c), length-set ss y (some none), i.few);
        },
      ),
    )
