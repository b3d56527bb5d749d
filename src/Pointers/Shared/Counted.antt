-- ===== src/Pointers/Shared/Counted.antt =====
-- The control blocks of a memory count their references.
use mathlib.Core.Path.{fun_ext}
use studycpp.Prelude.{
  ℕ, suc, ◌+◌, ◌-◌, ◌%◌, ◌≤◌, ◌<◌, ◌≡◌, refl, sym, ap, subst, ◌∙◌, ◌≢◌, inl, inr, true, false,
  Option, none, some, arith, dec_lt, ◌==◌, Bool-cases, Option-cases,
}
use studycpp.Prelude.Do.{>>=-some}
use studycpp.Pointers.Shared.{
  word, ControlBlock, Memory, update, set_block, new_object, new_block, delete_block, decrement_ref,
  delete_last, retain, release,
}

-- A block with `n` references, at the address `a`.
pub record IsAlive (owner : ℕ → ℕ) (m : Memory) (n a : ℕ) (b : ControlBlock) : Type 0 where
  pub counted : b.ref_count ≡ n
  pub held : 0 < n
  pub object : ℕ
  pub ptr_eq : b.ptr ≡ some object
  pub live : m.objects object ≡ true
  pub owner_eq : owner object ≡ a

-- The references of each address are `n`. A block is there just as long as it has references, and
-- an object just as long as the block is that owns it.
pub record IsCounted (n : ℕ → ℕ) (m : Memory) : Type 0 where
  pub owner : ℕ → ℕ
  pub dead : (a : ℕ) → m.blocks a ≡ none → n a ≡ 0
  pub alive : (a : ℕ) (b : ControlBlock) → m.blocks a ≡ some b → IsAlive owner m (n a) a b
  pub owned :
      (p : ℕ)
      → m.objects p ≡ true
      → (b : ControlBlock) × ((m.blocks (owner p) ≡ some b) × (b.ptr ≡ some p))
  pub fresh_block : (a : ℕ) → m.next_block ≤ a → m.blocks a ≡ none
  pub fresh_object : (p : ℕ) → m.next_object ≤ p → m.objects p ≡ false

pub IsCounted-eq :
    (n k : ℕ → ℕ) (m : Memory) → ((a : ℕ) → n a ≡ k a) → IsCounted n m → IsCounted k m
IsCounted-eq n k m e i = record {
  owner = i.owner;
  dead = λ a h. sym (e a) ∙ i.dead a h;
  alive = λ a b h. subst (λ r. IsAlive i.owner m r a b) (e a) (i.alive a b h);
  owned = i.owned;
  fresh_block = i.fresh_block;
  fresh_object = i.fresh_object;
}

-- Something with a reference is there.
find_block :
    (n : ℕ → ℕ) (m : Memory) (a : ℕ)
    → IsCounted n m
    → 0 < n a
    → (b : ControlBlock) × (m.blocks a ≡ some b)
find_block n m a i h = elim (Option-cases (m.blocks a)) [
  | inl e ↦ absurd (omega (arith, i.dead a e, h))
  | inr r ↦ r
]

-- A block with another number of references.
recount :
    (n : ℕ → ℕ) (m : Memory) (a k : ℕ) (b : ControlBlock)
    → IsCounted n m
    → m.blocks a ≡ some b
    → 0 < k
    → IsCounted (update n a k) (set_block m a (some (record b { ref_count = k })))
recount n m a k b i e h =
    let l = i.alive a b e in
    record {
      owner = i.owner;
      dead = λ c f. elim (Bool-cases (a == c)) [
        | inl q ↦ absurd (ground (arith, q, f))
        | inr q ↦ rw q (i.dead c (ground (arith, q, f)))
      ];
      alive = λ c d f. elim (Bool-cases (a == c)) [
        | inl q ↦
            let r : record b { ref_count = k } ≡ d = ground (arith, q, f) in
            rw q (
              subst (IsAlive i.owner (set_block m a (some (record b { ref_count = k }))) k c) r
                (record {
                  counted = refl;
                  held = h;
                  object = l.object;
                  ptr_eq = l.ptr_eq;
                  live = l.live;
                  owner_eq = l.owner_eq ∙ ground (arith, q);
                }))
        | inr q ↦
            let l = i.alive c d (ground (arith, q, f)) in
            rw q (record {
              counted = l.counted;
              held = l.held;
              object = l.object;
              ptr_eq = l.ptr_eq;
              live = l.live;
              owner_eq = l.owner_eq;
            })
      ];
      owned = λ p f. elim (Bool-cases (a == i.owner p)) [
        | inl q ↦
            let (b', r) = i.owned p f in
            let s : a ≡ i.owner p = ground (arith, q) in
            let t : some b ≡ some b' = sym e ∙ ap m.blocks s ∙ r.0 in
            (record b { ref_count = k }, (rw q refl, ground (arith, t, r.1)))
        | inr q ↦ let (b', r) = i.owned p f in (b', (rw q r.0, r.1))
      ];
      fresh_block = λ c f. elim (Bool-cases (a == c)) [
        | inl q ↦ absurd (ground (arith, q, e, i.fresh_block c f))
        | inr q ↦ rw q (i.fresh_block c f)
      ];
      fresh_object = i.fresh_object;
    }

-- A block and its object are gone.
closed :
    (n : ℕ → ℕ) (m : Memory) (a o : ℕ) (b : ControlBlock)
    → IsCounted n m
    → m.blocks a ≡ some b
    → b.ptr ≡ some o
    → IsCounted
        (update n a 0)
        (record m { blocks = update m.blocks a none; objects = update m.objects o false })
closed n m a o b i e u =
    let l = i.alive a b e in
    let v : l.object ≡ o = cc (sym l.ptr_eq ∙ u) in
    let own : i.owner o ≡ a = subst (λ (z : ℕ). i.owner z ≡ a) v l.owner_eq in
    record {
      owner = i.owner;
      dead = λ c f. elim (Bool-cases (a == c)) [
        | inl q ↦ rw q refl
        | inr q ↦ rw q (i.dead c (ground (arith, q, f)))
      ];
      alive = λ c d f. elim (Bool-cases (a == c)) [
        | inl q ↦ absurd (ground (arith, q, f))
        | inr q ↦
            let l = i.alive c d (ground (arith, q, f)) in
            let w : o ≢ l.object = λ z. ground (arith, q, own, l.owner_eq, ap i.owner z) in
            rw q (record {
              counted = l.counted;
              held = l.held;
              object = l.object;
              ptr_eq = l.ptr_eq;
              live = ground (arith, w, l.live);
              owner_eq = l.owner_eq;
            })
      ];
      owned = λ p f.
          let w : o ≢ p = λ z. ground (arith, f, z) in
          let (b', r) = i.owned p (ground (arith, f, w)) in
          elim (Bool-cases (a == i.owner p)) [
            | inl q ↦
                let s : a ≡ i.owner p = ground (arith, q) in
                let t : some b ≡ some b' = sym e ∙ ap m.blocks s ∙ r.0 in
                absurd (ground (arith, t, r.1, u, w))
            | inr q ↦ (b', (rw q r.0, r.1))
          ];
      fresh_block = λ c f. elim (Bool-cases (a == c)) [
        | inl q ↦ rw q refl
        | inr q ↦ rw q (i.fresh_block c f)
      ];
      fresh_object = λ p f. elim (Bool-cases (o == p)) [
        | inl q ↦ rw q refl
        | inr q ↦ rw q (i.fresh_object p f)
      ];
    }

-- A new object and its block, with one reference.
pub opened :
    (n : ℕ → ℕ) (m : Memory)
    → IsCounted n m
    → IsCounted (update n m.next_block 1) (new_block (new_object m).0 (new_object m).1).1
unfolding new_block new_object
opened n m i = record {
  owner = update i.owner m.next_object m.next_block;
  dead = λ c f. elim (Bool-cases (m.next_block == c)) [
    | inl q ↦ absurd (ground (arith, q, f))
    | inr q ↦ rw q (i.dead c (ground (arith, q, f)))
  ];
  alive = λ c d f. elim (Bool-cases (m.next_block == c)) [
    | inl q ↦ record {
      counted = ground (arith, f, q);
      held = ground (arith, q);
      object = m.next_object;
      ptr_eq = ground (arith, f, q);
      live = ground arith;
      owner_eq = ground (arith, q);
    }
    | inr q ↦
        let l = i.alive c d (ground (arith, q, f)) in
        let w : m.next_object ≢ l.object =
          λ z. ground (arith, i.fresh_object l.object, l.live, z) in
        record {
          counted = rw q l.counted;
          held = rw q l.held;
          object = l.object;
          ptr_eq = l.ptr_eq;
          live = ground (arith, w, l.live);
          owner_eq = ground (arith, w, l.owner_eq);
        }
  ];
  owned = λ p f. elim (Bool-cases (m.next_object == p)) [
    | inl q ↦
        (record { ptr = some m.next_object; ref_count = 1 }, (ground (arith, q), ground (arith, q)))
    | inr q ↦
        let (b, r) = i.owned p (ground (arith, q, f)) in
        let s : m.next_block ≢ i.owner p = λ z. ground (arith, i.fresh_block (i.owner p), r.0, z) in
        (b, (ground (arith, q, s, r.0), r.1))
  ];
  fresh_block = λ c f. ground (arith, i.fresh_block c, f);
  fresh_object = λ p f. ground (arith, i.fresh_object p, f);
}

pub retain-IsCounted :
    (n : ℕ → ℕ) (m : Memory) (a : ℕ)
    → IsCounted n m
    → 0 < n a
    → n a + 1 < word
    → (m' : Memory) × ((retain (some a) m ≡ some m') × IsCounted (update n a (n a + 1)) m')
unfolding retain
retain-IsCounted n m a i h w =
    let (b, e) = find_block n m a i h in
    let l = i.alive a b e in
    let c : (b.ref_count + 1) % word ≡ n a + 1 = omega (arith, l.counted) in
    (
      set_block m a (some (record b { ref_count = n a + 1 })),
      (
        >>=-some
              (λ b. some (set_block m a (some (record b { ref_count = (b.ref_count + 1) % word }))))
              e
            ∙ ap (λ r. some (set_block m a (some (record b { ref_count = r })))) c,
        recount n m a (n a + 1) b i e (omega arith),
      ),
    )

update-update {ℓ} :
    {A : Type ℓ} (f : ℕ → A) (p : ℕ) (v w : A) → update (update f p v) p w ≡ update f p w
update-update f p v w = fun_ext λ q. ground arith

decrement_ref-last :
    (m : Memory) (a o : ℕ) (b : ControlBlock)
    → m.blocks a ≡ some b
    → b.ref_count ≡ 1
    → b.ptr ≡ some o
    → m.objects o ≡ true
    → decrement_ref a m
      ≡ some (
        true,
        record m {
          blocks =
              update
                (update m.blocks a (some (record b { ref_count = 0 })))
                a
                (some (record { ptr = none; ref_count = 0 }));
          objects = update m.objects o false;
        },
      )
unfolding decrement_ref
decrement_ref-last m a o b e f g h = ground arith

decrement_ref-more :
    (m : Memory) (a k : ℕ) (b : ControlBlock)
    → m.blocks a ≡ some b
    → b.ref_count ≡ suc (suc k)
    → suc (suc k) < word
    → decrement_ref a m ≡ some (false, set_block m a (some (record b { ref_count = suc k })))
unfolding decrement_ref
decrement_ref-more m a k b e f h = ground arith

delete_block_lem :
    (m : Memory) (a : ℕ)
    → m.blocks a ≡ some (record { ptr = none; ref_count = 0 })
    → delete_block a m ≡ some (set_block m a none)
unfolding delete_block
delete_block_lem m a e = ground arith

-- To give up a reference is defined, and leaves a memory that counts one less.
pub release-IsCounted :
    (n : ℕ → ℕ) (m : Memory) (a : ℕ)
    → IsCounted n m
    → 0 < n a
    → n a < word
    → (m' : Memory) × ((release (some a) m ≡ some m') × IsCounted (update n a (n a - 1)) m')
unfolding release
release-IsCounted n m a i h w =
    let (b, e) = find_block n m a i h in
    let l = i.alive a b e in
    elim (dec_lt 1 (n a)) [
      | yes p ↦
          let c : b.ref_count ≡ suc (suc (n a - 2)) = omega (arith, l.counted) in
          (
            set_block m a (some (record b { ref_count = n a - 1 })),
            (
              >>=-some (delete_last a) (decrement_ref-more m a (n a - 2) b e c (omega arith))
                  ∙ ap (λ (r : ℕ). some (set_block m a (some (record b { ref_count = r }))))
                      (omega arith),
              recount n m a (n a - 1) b i e (omega arith),
            ),
          )
      | no p ↦
          let c : b.ref_count ≡ 1 = omega (arith, l.counted) in
          let z : n a - 1 ≡ 0 = omega (arith, l.counted) in
          let gone : ControlBlock = record { ptr = none; ref_count = 0 } in
          let blocks : ℕ → Option ControlBlock =
            update (update m.blocks a (some (record b { ref_count = 0 }))) a (some gone) in
          (
            record m { blocks = update m.blocks a none; objects = update m.objects l.object false },
            (
              >>=-some (delete_last a) (decrement_ref-last m a l.object b e c l.ptr_eq l.live)
                  ∙ delete_block_lem
                      (record m { blocks = blocks; objects = update m.objects l.object false }) a
                      (ground arith)
                  ∙ ap
                      (λ f.
                        some (record m { blocks = f; objects = update m.objects l.object false }))
                      (update-update (update m.blocks a (some (record b { ref_count = 0 }))) a
                          (some gone) none
                        ∙ update-update m.blocks a (some (record b { ref_count = 0 })) none),
              rw z (closed n m a l.object b i e l.ptr_eq),
            ),
          )
    ]
