-- ===== src/Lru/Refines.antt =====
-- The calls of a cache do to its list of entries what the calls on a list do.
use studycpp.Prelude.{
  ℕ, ◌+◌, ◌-◌, ◌<◌, ◌≡◌, refl, sym, ap, subst, ◌∙◌, inl, inr, true, false, Option, none, some, List,
  ◌∷◌, arith, ltb, if◌then◌else◌, ltb→lt, Bool-cases, Option-cases, List-cases, length, length-map,
}
use studycpp.Prelude.Int.{pos, ltb_ℤ}
use studycpp.Std.Key.{Key, eq_of_beq}
use studycpp.Std.Key.{◌==◌ as key_eq}
use studycpp.Std.Dict.{find, find-assign, find-erase, assign}
use studycpp.Std.Dict
use studycpp.Lru.{
  Node, LruCache, done, key_not_found, find_node, back, pop_back, push_front, at_node, refresh,
  make_room, put, get,
}
use studycpp.Lru.Nodes.{
  address_of, without, erase_node-without, without-none, address_of-without,
  address_of-without-none, AreDistinct-without, AreBelow-without, length-without, pop_back-without,
}
use studycpp.Lru.Entries.{
  entries, but_last, entries-pop_back, back-some, Answer, stored, value, Call, put_call, get_call,
  remove, list_step, step, IsLinked, IsValid, lookup-address_of, lookup-find_node, entries-without,
  push_front-IsLinked,
}

module _ {K V : Type 0} ⦃key : Key K⦄ where
  -- The step of the cache is that of its list.
  abbrev pub Matches : ℕ → List (K × V) → Call K V → Option (Answer V × LruCache K V) → Type 0
  Matches cap xs call none = ⊥
  Matches cap xs call (some (a, c)) = IsValid cap c × ((a, entries c.nodes) ≡ list_step cap xs call)

  -- The cache without the node of a key, and then with the key in front.
  moved-IsLinked :
      (c : LruCache K V) (k : K) (v : V)
      → IsLinked c
      → IsLinked (push_front (record c { nodes = without k c.nodes }) k v)
  moved-IsLinked c k v l =
      push_front-IsLinked (record c { nodes = without k c.nodes }) k v
        (λ j e. l.linked j ∙ sym (address_of-without k j c.nodes e))
        (without-none k c.nodes l.distinct) (AreDistinct-without k c.nodes l.distinct)
        (AreBelow-without k c.fresh c.nodes l.below)

  refresh-IsValid :
      (cap : ℕ) (c : LruCache K V) (a : ℕ) (k : K) (v : V)
      → IsValid cap c
      → find k c.table ≡ some a
      → IsValid cap (refresh c a k v)
        × (entries (refresh c a k v).nodes ≡ (k, v) ∷ remove k (entries c.nodes))
  unfolding refresh
  refresh-IsValid cap c a k v i e =
      let e' = sym (i.links.linked k) ∙ e in
      let (n, r) = erase_node-without k a c.nodes i.links.distinct e' in
      let moved =
        subst (λ ns. IsLinked (push_front (record c { nodes = ns }) k v)) (sym r.1.1)
          (moved-IsLinked c k v i.links) in
      (
        record {
          links = moved;
          sized = omega (arith, length-without k a c.nodes e', ap length r.1.1, i.sized);
          bounded = i.bounded;
          capacity_eq = i.capacity_eq;
        },
        ap (λ ns. (k, v) ∷ entries ns) r.1.1 ∙ ap (λ xs. (k, v) ∷ xs) (entries-without k c.nodes),
      )

  resized-IsLinked :
      (c : LruCache K V) (size : ℕ) → IsLinked c → IsLinked (record c { size = size })
  resized-IsLinked c size l = record { linked = l.linked; distinct = l.distinct; below = l.below }

  erased-IsLinked :
      (c : LruCache K V) (k : K)
      → IsLinked c
      → IsLinked (record c { nodes = without k c.nodes; table = Dict.erase k c.table })
  erased-IsLinked c k l = record {
    linked = λ j. find-erase k j c.table ∙ elim (Bool-cases (key_eq k j)) [
      | inl q ↦ rw q (
          sym (
            subst (λ i. address_of i (without k c.nodes) ≡ none) (eq_of_beq k j q)
              (without-none k c.nodes l.distinct)))
      | inr q ↦ rw q (l.linked j ∙ sym (address_of-without k j c.nodes q))
    ];
    distinct = AreDistinct-without k c.nodes l.distinct;
    below = AreBelow-without k c.fresh c.nodes l.below;
  }

  -- A cache with room for a new key.
  record HasRoom (cap : ℕ) (k : K) (c c' : LruCache K V) : Type 0 where
    made : make_room c ≡ done c'
    links : IsLinked c'
    sized : c'.size ≡ length c'.nodes
    room : c'.size < cap
    capacity_eq : c'.capacity ≡ pos cap
    absent : address_of k c'.nodes ≡ none
    kept : entries c'.nodes ≡ (
        if ltb (length (entries c.nodes)) cap then entries c.nodes else but_last (entries c.nodes))

  room_test :
      (cap : ℕ) (c : LruCache K V)
      → c.capacity ≡ pos cap
      → ltb_ℤ (pos c.size) c.capacity ≡ ltb c.size cap
  room_test cap c e = ap (ltb_ℤ (pos c.size)) e ∙ ground arith

  make_room-done : (c : LruCache K V) → ltb_ℤ (pos c.size) c.capacity ≡ true → make_room c ≡ done c
  unfolding make_room
  make_room-done c e = rw e refl

  make_room-evict :
      (c : LruCache K V) (n : Node K V)
      → ltb_ℤ (pos c.size) c.capacity ≡ false
      → back c.nodes ≡ some n
      → pop_back c.nodes ≡ without n.k c.nodes
      → make_room c
        ≡ done (record c {
          nodes = without n.k c.nodes;
          table = Dict.erase n.k c.table;
          size = c.size - 1;
        })
  unfolding make_room
  make_room-evict c n e f g = rw (e, f, g) refl

  make_room-room :
      (cap : ℕ) (k : K) (c : LruCache K V)
      → IsValid cap c
      → address_of k c.nodes ≡ none
      → ltb c.size cap ≡ true
      → HasRoom cap k c c
  make_room-room cap k c i e t =
      let l : length (entries c.nodes) ≡ c.size =
        length-map c.nodes (λ n. (n.k, n.v)) ∙ sym i.sized in
      record {
        made = make_room-done c (room_test cap c i.capacity_eq ∙ t);
        links = i.links;
        sized = i.sized;
        room = ltb→lt c.size cap t;
        capacity_eq = i.capacity_eq;
        absent = e;
        kept = rw (l, t) refl;
      }

  make_room-full :
      (cap : ℕ) (k : K) (c : LruCache K V)
      → 0 < cap
      → IsValid cap c
      → address_of k c.nodes ≡ none
      → ltb c.size cap ≡ false
      → (c' : LruCache K V) × HasRoom cap k c c'
  make_room-full cap k c p i e t =
      let l : length (entries c.nodes) ≡ c.size =
        length-map c.nodes (λ n. (n.k, n.v)) ∙ sym i.sized in
      elim (List-cases c.nodes) [
        | inl z ↦ absurd (ground (arith, t, ap length z, i.sized))
        | inr (m, ms, z) ↦
            let (n, b) = back-some m ms in
            let b' = ap back z ∙ b in
            let (a, q) = pop_back-without n c.nodes i.links.distinct b' in
            (
              record c {
                nodes = without n.k c.nodes;
                table = Dict.erase n.k c.table;
                size = c.size - 1;
              },
              record {
                made = make_room-evict c n (room_test cap c i.capacity_eq ∙ t) b' q;
                links =
                    resized-IsLinked
                      (record c { nodes = without n.k c.nodes; table = Dict.erase n.k c.table })
                      (c.size - 1) (erased-IsLinked c n.k i.links);
                sized = omega (arith, length-without n.k n.address c.nodes a, i.sized);
                room = omega (arith, p, i.bounded);
                capacity_eq = i.capacity_eq;
                absent = address_of-without-none n.k k c.nodes e;
                kept = rw (l, t) (ap entries (sym q) ∙ entries-pop_back c.nodes);
              },
            )
      ]

  make_room_lem :
      (cap : ℕ) (k : K) (c : LruCache K V)
      → 0 < cap
      → IsValid cap c
      → address_of k c.nodes ≡ none
      → (c' : LruCache K V) × HasRoom cap k c c'
  make_room_lem cap k c p i e = elim (Bool-cases (ltb c.size cap)) [
    | inl t ↦ (c, make_room-room cap k c i e t)
    | inr t ↦ make_room-full cap k c p i e t
  ]

  put-HasRoom :
      (cap : ℕ) (k : K) (v : V) (c c' : LruCache K V)
      → find k c.table ≡ none
      → HasRoom cap k c c'
      → (d : LruCache K V) × ((put c k v ≡ done d)
          × (IsValid cap d × (entries d.nodes ≡ (k, v) ∷ entries c'.nodes)))
  unfolding put push_front
  put-HasRoom cap k v c c' e h = (
    (let d = push_front c' k v in record d { size = d.size + 1 }),
    (
      rw (e, put, h.made) refl,
      (
        record {
          links = resized-IsLinked (push_front c' k v) (c'.size + 1) (
              push_front-IsLinked c' k v (λ j q. h.links.linked j) h.absent h.links.distinct
                h.links.below);
          sized = omega (arith, h.sized);
          bounded = omega (arith, h.room);
          capacity_eq = h.capacity_eq;
        },
        refl,
      ),
    ),
  )

  put-found :
      (c : LruCache K V) (a : ℕ) (n : Node K V) (k : K) (v : V)
      → find k c.table ≡ some a
      → find_node a c.nodes ≡ some n
      → put c k v ≡ done (refresh c a k v)
  unfolding put
  put-found c a n k v e f = rw (e, put, f, at_node) refl

  get-found :
      (c : LruCache K V) (a : ℕ) (n : Node K V) (k : K)
      → find k c.table ≡ some a
      → find_node a c.nodes ≡ some n
      → get c k ≡ done (n.v, refresh c a k n.v)
  unfolding get
  get-found c a n k e f = rw (e, get, f, at_node) refl

  get-missing : (c : LruCache K V) (k : K) → find k c.table ≡ none → get c k ≡ key_not_found
  unfolding get
  get-missing c k e = rw (e, get) refl

  put-Matches :
      (cap : ℕ) (c : LruCache K V) (k : K) (v : V)
      → 0 < cap
      → IsValid cap c
      → Matches cap (entries c.nodes) (put_call k v) (step c (put_call k v))
  unfolding step list_step
  put-Matches cap c k v p i = elim (Option-cases (find k c.table)) [
    | inl e ↦
        let e' = sym (i.links.linked k) ∙ e in
        let (c', h) = make_room_lem cap k c p i e' in
        let (d, q) = put-HasRoom cap k v c c' e h in
        rw (q.0, lookup-address_of k c.nodes e', list_step)
          (q.1.0, ap (λ xs. (stored, xs)) (q.1.1 ∙ ap (λ xs. (k, v) ∷ xs) h.kept))
    | inr (a, e) ↦
        let e' = sym (i.links.linked k) ∙ e in
        let (n, r) = erase_node-without k a c.nodes i.links.distinct e' in
        let q = refresh-IsValid cap c a k v i e in
        rw
          (
            put-found c a n k v e r.0,
            lookup-find_node k a n c.nodes i.links.distinct e' r.0,
            list_step,
          )
          (q.0, ap (λ xs. (stored, xs)) q.1)
  ]

  get-Matches :
      (cap : ℕ) (c : LruCache K V) (k : K)
      → IsValid cap c
      → Matches cap (entries c.nodes) (get_call k) (step c (get_call k))
  unfolding step list_step
  get-Matches cap c k i = elim (Option-cases (find k c.table)) [
    | inl e ↦
        rw (get-missing c k e, lookup-address_of k c.nodes (sym (i.links.linked k) ∙ e), list_step)
          (i, refl)
    | inr (a, e) ↦
        let e' = sym (i.links.linked k) ∙ e in
        let (n, r) = erase_node-without k a c.nodes i.links.distinct e' in
        let q = refresh-IsValid cap c a k n.v i e in
        rw
          (
            get-found c a n k e r.0,
            lookup-find_node k a n c.nodes i.links.distinct e' r.0,
            list_step,
          )
          (q.0, ap (λ xs. (value n.v, xs)) q.1)
  ]

  pub step-Matches :
      (cap : ℕ) (c : LruCache K V) (call : Call K V)
      → 0 < cap
      → IsValid cap c
      → Matches cap (entries c.nodes) call (step c call)
  step-Matches cap c (put_call k v) p i = put-Matches cap c k v p i
  step-Matches cap c (get_call k) p i = get-Matches cap c k i
