-- ===== src/Lru/Entries.antt =====
-- What a cache holds, as a list of entries, and when its table and its nodes agree.
use studycpp.Prelude.{
  ℕ, ◌≤◌, ◌≡◌, refl, ap, subst, ◌∙◌, ◌≢◌, inl, inr, false, Option, none, some, List, [], ◌∷◌, map,
  arith, ltb, if◌then◌else◌, Bool-cases, length,
}
use studycpp.Prelude.Int.{pos}
use studycpp.Std.Key.{Key}
use studycpp.Std.Key.{◌==◌ as key_eq}
use studycpp.Std.Dict.{find, find-assign}
use studycpp.Lru.{
  Node, LruCache, Outcome, done, key_not_found, undefined, find_node, back, pop_back, push_front,
  put, get,
}
use studycpp.Lru.Nodes.{
  address_of, without, AreDistinct, AreBelow, erase_node-without, AreBelow-suc, find_node-fresh,
}

module _ {K V : Type 0} where
  abbrev pub entries : List (Node K V) → List (K × V)
  entries ns = map (λ n. (n.k, n.v)) ns

  unfoldable pub but_last : List (K × V) → List (K × V)
  but_last [] = []
  but_last (x ∷ []) = []
  but_last (x ∷ y ∷ xs) = x ∷ but_last (y ∷ xs)

  pub entries-pop_back : (ns : List (Node K V)) → entries (pop_back ns) ≡ but_last (entries ns)
  unfolding pop_back but_last
  entries-pop_back [] = refl
  entries-pop_back (n ∷ []) = refl
  entries-pop_back (n ∷ m ∷ ns) = ap (λ xs. (n.k, n.v) ∷ xs) (entries-pop_back (m ∷ ns))

  pub back-some : (n : Node K V) (ns : List (Node K V)) → (m : Node K V) × (back (n ∷ ns) ≡ some m)
  unfolding back
  back-some n [] = (n, refl)
  back-some n (m ∷ ns) = back-some m ns

-- What a call returns: `none` from `put`, a value from `get`, or that the key is not there.
pub data Answer (V : Type 0) : Type 0 where
  stored missing : Answer V
  value : V → Answer V

pub data Call (K V : Type 0) : Type 0 where
  put_call : K → V → Call K V
  get_call : K → Call K V

module _ {K V : Type 0} ⦃key : Key K⦄ where
  unfoldable pub lookup : K → List (K × V) → Option V
  lookup k [] = none
  lookup k ((j, v) ∷ xs) = if key_eq j k then some v else lookup k xs

  unfoldable pub remove : K → List (K × V) → List (K × V)
  remove k [] = []
  remove k ((j, v) ∷ xs) = let rest = remove k xs in if key_eq j k then xs else (j, v) ∷ rest

  -- The two calls on the list of entries of a cache of a capacity.
  unfoldable pub list_step : ℕ → List (K × V) → Call K V → Answer V × List (K × V)
  unfolding lookup remove but_last
  list_step cap xs (put_call k v) = elim (lookup k xs) [
    | some w ↦ (stored, (k, v) ∷ remove k xs)
    | none ↦ (stored, (k, v) ∷ (if ltb (length xs) cap then xs else but_last xs))
  ]
  list_step cap xs (get_call k) = elim (lookup k xs) [
    | some v ↦ (value v, (k, v) ∷ remove k xs)
    | none ↦ (missing, xs)
  ]

  -- A call of the cache; `none` if it is undefined.
  abbrev pub answer_put : Outcome (LruCache K V) → Option (Answer V × LruCache K V)
  answer_put (done c) = some (stored, c)
  answer_put key_not_found = none
  answer_put undefined = none

  abbrev pub answer_get :
      LruCache K V → Outcome (V × LruCache K V) → Option (Answer V × LruCache K V)
  answer_get c (done (v, c')) = some (value v, c')
  answer_get c key_not_found = some (missing, c)
  answer_get c undefined = none

  unfoldable pub step : LruCache K V → Call K V → Option (Answer V × LruCache K V)
  step c (put_call k v) = answer_put (put c k v)
  step c (get_call k) = answer_get c (get c k)

  -- The table has the addresses of the nodes, which are distinct and were given out.
  pub record IsLinked (c : LruCache K V) : Type 0 where
    pub linked : (k : K) → find k c.table ≡ address_of k c.nodes
    pub distinct : AreDistinct c.nodes
    pub below : AreBelow c.fresh c.nodes

  pub record IsValid (cap : ℕ) (c : LruCache K V) : Type 0 where
    pub links : IsLinked c
    pub sized : c.size ≡ length c.nodes
    pub bounded : c.size ≤ cap
    pub capacity_eq : c.capacity ≡ pos cap

  pub lookup-address_of :
      (k : K) (ns : List (Node K V)) → address_of k ns ≡ none → lookup k (entries ns) ≡ none
  unfolding lookup address_of
  lookup-address_of k [] e = refl
  lookup-address_of k (n ∷ ns) e = ground (arith, lookup-address_of k ns)

  pub lookup-find_node :
      (k : K) (a : ℕ) (n : Node K V) (ns : List (Node K V))
      → AreDistinct ns
      → address_of k ns ≡ some a
      → find_node a ns ≡ some n
      → lookup k (entries ns) ≡ some n.v
  unfolding lookup address_of find_node
  lookup-find_node k a n [] d e f = cc
  lookup-find_node k a n (m ∷ ns) d e f = elim (Bool-cases (key_eq m.k k)) [
    | inl q ↦ ground (arith, q, e, f)
    | inr q ↦
        let (l, r) = erase_node-without k a ns d.1.1 (ground (arith, e, q)) in
        let t : m.address ≢ a = λ t. cc (subst (λ b. find_node b ns ≡ none) t d.0, r.0) in
        rw q (lookup-find_node k a n ns d.1.1 (ground (arith, e, q)) (ground (arith, f, t)))
  ]

  pub entries-without :
      (k : K) (ns : List (Node K V)) → entries (without k ns) ≡ remove k (entries ns)
  unfolding without remove
  entries-without k [] = refl
  entries-without k (n ∷ ns) = ground (arith, entries-without k ns)

  pub push_front-IsLinked :
      (c : LruCache K V) (k : K) (v : V)
      → ((j : K) → key_eq k j ≡ false → find j c.table ≡ address_of j c.nodes)
      → address_of k c.nodes ≡ none
      → AreDistinct c.nodes
      → AreBelow c.fresh c.nodes
      → IsLinked (push_front c k v)
  unfolding push_front address_of
  push_front-IsLinked c k v h e d b = record {
    linked = λ j. elim (Bool-cases (key_eq k j)) [
      | inl q ↦ find-assign k j c.fresh c.table ∙ rw q refl
      | inr q ↦ find-assign k j c.fresh c.table ∙ rw q (h j q)
    ];
    distinct = (find_node-fresh c.fresh c.nodes b, (e, d));
    below = (omega arith, AreBelow-suc c.fresh c.nodes b);
  }
