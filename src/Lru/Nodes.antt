-- ===== src/Lru/Nodes.antt =====
-- The nodes of a cache by key and by address.
use studycpp.Prelude.{
  ℕ, ◌+◌, ◌<◌, ◌≡◌, refl, sym, subst, ◌≢◌, inl, inr, false, Option, none, some, List, [], ◌∷◌,
  arith, if◌then◌else◌, Bool-cases, length,
}
use studycpp.Std.Key.{Key, eq_of_beq, beq_of_eq}
use studycpp.Std.Key.{◌==◌ as key_eq}
use studycpp.Lru.{Node, find_node, erase_node, back, pop_back}

module _ {K V : Type 0} ⦃key : Key K⦄ where
  -- the address of the first node with a key
  unfoldable pub address_of : K → List (Node K V) → Option ℕ
  address_of k [] = none
  address_of k (n ∷ ns) = if key_eq n.k k then some n.address else address_of k ns

  -- the nodes without the first one with a key
  unfoldable pub without : K → List (Node K V) → List (Node K V)
  without k [] = []
  without k (n ∷ ns) = let rest = without k ns in if key_eq n.k k then ns else n ∷ rest

  abbrev pub AreDistinct : List (Node K V) → Type 0
  AreDistinct [] = Unit
  AreDistinct (n ∷ ns) =
      (find_node n.address ns ≡ none) × ((address_of n.k ns ≡ none) × AreDistinct ns)

  abbrev pub AreBelow : ℕ → List (Node K V) → Type 0
  AreBelow a [] = Unit
  AreBelow a (n ∷ ns) = (n.address < a) × AreBelow a ns

  -- The node that a key's address leads to has that key, and to erase it is to erase by key.
  pub erase_node-without :
      (k : K) (a : ℕ) (ns : List (Node K V))
      → AreDistinct ns
      → address_of k ns ≡ some a
      → (n : Node K V) × ((find_node a ns ≡ some n)
          × ((n.k ≡ k) × (erase_node a ns ≡ without k ns)))
  unfolding address_of without find_node erase_node
  erase_node-without k a [] d e = cc
  erase_node-without k a (n ∷ ns) d e = elim (Bool-cases (key_eq n.k k)) [
    | inl q ↦
        let s : n.address ≡ a = ground (arith, e, q) in
        (n, (ground (arith, s), (eq_of_beq n.k k q, ground (arith, s, q))))
    | inr q ↦
        let (m, r) = erase_node-without k a ns d.1.1 (ground (arith, e, q)) in
        let s : n.address ≢ a = λ t. cc (subst (λ b. find_node b ns ≡ none) t d.0, r.0) in
        (m, (ground (arith, s, r.0), (r.1.0, ground (arith, s, q, r.1.1))))
  ]

  pub without-none :
      (k : K) (ns : List (Node K V)) → AreDistinct ns → address_of k (without k ns) ≡ none
  unfolding address_of without
  without-none k [] d = refl
  without-none k (n ∷ ns) d = elim (Bool-cases (key_eq n.k k)) [
    | inl q ↦ rw q (subst (λ j. address_of j ns ≡ none) (eq_of_beq n.k k q) d.1.0)
    | inr q ↦ rw (q, q) (without-none k ns d.1.1)
  ]

  pub address_of-without :
      (k j : K) (ns : List (Node K V))
      → key_eq k j ≡ false
      → address_of j (without k ns) ≡ address_of j ns
  unfolding address_of without
  address_of-without k j [] e = refl
  address_of-without k j (n ∷ ns) e = elim (Bool-cases (key_eq n.k k)) [
    | inl q ↦ let s = subst (λ i. key_eq i j ≡ false) (sym (eq_of_beq n.k k q)) e in rw (q, s) refl
    | inr q ↦ rw (q, address_of-without k j ns e) refl
  ]

  pub address_of-without-none :
      (k j : K) (ns : List (Node K V)) → address_of j ns ≡ none → address_of j (without k ns) ≡ none
  unfolding address_of without
  address_of-without-none k j [] e = refl
  address_of-without-none k j (n ∷ ns) e = ground (arith, address_of-without-none k j ns)

  find_node-without :
      (k : K) (a : ℕ) (ns : List (Node K V))
      → find_node a ns ≡ none
      → find_node a (without k ns) ≡ none
  unfolding find_node without
  find_node-without k a [] e = refl
  find_node-without k a (n ∷ ns) e = ground (arith, find_node-without k a ns)

  pub AreDistinct-without :
      (k : K) (ns : List (Node K V)) → AreDistinct ns → AreDistinct (without k ns)
  unfolding without
  AreDistinct-without k [] d = tt
  AreDistinct-without k (n ∷ ns) d = elim (Bool-cases (key_eq n.k k)) [
    | inl q ↦ rw q d.1.1
    | inr q ↦ rw q (
      find_node-without k n.address ns d.0,
      (address_of-without-none k n.k ns d.1.0, AreDistinct-without k ns d.1.1),
    )
  ]

  pub AreBelow-without :
      (k : K) (a : ℕ) (ns : List (Node K V)) → AreBelow a ns → AreBelow a (without k ns)
  unfolding without
  AreBelow-without k a [] h = tt
  AreBelow-without k a (n ∷ ns) h = elim (Bool-cases (key_eq n.k k)) [
    | inl q ↦ rw q h.1
    | inr q ↦ rw q (h.0, AreBelow-without k a ns h.1)
  ]

  pub AreBelow-suc : (a : ℕ) (ns : List (Node K V)) → AreBelow a ns → AreBelow (a + 1) ns
  AreBelow-suc a [] h = tt
  AreBelow-suc a (n ∷ ns) h = (omega (arith, h.0), AreBelow-suc a ns h.1)

  pub find_node-fresh : (a : ℕ) (ns : List (Node K V)) → AreBelow a ns → find_node a ns ≡ none
  unfolding find_node
  find_node-fresh a [] h = refl
  find_node-fresh a (n ∷ ns) h = ground (arith, find_node-fresh a ns h.1)

  pub length-without :
      (k : K) (a : ℕ) (ns : List (Node K V))
      → address_of k ns ≡ some a
      → length (without k ns) + 1 ≡ length ns
  unfolding address_of without
  length-without k a [] e = cc
  length-without k a (n ∷ ns) e = ground (arith, length-without k a ns)

  -- The last node is that of its key.
  pub pop_back-without :
      (n : Node K V) (ns : List (Node K V))
      → AreDistinct ns
      → back ns ≡ some n
      → (address_of n.k ns ≡ some n.address) × (pop_back ns ≡ without n.k ns)
  unfolding address_of without back pop_back
  pop_back-without n [] d e = cc
  pop_back-without n (m ∷ []) d e =
      let q = beq_of_eq m.k n.k (ground (arith, e)) in (ground (arith, q, e), rw q refl)
  pop_back-without n (m ∷ l ∷ ns) d e =
      let (p, q) = pop_back-without n (l ∷ ns) d.1.1 e in
      elim (Bool-cases (key_eq m.k n.k)) [
        | inl s ↦
            absurd (cc (subst (λ j. address_of j (l ∷ ns) ≡ none) (eq_of_beq m.k n.k s) d.1.0, p))
        | inr s ↦ (rw s p, rw (s, q) refl)
      ]
