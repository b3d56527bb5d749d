-- ===== src/Lru.antt =====
-- `LRUCache` of lru.h. A node of the list has an address, which stands for an iterator to it; no
-- address is given twice.
pub mod Nodes
pub mod Entries
pub mod Refines
pub mod Run
mod Tests
use studycpp.Prelude.{[], ℕ, ◌+◌, ◌-◌, Option, none, some, List, ◌∷◌, ◌==◌, if◌then◌else◌}
use studycpp.Prelude.Int.{ℤ, pos, ltb_ℤ}
use studycpp.Std.Key.{Key}
use studycpp.Std.Key.{◌==◌ as key_eq}
use studycpp.Std.Dict.{Dict, find, assign, contains}
use studycpp.Std.Dict

pub record Node (K V : Type 0) : Type 0 where
  pub address : ℕ
  pub k : K
  pub v : V

pub record LruCache (K V : Type 0) : Type 0 where
  pub size : ℕ
  pub capacity : ℤ
  pub nodes : List (Node K V)
  pub table : Dict K ℕ
  -- the address of the next node
  pub fresh : ℕ

-- `undefined` is the end of a call that has no defined behaviour.
pub data Outcome (A : Type 0) : Type 0 where
  done : A → Outcome A
  key_not_found : Outcome A
  undefined : Outcome A

abbrev pub new_cache : {K V : Type 0} → ℤ → LruCache K V
new_cache max_capacity = record {
  size = 0;
  capacity = max_capacity;
  nodes = [];
  table = [];
  fresh = 0;
}

module _ {K V : Type 0} where
  -- the node at an address
  unfoldable pub find_node : ℕ → List (Node K V) → Option (Node K V)
  find_node a [] = none
  find_node a (n ∷ ns) = let rest = find_node a ns in if n.address == a then some n else rest

  -- `nodes.erase(it)`
  unfoldable pub erase_node : ℕ → List (Node K V) → List (Node K V)
  erase_node a [] = []
  erase_node a (n ∷ ns) = let rest = erase_node a ns in if n.address == a then ns else n ∷ rest

  -- `nodes.back()`
  unfoldable pub back : List (Node K V) → Option (Node K V)
  back [] = none
  back (n ∷ []) = some n
  back (n ∷ m ∷ ns) = back (m ∷ ns)

  -- `nodes.pop_back()`
  unfoldable pub pop_back : List (Node K V) → List (Node K V)
  pop_back [] = []
  pop_back (n ∷ []) = []
  pop_back (n ∷ m ∷ ns) = n ∷ pop_back (m ∷ ns)

module _ {K V : Type 0} ⦃key : Key K⦄ where
  -- `nodes.push_front(node); table[key] = nodes.begin();`
  unfoldable pub push_front : LruCache K V → K → V → LruCache K V
  push_front c k v = record c {
    nodes = record { address = c.fresh; k = k; v = v } ∷ c.nodes;
    table = assign k c.fresh c.table;
    fresh = c.fresh + 1;
  }

  -- the entry of a key that is in the table, with a new value, moved to the front
  unfoldable pub refresh : LruCache K V → ℕ → K → V → LruCache K V
  unfolding erase_node push_front
  refresh c a k v = push_front (record c { nodes = erase_node a c.nodes }) k v

  -- the room for a new node: the last node goes if the cache is full
  unfoldable pub make_room : LruCache K V → Outcome (LruCache K V)
  unfolding back pop_back
  make_room c = if ltb_ℤ (pos c.size) c.capacity then done c else elim (back c.nodes) [
    | none ↦ undefined
    | some n ↦
        done
          (record c { nodes = pop_back c.nodes; table = Dict.erase n.k c.table; size = c.size - 1 })
  ]

  abbrev pub with_room : K → V → Outcome (LruCache K V) → Outcome (LruCache K V)
  with_room k v (done c) = let c' = push_front c k v in done (record c' { size = c'.size + 1 })
  with_room k v key_not_found = key_not_found
  with_room k v undefined = undefined

  -- A change of the list at an iterator of the table, which must be one of its nodes.
  abbrev pub at_node : {A : Type 0} → LruCache K V → ℕ → (Node K V → Outcome A) → Outcome A
  at_node c a f = elim (find_node a c.nodes) [ none ↦ undefined | some n ↦ f n ]

  unfoldable pub put : LruCache K V → K → V → Outcome (LruCache K V)
  unfolding find_node refresh make_room
  put c k v = elim (find k c.table) [
    | some a ↦ at_node c a (λ n. done (refresh c a k v))
    | none ↦ with_room k v (make_room c)
  ]

  -- The value and the cache after the call; a key that is not there throws, and changes nothing.
  unfoldable pub get : LruCache K V → K → Outcome (V × LruCache K V)
  unfolding find_node refresh
  get c k = elim (find k c.table) [
    | some a ↦ at_node c a (λ n. done (n.v, refresh c a k n.v))
    | none ↦ key_not_found
  ]
