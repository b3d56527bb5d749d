-- ===== src/Std/OrderedSet.antt =====
-- `std::set<T, Compare>` as the list of its elements in order. The comparator reads a part of an
-- element, its key, and two elements are equivalent if neither key is before the other.
use studycpp.Prelude.{◌≡◌, refl, Bool, true, List, [], ◌∷◌, arith, if◌then◌else◌}

-- A predicate holds of every element.
abbrev pub All {ℓ κ} : {A : Type ℓ} → (A → Type κ) → List A → Type κ
All P [] = Unit
All P (x ∷ xs) = P x × All P xs

pub All-imp {ℓ κ} :
    {A : Type ℓ} (P Q : A → Type κ) (f : (a : A) → P a → Q a) (xs : List A) → All P xs → All Q xs
All-imp P Q f [] h = tt
All-imp P Q f (x ∷ xs) h = (f x h.0, All-imp P Q f xs h.1)

module _ {A K : Type 0} (key : A → K) (before : K → K → Bool) where
  -- `insert(x)`: nothing happens if an equivalent element is there.
  unfoldable pub insert : A → List A → List A
  insert x [] = x ∷ []
  insert x (y ∷ ys) =
      if before (key x) (key y)
      then x ∷ y ∷ ys
      else if before (key y) (key x)
      then y ∷ insert x ys
      else y ∷ ys

  -- `erase(x)` for an `x` with the key `k`: the equivalent element goes
  unfoldable pub erase : K → List A → List A
  erase k [] = []
  erase k (y ∷ ys) =
      if before k (key y) then y ∷ ys else if before (key y) k then y ∷ erase k ys else ys

  -- every element of the list comes after the key `k`
  abbrev pub AllAfter : K → List A → Type 0
  AllAfter k [] = Unit
  AllAfter k (y ∷ ys) = (before k (key y) ≡ true) × AllAfter k ys

  -- strictly increasing
  abbrev pub IsSorted : List A → Type 0
  IsSorted [] = Unit
  IsSorted (x ∷ xs) = AllAfter (key x) xs × IsSorted xs

  pub All-insert : (P : A → Type 0) (x : A) (xs : List A) → P x → All P xs → All P (insert x xs)
  unfolding insert
  All-insert P x [] px h = (px, tt)
  All-insert P x (y ∷ ys) px h = ground (arith, All-insert P x ys px h.1)

  pub All-erase : (P : A → Type 0) (k : K) (xs : List A) → All P xs → All P (erase k xs)
  unfolding erase
  All-erase P k [] h = tt
  All-erase P k (y ∷ ys) h = ground (arith, All-erase P k ys h.1)

  pub AllAfter-insert :
      (k : K) (x : A) (xs : List A)
      → before k (key x) ≡ true
      → AllAfter k xs
      → AllAfter k (insert x xs)
  unfolding insert
  AllAfter-insert k x [] b h = (b, tt)
  AllAfter-insert k x (y ∷ ys) b h = ground (arith, AllAfter-insert k x ys b h.1)

  pub AllAfter-erase : (k j : K) (xs : List A) → AllAfter k xs → AllAfter k (erase j xs)
  unfolding erase
  AllAfter-erase k j [] h = tt
  AllAfter-erase k j (y ∷ ys) h = ground (arith, AllAfter-erase k j ys h.1)

  pub erase-IsSorted : (k : K) (xs : List A) → IsSorted xs → IsSorted (erase k xs)
  unfolding erase
  erase-IsSorted k [] h = tt
  erase-IsSorted k (y ∷ ys) h =
      ground (arith, erase-IsSorted k ys h.1, AllAfter-erase (key y) k ys h.0)

  -- An element that comes before all others becomes the first.
  pub insert_first : (x : A) (xs : List A) → AllAfter (key x) xs → insert x xs ≡ x ∷ xs
  unfolding insert
  insert_first x [] h = refl
  insert_first x (y ∷ ys) h = ground arith

  module _ (trans : (x y z : K) → before x y ≡ true → before y z ≡ true → before x z ≡ true) where
    pub AllAfter-trans : (j k : K) (ys : List A) → before j k ≡ true → AllAfter k ys → AllAfter j ys
    AllAfter-trans j k [] b h = tt
    AllAfter-trans j k (z ∷ zs) b h = (trans j k (key z) b h.0, AllAfter-trans j k zs b h.1)

    pub insert-IsSorted : (x : A) (xs : List A) → IsSorted xs → IsSorted (insert x xs)
    unfolding insert
    insert-IsSorted x [] h = (tt, tt)
    insert-IsSorted x (y ∷ ys) h = ground (
      arith,
      AllAfter-trans (key x) (key y) ys,
      AllAfter-insert (key y) x ys,
      insert-IsSorted x ys h.1,
    )
