-- ===== src/Prelude/Do.antt =====
-- `do` blocks of optional values: `none` ends the block.
use mathlib.Core.Path.{◌≡◌, ap}
use mathlib.Core.Option.{Option, none, some}

infixl 5 ◌>>=◌ ◌>>◌
abbrev pub ◌>>=◌ {ℓ κ} : {A : Type ℓ} {B : Type κ} → Option A → (A → Option B) → Option B
none >>= f = none
some a >>= f = f a

abbrev pub ◌>>◌ {ℓ κ} : {A : Type ℓ} {B : Type κ} → Option A → Option B → Option B
m >> k = m >>= λ _. k

pub >>=-some {ℓ κ} :
    {A : Type ℓ} {B : Type κ} {m : Option A} {a : A} (f : A → Option B)
    → m ≡ some a
    → (m >>= f) ≡ f a
>>=-some f e = ap (λ o. o >>= f) e

pub >>=-none {ℓ κ} :
    {A : Type ℓ} {B : Type κ} {o : Option A} (f : A → Option B) → o ≡ none → (o >>= f) ≡ none
>>=-none f e = ap (λ o'. o' >>= f) e
