-- ===== src/Common/Options.antt =====
-- `Optional<T>` of types.hpp is the library's `Option`; `value()` of an absent one is not reached
-- where it is read under the guards below.
use mathlib.Core.Path.{◌≡◌, refl}
use mathlib.Core.Logic.{◌⊎◌, inl, inr}
use mathlib.Core.Bool.{Bool, true, false}
use mathlib.Core.Option.{Option, none, some, some-injective}

pub Option-cases {ℓ} : {A : Type ℓ} (o : Option A) → (o ≡ none) ⊎ ((a : A) × (o ≡ some a))
Option-cases none = inl refl
Option-cases (some a) = inr (a, refl)

-- `o.hasValue()`
abbrev pub has_value {ℓ} : {A : Type ℓ} → Option A → Bool
has_value none = false
has_value (some a) = true

-- `!o.hasValue() || test(o.value())`
abbrev pub absent_or {ℓ} : {A : Type ℓ} → Option A → (A → Bool) → Bool
absent_or none test = true
absent_or (some a) test = test a

-- `o.hasValue() && test(o.value())`
abbrev pub present_and {ℓ} : {A : Type ℓ} → Option A → (A → Bool) → Bool
present_and none test = false
present_and (some a) test = test a

pub some_inj {ℓ} : {A : Type ℓ} {x y : A} → ◌≡◌ {A = Option A} (some x) (some y) → x ≡ y
some_inj e = some-injective _ _ e

-- A property of the value, if there is one.
abbrev pub WhenSome {ℓ κ} : {A : Type ℓ} → Option A → (A → Type κ) → Type κ
WhenSome none P = Unit
WhenSome (some a) P = P a

-- A chain of steps that can have no result.
infixl 5 ◌>>=◌
abbrev pub ◌>>=◌ {ℓ κ} : {A : Type ℓ} {B : Type κ} → Option A → (A → Option B) → Option B
none >>= f = none
some a >>= f = f a
