-- ===== src/Pipeline/Flow.antt =====
-- Reasoning about the parts of `PacketPipeline::process`: what a part guarantees however it ends.
use upfpolicyengine.Common.{◌≡◌, refl, Bool, true, false, Option, none, some, if◌then◌else◌}
use upfpolicyengine.Pipeline.State.{Pipeline, Flow, go, exit, fault, ◌>>=◌, dereference}
use upfpolicyengine.Decision.{PacketDecision}

-- The value of a part that goes on has `P`, what a part returns has `E`, and no part faults.
abbrev pub Ensures {ℓ} :
    {A : Type ℓ} → (A → Type 0) → (Pipeline → PacketDecision → Type 0) → Flow A → Type 0
Ensures P E (go a) = P a
Ensures P E (exit p d) = E p d
Ensures P E fault = ⊥

pub >>=-Ensures {ℓ κ} :
    {A : Type ℓ} {B : Type κ} (P : A → Type 0) (Q : B → Type 0)
    (E : Pipeline → PacketDecision → Type 0) (m : Flow A) (f : A → Flow B)
    → Ensures P E m
    → ((a : A) → P a → Ensures Q E (f a))
    → Ensures Q E (m >>= f)
>>=-Ensures P Q E (go a) f h k = k a h
>>=-Ensures P Q E (exit p d) f h k = h
>>=-Ensures P Q E fault f h k = absurd h

pub if-Ensures {ℓ} :
    {A : Type ℓ} (P : A → Type 0) (E : Pipeline → PacketDecision → Type 0) (b : Bool)
    (m m' : Flow A)
    → (b ≡ true → Ensures P E m)
    → (b ≡ false → Ensures P E m')
    → Ensures P E (if b then m else m')
if-Ensures P E true m m' h h' = h refl
if-Ensures P E false m m' h h' = h' refl

-- What a part guarantees when it does not fault: its value has `P`, or what it returns has `E`.
module _ (E : Pipeline → PacketDecision → Type 0) where
  abbrev pub Keeps {ℓ} : {A : Type ℓ} → (A → Type 0) → Flow A → Type 0
  Keeps P (go a) = P a
  Keeps P (exit p d) = E p d
  Keeps P fault = Unit

  pub >>=-Keeps {ℓ κ} :
      {A : Type ℓ} {B : Type κ} (P : A → Type 0) (Q : B → Type 0) (m : Flow A) (f : A → Flow B)
      → Keeps P m
      → ((a : A) → P a → Keeps Q (f a))
      → Keeps Q (m >>= f)
  >>=-Keeps P Q (go a) f h k = k a h
  >>=-Keeps P Q (exit p d) f h k = h
  >>=-Keeps P Q fault f h k = tt

  pub if-Keeps {ℓ} :
      {A : Type ℓ} (P : A → Type 0) (b : Bool) (m m' : Flow A)
      → (b ≡ true → Keeps P m)
      → (b ≡ false → Keeps P m')
      → Keeps P (if b then m else m')
  if-Keeps P true m m' h h' = h refl
  if-Keeps P false m m' h h' = h' refl

  pub option-Keeps {ℓ κ} :
      {A : Type ℓ} {B : Type κ} (P : B → Type 0) (o : Option A) (m : Flow B) (f : A → Flow B)
      → Keeps P m
      → ((a : A) → o ≡ some a → Keeps P (f a))
      → Keeps P (elim o [ none ↦ m | some a ↦ f a ])
  option-Keeps P none m f h k = h
  option-Keeps P (some a) m f h k = k a refl

  pub dereference-Keeps {ℓ} : {A : Type ℓ} (o : Option A) → Keeps (λ a. Unit {0}) (dereference o)
  dereference-Keeps none = tt
  dereference-Keeps (some a) = tt
