-- ===== src/Types/Arithmetic.antt =====
-- The checked arithmetic of types.hpp: it fails exactly where the sum or product leaves 64 bits,
-- and is exact otherwise.
use native.Mathlib.Nat.{le-div_iff_mul-le}
use upfpolicyengine.Common.{ℕ, ◌+◌, ◌*◌, ◌≤◌, ◌<◌, ◌≡◌, ◌⊎◌, Option, none, some, arith, zero, suc}
use upfpolicyengine.Types.{
  u64_mod, u64_max, add_u64, checked_add, checked_multiply, saturating_increment,
}

pub add_u64_exact : (a b : ℕ) → a + b < u64_mod → add_u64 a b ≡ a + b
unfolding add_u64
add_u64_exact a b h = omega arith

-- What a checked operation returns, for the exact result `r`.
abbrev pub Checked : ℕ → Option ℕ → Type 0
Checked r o = ((r < u64_mod) × (o ≡ some r)) ⊎ ((u64_mod ≤ r) × (o ≡ none))

pub checked_add-Checked : (a b : ℕ) → a < u64_mod → Checked (a + b) (checked_add a b)
unfolding checked_add
checked_add-Checked a b h = ground arith

pub saturating_increment_bounds :
    (n : ℕ) → n < u64_mod → (n ≤ saturating_increment n) × (saturating_increment n < u64_mod)
unfolding saturating_increment
saturating_increment_bounds n h = ground arith

-- For a second factor that fits 64 bits, the checked product is exact where the product fits 64 bits,
-- and fails where it does not.
pub checked_multiply-Checked : (a b : ℕ) → b < u64_mod → Checked (a * b) (checked_multiply a b)
unfolding checked_multiply
checked_multiply-Checked zero b h = ground arith
checked_multiply-Checked (suc a) b h =
    let bound = le-div_iff_mul-le {k = suc a} {x = b} {y = u64_max} (omega arith) in
    ground (arith, bound.0, bound.1)
