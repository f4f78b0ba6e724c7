-- ===== src/Address/Bits.antt =====
-- The masks of a prefix's last byte (`IpPrefix::contains`): a shorter mask sees no more than a
-- longer one.
use Prim.Native.Nat.{bit_and}
use upfpolicyengine.Common.{
  ◌+◌, Bool-cases, inl, inr, nat_eq_iff, ℕ, zero, suc, ◌≤◌, ◌<◌, ◌≡◌, refl, sym, ap, ◌∙◌, Bool,
  true, not, ◌&&◌, ◌||◌, arith, leb, nat_eq,
}
use upfpolicyengine.Address.Defs.{leading_mask}

-- A test of the numbers under a bound, the least first.
passes_from : (ℕ → Bool) → ℕ → ℕ → Bool
passes_from test start zero = true
passes_from test start (suc rounds) = test start && passes_from test (suc start) rounds

passes_at :
    (test : ℕ → Bool) (start rounds k : ℕ)
    → passes_from test start rounds ≡ true
    → start ≤ k
    → k < start + rounds
    → test k ≡ true
unfolding passes_from
passes_at test start zero k all from under = absurd (omega arith)
passes_at test start (suc rounds) k all from under = elim (Bool-cases (nat_eq k start)) [
  | inl e ↦ rw ((nat_eq_iff k start).0 e) (ground (arith, all))
  | inr e ↦ passes_at test (suc start) rounds k (ground (arith, all)) (ground arith) (omega arith)
]

-- Masking by a mask and then by a shorter one is masking by the shorter one.
abbrev remasks : ℕ → ℕ → ℕ → Bool
remasks n m x =
    not (leb m n)
    || nat_eq (bit_and (bit_and x (leading_mask n)) (leading_mask m)) (bit_and x (leading_mask m))

remask_table :
    passes_from (λ n. passes_from (λ m. passes_from (λ x. remasks n m x) 0 256) 0 8) 0 8 ≡ true
unfolding passes_from leading_mask
remask_table = refl

remask :
    (n m x : ℕ)
    → n < 8
    → m ≤ n
    → x < 256
    → bit_and (bit_and x (leading_mask n)) (leading_mask m) ≡ bit_and x (leading_mask m)
remask n m x small le byte =
    let row = passes_at _ 0 8 n remask_table (omega arith) (omega arith) in
    let column = passes_at _ 0 8 m row (omega arith) (omega arith) in
    ground (arith, passes_at (λ y. remasks n m y) 0 256 x column (omega arith) (omega arith))

-- Bytes that agree under a mask agree under a shorter one.
pub mask_shorter :
    (n m x y : ℕ)
    → n < 8
    → m ≤ n
    → x < 256
    → y < 256
    → bit_and x (leading_mask n) ≡ bit_and y (leading_mask n)
    → bit_and x (leading_mask m) ≡ bit_and y (leading_mask m)
mask_shorter n m x y small le bx by_ e =
    sym (remask n m x small le bx)
    ∙ ap (λ z. bit_and z (leading_mask m)) e
    ∙ remask n m y small le by_
