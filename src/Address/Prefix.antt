-- ===== src/Address/Prefix.antt =====
-- `IpPrefix::contains` as a relation: two prefixes that contain one address, of which the shorter
-- contains the network of the longer.
use Prim.Native.Nat.{bit_and}
use upfpolicyengine.Common.{
  ℕ, zero, suc, ◌/◌, ◌%◌, ◌≤◌, ◌<◌, ◌≡◌, ◌≢◌, refl, sym, ap, ◌∙◌, ◌↔◌, ◌⊎◌, inl, inr, true, List,
  [], ◌∷◌, All, arith, nat_eq, nat_eq_iff, get_or, Bool-cases, leb,
}
use upfpolicyengine.Address.Defs.{
  AddressFamily, family_eq, IpAddress, IpPrefix, memory_eq, leading_mask, contains,
}
use upfpolicyengine.Address.Bits.{mask_shorter}

abbrev Same : List ℕ → List ℕ → ℕ → Type 0
Same x y i = get_or x i 0 ≡ get_or y i 0

memory_eq_iff : (n : ℕ) (x y : List ℕ) → (memory_eq n x y ≡ true) ↔ ((i : ℕ) → i < n → Same x y i)
unfolding memory_eq
memory_eq_iff zero x y = (λ h i lt. absurd (omega arith), λ h. refl)
memory_eq_iff (suc n) x y = (
  λ h i lt. elim (Bool-cases (nat_eq i n)) [
    | inl e ↦ rw ((nat_eq_iff i n).0 e) ((nat_eq_iff _ _).0 (ground (arith, h)))
    | inr e ↦ (memory_eq_iff n x y).0 (ground (arith, h)) i (ground arith)
  ],
  λ h. ground (arith, (memory_eq_iff n x y).1 (λ i lt. h i (omega arith)), h n (omega arith)),
)

abbrev pub IsByte : ℕ → Type 0
IsByte b = b < 256

get-IsByte : (bytes : List ℕ) (i : ℕ) → All IsByte bytes → get_or bytes i 0 < 256
get-IsByte [] i h = omega arith
get-IsByte (b ∷ bytes) zero h = h.0
get-IsByte (b ∷ bytes) (suc i) h = get-IsByte bytes i h.1

abbrev Masked : ℕ → List ℕ → List ℕ → Type 0
Masked n x y =
    bit_and (get_or x (n / 8) 0) (leading_mask (n % 8))
    ≡ bit_and (get_or y (n / 8) 0) (leading_mask (n % 8))

-- The bytes that agree in the leading bits.
abbrev Agree : ℕ → List ℕ → List ℕ → Type 0
Agree n x y = ((i : ℕ) → i < n / 8 → Same x y i) × (n % 8 ≢ 0 → Masked n x y)

Agree-sym : (n : ℕ) (x y : List ℕ) → Agree n x y → Agree n y x
Agree-sym n x y (whole, last) = ((λ i lt. sym (whole i lt)), λ r. sym (last r))

Agree-trans : (n : ℕ) (x y z : List ℕ) → Agree n x y → Agree n y z → Agree n x z
Agree-trans n x y z (whole, last) (whole', last') =
    ((λ i lt. whole i lt ∙ whole' i lt), λ r. last r ∙ last' r)

Agree-shorter :
    (n m : ℕ) (x y : List ℕ) → m ≤ n → All IsByte x → All IsByte y → Agree n x y → Agree m x y
Agree-shorter n m x y le bx by_ (whole, last) = (
  (λ i lt. whole i (omega arith)),
  λ r. elim (Bool-cases (nat_eq (m / 8) (n / 8))) [
    | inr differs ↦ ap (λ b. bit_and b (leading_mask (m % 8))) (whole (m / 8) (ground arith))
    | inl same ↦
        let at = (nat_eq_iff (m / 8) (n / 8)).0 same in
        mask_shorter (n % 8) (m % 8) (get_or x (m / 8) 0) (get_or y (m / 8) 0) (omega arith)
          (omega arith) (get-IsByte x (m / 8) bx) (get-IsByte y (m / 8) by_)
          (rw at (last (omega arith)))
  ],
)

family_eq_iff : (f g : AddressFamily) → (family_eq f g ≡ true) ↔ (f ≡ g)
family_eq_iff f g = ground arith

contains_iff :
    (p : IpPrefix) (a : IpAddress)
    → (contains p a ≡ true)
      ↔ ((p.network.family ≡ a.family) × Agree p.length p.network.bytes a.bytes)
unfolding contains
contains_iff p a =
    let whole = memory_eq_iff (p.length / 8) p.network.bytes a.bytes in
    (
      λ h. (
        (family_eq_iff p.network.family a.family).0 (ground (arith, h)),
        (whole.0 (ground (arith, h)), λ r. ground (arith, h, r)),
      ),
      λ (f, (w, last)). elim (Bool-cases (nat_eq (p.length % 8) 0)) [
        | inl aligned ↦ ground (arith, whole.1 w, (family_eq_iff p.network.family a.family).1 f)
        | inr partial ↦
            ground
              (arith, whole.1 w, (family_eq_iff p.network.family a.family).1 f, last (ground arith))
      ],
    )

-- Of two prefixes that contain one address, all of bytes, one contains the network of the other.
pub contains-overlap :
    (p q : IpPrefix) (a : IpAddress)
    → All IsByte p.network.bytes
    → All IsByte q.network.bytes
    → All IsByte a.bytes
    → contains p a ≡ true
    → contains q a ≡ true
    → (contains p q.network ≡ true) ⊎ (contains q p.network ≡ true)
contains-overlap p q a bp bq ba hp hq =
    let (fp, ap_) = (contains_iff p a).0 hp in
    let (fq, aq) = (contains_iff q a).0 hq in
    elim (Bool-cases (leb p.length q.length)) [
      | inl shorter ↦
          let back =
            Agree-sym p.length _ _ (Agree-shorter q.length p.length _ _ (ground arith) bq ba aq) in
          inl ((contains_iff p q.network).1 (fp ∙ sym fq, Agree-trans p.length _ _ _ ap_ back))
      | inr longer ↦
          let back =
            Agree-sym q.length _ _ (Agree-shorter p.length q.length _ _ (ground arith) bp ba ap_) in
          inr ((contains_iff q p.network).1 (fq ∙ sym fp, Agree-trans q.length _ _ _ aq back))
    ]
