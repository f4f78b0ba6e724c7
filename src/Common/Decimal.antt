-- ===== src/Common/Decimal.antt =====
-- `operator<<` of an unsigned integer: its decimal digits.
use mathlib.Core.List.{append_assoc, append_cancel_right}
use upfpolicyengine.Common.{
  ℕ, zero, suc, ◌+◌, ◌-◌, ◌*◌, ◌/◌, ◌%◌, ◌≤◌, ◌<◌, ◌≡◌, refl, ap, ◌∙◌, sym, true, false, [], ◌∷◌,
  ◌++◌, arith, ltb, All, All-append, Bool-cases, inl, inr,
}
use upfpolicyengine.Common.Text.{Text, Lacks, split_unique}

-- The digits of a number, with fuel for the divisions by ten.
unfoldable pub decimal_fuel : ℕ → ℕ → Text
decimal_fuel zero n = []
decimal_fuel (suc fuel) n = elim (ltb n 10) [
  | true ↦ (b'0' + n) ∷ []
  | false ↦ decimal_fuel fuel (n / 10) ++ (b'0' + n % 10) ∷ []
]

-- A number has at most as many digits as one more than itself.
unfoldable pub decimal : ℕ → Text
unfolding decimal_fuel
decimal n = decimal_fuel (suc n) n

-- The number that a text of digits stands for, after those read.
abbrev digits_value : ℕ → Text → ℕ
digits_value acc [] = acc
digits_value acc (c ∷ s) = digits_value (acc * 10 + (c - b'0')) s

digits_value-append :
    (acc : ℕ) (s : Text) (c : ℕ)
    → digits_value acc (s ++ c ∷ []) ≡ digits_value acc s * 10 + (c - b'0')
digits_value-append acc [] c = refl
digits_value-append acc (d ∷ s) c = digits_value-append (acc * 10 + (d - b'0')) s c

digits_value-decimal_fuel : (fuel n : ℕ) → n < fuel → digits_value 0 (decimal_fuel fuel n) ≡ n
unfolding decimal_fuel
digits_value-decimal_fuel zero n h = absurd (omega arith)
digits_value-decimal_fuel (suc fuel) n h = elim (Bool-cases (ltb n 10)) [
  | inl e ↦ rw (e, decimal_fuel) (omega arith)
  | inr e ↦
      rw (e, decimal_fuel, digits_value-append 0 (decimal_fuel fuel (n / 10)) (b'0' + n % 10))
        (ground (arith, digits_value-decimal_fuel fuel (n / 10)))
]

-- The digits of a number determine it.
pub decimal_injective : (m n : ℕ) → decimal m ≡ decimal n → m ≡ n
unfolding decimal
decimal_injective m n e =
    sym (digits_value-decimal_fuel (suc m) m (omega arith))
    ∙ ap (digits_value 0) e
    ∙ digits_value-decimal_fuel (suc n) n (omega arith)

abbrev pub IsDigit : ℕ → Type 0
IsDigit c = (b'0' ≤ c) × (c ≤ b'9')

decimal_fuel-IsDigit : (fuel n : ℕ) → All IsDigit (decimal_fuel fuel n)
unfolding decimal_fuel
decimal_fuel-IsDigit zero n = tt
decimal_fuel-IsDigit (suc fuel) n = elim (Bool-cases (ltb n 10)) [
  | inl e ↦ rw (e, decimal_fuel) (ground arith)
  | inr e ↦
      rw (e, decimal_fuel)
        (All-append IsDigit (decimal_fuel fuel (n / 10)) _ (decimal_fuel-IsDigit fuel (n / 10))
          (omega arith))
]

Digits-Lacks : (c : ℕ) (s : Text) → ¬ IsDigit c → All IsDigit s → Lacks c s
Digits-Lacks c [] no_digit h = tt
Digits-Lacks c (d ∷ s) no_digit h = ((λ e. no_digit (rw e at h.0)), Digits-Lacks c s no_digit h.1)

-- A decimal holds no byte but digits.
pub decimal-Lacks : (c n : ℕ) → ¬ IsDigit c → Lacks c (decimal n)
unfolding decimal
decimal-Lacks c n no_digit = Digits-Lacks c _ no_digit (decimal_fuel-IsDigit (suc n) n)

abbrev pub NotDigit : ℕ → Type 0
NotDigit c = ¬ IsDigit c

-- A number behind a mark that is no digit can be taken off the end of a text.
pub peel_decimal :
    (c : ℕ) (front s s' : Text) (n n' : ℕ)
    → NotDigit c
    → s ++ (front ++ c ∷ decimal n) ≡ s' ++ (front ++ c ∷ decimal n')
    → (s ≡ s') × (n ≡ n')
peel_decimal c front s s' n n' h e =
    let regrouped =
      append_assoc s front (c ∷ decimal n) ∙ e ∙ sym (append_assoc s' front (c ∷ decimal n')) in
    let parts =
      split_unique c (s ++ front) (s' ++ front) _ _ (decimal-Lacks c n h) (decimal-Lacks c n' h)
        regrouped in
    (append_cancel_right s s' front parts.0, decimal_injective n n' parts.1)
