-- ===== src/Common/Text.antt =====
-- `std::string` as the list of its bytes.
use Prim.Native.Char.{code}
use Prim.Native.String.{String}
use upfpolicyengine.Common.{
  ℕ, ◌≡◌, refl, ◌↔◌, Bool, true, false, ◌&&◌, List, [], ◌∷◌, ◌++◌, arith, nat_eq, Eq, All, ◌≢◌,
}

abbrev pub Text : Type 0
Text = List ℕ

-- A literal of the source. It stays shut, so that tactics see one unknown and no long list.
unfoldable pub text : String → Text
text String.[] = []
text (String.◌∷◌ c s) = code c ∷ text s

-- `s.empty()`
abbrev pub is_empty : Text → Bool
is_empty [] = true
is_empty (c ∷ s) = false

-- `s == t`
unfoldable pub text_eq : Text → Text → Bool
text_eq [] [] = true
text_eq [] (d ∷ t) = false
text_eq (c ∷ s) [] = false
text_eq (c ∷ s) (d ∷ t) = nat_eq c d && text_eq s t

text_eq-eq : (s t : Text) → text_eq s t ≡ true → s ≡ t
unfolding text_eq
text_eq-eq [] [] h = refl
text_eq-eq [] (d ∷ t) h = cc
text_eq-eq (c ∷ s) [] h = cc
text_eq-eq (c ∷ s) (d ∷ t) h = ground (arith, text_eq-eq s t)

text_eq_refl : (s : Text) → text_eq s s ≡ true
unfolding text_eq
text_eq_refl [] = refl
text_eq_refl (c ∷ s) = ground (arith, text_eq_refl s)

pub text_eq_iff : (s t : Text) → (text_eq s t ≡ true) ↔ (s ≡ t)
text_eq_iff s t = (text_eq-eq s t, λ e. rw e (text_eq_refl t))

instance abbrev pub text_Eq : Eq (List ℕ)
text_Eq = record { same = text_eq; same_iff = text_eq_iff }

-- No byte of the text is `c`.
abbrev pub Lacks : ℕ → Text → Type 0
Lacks c = All (λ d. d ≢ c)

not-Lacks-append : (c : ℕ) (s t : Text) → ¬ Lacks c (s ++ c ∷ t)
not-Lacks-append c [] t h = h.0 refl
not-Lacks-append c (d ∷ s) t h = not-Lacks-append c s t h.1

-- A separator that does not occur after itself splits a text in one way.
pub split_unique :
    (c : ℕ) (s s' t t' : Text)
    → Lacks c t
    → Lacks c t'
    → s ++ c ∷ t ≡ s' ++ c ∷ t'
    → (s ≡ s') × (t ≡ t')
split_unique c [] [] t t' h h' e = (refl, cc)
split_unique c [] (d ∷ s') t t' h h' e = absurd (not-Lacks-append c s' t' (rw (tail-eq e) at h))
  where
    tail-eq : {x y : ℕ} {xs ys : Text} → x ∷ xs ≡ y ∷ ys → xs ≡ ys
    tail-eq e = cc
split_unique c (d ∷ s) [] t t' h h' e = absurd (not-Lacks-append c s t (rw (← tail-eq e) at h'))
  where
    tail-eq : {x y : ℕ} {xs ys : Text} → x ∷ xs ≡ y ∷ ys → xs ≡ ys
    tail-eq e = cc
split_unique c (d ∷ s) (d' ∷ s') t t' h h' e =
    let rest = split_unique c s s' t t' h h' (cc) in (cc rest.0, rest.1)
