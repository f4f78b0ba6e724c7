-- ===== src/Validation/Identifiers.antt =====
-- What uniqueIds (src/domain/validation.cpp) accepts.
use upfpolicyengine.Common.{
  ℕ, ◌≡◌, ◌≢◌, refl, ◌↔◌, true, false, List, [], ◌∷◌, arith, All, AllPairs,
}
use upfpolicyengine.Types.{Interface_Eq}
use upfpolicyengine.Rules.{HasId}
use upfpolicyengine.Validation.{holds, unique_ids_from, unique_ids}

-- Identifiers that are not zero, and differ from one another.
abbrev pub HasUniqueIds {ℓ} : {A : Type ℓ} ⦃h : HasId A⦄ → List A → Type 0
HasUniqueIds ⦃h⦄ rs =
    All (λ r. (h.id_of r).value ≢ 0) rs
    × AllPairs (λ r r'. (h.id_of r).value ≢ (h.id_of r').value) rs

module _ {ℓ} {A : Type ℓ} ⦃h : HasId A⦄ where
  abbrev Unseen : List ℕ → A → Type 0
  Unseen seen r = holds (h.id_of r).value seen ≡ false

  abbrev Differ : ℕ → A → Type 0
  Differ k r = k ≢ (h.id_of r).value

  Unseen-cons :
      (k : ℕ) (seen : List ℕ) (rs : List A)
      → All (Unseen (k ∷ seen)) rs ↔ (All (Differ k) rs × All (Unseen seen) rs)
  unfolding holds
  Unseen-cons k seen [] = (λ u. (tt, tt), λ u. tt)
  Unseen-cons k seen (r ∷ rs) =
      let rest = Unseen-cons k seen rs in
      (
        λ u. let all = rest.0 u.1 in ((ground (arith, u.0), all.0), (ground (arith, u.0), all.1)),
        λ u. (ground (arith, u.0.0, u.1.0), rest.1 (u.0.1, u.1.1)),
      )

  -- The loop with the identifiers seen so far.
  unique_ids_from_lem :
      (seen : List ℕ) (rs : List A)
      → (unique_ids_from seen rs ≡ true) ↔ (All (Unseen seen) rs × HasUniqueIds rs)
  unfolding unique_ids_from
  unique_ids_from_lem seen [] = (λ e. (tt, (tt, tt)), λ e. refl)
  unique_ids_from_lem seen (r ∷ rs) =
      let id = (h.id_of r).value in
      let rest = unique_ids_from_lem (id ∷ seen) rs in
      let unseen = Unseen-cons id seen rs in
      (
        λ e.
            let later = rest.0 (ground (arith, e)) in
            let split = unseen.0 later.0 in
            ((ground (arith, e), split.1), ((ground (arith, e), later.1.0), (split.0, later.1.1))),
        λ u.
            let later = rest.1 (unseen.1 (u.1.1.0, u.0.1), (u.1.0.1, u.1.1.1)) in
            ground (arith, later, u.0.0, u.1.0.0),
      )

  Unseen-nil : (rs : List A) → All (Unseen []) rs
  unfolding holds
  Unseen-nil [] = tt
  Unseen-nil (r ∷ rs) = (refl, Unseen-nil rs)

  pub unique_ids_lem : (rs : List A) → (unique_ids rs ≡ true) ↔ HasUniqueIds rs
  unfolding unique_ids
  unique_ids_lem rs =
      let loop = unique_ids_from_lem [] rs in (λ e. (loop.0 e).1, λ u. loop.1 (Unseen-nil rs, u))
