-- ===== src/Common/Dict.antt =====
-- `std::map<std::uint32_t, V>` as an association list. The program never iterates over a map, so
-- the order of the entries is not observed.
use upfpolicyengine.Common.{
  ℕ, ◌≡◌, refl, ◌≢◌, Bool, Option, none, some, List, [], ◌∷◌, arith, nat_eq, if◌then◌else◌,
  has_value,
}

abbrev pub Dict {ℓ} : Type ℓ → Type ℓ
Dict V = List (ℕ × V)

module _ {ℓ} {V : Type ℓ} where
  -- `m.find(k)`
  unfoldable pub lookup : ℕ → Dict V → Option V
  lookup k [] = none
  lookup k ((j, v) ∷ m) = if nat_eq j k then some v else lookup k m

  -- `m[k] = v`
  unfoldable pub insert : ℕ → V → Dict V → Dict V
  insert k v [] = (k, v) ∷ []
  insert k v ((j, w) ∷ m) = if nat_eq j k then (k, v) ∷ m else (j, w) ∷ insert k v m

  -- `m.find(k) != m.end()`
  abbrev pub contains : ℕ → Dict V → Bool
  contains k m = has_value (lookup k m)

  -- The reading `m[k]`, which inserts a value-initialised entry at a key that is missing: what it
  -- reads, and the map afterwards.
  unfoldable pub index : ℕ → V → Dict V → V × Dict V
  index k default m = elim (lookup k m) [ none ↦ (default, insert k default m) | some v ↦ (v, m) ]

  pub lookup-insert :
      (k j : ℕ) (v : V) (m : Dict V)
      → lookup j (insert k v m) ≡ (if nat_eq k j then some v else lookup j m)
  unfolding lookup insert
  lookup-insert k j v [] = refl
  lookup-insert k j v ((i, w) ∷ m) = ground (arith, lookup-insert k j v m)

  pub lookup-insert_self : (k : ℕ) (v : V) (m : Dict V) → lookup k (insert k v m) ≡ some v
  lookup-insert_self k v m = ground (arith, lookup-insert k k v m)

  pub lookup-insert_ne :
      (k j : ℕ) (v : V) (m : Dict V) → k ≢ j → lookup j (insert k v m) ≡ lookup j m
  lookup-insert_ne k j v m h = ground (arith, lookup-insert k j v m)

  -- A key that is there is read, and the map stays.
  pub index_present :
      (k : ℕ) (default : V) (m : Dict V) {v : V} → lookup k m ≡ some v → index k default m ≡ (v, m)
  unfolding index
  index_present k default m h = rw (h, index)

-- The same keys have a value.
abbrev pub SameKeys {ℓ} : {V : Type ℓ} → Dict V → Dict V → Type 0
SameKeys m m' = (k : ℕ) → has_value (lookup k m') ≡ has_value (lookup k m)
