-- ===== src/Dict.antt =====
-- Go maps: an association list with one entry for each key. The order of the list stands for the
-- order in which `range` meets the entries, which Go leaves open.
pub mod Laws
use ganc_sys.Prelude.{
  ◌≡◌, refl, ◌≢◌, Bool, false, ◌||◌, Option, none, some, List, [], ◌∷◌, arith, Comparable, ◌==◌,
  All, if◌then◌else◌, Bool-cases, inl, inr,
}

abbrev pub Dict {ℓ κ} : Type ℓ → Type κ → Type (ℓ ⊔ κ)
Dict K V = List (K × V)

module _ {ℓ κ} {K : Type ℓ} {V : Type κ} ⦃e : Comparable K⦄ where
  -- `v, ok := m[k]`
  unfoldable pub lookup : K → Dict K V → Option V
  lookup key [] = none
  lookup key ((i, w) ∷ rest) = if i == key then some w else lookup key rest

  -- `m[k] = v`
  unfoldable pub insert : K → V → Dict K V → Dict K V
  insert key value [] = (key, value) ∷ []
  insert key value ((i, w) ∷ rest) =
      if i == key then (key, value) ∷ rest else (i, w) ∷ insert key value rest

  pub lookup-insert :
      (key other : K) (value : V) (m : Dict K V)
      → lookup other (insert key value m) ≡ (if key == other then some value else lookup other m)
  unfolding lookup insert
  lookup-insert key other value [] = refl
  lookup-insert key other value ((i, w) ∷ rest) = ground (
    arith,
    lookup-insert key other value rest,
    e.test_iff key other,
    e.test_iff i key,
    e.test_iff i other,
  )

  -- No key stands twice.
  abbrev pub DistinctKeys : Dict K V → Type (ℓ ⊔ κ)
  DistinctKeys [] = Unit
  DistinctKeys ((k, v) ∷ m) = All (λ (x : K × V). k ≢ x.0) m × DistinctKeys m

module _ {ℓ} {K : Type ℓ} ⦃e : Comparable K⦄ where
  -- `map[K]struct{}`: a set of keys
  unfoldable pub member : K → List K → Bool
  member k [] = false
  member k (j ∷ s) = j == k || member k s

  unfoldable pub add : K → List K → List K
  add k s = if member k s then s else k ∷ s

  pub member-add : (k j : K) (s : List K) → member j (add k s) ≡ (k == j || member j s)
  unfolding member add
  member-add k j s = elim (Bool-cases (member k s)) [
    | inl old ↦ elim (Bool-cases (k == j)) [
      | inl same ↦ rw (old, same) (rw (← (e.test_iff k j).0 same) old)
      | inr other ↦ rw (old, other)
    ]
    | inr new ↦ rw new
  ]
