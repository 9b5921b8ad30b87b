-- ===== src/Dict/Laws.antt =====
-- Properties of every entry of a map, and sums over a map, under an update.
use mathlib.Core.Path.{subst₂, refl}
use mathlib.Core.Option.{some-injective}
use ganc_sys.Prelude.{
  ℕ, suc, length, ◌+◌, ◌≡◌, ◌≢◌, none, some, [], ◌∷◌, arith, Comparable, ◌==◌, All, sum_of,
  Bool-cases, inl, inr,
}
use ganc_sys.Dict.{Dict, lookup, insert, DistinctKeys}

module _ {ℓ κ} {K : Type ℓ} {V : Type κ} ⦃e : Comparable K⦄ where
  pub All-lookup :
      (P : K × V → Type κ) (k : K) (v : V) (m : Dict K V) → All P m → lookup k m ≡ some v → P (k, v)
  unfolding lookup
  All-lookup P k v [] h q = cc
  All-lookup P k v ((j, w) ∷ m) h q = elim (Bool-cases (j == k)) [
    | inl same ↦
        subst₂ (λ a b. P (a, b)) ((e.test_iff j k).0 same) (some-injective w v (rw same at q)) (h.0)
    | inr other ↦ All-lookup P k v m h.1 (rw other at q)
  ]

  pub All-insert :
      (P : K × V → Type κ) (k : K) (v : V) (m : Dict K V)
      → All P m
      → P (k, v)
      → All P (insert k v m)
  unfolding insert
  All-insert P k v [] h p = (p, tt)
  All-insert P k v ((j, w) ∷ m) h p = elim (Bool-cases (j == k)) [
    | inl same ↦ rw same (p, h.1)
    | inr other ↦ rw other (h.0, All-insert P k v m h.1 p)
  ]

  fresh-insert :
      (i k : K) (v : V) (m : Dict K V)
      → i ≢ k
      → All (λ (x : K × V). i ≢ x.0) m
      → All (λ (x : K × V). i ≢ x.0) (insert k v m)
  unfolding insert
  fresh-insert i k v [] ne h = (ne, tt)
  fresh-insert i k v ((j, w) ∷ m) ne h = elim (Bool-cases (j == k)) [
    | inl same ↦ rw same (ne, h.1)
    | inr other ↦ rw other (h.0, fresh-insert i k v m ne h.1)
  ]

  pub insert-DistinctKeys :
      (k : K) (v : V) (m : Dict K V) → DistinctKeys m → DistinctKeys (insert k v m)
  unfolding insert
  insert-DistinctKeys k v [] h = (tt, tt)
  insert-DistinctKeys k v ((j, w) ∷ m) h = elim (Bool-cases (j == k)) [
    | inl same ↦ rw same (rw ((e.test_iff j k).0 same) at h)
    | inr other ↦
        rw other
          (fresh-insert j k v m (ground (arith, e.test_iff j k)) h.0, insert-DistinctKeys k v m h.1)
  ]

  pub sum_of-insert :
      (f : K × V → ℕ) (k : K) (v : V) (m : Dict K V)
      → sum_of f (insert k v m) + elim (lookup k m) [ none ↦ 0 | some w ↦ f (k, w) ]
        ≡ sum_of f m + f (k, v)
  unfolding lookup insert
  sum_of-insert f k v [] = omega arith
  sum_of-insert f k v ((j, w) ∷ m) = elim (Bool-cases (j == k)) [
    | inl same ↦ rw same (rw ((e.test_iff j k).0 same) (omega arith))
    | inr other ↦ rw other (omega (arith, sum_of-insert f k v m))
  ]

  pub length-insert :
      (k : K) (v : V) (m : Dict K V) → lookup k m ≡ none → length (insert k v m) ≡ suc (length m)
  unfolding lookup insert
  length-insert k v [] h = refl
  length-insert k v ((j, w) ∷ m) h = ground (arith, length-insert k v m)
