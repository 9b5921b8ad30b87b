-- ===== src/Prelude/Traverse.antt =====
-- `for _, x := range xs { y, err := g(x); if err != nil { return err }; out = append(out, y) }`
use mathlib.Core.Path.{◌≡◌, refl, ◌∙◌, ap₂}
use mathlib.Core.Logic.{inl, inr}
use mathlib.Core.List.{List, [], ◌∷◌, map}
use ganc_sys.Prelude.Outcome.{Result, ok, and_then, Result-cases}
use ganc_sys.Prelude.Lists.{All, All2}
use native.Mathlib.Omega.{arith}

module _ {ℓ κ} {A : Type ℓ} {B : Type κ} (g : A → Result B) where
  unfoldable pub traverse : List A → Result (List B)
  traverse [] = ok []
  traverse (x ∷ xs) = and_then (g x) (λ y. and_then (traverse xs) (λ ys. ok (y ∷ ys)))

module _ {ℓ κ} {A B : Type ℓ} (g : A → Result B) (P : A → Type κ) (f : A → B) where
  -- What holds of one round holds of the loop.
  pub traverse_sound :
      ((x : A) (y : B) → g x ≡ ok y → P x × (y ≡ f x))
      → (xs : List A) (ys : List B) → traverse g xs ≡ ok ys
      → All P xs × (ys ≡ map f xs)
  unfolding traverse
  traverse_sound sound [] ys h = (tt, cc)
  traverse_sound sound (x ∷ xs) ys h = elim (Result-cases (g x)) [
    | inr (e, bad) ↦ absurd (ground arith)
    | inl (y, good) ↦ elim (Result-cases (traverse g xs)) [
      | inr (e, bad) ↦ absurd (ground arith)
      | inl (rest, goods) ↦
          let (p, e) = sound x y good in
          let (ps, es) = traverse_sound sound xs rest goods in
          let whole : ys ≡ y ∷ rest = ground arith in ((p, ps), whole ∙ ap₂ (λ a as'. a ∷ as') e es)
    ]
  ]

  pub traverse_complete :
      ((x : A) → P x → g x ≡ ok (f x)) → (xs : List A) → All P xs → traverse g xs ≡ ok (map f xs)
  unfolding traverse
  traverse_complete complete [] h = refl
  traverse_complete complete (x ∷ xs) h = rw (complete x h.0, traverse_complete complete xs h.1)

-- What relates the ends of each round relates those of the loop.
pub traverse_related {ℓ} :
    {A B : Type ℓ} (g : A → Result B) (R : A → B → Type 0)
    → ((x : A) (y : B) → g x ≡ ok y → R x y)
    → (xs : List A) (ys : List B) → traverse g xs ≡ ok ys
    → All2 R xs ys
unfolding traverse
traverse_related g R sound [] [] h = tt
traverse_related g R sound [] (y ∷ ys) h = absurd (ground arith)
traverse_related g R sound (x ∷ xs) [] h = elim (Result-cases (g x)) [
  | inr (e, bad) ↦ absurd (ground arith)
  | inl (y, good) ↦ elim (Result-cases (traverse g xs)) [
    | inr (e, bad) ↦ absurd (ground arith)
    | inl (rest, goods) ↦ absurd (ground arith)
  ]
]
traverse_related g R sound (x ∷ xs) (y ∷ ys) h = elim (Result-cases (g x)) [
  | inr (e, bad) ↦ absurd (ground arith)
  | inl (y', good) ↦ elim (Result-cases (traverse g xs)) [
    | inr (e, bad) ↦ absurd (ground arith)
    | inl (rest, goods) ↦
        (sound x y (ground arith), traverse_related g R sound xs ys (ground arith))
  ]
]
