-- ===== src/Text/Trim.antt =====
-- Laws of `trim_space`.
use ganc_sys.Prelude.{ℕ, ◌≡◌, refl, false, [], ◌∷◌, arith, All, Bool-cases, inl, inr}
use ganc_sys.Text.{Text, is_space, trim_left, trim_right, trim_space}

trim_right-trim_right : (s : Text) → trim_right (trim_right s) ≡ trim_right s
unfolding trim_right
trim_right-trim_right [] = refl
trim_right-trim_right (c ∷ s) = ground (arith, trim_right-trim_right s)

-- What trimming on the right leaves of a text that begins with no space begins with no space.
trim_left-trim_right :
    (c : ℕ) (s : Text) → is_space c ≡ false → trim_left (trim_right (c ∷ s)) ≡ trim_right (c ∷ s)
unfolding trim_left trim_right
trim_left-trim_right c s h = rw h (rw h refl)

trim_twice : (s : Text) → trim_left (trim_right (trim_left s)) ≡ trim_right (trim_left s)
unfolding trim_left
trim_twice [] = unfold trim_right in refl
trim_twice (c ∷ s) = elim (Bool-cases (is_space c)) [
  | inl space ↦ rw space (trim_twice s)
  | inr other ↦ rw other (trim_left-trim_right c s other)
]

pub trim_space-trim_space : (s : Text) → trim_space (trim_space s) ≡ trim_space s
unfolding trim_space
trim_space-trim_space s = rw trim_twice (trim_right-trim_right (trim_left s))

-- A text without spaces.
abbrev pub IsSolid : Text → Type 0
IsSolid = All (λ (c : ℕ). is_space c ≡ false)

trim_left-IsSolid : (s : Text) → IsSolid s → trim_left s ≡ s
unfolding trim_left
trim_left-IsSolid [] h = refl
trim_left-IsSolid (c ∷ s) h = rw (h.0)

trim_right-IsSolid : (s : Text) → IsSolid s → trim_right s ≡ s
unfolding trim_right
trim_right-IsSolid [] h = refl
trim_right-IsSolid (c ∷ s) h = rw (h.0, trim_right-IsSolid s h.1)

pub trim_space-IsSolid : (s : Text) → IsSolid s → trim_space s ≡ s
unfolding trim_space
trim_space-IsSolid s h = rw (trim_left-IsSolid s h) (trim_right-IsSolid s h)
