-- ===== src/Text/Decimal/RoundTrip.antt =====
-- math/big as the program uses it: `SetString` after `String()`.
use ganc_sys.Prelude.{
  ℕ, zero, suc, ◌+◌, ◌*◌, ◌/◌, ◌%◌, ◌≤◌, ◌≡◌, ◌≢◌, refl, true, false, some, [], ◌∷◌, arith, eqb,
  All, Bool-cases, inl, inr,
}
use ganc_sys.Text.{Text, is_space}
use ganc_sys.Text.Trim.{IsSolid}
use ganc_sys.Text.Decimal.{pos, is_digit, scan, set_string, emit, format}

scan_digit : (n d : ℕ) (s : Text) → d ≤ 9 → scan n ((48 + d) ∷ s) ≡ scan (n * 10 + d) s
unfolding scan
scan_digit n d s h = ground arith

-- Reading behind 0 what was printed before `out` is reading `out` behind the number.
scan-emit : (fuel n : ℕ) (out : Text) → n ≤ fuel → scan 0 (emit fuel n out) ≡ scan n out
unfolding emit
scan-emit zero n out h = let e : n ≡ 0 = omega arith in rw e
scan-emit (suc fuel) n out h = elim (Bool-cases (eqb n 0)) [
  | inl done ↦ let e : n ≡ 0 = ground arith in rw done (rw e)
  | inr more ↦ rw more (
      rw (scan-emit fuel (n / 10) ((48 + n % 10) ∷ out) (ground arith)) (
        rw (scan_digit (n / 10) (n % 10) out (omega arith))
          (let e : n / 10 * 10 + n % 10 ≡ n = omega arith in rw e)))
]

pub scan-format : (n : ℕ) → scan 0 (format n) ≡ some n
unfolding format
scan-format n = elim (Bool-cases (eqb n 0)) [
  | inl z ↦ let e : n ≡ 0 = ground arith in rw z (unfold scan in rw e)
  | inr p ↦ rw p (rw (scan-emit n n [] (omega arith)) (unfold scan in refl))
]

abbrev pub IsNumeral : Text → Type 0
IsNumeral = All (λ (c : ℕ). is_digit c ≡ true)

emit-IsNumeral : (fuel n : ℕ) (out : Text) → IsNumeral out → IsNumeral (emit fuel n out)
unfolding emit is_digit
emit-IsNumeral zero n out h = h
emit-IsNumeral (suc fuel) n out h = elim (Bool-cases (eqb n 0)) [
  | inl done ↦ rw done h
  | inr more ↦ rw more (emit-IsNumeral fuel (n / 10) ((48 + n % 10) ∷ out) (ground arith, h))
]

pub format-IsNumeral : (n : ℕ) → IsNumeral (format n)
unfolding format
format-IsNumeral n = elim (Bool-cases (eqb n 0)) [
  | inl z ↦ rw z (unfold is_digit in (refl, tt))
  | inr p ↦ rw p (emit-IsNumeral n n [] tt)
]

digit_is_solid : (c : ℕ) → is_digit c ≡ true → is_space c ≡ false
unfolding is_digit is_space
digit_is_solid c h = ground arith

pub IsNumeral-IsSolid : (s : Text) → IsNumeral s → IsSolid s
IsNumeral-IsSolid [] h = tt
IsNumeral-IsSolid (c ∷ s) h = (digit_is_solid c h.0, IsNumeral-IsSolid s h.1)

set_string-IsNumeral :
    (s : Text) (n : ℕ) → IsNumeral s → s ≢ [] → scan 0 s ≡ some n → set_string s ≡ some (pos n)
unfolding set_string is_digit
set_string-IsNumeral [] n h ne e = absurd (ne refl)
set_string-IsNumeral (c ∷ s) n h ne e = ground arith

emit-ne-nil : (fuel n : ℕ) (out : Text) → out ≢ [] → emit fuel n out ≢ []
unfolding emit
emit-ne-nil zero n out h = h
emit-ne-nil (suc fuel) n out h = ground (arith, emit-ne-nil fuel (n / 10) ((48 + n % 10) ∷ out))

pub format-ne-nil : (n : ℕ) → format n ≢ []
unfolding format
format-ne-nil zero = ground arith
format-ne-nil (suc n) =
    unfold emit in ground (arith, emit-ne-nil n (suc n / 10) ((48 + suc n % 10) ∷ []))

-- `SetString` reads back what `String` prints.
pub set_string-format : (n : ℕ) → set_string (format n) ≡ some (pos n)
set_string-format n =
    set_string-IsNumeral (format n) n (format-IsNumeral n) (format-ne-nil n) (scan-format n)
