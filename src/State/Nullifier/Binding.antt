-- ===== src/State/Nullifier/Binding.antt =====
-- internal/state/nullifier.go: the text that is hashed for a nullifier.
use ganc_sys.Prelude.{
  ◌==◌, ◌⊎◌, subst, ℕ, ◌≡◌, ◌≢◌, refl, sym, ap, ◌∙◌, List, [], ◌∷◌, ◌++◌, arith, ok, false, some,
  inl, inr, Result-cases, Bool-cases,
}
use ganc_sys.Text.{Text, text_eq, text_beq_iff, is_empty, trim_space}
use ganc_sys.Text.Decimal.{pos, set_string, format, is_digit}
use ganc_sys.Text.Decimal.RoundTrip.{IsNumeral, format-IsNumeral, set_string-format}
use ganc_sys.Hash.{hex_encode_inj, IsDigest, hex_encode, sha256_hex}
use ganc_sys.State.Account.{parse_non_negative_amount}
use ganc_sys.State.Nullifier.{nullifier_preimage, nullifier_for}

pub format_inj : (m n : ℕ) → format m ≡ format n → m ≡ n
format_inj m n e =
    let f : some (pos m) ≡ some (pos n) =
      sym (set_string-format m) ∙ ap set_string e ∙ set_string-format n in
    cc f

-- A text cut at its last bar, when no bar stands behind the cut.
bar_not_digit : is_digit b'|' ≡ false
unfolding is_digit
bar_not_digit = refl

no_bar : (s t : Text) → IsNumeral (s ++ (b'|' ∷ t)) → ⊥
no_bar [] t h = cc (h.0, bar_not_digit)
no_bar (c ∷ s) t h = no_bar s t h.1

cut_at_bar :
    (s t : Text) (m n : Text)
    → IsNumeral m
    → IsNumeral n
    → s ++ (b'|' ∷ m) ≡ t ++ (b'|' ∷ n)
    → (s ≡ t) × (m ≡ n)
cut_at_bar [] [] m n hm hn e = (refl, cc)
cut_at_bar [] (d ∷ t) m n hm hn e =
    let f : m ≡ t ++ (b'|' ∷ n) = cc in absurd (no_bar t n (subst IsNumeral f hm))
cut_at_bar (c ∷ s) [] m n hm hn e =
    let f : s ++ (b'|' ∷ m) ≡ n = cc in absurd (no_bar s m (subst IsNumeral (sym f) hn))
cut_at_bar (c ∷ s) (d ∷ t) m n hm hn e =
    let f : s ++ (b'|' ∷ m) ≡ t ++ (b'|' ∷ n) = cc in
    let (same, rest) = cut_at_bar s t m n hm hn f in (cc (same), rest)

nullifier_preimage_inj :
    (s t : Text) (m n : ℕ) → nullifier_preimage s m ≡ nullifier_preimage t n → (s ≡ t) × (m ≡ n)
unfolding nullifier_preimage
nullifier_preimage_inj s t m n e =
    let f : s ++ (b'|' ∷ format m) ≡ t ++ (b'|' ∷ format n) = cc in
    let (same, numerals) =
      cut_at_bar s t (format m) (format n) (format-IsNumeral m) (format-IsNumeral n) f in
    (same, format_inj m n numerals)

-- Two different texts with one digest.
abbrev pub IsCollision : (Text → List ℕ) → Text → Text → Type 0
IsCollision sha256 x y = (x ≢ y) × (sha256 x ≡ sha256 y)

pub sha256_hex_inj :
    (sha256 : Text → List ℕ) (x y : Text)
    → IsDigest sha256
    → sha256_hex sha256 x ≡ sha256_hex sha256 y
    → (x ≡ y) ⊎ IsCollision sha256 x y
unfolding sha256_hex
sha256_hex_inj sha256 x y d e =
    let f : hex_encode (sha256 x) ≡ hex_encode (sha256 y) = cc in
    let same = hex_encode_inj (sha256 x) (sha256 y) (d.digest_bytes x) (d.digest_bytes y) f in
    elim (Bool-cases (x == y)) [
      | inl eq ↦ inl ((text_beq_iff x y).0 eq)
      | inr ne ↦ inr (ground (arith, text_beq_iff x y), same)
    ]

nullifier_for_inversion :
    (sha256 : Text → List ℕ) (secret nonce : Text) {h : Text}
    → nullifier_for sha256 secret nonce ≡ ok h
    → (n : ℕ) × (parse_non_negative_amount nonce ≡ ok n)
      × (h ≡ sha256_hex sha256 (nullifier_preimage (trim_space secret) n))
unfolding nullifier_for
nullifier_for_inversion sha256 secret nonce h = elim (Bool-cases (is_empty (trim_space secret))) [
  | inl bad ↦ absurd (ground arith)
  | inr present ↦ elim (Result-cases (parse_non_negative_amount nonce)) [
    | inr (e, bad) ↦ absurd (ground arith)
    | inl (n, parsed) ↦ (n, parsed, ground arith)
  ]
]

-- Two nullifiers, derived from secrets s and t and from nonce texts that parse to a and b, are
-- equal only if the trimmed secrets are equal and a is b, or if the two different texts that are
-- hashed for them have one digest; for a hash of 32 bytes.
pub nullifier_for_binds :
    (sha256 : Text → List ℕ) (s t m n h : Text) (a b : ℕ)
    → IsDigest sha256
    → parse_non_negative_amount m ≡ ok a
    → parse_non_negative_amount n ≡ ok b
    → nullifier_for sha256 s m ≡ ok h
    → nullifier_for sha256 t n ≡ ok h
    → ((trim_space s ≡ trim_space t) × (a ≡ b))
      ⊎ IsCollision sha256
          (nullifier_preimage (trim_space s) a)
          (nullifier_preimage (trim_space t) b)
nullifier_for_binds sha256 s t m n h a b d pa pb p q =
    let (a', pa', ha) = nullifier_for_inversion sha256 s m p in
    let (b', pb', hb) = nullifier_for_inversion sha256 t n q in
    let ea : a' ≡ a = ground arith in
    let eb : b' ≡ b = ground arith in
    let ha' = subst (λ x. h ≡ sha256_hex sha256 (nullifier_preimage (trim_space s) x)) ea ha in
    let hb' = subst (λ x. h ≡ sha256_hex sha256 (nullifier_preimage (trim_space t) x)) eb hb in
    elim (sha256_hex_inj sha256 _ _ d (sym ha' ∙ hb')) [
      | inr collision ↦ inr collision
      | inl same ↦ inl (nullifier_preimage_inj (trim_space s) (trim_space t) a b same)
    ]
