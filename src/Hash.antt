-- ===== src/Hash.antt =====
-- pkg/hash/hash.go. SHA-256 is a parameter: a function from the text, which stands for its UTF-8
-- bytes, to the digest's bytes.
use ganc_sys.Prelude.{
  ℕ, ◌+◌, ◌-◌, ◌/◌, ◌%◌, ◌<◌, ◌≡◌, refl, Bool, List, [], ◌∷◌, ◌++◌, arith, ltb, length, All,
  if◌then◌else◌,
}
use ganc_sys.Text.{Text, has_prefix, drop}

-- `const HexPrefix = "0x"`
abbrev pub hex_prefix : Text
hex_prefix = b'0' ∷ b'x' ∷ []

unfoldable pub hex_digit : ℕ → ℕ
hex_digit d = if ltb d 10 then b'0' + d else b'a' + (d - 10)

-- `hex.EncodeToString`
unfoldable pub hex_encode : List ℕ → Text
unfolding hex_digit
hex_encode [] = []
hex_encode (b ∷ bs) = hex_digit (b / 16) ∷ hex_digit (b % 16) ∷ hex_encode bs

-- What SHA-256 promises: 32 bytes.
pub record IsDigest (sha256 : Text → List ℕ) : Type 0 where
  pub digest_length : (t : Text) → length (sha256 t) ≡ 32
  pub digest_bytes : (t : Text) → All (λ (b : ℕ). b < 256) (sha256 t)

module _ (sha256 : Text → List ℕ) where
  -- `SHA256Hex`, and `SHA256HexString`
  unfoldable pub sha256_hex : Text → Text
  unfolding hex_encode
  sha256_hex t = hex_prefix ++ hex_encode (sha256 t)

unfoldable pub is_hex_prefixed : Text → Bool
unfolding has_prefix
is_hex_prefixed s = has_prefix s hex_prefix

unfoldable pub strip_hex : Text → Text
unfolding is_hex_prefixed drop
strip_hex s = if is_hex_prefixed s then drop 2 s else s

hex_digit_inj : (c d : ℕ) → c < 16 → d < 16 → hex_digit c ≡ hex_digit d → c ≡ d
unfolding hex_digit
hex_digit_inj c d hc hd e = ground arith

-- The hex form tells byte strings apart.
pub hex_encode_inj :
    (s t : List ℕ)
    → All (λ (b : ℕ). b < 256) s
    → All (λ (b : ℕ). b < 256) t
    → hex_encode s ≡ hex_encode t
    → s ≡ t
unfolding hex_encode
hex_encode_inj [] [] hs ht e = refl
hex_encode_inj [] (b ∷ t) hs ht e = cc
hex_encode_inj (a ∷ s) [] hs ht e = cc
hex_encode_inj (a ∷ s) (b ∷ t) hs ht e =
    ground
      (arith, hex_digit_inj (a / 16) (b / 16), hex_digit_inj (a % 16) (b % 16), hex_encode_inj s t)
