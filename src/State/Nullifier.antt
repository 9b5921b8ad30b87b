-- ===== src/State/Nullifier.antt =====
-- internal/state/nullifier.go
pub mod Binding
use ganc_sys.Prelude.{ℕ, List, ◌∷◌, ◌++◌, Result, err, ok, invalid_nullifier_input, if◌then◌else◌}
use ganc_sys.Text.{Text, codes, is_empty, trim_space}
use ganc_sys.Text.Decimal.{format}
use ganc_sys.Hash.{sha256_hex}
use ganc_sys.State.Account.{parse_non_negative_amount}

abbrev pub nullifier_domain_tag : Text
nullifier_domain_tag = codes "zkdex/nullifier/v0"

-- The text that is hashed.
unfoldable pub nullifier_preimage : Text → ℕ → Text
nullifier_preimage secret nonce = nullifier_domain_tag ++ (b'|' ∷ (secret ++ (b'|' ∷ format nonce)))

-- `NullifierFor`
unfoldable pub nullifier_for : (Text → List ℕ) → Text → Text → Result Text
nullifier_for sha256 user_secret nonce =
    let secret = trim_space user_secret in
    if is_empty secret
    then err invalid_nullifier_input
    else elim (parse_non_negative_amount nonce) [
      | err e ↦ err invalid_nullifier_input
      | ok parsed ↦ ok (sha256_hex sha256 (nullifier_preimage secret parsed))
    ]
