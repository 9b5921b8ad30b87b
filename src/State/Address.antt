-- ===== src/State/Address.antt =====
-- internal/state/withdraw_address_hash.go
use ganc_sys.Prelude.{ℕ, List, ◌∷◌, ◌++◌, Result, err, ok, invalid_withdraw_address, if◌then◌else◌}
use ganc_sys.Text.{Text, codes, is_empty, trim_space}
use ganc_sys.Hash.{sha256_hex}

abbrev pub withdraw_address_domain_tag : Text
withdraw_address_domain_tag = codes "zkdex/withdrawAddr/v0"

-- `WithdrawAddressHash`
unfoldable pub withdraw_address_hash : (Text → List ℕ) → Text → Result Text
withdraw_address_hash sha256 destination =
    let destination' = trim_space destination in
    if is_empty destination'
    then err invalid_withdraw_address
    else ok (sha256_hex sha256 (withdraw_address_domain_tag ++ (b'|' ∷ destination')))
