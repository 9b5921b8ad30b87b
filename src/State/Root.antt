-- ===== src/State/Root.antt =====
-- internal/state/root.go
use ganc_sys.Prelude.{ℕ, List, ◌++◌, ◌∷◌}
use ganc_sys.Text.{Text, codes}
use ganc_sys.Hash.{sha256_hex}
use ganc_sys.Types.{Account}
use ganc_sys.State.Json.{marshal_accounts}

abbrev pub state_domain_tag : Text
state_domain_tag = codes "zkdex/state/v1"

-- `ComputeRoot`
unfoldable pub compute_root : (Text → List ℕ) → List Account → Text
unfolding sha256_hex marshal_accounts
compute_root sha256 accounts =
    sha256_hex sha256 (state_domain_tag ++ (b'|' ∷ marshal_accounts accounts))
