-- ===== src/Chain/Local.antt =====
-- internal/chain/local_client.go: a chain that accepts every well-formed deposit. The clock is a
-- parameter.
use ganc_sys.Prelude.{
  ℕ, Bool, true, ◌||◌, not, List, [], ◌∷◌, ◌++◌, Option, none, some, Exec, other_failure,
}
use ganc_sys.Prelude.Effects.{pure, gets, modify, raise_if, ◌>>=◌, ◌>>◌}
use ganc_sys.Text.{Text, codes, is_empty}
use ganc_sys.Text.Int64.{parse_int, format_int, add64, greater64}
use ganc_sys.Hash.{hex_encode}
use ganc_sys.Repository.Withdraw.{piped, first}
use ganc_sys.Chain.{DepositRequest, TxResult, type_deposit}

-- The counter of `LocalClient`, an int.
pub record LocalClient : Type 0 where
  pub next_deposit_seq : ℕ

-- `NewLocalClient`
abbrev pub new_local_client : LocalClient
new_local_client = record { next_deposit_seq = 1 }

-- `err != nil || amount <= 0`
abbrev pub is_not_positive : Option ℕ → Bool
is_not_positive none = true
is_not_positive (some amount) = not (greater64 amount 0)

module _ (sha256 : Text → List ℕ) (now : ℕ) where
  -- `localTxHash`
  unfoldable pub local_tx_hash : List Text → Text
  unfolding piped first hex_encode
  local_tx_hash parts = codes "0x" ++ first 32 (hex_encode (sha256 (piped parts)))

  -- The result of an accepted deposit.
  unfoldable pub deposit_tx : DepositRequest → Text → TxResult
  unfolding local_tx_hash
  deposit_tx req deposit_id = record {
    tx_hash =
        local_tx_hash (codes "deposit" ∷ req.owner ∷ req.denom ∷ req.amount ∷ deposit_id ∷ []);
    height = now;
    events =
        record {
          kind = type_deposit;
          attributes =
              (codes "depositId", deposit_id)
              ∷ (codes "creator", req.owner)
              ∷ (codes "denom", req.denom)
              ∷ (codes "amount", req.amount)
              ∷ [];
        }
        ∷ [];
  }

  -- `Deposit`
  unfoldable pub deposit_local : DepositRequest → Exec LocalClient TxResult
  deposit_local req = do
    raise_if (is_empty req.owner || is_empty req.denom || is_empty req.amount) other_failure
    raise_if (is_not_positive (parse_int req.amount)) other_failure
    seq ← gets (λ c. c.next_deposit_seq)
    modify (λ c. record c { next_deposit_seq = add64 c.next_deposit_seq 1 })
    pure (deposit_tx req (codes "dep-" ++ format_int seq))
