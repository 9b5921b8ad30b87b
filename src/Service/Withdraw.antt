-- ===== src/Service/Withdraw.antt =====
-- internal/service/withdraw_service.go: requests and claims of withdrawals. The relayer is a
-- parameter: what it answers to one call.
pub mod Creation
pub mod Claim
use ganc_sys.Prelude.{
  Bool, not, List, Result, Exec, offchain_settlement_unavailable, if◌then◌else◌, ℕ,
}
use ganc_sys.Prelude.Effects.{◌>>=◌, ◌>>◌, pure, raise_if, lift, gets, zoom}
use ganc_sys.Text.{Text, codes}
use ganc_sys.Types.{WithdrawRequest, WithdrawRecord, BalanceSnapshot}
use ganc_sys.State.Request.{WithdrawIntent}
use ganc_sys.State.Manager.{build_withdraw_request}
use ganc_sys.Repository.Backend.{Backend}
use ganc_sys.Repository.Withdraw.{
  WithdrawRepository, next_withdraw_id, save_request, create_withdraw_request, list_requests,
  get_request,
}
use ganc_sys.Repository.Records.{get_record, claim_record, get_local_claim_balance_snapshot}
use ganc_sys.Relayer.{ClaimWithdrawResult}
use ganc_sys.Service.Settlement.{OffchainSettlementService, apply_withdraw_request}

abbrev pub withdraw_default_user_secret : Text
withdraw_default_user_secret = codes "mock-user-secret"

-- `has_settlement` is whether the field `offchainSettlementService` is not nil.
pub record WithdrawService : Type 0 where
  pub repository : WithdrawRepository
  pub offchain_settlement_enabled : Bool
  pub has_settlement : Bool

-- What the service reads and writes.
pub record WithdrawState : Type 0 where
  pub backend : Backend
  pub settlement : OffchainSettlementService

-- `types.ClaimWithdrawResponse`; its `State` is always that of a claim.
pub record ClaimWithdrawResponse : Type 0 where
  pub tx_hash : Text
  pub withdraw_record : WithdrawRecord
  pub balances : BalanceSnapshot

module _ {A : Type 0} where
  abbrev pub on_backend : Exec Backend A → Exec WithdrawState A
  on_backend = zoom (λ s. s.backend) (λ b s. record s { backend = b })

  abbrev pub on_settlement : Exec OffchainSettlementService A → Exec WithdrawState A
  on_settlement = zoom (λ s. s.settlement) (λ t s. record s { settlement = t })

module _ (sha256 : Text → List ℕ) (service : WithdrawService) where
  -- `CreateWithdrawRequest` with the off-chain settlement
  unfoldable pub create_offchain : WithdrawIntent → Exec WithdrawState WithdrawRequest
  create_offchain req = do
    raise_if (not service.has_settlement) offchain_settlement_unavailable
    withdraw_id ← on_backend (next_withdraw_id service.repository)
    built ← gets (λ s. build_withdraw_request req withdraw_id s.settlement.manager)
    withdraw_req ← lift built
    on_settlement (apply_withdraw_request sha256 withdraw_req withdraw_default_user_secret)
    on_backend (save_request service.repository sha256 withdraw_req)

  -- `CreateWithdrawRequest`
  unfoldable pub create_request : WithdrawIntent → Exec WithdrawState WithdrawRequest
  create_request req =
      if service.offchain_settlement_enabled
      then create_offchain req
      else on_backend (create_withdraw_request service.repository sha256 req)

module _ (service : WithdrawService) where
  -- `ListWithdrawRequests`
  abbrev pub list_withdraw_requests_response : Exec WithdrawState (List WithdrawRequest)
  list_withdraw_requests_response = on_backend (list_requests service.repository)

  -- `GetWithdrawRequest`
  abbrev pub get_withdraw_request_response : Text → Exec WithdrawState WithdrawRequest
  get_withdraw_request_response id = on_backend (get_request service.repository id)

  module _ (claim : WithdrawRecord → Result ClaimWithdrawResult) where
    -- `ClaimWithdraw`
    unfoldable pub claim_withdraw : Text → Exec Backend ClaimWithdrawResponse
    claim_withdraw id = do
      entry ← get_record service.repository id
      claimed ← lift (claim entry)
      claimed_record ← claim_record service.repository claimed.withdraw_record.withdraw_id
      balances ← gets get_local_claim_balance_snapshot
      pure (record {
        tx_hash = claimed.tx_hash;
        withdraw_record = claimed_record;
        balances = balances;
      })
