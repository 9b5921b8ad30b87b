-- ===== src/Service/Building.antt =====
-- internal/service/batch_service.go: `BuildBatch`. The batch builder and the chain's deposit query are
-- parameters. Of `normalizeManualBatchBuildError`, the test of an error's text is left out: a query
-- error of the chain that says "deposit record not found" stays as it is here.
use ganc_sys.Prelude.{
  Bool, true, false, ◌&&◌, List, [], ◌∷◌, Option, none, some, ◌==◌, Result, ok, err, Error, Exec,
  if◌then◌else◌, other_failure, insufficient_offchain_balance, deposit_not_found,
  manual_batch_deposit_not_found, manual_batch_insufficient_balance,
  offchain_settlement_service_required, ℕ,
}
use ganc_sys.Prelude.Effects.{pure, raise_if, zoom, ◌>>=◌, ◌>>◌}
use ganc_sys.Text.{Text, text_eq, codes}
use ganc_sys.Types.{DepositRecord, WithdrawRequest}
use ganc_sys.Repository.Backend.{Backend}
use ganc_sys.Repository.Batch.{BatchRepository, save_build}
use ganc_sys.Repository.Deposit.{DepositRepository, get_deposit_record}
use ganc_sys.Repository.Withdraw.{WithdrawRepository, get_request}
use ganc_sys.Batch.Settlement.{SettlementUpdateBuilder}
use ganc_sys.Batch.Apply.{BuildInput, BuildOutput}
use ganc_sys.Service.Settlement.{OffchainSettlementService}
use ganc_sys.Service.PendingBatch.{build_pending_batch}
use ganc_sys.Service.Submit.{batch_build_source_pending}

-- The repositories of the batch service, and its build source.
pub record BuildService : Type 0 where
  pub batch_repository : BatchRepository
  pub deposit_repository : DepositRepository
  pub withdraw_repository : WithdrawRepository
  pub build_source : Text

-- What the build handlers read and write.
pub record BuildState : Type 0 where
  pub backend : Backend
  pub settlement_builder : SettlementUpdateBuilder
  pub offchain_settlement : Option OffchainSettlementService

-- `types.BuildBatchRequestBody`
pub record BuildBatchRequestBody : Type 0 where
  pub deposit_ids : List Text
  pub withdraw_ids : List Text

abbrev pub on_backend : {A : Type 0} → Exec Backend A → Exec BuildState A
on_backend = zoom (λ s. s.backend) (λ b s. record s { backend = b })

-- `normalizeManualBatchBuildError`
abbrev pub normalize_error : Error → Error
normalize_error insufficient_offchain_balance = manual_batch_insufficient_balance
normalize_error deposit_not_found = manual_batch_deposit_not_found
normalize_error e = e

abbrev pub normalized : {A : Type 0} → Result A → Result A
normalized (ok a) = ok a
normalized (err e) = err (normalize_error e)

abbrev is_nil : List Text → Bool
is_nil [] = true
is_nil (_ ∷ _) = false

abbrev pub on_builder : {A : Type 0} → Exec SettlementUpdateBuilder A → Exec BuildState A
on_builder = zoom (λ s. s.settlement_builder) (λ t s. record s { settlement_builder = t })

-- `if err != nil { return …, normalizeManualBatchBuildError(err) }`
abbrev pub normalizing : {A : Type 0} → Exec BuildState A → Exec BuildState A
normalizing m s = let (answer, s') = m s in (normalized answer, s')

module _ (service : BuildService) (chain : Text → Result (Option DepositRecord)) where
  abbrev pub deposit_of : Text → Exec BuildState DepositRecord
  deposit_of id s = (get_deposit_record service.deposit_repository chain id s.backend.store, s)

  -- The loop over the deposit ids.
  unfoldable pub get_deposits : List Text → Exec BuildState (List DepositRecord)
  get_deposits [] = pure []
  get_deposits (id ∷ ids) = do r ← normalizing (deposit_of id); rs ← get_deposits ids; pure (r ∷ rs)

  -- The loop over the withdraw ids.
  unfoldable pub get_requests : List Text → Exec BuildState (List WithdrawRequest)
  get_requests [] = pure []
  get_requests (id ∷ ids) = do
    r ← normalizing (on_backend (get_request service.withdraw_repository id))
    rs ← get_requests ids
    pure (r ∷ rs)

  abbrev pub save_output : BuildOutput → Exec BuildState (Unit {0})
  save_output output = on_backend (
      save_build service.batch_repository output.settlement_update output.batch_commitments
        output.witness)

  -- `buildManualBatch`
  unfoldable pub build_manual_batch :
      (BuildInput → Exec SettlementUpdateBuilder BuildOutput)
      → BuildBatchRequestBody
      → Exec BuildState BuildOutput
  unfolding get_deposits get_requests
  build_manual_batch build req = do
    raise_if (is_nil req.deposit_ids && is_nil req.withdraw_ids) other_failure
    deposits ← get_deposits req.deposit_ids
    requests ← get_requests req.withdraw_ids
    let input : BuildInput = record {
      old_state_root = codes "0xrootA";
      deposits = deposits;
      withdraw_requests = requests;
      account_secrets = [];
    }
    output ← normalizing (on_builder (build input))
    save_output output
    pure output

  -- The settlement service's build, when there is one.
  abbrev pub pending_output :
      (Text → List ℕ) → Option OffchainSettlementService → Exec BuildState BuildOutput
  pending_output sha256 none s = (err offchain_settlement_service_required, s)
  pending_output sha256 (some settlement) s =
      let (answer, settlement') = build_pending_batch sha256 [] settlement in
      (answer, record s { offchain_settlement = some settlement' })

  -- `buildPendingBatch`
  unfoldable pub build_pending : (Text → List ℕ) → Exec BuildState BuildOutput
  build_pending sha256 = do
    output ← λ s. pending_output sha256 s.offchain_settlement s
    save_output output
    pure output

  -- `BuildBatch`
  unfoldable pub build_batch :
      (Text → List ℕ)
      → (BuildInput → Exec SettlementUpdateBuilder BuildOutput)
      → BuildBatchRequestBody
      → Exec BuildState BuildOutput
  unfolding build_manual_batch build_pending
  build_batch sha256 build req =
      if service.build_source == batch_build_source_pending
      then build_pending sha256
      else build_manual_batch build req
