-- ===== src/Repository/Batch.antt =====
-- internal/repository/batch_repository.go: builds and submissions of batches, in the memory store and
-- in Postgres. A transaction is one step; `json.Marshal` of the columns does not fail on these types.
use ganc_sys.Prelude.{
  Bool, true, not, List, [], ◌∷◌, Option, none, some, ◌==◌, Exec, other_failure, if◌then◌else◌,
  false,
}
use ganc_sys.Prelude.Effects.{pure, raise, modify, raise_if, ◌>>◌}
use ganc_sys.Text.{Text, text_eq, codes, is_empty}
use ganc_sys.Types.{SettlementUpdate, BatchCommitments, Witness, WithdrawRecord}
use ganc_sys.Store.{save_batch_build, save_batch_submitted}
use ganc_sys.Repository.Sql.{upsert}
use ganc_sys.Repository.Backend.{
  Backend, BatchBuildRow, SubmitBatchRow, WithdrawRecordRow, or_panic,
}
use ganc_sys.Repository.Withdraw.{store_memory, store_postgres}
use ganc_sys.Repository.Records.{breaks_record_index}

pub record BatchRepository : Type 0 where
  pub has_pool : Bool
  pub batch_build_store : Text
  pub submit_batch_store : Text

-- `NewBatchRepository`
abbrev pub new_batch_repository : BatchRepository
new_batch_repository = record {
  has_pool = false;
  batch_build_store = store_memory;
  submit_batch_store = store_memory;
}

abbrev or_memory : Text → Text
or_memory t = if is_empty t then store_memory else t

abbrev first_or_memory : List Text → Text
first_or_memory [] = store_memory
first_or_memory (t ∷ _) = or_memory t

-- `NewBatchRepositoryWithDB`
abbrev pub new_batch_repository_with_db : Bool → Text → List Text → BatchRepository
new_batch_repository_with_db has_pool batch_build_store submit_batch_stores = record {
  has_pool = has_pool;
  batch_build_store = or_memory batch_build_store;
  submit_batch_store = first_or_memory submit_batch_stores;
}

-- The loop of `saveBatchSubmitResultPostgres` over the records; `none` is a violated index, which
-- rolls the transaction back.
unfoldable pub upsert_record_rows :
    Text → List WithdrawRecord → List WithdrawRecordRow → Option (List WithdrawRecordRow)
upsert_record_rows tx_hash [] rows = some rows
upsert_record_rows tx_hash (r ∷ rs) rows =
    let row : WithdrawRecordRow = record { entry = r; tx_hash = tx_hash } in
    let rest = upsert_record_rows tx_hash rs (upsert (λ w. w.entry.withdraw_id) row rows) in
    if breaks_record_index r rows then none else rest

module _ (repo : BatchRepository) where
  -- `saveBatchBuildPostgres`
  unfoldable pub save_batch_build_postgres :
      SettlementUpdate → BatchCommitments → Witness → Exec Backend (Unit {0})
  save_batch_build_postgres update commitments witness = do
    raise_if (not repo.has_pool) other_failure
    let row : BatchBuildRow = record {
      batch_id = update.batch_id;
      old_state_root = update.old_state_root;
      new_state_root = update.new_state_root;
      settlement_update = update;
      batch_commitments = commitments;
      witness = witness;
      status = codes "built";
    }
    modify (λ b. record b { builds = upsert (λ r. r.batch_id) row b.builds })

  -- `SaveBatchBuild`
  unfoldable pub save_build :
      SettlementUpdate → BatchCommitments → Witness → Exec Backend (Unit {0})
  save_build update commitments witness = do
    modify (λ b. record b { store = save_batch_build update commitments b.store })
    (if repo.batch_build_store == store_postgres
        then or_panic (save_batch_build_postgres update commitments witness)
        else pure tt)

  -- The commit of the transaction, or its rollback.
  abbrev pub commit_submit :
      SubmitBatchRow → Option (List WithdrawRecordRow) → Exec Backend (Unit {0})
  commit_submit row none = raise other_failure
  commit_submit row (some records) =
      modify (λ b. record b { submits = upsert (λ r. r.batch_id) row b.submits; records = records })

  -- `saveBatchSubmitResultPostgres`
  unfoldable pub save_submit_result_postgres :
      SettlementUpdate → Text → Bool → Text → List WithdrawRecord → Exec Backend (Unit {0})
  unfolding upsert_record_rows
  save_submit_result_postgres update tx_hash accepted proof_status records = do
    raise_if (not repo.has_pool) other_failure
    raise_if (is_empty update.batch_id) other_failure
    let row : SubmitBatchRow = record {
      batch_id = update.batch_id;
      tx_hash = tx_hash;
      accepted = accepted;
      proof_status = if is_empty proof_status then codes "accepted" else proof_status;
    }
    λ b. commit_submit row (upsert_record_rows tx_hash records b.records) b

  -- `SaveBatchSubmitResult`
  unfoldable pub save_submit_result :
      SettlementUpdate
      → BatchCommitments
      → Text
      → Bool
      → Text
      → List WithdrawRecord
      → Exec Backend (Unit {0})
  save_submit_result update commitments tx_hash accepted proof_status records = do
    modify (λ b. record b { store = save_batch_submitted update commitments records b.store })
    (if repo.submit_batch_store == store_postgres
        then or_panic (save_submit_result_postgres update tx_hash accepted proof_status records)
        else pure tt)

  -- `SaveBatchSubmitted`
  abbrev pub save_submitted :
      SettlementUpdate → BatchCommitments → List WithdrawRecord → Exec Backend (Unit {0})
  save_submitted update commitments records =
      save_submit_result update commitments [] true (codes "accepted") records

-- `GetLocalSettlementUpdate`
abbrev pub local_settlement_update : SettlementUpdate
local_settlement_update = record {
  batch_id = codes "batch-1";
  old_state_root = codes "0xrootA";
  new_state_root = codes "0xrootB";
  deposits =
      record {
        deposit_id = codes "dep-1";
        owner = codes "cosmos1alice";
        denom = codes "uusdc";
        amount = codes "100";
      }
      ∷ [];
  withdrawals =
      record {
        withdraw_id = codes "wd-1";
        owner = codes "cosmos1alice";
        denom = codes "uusdc";
        amount = codes "40";
        destination = codes "cosmos1alice";
        destination_hash = codes "0xmockdestinationhash";
        nullifier = codes "0xmocknullifier";
      }
      ∷ [];
}

-- `GetLocalBatchCommitments`
abbrev pub local_batch_commitments : BatchCommitments
local_batch_commitments = record {
  deposits_root = codes "0xdepositsRoot";
  withdrawals_root = codes "0xwithdrawalsRoot";
  nullifiers_root = codes "0xnullifiersRoot";
  withdraw_outputs_root = codes "0xwithdrawOutputsRoot";
}

-- `GetLocalWitness`; the state path is nil.
abbrev pub local_witness : Witness
local_witness = record {
  accounts =
      record {
        owner = codes "cosmos1alice";
        user_secret = codes "mock-user-secret";
        nonce = codes "1";
        old_balance = codes "0";
        new_balance = codes "60";
      }
      ∷ [];
  state_path = [];
}
