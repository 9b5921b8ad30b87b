-- ===== src/Batch/SnapshotBuilder.antt =====
-- internal/batch/snapshot_builder.go: a batch on a snapshot of the pending state.
use ganc_sys.Prelude.{ℕ, List, map, [], Bool, Exec, other_failure}
use ganc_sys.Prelude.Effects.{pure, lift, raise_if, ◌>>=◌, ◌>>◌}
use ganc_sys.Dict.{Dict}
use ganc_sys.Text.{Text}
use ganc_sys.State.Local.{LocalState, account}
use ganc_sys.State.Manager.{
  OffchainStateManager, Snapshot, take_snapshot, snapshot_account, new_local_state_from_snapshot,
}
use ganc_sys.Batch.Settlement.{
  SettlementInputs, SettlementUpdateBuilder, validate_root, build_settlement,
}
use ganc_sys.Batch.Commitments.{build_commitments}
use ganc_sys.Batch.Witness.{AccountWitnessSecret, build_witness}
use ganc_sys.Batch.Apply.{
  BuildInput, BuildOutput, Participant, index_secrets, resolve_secret, collect_participants,
}
use ganc_sys.Batch.LocalBuilder.{apply_batch}

-- The balances of one participant before and after the batch.
abbrev pub snapshot_secret :
    Dict Text Text → Snapshot → LocalState → Participant → AccountWitnessSecret
snapshot_secret secrets snap ls p = record {
  owner = p.owner;
  user_secret = resolve_secret secrets p.owner;
  old_balance = (snapshot_account p.owner p.denom snap).balance;
  new_balance = (account p.owner p.denom ls).balance;
}

module _ (sha256 : Text → List ℕ) where
  -- `Build`; the manager is read and not changed
  unfoldable pub build_snapshot :
      Bool → BuildInput → OffchainStateManager → Exec SettlementUpdateBuilder BuildOutput
  build_snapshot cancelled input manager = do
    raise_if cancelled other_failure
    secrets ← lift (index_secrets [] input.account_secrets)
    parts ← lift (collect_participants input.deposits input.withdraw_requests)
    let snap = take_snapshot manager
    lift (validate_root snap.root)
    let (applied, working) =
        apply_batch sha256 secrets input (new_local_state_from_snapshot sha256 snap)
    withdrawals ← lift applied
    let settlement_inputs : SettlementInputs = record {
      old_state_root = snap.root;
      new_state_root = working.root;
      deposits = input.deposits;
      withdrawals = withdrawals;
    }
    upd ← build_settlement sha256 settlement_inputs
    wit ← lift (
        build_witness sha256 (record {
          settlement = settlement_inputs;
          accounts = map (snapshot_secret secrets snap working) parts;
          state_path = [];
        }))
    pure (record {
      settlement_update = upd;
      batch_commitments = build_commitments sha256 upd;
      witness = wit;
    })
