-- ===== src/Batch/LocalBuilder.antt =====
-- internal/batch/local_builder.go: a batch on a fresh local state.
pub mod Outcome
use ganc_sys.Prelude.{ℕ, List, map, [], ◌∷◌, Bool, Exec, other_failure}
use ganc_sys.Prelude.Effects.{pure, lift, raise_if, ◌>>=◌, ◌>>◌}
use ganc_sys.Dict.{Dict}
use ganc_sys.Text.{Text}
use ganc_sys.State.Local.{LocalState, new_local_state, account}
use ganc_sys.Batch.Settlement.{
  SettlementInputs, SettlementUpdateBuilder, WithdrawalInput, validate_root, build_settlement,
}
use ganc_sys.Batch.Commitments.{build_commitments}
use ganc_sys.Batch.Witness.{AccountWitnessSecret, build_witness}
use ganc_sys.Batch.Apply.{
  BuildInput, BuildOutput, Participant, index_secrets, resolve_secret, collect_participants,
  apply_deposits, apply_requests,
}

-- What the working state gives the witness for one participant; the state was empty before.
abbrev pub fresh_secret : Dict Text Text → LocalState → Participant → AccountWitnessSecret
fresh_secret secrets ls p = record {
  owner = p.owner;
  user_secret = resolve_secret secrets p.owner;
  old_balance = b'0' ∷ [];
  new_balance = (account p.owner p.denom ls).balance;
}

module _ (sha256 : Text → List ℕ) where
  -- The two loops, on the throw-away state.
  unfoldable pub apply_batch : Dict Text Text → BuildInput → Exec LocalState (List WithdrawalInput)
  apply_batch secrets input = do
    apply_deposits sha256 input.deposits
    apply_requests sha256 secrets input.withdraw_requests

  -- `Build`; the first argument is `ctx.Err() != nil`
  unfoldable pub build_local : Bool → BuildInput → Exec SettlementUpdateBuilder BuildOutput
  build_local cancelled input = do
    raise_if cancelled other_failure
    lift (validate_root input.old_state_root)
    secrets ← lift (index_secrets [] input.account_secrets)
    parts ← lift (collect_participants input.deposits input.withdraw_requests)
    let (applied, ls) = apply_batch secrets input (new_local_state sha256)
    withdrawals ← lift applied
    let settlement_inputs : SettlementInputs = record {
      old_state_root = input.old_state_root;
      new_state_root = ls.root;
      deposits = input.deposits;
      withdrawals = withdrawals;
    }
    upd ← build_settlement sha256 settlement_inputs
    wit ← lift (
        build_witness sha256 (record {
          settlement = settlement_inputs;
          accounts = map (fresh_secret secrets ls) parts;
          state_path = [];
        }))
    pure (record {
      settlement_update = upd;
      batch_commitments = build_commitments sha256 upd;
      witness = wit;
    })
