-- ===== src/Relayer/Cosmos.antt =====
-- internal/relayer/cosmos_client.go: settlements and claims through the chain's command line.
-- Parameters are the command runner (what the n-th run of the client answers), the JSON codec, the
-- temporary file, and whether the context is still live after the n-th run's delay.
pub mod Output
pub mod Broadcast
pub mod Mismatch
pub mod Retries
pub mod Commit
use ganc_sys.Prelude.{
  ℕ, ◌^◌, Bool, true, not, List, [], ◌∷◌, ◌++◌, map, Option, none, some, Result, ok, err, Exec,
  other_failure, eqb, length, if◌then◌else◌,
}
use ganc_sys.Prelude.Effects.{◌>>=◌, ◌>>◌, pure, raise, lift, raise_if}
use ganc_sys.Prelude.Checked
use ganc_sys.Text.{Text, codes, is_empty, trim_space}
use ganc_sys.Text.Int64.{greater64}
use ganc_sys.Types.{WithdrawRecord}
use ganc_sys.Relayer.{SubmitBatchInput, SubmitBatchResult, ClaimWithdrawResult, unclaimed_record}
use ganc_sys.Relayer.Cosmos.Output.{TxOutput, parse_tx_output}
use ganc_sys.Relayer.Cosmos.Broadcast.{
  Runner, World, Run, run_command, broadcast, wait_for_tx_commit,
}

-- `CosmosConfig`; the ints and durations by their 64-bit words
pub record CosmosConfig : Type 0 where
  pub binary : Text
  pub chain_id : Text
  pub node : Text
  pub from : Text
  pub keyring_backend : Text
  pub home : Text
  pub gas : Text
  pub gas_adjustment : Text
  pub gas_prices : Text
  pub fees : Text
  pub broadcast_mode : Text
  pub wait_for_commit : Bool
  pub confirm_attempts : ℕ
  pub confirm_interval : ℕ
  pub seq_retry_max : ℕ
  pub seq_retry_delay : ℕ

abbrev pub is_blank : Text → Bool
is_blank t = is_empty (trim_space t)

abbrev text_or : Text → Text → Text
text_or fallback t = if is_blank t then fallback else t

-- `if v <= 0 { v = fallback }`
abbrev pub positive_or : ℕ → ℕ → ℕ
positive_or fallback v = if greater64 v 0 then v else fallback

-- `withDefaults`; a second is 10 ^ 9 nanoseconds
unfoldable pub with_defaults : CosmosConfig → CosmosConfig
with_defaults c = record c {
  binary = text_or (codes "obd") c.binary;
  keyring_backend = text_or (codes "test") c.keyring_backend;
  gas = text_or (codes "auto") c.gas;
  gas_adjustment = text_or (codes "1.5") c.gas_adjustment;
  broadcast_mode = text_or (codes "sync") c.broadcast_mode;
  confirm_attempts = positive_or 30 c.confirm_attempts;
  confirm_interval = positive_or (10 ^ 9) c.confirm_interval;
  seq_retry_max = positive_or 5 c.seq_retry_max;
  seq_retry_delay = positive_or (10 ^ 9) c.seq_retry_delay;
}

-- `if strings.TrimSpace(value) != "" { args = append(args, flag, value) }`
abbrev flag_unless_blank : Text → Text → List Text
flag_unless_blank flag value = if is_blank value then [] else flag ∷ value ∷ []

-- `queryTxArgs`
unfoldable pub query_tx_args : CosmosConfig → Text → List Text
query_tx_args c tx_hash =
    (codes "query" ∷ codes "tx" ∷ tx_hash ∷ codes "--output" ∷ codes "json" ∷ [])
    ++ flag_unless_blank (codes "--node") c.node
    ++ flag_unless_blank (codes "--home") c.home

-- `commonTxArgs`
unfoldable pub common_tx_args : CosmosConfig → Text → List Text
common_tx_args c signer =
    (codes "--from"
      ∷ signer
      ∷ codes "--chain-id"
      ∷ c.chain_id
      ∷ codes "--keyring-backend"
      ∷ c.keyring_backend
      ∷ codes "--gas"
      ∷ c.gas
      ∷ codes "--gas-adjustment"
      ∷ c.gas_adjustment
      ∷ codes "--broadcast-mode"
      ∷ c.broadcast_mode
      ∷ codes "--output"
      ∷ codes "json"
      ∷ codes "-y"
      ∷ [])
    ++ flag_unless_blank (codes "--node") c.node
    ++ flag_unless_blank (codes "--home") c.home
    ++ (if is_blank c.fees
        then flag_unless_blank (codes "--gas-prices") c.gas_prices
        else codes "--fees" ∷ c.fees ∷ [])

-- `buildSubmitBatchProofFlags`; `marshal` gives the JSON of the update, of the commitments and of the
-- bundle.
unfoldable pub build_submit_batch_proof_flags :
    (SubmitBatchInput → Text × Text × Text) → SubmitBatchInput → Result (Text × Text × Text)
build_submit_batch_proof_flags marshal input =
    if is_empty input.settlement_update.batch_id
    then err other_failure
    else if is_empty input.proof_bundle.proof
    then err other_failure
    else if not (eqb (length input.proof_bundle.public_inputs) 6)
    then err other_failure
    else ok (marshal input)

module _ (runner : Runner) (decode : Text → Option TxOutput) (live : ℕ → Bool)
    (c : CosmosConfig) where
  -- The wait for the block, when it is asked for; a failed broadcast is refused before it.
  abbrev pub confirm : TxOutput → Exec World TxOutput
  confirm tx =
      if c.wait_for_commit
      then (do
        committed ←
            wait_for_tx_commit runner decode live c.confirm_attempts (query_tx_args c tx.tx_hash)
        raise_if (not (eqb committed.code 0)) other_failure
        pure committed)
      else pure tx

  -- `SubmitBatch`; `file` is the name of the temporary file, or none when it cannot be written
  unfoldable pub submit_batch_cosmos :
      (SubmitBatchInput → Text × Text × Text)
      → Option Text
      → SubmitBatchInput
      → Exec World SubmitBatchResult
  submit_batch_cosmos marshal none input = do
    lift (build_submit_batch_proof_flags marshal input)
    raise other_failure
  submit_batch_cosmos marshal (some file) input = do
    flags ← lift (build_submit_batch_proof_flags marshal input)
    let (update, commitments, bundle) = flags
    tx ← broadcast runner decode live c.seq_retry_max (
        (codes "tx"
          ∷ codes "zkdex"
          ∷ codes "submit-batch-proof"
          ∷ codes "--settlement-update"
          ∷ update
          ∷ codes "--batch-commitments"
          ∷ commitments
          ∷ codes "--proof-bundle"
          ∷ file
          ∷ [])
        ++ common_tx_args c c.from)
    raise_if (not (eqb tx.code 0)) other_failure
    final ← confirm tx
    pure (record {
      tx_hash = final.tx_hash;
      accepted = true;
      proof_status = codes "accepted";
      withdraw_records = map unclaimed_record input.settlement_update.withdrawals;
    })

  -- What `ClaimWithdraw` makes of a run.
  abbrev pub claim_answer : WithdrawRecord → Run → Result ClaimWithdrawResult
  claim_answer r run = elim (parse_tx_output decode run.output) [
    | err e ↦ err other_failure
    | ok tx ↦
        if eqb tx.code 0
        then ok (record { tx_hash = tx.tx_hash; withdraw_record = record r { claimed = true } })
        else err other_failure
  ]

  -- `ClaimWithdraw`. A run that fails and names no transaction, and an output that does not parse,
  -- are both errors: `parseTxOutput` gives no hash beside an error but a decoded one without a hash.
  unfoldable pub claim_withdraw_cosmos : WithdrawRecord → Exec World ClaimWithdrawResult
  claim_withdraw_cosmos r = do
    raise_if (is_empty r.withdraw_id) other_failure
    raise_if r.claimed other_failure
    let signer = trim_space r.destination
    raise_if (is_empty signer) other_failure
    run ← run_command runner (
        (codes "tx" ∷ codes "zkdex" ∷ codes "claim-withdraw" ∷ r.withdraw_id ∷ [])
        ++ common_tx_args c signer)
    lift (claim_answer r run)
