-- ===== src/Relayer/Cosmos/Broadcast.antt =====
-- internal/relayer/cosmos_client.go: `broadcast` and `waitForTxCommit`.
use ganc_sys.Prelude.{
  ℕ, zero, suc, Bool, false, ◌&&◌, not, List, ◌∷◌, Option, none, some, Result, ok, err, Exec,
  other_failure, eqb, ltb, length, if◌then◌else◌,
}
use ganc_sys.Text.{Text, is_empty}
use ganc_sys.Text.Int64.{greater64}
use ganc_sys.Relayer.Cosmos.Output.{TxOutput, no_output, parse_tx_output, is_sequence_mismatch}

-- A run of the command, and what it printed; `failed` is whether it returned an error.
pub record Run : Type 0 where
  pub args : List Text
  pub output : Text
  pub failed : Bool

-- What the n-th run prints for its arguments, and whether it fails.
abbrev pub Runner : Type 0
Runner = ℕ → List Text → Text × Bool

-- The runs so far, the last one first.
abbrev pub World : Type 0
World = List Run

-- What is read from a run's output beside an error: nothing, as `parseTxOutput` returns it.
abbrev pub output_of : Result TxOutput → TxOutput
output_of (ok tx) = tx
output_of (err _) = no_output

-- What the loop does with an answer: it sends again, or ends with a result.
pub data Verdict : Type 0 where
  again : Verdict
  finished : Result TxOutput → Verdict

-- The number of rounds: at least one.
abbrev pub rounds : ℕ → ℕ
rounds n = if greater64 1 n then 1 else n

module _ (runner : Runner) where
  abbrev pub answer_to : List Text → World → Run
  answer_to args w =
      let (output, failed) = runner (length w) args in
      record { args = args; output = output; failed = failed }

  -- `c.runner.Run`
  abbrev pub run_command : List Text → Exec World Run
  run_command args w = let run = answer_to args w in (ok run, run ∷ w)

  module _ (decode : Text → Option TxOutput) where
    -- Whether an answer may be sent again: it names a sequence mismatch, in the output of a run that
    -- failed without a transaction, or in the log of a transaction with an error code.
    abbrev pub may_retry : Run → Bool
    may_retry run =
        let parsed = parse_tx_output decode run.output in
        let tx = output_of parsed in
        if run.failed && is_empty tx.tx_hash
        then is_sequence_mismatch run.output
        else (elim parsed [
          | err _ ↦ false
          | ok t ↦ not (eqb t.code 0) && is_sequence_mismatch t.raw_log
        ])

    -- The result of an answer that is not sent again.
    abbrev pub result_of : Run → Result TxOutput
    result_of run =
        let parsed = parse_tx_output decode run.output in
        let tx = output_of parsed in
        if run.failed && is_empty tx.tx_hash then err other_failure else parsed

    -- A round of `broadcast`; `more` is `i < attempts-1`
    unfoldable pub judge : Bool → Run → Verdict
    judge more run = if may_retry run && more then again else finished (result_of run)

    module _ (live : ℕ → Bool) where
      -- The rounds that are left, and how the loop ends when the context is done.
      unfoldable pub broadcast_rounds : ℕ → List Text → Exec World TxOutput
      unfolding judge
      broadcast_rounds zero args w = (err other_failure, w)
      broadcast_rounds (suc n) args w =
          let run = answer_to args w in
          let rest = broadcast_rounds n args (run ∷ w) in
          elim (judge (ltb 0 n) run) [
            | finished r ↦ (r, run ∷ w)
            | again ↦ if live (length w) then rest else (err other_failure, run ∷ w)
          ]

      -- `broadcast`
      unfoldable pub broadcast : ℕ → List Text → Exec World TxOutput
      unfolding broadcast_rounds
      broadcast seq_retry_max args = broadcast_rounds (rounds seq_retry_max) args

      -- A round of `waitForTxCommit`: a committed transaction, or none yet.
      abbrev pub committed : Run → Option TxOutput
      committed run =
          if run.failed
          then none
          else elim (parse_tx_output decode run.output) [ ok tx ↦ some tx | err _ ↦ none ]

      unfoldable pub wait_rounds : ℕ → List Text → Exec World TxOutput
      wait_rounds zero args w = (err other_failure, w)
      wait_rounds (suc n) args w =
          let run = answer_to args w in
          let rest = wait_rounds n args (run ∷ w) in
          elim (committed run) [
            | some tx ↦ (ok tx, run ∷ w)
            | none ↦ if ltb 0 n && not (live (length w)) then (err other_failure, run ∷ w) else rest
          ]

      -- `waitForTxCommit`
      unfoldable pub wait_for_tx_commit : ℕ → List Text → Exec World TxOutput
      unfolding wait_rounds
      wait_for_tx_commit confirm_attempts args = wait_rounds (rounds confirm_attempts) args
