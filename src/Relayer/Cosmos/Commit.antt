-- ===== src/Relayer/Cosmos/Commit.antt =====
-- internal/relayer/cosmos_client.go: what an accepted submission rests on.
use ganc_sys.Prelude.{
  ℕ, zero, suc, ◌≡◌, refl, ap, Bool, true, false, ◌&&◌, not, List, [], ◌∷◌, ◌++◌, append_assoc, map,
  Option, some, ok, arith, inl, inr, eqb, ltb, length, Bool-cases, Option-cases, Result-cases,
}
use ganc_sys.Text.{Text, codes}
use ganc_sys.Relayer.{SubmitBatchInput, SubmitBatchResult, unclaimed_record}
use ganc_sys.Relayer.Cosmos.Output.{TxOutput, parse_tx_output}
use ganc_sys.Relayer.Cosmos.Broadcast.{
  Run, Runner, World, answer_to, committed, wait_rounds, wait_for_tx_commit, broadcast, rounds,
}
use ganc_sys.Relayer.Cosmos.{
  CosmosConfig, submit_batch_cosmos, build_submit_batch_proof_flags, confirm, query_tx_args,
  common_tx_args,
}

-- The command line of a submission, with the JSON of its update and of its commitments.
abbrev pub submit_batch_args : CosmosConfig → Text → Text × Text × Text → List Text
submit_batch_args c file flags =
    (codes "tx"
      ∷ codes "zkdex"
      ∷ codes "submit-batch-proof"
      ∷ codes "--settlement-update"
      ∷ flags.0
      ∷ codes "--batch-commitments"
      ∷ flags.1
      ∷ codes "--proof-bundle"
      ∷ file
      ∷ [])
    ++ common_tx_args c c.from

module _ (runner : Runner) (decode : Text → Option TxOutput) (live : ℕ → Bool) where
  -- Behind the runs of w there are others in w', of which the last one was asked with these
  -- arguments, did not fail, and printed this transaction.
  abbrev pub IsCommitted : List Text → TxOutput → World → World → Type 0
  IsCommitted args tx w w' =
      (last : Run) × (polls : List Run) × (w' ≡ last ∷ (polls ++ w))
      × (last ≡ answer_to runner args (polls ++ w))
      × (last.failed ≡ false)
      × (parse_tx_output decode last.output ≡ ok tx)

  committed_run :
      (run : Run) (tx : TxOutput)
      → committed runner decode live run ≡ some tx
      → (run.failed ≡ false) × (parse_tx_output decode run.output ≡ ok tx)
  committed_run run tx h = elim (Bool-cases (run.failed)) [
    | inl bad ↦ absurd (ground (arith, bad))
    | inr fine ↦ elim (Result-cases (parse_tx_output decode run.output)) [
      | inr (e, bad) ↦ absurd (ground (arith, fine, bad))
      | inl (t, good) ↦ (fine, ground (arith, fine, good))
    ]
  ]

  waited :
      (n : ℕ) (args : List Text) (w w' : World) (tx : TxOutput)
      → wait_rounds runner decode live n args w ≡ (ok tx, w')
      → IsCommitted args tx w w'
  unfolding wait_rounds
  waited zero args w w' tx h = absurd (ground (arith, h))
  waited (suc n) args w w' tx h =
      let run = answer_to runner args w in
      elim (Option-cases (committed runner decode live run)) [
        | inr (t, found) ↦
            let (fine, parsed) = committed_run run t found in
            (run, [], ground (arith, h, found), refl, fine, ground (arith, h, found, parsed))
        | inl pending ↦ elim (Bool-cases (ltb 0 n && not (live (length w)))) [
          | inl cancelled ↦ absurd (ground (arith, h, pending, cancelled))
          | inr alive ↦
              let (last, polls, log, asked, fine, parsed) =
                waited n args (run ∷ w) w' tx (rw (pending, alive) at h) in
              let same = append_assoc polls (run ∷ []) w in
              (last, polls ++ (run ∷ []), rw same log, rw same asked, fine, parsed)
        ]
      ]

  module _ (c : CosmosConfig) (marshal : SubmitBatchInput → Text × Text × Text) (file : Text)
      (input : SubmitBatchInput) (result : SubmitBatchResult) (w w' : World) where
    confirmed :
        (tx final : TxOutput) (v : World)
        → c.wait_for_commit ≡ true
        → confirm runner decode live c tx v ≡ (ok final, w')
        → IsCommitted (query_tx_args c tx.tx_hash) final v w' × (final.code ≡ 0)
    unfolding wait_for_tx_commit
    confirmed tx final v waits h =
        let (answer, u) =
          wait_rounds runner decode live (rounds c.confirm_attempts) (query_tx_args c tx.tx_hash)
            v in
        elim (Result-cases answer) [
          | inr (e, bad) ↦ absurd (ground (arith, h, waits, bad))
          | inl (t, good) ↦ elim (Bool-cases (eqb t.code 0)) [
            | inr rejected ↦ absurd (ground (arith, h, waits, good, rejected))
            | inl fine ↦
                let same : (t ≡ final) × (u ≡ w') = ground (arith, h, waits, good, fine) in
                let it =
                  waited (rounds c.confirm_attempts) (query_tx_args c tx.tx_hash) v u t
                    (ap (λ x. (x, u)) good) in
                rw (← same.0, ← same.1) (it, ground (arith, fine))
          ]
        ]

    -- With WaitForCommit, if SubmitBatch returns a result, the broadcast of the submission with its
    -- flags has answered with a transaction of code 0, and behind the runs of the broadcast there
    -- are others of which the last one is the query of that transaction's hash, which did not fail
    -- and printed a transaction with code 0; the result is accepted and has the hash of the latter
    -- and the records of the submitted withdrawals.
    pub submit_batch_cosmos_accepted :
        c.wait_for_commit ≡ true
        → submit_batch_cosmos runner decode live c marshal (some file) input w ≡ (ok result, w')
        → (flags : Text × Text × Text) × (sent final : TxOutput) × (u : World)
          × (build_submit_batch_proof_flags marshal input ≡ ok flags)
          × (broadcast runner decode live c.seq_retry_max (submit_batch_args c file flags) w
              ≡ (ok sent, u))
          × (sent.code ≡ 0)
          × (final.code ≡ 0)
          × IsCommitted (query_tx_args c sent.tx_hash) final u w'
          × (result.accepted ≡ true)
          × (result.tx_hash ≡ final.tx_hash)
          × (result.withdraw_records ≡ map unclaimed_record input.settlement_update.withdrawals)
    unfolding submit_batch_cosmos
    submit_batch_cosmos_accepted waits h =
        elim (Result-cases (build_submit_batch_proof_flags marshal input)) [
          | inr (e, bad) ↦ absurd (ground (arith, h, bad))
          | inl (flags, built) ↦
              let args = submit_batch_args c file flags in
              let (answer, u) = broadcast runner decode live c.seq_retry_max args w in
              elim (Result-cases answer) [
                | inr (e, bad) ↦ absurd (ground (arith, h, built, bad))
                | inl (tx, good) ↦ elim (Bool-cases (eqb tx.code 0)) [
                  | inr rejected ↦ absurd (ground (arith, h, built, good, rejected))
                  | inl fine ↦
                      let (last, v) = confirm runner decode live c tx u in
                      elim (Result-cases last) [
                        | inr (e, bad) ↦ absurd (ground (arith, h, built, good, fine, bad))
                        | inl (final, done) ↦
                            let same : v ≡ w' = ground (arith, h, built, good, fine, done) in
                            let (it, zero_code) =
                              confirmed tx final u waits (ground (arith, done, same)) in
                            (
                              flags,
                              tx,
                              final,
                              u,
                              built,
                              ap (λ x. (x, u)) good,
                              ground (arith, fine),
                              zero_code,
                              it,
                              ground (arith, h, built, good, fine, done),
                              ground (arith, h, built, good, fine, done),
                              ground (arith, h, built, good, fine, done),
                            )
                      ]
                ]
              ]
        ]
