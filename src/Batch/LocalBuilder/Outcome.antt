-- ===== src/Batch/LocalBuilder/Outcome.antt =====
-- internal/batch/local_builder.go: the operations and the artifacts of a local build.
use ganc_sys.Prelude.{
  ℕ, ◌≡◌, refl, ap, sym, subst, ◌∙◌, ◌++◌, map, List, [], ◌∷◌, Bool, arith, All2, ok, Result-cases,
  inl, inr, Bool-cases,
}
use ganc_sys.Dict.{Dict}
use ganc_sys.Text.{Text, trim_space}
use ganc_sys.Types.{DepositRecord, WithdrawRequest}
use ganc_sys.State.Nullifier.{nullifier_for}
use ganc_sys.State.Address.{withdraw_address_hash}
use ganc_sys.State.Local.{LocalState, new_local_state, apply_deposit, apply_withdrawal}
use ganc_sys.State.Local.History.{Op, deposit, withdraw, step, run}
use ganc_sys.Batch.Settlement.{
  SettlementInputs, SettlementUpdateBuilder, WithdrawalInput, build_settlement, validate_root,
}
use ganc_sys.Batch.Settlement.Build.{IsSettleable, settlement_of, build_settlement_iff}
use ganc_sys.Batch.Witness.{AccountWitnessSecret, build_witness}
use ganc_sys.Batch.Commitments.{build_commitments}
use ganc_sys.Batch.Witness.Balance.{IsWitnessed, build_witness_sound}
use ganc_sys.Batch.Apply.{
  BuildInput, BuildOutput, index_secrets, collect_participants, apply_deposits, apply_request,
  apply_requests, resolve_secret,
}
use ganc_sys.Batch.LocalBuilder.{apply_batch, build_local, fresh_secret}

-- The operations of a batch, in the order in which the builder applies them.
abbrev pub withdraw_of : WithdrawalInput → Op
withdraw_of w = withdraw w.request w.nullifier

abbrev pub operations : List DepositRecord → List WithdrawalInput → List Op
operations deposits withdrawals = map deposit deposits ++ map withdraw_of withdrawals

module _ (sha256 : Text → List ℕ) where
  run-append :
      (ops more : List Op) (s : LocalState)
      → run sha256 (ops ++ more) s ≡ run sha256 more (run sha256 ops s)
  unfolding run
  run-append [] more s = refl
  run-append (op ∷ ops) more s = run-append ops more (step sha256 op s).1

  apply_deposits-run :
      (ds : List DepositRecord) (s s' : LocalState)
      → apply_deposits sha256 ds s ≡ (ok tt, s')
      → s' ≡ run sha256 (map deposit ds) s
  unfolding apply_deposits run step
  apply_deposits-run [] s s' h = ground arith
  apply_deposits-run (d ∷ ds) s s' h = elim (Result-cases (apply_deposit sha256 d s).0) [
    | inr (e, bad) ↦ absurd (ground arith)
    | inl (root, good) ↦ apply_deposits-run ds (apply_deposit sha256 d s).1 s' (ground arith)
  ]

  apply_request-step :
      (secrets : Dict Text Text) (req : WithdrawRequest) (s s' : LocalState) (w : WithdrawalInput)
      → apply_request sha256 secrets req s ≡ (ok w, s')
      → (w.request ≡ req) × (s' ≡ (apply_withdrawal sha256 req w.nullifier s).1)
  unfolding apply_request
  apply_request-step secrets req s s' w h =
      let secret = resolve_secret secrets (trim_space req.owner) in
      elim (Result-cases (nullifier_for sha256 secret req.nonce)) [
        | inr (e, bad) ↦ absurd (ground arith)
        | inl (nullifier, derived) ↦
            elim (Result-cases (withdraw_address_hash sha256 req.destination)) [
              | inr (e, bad) ↦ absurd (ground arith)
              | inl (hash, hashed) ↦
                  elim (Result-cases (apply_withdrawal sha256 req nullifier s).0) [
                    | inr (e, bad) ↦ absurd (ground arith)
                    | inl (root, good) ↦ ground arith
                  ]
            ]
      ]

  apply_requests-run :
      (secrets : Dict Text Text) (reqs : List WithdrawRequest) (s s' : LocalState)
      (ws : List WithdrawalInput)
      → apply_requests sha256 secrets reqs s ≡ (ok ws, s')
      → (map (λ w. w.request) ws ≡ reqs) × (s' ≡ run sha256 (map withdraw_of ws) s)
  unfolding apply_requests run step
  apply_requests-run secrets [] s s' ws h = ground arith
  apply_requests-run secrets (req ∷ reqs) s s' ws h =
      let first = apply_request sha256 secrets req s in
      let (r, s₁) = first in
      elim (Result-cases first.0) [
        | inr (e, bad) ↦ absurd (ground arith)
        | inl (w, good) ↦ elim (Result-cases (apply_requests sha256 secrets reqs first.1).0) [
          | inr (e, bad) ↦ absurd (ground arith)
          | inl (rest, goods) ↦
              let (same, moved) = apply_request-step secrets req s first.1 w (ground arith) in
              let (sames, run_rest) =
                apply_requests-run secrets reqs first.1
                  (apply_requests sha256 secrets reqs first.1).1 rest (ground arith) in
              let whole : ws ≡ w ∷ rest = ground arith in
              ground (arith, whole, same, moved, sames, run_rest)
        ]
      ]

  apply_batch-run :
      (secrets : Dict Text Text) (input : BuildInput) (s s' : LocalState)
      (ws : List WithdrawalInput)
      → apply_batch sha256 secrets input s ≡ (ok ws, s')
      → (map (λ w. w.request) ws ≡ input.withdraw_requests)
        × (s' ≡ run sha256 (operations input.deposits ws) s)
  unfolding apply_batch
  apply_batch-run secrets input s s' ws h =
      let deposited = apply_deposits sha256 input.deposits s in
      elim (Result-cases deposited.0) [
        | inr (e, bad) ↦ absurd (ground arith)
        | inl (u, good) ↦
            let moved = apply_deposits-run input.deposits s deposited.1 (ground arith) in
            let (same, rest) =
              apply_requests-run secrets input.withdraw_requests deposited.1 s' ws (ground arith) in
            (
              same,
              ground (
                arith,
                moved,
                rest,
                run-append (map deposit input.deposits) (map withdraw_of ws) s,
              ),
            )
      ]

  -- A batch that the local builder has built.
  pub record IsLocalBatch (input : BuildInput) (b : SettlementUpdateBuilder) (out : BuildOutput)
      : Type 0 where
    pub withdrawals : List WithdrawalInput
    pub accounts : List AccountWitnessSecret
    pub requests : map (λ w. w.request) withdrawals ≡ input.withdraw_requests
    pub settlement : SettlementInputs
    pub inputs : settlement ≡ record {
      old_state_root = input.old_state_root;
      new_state_root =
          (run sha256 (operations input.deposits withdrawals) (new_local_state sha256)).root;
      deposits = input.deposits;
      withdrawals = withdrawals;
    }
    pub denom : Text
    pub settleable : IsSettleable sha256 settlement denom
    pub update : out.settlement_update ≡ settlement_of settlement b
    pub commitments : out.batch_commitments ≡ build_commitments sha256 out.settlement_update
    pub witnessed : All2 (IsWitnessed sha256 settlement) accounts out.witness.accounts

  -- A batch that the local builder returns has as new root the root that the batch's deposits and
  -- then its withdrawals, run in order on an empty state, lead to; its update is the settlement
  -- builder's for the input's deposits and requests, its commitments are the update's, and its
  -- witness accounts are checked against the settlement as the witness builder does.
  pub build_local_sound :
      (cancelled : Bool) (input : BuildInput) (b b' : SettlementUpdateBuilder) (out : BuildOutput)
      → build_local sha256 cancelled input b ≡ (ok out, b')
      → IsLocalBatch input b out
  unfolding build_local
  build_local_sound cancelled input b b' out h = elim (Bool-cases cancelled) [
    | inl bad ↦ absurd (ground arith)
    | inr _ ↦ elim (Result-cases (validate_root input.old_state_root)) [
      | inr (e, bad) ↦ absurd (ground arith)
      | inl (u, rooted) ↦ elim (Result-cases (index_secrets [] input.account_secrets)) [
        | inr (e, bad) ↦ absurd (ground arith)
        | inl (secrets, indexed) ↦
            elim (Result-cases (collect_participants input.deposits input.withdraw_requests)) [
              | inr (e, bad) ↦ absurd (ground arith)
              | inl (parts, collected) ↦
                  let applied = apply_batch sha256 secrets input (new_local_state sha256) in
                  elim (Result-cases applied.0) [
                    | inr (e, bad) ↦ absurd (ground arith)
                    | inl (ws, good) ↦
                        let ls = applied.1 in
                        let (same, moved) =
                          apply_batch-run secrets input (new_local_state sha256) ls ws
                            (ground arith) in
                        let settlement : SettlementInputs = record {
                          old_state_root = input.old_state_root;
                          new_state_root = ls.root;
                          deposits = input.deposits;
                          withdrawals = ws;
                        } in
                        let built = build_settlement sha256 settlement b in
                        elim (Result-cases built.0) [
                          | inr (e, bad) ↦ absurd (ground arith)
                          | inl (upd, settled) ↦
                              let accounts = map (fresh_secret secrets ls) parts in
                              elim (Result-cases (
                                build_witness sha256 (record {
                                  settlement = settlement;
                                  accounts = accounts;
                                  state_path = [];
                                }))) [
                                  | inr (e, bad) ↦ absurd (ground arith)
                                  | inl (wit, witnessed) ↦
                                      let ((denom, settleable), update, next) =
                                        (build_settlement_iff sha256 settlement b built.1 upd).0
                                          (ground arith) in
                                      let whole : out ≡ record {
                                        settlement_update = upd;
                                        batch_commitments = build_commitments sha256 upd;
                                        witness = wit;
                                      } =
                                        ground arith in
                                      record {
                                        withdrawals = ws;
                                        accounts = accounts;
                                        requests = same;
                                        settlement = settlement;
                                        inputs = ground (arith, ap (λ t. t.root) moved);
                                        denom = denom;
                                        settleable = settleable;
                                        update = ap (λ o. o.settlement_update) whole ∙ update;
                                        commitments = ground (arith, whole);
                                        witnessed =
                                            subst
                                              (λ o.
                                                All2 (IsWitnessed sha256 settlement) accounts
                                                  o.witness.accounts)
                                              (sym whole)
                                              (build_witness_sound sha256
                                                (record {
                                                  settlement = settlement;
                                                  accounts = accounts;
                                                  state_path = [];
                                                })
                                                wit witnessed).0;
                                      }
                                ]
                        ]
                  ]
            ]
      ]
    ]
  ]
