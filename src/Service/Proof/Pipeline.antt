-- ===== src/Service/Proof/Pipeline.antt =====
-- internal/prover, internal/service and internal/relayer in one line: a local proof, the guard in
-- front of the verifier, and the local relayer.
use ganc_sys.Prelude.{
  ℕ, ◌≡◌, ◌≢◌, refl, true, false, List, [], ◌∷◌, map, ok, arith, inr, eqb, length,
}
use ganc_sys.Text.{Text, codes, is_empty, trim_space}
use ganc_sys.Hash.{IsDigest}
use ganc_sys.Types.{SettlementUpdate, BatchCommitments, Witness, ProofBundle}
use ganc_sys.Batch.Settlement.{SettlementInputs, SettlementUpdateBuilder, build_settlement}
use ganc_sys.Batch.Settlement.Build.{build_settlement_iff, settlement_of}
use ganc_sys.Batch.Commitments.{build_commitments}
use ganc_sys.Batch.PublicInputs.Contract.{
  IsHex, IsProvable, public_inputs_of, build_public_inputs_iff, built_settlement_has_public_inputs,
}
use ganc_sys.Service.Guard.{SubmitBatchRequestBody, guard_proof_contract, guard_proof_contract_iff}
use ganc_sys.Prover.{GenerateProofInput, generate_proof_local}
use ganc_sys.Relayer.{
  SubmitBatchInput, SubmitBatchResult, submit_batch_local, validate_public_inputs, hash_json,
  unclaimed_record,
}
use ganc_sys.Relayer.Local.{validate_public_inputs_iff}

hex_is_not_empty : (t : Text) → IsHex t → is_empty t ≡ false
unfolding trim_space
hex_is_not_empty [] (digits, e, _) = absurd (ground (arith, e))
hex_is_not_empty (c ∷ t) h = refl

has_entry : {A : Type 0} (xs : List A) → xs ≢ [] → eqb (length xs) 0 ≡ false
has_entry [] h = absurd (h refl)
has_entry (x ∷ xs) h = ground arith

module _ (sha256 : Text → List ℕ) (marshal : GenerateProofInput → Text)
    (marshal_batch : SubmitBatchInput → Text) (upd : SettlementUpdate) (c : BatchCommitments)
    (witness : Witness) where
  abbrev pub proof_input : GenerateProofInput
  proof_input = record { settlement_update = upd; batch_commitments = c; witness = witness }

  abbrev pub local_bundle : ProofBundle
  local_bundle = record {
    proof = hash_json sha256 (codes "local-proof") (marshal proof_input);
    public_inputs = public_inputs_of upd c;
    verification_key_id = codes "local-v1";
  }

  abbrev pub body : SubmitBatchRequestBody
  body = record { settlement_update = upd; batch_commitments = c; proof_bundle = local_bundle }

  abbrev pub relayed : SubmitBatchInput
  relayed = record { settlement_update = upd; batch_commitments = c; proof_bundle = local_bundle }

  proved :
      IsProvable upd c
      → eqb (length witness.accounts) 0 ≡ false
      → generate_proof_local sha256 marshal proof_input ≡ ok local_bundle
  unfolding generate_proof_local
  proved h some_account = ground (
    arith,
    some_account,
    hex_is_not_empty upd.old_state_root h.old_root,
    hex_is_not_empty upd.new_state_root h.new_root,
    hex_is_not_empty c.deposits_root h.deposits,
    hex_is_not_empty c.withdrawals_root h.withdrawals,
    hex_is_not_empty c.nullifiers_root h.nullifiers,
    hex_is_not_empty c.withdraw_outputs_root h.outputs,
  )

  hash_is_not_empty : (label raw : Text) → hash_json sha256 label raw ≢ []
  unfolding hash_json
  hash_is_not_empty label raw = ground arith

  relayed_ok :
      upd.batch_id ≢ []
      → submit_batch_local sha256 marshal_batch relayed
        ≡ ok (record {
          tx_hash = hash_json sha256 (codes "local-submit-batch") (marshal_batch relayed);
          accepted = true;
          proof_status = codes "accepted";
          withdraw_records = map unclaimed_record upd.withdrawals;
        })
  unfolding submit_batch_local
  relayed_ok named =
      let valid : validate_public_inputs relayed ≡ ok tt =
        (validate_public_inputs_iff relayed).1
          (named, hash_is_not_empty (codes "local-proof") (marshal proof_input), refl) in
      rw valid refl

module _ (sha256 : Text → List ℕ) (digest : IsDigest sha256) (marshal : GenerateProofInput → Text)
    (marshal_batch : SubmitBatchInput → Text) where
  -- Every settlement that is built goes through the local pipeline: with its commitments and a
  -- witness of at least one account, the local prover makes a bundle, the guard passes it with the
  -- key pinned to the local one, and the local relayer accepts the submission with one unclaimed
  -- record for each of its withdrawals; for a hash of 32 bytes.
  pub local_pipeline :
      (input : SettlementInputs) (b b' : SettlementUpdateBuilder) (upd : SettlementUpdate)
      (witness : Witness)
      → build_settlement sha256 input b ≡ (ok upd, b')
      → witness.accounts ≢ []
      → (bundle : ProofBundle) × (result : SubmitBatchResult) × (generate_proof_local sha256 marshal
            (record {
              settlement_update = upd;
              batch_commitments = build_commitments sha256 upd;
              witness = witness;
            })
          ≡ ok bundle)
        × (guard_proof_contract (codes "local-v1") (record {
          settlement_update = upd;
          batch_commitments = build_commitments sha256 upd;
          proof_bundle = bundle;
        })
            ≡ ok tt)
        × (submit_batch_local sha256 marshal_batch (record {
          settlement_update = upd;
          batch_commitments = build_commitments sha256 upd;
          proof_bundle = bundle;
        })
            ≡ ok result)
        × (result.accepted ≡ true)
        × (result.withdraw_records ≡ map unclaimed_record upd.withdrawals)
  local_pipeline input b b' upd witness h some_account =
      let c = build_commitments sha256 upd in
      let provable : IsProvable upd c =
        ((build_public_inputs_iff upd c _).0
          (built_settlement_has_public_inputs sha256 digest input b b' upd h)).0 in
      let whole : upd ≡ settlement_of input b =
        ((build_settlement_iff sha256 input b b' upd).0 h).1 in
      let named : upd.batch_id ≢ [] = ground (arith, whole) in
      (
        local_bundle sha256 marshal marshal_batch upd c witness,
        _,
        proved sha256 marshal marshal_batch upd c witness provable
            (has_entry witness.accounts some_account),
        (guard_proof_contract_iff (codes "local-v1")
              (body sha256 marshal marshal_batch upd c witness)).1
            (inr (unfold trim_space in refl), provable, refl),
        relayed_ok sha256 marshal marshal_batch upd c witness named,
        refl,
        refl,
      )
