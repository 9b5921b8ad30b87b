-- ===== src/Service/Guard.antt =====
-- internal/service/batch_service.go: `guardProofContract`, what a proof must name before it is
-- verified.
use ganc_sys.Prelude.{
  ◌≡◌, ◌⊎◌, ◌↔◌, inl, inr, refl, not, ◌||◌, List, [], ◌∷◌, ◌==◌, arith, eqb, length, Result, ok,
  err, Result-cases, require, replace_error, proof_verification_failed, if◌then◌else◌,
}
use ganc_sys.Prelude.Checked.{◌>>=◌, ◌>>◌}
use ganc_sys.Text.{Text, text_eq, text_beq_iff, is_empty, is_empty_iff, trim_space}
use ganc_sys.Types.{SettlementUpdate, BatchCommitments, ProofBundle}
use ganc_sys.Batch.PublicInputs.{build_public_inputs}
use ganc_sys.Batch.PublicInputs.Contract.{IsProvable, public_inputs_of, build_public_inputs_iff}

-- `types.SubmitBatchRequestBody`
pub record SubmitBatchRequestBody : Type 0 where
  pub settlement_update : SettlementUpdate
  pub batch_commitments : BatchCommitments
  pub proof_bundle : ProofBundle

-- The loop over the indices of the expected inputs; the lengths are equal by then, and the clause
-- of an index out of range is not reached.
unfoldable pub compare_inputs : List Text → List Text → Result (Unit {0})
compare_inputs given [] = ok tt
compare_inputs [] (e ∷ es) = err proof_verification_failed
compare_inputs (g ∷ given) (e ∷ es) =
    let rest = compare_inputs given es in
    if not (g == e) then err proof_verification_failed else rest

-- `guardProofContract`; the first argument is `s.expectedVerificationKeyID`
unfoldable pub guard_proof_contract : Text → SubmitBatchRequestBody → Result (Unit {0})
guard_proof_contract expected_id req = do
  require (is_empty expected_id || trim_space req.proof_bundle.verification_key_id == expected_id)
      proof_verification_failed
  expected_inputs ←
      replace_error proof_verification_failed
        (build_public_inputs req.settlement_update req.batch_commitments)
  require (eqb (length req.proof_bundle.public_inputs) (length expected_inputs))
      proof_verification_failed
  compare_inputs req.proof_bundle.public_inputs expected_inputs

compare_inputs_iff :
    (given es : List Text)
    → length given ≡ length es
    → (compare_inputs given es ≡ ok tt) ↔ (given ≡ es)
unfolding compare_inputs
compare_inputs_iff [] [] l = ground arith
compare_inputs_iff [] (e ∷ es) l = absurd (omega (arith, l))
compare_inputs_iff (g ∷ given) [] l = absurd (omega (arith, l))
compare_inputs_iff (g ∷ given) (e ∷ es) l =
    ground (arith, text_beq_iff g e, compare_inputs_iff given es (omega (arith, l)))

-- The key that a proof names is the pinned one, if one is pinned.
abbrev pub IsPinned : Text → ProofBundle → Type 0
IsPinned expected_id bundle =
    (expected_id ≡ []) ⊎ (trim_space bundle.verification_key_id ≡ expected_id)

-- guardProofContract passes a submission exactly if no verification key is pinned or the trimmed
-- key of the bundle is the pinned one, each of the six roots is, up to surrounding spaces, 0x with
-- something behind it, the old root is different from the new, and the bundle's public inputs are
-- those six roots in their order.
pub guard_proof_contract_iff :
    (expected_id : Text) (req : SubmitBatchRequestBody)
    → (guard_proof_contract expected_id req ≡ ok tt) ↔ (
        IsPinned expected_id req.proof_bundle
        × IsProvable req.settlement_update req.batch_commitments
        × (req.proof_bundle.public_inputs
            ≡ public_inputs_of req.settlement_update req.batch_commitments))
unfolding guard_proof_contract
guard_proof_contract_iff expected_id req =
    let upd = req.settlement_update in
    let c = req.batch_commitments in
    let given = req.proof_bundle.public_inputs in
    let pinned = is_empty_iff expected_id in
    let key = text_beq_iff (trim_space req.proof_bundle.verification_key_id) expected_id in
    elim (Result-cases (build_public_inputs upd c)) [
      | inr (e, bad) ↦ (
        λ h. absurd (ground arith),
        λ h. absurd (
            ground (arith, (build_public_inputs_iff upd c (public_inputs_of upd c)).1 (h.1, refl))),
      )
      | inl (es, good) ↦
          let (provable, six) = (build_public_inputs_iff upd c es).0 good in
          let same : length given ≡ length es → (compare_inputs given es ≡ ok tt) ↔ (given ≡ es) =
            compare_inputs_iff given es in
          (
            λ h. (ground (arith, key, pinned), provable, ground (arith, same, six)),
            λ h. ground (arith, key, pinned, h.0, h.2, six, (compare_inputs_iff es es refl).1 refl),
          )
    ]
