-- ===== src/Relayer/Local.antt =====
-- internal/relayer/client.go: what the local relayer accepts.
use ganc_sys.Prelude.{◌≡◌, ◌≢◌, ◌↔◌, ap, true, List, [], ◌∷◌, ok, arith, length}
use ganc_sys.Text.{Text, text_eq, text_beq_iff, is_empty_iff}
use ganc_sys.Relayer.{SubmitBatchInput, expected_inputs, same_inputs, validate_public_inputs}

same_inputs_iff :
    (given es : List Text) → length given ≡ length es → (same_inputs given es ≡ true) ↔ (given ≡ es)
unfolding same_inputs
same_inputs_iff [] [] l = ground arith
same_inputs_iff [] (e ∷ es) l = absurd (ground (arith, l))
same_inputs_iff (g ∷ given) [] l = absurd (ground (arith, l))
same_inputs_iff (g ∷ given) (e ∷ es) l =
    ground (arith, text_beq_iff g e, same_inputs_iff given es (ground (arith, l)))

-- `validatePublicInputs` passes exactly if the batch id and the proof are not empty and the public
-- inputs of the bundle are the expected ones.
pub validate_public_inputs_iff :
    (input : SubmitBatchInput)
    → (validate_public_inputs input ≡ ok tt) ↔ (
        (input.settlement_update.batch_id ≢ [])
        × (input.proof_bundle.proof ≢ [])
        × (input.proof_bundle.public_inputs ≡ expected_inputs input))
unfolding validate_public_inputs
validate_public_inputs_iff input =
    let given = input.proof_bundle.public_inputs in
    let same : length given ≡ 6
        → (same_inputs given (expected_inputs input) ≡ true) ↔ (given ≡ expected_inputs input) =
      same_inputs_iff given (expected_inputs input) in
    let six : given ≡ expected_inputs input → length given ≡ 6 = λ e. ap length e in
    let a = is_empty_iff input.settlement_update.batch_id in
    let b = is_empty_iff input.proof_bundle.proof in
    (
      λ h. (ground (arith, a), ground (arith, b), ground (arith, same)),
      λ h. ground (arith, h.0, h.1, a, b, six h.2, (same (six h.2)).1 h.2),
    )
