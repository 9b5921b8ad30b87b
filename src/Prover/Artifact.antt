-- ===== src/Prover/Artifact.antt =====
-- internal/prover/contract.go and verifier_artifact_validation.go: the artifact of the verifier.
use ganc_sys.Prelude.{
  ℕ, Bool, true, false, ◌&&◌, ◌||◌, not, List, [], ◌∷◌, ◌==◌, Result, other_failure, require,
  length, eqb, ltb, if◌then◌else◌,
}
use ganc_sys.Prelude.Checked.{◌>>◌}
use ganc_sys.Text.{Text, text_eq, codes, is_empty, trim_space, has_prefix}
use ganc_sys.Types.{ProofBundle}

-- `types.VerifierArtifact`; the count is an int, by its 64-bit word.
pub record VerifierArtifact : Type 0 where
  pub verification_key_id : Text
  pub hash_mode : Text
  pub curve : Text
  pub backend : Text
  pub public_input_count : ℕ
  pub public_input_names : List Text
  pub verifying_key : Text

pub record ExpectedArtifact : Type 0 where
  pub verification_key_id : Text
  pub hash_mode : Text

-- `ExpectedPublicInputNames`
abbrev pub expected_public_input_names : List Text
expected_public_input_names =
    codes "settlementUpdate.oldStateRoot"
    ∷ codes "settlementUpdate.newStateRoot"
    ∷ codes "batchCommitments.depositsRoot"
    ∷ codes "batchCommitments.withdrawalsRoot"
    ∷ codes "batchCommitments.nullifiersRoot"
    ∷ codes "batchCommitments.withdrawOutputsRoot"
    ∷ []

abbrev pub is_blank : Text → Bool
is_blank t = is_empty (trim_space t)

-- The loop over the indices of the expected names; the lengths are equal by then.
unfoldable pub same_names : List Text → List Text → Bool
same_names given [] = true
same_names [] (e ∷ es) = false
same_names (g ∷ given) (e ∷ es) = let rest = same_names given es in if g == e then rest else false

-- `ValidateVerifierArtifact`; an index is in bytes, and a key that starts with 0x has two bytes
-- exactly when it has two code points.
unfoldable pub validate_verifier_artifact : VerifierArtifact → Result (Unit {0})
unfolding same_names
validate_verifier_artifact a = do
  require (not (is_blank a.verification_key_id)) other_failure
  require (not (is_blank a.hash_mode)) other_failure
  require (not (is_blank a.curve)) other_failure
  require (not (is_blank a.backend)) other_failure
  require (eqb a.public_input_count (length expected_public_input_names)) other_failure
  require (eqb (length a.public_input_names) (length expected_public_input_names)) other_failure
  require (same_names a.public_input_names expected_public_input_names) other_failure
  require (has_prefix (trim_space a.verifying_key) (codes "0x")) other_failure
  require (ltb 2 (length (trim_space a.verifying_key))) other_failure

-- `ValidateProofBundleMatchesVerifierArtifact`
unfoldable pub validate_proof_bundle_matches : ProofBundle → VerifierArtifact → Result (Unit {0})
validate_proof_bundle_matches bundle a = do
  validate_verifier_artifact a
  require (not (is_blank bundle.verification_key_id)) other_failure
  require (bundle.verification_key_id == a.verification_key_id) other_failure
  require (eqb (length bundle.public_inputs) a.public_input_count) other_failure

-- `ExpectedArtifact.IsZero`
abbrev pub is_zero : ExpectedArtifact → Bool
is_zero e = is_blank e.verification_key_id && is_blank e.hash_mode

-- `ValidateArtifactMatchesExpected`
unfoldable pub validate_artifact_matches_expected :
    VerifierArtifact → ExpectedArtifact → Result (Unit {0})
validate_artifact_matches_expected a expected = do
  validate_verifier_artifact a
  let id = trim_space expected.verification_key_id
  require (is_empty id || a.verification_key_id == id) other_failure
  let mode = trim_space expected.hash_mode
  require (is_empty mode || a.hash_mode == mode) other_failure
