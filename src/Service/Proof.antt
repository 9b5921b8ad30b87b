-- ===== src/Service/Proof.antt =====
-- internal/service/proof_service.go. The prover and its artifact endpoint are parameters; `none` is a
-- prover that provides no artifact.
pub mod Pipeline
use ganc_sys.Prelude.{Option, none, some, Result, ok, err, Exec, ℕ}
use ganc_sys.Prelude.Effects.{◌>>=◌, ◌>>◌, lift, pure}
use ganc_sys.Prelude.Checked
use ganc_sys.Types.{ProofBundle}
use ganc_sys.Repository.Backend.{Backend}
use ganc_sys.Repository.Proof.{ProofRepository, save_proof}
use ganc_sys.Prover.{GenerateProofInput}
use ganc_sys.Prover.Artifact.{VerifierArtifact, validate_proof_bundle_matches}

-- The check against the artifact, for a prover that provides one.
abbrev pub check_artifact : Option (Result VerifierArtifact) → ProofBundle → Result (Unit {0})
check_artifact none bundle = ok tt
check_artifact (some (err e)) bundle = err e
check_artifact (some (ok artifact)) bundle = validate_proof_bundle_matches bundle artifact

module _ (repo : ProofRepository) (prove : GenerateProofInput → Result ProofBundle)
    (artifact : Option (Result VerifierArtifact)) where
  -- `GenerateProof`
  unfoldable pub generate_proof : GenerateProofInput → Exec Backend ProofBundle
  generate_proof req = do
    bundle ← lift (prove req)
    lift (check_artifact artifact bundle)
    save_proof repo req.settlement_update.batch_id bundle
    pure bundle
