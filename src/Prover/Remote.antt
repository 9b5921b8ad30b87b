-- ===== src/Prover/Remote.antt =====
-- internal/prover/remote_client.go: the answers of the remote prover. A transport is a parameter: the
-- status of the answer and its decoded body, or a failure.
use ganc_sys.Prelude.{
  ℕ, Bool, ◌&&◌, not, Option, none, some, Result, ok, err, other_failure, require, length, eqb, leb,
  ltb, if◌then◌else◌,
}
use ganc_sys.Prelude.Checked.{◌>>=◌, ◌>>◌}
use ganc_sys.Text.{Text, codes, is_empty, trim_space}
use ganc_sys.Types.{ProofBundle}
use ganc_sys.Indexer.Tendermint.{trim_right_of}
use ganc_sys.Prover.Artifact.{VerifierArtifact, validate_verifier_artifact}

-- An HTTP answer: the status, and the body if it decodes. The message of an error body only goes
-- into the text of the error.
pub record Answer (A : Type 0) : Type 0 where
  pub status : ℕ
  pub body : Option A

-- `remoteVerifyResponse`
pub record RemoteVerifyResponse : Type 0 where
  pub valid : Bool

abbrev pub decoded : {A : Type 0} → Option A → Result A
decoded none = err other_failure
decoded (some a) = ok a

-- `resp.StatusCode < 200 || resp.StatusCode >= 300`
abbrev is_success : ℕ → Bool
is_success status = leb 200 status && ltb status 300

-- `NewRemoteClient`: the base URL
unfoldable pub base_url : Text → Text
unfolding trim_right_of
base_url url =
    let t = trim_right_of b'/' (trim_space url) in
    if is_empty t then codes "http://localhost:8090" else t

-- `GenerateProof`, from the answer of `POST /prove`; `none` is a request that failed
unfoldable pub generate_proof_remote : Option (Answer ProofBundle) → Result ProofBundle
generate_proof_remote none = err other_failure
generate_proof_remote (some answer) = do
  require (is_success answer.status) other_failure
  bundle ← decoded answer.body
  require (not (is_empty bundle.proof)) other_failure
  require (eqb (length bundle.public_inputs) 6) other_failure
  require (not (is_empty bundle.verification_key_id)) other_failure
  ok bundle

-- `Verify`, from the answer of `POST /verify`
unfoldable pub verify_remote : Option (Answer RemoteVerifyResponse) → Result (Unit {0})
verify_remote none = err other_failure
verify_remote (some answer) = do
  require (is_success answer.status) other_failure
  response ← decoded answer.body
  require response.valid other_failure

-- `GetVerifierArtifact`, from the answer of `GET /verifier-artifact`
unfoldable pub get_verifier_artifact :
    Text → Option (Answer VerifierArtifact) → Result VerifierArtifact
get_verifier_artifact url none = err other_failure
get_verifier_artifact url (some answer) = do
  require (not (is_empty url)) other_failure
  require (eqb answer.status 200) other_failure
  artifact ← decoded answer.body
  validate_verifier_artifact artifact
  ok artifact
