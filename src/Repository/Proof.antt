-- ===== src/Repository/Proof.antt =====
-- internal/repository/proof_repository.go: proof bundles, in the memory store and in Postgres.
use ganc_sys.Prelude.{Bool, false, not, [], ◌∷◌, ◌==◌, Exec, other_failure, if◌then◌else◌}
use ganc_sys.Prelude.Effects.{pure, modify, raise_if, ◌>>◌}
use ganc_sys.Text.{Text, text_eq, codes, is_empty}
use ganc_sys.Types.{ProofBundle}
use ganc_sys.Store.{save_proof_bundle}
use ganc_sys.Repository.Sql.{upsert}
use ganc_sys.Repository.Backend.{Backend, ProofBundleRow, or_panic}
use ganc_sys.Repository.Withdraw.{store_memory, store_postgres}

pub record ProofRepository : Type 0 where
  pub has_pool : Bool
  pub proof_bundle_store : Text

-- `NewProofRepository`
abbrev pub new_proof_repository : ProofRepository
new_proof_repository = record { has_pool = false; proof_bundle_store = store_memory }

-- `NewProofRepositoryWithDB`
abbrev pub new_proof_repository_with_db : Bool → Text → ProofRepository
new_proof_repository_with_db has_pool proof_bundle_store = record {
  has_pool = has_pool;
  proof_bundle_store = if is_empty proof_bundle_store then store_memory else proof_bundle_store;
}

module _ (repo : ProofRepository) where
  -- `saveProofBundlePostgres`
  unfoldable pub save_proof_bundle_postgres : Text → ProofBundle → Exec Backend (Unit {0})
  save_proof_bundle_postgres batch_id bundle = do
    raise_if (not repo.has_pool) other_failure
    raise_if (is_empty batch_id) other_failure
    let row : ProofBundleRow = record {
      batch_id = batch_id;
      proof = bundle.proof;
      public_inputs = bundle.public_inputs;
      verification_key_id = bundle.verification_key_id;
      status = codes "ready";
    }
    modify (λ b. record b { proofs = upsert (λ r. r.batch_id) row b.proofs })

  -- `SaveProofBundle`
  unfoldable pub save_proof : Text → ProofBundle → Exec Backend (Unit {0})
  save_proof batch_id bundle = do
    modify (λ b. record b { store = save_proof_bundle bundle b.store })
    (if repo.proof_bundle_store == store_postgres
        then or_panic (save_proof_bundle_postgres batch_id bundle)
        else pure tt)

-- `GetLocalProofBundle`
abbrev pub local_proof_bundle : ProofBundle
local_proof_bundle = record {
  proof = codes "0xmockproof";
  public_inputs =
      codes "0xrootA"
      ∷ codes "0xrootB"
      ∷ codes "0xdepositsRoot"
      ∷ codes "0xwithdrawalsRoot"
      ∷ codes "0xnullifiersRoot"
      ∷ codes "0xwithdrawOutputsRoot"
      ∷ [];
  verification_key_id = codes "v1";
}
