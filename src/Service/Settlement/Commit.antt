-- ===== src/Service/Settlement/Commit.antt =====
-- internal/service/offchain_settlement_service.go: the cursor and the rows after `CommitBatch`.
use ganc_sys.Prelude.{
  ◌≡◌, ◌==◌, ==_refl, List, [], ◌∷◌, true, false, arith, ok, err, Error, Result-cases, inl, inr,
  record_not_found,
}
use ganc_sys.Text.{Text, text_eq, text_beq_iff, is_empty}
use ganc_sys.Repository.Sql.{update_where, upsert}
use ganc_sys.Repository.Settlement.{
  OffchainStateCursor, PendingDepositTransition, PendingWithdrawalTransition, find_cursor,
  get_cursor, upsert_cursor, status_committed,
}
use ganc_sys.Repository.Settlement.Batches.{mark_by_batch, mark_committed}
use ganc_sys.Service.Settlement.{
  OffchainSettlementService, commit_batch, get_or_init_cursor, get_or_init_cursor_with_root,
}

find_cursor-name :
    (name : Text) (cs : List OffchainStateCursor) (c : OffchainStateCursor)
    → find_cursor name cs ≡ ok c
    → c.name ≡ name
unfolding find_cursor
find_cursor-name name [] c h = absurd (ground arith)
find_cursor-name name (d ∷ cs) c h =
    ground (arith, text_beq_iff d.name name, find_cursor-name name cs c)

pub find_cursor-missing :
    (name : Text) (cs : List OffchainStateCursor) (e : Error)
    → find_cursor name cs ≡ err e
    → e ≡ record_not_found
unfolding find_cursor
find_cursor-missing name [] e h = ground arith
find_cursor-missing name (d ∷ cs) e h = ground (arith, find_cursor-missing name cs e)

find_cursor-upsert :
    (c : OffchainStateCursor) (cs : List OffchainStateCursor)
    → find_cursor c.name (upsert (λ d. d.name) c cs) ≡ ok c
unfolding find_cursor upsert
find_cursor-upsert c [] = ground (arith, ==_refl c.name)
find_cursor-upsert c (d ∷ cs) =
    ground (arith, ==_refl c.name, text_beq_iff d.name c.name, find_cursor-upsert c cs)

-- The rows of a batch that is committed.
abbrev pub commit_deposit : Text → PendingDepositTransition → PendingDepositTransition
commit_deposit tx_hash d = record d {
  status = status_committed;
  tx_hash = tx_hash;
  error_message = [];
}

abbrev pub commit_withdrawal : Text → PendingWithdrawalTransition → PendingWithdrawalTransition
commit_withdrawal tx_hash w = record w {
  status = status_committed;
  tx_hash = tx_hash;
  error_message = [];
}

pub record IsCommitted (batch_id tx_hash root : Text) (s s' : OffchainSettlementService)
    : Type 0 where
  pub cursor :
      (get_or_init_cursor s').0
      ≡ ok (record {
        name = s.cursor_name;
        committed_root = root;
        pending_root = root;
        last_committed_batch_id = batch_id;
      })
  pub deposits :
      s'.repository.deposits
      ≡ update_where (λ d. d.batch_id == batch_id) (commit_deposit tx_hash) s.repository.deposits
  pub withdrawals :
      s'.repository.withdrawals
      ≡ update_where
          (λ w. w.batch_id == batch_id)
          (commit_withdrawal tx_hash)
          s.repository.withdrawals
  pub manager : s'.manager ≡ s.manager

-- With a repository, a pool and a named cursor, CommitBatch succeeds: the cursor then has the given
-- root as committed and as pending root and names the batch as the last one, the rows of the batch,
-- whatever their status was, are committed with the transaction hash and no error message, the
-- other rows and the manager are as before.
pub commit_batch-IsCommitted :
    (batch_id tx_hash root : Text) (s : OffchainSettlementService)
    → s.has_repository ≡ true
    → s.repository.has_pool ≡ true
    → is_empty s.cursor_name ≡ false
    → ((commit_batch batch_id tx_hash root s).0 ≡ ok tt)
      × IsCommitted batch_id tx_hash root s (commit_batch batch_id tx_hash root s).1
unfolding commit_batch mark_committed mark_by_batch get_or_init_cursor get_or_init_cursor_with_root
    get_cursor upsert_cursor
commit_batch-IsCommitted batch_id tx_hash root s h pool named =
    elim (Result-cases (find_cursor s.cursor_name s.repository.cursors)) [
      | inl (c, found) ↦
          let name = find_cursor-name s.cursor_name s.repository.cursors c found in
          let back =
            find_cursor-upsert
              (record {
                name = s.cursor_name;
                committed_root = root;
                pending_root = root;
                last_committed_batch_id = batch_id;
              })
              s.repository.cursors in
          (
            ground (arith, name),
            record {
              cursor = ground (arith, name, back);
              deposits = ground (arith, name);
              withdrawals = ground (arith, name);
              manager = ground (arith, name);
            },
          )
      | inr (e, missing) ↦
          let absent = find_cursor-missing s.cursor_name s.repository.cursors e missing in
          let first : OffchainStateCursor = record {
            name = s.cursor_name;
            committed_root = s.manager.ls.root;
            pending_root = s.manager.ls.root;
            last_committed_batch_id = [];
          } in
          let back =
            find_cursor-upsert
              (record {
                name = s.cursor_name;
                committed_root = root;
                pending_root = root;
                last_committed_batch_id = batch_id;
              })
              (upsert (λ d. d.name) first s.repository.cursors) in
          (
            ground (arith, absent),
            record {
              cursor = ground (arith, absent, back);
              deposits = ground (arith, absent);
              withdrawals = ground (arith, absent);
              manager = ground (arith, absent);
            },
          )
    ]
