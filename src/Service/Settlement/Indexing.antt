-- ===== src/Service/Settlement/Indexing.antt =====
-- internal/service/offchain_settlement_service.go: the row that `ApplyIndexedDeposit` saves.
use ganc_sys.Prelude.{
  other_failure, ℕ, ◌≡◌, ap, List, [], arith, true, false, ok, err, Result-cases, Bool-cases, inl,
  inr,
}
use ganc_sys.Text.{Text}
use ganc_sys.Types.{DepositRecord}
use ganc_sys.State.Local.{apply_deposit}
use ganc_sys.State.Manager.{
  OffchainStateManager, take_snapshot, snapshot_account, manager_apply_deposit,
}
use ganc_sys.Repository.Sql.{upsert}
use ganc_sys.Repository.Settlement.{
  OffchainStateCursor, or_default, default_cursor_name, PendingDepositTransition, find_cursor,
  get_cursor, upsert_cursor, save_pending_deposit, status_pending,
}
use ganc_sys.Service.Settlement.Commit.{find_cursor-missing}
use ganc_sys.Service.Settlement.{
  OffchainSettlementService, apply_indexed_deposit, get_or_init_cursor,
  get_or_init_cursor_with_root, update_pending_root,
}

module _ (sha256 : Text → List ℕ) where
  -- The root that a deposit returns is the root of the state it leaves.
  apply_deposit-root :
      (d : DepositRecord) (m m' : OffchainStateManager) (root : Text)
      → manager_apply_deposit sha256 d m ≡ (ok root, m')
      → root ≡ m'.ls.root
  unfolding manager_apply_deposit apply_deposit
  apply_deposit-root d m m' root h = ground arith

  with_cursors : List OffchainStateCursor → OffchainSettlementService → OffchainSettlementService
  with_cursors cs s = record s { repository = record s.repository { cursors = cs } }

  -- The cursor is found or saved, and nothing else changes.
  cursor_ready :
      (root : Text) (s : OffchainSettlementService)
      → s.repository.has_pool ≡ true
      → (c : OffchainStateCursor) × (cs : List OffchainStateCursor) × (get_or_init_cursor_with_root
            root s
          ≡ (ok c, with_cursors cs s))
  unfolding get_or_init_cursor_with_root get_cursor upsert_cursor with_cursors
  cursor_ready root s pool =
      let name = or_default default_cursor_name s.cursor_name in
      elim (Result-cases (find_cursor name s.repository.cursors)) [
        | inl (c, found) ↦ (c, s.repository.cursors, ground arith)
        | inr (e, missing) ↦
            let absent = find_cursor-missing name s.repository.cursors e missing in
            let first : OffchainStateCursor = record {
              name = s.cursor_name;
              committed_root = root;
              pending_root = root;
              last_committed_batch_id = [];
            } in
            (
              first,
              upsert (λ d. d.name) (record first { name = name }) s.repository.cursors,
              ground (arith, absent),
            )
      ]

  no_pool :
      (root : Text) (s : OffchainSettlementService)
      → s.repository.has_pool ≡ false
      → (get_or_init_cursor_with_root root s).0 ≡ err other_failure
  unfolding get_or_init_cursor_with_root get_cursor
  no_pool root s bad = ground arith

  -- A deposit that was indexed: the manager's step, and the row that records it.
  pub record IsIndexed (deposit : DepositRecord) (t : PendingDepositTransition)
      (s s' : OffchainSettlementService) : Type 0 where
    pub applied : manager_apply_deposit sha256 deposit s.manager ≡ (ok t.root_after, s'.manager)
    pub before : t.root_before ≡ s.manager.ls.root
    pub after : t.root_after ≡ s'.manager.ls.root
    pub id : t.deposit_id ≡ deposit.deposit_id
    pub status : t.status ≡ status_pending
    pub saved : s'.repository.deposits ≡ upsert (λ d. d.deposit_id) t s.repository.deposits
    pub withdrawals : s'.repository.withdrawals ≡ s.repository.withdrawals

  -- When ApplyIndexedDeposit returns a transition, the manager has applied the deposit, the
  -- transition's root before is the manager's root before and its root after the manager's root
  -- after, it is pending under the deposit's id, the deposits table has it in place of a row with
  -- that id or else as the last row, and the withdrawals table is as before.
  pub apply_indexed_deposit_sound :
      (deposit : DepositRecord) (t : PendingDepositTransition) (s s' : OffchainSettlementService)
      → apply_indexed_deposit sha256 deposit s ≡ (ok t, s')
      → IsIndexed deposit t s s'
  unfolding apply_indexed_deposit get_or_init_cursor update_pending_root upsert_cursor
      save_pending_deposit take_snapshot with_cursors
  apply_indexed_deposit_sound deposit t s s' h = elim (Bool-cases s.has_repository) [
    | inr bad ↦ absurd (ground arith)
    | inl has ↦ elim (Bool-cases s.repository.has_pool) [
      | inr bad ↦ absurd (ground (arith, no_pool s.manager.ls.root s bad))
      | inl pool ↦
          let (c, cs, ready) = cursor_ready s.manager.ls.root s pool in
          let moved = manager_apply_deposit sha256 deposit s.manager in
          elim (Result-cases moved.0) [
            | inr (e, bad) ↦ absurd (ground arith)
            | inl (root, good) ↦
                let at_root = apply_deposit-root deposit s.manager moved.1 root (ground arith) in
                let row : PendingDepositTransition = record {
                  deposit_id = deposit.deposit_id;
                  owner_address = deposit.owner;
                  denom = deposit.denom;
                  amount = deposit.amount;
                  root_before = s.manager.ls.root;
                  root_after = root;
                  balance_before =
                      (snapshot_account deposit.owner deposit.denom
                        (take_snapshot s.manager)).balance;
                  balance_after =
                      (snapshot_account deposit.owner deposit.denom
                        (take_snapshot moved.1)).balance;
                  status = status_pending;
                  batch_id = [];
                  tx_hash = [];
                  error_message = [];
                } in
                let s₂ : OffchainSettlementService = record s {
                  manager = moved.1;
                  repository = record s.repository {
                    cursors = cs;
                    deposits = upsert (λ d. d.deposit_id) row s.repository.deposits;
                  };
                } in
                let (c₂, cs₂, ready₂) = cursor_ready moved.1.ls.root s₂ pool in
                let done : (t ≡ row)
                    × (s'.manager ≡ moved.1)
                    × (s'.repository.deposits
                        ≡ upsert (λ d. d.deposit_id) row s.repository.deposits)
                    × (s'.repository.withdrawals ≡ s.repository.withdrawals) =
                  ground (arith, ready, ready₂) in
                let (same, kept, deposits, withdrawals) = done in
                record {
                  applied = ground (arith, same, kept, good);
                  before = ap (λ r. r.root_before) same;
                  after = ground (arith, same, at_root, kept);
                  id = ap (λ r. r.deposit_id) same;
                  status = ap (λ r. r.status) same;
                  saved = ground (arith, deposits, same);
                  withdrawals = withdrawals;
                }
          ]
    ]
  ]
