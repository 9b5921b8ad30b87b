-- ===== src/Repository/Records.antt =====
-- internal/repository/withdraw_repository.go: the records of withdrawals that a batch settled, and
-- their claims.
pub mod Claims
use ganc_sys.Prelude.{
  ℕ, Bool, true, false, ◌&&◌, not, List, [], ◌∷◌, map, none, some, Option, ◌==◌, Result, ok, err,
  Error, Exec, eqb, other_failure, withdraw_record_not_found, withdraw_already_claimed,
  if◌then◌else◌,
}
use ganc_sys.Prelude.Effects.{◌>>=◌, ◌>>◌, pure, raise, gets, modify, raise_if}
use ganc_sys.Text.{Text, text_eq, is_empty}
use ganc_sys.Types.{WithdrawRecord, BalanceSnapshot}
use ganc_sys.Store.{
  save_withdraw_record, get_withdraw_record, claim_withdraw_record, list_withdraw_records,
  get_balance_snapshot,
}
use ganc_sys.Repository.Sql.{update_where, count_where, upsert}
use ganc_sys.Repository.Backend.{Backend, WithdrawRecordRow, find_row, or_panic}
use ganc_sys.Repository.Withdraw.{WithdrawRepository, store_postgres, need_pool, found_or}

-- A row that the unique index on `nullifier` keeps out.
abbrev pub breaks_record_index : WithdrawRecord → List WithdrawRecordRow → Bool
breaks_record_index r rows = not (
    eqb
      (count_where
        (λ w. w.entry.nullifier == r.nullifier && not (w.entry.withdraw_id == r.withdraw_id)) rows)
      0)

module _ (repo : WithdrawRepository) where
  -- The hash that `COALESCE(EXCLUDED.tx_hash, …)` keeps for a record saved without one.
  abbrev kept_hash : Text → List WithdrawRecordRow → Text
  kept_hash id rows = elim (find_row (λ r. r.entry.withdraw_id) id rows) [
    | none ↦ []
    | some r ↦ r.tx_hash
  ]

  -- `saveWithdrawRecordPostgres`
  unfoldable pub save_record_postgres : WithdrawRecord → Text → Exec Backend (Unit {0})
  save_record_postgres r tx_hash = do
    need_pool repo
    rows ← gets (λ b. b.records)
    raise_if (breaks_record_index r rows) other_failure
    let row : WithdrawRecordRow = record {
      entry = r;
      tx_hash = if is_empty tx_hash then kept_hash r.withdraw_id rows else tx_hash;
    }
    modify (λ b. record b { records = upsert (λ w. w.entry.withdraw_id) row rows })

  -- `SaveWithdrawRecord`
  unfoldable pub save_record : WithdrawRecord → Exec Backend (Unit {0})
  save_record r = do
    modify (λ b. record b { store = save_withdraw_record r b.store })
    if repo.record_store == store_postgres then or_panic (save_record_postgres r []) else pure tt

  -- `SaveWithdrawRecords`
  unfoldable pub save_records : List WithdrawRecord → Exec Backend (Unit {0})
  unfolding save_record
  save_records [] = pure tt
  save_records (r ∷ rs) = do save_record r; save_records rs

  -- `getWithdrawRecordPostgres`
  unfoldable pub get_record_postgres : Text → Exec Backend WithdrawRecord
  get_record_postgres id = do
    need_pool repo
    rows ← gets (λ b. b.records)
    row ← found_or repo withdraw_record_not_found (find_row (λ r. r.entry.withdraw_id) id rows)
    pure row.entry

  abbrev is_record_not_found : Error → Bool
  is_record_not_found withdraw_record_not_found = true
  is_record_not_found _ = false

  -- `errors.Is(err, ErrWithdrawRecordNotFound)` falls back to memory; other answers stand.
  abbrev pub or_memory_record :
      Exec Backend WithdrawRecord → Result WithdrawRecord → Exec Backend WithdrawRecord
  or_memory_record memory (ok r) = pure r
  or_memory_record memory (err e) = if is_record_not_found e then memory else raise e

  -- `GetWithdrawRecord`
  unfoldable pub get_record : Text → Exec Backend WithdrawRecord
  get_record id b =
      let memory : Exec Backend WithdrawRecord =
        λ s. found_or repo withdraw_record_not_found (get_withdraw_record id s.store) s in
      if repo.record_store == store_postgres
      then (let (answer, s) = get_record_postgres id b in or_memory_record memory answer s)
      else memory b

  -- `claimWithdrawRecordPostgres`
  unfoldable pub claim_record_postgres : Text → Exec Backend WithdrawRecord
  claim_record_postgres id = do
    need_pool repo
    r ← get_record_postgres id
    raise_if r.claimed withdraw_already_claimed
    modify (λ b. record b {
      records =
          update_where (λ w. w.entry.withdraw_id == id)
            (λ w. record w { entry = record w.entry { claimed = true } }) b.records;
    })
    pure (record r { claimed = true })

  -- The end of `ClaimWithdrawRecord`, on the memory store; the second test of the lookup never
  -- fails, since the store is one.
  abbrev pub claim_looked_up : Text → Option WithdrawRecord → Exec Backend WithdrawRecord
  claim_looked_up id none b = (err withdraw_record_not_found, b)
  claim_looked_up id (some r) b =
      let (answer, store) = claim_withdraw_record id b.store in
      if r.claimed
      then (err withdraw_already_claimed, b)
      else found_or repo withdraw_record_not_found answer (record b { store = store })

  unfoldable pub claim_record_memory : Text → Exec Backend WithdrawRecord
  claim_record_memory id b = claim_looked_up id (get_withdraw_record id b.store) b

  -- The dashboard's copy is claimed too, when it has the record.
  abbrev pub mirror_claim : Text → Option WithdrawRecord → Backend → Backend
  mirror_claim id none b = b
  mirror_claim id (some _) b = record b { store = (claim_withdraw_record id b.store).1 }

  abbrev pub finish_claim : Text → Result WithdrawRecord → Exec Backend WithdrawRecord
  finish_claim id (ok r) b = (ok r, mirror_claim id (get_withdraw_record id b.store) b)
  finish_claim id (err e) b = if is_record_not_found e then claim_record_memory id b else (err e, b)

  -- `ClaimWithdrawRecord`
  unfoldable pub claim_record : Text → Exec Backend WithdrawRecord
  claim_record id b =
      if repo.record_store == store_postgres
      then (let (answer, s) = claim_record_postgres id b in finish_claim id answer s)
      else claim_record_memory id b

  -- `ListWithdrawRecords`, with `listWithdrawRecordsPostgres`
  unfoldable pub list_records : Exec Backend (List WithdrawRecord)
  list_records =
      if repo.record_store == store_postgres
      then or_panic (do need_pool repo; gets (λ b. map (λ r. r.entry) b.records))
      else gets (λ b. list_withdraw_records b.store)

-- `GetLocalClaimBalanceSnapshot`
abbrev pub get_local_claim_balance_snapshot : Backend → BalanceSnapshot
get_local_claim_balance_snapshot b = get_balance_snapshot b.store
