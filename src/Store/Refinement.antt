-- ===== src/Store/Refinement.antt =====
-- internal/store/memory_store.go: the calls that change a store, and the rows of a table with a
-- primary key for each of its maps.
use ganc_sys.Prelude.{
  ◌≡◌, refl, true, [], ◌∷◌, Option, none, some, inl, inr, ◌==◌, List, ap, sym, ◌∙◌, subst,
  Option-cases,
}
use ganc_sys.Dict.{lookup, insert}
use ganc_sys.Text.{Text, text_eq}
use ganc_sys.Types.{
  DepositRecord, WithdrawRequest, WithdrawRecord, SettlementUpdate, BatchCommitments, ProofBundle,
}
use ganc_sys.Repository.Sql.{upsert, update_where}
use ganc_sys.Store.{
  MemoryStore, new_memory_store, save_deposit, save_withdraw_request, save_batch_build,
  save_proof_bundle, save_withdraw_record, save_withdraw_records, save_batch_submitted,
  claim_withdraw_record, claim_found, claim_entry, next_withdraw_sequence, list_deposits,
  list_withdraw_requests, list_withdraw_records,
}
use ganc_sys.Store.Tables.{in_order, note_id}
use ganc_sys.Store.Tables.Upsert.{IsTable, in_order-save, save-IsTable, keyed}
use ganc_sys.Store.Tables.Update.{in_order-change, update_where-absent}

-- A call of a method that changes the store.
pub data Call : Type 0 where
  deposit : DepositRecord → Call
  sequence : Call
  request : WithdrawRequest → Call
  build : SettlementUpdate → BatchCommitments → Call
  proof : ProofBundle → Call
  submitted : SettlementUpdate → BatchCommitments → List WithdrawRecord → Call
  withdraw_record : WithdrawRecord → Call
  claim : Text → Call

unfoldable pub perform : Call → MemoryStore → MemoryStore
perform (deposit r) s = save_deposit r s
perform sequence s = (next_withdraw_sequence s).1
perform (request r) s = save_withdraw_request r s
perform (build u c) s = save_batch_build u c s
perform (proof b) s = save_proof_bundle b s
perform (submitted u c rs) s = save_batch_submitted u c rs s
perform (withdraw_record r) s = save_withdraw_record r s
perform (claim id) s = (claim_withdraw_record id s).1

unfoldable pub perform_all : List Call → MemoryStore → MemoryStore
unfolding perform
perform_all [] s = s
perform_all (c ∷ cs) s = perform_all cs (perform c s)

abbrev pub IsStore : MemoryStore → Type 0
IsStore s =
    IsTable (λ r. r.deposit_id) s.deposits s.deposit_order
    × IsTable (λ r. r.withdraw_id) s.withdraw_requests s.withdraw_request_order
    × IsTable (λ r. r.withdraw_id) s.withdraw_records s.withdraw_record_order

-- The tables: rows in the order of their first insertion.
pub record Rows : Type 0 where
  pub deposits : List DepositRecord
  pub requests : List WithdrawRequest
  pub records : List WithdrawRecord

abbrev pub rows_of : MemoryStore → Rows
rows_of s = record {
  deposits = list_deposits s;
  requests = list_withdraw_requests s;
  records = list_withdraw_records s;
}

unfoldable pub upsert_records : List WithdrawRecord → List WithdrawRecord → List WithdrawRecord
upsert_records [] rows = rows
upsert_records (r ∷ rs) rows = upsert_records rs (upsert (λ x. x.withdraw_id) r rows)

abbrev pub claimed : WithdrawRecord → WithdrawRecord
claimed r = record r { claimed = true }

-- What a call does to the tables.
unfoldable pub on_rows : Call → Rows → Rows
on_rows (deposit r) t = record t { deposits = upsert (λ x. x.deposit_id) r t.deposits }
on_rows sequence t = t
on_rows (request r) t = record t { requests = upsert (λ x. x.withdraw_id) r t.requests }
on_rows (build u c) t = t
on_rows (proof b) t = t
on_rows (submitted u c rs) t = record t { records = upsert_records rs t.records }
on_rows (withdraw_record r) t = record t { records = upsert (λ x. x.withdraw_id) r t.records }
on_rows (claim id) t = record t {
  records = update_where (λ x. x.withdraw_id == id) claimed t.records;
}

unfoldable pub on_rows_all : List Call → Rows → Rows
on_rows_all [] t = t
on_rows_all (c ∷ cs) t = on_rows_all cs (on_rows c t)

-- The sum of both: a store stays one, and its rows change as the tables do.
abbrev Refines : Call → MemoryStore → Type 0
Refines c s = IsStore (perform c s) × (rows_of (perform c s) ≡ on_rows c (rows_of s))

save_records_refines :
    (rs : List WithdrawRecord) (s : MemoryStore)
    → IsStore s
    → IsStore (save_withdraw_records rs s)
      × (rows_of (save_withdraw_records rs s)
          ≡ record (rows_of s) { records = upsert_records rs (list_withdraw_records s) })
unfolding save_withdraw_records save_withdraw_record upsert_records list_deposits
    list_withdraw_requests list_withdraw_records
save_records_refines [] s h = (h, refl)
save_records_refines (r ∷ rs) s h =
    let kept = save-IsTable (λ x. x.withdraw_id) r s.withdraw_records s.withdraw_record_order h.2 in
    let (kept_all, rows) = save_records_refines rs (save_withdraw_record r s) (h.0, h.1, kept) in
    (
      kept_all,
      rw rows (
          rw (in_order-save (λ x. x.withdraw_id) r s.withdraw_records s.withdraw_record_order h.2)
            refl),
    )

claim_found-IsTable :
    (id : Text) (r : WithdrawRecord) (s : MemoryStore)
    → IsTable (λ x. x.withdraw_id) s.withdraw_records s.withdraw_record_order
    → lookup id s.withdraw_records ≡ some r
    → IsTable
        (λ x. x.withdraw_id)
        (insert id (claimed r) s.withdraw_records)
        s.withdraw_record_order
claim_found-IsTable id r s h found =
    let own : r.withdraw_id ≡ id =
      (keyed (λ (x : WithdrawRecord). x.withdraw_id) r s.withdraw_records s.withdraw_record_order h
        id r found).0 in
    let saved =
      save-IsTable (λ (x : WithdrawRecord). x.withdraw_id) (claimed r) s.withdraw_records
        s.withdraw_record_order h in
    let same : note_id id s.withdraw_records s.withdraw_record_order ≡ s.withdraw_record_order =
      unfold note_id in rw found refl in
    rw same at (
      subst
        (λ t.
          IsTable (λ (x : WithdrawRecord). x.withdraw_id) (insert t (claimed r) s.withdraw_records)
            (note_id t s.withdraw_records s.withdraw_record_order))
        own saved)

-- The store after a claim of a record, and of an id without one.
perform-claim :
    (id : Text) (o : Option WithdrawRecord) (s : MemoryStore)
    → lookup id s.withdraw_records ≡ o
    → perform (claim id) s ≡ (claim_entry id o s).1
unfolding perform claim_withdraw_record
perform-claim id o s e = ap (λ t. (claim_entry id t s).1) e

claim-Refines : (id : Text) (s : MemoryStore) → IsStore s → Refines (claim id) s
unfolding claim_entry claim_found on_rows list_deposits list_withdraw_requests list_withdraw_records
claim-Refines id s h =
    let key : WithdrawRecord → Text = λ x. x.withdraw_id in
    let items = s.withdraw_records in
    let order = s.withdraw_record_order in
    elim (Option-cases (lookup id items)) [
      | inl absent ↦
          subst (λ t. IsStore t × (rows_of t ≡ on_rows (claim id) (rows_of s)))
            (sym (perform-claim id none s absent))
            (h, rw (update_where-absent key claimed id items order h.2 absent) refl)
      | inr (r, found) ↦
          subst (λ t. IsStore t × (rows_of t ≡ on_rows (claim id) (rows_of s)))
            (sym (perform-claim id (some r) s found))
            (
              (h.0, h.1, claim_found-IsTable id r s h.2 found),
              rw (← (in_order-change key claimed id items order h.2 r found)) refl,
            )
    ]

perform-Refines : (c : Call) (s : MemoryStore) → IsStore s → Refines c s
unfolding perform save_deposit save_withdraw_request save_batch_build save_proof_bundle
    save_withdraw_record save_batch_submitted next_withdraw_sequence on_rows list_deposits
    list_withdraw_requests list_withdraw_records
perform-Refines (deposit r) s h = (
  (save-IsTable (λ x. x.deposit_id) r s.deposits s.deposit_order h.0, h.1, h.2),
  rw (in_order-save (λ x. x.deposit_id) r s.deposits s.deposit_order h.0) refl,
)
perform-Refines sequence s h = (h, refl)
perform-Refines (request r) s h = (
  (h.0, save-IsTable (λ x. x.withdraw_id) r s.withdraw_requests s.withdraw_request_order h.1, h.2),
  rw (in_order-save (λ x. x.withdraw_id) r s.withdraw_requests s.withdraw_request_order h.1) refl,
)
perform-Refines (build u c) s h = (h, refl)
perform-Refines (proof b) s h = (h, refl)
perform-Refines (submitted u c rs) s h = save_records_refines rs s h
perform-Refines (withdraw_record r) s h = (
  (h.0, h.1, save-IsTable (λ x. x.withdraw_id) r s.withdraw_records s.withdraw_record_order h.2),
  rw (in_order-save (λ x. x.withdraw_id) r s.withdraw_records s.withdraw_record_order h.2) refl,
)
perform-Refines (claim id) s h = claim-Refines id s h

perform_all-Refines :
    (cs : List Call) (s : MemoryStore)
    → IsStore s
    → IsStore (perform_all cs s) × (rows_of (perform_all cs s) ≡ on_rows_all cs (rows_of s))
unfolding perform_all on_rows_all
perform_all-Refines [] s h = (h, refl)
perform_all-Refines (c ∷ cs) s h =
    let (kept, rows) = perform-Refines c s h in
    let (kept_all, rows_all) = perform_all-Refines cs (perform c s) kept in
    (kept_all, rows_all ∙ ap (on_rows_all cs) rows)

abbrev pub no_rows : Rows
no_rows = record { deposits = []; requests = []; records = [] }

-- After any list of calls on a new memory store, ListDeposits, ListWithdrawRequests and
-- ListWithdrawRecords return the tables, the row that was inserted first at their head, that the
-- upserts and updates of the calls give on three tables that were empty.
pub store_rows :
    (cs : List Call) → rows_of (perform_all cs new_memory_store) ≡ on_rows_all cs no_rows
unfolding new_memory_store list_deposits list_withdraw_requests list_withdraw_records in_order
store_rows cs =
    (perform_all-Refines cs new_memory_store ((tt, tt, tt), (tt, tt, tt), (tt, tt, tt))).1
