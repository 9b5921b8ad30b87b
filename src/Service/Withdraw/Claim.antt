-- ===== src/Service/Withdraw/Claim.antt =====
-- internal/service/withdraw_service.go: `ClaimWithdraw` with the local relayer.
use ganc_sys.Prelude.{
  ℕ, ◌≡◌, refl, ◌∙◌, ap, true, List, [], ◌∷◌, ok, err, arith, inl, inr, Result-cases, Bool-cases,
  Option-cases, some, ◌==◌, other_failure,
}
use ganc_sys.Dict.{lookup}
use ganc_sys.Text.{Text, text_eq, text_beq_iff}
use ganc_sys.Types.{WithdrawRecord}
use ganc_sys.Store.Tables.Upsert.{IsTable, keyed}
use ganc_sys.Relayer.{ClaimWithdrawResult, claim_withdraw_local}
use ganc_sys.Repository.Backend.{Backend, WithdrawRecordRow, find_row}
use ganc_sys.Repository.Withdraw.{WithdrawRepository, store_postgres}
use ganc_sys.Repository.Records.{get_record, claim_record}
use ganc_sys.Repository.Records.Claims.{
  claimed_once, in_memory, in_postgres, get-row, get-no_row, get-no_pool, id_of,
}
use ganc_sys.Service.Withdraw.{WithdrawService, ClaimWithdrawResponse, claim_withdraw}

find_row-id :
    (id : Text) (rows : List WithdrawRecordRow) (w : WithdrawRecordRow)
    → find_row id_of id rows ≡ some w
    → w.entry.withdraw_id ≡ id
unfolding find_row
find_row-id id [] w h = absurd (ground (arith, h))
find_row-id id (x ∷ rows) w h = elim (Bool-cases (id_of x == id)) [
  | inl here ↦ ground (arith, h, here, text_beq_iff (id_of x) id)
  | inr other ↦ find_row-id id rows w (rw other at h)
]

-- The memory store's table of records is well-formed.
abbrev pub RecordTable : Backend → Type 0
RecordTable b =
    IsTable (λ (r : WithdrawRecord). r.withdraw_id) b.store.withdraw_records
      b.store.withdraw_record_order

module _ (repo : WithdrawRepository) (id : Text) (r : WithdrawRecord) (b c : Backend)
    (table : RecordTable b) where
  lookup-id : lookup id b.store.withdraw_records ≡ some r → r.withdraw_id ≡ id
  lookup-id found =
      (keyed (λ (x : WithdrawRecord). x.withdraw_id) r b.store.withdraw_records
        b.store.withdraw_record_order table id r found).0

  -- A record that is read stands under the id that was asked for, and nothing changes.
  get_record-id : get_record repo id b ≡ (ok r, c) → (r.withdraw_id ≡ id) × (c ≡ b)
  get_record-id h = elim (Bool-cases (repo.record_store == store_postgres)) [
    | inr memory ↦ elim (Option-cases (lookup id b.store.withdraw_records)) [
      | inl absent ↦ absurd (ground (arith, (in_memory repo id b memory).1, absent))
      | inr (x, found) ↦ ground (arith, (in_memory repo id b memory).1, found, lookup-id)
    ]
    | inl mode ↦ elim (Bool-cases (repo.has_pool)) [
      | inr no_pool ↦
          absurd (
            ground (arith, (in_postgres repo id b _ _ mode refl (get-no_pool repo id b no_pool)).1))
      | inl pool ↦ elim (Option-cases (find_row id_of id b.records)) [
        | inr (w, found) ↦ ground (
          arith,
          (in_postgres repo id b _ _ mode refl (get-row repo id b w pool found)).1,
          find_row-id id b.records w found,
        )
        | inl no_row ↦
            let fallback =
              (in_postgres repo id b _ _ mode refl (get-no_row repo id b pool no_row)).1 in
            elim (Option-cases (lookup id b.store.withdraw_records)) [
              | inl absent ↦ absurd (ground (arith, fallback, absent))
              | inr (x, found) ↦ ground (arith, fallback, found, lookup-id)
            ]
      ]
    ]
  ]

module _ (sha256 : Text → List ℕ) (marshal : WithdrawRecord → Text) (service : WithdrawService)
    (id : Text) (b b' : Backend) where
  local_answer :
      (r : WithdrawRecord) (answer : ClaimWithdrawResult)
      → claim_withdraw_local sha256 marshal r ≡ ok answer
      → answer.withdraw_record.withdraw_id ≡ r.withdraw_id
  unfolding claim_withdraw_local
  local_answer r answer h = ground (arith, h)

  local_refuses :
      (r : WithdrawRecord)
      → r.claimed ≡ true
      → claim_withdraw_local sha256 marshal r ≡ err other_failure
  unfolding claim_withdraw_local
  local_refuses r old = ground (arith, old)

  -- With the local relayer and a memory store whose table of records is well-formed (each record
  -- stands under its own id, the order names each id with a record once and no other), if
  -- ClaimWithdraw succeeds, the claim's record is claimed and GetWithdrawRecord returns it
  -- afterwards, and a second ClaimWithdraw of the same id is refused.
  pub claim_withdraw_once :
      (response : ClaimWithdrawResponse)
      → RecordTable b
      → claim_withdraw service (claim_withdraw_local sha256 marshal) id b ≡ (ok response, b')
      → (response.withdraw_record.claimed ≡ true)
        × (get_record service.repository id b' ≡ (ok response.withdraw_record, b'))
        × ((claim_withdraw service (claim_withdraw_local sha256 marshal) id b').0
            ≡ err other_failure)
  unfolding claim_withdraw
  claim_withdraw_once response table h =
      let repo = service.repository in
      let (got, c) = get_record repo id b in
      elim (Result-cases got) [
        | inr (e, bad) ↦ absurd (ground (arith, bad))
        | inl (r, good) ↦
            let (own, same) = get_record-id repo id r b c table (ap (λ x. (x, c)) good) in
            elim (Result-cases (claim_withdraw_local sha256 marshal r)) [
              | inr (e, bad) ↦ absurd (ground (arith, good, bad))
              | inl (answer, fine) ↦
                  let named : answer.withdraw_record.withdraw_id ≡ id =
                    local_answer r answer fine ∙ own in
                  let (claimed, d) = claim_record repo id b in
                  elim (Result-cases claimed) [
                    | inr (e, bad) ↦ absurd (ground (arith, good, fine, named, bad, same))
                    | inl (x, won) ↦
                        let outcome : (x ≡ response.withdraw_record) × (d ≡ b') =
                          ground (arith, good, fine, named, won, same) in
                        let (_, there, flag) = claimed_once repo id x b d (ap (λ y. (y, d)) won) in
                        let refused = local_refuses x flag in
                        rw (← outcome.0, ← outcome.1) (flag, there, ground (arith, there, refused))
                  ]
            ]
      ]
