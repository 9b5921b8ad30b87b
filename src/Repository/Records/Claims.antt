-- ===== src/Repository/Records/Claims.antt =====
-- internal/repository/withdraw_repository.go: what a claim of a record leaves.
use ganc_sys.Prelude.{
  ◌≡◌, refl, sym, ◌∙◌, ap, true, false, List, [], ◌∷◌, Option, none, some, inl, inr, arith, ◌==◌,
  ==_refl, Result, ok, err, Bool-cases, Option-cases, withdraw_already_claimed,
  withdraw_record_not_found, other_failure,
}
use mathlib.Core.Option
use ganc_sys.Dict.{lookup, lookup-insert}
use ganc_sys.Text.{Text, text_eq}
use ganc_sys.Types.{WithdrawRecord}
use ganc_sys.Repository.Sql.{update_where}
use ganc_sys.Store.{MemoryStore, claim_withdraw_record, claim_entry, claim_found}
use ganc_sys.Repository.Backend.{Backend, WithdrawRecordRow, find_row}
use ganc_sys.Repository.Withdraw.{WithdrawRepository, store_postgres, found_or}
use ganc_sys.Repository.Records.{
  get_record, get_record_postgres, claim_record, claim_record_postgres, claim_record_memory,
  mirror_claim, finish_claim, or_memory_record,
}

find_row-update :
    {A : Type 0} (key : A → Text) (id : Text) (f : A → A) (rows : List A)
    → ((a : A) → key (f a) ≡ key a)
    → find_row key id (update_where (λ r. key r == id) f rows) ≡ Option.map f (find_row key id rows)
unfolding find_row update_where
find_row-update key id f [] same = refl
find_row-update key id f (r ∷ rows) same = elim (Bool-cases (key r == id)) [
  | inl here ↦ rw here (rw (same r, here) refl)
  | inr other ↦ rw other (rw other (find_row-update key id f rows same))
]

abbrev pub claimed : WithdrawRecord → WithdrawRecord
claimed r = record r { claimed = true }

module _ (id : Text) (o : Option WithdrawRecord) (s : MemoryStore)
    (found : lookup id s.withdraw_records ≡ o) where
  claim-found : claim_withdraw_record id s ≡ claim_entry id o s
  unfolding claim_withdraw_record
  claim-found = ap (λ t. claim_entry id t s) found

module _ (repo : WithdrawRepository) (id : Text) (b : Backend) where
  memory-absent :
      lookup id b.store.withdraw_records ≡ none
      → claim_record_memory repo id b ≡ (err withdraw_record_not_found, b)
  unfolding claim_record_memory
  memory-absent absent = rw absent refl

  memory-claimed :
      (x : WithdrawRecord)
      → lookup id b.store.withdraw_records ≡ some x
      → x.claimed ≡ true
      → claim_record_memory repo id b ≡ (err withdraw_already_claimed, b)
  unfolding claim_record_memory
  memory-claimed x found old = rw (found, old) refl

  memory-new :
      (x : WithdrawRecord)
      → lookup id b.store.withdraw_records ≡ some x
      → x.claimed ≡ false
      → claim_record_memory repo id b
        ≡ (ok (claimed x), record b { store = claim_found id (claimed x) b.store })
  unfolding claim_record_memory claim_entry
  memory-new x found new = rw (found, claim-found id (some x) b.store found, new) refl

module _ (id : Text) (x : WithdrawRecord) (s : MemoryStore) where
  claim_found-lookup : lookup id (claim_found id x s).withdraw_records ≡ some x
  unfolding claim_found
  claim_found-lookup = rw (lookup-insert id id x s.withdraw_records) (rw (==_refl id) refl)

module _ (repo : WithdrawRepository) (id : Text) (r : WithdrawRecord) (b b' : Backend) where
  memory_claimed_once :
      claim_record_memory repo id b ≡ (ok r, b')
      → (lookup id b'.store.withdraw_records ≡ some r)
        × (r.claimed ≡ true)
        × (b'.records ≡ b.records)
  memory_claimed_once h = elim (Option-cases (lookup id b.store.withdraw_records)) [
    | inl absent ↦ absurd (ground (arith, memory-absent repo id b absent))
    | inr (x, found) ↦ elim (Bool-cases (x.claimed)) [
      | inl old ↦ absurd (ground (arith, memory-claimed repo id b x found old))
      | inr new ↦
          let e = memory-new repo id b x found new in
          ground (arith, e, claim_found-lookup id (claimed x) b.store)
    ]
  ]

abbrev pub claimed_row : WithdrawRecordRow → WithdrawRecordRow
claimed_row w = record w { entry = claimed w.entry }

abbrev pub id_of : WithdrawRecordRow → Text
id_of w = w.entry.withdraw_id

module _ (repo : WithdrawRepository) (id : Text) (b : Backend) where
  pub get-row :
      (w : WithdrawRecordRow)
      → repo.has_pool ≡ true
      → find_row id_of id b.records ≡ some w
      → get_record_postgres repo id b ≡ (ok w.entry, b)
  unfolding get_record_postgres
  get-row w pool found = rw (pool, found) refl

  pub get-no_row :
      repo.has_pool ≡ true
      → find_row id_of id b.records ≡ none
      → get_record_postgres repo id b ≡ (err withdraw_record_not_found, b)
  unfolding get_record_postgres
  get-no_row pool absent = ground (arith, pool, absent)

  pub get-no_pool : repo.has_pool ≡ false → get_record_postgres repo id b ≡ (err other_failure, b)
  unfolding get_record_postgres
  get-no_pool none_there = rw none_there refl

  claim-no_pool : repo.has_pool ≡ false → claim_record_postgres repo id b ≡ (err other_failure, b)
  unfolding claim_record_postgres get_record_postgres
  claim-no_pool none_there = rw none_there refl

  claim-no_row :
      repo.has_pool ≡ true
      → find_row id_of id b.records ≡ none
      → claim_record_postgres repo id b ≡ (err withdraw_record_not_found, b)
  unfolding claim_record_postgres get_record_postgres
  claim-no_row pool absent = ground (arith, pool, absent)

  claim-old_row :
      (w : WithdrawRecordRow)
      → repo.has_pool ≡ true
      → find_row id_of id b.records ≡ some w
      → w.entry.claimed ≡ true
      → claim_record_postgres repo id b ≡ (err withdraw_already_claimed, b)
  unfolding claim_record_postgres get_record_postgres
  claim-old_row w pool found old = ground (arith, pool, found, old)

  claim-new_row :
      (w : WithdrawRecordRow)
      → repo.has_pool ≡ true
      → find_row id_of id b.records ≡ some w
      → w.entry.claimed ≡ false
      → claim_record_postgres repo id b ≡ (
        ok (claimed w.entry),
        record b { records = update_where (λ r. id_of r == id) claimed_row b.records },
      )
  unfolding claim_record_postgres get_record_postgres
  claim-new_row w pool found new = ground (arith, pool, found, new)

  -- The dashboard's copy does not change the rows.
  mirrored-rows :
      (o : Option WithdrawRecord) (c : Backend) → (mirror_claim repo id o c).records ≡ c.records
  mirrored-rows none c = refl
  mirrored-rows (some _) c = refl

module _ (repo : WithdrawRepository) (id : Text) (b : Backend) where
  -- In memory mode, and in Postgres mode by the answer of Postgres.
  pub in_memory :
      (repo.record_store == store_postgres) ≡ false
      → (claim_record repo id b ≡ claim_record_memory repo id b)
        × (get_record repo id b
            ≡ found_or repo withdraw_record_not_found (lookup id b.store.withdraw_records) b)
  unfolding claim_record get_record
  in_memory mode = (rw mode refl, rw mode refl)

  pub in_postgres :
      (answer : Result WithdrawRecord × Backend) (got : Result WithdrawRecord × Backend)
      → (repo.record_store == store_postgres) ≡ true
      → claim_record_postgres repo id b ≡ answer
      → get_record_postgres repo id b ≡ got
      → (claim_record repo id b ≡ finish_claim repo id answer.0 answer.1)
        × (get_record repo id b
            ≡ or_memory_record repo
                (λ s.
                  found_or repo withdraw_record_not_found (lookup id s.store.withdraw_records) s)
                got.0
                got.1)
  unfolding claim_record get_record
  in_postgres answer got mode e f = (rw (mode, e) refl, rw (mode, f) refl)

module _ (repo : WithdrawRepository) (id : Text) (r : WithdrawRecord) (b b' : Backend) where
  claimed_in_memory :
      (repo.record_store == store_postgres) ≡ false
      → claim_record repo id b ≡ (ok r, b')
      → ((claim_record repo id b').0 ≡ err withdraw_already_claimed)
        × (get_record repo id b' ≡ (ok r, b'))
        × (r.claimed ≡ true)
  claimed_in_memory mode h =
      let (there, flag, _) =
        memory_claimed_once repo id r b b' (sym (in_memory repo id b mode).0 ∙ h) in
      let (again, got) = in_memory repo id b' mode in
      (ap (λ x. x.0) (again ∙ memory-claimed repo id b' r there flag), got ∙ rw there refl, flag)

  -- Postgres has no row, so memory answers; it still has none afterwards.
  claimed_without_row :
      (repo.record_store == store_postgres) ≡ true
      → repo.has_pool ≡ true
      → find_row id_of id b.records ≡ none
      → claim_record repo id b ≡ (ok r, b')
      → ((claim_record repo id b').0 ≡ err withdraw_already_claimed)
        × (get_record repo id b' ≡ (ok r, b'))
        × (r.claimed ≡ true)
  claimed_without_row mode pool absent h =
      let (first, _) =
        in_postgres repo id b _ _ mode (claim-no_row repo id b pool absent)
          (get-no_row repo id b pool absent) in
      let (there, flag, rows) = memory_claimed_once repo id r b b' (sym first ∙ h) in
      let absent' : find_row id_of id b'.records ≡ none = rw rows absent in
      let (again, got) =
        in_postgres repo id b' _ _ mode (claim-no_row repo id b' pool absent')
          (get-no_row repo id b' pool absent') in
      (ap (λ x. x.0) (again ∙ memory-claimed repo id b' r there flag), got ∙ rw there refl, flag)

  claimed_in_row :
      (w : WithdrawRecordRow)
      → (repo.record_store == store_postgres) ≡ true
      → repo.has_pool ≡ true
      → find_row id_of id b.records ≡ some w
      → w.entry.claimed ≡ false
      → claim_record repo id b ≡ (ok r, b')
      → ((claim_record repo id b').0 ≡ err withdraw_already_claimed)
        × (get_record repo id b' ≡ (ok r, b'))
        × (r.claimed ≡ true)
  claimed_in_row w mode pool found new h =
      let rows = update_where (λ x. id_of x == id) claimed_row b.records in
      let c : Backend = record b { records = rows } in
      let (first, _) =
        in_postgres repo id b _ _ mode (claim-new_row repo id b w pool found new)
          (get-row repo id b w pool found) in
      let e : (
        Result.ok (claimed w.entry),
        mirror_claim repo id (lookup id c.store.withdraw_records) c,
      )
          ≡ (Result.ok r, b') =
        sym first ∙ h in
      let same : b'.records ≡ rows =
        ap (λ x. x.1.records) (sym e)
        ∙ mirrored-rows repo id b (lookup id c.store.withdraw_records) c in
      let there : find_row id_of id b'.records ≡ some (claimed_row w) =
        rw (same, find_row-update id_of id claimed_row b.records (λ a. refl), found) refl in
      let (again, got) =
        in_postgres repo id b' _ _ mode (claim-old_row repo id b' (claimed_row w) pool there refl)
          (get-row repo id b' (claimed_row w) pool there) in
      let it : claimed w.entry ≡ r = ground (arith, e) in
      (ap (λ x. x.0) again, got ∙ rw it refl, rw (← it) refl)

  -- Where ClaimWithdrawRecord returns a record, the record is claimed, GetWithdrawRecord returns it
  -- afterwards, and a second ClaimWithdrawRecord of the same id is refused with
  -- ErrWithdrawAlreadyClaimed; for both record stores.
  pub claimed_once :
      claim_record repo id b ≡ (ok r, b')
      → ((claim_record repo id b').0 ≡ err withdraw_already_claimed)
        × (get_record repo id b' ≡ (ok r, b'))
        × (r.claimed ≡ true)
  claimed_once h = elim (Bool-cases (repo.record_store == store_postgres)) [
    | inr memory ↦ claimed_in_memory memory h
    | inl mode ↦ elim (Bool-cases (repo.has_pool)) [
      | inr no_pool ↦ absurd (
          let (first, _) = in_postgres repo id b _ _ mode (claim-no_pool repo id b no_pool) refl in
          ground (arith, first))
      | inl pool ↦ elim (Option-cases (find_row id_of id b.records)) [
        | inl absent ↦ claimed_without_row mode pool absent h
        | inr (w, found) ↦ elim (Bool-cases (w.entry.claimed)) [
          | inr new ↦ claimed_in_row w mode pool found new h
          | inl old ↦ absurd (
              let (first, _) =
                in_postgres repo id b _ _ mode (claim-old_row repo id b w pool found old) refl in
              ground (arith, first))
        ]
      ]
    ]
  ]
