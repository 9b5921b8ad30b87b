-- ===== src/Repository/Withdraw/Requests.antt =====
-- internal/repository/withdraw_repository.go: what a save of a withdraw request does.
use ganc_sys.Prelude.{
  ℕ, ◌≡◌, ◌⊎◌, refl, sym, ◌∙◌, ap, true, false, List, [], ◌∷◌, ◌++◌, some, inl, inr, arith, ◌==◌,
  ==_refl, ok, err, eqb, Bool-cases, other_failure,
}
use ganc_sys.Dict.{lookup, lookup-insert}
use ganc_sys.Text.{Text, text_eq}
use ganc_sys.Types.{WithdrawRequest}
use ganc_sys.Repository.Sql.{count_where}
use ganc_sys.Store.{MemoryStore, save_withdraw_request}
use ganc_sys.Repository.Backend.{Backend, find_row}
use ganc_sys.Repository.Withdraw.{
  WithdrawRepository, store_postgres, signed, save_request, get_request,
  insert_withdraw_request_postgres,
}

find_row-new :
    (wr : WithdrawRequest) (rows : List WithdrawRequest)
    → count_where (λ r. r.withdraw_id == wr.withdraw_id) rows ≡ 0
    → find_row (λ r. r.withdraw_id) wr.withdraw_id (rows ++ (wr ∷ [])) ≡ some wr
unfolding find_row count_where
find_row-new wr [] h = rw (==_refl wr.withdraw_id) refl
find_row-new wr (r ∷ rows) h = elim (Bool-cases (r.withdraw_id == wr.withdraw_id)) [
  | inl same ↦ absurd (ground (arith, h))
  | inr other ↦ rw other (find_row-new wr rows (ground (arith, h)))
]

abbrev pub appended : WithdrawRequest → Backend → Backend
appended wr b = record b { requests = b.requests ++ (wr ∷ []) }

module _ (repo : WithdrawRepository) (wr : WithdrawRequest) (b : Backend) where
  abbrev pub others : ℕ
  others = count_where (λ r. r.withdraw_id == wr.withdraw_id) b.requests

  pub insert-new :
      repo.has_pool ≡ true
      → others ≡ 0
      → insert_withdraw_request_postgres repo wr b ≡ (ok tt, appended wr b)
  unfolding insert_withdraw_request_postgres
  insert-new pool new = ground (arith, pool, new)

  pub insert-cases :
      (insert_withdraw_request_postgres repo wr b ≡ (err other_failure, b))
      ⊎ ((insert_withdraw_request_postgres repo wr b ≡ (ok tt, appended wr b))
          × (others ≡ 0)
          × (repo.has_pool ≡ true))
  unfolding insert_withdraw_request_postgres
  insert-cases = elim (Bool-cases (repo.has_pool)) [
    | inr no_pool ↦ inl (ground (arith, no_pool))
    | inl pool ↦ elim (Bool-cases (eqb others 0)) [
      | inr old ↦ inl (ground (arith, pool, old))
      | inl new ↦ inr (ground (arith, pool, new), ground (arith, new), pool)
    ]
  ]

module _ (sha256 : Text → List ℕ) (repo : WithdrawRepository) where
  abbrev pub saved : WithdrawRequest → Backend → Backend
  saved req b = record b { store = save_withdraw_request (signed repo sha256 req) b.store }

  pub save-memory :
      (req : WithdrawRequest) (b : Backend)
      → (repo.request_store == store_postgres) ≡ false
      → save_request repo sha256 req b ≡ (ok (signed repo sha256 req), saved req b)
  unfolding save_request
  save-memory req b memory = rw memory refl

  pub save-refused :
      (req : WithdrawRequest) (b : Backend)
      → (repo.request_store == store_postgres) ≡ true
      → insert_withdraw_request_postgres repo (signed repo sha256 req) b ≡ (err other_failure, b)
      → save_request repo sha256 req b ≡ (err other_failure, b)
  unfolding save_request
  save-refused req b mode refused = ground (arith, mode, refused)

  pub save-inserted :
      (req : WithdrawRequest) (b : Backend)
      → (repo.request_store == store_postgres) ≡ true
      → insert_withdraw_request_postgres repo (signed repo sha256 req) b
        ≡ (ok tt, appended (signed repo sha256 req) b)
      → save_request repo sha256 req b
        ≡ (ok (signed repo sha256 req), appended (signed repo sha256 req) b)
  unfolding save_request
  save-inserted req b mode inserted = ground (arith, mode, inserted)

  get-memory :
      (id : Text) (r : WithdrawRequest) (b : Backend)
      → (repo.request_store == store_postgres) ≡ false
      → lookup id b.store.withdraw_requests ≡ some r
      → get_request repo id b ≡ (ok r, b)
  unfolding get_request
  get-memory id r b memory found = rw (memory, found) refl

  get-postgres :
      (id : Text) (r : WithdrawRequest) (b : Backend)
      → (repo.request_store == store_postgres) ≡ true
      → repo.has_pool ≡ true
      → find_row (λ x. x.withdraw_id) id b.requests ≡ some r
      → get_request repo id b ≡ (ok r, b)
  unfolding get_request
  get-postgres id r b mode pool found = ground (arith, mode, pool, found)

  lookup-saved :
      (r : WithdrawRequest) (s : MemoryStore)
      → lookup r.withdraw_id (save_withdraw_request r s).withdraw_requests ≡ some r
  unfolding save_withdraw_request
  lookup-saved r s =
      rw (lookup-insert r.withdraw_id r.withdraw_id r s.withdraw_requests)
        (rw (==_refl r.withdraw_id) refl)

  -- A request that SaveWithdrawRequest saves is the one it was given, signed if it had no
  -- signature, and GetWithdrawRequest of its id returns it afterwards; for both request stores.
  pub get_request-save_request :
      (req r : WithdrawRequest) (b b' : Backend)
      → save_request repo sha256 req b ≡ (ok r, b')
      → (r ≡ signed repo sha256 req) × (get_request repo r.withdraw_id b' ≡ (ok r, b'))
  get_request-save_request req r b b' h =
      let it = signed repo sha256 req in
      elim (Bool-cases (repo.request_store == store_postgres)) [
        | inr memory ↦
            let e = sym (save-memory req b memory) ∙ h in
            let (same, state) : (it ≡ r) × (saved req b ≡ b') =
              (ground (arith, e), ap (λ x. x.1) e) in
            (
              sym same,
              rw (← same, ← state)
                  (get-memory it.withdraw_id it (saved req b) memory (lookup-saved it b.store)),
            )
        | inl mode ↦ elim (insert-cases repo it b) [
          | inl refused ↦ absurd (ground (arith, save-refused req b mode refused))
          | inr (inserted, new, pool) ↦
              let e = sym (save-inserted req b mode inserted) ∙ h in
              let (same, state) : (it ≡ r) × (appended it b ≡ b') =
                (ground (arith, e), ap (λ x. x.1) e) in
              (
                sym same,
                rw (← same, ← state)
                    (get-postgres it.withdraw_id it (appended it b) mode pool
                      (find_row-new it b.requests new)),
              )
        ]
      ]
