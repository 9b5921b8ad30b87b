-- ===== src/Repository/Withdraw/Numbering.antt =====
-- internal/repository/withdraw_repository.go: the ids that the sequence gives.
use ganc_sys.Prelude.{
  ℕ, ◌+◌, ◌%◌, ◌^◌, ◌<◌, ◌≡◌, ◌≢◌, ◌⊎◌, refl, sym, ◌∙◌, ap, true, false, List, [], ◌∷◌, ◌++◌, none,
  inl, inr, arith, ◌==◌, ==_ne, Result, ok, if◌then◌else◌, Option-cases, All, All-map, All-append,
}
use mathlib.Core.Option.{some-injective}
use ganc_sys.Dict.{lookup}
use ganc_sys.Dict.Laws.{All-insert, All-lookup}
use ganc_sys.Text.{Text, text_eq}
use ganc_sys.Text.Int64.{format_int, parse_int, parse_int-format_int}
use ganc_sys.Types.{WithdrawRequest}
use ganc_sys.State.Request.{WithdrawIntent}
use ganc_sys.Repository.Sql.{count_where}
use ganc_sys.Store.{next_withdraw_sequence, save_withdraw_request, list_withdraw_requests}
use ganc_sys.Store.Tables.Upsert.{IsTable, in_order-save_new, save-IsTable}
use ganc_sys.Repository.Backend.{Backend, next_value}
use ganc_sys.Repository.Withdraw.{
  WithdrawRepository, store_postgres, withdraw_id_of, list_requests, create_withdraw_request,
  create_withdraw_request_memory, legacy_request, create_withdraw_request_postgres,
  insert_withdraw_request_postgres,
}
use ganc_sys.Repository.Withdraw.Requests.{appended, insert-new}

format_int_inj : (j k : ℕ) → j < 2 ^ 64 → k < 2 ^ 64 → format_int j ≡ format_int k → j ≡ k
format_int_inj j k hj hk e =
    some-injective j k
      (sym (parse_int-format_int j hj) ∙ ap parse_int e ∙ parse_int-format_int k hk)

withdraw_id_of_inj :
    (j k : ℕ) → j < 2 ^ 64 → k < 2 ^ 64 → withdraw_id_of j ≡ withdraw_id_of k → j ≡ k
withdraw_id_of_inj j k hj hk e = format_int_inj j k hj hk (ground (arith, e))

-- An id that was reserved before the sequence came to n.
abbrev pub IsReserved : ℕ → Text → Type 0
IsReserved n id = (k : ℕ) × (k < n) × (id ≡ withdraw_id_of k)

fresh_id : (n : ℕ) (id : Text) → n < 2 ^ 64 → IsReserved n id → id ≢ withdraw_id_of n
fresh_id n id h (k, low, e) same =
    let it : k ≡ n = withdraw_id_of_inj k n (omega arith) h (sym e ∙ same) in omega (arith, it)

count-fresh :
    (id : Text) (rows : List WithdrawRequest)
    → All (λ (r : WithdrawRequest). r.withdraw_id ≢ id) rows
    → count_where (λ r. r.withdraw_id == id) rows ≡ 0
unfolding count_where
count-fresh id [] h = refl
count-fresh id (r ∷ rows) h = ground (arith, ==_ne r.withdraw_id id h.0, count-fresh id rows h.1)

module _ (repo : WithdrawRepository) where
  -- The ids of the requests come from the sequence, which is not at its end.
  abbrev pub IsNumbered : Backend → Type 0
  IsNumbered b =
      ((repo.request_store == store_postgres ≡ true)
        × (repo.has_pool ≡ true)
        × All (λ (r : WithdrawRequest). IsReserved b.request_seq r.withdraw_id) b.requests)
      ⊎ ((repo.request_store == store_postgres ≡ false)
          × IsTable (λ (r : WithdrawRequest). r.withdraw_id) b.store.withdraw_requests
              b.store.withdraw_request_order
          × All (λ (e : Text × WithdrawRequest). IsReserved b.store.next_withdraw_seq e.0)
              b.store.withdraw_requests)

  listed-postgres :
      (repo.request_store == store_postgres) ≡ true
      → repo.has_pool ≡ true
      → (b : Backend) → list_requests repo b ≡ (ok b.requests, b)
  unfolding list_requests
  listed-postgres mode pool b = ground (arith, mode, pool)

  listed-memory :
      (repo.request_store == store_postgres) ≡ false
      → (b : Backend) → list_requests repo b ≡ (ok (list_withdraw_requests b.store), b)
  unfolding list_requests
  listed-memory memory b = rw memory refl

  -- The next number.
  abbrev pub next_number : Backend → ℕ
  next_number b =
      if repo.request_store == store_postgres then b.request_seq else b.store.next_withdraw_seq

IsReserved-later : (n : ℕ) (id : Text) → IsReserved n id → IsReserved (n + 1) id
IsReserved-later n id (k, low, e) = (k, omega arith, e)

module _ (sha256 : Text → List ℕ) (repo : WithdrawRepository) (req : WithdrawIntent)
    (b : Backend) where
  module _ (mode : (repo.request_store == store_postgres) ≡ true) (pool : repo.has_pool ≡ true)
      (bound : b.request_seq < 2 ^ 63) where
    abbrev row : WithdrawRequest
    row = legacy_request sha256 req b.request_seq

    abbrev advanced : Backend
    advanced = record b { request_seq = b.request_seq + 1 }

    create-postgres :
        insert_withdraw_request_postgres repo row advanced ≡ (ok tt, appended row advanced)
        → create_withdraw_request repo sha256 req b ≡ (ok row, appended row advanced)
    unfolding create_withdraw_request create_withdraw_request_postgres next_value
    create-postgres inserted = ground (arith, mode, pool, bound, inserted)

    fresh_row :
        All (λ (r : WithdrawRequest). IsReserved b.request_seq r.withdraw_id) b.requests
        → insert_withdraw_request_postgres repo row advanced ≡ (ok tt, appended row advanced)
    unfolding legacy_request
    fresh_row numbered = insert-new repo row advanced pool (
        count-fresh row.withdraw_id b.requests (
          All-map (λ r p. fresh_id b.request_seq r.withdraw_id (omega (arith, bound)) p) b.requests
            numbered))

  module _ (memory : (repo.request_store == store_postgres) ≡ false) where
    abbrev item : WithdrawRequest
    item = legacy_request sha256 req b.store.next_withdraw_seq

    abbrev after : Backend
    after = record b { store = save_withdraw_request item (next_withdraw_sequence b.store).1 }

    create-memory : create_withdraw_request repo sha256 req b ≡ (ok item, after)
    unfolding create_withdraw_request create_withdraw_request_memory next_withdraw_sequence
    create-memory = rw memory refl

    fresh_item :
        b.store.next_withdraw_seq < 2 ^ 64
        → All
            (λ (e : Text × WithdrawRequest). IsReserved b.store.next_withdraw_seq e.0)
            b.store.withdraw_requests
        → lookup item.withdraw_id b.store.withdraw_requests ≡ none
    unfolding legacy_request
    fresh_item bound numbered =
        elim (Option-cases (lookup item.withdraw_id b.store.withdraw_requests)) [
          | inl absent ↦ absent
          | inr (x, found) ↦ absurd (
              fresh_id b.store.next_withdraw_seq item.withdraw_id bound
                (All-lookup (λ e. IsReserved b.store.next_withdraw_seq e.0) item.withdraw_id x
                  b.store.withdraw_requests numbered found)
                refl)
        ]

    listed_after :
        IsTable
          (λ (r : WithdrawRequest). r.withdraw_id)
          b.store.withdraw_requests
          b.store.withdraw_request_order
        → lookup item.withdraw_id b.store.withdraw_requests ≡ none
        → (list_withdraw_requests after.store ≡ list_withdraw_requests b.store ++ (item ∷ []))
          × IsTable
              (λ (r : WithdrawRequest). r.withdraw_id)
              after.store.withdraw_requests
              after.store.withdraw_request_order
    unfolding list_withdraw_requests save_withdraw_request next_withdraw_sequence
    listed_after table absent = (
      in_order-save_new (λ (r : WithdrawRequest). r.withdraw_id) item b.store.withdraw_requests
          b.store.withdraw_request_order table absent,
      save-IsTable (λ (r : WithdrawRequest). r.withdraw_id) item b.store.withdraw_requests
          b.store.withdraw_request_order table,
    )

    numbered_after :
        b.store.next_withdraw_seq + 1 < 2 ^ 64
        → All
            (λ (e : Text × WithdrawRequest). IsReserved b.store.next_withdraw_seq e.0)
            b.store.withdraw_requests
        → All
            (λ (e : Text × WithdrawRequest). IsReserved after.store.next_withdraw_seq e.0)
            after.store.withdraw_requests
    unfolding save_withdraw_request next_withdraw_sequence legacy_request
    numbered_after bound numbered =
        let n = b.store.next_withdraw_seq in
        let step : (n + 1) % 2 ^ 64 ≡ n + 1 = omega (arith, bound) in
        rw step (
          All-insert (λ e. IsReserved (n + 1) e.0) item.withdraw_id item b.store.withdraw_requests
            (All-map (λ e p. IsReserved-later n e.0 p) b.store.withdraw_requests numbered)
            (n, omega arith, refl))

  -- With a database and the ids of all stored requests taken from the sequence, whose next number
  -- is below 2^63 - 1, the legacy CreateWithdrawRequest succeeds: the stored requests are those
  -- before, then the new one, and all ids are taken from the sequence again.
  pub create_withdraw_request_appends :
      IsNumbered repo b
      → next_number repo b + 1 < 2 ^ 63
      → (r : WithdrawRequest) × (b' : Backend) × (rows : List WithdrawRequest)
        × (create_withdraw_request repo sha256 req b ≡ (ok r, b'))
        × (list_requests repo b ≡ (ok rows, b))
        × (list_requests repo b' ≡ (ok (rows ++ (r ∷ [])), b'))
        × IsNumbered repo b'
  create_withdraw_request_appends (inl (mode, pool, numbered)) bound =
      let low : b.request_seq < 2 ^ 63 = ground (arith, mode, bound) in
      let n = b.request_seq in
      (
        row mode pool low,
        appended (row mode pool low) (advanced mode pool low),
        b.requests,
        create-postgres mode pool low (fresh_row mode pool low numbered),
        listed-postgres repo mode pool b,
        listed-postgres repo mode pool (appended (row mode pool low) (advanced mode pool low)),
        inl (
          mode,
          pool,
          All-append (λ (x : WithdrawRequest). IsReserved (n + 1) x.withdraw_id) b.requests
              (row mode pool low ∷ [])
              (All-map (λ x p. IsReserved-later n x.withdraw_id p) b.requests numbered)
              (unfold legacy_request in (n, omega arith, refl), tt),
        ),
      )
  create_withdraw_request_appends (inr (memory, table, numbered)) bound =
      let low : b.store.next_withdraw_seq + 1 < 2 ^ 64 = ground (arith, memory, bound) in
      let (listed, table') =
        listed_after memory table (fresh_item memory (omega (arith, low)) numbered) in
      (
        item memory,
        after memory,
        list_withdraw_requests b.store,
        create-memory memory,
        listed-memory repo memory b,
        listed-memory repo memory (after memory) ∙ ap (λ t. (Result.ok t, after memory)) listed,
        inr (memory, table', numbered_after memory low numbered),
      )
