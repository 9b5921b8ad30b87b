-- ===== src/Repository/Withdraw.antt =====
-- internal/repository/withdraw_repository.go: requests of withdrawals, in the memory store or
-- in Postgres. A statement fails on a missing pool, on a constraint and at the end of the
-- sequence; other failures of the database are left out.
pub mod Requests
pub mod Numbering
use ganc_sys.Prelude.{
  ℕ, ◌+◌, Bool, false, not, List, [], ◌∷◌, ◌++◌, none, some, Option, ◌==◌, ok, Error, Exec, eqb,
  other_failure, withdraw_request_not_found, if◌then◌else◌,
}
use ganc_sys.Prelude.Effects.{◌>>=◌, ◌>>◌, pure, raise, gets, modify, raise_if}
use ganc_sys.Text.{Text, text_eq, codes, is_empty}
use ganc_sys.Text.Int64.{format_int}
use ganc_sys.Hash.{hex_encode}
use ganc_sys.Types.{WithdrawRequest}
use ganc_sys.State.Request.{WithdrawIntent}
use ganc_sys.Store.{
  next_withdraw_sequence, save_withdraw_request, get_withdraw_request, list_withdraw_requests,
}
use ganc_sys.Repository.Sql.{count_where}
use ganc_sys.Repository.Backend.{Backend, find_row, or_panic, next_value}

-- The fields of the repository besides the store and the pool's tables.
pub record WithdrawRepository : Type 0 where
  pub has_pool : Bool
  pub request_store : Text
  pub record_store : Text

abbrev pub store_memory : Text
store_memory = codes "memory"

abbrev pub store_postgres : Text
store_postgres = codes "postgres"

-- `NewWithdrawRepository`
abbrev pub new_withdraw_repository : WithdrawRepository
new_withdraw_repository = record {
  has_pool = false;
  request_store = store_memory;
  record_store = store_memory;
}

abbrev or_memory : Text → Text
or_memory t = if is_empty t then store_memory else t

-- `recordStoreValues[0]`
abbrev first_or_memory : List Text → Text
first_or_memory [] = store_memory
first_or_memory (t ∷ _) = or_memory t

-- `NewWithdrawRepositoryWithDB`
abbrev pub new_withdraw_repository_with_db : Bool → Text → List Text → WithdrawRepository
new_withdraw_repository_with_db has_pool request_store record_stores = record {
  has_pool = has_pool;
  request_store = or_memory request_store;
  record_store = first_or_memory record_stores;
}

-- `fmt.Sprintf("wd-%d", seq)`
abbrev pub withdraw_id_of : ℕ → Text
withdraw_id_of seq = codes "wd-" ++ format_int seq

-- The bytes that `localWithdrawSignature` and its like write to the hash.
unfoldable pub piped : List Text → Text
piped [] = []
piped (part ∷ parts) = part ++ codes "|" ++ piped parts

unfoldable pub first : ℕ → Text → Text
first ℕ.zero t = []
first (ℕ.suc n) [] = []
first (ℕ.suc n) (c ∷ t) = c ∷ first n t

module _ (sha256 : Text → List ℕ) where
  -- `localWithdrawSignature`
  unfoldable pub local_withdraw_signature : List Text → Text
  unfolding piped first hex_encode
  local_withdraw_signature parts = codes "0x" ++ first 32 (hex_encode (sha256 (piped parts)))

  -- The request that both `createWithdrawRequest…` methods build from a sequence number.
  unfoldable pub legacy_request : WithdrawIntent → ℕ → WithdrawRequest
  unfolding local_withdraw_signature
  legacy_request req seq =
      let nonce = format_int seq in
      record {
        withdraw_id = withdraw_id_of seq;
        owner = req.owner;
        denom = req.denom;
        amount = req.amount;
        destination = req.destination;
        nonce = nonce;
        signature =
            local_withdraw_signature
              (req.owner ∷ req.denom ∷ req.amount ∷ req.destination ∷ nonce ∷ []);
      }

  -- `createWithdrawRequestMemory`
  unfoldable pub create_withdraw_request_memory : WithdrawIntent → Exec Backend WithdrawRequest
  create_withdraw_request_memory req b =
      let (seq, store) = next_withdraw_sequence b.store in
      let request = legacy_request req seq in
      (ok request, record b { store = save_withdraw_request request store })

module _ (repo : WithdrawRepository) where
  -- `if r.dbPool == nil { return errors.New(…) }`
  abbrev pub need_pool : Exec Backend (Unit {0})
  need_pool b = raise_if (not repo.has_pool) other_failure b

  -- `insertWithdrawRequestPostgres`; the primary key keeps a second row of an id out
  unfoldable pub insert_withdraw_request_postgres : WithdrawRequest → Exec Backend (Unit {0})
  insert_withdraw_request_postgres wr = do
    need_pool
    rows ← gets (λ b. b.requests)
    raise_if (not (eqb (count_where (λ r. r.withdraw_id == wr.withdraw_id) rows) 0)) other_failure
    modify (λ b. record b { requests = rows ++ (wr ∷ []) })

  -- `createWithdrawRequestPostgres`
  unfoldable pub create_withdraw_request_postgres :
      (Text → List ℕ) → WithdrawIntent → Exec Backend WithdrawRequest
  create_withdraw_request_postgres sha256 req = do
    need_pool
    seq ← next_value
    insert_withdraw_request_postgres (legacy_request sha256 req seq)
    pure (legacy_request sha256 req seq)

  -- `CreateWithdrawRequest`
  unfoldable pub create_withdraw_request :
      (Text → List ℕ) → WithdrawIntent → Exec Backend WithdrawRequest
  create_withdraw_request sha256 req =
      if repo.request_store == store_postgres
      then or_panic (create_withdraw_request_postgres sha256 req)
      else create_withdraw_request_memory sha256 req

  -- `NextWithdrawID`
  unfoldable pub next_withdraw_id : Exec Backend Text
  next_withdraw_id =
      if repo.request_store == store_postgres
      then (do need_pool; seq ← next_value; pure (withdraw_id_of seq))
      else λ b.
          let (seq, store) = next_withdraw_sequence b.store in
          (ok (withdraw_id_of seq), record b { store = store })

  -- The request that `SaveWithdrawRequest` saves: with a signature.
  abbrev pub signed : (Text → List ℕ) → WithdrawRequest → WithdrawRequest
  signed sha256 req =
      if is_empty req.signature
      then record req {
        signature =
            local_withdraw_signature sha256
              (req.owner ∷ req.denom ∷ req.amount ∷ req.destination ∷ req.nonce ∷ []);
      }
      else req

  -- `SaveWithdrawRequest`
  unfoldable pub save_request : (Text → List ℕ) → WithdrawRequest → Exec Backend WithdrawRequest
  save_request sha256 req =
      if repo.request_store == store_postgres
      then (do insert_withdraw_request_postgres (signed sha256 req); pure (signed sha256 req))
      else λ b. (
        ok (signed sha256 req),
        record b { store = save_withdraw_request (signed sha256 req) b.store },
      )

  abbrev pub found_or : {A : Type 0} → Error → Option A → Exec Backend A
  found_or e none = raise e
  found_or e (some a) = pure a

  -- `GetWithdrawRequest`, with `getWithdrawRequestPostgres` and `getWithdrawRequestMemory`
  unfoldable pub get_request : Text → Exec Backend WithdrawRequest
  get_request id =
      if repo.request_store == store_postgres
      then (do
        need_pool
        rows ← gets (λ b. b.requests)
        found_or withdraw_request_not_found (find_row (λ r. r.withdraw_id) id rows))
      else λ b. found_or withdraw_request_not_found (get_withdraw_request id b.store) b

  -- `ListWithdrawRequests`, with `listWithdrawRequestsPostgres`
  unfoldable pub list_requests : Exec Backend (List WithdrawRequest)
  list_requests =
      if repo.request_store == store_postgres
      then or_panic (do need_pool; gets (λ b. b.requests))
      else gets (λ b. list_withdraw_requests b.store)
