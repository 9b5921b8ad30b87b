-- ===== src/Repository/Deposit.antt =====
-- internal/repository/deposit_repository.go: deposit records. The answer of the chain's REST client to
-- one query is a parameter: a record, none, or an error.
use ganc_sys.Prelude.{
  Bool, false, ◌&&◌, List, Option, none, some, ◌==◌, Result, ok, err, deposit_not_found,
  if◌then◌else◌,
}
use ganc_sys.Text.{Text, text_eq, codes, is_empty}
use ganc_sys.Types.{DepositRecord}
use ganc_sys.Store.{MemoryStore, get_deposit, save_deposit, list_deposits}

-- `has_query_client` is whether the field `chainQueryClient` is not nil.
pub record DepositRepository : Type 0 where
  pub has_query_client : Bool
  pub query_mode : Text

-- `NewDepositRepository`
abbrev pub new_deposit_repository : DepositRepository
new_deposit_repository = record { has_query_client = false; query_mode = codes "local" }

-- `NewDepositRepositoryWithChainQuery`
abbrev pub new_deposit_repository_with_chain_query : Bool → Text → DepositRepository
new_deposit_repository_with_chain_query has_query_client query_mode = record {
  has_query_client = has_query_client;
  query_mode = if is_empty query_mode then codes "local" else query_mode;
}

abbrev or_not_found : Option DepositRecord → Result DepositRecord
or_not_found none = err deposit_not_found
or_not_found (some r) = ok r

-- `getDepositLocalOnly`
unfoldable pub get_deposit_local_only : Text → MemoryStore → Result DepositRecord
get_deposit_local_only deposit_id s = or_not_found (get_deposit deposit_id s)

-- `getDepositChainFirst`
unfoldable pub get_deposit_chain_first :
    Result (Option DepositRecord) → Text → MemoryStore → Result DepositRecord
get_deposit_chain_first (err e) deposit_id s = err e
get_deposit_chain_first (ok (some r)) deposit_id s = ok r
get_deposit_chain_first (ok none) deposit_id s = or_not_found (get_deposit deposit_id s)

module _ (repo : DepositRepository) (chain : Text → Result (Option DepositRecord)) where
  -- `GetDeposit`
  unfoldable pub get_deposit_record : Text → MemoryStore → Result DepositRecord
  unfolding get_deposit_chain_first get_deposit_local_only
  get_deposit_record deposit_id s =
      if repo.query_mode == codes "rest" && repo.has_query_client
      then get_deposit_chain_first (chain deposit_id) deposit_id s
      else get_deposit_local_only deposit_id s

-- `SaveDeposit`
abbrev pub save_deposit_record : DepositRecord → MemoryStore → MemoryStore
save_deposit_record = save_deposit

-- `ListDeposits`
abbrev pub list_deposit_records : MemoryStore → List DepositRecord
list_deposit_records = list_deposits
