-- ===== src/Repository/Dashboard.antt =====
-- internal/repository/state_repository.go: the dashboard, with the chain's answers as parameters.
use ganc_sys.Prelude.{Bool, false, ◌||◌, not, [], ◌∷◌, ◌==◌, Result, ok, err, if◌then◌else◌}
use ganc_sys.Dict.{Dict}
use ganc_sys.Text.{Text, text_eq, codes, is_empty}
use ganc_sys.Types.{AppState}
use ganc_sys.Store.{MemoryStore}

pub record StateRepository : Type 0 where
  pub has_query_client : Bool
  pub query_mode : Text

-- `NewStateRepository`
abbrev pub new_state_repository : StateRepository
new_state_repository = record { has_query_client = false; query_mode = codes "local" }

-- `NewStateRepositoryWithChainQuery`
abbrev pub new_state_repository_with_chain_query : Bool → Text → StateRepository
new_state_repository_with_chain_query has_query_client query_mode = record {
  has_query_client = has_query_client;
  query_mode = if is_empty query_mode then codes "local" else query_mode;
}

-- `normalizeModuleBalance`
unfoldable pub normalize_module_balance : Dict Text Text → Dict Text Text
normalize_module_balance [] = (codes "uusdc", codes "0") ∷ []
normalize_module_balance (entry ∷ rest) = entry ∷ rest

abbrev pub with_root : Result Text → AppState → AppState
with_root (ok root) s = if is_empty root then s else record s { current_state_root = root }
with_root (err _) s = s

abbrev pub with_balance : Result (Dict Text Text) → AppState → AppState
with_balance (ok balance) s = record s { module_account_balance = normalize_module_balance balance }
with_balance (err _) s = s

module _ (repo : StateRepository) (root : Result Text) (balance : Result (Dict Text Text)) where
  -- `GetState`; root and balance are what `GetCurrentStateRoot` and `GetModuleAccountBalance` answer
  unfoldable pub get_state : MemoryStore → AppState
  unfolding normalize_module_balance
  get_state s =
      if not (repo.query_mode == codes "rest") || not repo.has_query_client
      then s.app_state
      else with_balance balance (with_root root s.app_state)
