-- ===== src/Service/WitnessAccounts.antt =====
-- internal/service/offchain_settlement_service.go: the witness accounts of a batch of transitions.
use ganc_sys.Prelude.{
  ◌++◌, map, List, [], ◌∷◌, none, some, Option, ◌==◌, Result, ok, err, and_then,
  invalid_pending_settlement, if◌then◌else◌,
}
use ganc_sys.Prelude.Checked.{◌>>=◌}
use ganc_sys.Dict.{Dict, lookup, insert}
use ganc_sys.Text.{Text, text_eq, codes, is_empty, trim_space}
use ganc_sys.Batch.Witness.{AccountWitnessSecret}
use ganc_sys.Batch.Apply.{AccountSecret}
use ganc_sys.Service.Ordering.{PendingSettlementTransition}

-- `offchainSettlementDefaultSecret`
abbrev pub offchain_settlement_default_secret : Text
offchain_settlement_default_secret = codes "mock-user-secret"

-- `indexAccountSecrets`, with the map so far
unfoldable pub index_account_secrets : Dict Text Text → List AccountSecret → Result (Dict Text Text)
index_account_secrets out [] = ok out
index_account_secrets out (s ∷ ss) =
    let owner = trim_space s.owner in
    let user_secret = trim_space s.user_secret in
    let rest = index_account_secrets (insert owner user_secret out) ss in
    if is_empty owner
    then err invalid_pending_settlement
    else if is_empty user_secret
    then err invalid_pending_settlement
    else elim (lookup owner out) [ some _ ↦ err invalid_pending_settlement | none ↦ rest ]

-- `resolveAccountSecret`
unfoldable pub resolve_account_secret : Dict Text Text → Text → Text
resolve_account_secret secrets owner = elim (lookup owner secrets) [
  | some secret ↦ secret
  | none ↦ offchain_settlement_default_secret
]

pub record PendingOwnerWitnessBalance : Type 0 where
  pub owner : Text
  pub denom : Text
  pub old_balance : Text
  pub new_balance : Text

-- `ownerOrder` and `byOwner`
pub record OwnerBalances : Type 0 where
  pub owner_order : List Text
  pub by_owner : Dict Text PendingOwnerWitnessBalance

-- One round of the loop over the transitions.
unfoldable pub add_owner_balance :
    PendingSettlementTransition → OwnerBalances → Result OwnerBalances
add_owner_balance t b =
    let owner = trim_space t.owner_address in
    let denom = trim_space t.denom in
    if is_empty owner
    then err invalid_pending_settlement
    else if is_empty denom
    then err invalid_pending_settlement
    else elim (lookup owner b.by_owner) [
      | none ↦ ok (record {
        owner_order = b.owner_order ++ (owner ∷ []);
        by_owner =
            insert owner
              (record {
                owner = owner;
                denom = denom;
                old_balance = t.balance_before;
                new_balance = t.balance_after;
              })
              b.by_owner;
      })
      | some current ↦
          if current.denom == denom
          then ok (record b {
            by_owner = insert owner (record current { new_balance = t.balance_after }) b.by_owner;
          })
          else err invalid_pending_settlement
    ]

unfoldable pub collect_owner_balances :
    List PendingSettlementTransition → OwnerBalances → Result OwnerBalances
collect_owner_balances [] b = ok b
collect_owner_balances (t ∷ ts) b = and_then (add_owner_balance t b) (collect_owner_balances ts)

-- A missing key reads as the zero value; every owner of the order has an entry.
abbrev pub balance_or_zero : Option PendingOwnerWitnessBalance → PendingOwnerWitnessBalance
balance_or_zero (some b) = b
balance_or_zero none = record { owner = []; denom = []; old_balance = []; new_balance = [] }

abbrev pub witness_secret_of : Dict Text Text → OwnerBalances → Text → AccountWitnessSecret
witness_secret_of secrets b owner =
    let balance = balance_or_zero (lookup owner b.by_owner) in
    record {
      owner = owner;
      user_secret = resolve_account_secret secrets owner;
      old_balance = balance.old_balance;
      new_balance = balance.new_balance;
    }

-- `buildWitnessAccountsFromPendingTransitions`
unfoldable pub build_witness_accounts_from_pending_transitions :
    List PendingSettlementTransition → List AccountSecret → Result (List AccountWitnessSecret)
build_witness_accounts_from_pending_transitions transitions account_secrets = do
  secrets ← index_account_secrets [] account_secrets
  b ← collect_owner_balances transitions (record { owner_order = []; by_owner = [] })
  ok (map (witness_secret_of secrets b) b.owner_order)
