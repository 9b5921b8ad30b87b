-- ===== src/Service/Ordering.antt =====
-- internal/service/offchain_settlement_service.go: the order of the pending transitions, the prefix
-- that one batch takes, and its witness accounts.
pub mod Chain
pub mod Prefix
use ganc_sys.Prelude.{
  ℕ, zero, suc, Bool, true, false, not, ◌++◌, List, [], ◌∷◌, none, some, Option, ◌==◌, Result, ok,
  err, require, and_then, invalid_pending_settlement, length, if◌then◌else◌,
}
use ganc_sys.Prelude.Checked.{◌>>=◌, ◌>>◌}
use ganc_sys.Dict.{Dict, lookup, insert}
use ganc_sys.Text.{Text, text_eq, codes, is_empty, trim_space}
use ganc_sys.Repository.Settlement.{PendingDepositTransition, PendingWithdrawalTransition}

-- The two values of the field `kind`.
pub data TransitionKind : Type 0 where
  deposit withdrawal : TransitionKind

pub record PendingSettlementTransition : Type 0 where
  pub kind : TransitionKind
  pub id : Text
  pub owner_address : Text
  pub denom : Text
  pub root_before : Text
  pub root_after : Text
  pub balance_before : Text
  pub balance_after : Text

abbrev pub of_deposit : PendingDepositTransition → PendingSettlementTransition
of_deposit d = record {
  kind = TransitionKind.deposit;
  id = d.deposit_id;
  owner_address = d.owner_address;
  denom = d.denom;
  root_before = d.root_before;
  root_after = d.root_after;
  balance_before = d.balance_before;
  balance_after = d.balance_after;
}

abbrev pub of_withdrawal : PendingWithdrawalTransition → PendingSettlementTransition
of_withdrawal w = record {
  kind = TransitionKind.withdrawal;
  id = w.withdraw_id;
  owner_address = w.owner_address;
  denom = w.denom;
  root_before = w.root_before;
  root_after = w.root_after;
  balance_before = w.balance_before;
  balance_after = w.balance_after;
}

abbrev pub ByRoot : Type 0
ByRoot = Dict Text PendingSettlementTransition

-- `addPendingTransition`
unfoldable pub add_pending_transition : PendingSettlementTransition → ByRoot → Result ByRoot
add_pending_transition t by_root_before =
    if is_empty (trim_space t.root_before)
    then err invalid_pending_settlement
    else if is_empty (trim_space t.root_after)
    then err invalid_pending_settlement
    else elim (lookup t.root_before by_root_before) [
      | some _ ↦ err invalid_pending_settlement
      | none ↦ ok (insert t.root_before t by_root_before)
    ]

-- Each of the two loops that fill the map.
unfoldable pub add_transitions :
    {A : Type 0} → (A → PendingSettlementTransition) → List A → ByRoot → Result ByRoot
add_transitions f [] m = ok m
add_transitions f (x ∷ xs) m = and_then (add_pending_transition (f x) m) (add_transitions f xs)

-- The loop `for len(ordered) < len(byRootBefore)`: each round appends one transition, so the rounds
-- that are left are the size of the map at first.
unfoldable pub follow_roots : ℕ → Text → ByRoot → Result (List PendingSettlementTransition)
follow_roots zero current_root m = ok []
follow_roots (suc n) current_root m = elim (lookup current_root m) [
  | none ↦ err invalid_pending_settlement
  | some next ↦ and_then (follow_roots n next.root_after m) (λ rest. ok (next ∷ rest))
]

-- `orderPendingSettlementTransitions`
unfoldable pub order_pending_settlement_transitions :
    Text
    → List PendingDepositTransition
    → List PendingWithdrawalTransition
    → Result (List PendingSettlementTransition)
order_pending_settlement_transitions committed_root deposits withdrawals = do
  m ← add_transitions of_deposit deposits []
  by_root_before ← add_transitions of_withdrawal withdrawals m
  follow_roots (length by_root_before) committed_root by_root_before

-- `boundSingleWithdrawalPrefix`
unfoldable pub bound_single_withdrawal_prefix :
    List PendingSettlementTransition → List PendingSettlementTransition
bound_single_withdrawal_prefix [] = []
bound_single_withdrawal_prefix (t ∷ ts) =
    let rest = bound_single_withdrawal_prefix ts in
    elim (t.kind) [ TransitionKind.withdrawal ↦ t ∷ [] | TransitionKind.deposit ↦ t ∷ rest ]
