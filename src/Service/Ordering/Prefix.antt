-- ===== src/Service/Ordering/Prefix.antt =====
-- internal/service/offchain_settlement_service.go: the prefix that one batch takes.
use ganc_sys.Prelude.{
  ℕ, ◌⊎◌, inl, inr, ◌≤◌, ◌<◌, ◌≡◌, refl, ap, sym, subst, ◌++◌, List, [], ◌∷◌, arith, length, sum_of,
}
use ganc_sys.Text.{Text}
use ganc_sys.Service.Ordering.{
  TransitionKind, PendingSettlementTransition, bound_single_withdrawal_prefix,
}
use ganc_sys.Service.Ordering.Chain.{IsChain}

abbrev pub one_withdrawal : TransitionKind → ℕ
one_withdrawal TransitionKind.deposit = 0
one_withdrawal TransitionKind.withdrawal = 1

-- How many of the transitions are withdrawals.
abbrev pub withdrawals_in : List PendingSettlementTransition → ℕ
withdrawals_in ts = sum_of (λ t. one_withdrawal t.kind) ts

-- The prefix is a beginning of the order that is empty only if the order is, has at most one
-- withdrawal, and leaves a rest only behind a withdrawal.
pub record IsBoundedPrefix (ts prefix : List PendingSettlementTransition) : Type 0 where
  pub rest : List PendingSettlementTransition
  pub split : ts ≡ prefix ++ rest
  pub at_most_one : withdrawals_in prefix ≤ 1
  pub longest : (withdrawals_in prefix ≡ 1) ⊎ (rest ≡ [])
  pub nonempty : (ts ≡ []) ⊎ (0 < length prefix)

prefix_cons :
    (kind : TransitionKind) (t : PendingSettlementTransition)
    (ts : List PendingSettlementTransition)
    → t.kind ≡ kind
    → IsBoundedPrefix ts (bound_single_withdrawal_prefix ts)
    → IsBoundedPrefix (t ∷ ts) (bound_single_withdrawal_prefix (t ∷ ts))
unfolding bound_single_withdrawal_prefix
prefix_cons TransitionKind.withdrawal t ts k h =
    let cut : bound_single_withdrawal_prefix (t ∷ ts) ≡ t ∷ [] = ground (arith, k) in
    let one : one_withdrawal t.kind ≡ 1 = ap one_withdrawal k in
    subst (IsBoundedPrefix (t ∷ ts)) (sym cut) (record {
      rest = ts;
      split = refl;
      at_most_one = omega (arith, one);
      longest = inl (omega (arith, one));
      nonempty = inr (omega arith);
    })
prefix_cons TransitionKind.deposit t ts k h =
    let kept : bound_single_withdrawal_prefix (t ∷ ts) ≡ t ∷ bound_single_withdrawal_prefix ts =
      ground (arith, k) in
    let none : one_withdrawal t.kind ≡ 0 = ap one_withdrawal k in
    subst (IsBoundedPrefix (t ∷ ts)) (sym kept) (record {
      rest = h.rest;
      split = ap (λ us. t ∷ us) h.split;
      at_most_one = omega (arith, none, h.at_most_one);
      longest = ground (arith, none, h.longest);
      nonempty = inr (omega arith);
    })

-- The prefix that a batch takes is a beginning of the order with at most one withdrawal; it has one
-- or the whole order, and is empty only if the order is.
pub bound_single_withdrawal_prefix-IsBoundedPrefix :
    (ts : List PendingSettlementTransition) → IsBoundedPrefix ts (bound_single_withdrawal_prefix ts)
unfolding bound_single_withdrawal_prefix
bound_single_withdrawal_prefix-IsBoundedPrefix [] = record {
  rest = [];
  split = refl;
  at_most_one = omega arith;
  longest = inr refl;
  nonempty = inl refl;
}
bound_single_withdrawal_prefix-IsBoundedPrefix (t ∷ ts) =
    prefix_cons t.kind t ts refl (bound_single_withdrawal_prefix-IsBoundedPrefix ts)

-- A beginning of a chain is a chain.
pub IsChain-prefix :
    (root : Text) (ts us : List PendingSettlementTransition)
    → IsChain root (ts ++ us)
    → IsChain root ts
IsChain-prefix root [] us h = tt
IsChain-prefix root (t ∷ ts) us h = (h.0, IsChain-prefix t.root_after ts us h.1)
