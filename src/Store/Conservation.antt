-- ===== src/Store/Conservation.antt =====
-- internal/store/memory_store.go: the units that the dashboard shows.
use ganc_sys.Prelude.{
  ℕ, ◌+◌, ◌%◌, ◌^◌, ◌<◌, ◌≡◌, refl, ◌∙◌, [], ◌∷◌, Option, none, some, inl, inr, arith, List, sum_of,
  Option-cases,
}
use ganc_sys.Dict.{Dict, lookup, insert}
use ganc_sys.Dict.Laws.{sum_of-insert}
use ganc_sys.Text.{Text, text_eq}
use ganc_sys.Text.Decimal.{set_string}
use ganc_sys.Text.Int64.{add64, sub64, format_int, parse_int, parse_int-format_int}
use ganc_sys.Types.{WithdrawRecord}
use ganc_sys.Store.{
  MemoryStore, user_key, save_deposit, save_withdraw_request, save_batch_build, save_proof_bundle,
  save_withdraw_record, save_withdraw_records, save_batch_submitted, claim_withdraw_record,
  claim_found, claim_entry, next_withdraw_sequence,
}
use ganc_sys.Store.Balances.{
  parse_int64_or_zero, parse_int64_or_zero-lt, credit_balance, debit_balance, or_empty,
}
use ganc_sys.Store.Refinement.{
  Call, deposit, sequence, request, build, proof, submitted, withdraw_record, claim, perform,
  perform_all,
}

-- The 64-bit words that the balances of a map read as, summed.
unfoldable pub total : Dict Text Text → ℕ
total m = sum_of (λ (e : Text × Text). parse_int64_or_zero e.1) m

reads_back : (w : ℕ) → w < 2 ^ 64 → parse_int64_or_zero (format_int w) ≡ w
unfolding parse_int64_or_zero
reads_back w h = rw (parse_int-format_int w h) refl

reads_empty : parse_int64_or_zero [] ≡ 0
unfolding parse_int64_or_zero parse_int set_string
reads_empty = refl

module _ (key : Text) (w : ℕ) (m : Dict Text Text) (small : w < 2 ^ 64) where
  total-insert :
      total (insert key (format_int w) m) + parse_int64_or_zero (or_empty (lookup key m))
      ≡ total m + w
  unfolding total
  total-insert =
      let law = sum_of-insert (λ (e : Text × Text). parse_int64_or_zero e.1) key (format_int w) m in
      elim (Option-cases (lookup key m)) [
        | inl absent ↦ rw absent (omega (arith, rw absent at law, reads_back w small, reads_empty))
        | inr (t, found) ↦ rw found (omega (arith, rw found at law, reads_back w small))
      ]

-- The units of both maps, as a 64-bit word.
abbrev pub shown : MemoryStore → ℕ
shown s = (total s.app_state.user_balances + total s.app_state.module_account_balance) % 2 ^ 64

-- What a debit takes from one map and a credit gives to the other.
module _ (from to : Text) (amount : Text) (m n : Dict Text Text) where
  pub total-moved :
      (total (debit_balance from amount m) + total (credit_balance to amount n)) % 2 ^ 64
      ≡ (total m + total n) % 2 ^ 64
  unfolding debit_balance credit_balance
  total-moved =
      let a = parse_int64_or_zero (or_empty (lookup from m)) in
      let b = parse_int64_or_zero (or_empty (lookup to n)) in
      let d = parse_int64_or_zero amount in
      omega (
        arith,
        total-insert from (sub64 a d) m (omega arith),
        total-insert to (add64 b d) n (omega arith),
        parse_int64_or_zero-lt amount,
        parse_int64_or_zero-lt (or_empty (lookup from m)),
        parse_int64_or_zero-lt (or_empty (lookup to n)),
      )

records_shown :
    (rs : List WithdrawRecord) (s : MemoryStore) → shown (save_withdraw_records rs s) ≡ shown s
unfolding save_withdraw_records save_withdraw_record
records_shown [] s = refl
records_shown (r ∷ rs) s = records_shown rs (save_withdraw_record r s)

claim_shown :
    (id : Text) (o : Option WithdrawRecord) (s : MemoryStore)
    → shown (claim_entry id o s).1 ≡ shown s
unfolding claim_entry claim_found
claim_shown id none s = refl
claim_shown id (some r) s = omega (
  arith,
  total-moved r.denom (user_key r.destination r.denom) r.amount s.app_state.module_account_balance
      s.app_state.user_balances,
)

shown-perform : (c : Call) (s : MemoryStore) → shown (perform c s) ≡ shown s
unfolding perform save_deposit save_withdraw_request save_batch_build save_proof_bundle
    save_withdraw_record save_batch_submitted claim_withdraw_record next_withdraw_sequence
shown-perform (deposit r) s =
    total-moved (user_key r.owner r.denom) r.denom r.amount s.app_state.user_balances
      s.app_state.module_account_balance
shown-perform sequence s = refl
shown-perform (request r) s = refl
shown-perform (build u c) s = refl
shown-perform (proof b) s = refl
shown-perform (submitted u c rs) s = records_shown rs s
shown-perform (withdraw_record r) s = refl
shown-perform (claim id) s = claim_shown id (lookup id s.withdraw_records) s

-- The dashboard neither makes nor loses money: after any list of calls on a memory store, the
-- 64-bit readings of all user balances and of all module balances have the sum they had before,
-- modulo 2^64.
pub store_shown : (cs : List Call) (s : MemoryStore) → shown (perform_all cs s) ≡ shown s
unfolding perform_all
store_shown [] s = refl
store_shown (c ∷ cs) s = store_shown cs (perform c s) ∙ shown-perform c s
