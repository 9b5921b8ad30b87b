-- ===== src/Store/Balances.antt =====
-- internal/store/memory_store.go: the balances of the dashboard, decimal texts of int64 values.
use ganc_sys.Prelude.{ℕ, ◌^◌, ◌<◌, Option, none, some, [], inl, inr, arith, Option-cases}
use ganc_sys.Dict.{Dict, lookup, insert}
use ganc_sys.Text.{Text, text_eq}
use ganc_sys.Text.Int64.{parse_int, format_int, add64, sub64, parse_int-lt}

abbrev or_zero : Option ℕ → ℕ
or_zero none = 0
or_zero (some v) = v

-- `parseInt64OrZero`
unfoldable pub parse_int64_or_zero : Text → ℕ
parse_int64_or_zero value = or_zero (parse_int value)

-- `m[key]` of a map of strings: the zero value when there is no entry
abbrev pub or_empty : Option Text → Text
or_empty none = []
or_empty (some t) = t

-- `creditBalance`
unfoldable pub credit_balance : Text → Text → Dict Text Text → Dict Text Text
unfolding parse_int64_or_zero
credit_balance key amount balances =
    let current = parse_int64_or_zero (or_empty (lookup key balances)) in
    let delta = parse_int64_or_zero amount in insert key (format_int (add64 current delta)) balances

-- `debitBalance`
unfoldable pub debit_balance : Text → Text → Dict Text Text → Dict Text Text
unfolding parse_int64_or_zero
debit_balance key amount balances =
    let current = parse_int64_or_zero (or_empty (lookup key balances)) in
    let delta = parse_int64_or_zero amount in insert key (format_int (sub64 current delta)) balances

-- What a balance reads as.
unfoldable pub reading : Text → Dict Text Text → ℕ
reading key balances = parse_int64_or_zero (or_empty (lookup key balances))

pub parse_int64_or_zero-lt : (amount : Text) → parse_int64_or_zero amount < 2 ^ 64
unfolding parse_int64_or_zero
parse_int64_or_zero-lt amount = elim (Option-cases (parse_int amount)) [
  | inl bad ↦ rw bad (omega arith)
  | inr (w, read) ↦ rw read (parse_int-lt amount w read)
]
