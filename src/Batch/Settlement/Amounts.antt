-- ===== src/Batch/Settlement/Amounts.antt =====
-- internal/batch/builder.go: the amounts of package batch and those of package state.
use ganc_sys.Prelude.{ℕ, ◌<◌, ◌≡◌, ◌↔◌, arith, ok, Result-cases, inl, inr}
use ganc_sys.Text.{Text}
use ganc_sys.State.Account.{parse_non_negative_amount}
use ganc_sys.State.Account.Valid.{amount_of}
use ganc_sys.Batch.Settlement.{parse_non_negative, parse_positive}

pub parse_non_negative_agrees :
    (t : Text) (n : ℕ) → (parse_non_negative t ≡ ok n) ↔ (parse_non_negative_amount t ≡ ok n)
unfolding parse_non_negative parse_non_negative_amount
parse_non_negative_agrees t n = ground arith

pub parse_non_negative-amount_of :
    (t : Text) (n : ℕ) → parse_non_negative t ≡ ok n → amount_of t ≡ n
unfolding amount_of
parse_non_negative-amount_of t n h = ground (arith, parse_non_negative_agrees t n)

-- A text parses as a positive amount exactly if its amount is positive.
pub parse_positive-eq-ok :
    (t : Text) (n : ℕ) → parse_positive t ≡ ok n → (amount_of t ≡ n) × (0 < n)
unfolding parse_positive
parse_positive-eq-ok t n h = elim (Result-cases (parse_non_negative t)) [
  | inr (e, bad) ↦ absurd (ground arith)
  | inl (m, good) ↦ ground (arith, parse_non_negative-amount_of t m good)
]

pub parse_positive-amount_of : (t : Text) → 0 < amount_of t → parse_positive t ≡ ok (amount_of t)
unfolding parse_positive amount_of
parse_positive-amount_of t h = elim (Result-cases (parse_non_negative_amount t)) [
  | inr (e, bad) ↦ absurd (ground arith)
  | inl (m, good) ↦ ground (arith, (parse_non_negative_agrees t m).1 good)
]
