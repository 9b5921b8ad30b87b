-- ===== src/Prelude/Outcome.antt =====
-- Fallible code and stateful code. An error is the sentinel that `errors.Is` finds in it: the
-- messages that `fmt.Errorf` adds around a sentinel are left out.
use mathlib.Core.Path.{◌≡◌, refl}
use mathlib.Core.Logic.{◌⊎◌, inl, inr}
use mathlib.Core.Bool.{Bool, true, false}

pub data Error : Type 0 where
  -- package state
  invalid_owner invalid_denom invalid_amount amount_negative insufficient_balance : Error
  deposit_already_applied invalid_deposit_record : Error
  invalid_withdraw_request withdraw_already_applied nonce_mismatch invalid_withdraw_intent : Error
  invalid_nullifier_input invalid_withdraw_address : Error
  -- package batch
  invalid_settlement_inputs invalid_build_input insufficient_offchain_balance : Error
  invalid_witness_inputs invalid_public_inputs : Error
  -- packages service and repository
  offchain_settlement_unavailable no_pending_settlement_operations : Error
  invalid_pending_settlement record_not_found proof_verification_failed : Error
  withdraw_request_not_found withdraw_record_not_found withdraw_already_claimed : Error
  deposit_not_found manual_batch_deposit_not_found : Error
  manual_batch_insufficient_balance offchain_settlement_service_required : Error
  -- a panic, which ends the request
  panicked : Error
  -- an error without a sentinel: a cancelled context, a failing database or remote service
  other_failure : Error

pub data Result {ℓ} (A : Type ℓ) : Type ℓ where
  ok : A → Result A
  err : Error → Result A

pub Result-cases {ℓ} :
    {A : Type ℓ} (r : Result A) → ((a : A) × (r ≡ ok a)) ⊎ ((e : Error) × (r ≡ err e))
Result-cases (ok a) = inl (a, refl)
Result-cases (err e) = inr (e, refl)

abbrev pub and_then {ℓ κ} : {A : Type ℓ} {B : Type κ} → Result A → (A → Result B) → Result B
and_then (ok a) f = f a
and_then (err e) f = err e

-- `if !b { return err }`
abbrev pub require : Bool → Error → Result (Unit {0})
require true e = ok tt
require false e = err e

-- `fmt.Errorf("%w: … %v", sentinel, err)`: the inner error loses its identity.
abbrev pub replace_error {ℓ} : {A : Type ℓ} → Error → Result A → Result A
replace_error s (ok a) = ok a
replace_error s (err e) = err s

-- A method that reads and writes the receiver `S`. The state comes back beside an error too, since
-- what was written before an early return stays written.
abbrev pub Exec : Type 0 → Type 0 → Type 0
Exec S A = S → Result A × S
