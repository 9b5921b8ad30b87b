-- ===== src/Batch/Apply.antt =====
-- internal/batch/local_builder.go and snapshot_builder.go: what both builders do before the
-- settlement is assembled. The two files repeat these loops word by word.
use ganc_sys.Prelude.{
  ℕ, ◌++◌, List, [], ◌∷◌, none, some, Result, ok, err, Error, Exec, insufficient_balance,
  invalid_build_input, insufficient_offchain_balance, replace_error, if◌then◌else◌,
}
use ganc_sys.Prelude.Effects.{pure, lift, ◌>>=◌, ◌>>◌}
use ganc_sys.Dict.{Dict, lookup, insert, member, add}
use ganc_sys.Text.{Text, text_eq, codes, is_empty, trim_space}
use ganc_sys.Types.{DepositRecord, WithdrawRequest, SettlementUpdate, BatchCommitments, Witness}
use ganc_sys.State.Nullifier.{nullifier_for}
use ganc_sys.State.Address.{withdraw_address_hash}
use ganc_sys.State.Local.{LocalState, apply_deposit, apply_withdrawal}
use ganc_sys.Batch.Settlement.{WithdrawalInput}

-- `mvpMockSecret`
abbrev pub mvp_mock_secret : Text
mvp_mock_secret = codes "mock-user-secret"

pub record AccountSecret : Type 0 where
  pub owner : Text
  pub user_secret : Text

pub record BuildInput : Type 0 where
  pub old_state_root : Text
  pub deposits : List DepositRecord
  pub withdraw_requests : List WithdrawRequest
  pub account_secrets : List AccountSecret

pub record BuildOutput : Type 0 where
  pub settlement_update : SettlementUpdate
  pub batch_commitments : BatchCommitments
  pub witness : Witness

-- `indexSecrets`, with the map so far
unfoldable pub index_secrets : Dict Text Text → List AccountSecret → Result (Dict Text Text)
index_secrets out [] = ok out
index_secrets out (s ∷ ss) =
    let owner = trim_space s.owner in
    let secret = trim_space s.user_secret in
    let rest = index_secrets (insert owner secret out) ss in
    if is_empty owner
    then err invalid_build_input
    else if is_empty secret
    then err invalid_build_input
    else elim (lookup owner out) [ some _ ↦ err invalid_build_input | none ↦ rest ]

-- `resolveSecret`
unfoldable pub resolve_secret : Dict Text Text → Text → Text
resolve_secret provided owner = elim (lookup owner provided) [ some s ↦ s | none ↦ mvp_mock_secret ]

pub record Participant : Type 0 where
  pub owner : Text
  pub denom : Text

-- `seen` and `out` of `collectParticipants`
pub record Participants : Type 0 where
  pub seen : List Text
  pub out : List Participant

-- Its closure `add`.
unfoldable pub add_participant : Text → Text → Participants → Result Participants
add_participant raw_owner raw_denom p =
    let owner = trim_space raw_owner in
    let denom = trim_space raw_denom in
    if is_empty owner
    then err invalid_build_input
    else if is_empty denom
    then err invalid_build_input
    else if member owner p.seen
    then ok p
    else ok (record {
      seen = add owner p.seen;
      out = p.out ++ (record { owner = owner; denom = denom } ∷ []);
    })

unfoldable pub add_depositors : List DepositRecord → Participants → Result Participants
add_depositors [] p = ok p
add_depositors (d ∷ ds) p = elim (add_participant d.owner d.denom p) [
  | err e ↦ err e
  | ok p' ↦ add_depositors ds p'
]

unfoldable pub add_withdrawers : List WithdrawRequest → Participants → Result Participants
add_withdrawers [] p = ok p
add_withdrawers (r ∷ rs) p = elim (add_participant r.owner r.denom p) [
  | err e ↦ err e
  | ok p' ↦ add_withdrawers rs p'
]

unfoldable pub collect_participants :
    List DepositRecord → List WithdrawRequest → Result (List Participant)
collect_participants deps reqs = elim (add_depositors deps (record { seen = []; out = [] })) [
  | err e ↦ err e
  | ok p ↦ elim (add_withdrawers reqs p) [ err e ↦ err e | ok p' ↦ ok (p'.out) ]
]

-- `errors.Is(err, state.ErrInsufficientBalance)`, and the sentinel that follows from it
abbrev pub build_error : Error → Error
build_error insufficient_balance = insufficient_offchain_balance
build_error _ = invalid_build_input

abbrev pub map_error {ℓ} : {A : Type ℓ} → (Error → Error) → Result A → Result A
map_error f (ok a) = ok a
map_error f (err e) = err (f e)

abbrev pub catch_with : {S A : Type 0} → (Error → Error) → Exec S A → Exec S A
catch_with f m s = let (r, s') = m s in (map_error f r, s')

module _ (sha256 : Text → List ℕ) where
  -- The loop over `in.Deposits`.
  unfoldable pub apply_deposits : List DepositRecord → Exec LocalState (Unit {0})
  apply_deposits [] = pure tt
  apply_deposits (d ∷ ds) = do
    catch_with (λ _. invalid_build_input) (apply_deposit sha256 d)
    apply_deposits ds

  -- One round of the loop over `in.WithdrawRequests`.
  unfoldable pub apply_request : Dict Text Text → WithdrawRequest → Exec LocalState WithdrawalInput
  apply_request secrets req = do
    let owner = trim_space req.owner
    let secret = resolve_secret secrets owner
    nullifier ← lift (replace_error invalid_build_input (nullifier_for sha256 secret req.nonce))
    dest_hash ←
        lift (replace_error invalid_build_input (withdraw_address_hash sha256 req.destination))
    catch_with build_error (apply_withdrawal sha256 req nullifier)
    pure (record { request = req; nullifier = nullifier; destination_hash = dest_hash })

  unfoldable pub apply_requests :
      Dict Text Text → List WithdrawRequest → Exec LocalState (List WithdrawalInput)
  apply_requests secrets [] = pure []
  apply_requests secrets (req ∷ reqs) = do
    input ← apply_request secrets req
    rest ← apply_requests secrets reqs
    pure (input ∷ rest)
