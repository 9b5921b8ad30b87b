-- ===== src/State/Manager/Requests.antt =====
-- internal/state/withdraw_request.go and offchain_manager.go: requests that are built and applied.
use native.Mathlib.Decide.{dec_le}
use ganc_sys.Prelude.{
  ℕ, ◌+◌, ◌≤◌, ◌≡◌, ◌∙◌, inl, inr, false, arith, ok, Result-cases, Bool-cases, List, [],
}
use ganc_sys.Dict.{member}
use ganc_sys.Text.{Text, text_eq, is_empty, trim_space}
use ganc_sys.Text.Trim.{trim_space-trim_space}
use ganc_sys.Text.Decimal.{format}
use ganc_sys.Types.{WithdrawRequest}
use ganc_sys.State.Account.{AccountKey, new_account_key, parse_positive_amount}
use ganc_sys.State.Account.Valid.{IsValid, parse-format, new_account_key-IsKey}
use ganc_sys.State.Account.Ledger.{balance_of, nonce_of}
use ganc_sys.State.Records.{validate_withdraw_request}
use ganc_sys.State.Local.{LocalState, account}
use ganc_sys.State.Local.Withdrawals.{
  IsWithdrawable, apply_withdrawal-eq-withdrawn, withdrawn, get_or_zero-balance, get_or_zero-nonce,
  key_of_trimmed,
}
use ganc_sys.State.Request.{WithdrawIntent, RequestBuilder, new_request_builder, build}
use ganc_sys.State.Manager.{
  OffchainStateManager, build_withdraw_request, manager_apply_withdraw_request,
}

-- What an intent must be, for `a` units of the account at k.
pub record IsBuildable (i : WithdrawIntent) (k : AccountKey) (a : ℕ) (s : LocalState) : Type 0 where
  pub key : new_account_key i.owner i.denom ≡ ok k
  pub destination : is_empty (trim_space i.destination) ≡ false
  pub amount : parse_positive_amount (trim_space i.amount) ≡ ok a
  pub covered : a ≤ balance_of k s.accounts

-- The request for it, under an id.
abbrev pub request_of : WithdrawIntent → AccountKey → ℕ → LocalState → Text → WithdrawRequest
request_of i k a s id = record {
  withdraw_id = id;
  owner = k.owner;
  denom = k.denom;
  amount = format a;
  destination = trim_space i.destination;
  nonce = format (nonce_of k s.accounts + 1);
  signature = [];
}

key_of_intent :
    (owner denom : Text)
    → is_empty (trim_space owner) ≡ false
    → is_empty (trim_space denom) ≡ false
    → new_account_key owner denom
      ≡ ok (record { owner = trim_space owner; denom = trim_space denom })
unfolding new_account_key
key_of_intent owner denom h g = ground arith

module _ (i : WithdrawIntent) (s : LocalState) (v : IsValid s.accounts) (b : RequestBuilder) where
  pub build_inversion :
      {req : WithdrawRequest}
      → (build i s b).0 ≡ ok req
      → (k : AccountKey) × (a : ℕ) × IsBuildable i k a s
        × (req ≡ request_of i k a s req.withdraw_id)
  unfolding build account
  build_inversion {req} h = elim (Bool-cases (is_empty (trim_space i.owner))) [
    | inl bad ↦ absurd (ground arith)
    | inr owner ↦ elim (Bool-cases (is_empty (trim_space i.denom))) [
      | inl bad ↦ absurd (ground arith)
      | inr denom ↦ elim (Bool-cases (is_empty (trim_space i.destination))) [
        | inl bad ↦ absurd (ground arith)
        | inr destination ↦ elim (Result-cases (parse_positive_amount (trim_space i.amount))) [
          | inr (e, bad) ↦ absurd (ground arith)
          | inl (a, amount) ↦
              let hk = key_of_intent i.owner i.denom owner denom in
              let k : AccountKey = record {
                owner = trim_space i.owner;
                denom = trim_space i.denom;
              } in
              let key = key_of_trimmed i.owner i.denom ∙ hk in
              let bal =
                get_or_zero-balance (trim_space i.owner) (trim_space i.denom) k key s.accounts v in
              let non =
                get_or_zero-nonce (trim_space i.owner) (trim_space i.denom) k key s.accounts v in
              elim (dec_le a (balance_of k s.accounts)) [
                | no short ↦ absurd (ground arith)
                | yes covered ↦ (
                  k,
                  a,
                  record {
                    key = hk;
                    destination = destination;
                    amount = amount;
                    covered = covered;
                  },
                  ground arith,
                )
              ]
        ]
      ]
    ]
  ]

parse_format_positive :
    (t : Text) (a : ℕ) → parse_positive_amount t ≡ ok a → parse_positive_amount (format a) ≡ ok a
unfolding parse_positive_amount
parse_format_positive t a h = ground (arith, parse-format a)

-- The key's texts are trimmed and not empty.
key_texts :
    (owner denom : Text) (k : AccountKey)
    → new_account_key owner denom ≡ ok k
    → (trim_space k.owner ≡ k.owner)
      × (trim_space k.denom ≡ k.denom)
      × (is_empty k.owner ≡ false)
      × (is_empty k.denom ≡ false)
unfolding new_account_key
key_texts owner denom k h = ground (arith, trim_space-trim_space owner, trim_space-trim_space denom)

module _ (i : WithdrawIntent) (k : AccountKey) (a : ℕ) (s : LocalState) (h : IsBuildable i k a s)
    (id : Text) where
  request_of-well_formed :
      is_empty (trim_space id) ≡ false → validate_withdraw_request (request_of i k a s id) ≡ ok tt
  unfolding validate_withdraw_request
  request_of-well_formed present =
      let (to, td, eo, ed) = key_texts i.owner i.denom k h.key in
      ground (
        arith,
        to,
        td,
        eo,
        ed,
        h.destination,
        trim_space-trim_space i.destination,
        parse_format_positive (trim_space i.amount) a h.amount,
        parse-format (nonce_of k s.accounts + 1),
      )

  request_of-IsWithdrawable :
      (nullifier : Text)
      → is_empty (trim_space id) ≡ false
      → is_empty (trim_space nullifier) ≡ false
      → member (trim_space nullifier) s.applied_nullifiers ≡ false
      → IsWithdrawable (request_of i k a s id) nullifier k a s
  request_of-IsWithdrawable nullifier present n_present fresh = record {
    well_formed = request_of-well_formed present;
    nullifier_present = n_present;
    key = new_account_key-IsKey i.owner i.denom k h.key;
    amount = parse_format_positive (trim_space i.amount) a h.amount;
    nonce = parse-format (nonce_of k s.accounts + 1);
    fresh = fresh;
    covered = h.covered;
  }

-- A withdraw request that the manager builds from its own state, with valid accounts, is applied by
-- ApplyWithdrawRequest on that state, if the id and the nullifier are not blank and the nullifier
-- was not applied.
pub built_request_is_accepted :
    (sha256 : Text → List ℕ) (i : WithdrawIntent) (id nullifier : Text) (m : OffchainStateManager)
    {req : WithdrawRequest}
    → IsValid m.ls.accounts
    → build_withdraw_request i id m ≡ ok req
    → is_empty (trim_space id) ≡ false
    → is_empty (trim_space nullifier) ≡ false
    → member (trim_space nullifier) m.ls.applied_nullifiers ≡ false
    → (root : Text) × ((manager_apply_withdraw_request sha256 req nullifier m).0 ≡ ok root)
unfolding build_withdraw_request manager_apply_withdraw_request
built_request_is_accepted sha256 i id nullifier m {req} v built present n_present fresh =
    elim (Result-cases (build i m.ls new_request_builder).0) [
      | inr (e, bad) ↦ absurd (ground arith)
      | inl (req', made) ↦
          let (k, a, h, same) = build_inversion i m.ls v new_request_builder made in
          let w = request_of-IsWithdrawable i k a m.ls h id nullifier present n_present fresh in
          let e : req ≡ request_of i k a m.ls id = ground arith in
          rw e (
            (withdrawn sha256 nullifier k a m.ls).root,
            ground (
              arith,
              apply_withdrawal-eq-withdrawn sha256 (request_of i k a m.ls id) nullifier m.ls v k a
                  w,
            ),
          )
    ]
