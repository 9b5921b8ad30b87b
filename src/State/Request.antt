-- ===== src/State/Request.antt =====
-- internal/state/withdraw_request.go: requests from user intents. The builder reads the local
-- state and does not change it.
use ganc_sys.Prelude.{
  ℕ, ◌+◌, ◌%◌, ◌^◌, ◌++◌, Exec, invalid_withdraw_intent, insufficient_balance, ltb, replace_error,
  [],
}
use ganc_sys.Prelude.Effects.{pure, lift, gets, modify, raise_if, ◌>>=◌, ◌>>◌}
use ganc_sys.Text.{Text, codes, is_empty, trim_space}
use ganc_sys.Text.Decimal.{format}
use ganc_sys.Types.{WithdrawRequest}
use ganc_sys.State.Account.{parse_positive_amount, parse_non_negative_amount}
use ganc_sys.State.Local.{LocalState, account}

pub record WithdrawIntent : Type 0 where
  pub owner : Text
  pub denom : Text
  pub amount : Text
  pub destination : Text

-- The counter of `WithdrawRequestBuilder`, a uint64.
pub record RequestBuilder : Type 0 where
  pub seq : ℕ

abbrev pub new_request_builder : RequestBuilder
new_request_builder = record { seq = 0 }

-- `Build`
unfoldable pub build : WithdrawIntent → LocalState → Exec RequestBuilder WithdrawRequest
build intent state = do
  let owner = trim_space intent.owner
  let denom = trim_space intent.denom
  let destination = trim_space intent.destination
  let amount_text = trim_space intent.amount
  raise_if (is_empty owner) invalid_withdraw_intent
  raise_if (is_empty denom) invalid_withdraw_intent
  raise_if (is_empty destination) invalid_withdraw_intent
  amount ← lift (replace_error invalid_withdraw_intent (parse_positive_amount amount_text))
  let acc = account owner denom state
  bal ← lift (parse_non_negative_amount acc.balance)
  raise_if (ltb bal amount) insufficient_balance
  current_nonce ← lift (parse_non_negative_amount acc.nonce)
  modify (λ b. record b { seq = (b.seq + 1) % 2 ^ 64 })
  seq ← gets (λ b. b.seq)
  pure (record {
    withdraw_id = codes "wd-" ++ format seq;
    owner = owner;
    denom = denom;
    amount = format amount;
    destination = destination;
    nonce = format (current_nonce + 1);
    signature = [];
  })
