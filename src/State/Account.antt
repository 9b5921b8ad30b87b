-- ===== src/State/Account.antt =====
-- internal/state/account_state.go: balances and nonces by (owner, denom), both kept as decimal
-- texts. The mutex makes each method one step.
pub mod Ledger
pub mod Valid
pub mod Sorting
use ganc_sys.Prelude.{
  ℕ, ◌+◌, ◌-◌, ◌↔◌, ◌≡◌, Bool, ◌&&◌, Option, none, some, List, [], ◌∷◌, arith, Comparable, ◌==◌,
  Result, ok, err, invalid_owner, invalid_denom, invalid_amount, amount_negative,
  insufficient_balance, Exec, ltb, eqb, if◌then◌else◌,
}
use ganc_sys.Prelude.Effects.{pure, lift, gets, modify, raise_if, ◌>>=◌, ◌>>◌}
use ganc_sys.Dict.{Dict, lookup, insert}
use ganc_sys.Text.{Text, text_eq, text_beq_iff, is_empty, trim_space}
use ganc_sys.Text.Decimal.{pos, negsuc, set_string, format}
use ganc_sys.Text.Order.{text_ltb}
use ganc_sys.Types.{Account}

pub record AccountKey : Type 0 where
  pub owner : Text
  pub denom : Text

unfoldable pub key_beq : AccountKey → AccountKey → Bool
key_beq j k = j.owner == k.owner && j.denom == k.denom

pub key_beq_iff : (j k : AccountKey) → (key_beq j k ≡ Bool.true) ↔ (j ≡ k)
unfolding key_beq
key_beq_iff j k = ground (arith, text_beq_iff j.owner k.owner, text_beq_iff j.denom k.denom)

instance abbrev pub key_eq : Comparable AccountKey
key_eq = record { test = key_beq; test_iff = key_beq_iff }

unfoldable pub new_account_key : Text → Text → Result AccountKey
new_account_key owner denom =
    let owner' = trim_space owner in
    let denom' = trim_space denom in
    if is_empty owner'
    then err invalid_owner
    else if is_empty denom'
    then err invalid_denom
    else ok (record { owner = owner'; denom = denom' })

pub record AccountState : Type 0 where
  pub accounts : Dict AccountKey Account

abbrev pub new_account_state : AccountState
new_account_state = record { accounts = [] }

unfoldable pub parse_non_negative_amount : Text → Result ℕ
parse_non_negative_amount amount =
    let amount' = trim_space amount in
    if is_empty amount' then err invalid_amount else elim (set_string amount') [
      | none ↦ err invalid_amount
      | some (pos n) ↦ ok n
      | some (negsuc n) ↦ err invalid_amount
    ]

unfoldable pub parse_positive_amount : Text → Result ℕ
parse_positive_amount amount = elim (parse_non_negative_amount amount) [
  | err e ↦ err e
  | ok v ↦ if eqb v 0 then err amount_negative else ok v
]

abbrev pub zero_account : Text → Text → Account
zero_account owner denom = record {
  owner = owner;
  denom = denom;
  balance = b'0' ∷ [];
  nonce = b'0' ∷ [];
}

-- `Get`
unfoldable pub get : Text → Text → AccountState → Option Account
get owner denom s = elim (new_account_key owner denom) [
  | ok key ↦ lookup key s.accounts
  | err _ ↦ none
]

-- The account of a map look-up, or a fresh one.
abbrev pub or_zero : Text → Text → Option Account → Account
or_zero owner denom none = zero_account owner denom
or_zero owner denom (some acc) = acc

-- `GetOrZero`
unfoldable pub get_or_zero : Text → Text → AccountState → Account
unfolding get
get_or_zero owner denom s = or_zero owner denom (get owner denom s)

-- `acc, ok := s.accounts[key]; if !ok { acc = … }`
unfoldable pub entry_or_zero : AccountKey → AccountState → Account
entry_or_zero key s = or_zero key.owner key.denom (lookup key s.accounts)

-- `s.accounts[key] = acc`
unfoldable pub put : AccountKey → Account → AccountState → AccountState
put key acc s = record s { accounts = insert key acc s.accounts }

-- `Credit`
unfoldable pub credit : Text → Text → Text → Exec AccountState Account
unfolding put entry_or_zero
credit owner denom amount = do
  key ← lift (new_account_key owner denom)
  delta ← lift (parse_positive_amount amount)
  acc ← gets (entry_or_zero key)
  bal ← lift (parse_non_negative_amount acc.balance)
  let acc' = record acc { balance = format (bal + delta) }
  modify (put key acc')
  pure acc'

-- `Debit`
unfoldable pub debit : Text → Text → Text → Exec AccountState Account
unfolding put entry_or_zero
debit owner denom amount = do
  key ← lift (new_account_key owner denom)
  delta ← lift (parse_positive_amount amount)
  acc ← gets (entry_or_zero key)
  bal ← lift (parse_non_negative_amount acc.balance)
  raise_if (ltb bal delta) insufficient_balance
  nonce ← lift (parse_non_negative_amount acc.nonce)
  let acc' = record acc { balance = format (bal - delta); nonce = format (nonce + 1) }
  modify (put key acc')
  pure acc'

-- The order of `sort.Slice` in `Snapshot`.
unfoldable pub account_before : Account → Account → Bool
account_before a b =
    if a.owner == b.owner then text_ltb a.denom b.denom else text_ltb a.owner b.owner

insert_sorted : Account → List Account → List Account
insert_sorted a [] = a ∷ []
insert_sorted a (b ∷ l) = if account_before b a then b ∷ insert_sorted a l else a ∷ b ∷ l

-- `sort.Slice(out, …)`
unfoldable pub sort_accounts : List Account → List Account
unfolding insert_sorted account_before
sort_accounts [] = []
sort_accounts (a ∷ l) = insert_sorted a (sort_accounts l)

-- The accounts of a map, in the order of `range`.
unfoldable pub values : Dict AccountKey Account → List Account
values [] = []
values ((k, a) ∷ m) = a ∷ values m

-- `Snapshot`
unfoldable pub snapshot : AccountState → List Account
unfolding sort_accounts values
snapshot s = sort_accounts (values s.accounts)
