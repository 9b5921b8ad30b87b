-- ===== src/State/Account/Valid.antt =====
-- internal/state/account_state.go: the invariant of the account map. Keys are trimmed and not empty,
-- an account carries the owner and the denom of its key, and its balance and nonce are canonical
-- decimals.
use ganc_sys.Prelude.{
  ℕ, ◌≡◌, refl, ◌≢◌, false, [], ◌∷◌, arith, ok, err, All, inl, inr, Option-cases,
}
use ganc_sys.Dict.{lookup, DistinctKeys}
use ganc_sys.Dict.Laws.{All-lookup, All-insert, insert-DistinctKeys}
use ganc_sys.Text.{Text, is_empty, trim_space}
use ganc_sys.Text.Trim.{trim_space-trim_space, trim_space-IsSolid}
use ganc_sys.Text.Decimal.{format}
use ganc_sys.Text.Decimal.RoundTrip.{
  set_string-format, format-IsNumeral, IsNumeral-IsSolid, format-ne-nil,
}
use ganc_sys.Types.{Account}
use ganc_sys.State.Account.{
  AccountKey, key_eq, AccountState, new_account_state, new_account_key, parse_non_negative_amount,
  entry_or_zero, put,
}

abbrev pub IsKey : AccountKey → Type 0
IsKey k = new_account_key k.owner k.denom ≡ ok k

pub new_account_key-IsKey :
    (owner denom : Text) (k : AccountKey) → new_account_key owner denom ≡ ok k → IsKey k
unfolding new_account_key
new_account_key-IsKey owner denom k h =
    ground (arith, trim_space-trim_space owner, trim_space-trim_space denom)

abbrev pub IsCanonical : Text → Type 0
IsCanonical t = (n : ℕ) × (t ≡ format n)

-- The amount that a text stands for, and 0 for a text that stands for none.
unfoldable pub amount_of : Text → ℕ
amount_of t = elim (parse_non_negative_amount t) [ ok n ↦ n | err _ ↦ 0 ]

trim_space-format : (n : ℕ) → trim_space (format n) ≡ format n
trim_space-format n =
    trim_space-IsSolid (format n) (IsNumeral-IsSolid (format n) (format-IsNumeral n))

is_empty-format : (t : Text) → t ≢ [] → is_empty t ≡ false
is_empty-format [] h = absurd (h refl)
is_empty-format (c ∷ s) h = refl

pub parse-format : (n : ℕ) → parse_non_negative_amount (format n) ≡ ok n
unfolding parse_non_negative_amount
parse-format n =
    rw (trim_space-format n, is_empty-format (format n) (format-ne-nil n), set_string-format n) refl

pub amount_of-format : (n : ℕ) → amount_of (format n) ≡ n
unfolding amount_of
amount_of-format n = rw (parse-format n, amount_of)

pub parse-IsCanonical : (t : Text) → IsCanonical t → parse_non_negative_amount t ≡ ok (amount_of t)
parse-IsCanonical t (n, e) = rw (e, amount_of-format n) (parse-format n)

abbrev pub IsValidEntry : AccountKey × Account → Type 0
IsValidEntry (k, a) =
    IsKey k
    × (a.owner ≡ k.owner)
    × (a.denom ≡ k.denom)
    × IsCanonical a.balance
    × IsCanonical a.nonce

pub record IsValid (s : AccountState) : Type 0 where
  pub entries : All IsValidEntry s.accounts
  pub distinct : DistinctKeys s.accounts

pub new_account_state-IsValid : IsValid new_account_state
new_account_state-IsValid = record { entries = tt; distinct = tt }

zero-format : ◌≡◌ {A = Text} (b'0' ∷ []) (format 0)
unfolding format
zero-format = refl

pub entry_or_zero-IsValidEntry :
    (k : AccountKey) (s : AccountState) → IsValid s → IsKey k → IsValidEntry (k, entry_or_zero k s)
unfolding entry_or_zero
entry_or_zero-IsValidEntry k s v hk = elim (Option-cases (lookup k s.accounts)) [
  | inl absent ↦ rw absent (hk, refl, refl, (0, zero-format), (0, zero-format))
  | inr (a, found) ↦ rw found (All-lookup IsValidEntry k a s.accounts v.entries found)
]

pub put-IsValid :
    (k : AccountKey) (a : Account) (s : AccountState)
    → IsValid s
    → IsValidEntry (k, a)
    → IsValid (put k a s)
unfolding put
put-IsValid k a s v h = record {
  entries = All-insert IsValidEntry k a s.accounts v.entries h;
  distinct = insert-DistinctKeys k a s.accounts v.distinct;
}
