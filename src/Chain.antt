-- ===== src/Chain.antt =====
-- internal/chain/client.go and internal/event/event.go: deposits on the chain.
pub mod Local
use ganc_sys.Prelude.{ℕ, List}
use ganc_sys.Dict.{Dict}
use ganc_sys.Text.{Text, codes}

-- `TypeDeposit`
abbrev pub type_deposit : Text
type_deposit = codes "ob.zkdex.v1.EventDeposit"

-- `kind` is the field `Type`.
pub record Event : Type 0 where
  pub kind : Text
  pub attributes : Dict Text Text

pub record DepositRequest : Type 0 where
  pub owner : Text
  pub denom : Text
  pub amount : Text

-- `height` is an int64, by its 64-bit word.
pub record TxResult : Type 0 where
  pub tx_hash : Text
  pub height : ℕ
  pub events : List Event
