-- ===== src/Relayer/Cosmos/Output.antt =====
-- internal/relayer/cosmos_client.go: `parseTxOutput`. The JSON decoder is a parameter.
use ganc_sys.Prelude.{
  ℕ, suc, ◌+◌, ◌-◌, Bool, [], ◌∷◌, Option, none, some, Result, ok, err, other_failure, eqb, ltb,
  if◌then◌else◌,
}
use mathlib.Core.Option
use ganc_sys.Text.{Text, codes, is_empty, trim_space, drop}
use ganc_sys.Indexer.Tendermint.{contains}
use ganc_sys.Repository.Withdraw.{first}

-- `txOutput`; the code is an int, by its 64-bit word.
pub record TxOutput : Type 0 where
  pub tx_hash : Text
  pub code : ℕ
  pub raw_log : Text

-- `txOutput{}`
abbrev pub no_output : TxOutput
no_output = record { tx_hash = []; code = 0; raw_log = [] }

-- `strings.Index(s, c)` of one character
unfoldable pub index_of : ℕ → Text → Option ℕ
index_of c [] = none
index_of c (d ∷ s) = let rest = Option.map suc (index_of c s) in if eqb c d then some 0 else rest

abbrev or_later : Option ℕ → Option ℕ → Option ℕ
or_later (some i) _ = some i
or_later none o = o

-- `strings.LastIndex(s, c)` of one character
unfoldable pub last_index_of : ℕ → Text → Option ℕ
last_index_of c [] = none
last_index_of c (d ∷ s) =
    let rest = Option.map suc (last_index_of c s) in
    or_later rest (if eqb c d then some 0 else none)

-- `raw[start : end+1]`, when there is a brace and a later closing one
unfoldable pub json_object : Text → Option Text
unfolding index_of last_index_of drop first
json_object raw = elim (index_of b'{' raw) [
  | none ↦ none
  | some start ↦ elim (last_index_of b'}' raw) [
    | none ↦ none
    | some last ↦ if ltb last start then none else some (first (last + 1 - start) (drop start raw))
  ]
]

abbrev pub with_hash : Option TxOutput → Result TxOutput
with_hash none = err other_failure
with_hash (some tx) = if is_empty tx.tx_hash then err other_failure else ok tx

-- `parseTxOutput`
unfoldable pub parse_tx_output : (Text → Option TxOutput) → Text → Result TxOutput
unfolding json_object
parse_tx_output decode out =
    let raw = trim_space out in
    if is_empty raw
    then err other_failure
    else elim (json_object raw) [ none ↦ err other_failure | some body ↦ with_hash (decode body) ]

-- `isSequenceMismatch`
unfoldable pub is_sequence_mismatch : Text → Bool
unfolding contains
is_sequence_mismatch s = contains s (codes "account sequence mismatch")
