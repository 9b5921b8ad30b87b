-- ===== src/Indexer/Tendermint.antt =====
-- internal/indexer/tendermint_event_source.go: the answer of /tx_search, after the transport and the
-- JSON decoder. Base64 and `strconv.Unquote` are parameters: their result, or none on an error.
use ganc_sys.Prelude.{
  ℕ, Bool, true, false, ◌&&◌, List, [], ◌∷◌, Option, none, some, Result, ok, err, other_failure,
  if◌then◌else◌, eqb, leb, length,
}
use ganc_sys.Dict.{Dict, lookup, insert}
use ganc_sys.Text.{Text, text_eq, codes, is_empty, trim_space, has_prefix}
use ganc_sys.Text.Int64.{parse_int_clamped, greater64}
use ganc_sys.Chain.{Event, TxResult, type_deposit}

-- `depositEventTypeMatch`
abbrev pub deposit_event_type_match : Text
deposit_event_type_match = codes "EventDeposit"

pub record TxSearchEventAttribute : Type 0 where
  pub key : Text
  pub value : Text

pub record TxSearchEvent : Type 0 where
  pub kind : Text
  pub attributes : List TxSearchEventAttribute

pub record TxSearchTx : Type 0 where
  pub hash : Text
  pub height : Text
  pub events : List TxSearchEvent

-- The envelope, with whether its `error` is not nil.
pub record TxSearchEnvelope : Type 0 where
  pub txs : List TxSearchTx
  pub has_error : Bool

-- `strings.Contains`
unfoldable pub contains : Text → Text → Bool
contains [] part = is_empty part
contains (c ∷ s) part = let rest = contains s part in if has_prefix (c ∷ s) part then true else rest

unfoldable pub ends_with : ℕ → Text → Bool
ends_with c [] = false
ends_with c (d ∷ []) = eqb c d
ends_with c (d ∷ e ∷ s) = ends_with c (e ∷ s)

unfoldable pub trim_left_of : ℕ → Text → Text
trim_left_of c [] = []
trim_left_of c (d ∷ s) = let rest = trim_left_of c s in if eqb c d then rest else d ∷ s

unfoldable pub trim_right_of : ℕ → Text → Text
trim_right_of c [] = []
trim_right_of c (d ∷ s) =
    let rest = trim_right_of c s in if eqb c d && is_empty rest then [] else d ∷ rest

-- `firstNonEmpty`
unfoldable pub first_non_empty : List Text → Text
first_non_empty [] = []
first_non_empty (v ∷ vs) =
    let rest = first_non_empty vs in if is_empty (trim_space v) then rest else v

-- `attrs[key]`
abbrev pub value_of : Text → Dict Text Text → Text
value_of key attrs = elim (lookup key attrs) [ none ↦ [] | some value ↦ value ]

abbrev pub or_given : Text → Option Text → Text
or_given t none = t
or_given t (some decoded) = decoded

module _ (base64 : Text → Option Text) where
  -- `base64Decode`
  unfoldable pub base64_decode : Text → Text
  base64_decode s = let t = trim_space s in if is_empty t then t else or_given t (base64 t)

module _ (unquote_go : Text → Option Text) where
  -- `unquote`
  unfoldable pub unquote : Text → Text
  unfolding ends_with trim_left_of trim_right_of
  unquote value =
      let v = trim_space value in
      if leb 2 (length v) && has_prefix v (b'"' ∷ []) && ends_with b'"' v
      then or_given (trim_right_of b'"' (trim_left_of b'"' v)) (unquote_go v)
      else v

module _ (base64 unquote_go : Text → Option Text) (legacy : Bool) where
  -- `decodeAttrKey`
  unfoldable pub decode_attr_key : Text → Text
  unfolding base64_decode
  decode_attr_key key = trim_space (if legacy then base64_decode base64 key else key)

  -- `decodeAttrValue`
  unfoldable pub decode_attr_value : Text → Text
  unfolding base64_decode unquote
  decode_attr_value value =
      let t = trim_space value in unquote unquote_go (if legacy then base64_decode base64 t else t)

  -- The loop over the attributes, on the map read so far.
  unfoldable pub decode_attributes : List TxSearchEventAttribute → Dict Text Text → Dict Text Text
  decode_attributes [] attrs = attrs
  decode_attributes (a ∷ as') attrs =
      decode_attributes as' (insert (decode_attr_key a.key) (decode_attr_value a.value) attrs)

  -- The event that a match gives, unless it names no deposit.
  unfoldable pub event_of_attributes : Dict Text Text → Option Event
  unfolding first_non_empty
  event_of_attributes attrs =
      let deposit_id =
        first_non_empty
          (value_of (codes "depositId") attrs ∷ value_of (codes "deposit_id") attrs ∷ []) in
      let creator =
        first_non_empty (value_of (codes "creator") attrs ∷ value_of (codes "owner") attrs ∷ []) in
      if is_empty deposit_id
      then none
      else some (record {
        kind = type_deposit;
        attributes =
            (codes "depositId", deposit_id)
            ∷ (codes "creator", creator)
            ∷ (codes "denom", value_of (codes "denom") attrs)
            ∷ (codes "amount", value_of (codes "amount") attrs)
            ∷ [];
      })

  abbrev pub or_else : {A : Type 0} → Option A → Option A → Option A
  or_else none o = o
  or_else (some a) _ = some a

  -- `depositEventFromTxSearch`
  unfoldable pub deposit_event_from_tx_search : List TxSearchEvent → Option Event
  unfolding contains decode_attributes event_of_attributes
  deposit_event_from_tx_search [] = none
  deposit_event_from_tx_search (ev ∷ evs) =
      let rest = deposit_event_from_tx_search evs in
      if contains ev.kind deposit_event_type_match
      then or_else (event_of_attributes (decode_attributes ev.attributes [])) rest
      else rest

  -- `height, _ := strconv.ParseInt(strings.TrimSpace(tx.Height), 10, 64)`
  abbrev pub height_of : TxSearchTx → ℕ
  height_of tx = parse_int_clamped (trim_space tx.height)

  abbrev pub with_tx : TxSearchTx → Option Event → List TxResult × ℕ → List TxResult × ℕ
  with_tx tx none found = found
  with_tx tx (some ev) found =
      (record { tx_hash = tx.hash; height = height_of tx; events = ev ∷ [] } ∷ found.0, found.1)

  -- `if height > nextHeight { nextHeight = height }`, for a transaction that is kept
  abbrev pub raised : TxSearchTx → Option Event → ℕ → ℕ
  raised tx none next = next
  raised tx (some _) next =
      let height = height_of tx in if greater64 height next then height else next

  -- The loop of `parseTxSearchResponse`, from the height so far.
  unfoldable pub collect_txs : List TxSearchTx → ℕ → List TxResult × ℕ
  unfolding deposit_event_from_tx_search
  collect_txs [] next = ([], next)
  collect_txs (tx ∷ txs) next =
      let ev = deposit_event_from_tx_search tx.events in
      with_tx tx ev (collect_txs txs (raised tx ev next))

  -- `parseTxSearchResponse`, from the decoded envelope; `none` is a body that does not decode
  unfoldable pub parse_tx_search_response : Option TxSearchEnvelope → ℕ → Result (List TxResult × ℕ)
  unfolding collect_txs
  parse_tx_search_response none from_height = err other_failure
  parse_tx_search_response (some env) from_height =
      if env.has_error then err other_failure else ok (collect_txs env.txs from_height)
