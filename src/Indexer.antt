-- ===== src/Indexer.antt =====
-- internal/indexer/deposit_indexer.go: deposit events become records, and off-chain balances.
pub mod Poller
pub mod Tendermint
pub mod Indexed
use ganc_sys.Prelude.{
  ℕ, Bool, false, List, [], ◌∷◌, Option, none, some, ◌==◌, Result, ok, err, Exec, other_failure,
  if◌then◌else◌,
}
use ganc_sys.Prelude.Effects.{◌>>=◌, ◌>>◌, pure, raise, lift, modify, zoom}
use ganc_sys.Dict.{Dict, lookup}
use ganc_sys.Text.{Text, text_eq, codes, is_empty}
use ganc_sys.Types.{DepositRecord}
use ganc_sys.Store.{MemoryStore, save_deposit}
use ganc_sys.Repository.Settlement.{PendingDepositTransition}
use ganc_sys.Service.Settlement.{OffchainSettlementService, apply_indexed_deposit}
use ganc_sys.Chain.{Event, TxResult, type_deposit}

-- What the indexer writes: the store of the deposit repository, and the settlement service behind
-- `indexedApplier`.
pub record IndexState : Type 0 where
  pub store : MemoryStore
  pub settlement : OffchainSettlementService

-- The first key that the attributes have.
unfoldable pub attr : List Text → Dict Text Text → Text
attr [] attrs = []
attr (key ∷ keys) attrs = elim (lookup key attrs) [ none ↦ attr keys attrs | some value ↦ value ]

-- `depositRecordFromEvent`
unfoldable pub deposit_record_from_event : TxResult → Event → Result DepositRecord
unfolding attr
deposit_record_from_event tx ev =
    let deposit_id = attr (codes "depositId" ∷ codes "deposit_id" ∷ []) ev.attributes in
    let creator = attr (codes "creator" ∷ codes "owner" ∷ []) ev.attributes in
    let denom = attr (codes "denom" ∷ []) ev.attributes in
    let amount = attr (codes "amount" ∷ []) ev.attributes in
    if is_empty deposit_id
    then err other_failure
    else if is_empty creator
    then err other_failure
    else if is_empty denom
    then err other_failure
    else if is_empty amount
    then err other_failure
    else ok (record {
      deposit_id = deposit_id;
      owner = creator;
      denom = denom;
      amount = amount;
      processed = false;
      created_height = tx.height;
      tx_hash = tx.tx_hash;
    })

-- The first event of the deposit's type.
unfoldable pub deposit_event : List Event → Option Event
deposit_event [] = none
deposit_event (ev ∷ evs) =
    let rest = deposit_event evs in if ev.kind == type_deposit then some ev else rest

abbrev pub on_settlement :
    Exec OffchainSettlementService PendingDepositTransition
    → Exec IndexState PendingDepositTransition
on_settlement = zoom (λ s. s.settlement) (λ t s. record s { settlement = t })

-- `has_applier` is whether the field `indexedApplier` is not nil.
module _ (sha256 : Text → List ℕ) (has_applier : Bool) where
  -- The rest of a round: the record is saved, then applied.
  unfoldable pub mirror_deposit : DepositRecord → Exec IndexState DepositRecord
  mirror_deposit r = do
    modify (λ s. record s { store = save_deposit r s.store })
    (if has_applier then (do on_settlement (apply_indexed_deposit sha256 r); pure r) else pure r)

  abbrev pub index_event : TxResult → Option Event → Exec IndexState DepositRecord
  index_event tx none = raise other_failure
  index_event tx (some ev) = do r ← lift (deposit_record_from_event tx ev); mirror_deposit r

  -- `IndexDepositFromTx`: the loop ends at the first deposit event.
  unfoldable pub index_deposit_from_tx : TxResult → Exec IndexState DepositRecord
  unfolding deposit_event mirror_deposit deposit_record_from_event
  index_deposit_from_tx tx = index_event tx (deposit_event tx.events)
