-- ===== src/Service/Deposit/Local.antt =====
-- internal/service/deposit_service.go with the local chain: from a request to a balance.
use ganc_sys.Prelude.{
  ℕ, ◌^◌, ◌<◌, ◌⊎◌, Option-cases, ◌≡◌, refl, ◌∙◌, ap, Bool, true, false, ◌||◌, List, ◌++◌, some, ok,
  arith, inl, inr, Bool-cases, Result-cases, ==_refl,
}
use ganc_sys.Dict.{lookup, lookup-insert}
use ganc_sys.Text.{Text, text_eq, codes, is_empty, text_beq}
use ganc_sys.Text.Decimal.{pos, negsuc, set_string}
use ganc_sys.Text.Int64.{parse_int, word_of, format_int}
use ganc_sys.Types.{DepositRecord}
use ganc_sys.Store.{MemoryStore, save_deposit}
use ganc_sys.Repository.Settlement.{PendingDepositTransition}
use ganc_sys.Service.Settlement.{apply_indexed_deposit}
use ganc_sys.Chain.{DepositRequest, TxResult}
use ganc_sys.Chain.Local.{LocalClient, deposit_local, deposit_tx, is_not_positive}
use ganc_sys.Indexer.{
  IndexState, index_event, index_deposit_from_tx, mirror_deposit, deposit_event,
  deposit_record_from_event, attr,
}
use ganc_sys.Service.Deposit.{DepositResponse, create_deposit}

-- The record of a deposit that the local chain accepted.
abbrev pub local_record : TxResult → DepositRequest → Text → DepositRecord
local_record tx req deposit_id = record {
  deposit_id = deposit_id;
  owner = req.owner;
  denom = req.denom;
  amount = req.amount;
  processed = false;
  created_height = tx.height;
  tx_hash = tx.tx_hash;
}

-- A text that reads as a positive number within the range of an int64.
abbrev pub IsPositive : Text → Type 0
IsPositive t = (n : ℕ) × (set_string t ≡ some (pos n)) × (0 < n) × (n < 2 ^ 63)

is_not_positive-IsPositive : (t : Text) → is_not_positive (parse_int t) ≡ false → IsPositive t
unfolding parse_int word_of
is_not_positive-IsPositive t h = elim (Option-cases (set_string t)) [
  | inl bad ↦ absurd (ground (arith, h, bad))
  | inr (pos n, read) ↦ (n, read, ground (arith, rw read at h), ground (arith, rw read at h))
  | inr (negsuc n, read) ↦ absurd (ground (arith, rw read at h))
]

module _ (sha256 : Text → List ℕ) (now : ℕ) (req : DepositRequest) (c : LocalClient) where
  -- The id, the transaction and the record of the next deposit.
  abbrev pub given_id : Text
  given_id = codes "dep-" ++ format_int c.next_deposit_seq

  abbrev pub tx : TxResult
  tx = deposit_tx sha256 now req given_id

  abbrev pub entry : DepositRecord
  entry = local_record tx req given_id

  abbrev missing : Bool
  missing = is_empty req.owner || is_empty req.denom || is_empty req.amount

  accepted :
      (t : TxResult)
      → (deposit_local sha256 now req c).0 ≡ ok t
      → (missing ≡ false) × (is_not_positive (parse_int req.amount) ≡ false) × (t ≡ tx)
  unfolding deposit_local
  accepted t h = elim (Bool-cases missing) [
    | inl bad ↦ absurd (ground (arith, bad))
    | inr full ↦ elim (Bool-cases (is_not_positive (parse_int req.amount))) [
      | inl bad ↦ absurd (ground (arith, full, bad))
      | inr positive ↦ (full, positive, ground (arith, full, positive))
    ]
  ]

  -- The event that the local chain emits is the record's.
  event_is_record :
      (has_applier : Bool)
      → missing ≡ false
      → index_event sha256 has_applier
          (deposit_tx sha256 now req given_id)
          (deposit_event (deposit_tx sha256 now req given_id).events)
        ≡ mirror_deposit sha256 has_applier
            (local_record (deposit_tx sha256 now req given_id) req given_id)
  unfolding deposit_tx deposit_event deposit_record_from_event attr lookup text_beq
  event_is_record has_applier full =
      let o : is_empty req.owner ≡ false = ground (arith, full) in
      let d : is_empty req.denom ≡ false = ground (arith, full) in
      let a : is_empty req.amount ≡ false = ground (arith, full) in rw (o, d, a) refl

  module _ (has_applier : Bool) (s s' : IndexState) (response : DepositResponse) where
    -- The settlement has applied the record, if there is one behind the indexer; it is untouched
    -- otherwise.
    abbrev pub IsApplied : Type 0
    IsApplied =
        ((has_applier ≡ true)
          × (t : PendingDepositTransition) × (apply_indexed_deposit sha256 entry s.settlement
              ≡ (ok t, s'.settlement)))
        ⊎ ((has_applier ≡ false) × (s'.settlement ≡ s.settlement))

    stored_entry : (m : MemoryStore) → lookup given_id (save_deposit entry m).deposits ≡ some entry
    unfolding save_deposit
    stored_entry m =
        rw (lookup-insert given_id given_id entry m.deposits) (rw (==_refl given_id) refl)

    mirrored :
        (r : DepositRecord)
        → mirror_deposit sha256 has_applier entry s ≡ (ok r, s')
        → (r ≡ entry) × (s'.store ≡ save_deposit entry s.store) × IsApplied
    unfolding mirror_deposit
    mirrored r h = elim (Bool-cases has_applier) [
      | inr absent ↦ (
        ground (arith, h, absent),
        ground (arith, h, absent),
        inr (absent, ground (arith, h, absent)),
      )
      | inl has ↦
          let (applied, after) = apply_indexed_deposit sha256 entry s.settlement in
          elim (Result-cases applied) [
            | inr (e, bad) ↦ absurd (ground (arith, h, has, bad))
            | inl (t, good) ↦ (
              ground (arith, h, has, good),
              ground (arith, h, has, good),
              inl (has, t, ground (arith, h, has, good)),
            )
          ]
    ]

    -- Where CreateDeposit over the local chain returns a record, the record has the request's
    -- owner, denom and amount and the id of the client's sequence number, the amount reads as a
    -- positive number below 2^63, the record is what the store holds under that id, and the
    -- settlement has applied it if the indexer has an applier, and is as before if it has none.
    pub create_deposit_local_sound :
        create_deposit sha256 has_applier (λ r. (deposit_local sha256 now r c).0) req s
          ≡ (ok response, s')
        → (response.deposit_record ≡ entry)
          × IsPositive req.amount
          × (lookup given_id s'.store.deposits ≡ some entry)
          × IsApplied
    unfolding create_deposit index_deposit_from_tx
    create_deposit_local_sound h = elim (Result-cases (deposit_local sha256 now req c).0) [
      | inr (e, bad) ↦ absurd (ground (arith, bad))
      | inl (t, good) ↦
          let (full, positive, same) = accepted t good in
          let step : index_event sha256 has_applier t (deposit_event t.events) s
              ≡ mirror_deposit sha256 has_applier entry s =
            ap (λ x. index_event sha256 has_applier x (deposit_event x.events) s) same
            ∙ ap (λ f. f s) (event_is_record has_applier full) in
          let (got, after) = mirror_deposit sha256 has_applier entry s in
          elim (Result-cases got) [
            | inr (e, bad) ↦ absurd (ground (arith, good, step, bad))
            | inl (r, fine) ↦
                let outcome : (r ≡ response.deposit_record) × (after ≡ s') =
                  ground (arith, good, step, fine) in
                let (it, stored, applied) = mirrored r (ground (arith, fine, outcome)) in
                (
                  ground (arith, outcome, it),
                  is_not_positive-IsPositive req.amount positive,
                  rw stored (stored_entry s.store),
                  applied,
                )
          ]
    ]
