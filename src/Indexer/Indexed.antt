-- ===== src/Indexer/Indexed.antt =====
-- internal/indexer: what a poll of the Tendermint source leaves.
use ganc_sys.Prelude.{
  ℕ, ◌+◌, ◌%◌, ◌^◌, ◌≤◌, ◌≡◌, ◌⊎◌, refl, Bool, List, [], ◌∷◌, Option, none, some, Result, ok, err,
  arith, inl, inr, All, All-map, Bool-cases,
}
use mathlib.Core.List.{Memᴰ}
use ganc_sys.Text.{Text, text_eq}
use ganc_sys.Text.Int64.{greater64}
use ganc_sys.Chain.{TxResult, Event}
use ganc_sys.Indexer.Poller.{DepositPoller, Source, poll_once, run_polls, take_answer, later}
use ganc_sys.Indexer.Tendermint.{
  TxSearchEnvelope, TxSearchTx, collect_txs, raised, with_tx, height_of, parse_tx_search_response,
  deposit_event_from_tx_search,
}

-- The order of int64 on words: the sign bit is turned over.
abbrev pub SignedLe : ℕ → ℕ → Type 0
SignedLe a b = (a + 2 ^ 63) % 2 ^ 64 ≤ (b + 2 ^ 63) % 2 ^ 64

later_bounds :
    (next cursor : ℕ) → SignedLe cursor (later next cursor) × SignedLe next (later next cursor)
later_bounds next cursor = ground arith

module _ (sha256 : Text → List ℕ) (has_applier : Bool) where
  answer_cursor :
      (answer : Result (List TxResult × ℕ)) (p : DepositPoller)
      → SignedLe p.cursor (take_answer sha256 has_applier answer p).1.cursor
  unfolding take_answer
  answer_cursor (err e) p = omega arith
  answer_cursor (ok (txs, next)) p = (later_bounds next p.cursor).0

  -- The poller's cursor never moves back: after any number of polls, with any source, it is at
  -- least what it was before, as a signed 64-bit number.
  pub run_polls-cursor :
      (sources : List Source) (p : DepositPoller)
      → SignedLe p.cursor (run_polls sha256 has_applier sources p).cursor
  unfolding run_polls poll_once
  run_polls-cursor [] p = omega arith
  run_polls-cursor (source ∷ sources) p = omega (
    arith,
    answer_cursor (source p.cursor) p,
    run_polls-cursor sources (take_answer sha256 has_applier (source p.cursor) p).1,
  )

-- A height to resume from: no lower than the one before and than those of the transactions, and one
-- of them.
abbrev pub IsResumeHeight : ℕ → List TxResult × ℕ → Type 0
IsResumeHeight from (txs, next) =
    SignedLe from next
    × All (λ (tx : TxResult). SignedLe tx.height next) txs
    × ((next ≡ from) ⊎ ((tx : TxResult) × Memᴰ tx txs × (tx.height ≡ next)))

heights_below :
    (txs : List TxResult) (a b : ℕ)
    → SignedLe a b
    → All (λ (tx : TxResult). SignedLe tx.height a) txs
    → All (λ (tx : TxResult). SignedLe tx.height b) txs
heights_below txs a b low h = All-map (λ tx p. omega (arith, low, p)) txs h

-- The cursor that is kept when it is the later one.
taken_height :
    (txs : List TxResult) (from next : ℕ)
    → IsResumeHeight from (txs, next)
    → IsResumeHeight from (txs, later next from)
taken_height txs from next (low, heights, top) = elim (Bool-cases (greater64 next from)) [
  | inl higher ↦ rw higher (low, heights, top)
  | inr lower ↦
      let back : SignedLe next from = ground (arith, lower) in
      rw lower (omega arith, heights_below txs next from back heights, inl refl)
]

module _ (base64 unquote_go : Text → Option Text) (legacy : Bool) where
  kept_tx :
      (tx : TxSearchTx) (ev : Event) (from : ℕ) (found : List TxResult × ℕ)
      → IsResumeHeight (raised base64 unquote_go legacy tx (some ev) from) found
      → IsResumeHeight from (with_tx base64 unquote_go legacy tx (some ev) found)
  kept_tx tx ev from (txs, next) (low, heights, inr (t, here, top)) =
      let h = height_of base64 unquote_go legacy tx in
      (ground (arith, low), (ground (arith, low), heights), inr (t, Memᴰ.tail here, top))
  kept_tx tx ev from (txs, next) (low, heights, inl same) =
      let h = height_of base64 unquote_go legacy tx in
      (
        ground (arith, low),
        (ground (arith, low), heights),
        elim (Bool-cases (greater64 h from)) [
          | inl higher ↦ inr (
            record { tx_hash = tx.hash; height = h; events = ev ∷ [] },
            Memᴰ.head refl,
            ground (arith, higher, same),
          )
          | inr lower ↦ inl (ground (arith, lower, same))
        ],
      )

  one_tx :
      (tx : TxSearchTx) (o : Option Event) (txs : List TxSearchTx) (from : ℕ)
      → IsResumeHeight
          (raised base64 unquote_go legacy tx o from)
          (collect_txs base64 unquote_go legacy txs (raised base64 unquote_go legacy tx o from))
      → IsResumeHeight from (
          with_tx base64 unquote_go legacy tx o
            (collect_txs base64 unquote_go legacy txs (raised base64 unquote_go legacy tx o from)))
  one_tx tx none txs from h = h
  one_tx tx (some ev) txs from h =
      kept_tx tx ev from
        (collect_txs base64 unquote_go legacy txs
          (raised base64 unquote_go legacy tx (some ev) from))
        h

  collect_txs-IsResumeHeight :
      (txs : List TxSearchTx) (from : ℕ)
      → IsResumeHeight from (collect_txs base64 unquote_go legacy txs from)
  unfolding collect_txs
  collect_txs-IsResumeHeight [] from = (omega arith, tt, inl refl)
  collect_txs-IsResumeHeight (tx ∷ txs) from =
      let ev = deposit_event_from_tx_search base64 unquote_go legacy tx.events in
      one_tx tx ev txs from
        (collect_txs-IsResumeHeight txs (raised base64 unquote_go legacy tx ev from))

  abbrev pub tendermint_source : Option TxSearchEnvelope → Source
  tendermint_source body from = parse_tx_search_response base64 unquote_go legacy body from

  module _ (sha256 : Text → List ℕ) (has_applier : Bool) where
    -- A poll of the Tendermint source either leaves the poller as it was, or the source answers
    -- with transactions and the new cursor is at least the old one and at least the height of each
    -- of them, and is the old one or one of their heights.
    pub poll_once-IsResumeHeight :
        (body : Option TxSearchEnvelope) (p : DepositPoller)
        → ((poll_once sha256 has_applier (tendermint_source body) p).1 ≡ p)
          ⊎ ((txs : List TxResult) × (next : ℕ) × ((tendermint_source body p.cursor)
                ≡ ok (txs, next))
              × IsResumeHeight p.cursor
                  (txs, (poll_once sha256 has_applier (tendermint_source body) p).1.cursor))
    unfolding poll_once take_answer parse_tx_search_response
    poll_once-IsResumeHeight none p = inl refl
    poll_once-IsResumeHeight (some env) p = elim (Bool-cases (env.has_error)) [
      | inl failed ↦ inl (rw failed refl)
      | inr answered ↦
          let found = collect_txs base64 unquote_go legacy env.txs p.cursor in
          let resume = collect_txs-IsResumeHeight env.txs p.cursor in
          inr (
            found.0,
            found.1,
            rw answered refl,
            rw answered (taken_height found.0 p.cursor found.1 resume),
          )
    ]
