-- ===== src/Indexer/Poller.antt =====
-- internal/indexer/deposit_poller.go: polls of the chain's deposits. The event source is a
-- parameter: what it answers for a height. The cursor is an int64, by its 64-bit word; the count is
-- an int that no list of transactions takes out of range.
use ganc_sys.Prelude.{ℕ, ◌+◌, Bool, List, [], ◌∷◌, Result, ok, err, Exec, if◌then◌else◌}
use ganc_sys.Text.{Text}
use ganc_sys.Text.Int64.{greater64}
use ganc_sys.Types.{DepositRecord}
use ganc_sys.Chain.{TxResult}
use ganc_sys.Indexer.{IndexState, index_deposit_from_tx}

pub record DepositPoller : Type 0 where
  pub cursor : ℕ
  pub indexed : IndexState

-- `FetchDepositsSince`: the transactions and the height to resume from.
abbrev pub Source : Type 0
Source = ℕ → Result (List TxResult × ℕ)

-- The larger of two heights.
abbrev pub later : ℕ → ℕ → ℕ
later next cursor = if greater64 next cursor then next else cursor

-- One more for a transaction that was indexed.
abbrev pub counted : Result DepositRecord → ℕ → ℕ
counted (ok _) n = n + 1
counted (err _) n = n

module _ (sha256 : Text → List ℕ) (has_applier : Bool) where
  -- The loop of `PollOnce`: a transaction that fails is skipped.
  unfoldable pub index_all : List TxResult → IndexState → ℕ × IndexState
  index_all [] s = (0, s)
  index_all (tx ∷ txs) s =
      let (r, s') = index_deposit_from_tx sha256 has_applier tx s in
      let (n, final) = index_all txs s' in (counted r n, final)

  -- What `PollOnce` does with the answer of the source.
  unfoldable pub take_answer : Result (List TxResult × ℕ) → Exec DepositPoller ℕ
  unfolding index_all
  take_answer (err e) p = (err e, p)
  take_answer (ok (txs, next_height)) p =
      let (n, s) = index_all txs p.indexed in
      (ok n, record { cursor = later next_height p.cursor; indexed = s })

  -- `PollOnce`
  unfoldable pub poll_once : Source → Exec DepositPoller ℕ
  unfolding take_answer
  poll_once source p = take_answer (source p.cursor) p

  -- `Run`, for the ticks in which the source answers as the list says; a failed poll is logged.
  unfoldable pub run_polls : List Source → DepositPoller → DepositPoller
  unfolding poll_once
  run_polls [] p = p
  run_polls (source ∷ sources) p = run_polls sources (poll_once source p).1
