-- ===== src/Relayer/Cosmos/Mismatch.antt =====
-- internal/relayer/cosmos_client.go: which answers name an account sequence mismatch, described
-- without the loop of `broadcast`.
use ganc_sys.Prelude.{
  ◌≡◌, ◌≢◌, ◌⊎◌, ◌↔◌, refl, ap, true, false, [], ◌∷◌, ◌++◌, Option, none, some, Error, ok, err,
  arith, inl, inr, other_failure, Bool-cases, Option-cases, Result-cases,
}
use ganc_sys.Text.{Text, codes, is_empty, trim_space, has_prefix}
use ganc_sys.Indexer.Tendermint.{contains}
use ganc_sys.Relayer.Cosmos.Output.{
  TxOutput, parse_tx_output, with_hash, json_object, is_sequence_mismatch,
}
use ganc_sys.Relayer.Cosmos.Broadcast.{Run, Runner, may_retry, result_of}

-- A text is part of another.
abbrev pub Occurs : Text → Text → Type 0
Occurs part s = (before after : Text) × (s ≡ before ++ part ++ after)

starts : (s part : Text) → has_prefix s part ≡ true → (after : Text) × (s ≡ part ++ after)
unfolding has_prefix
starts s [] h = (s, refl)
starts [] (p ∷ part) h = absurd (ground (arith, h))
starts (c ∷ s) (p ∷ part) h =
    let (after, e) = starts s part (ground (arith, h)) in
    let same : c ≡ p = ground (arith, h) in (after, rw (same, e) refl)

has_prefix-append : (part after : Text) → has_prefix (part ++ after) part ≡ true
unfolding has_prefix
has_prefix-append [] after = unfold has_prefix in refl
has_prefix-append (p ∷ part) after = ground (arith, has_prefix-append part after)

occurs : (s part : Text) → contains s part ≡ true → Occurs part s
unfolding contains has_prefix
occurs [] [] h = ([], [], refl)
occurs [] (p ∷ part) h = absurd (ground (arith, h))
occurs (c ∷ s) part h = elim (Bool-cases (has_prefix (c ∷ s) part)) [
  | inl here ↦ let (after, e) = starts (c ∷ s) part here in ([], after, e)
  | inr later ↦
      let (before, after, e) = occurs s part (ground (arith, h, later)) in
      (c ∷ before, after, ap (λ t. c ∷ t) e)
]

contains-append : (before part after : Text) → contains (before ++ part ++ after) part ≡ true
unfolding contains
contains-append [] [] [] = refl
contains-append [] [] (c ∷ after) = ground (arith, has_prefix-append [] (c ∷ after))
contains-append [] (p ∷ part) after = ground (arith, has_prefix-append (p ∷ part) after)
contains-append (c ∷ before) part after = ground (arith, contains-append before part after)

contains_iff : (s part : Text) → (contains s part ≡ true) ↔ Occurs part s
contains_iff s part =
    (occurs s part, λ (before, after, e). rw e (contains-append before part after))

module _ (decode : Text → Option TxOutput) where
  parses : (o : Option TxOutput) (tx : TxOutput) → with_hash o ≡ ok tx → is_empty tx.tx_hash ≡ false
  parses none tx h = absurd (ground (arith, h))
  parses (some t) tx h = ground (arith, h)

  -- An output that parses names a transaction.
  parse_tx_output-hash :
      (out : Text) (tx : TxOutput)
      → parse_tx_output decode out ≡ ok tx
      → is_empty tx.tx_hash ≡ false
  unfolding parse_tx_output
  parse_tx_output-hash out tx h = elim (Bool-cases (is_empty (trim_space out))) [
    | inl blank ↦ absurd (ground (arith, h, blank))
    | inr full ↦ elim (Option-cases (json_object (trim_space out))) [
      | inl absent ↦ absurd (ground (arith, h, full, absent))
      | inr (body, found) ↦ parses (decode body) tx (ground (arith, h, full, found))
    ]
  ]

  parse_tx_output-other :
      (out : Text) (e : Error) → parse_tx_output decode out ≡ err e → e ≡ other_failure
  unfolding parse_tx_output
  parse_tx_output-other out e h = elim (Bool-cases (is_empty (trim_space out))) [
    | inl blank ↦ ground (arith, h, blank)
    | inr full ↦ elim (Option-cases (json_object (trim_space out))) [
      | inl absent ↦ ground (arith, h, full, absent)
      | inr (body, found) ↦ elim (Option-cases (decode body)) [
        | inl bad ↦ ground (arith, h, full, found, bad)
        | inr (t, good) ↦ ground (arith, h, full, found, good)
      ]
    ]
  ]

  -- An answer that names a sequence mismatch: in the output of a run that failed without a
  -- transaction, or in the log of a transaction with an error code.
  abbrev pub IsMismatch : Run → Type 0
  IsMismatch run =
      ((run.failed ≡ true)
        × (parse_tx_output decode run.output ≡ err other_failure)
        × Occurs (codes "account sequence mismatch") run.output)
      ⊎ ((tx : TxOutput) × (parse_tx_output decode run.output ≡ ok tx)
          × (tx.code ≢ 0)
          × Occurs (codes "account sequence mismatch") tx.raw_log)

  module _ (runner : Runner) (run : Run) where
    pub may_retry_iff : (may_retry runner decode run ≡ true) ↔ IsMismatch run
    unfolding is_sequence_mismatch
    may_retry_iff = elim (Result-cases (parse_tx_output decode run.output)) [
      | inr (e, bad) ↦
          let other = parse_tx_output-other run.output e bad in
          let named = contains_iff run.output (codes "account sequence mismatch") in
          ground (arith, bad, other, named)
      | inl (tx, good) ↦
          let hash = parse_tx_output-hash run.output tx good in
          let named = contains_iff tx.raw_log (codes "account sequence mismatch") in
          ground (arith, good, hash, named)
    ]

    pub result_of-parse : result_of runner decode run ≡ parse_tx_output decode run.output
    result_of-parse = elim (Result-cases (parse_tx_output decode run.output)) [
      | inr (e, bad) ↦ ground (arith, bad, parse_tx_output-other run.output e bad)
      | inl (tx, good) ↦ ground (arith, good, parse_tx_output-hash run.output tx good)
    ]
