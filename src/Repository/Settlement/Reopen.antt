-- ===== src/Repository/Settlement/Reopen.antt =====
-- internal/repository/offchain_settlement_repository.go: `MarkIncluded` and `ReopenIncluded`.
use ganc_sys.Prelude.{
  ℕ, zero, suc, ◌⊎◌, ◌<◌, ◌≡◌, ◌≢◌, refl, ap, ap₂, ◌≤◌, ◌∙◌, inl, inr, Bool, true, false, map, List,
  [], ◌∷◌, ◌==◌, ==_refl, arith, All, length, ◌+◌, ok, Result-cases, if◌then◌else◌,
}
use ganc_sys.Dict.{member}
use ganc_sys.Text.{Text, text_eq, text_beq_iff}
use ganc_sys.Repository.Sql.{update_where, count_where, update_each}
use ganc_sys.Repository.Settlement.{
  OffchainSettlementRepository, PendingDepositTransition, PendingWithdrawalTransition,
  status_pending, status_included,
}
use ganc_sys.Repository.Settlement.Batches.{
  include_deposit, include_withdrawal, included, mark_included, is_open_deposit, is_open_withdrawal,
  reopen_deposit, reopen_withdrawal, reopened, reopen_included,
}

module _ {A : Type 0} (key : A → Text) (f : A → A) where
  -- What the loop over the ids makes of one row.
  abbrev pub touch : List Text → A → A
  touch ids r = if member (key r) ids then f r else r

  touch_twice :
      ((r : A) → key (f r) ≡ key r)
      → ((r : A) → f (f r) ≡ f r)
      → (id : Text) (ids : List Text) (r : A)
      → touch ids (if key r == id then f r else r) ≡ touch (id ∷ ids) r
  unfolding member
  touch_twice keep idem id ids r =
      ground (arith, keep r, idem r, text_beq_iff (key r) id, text_beq_iff id (key r))

  touch_where :
      ((r : A) → key (f r) ≡ key r)
      → ((r : A) → f (f r) ≡ f r)
      → (id : Text) (ids : List Text) (rows : List A)
      → map (touch ids) (update_where (λ r. key r == id) f rows) ≡ map (touch (id ∷ ids)) rows
  unfolding update_where
  touch_where keep idem id ids [] = refl
  touch_where keep idem id ids (r ∷ rows) =
      ap₂ (λ a as'. a ∷ as') (touch_twice keep idem id ids r) (touch_where keep idem id ids rows)

  touch_none : (rows : List A) → map (touch []) rows ≡ rows
  unfolding member
  touch_none [] = refl
  touch_none (r ∷ rows) = ap (λ as'. r ∷ as') (touch_none rows)

  -- The loop touches the rows with the ids, and needs one for the first.
  update_each_sound :
      ((r : A) → key (f r) ≡ key r)
      → ((r : A) → f (f r) ≡ f r)
      → (ids : List Text) (rows out : List A) → update_each key f ids rows ≡ ok out
      → out ≡ map (touch ids) rows
  unfolding update_each
  update_each_sound keep idem [] rows out h = ground (arith, touch_none rows)
  update_each_sound keep idem (id ∷ ids) rows out h =
      let rest = update_each_sound keep idem ids (update_where (λ r. key r == id) f rows) out in
      rest (ground arith) ∙ touch_where keep idem id ids rows

  first_found :
      (id : Text) (ids : List Text) (rows out : List A)
      → update_each key f (id ∷ ids) rows ≡ ok out
      → 0 < count_where (λ r. key r == id) rows
  unfolding update_each
  first_found id ids rows out h = ground arith

  module _ (is_open : A → Bool) (g noted : A → A) (opens : (r : A) → is_open (f r) ≡ true) where
    -- A row that is not open, and that opens and reopens as noted if it is chosen.
    abbrev Restorable : List Text → A → Type 0
    Restorable ids r = (is_open r ≡ false) × (member (key r) ids ≡ true → g (f r) ≡ noted r)

    reopen_rows :
        (ids : List Text) (rows : List A)
        → All (Restorable ids) rows
        → update_where is_open g (map (touch ids) rows)
          ≡ map (λ r. if member (key r) ids then noted r else r) rows
    unfolding update_where
    reopen_rows ids [] h = refl
    reopen_rows ids (r ∷ rows) h = ground (arith, opens r, h.0.0, h.0.1, reopen_rows ids rows h.1)

    open_counts :
        (id : Text) (ids : List Text) (rows : List A)
        → count_where (λ r. key r == id) rows ≤ count_where is_open (map (touch (id ∷ ids)) rows)
    unfolding count_where member
    open_counts id ids [] = omega arith
    open_counts id ids (r ∷ rows) =
        ground (
          arith,
          opens r,
          open_counts id ids rows,
          text_beq_iff (key r) id,
          text_beq_iff id (key r),
        )

    -- What the loop has included is open.
    opened :
        ((r : A) → key (f r) ≡ key r)
        → ((r : A) → f (f r) ≡ f r)
        → (ids : List Text) (rows out : List A) → 0 < length ids
        → update_each key f ids rows ≡ ok out
        → 0 < count_where is_open out
    opened keep idem [] rows out l h = absurd (omega (arith, l))
    opened keep idem (id ∷ ids) rows out l h =
        rw (update_each_sound keep idem (id ∷ ids) rows out h)
          (omega (arith, open_counts id ids rows, first_found id ids rows out h))

positive_part : (a b : ℕ) → 0 < a + b → (0 < a) ⊎ (0 < b)
positive_part zero b h = inr (omega (arith, h))
positive_part (suc a) b h = inl (omega arith)

-- A row that stands outside the batch, and that is pending as it was saved if it is to be included.
abbrev pub IsFreshDeposit : Text → List Text → PendingDepositTransition → Type 0
IsFreshDeposit batch_id ids d =
    (d.batch_id ≢ batch_id)
    × ((member d.deposit_id ids ≡ false)
        ⊎ ((d.status ≡ status_pending) × (d.batch_id ≡ []) × (d.tx_hash ≡ [])))

abbrev pub IsFreshWithdrawal : Text → List Text → PendingWithdrawalTransition → Type 0
IsFreshWithdrawal batch_id ids w =
    (w.batch_id ≢ batch_id)
    × ((member w.withdraw_id ids ≡ false)
        ⊎ ((w.status ≡ status_pending) × (w.batch_id ≡ []) × (w.tx_hash ≡ [])))

-- The row with the reason of the cancellation.
abbrev pub noted_deposit : Text → List Text → PendingDepositTransition → PendingDepositTransition
noted_deposit reason ids d =
    if member d.deposit_id ids then record d { error_message = reason } else d

abbrev pub noted_withdrawal :
    Text → List Text → PendingWithdrawalTransition → PendingWithdrawalTransition
noted_withdrawal reason ids w =
    if member w.withdraw_id ids then record w { error_message = reason } else w

restorable_deposits :
    (batch_id reason : Text) (ids : List Text) (rows : List PendingDepositTransition)
    → All (IsFreshDeposit batch_id ids) rows
    → update_where
        (is_open_deposit batch_id)
        (reopen_deposit reason)
        (map (touch (λ d. d.deposit_id) (include_deposit batch_id) ids) rows)
      ≡ map (noted_deposit reason ids) rows
restorable_deposits batch_id reason ids rows h =
    reopen_rows (λ d. d.deposit_id) (include_deposit batch_id) (is_open_deposit batch_id)
      (reopen_deposit reason) (λ d. record d { error_message = reason })
      (λ d. ground (arith, ==_refl batch_id, ==_refl status_included)) ids rows (each ids rows h)
  where
    each :
        (ids : List Text) (rows : List PendingDepositTransition)
        → All (IsFreshDeposit batch_id ids) rows
        → All
            (λ d.
              (is_open_deposit batch_id d ≡ false)
              × (member d.deposit_id ids ≡ true
                  → reopen_deposit reason (include_deposit batch_id d)
                    ≡ record d { error_message = reason }))
            rows
    each ids [] h = tt
    each ids (d ∷ rows) h = (
      (ground (arith, text_beq_iff d.batch_id batch_id, h.0.0), λ m. ground (arith, h.0.1, m)),
      each ids rows h.1,
    )

restorable_withdrawals :
    (batch_id reason : Text) (ids : List Text) (rows : List PendingWithdrawalTransition)
    → All (IsFreshWithdrawal batch_id ids) rows
    → update_where
        (is_open_withdrawal batch_id)
        (reopen_withdrawal reason)
        (map (touch (λ w. w.withdraw_id) (include_withdrawal batch_id) ids) rows)
      ≡ map (noted_withdrawal reason ids) rows
restorable_withdrawals batch_id reason ids rows h =
    reopen_rows (λ w. w.withdraw_id) (include_withdrawal batch_id) (is_open_withdrawal batch_id)
      (reopen_withdrawal reason) (λ w. record w { error_message = reason })
      (λ w. ground (arith, ==_refl batch_id, ==_refl status_included)) ids rows (each ids rows h)
  where
    each :
        (ids : List Text) (rows : List PendingWithdrawalTransition)
        → All (IsFreshWithdrawal batch_id ids) rows
        → All
            (λ w.
              (is_open_withdrawal batch_id w ≡ false)
              × (member w.withdraw_id ids ≡ true
                  → reopen_withdrawal reason (include_withdrawal batch_id w)
                    ≡ record w { error_message = reason }))
            rows
    each ids [] h = tt
    each ids (w ∷ rows) h = (
      (ground (arith, text_beq_iff w.batch_id batch_id, h.0.0), λ m. ground (arith, h.0.1, m)),
      each ids rows h.1,
    )

opened_deposits :
    (batch_id reason : Text) (ids : List Text) (rows out : List PendingDepositTransition)
    → 0 < length ids
    → update_each (λ d. d.deposit_id) (include_deposit batch_id) ids rows ≡ ok out
    → 0 < count_where (is_open_deposit batch_id) out
opened_deposits batch_id reason =
    opened (λ d. d.deposit_id) (include_deposit batch_id) (is_open_deposit batch_id)
      (reopen_deposit reason) (λ d. record d { error_message = reason })
      (λ d. ground (arith, ==_refl batch_id, ==_refl status_included)) (λ d. refl) (λ d. refl)

opened_withdrawals :
    (batch_id reason : Text) (ids : List Text) (rows out : List PendingWithdrawalTransition)
    → 0 < length ids
    → update_each (λ w. w.withdraw_id) (include_withdrawal batch_id) ids rows ≡ ok out
    → 0 < count_where (is_open_withdrawal batch_id) out
opened_withdrawals batch_id reason =
    opened (λ w. w.withdraw_id) (include_withdrawal batch_id) (is_open_withdrawal batch_id)
      (reopen_withdrawal reason) (λ w. record w { error_message = reason })
      (λ w. ground (arith, ==_refl batch_id, ==_refl status_included)) (λ w. refl) (λ w. refl)

-- Marking rows as included in a batch and reopening that batch leaves the tables as they were, with
-- the reason as the error message of the rows named; for a batch id that no row has, named rows
-- that are pending with no batch and no transaction, and at least one id.
pub reopen_included-mark_included :
    (batch_id reason : Text) (deposit_ids withdraw_ids : List Text)
    (r r₁ : OffchainSettlementRepository)
    → All (IsFreshDeposit batch_id deposit_ids) r.deposits
    → All (IsFreshWithdrawal batch_id withdraw_ids) r.withdrawals
    → 0 < length deposit_ids + length withdraw_ids
    → mark_included batch_id deposit_ids withdraw_ids r ≡ (ok tt, r₁)
    → reopen_included batch_id reason r₁ ≡ (
      ok tt,
      record r {
        deposits = map (noted_deposit reason deposit_ids) r.deposits;
        withdrawals = map (noted_withdrawal reason withdraw_ids) r.withdrawals;
      },
    )
unfolding mark_included included reopen_included reopened
reopen_included-mark_included batch_id reason ds ws r r₁ hd hw some h =
    elim (Result-cases (update_each (λ d. d.deposit_id) (include_deposit batch_id) ds r.deposits)) [
      | inr (e, bad) ↦ absurd (ground arith)
      | inl (ds', gd) ↦
          elim (Result-cases
            (update_each (λ w. w.withdraw_id) (include_withdrawal batch_id) ws r.withdrawals)) [
              | inr (e, bad) ↦ absurd (ground arith)
              | inl (ws', gw) ↦
                  let counted : 0
                      < count_where (is_open_deposit batch_id) ds'
                        + count_where (is_open_withdrawal batch_id) ws' =
                    elim (positive_part (length ds) (length ws) some) [
                      | inl l ↦
                          omega (arith, opened_deposits batch_id reason ds r.deposits ds' l gd)
                      | inr l ↦
                          omega
                            (arith, opened_withdrawals batch_id reason ws r.withdrawals ws' l gw)
                    ] in
                  let ed =
                    update_each_sound (λ d. d.deposit_id) (include_deposit batch_id) (λ d. refl)
                      (λ d. refl) ds r.deposits ds' gd in
                  let ew =
                    update_each_sound (λ w. w.withdraw_id) (include_withdrawal batch_id) (λ w. refl)
                      (λ w. refl) ws r.withdrawals ws' gw in
                  ground (
                    arith,
                    counted,
                    ed,
                    ew,
                    restorable_deposits batch_id reason ds r.deposits hd,
                    restorable_withdrawals batch_id reason ws r.withdrawals hw,
                  )
            ]
    ]
