-- ===== src/Repository/Sql.antt =====
-- The statements that internal/repository/offchain_settlement_repository.go issues, on a table as
-- the list of its rows. The rows stand in the order of `created_at`, so a new row comes last.
use ganc_sys.Prelude.{
  ℕ, ◌+◌, Bool, List, [], ◌∷◌, ◌==◌, Result, ok, err, record_not_found, if◌then◌else◌, eqb,
}
use ganc_sys.Text.{Text, text_eq}

module _ {A : Type 0} where
  -- `SELECT … WHERE p`
  unfoldable pub select_where : (A → Bool) → List A → List A
  select_where p [] = []
  select_where p (r ∷ rows) = let rest = select_where p rows in if p r then r ∷ rest else rest

  -- `UPDATE … SET f WHERE p`, and its `RowsAffected()`
  unfoldable pub update_where : (A → Bool) → (A → A) → List A → List A
  update_where p f [] = []
  update_where p f (r ∷ rows) = (if p r then f r else r) ∷ update_where p f rows

  unfoldable pub count_where : (A → Bool) → List A → ℕ
  count_where p [] = 0
  count_where p (r ∷ rows) = (if p r then 1 else 0) + count_where p rows

  -- `INSERT … ON CONFLICT (key) DO UPDATE`
  unfoldable pub upsert : (A → Text) → A → List A → List A
  upsert key new [] = new ∷ []
  upsert key new (r ∷ rows) = if key r == key new then new ∷ rows else r ∷ upsert key new rows

  -- The loop of `MarkIncluded` over one table's ids.
  unfoldable pub update_each : (A → Text) → (A → A) → List Text → List A → Result (List A)
  update_each key f [] rows = ok rows
  update_each key f (id ∷ ids) rows =
      let rest = update_each key f ids (update_where (λ r. key r == id) f rows) in
      if eqb (count_where (λ r. key r == id) rows) 0 then err record_not_found else rest
