-- ===== src/Store/Tables/Update.antt =====
-- internal/store/memory_store.go: the change of one entry of a map with its order, as an update of
-- the rows.
use ganc_sys.Prelude.{
  ◌≡◌, refl, false, [], ◌∷◌, none, some, inl, inr, arith, ◌==◌, List, sym, ap, Bool-cases,
  Option-cases, All, ==_refl,
}
use ganc_sys.Dict.{Dict, lookup, insert, lookup-insert, member}
use ganc_sys.Text.{Text, text_eq, text_beq_iff}
use ganc_sys.Repository.Sql.{update_where}
use ganc_sys.Store.Tables.{in_order}
use ganc_sys.Store.Tables.Upsert.{
  IsTable, Distinct, in_order-insert, fresh-key, keyed, absent-order,
}

module _ {A : Type 0} (key : A → Text) (f : A → A) (id : Text) where
  update_where-fresh :
      (rows : List A)
      → All (λ (r : A). (key r == id) ≡ false) rows
      → update_where (λ r. key r == id) f rows ≡ rows
  unfolding update_where
  update_where-fresh [] h = refl
  update_where-fresh (r ∷ rows) h = rw (h.0) (ap (λ t. r ∷ t) (update_where-fresh rows h.1))

  updated :
      (r : A) (items : Dict Text A) (order : List Text)
      → ((j : Text) (x : A) → lookup j items ≡ some x → key x ≡ j)
      → lookup id items ≡ some r
      → Distinct order
      → in_order (insert id (f r) items) order
        ≡ update_where (λ x. key x == id) f (in_order items order)
  unfolding in_order member update_where
  updated r items [] keyed found d = refl
  updated r items (j ∷ order) keyed found d = elim (Bool-cases (j == id)) [
    | inl same ↦
        let here : j ≡ id = (text_beq_iff j id).0 same in
        let absent : member id order ≡ false = rw (← here) d.0 in
        let there : lookup j items ≡ some r = rw here found in
        let new_row : lookup j (insert id (f r) items) ≡ some (f r) =
          rw (lookup-insert id j (f r) items, here, ==_refl id) refl in
        rw (new_row, there, keyed j r there, same, in_order-insert key id (f r) items order absent)
          (ap (λ t. f r ∷ t)
            (sym (
              update_where-fresh (in_order items order)
                (fresh-key key id items order keyed absent))))
    | inr other ↦
        let rest : in_order (insert id (f r) items) order
            ≡ update_where (λ x. key x == id) f (in_order items order) =
          updated r items order keyed found d.1 in
        let unchanged : lookup j (insert id (f r) items) ≡ lookup j items =
          ground (arith, lookup-insert id j (f r) items, text_beq_iff id j, text_beq_iff j id) in
        elim (Option-cases (lookup j items)) [
          | inl absent ↦ rw (unchanged, absent) rest
          | inr (x, there) ↦ rw (unchanged, there, keyed j x there, other) (ap (λ t. x ∷ t) rest)
        ]
  ]

  module _ (items : Dict Text A) (order : List Text) (h : IsTable key items order) where
    pub in_order-change :
        (r : A)
        → lookup id items ≡ some r
        → in_order (insert id (f r) items) order
          ≡ update_where (λ x. key x == id) f (in_order items order)
    in_order-change r found =
        updated r items order (λ j x there. (keyed key x items order h j x there).0) found h.2

    pub update_where-absent :
        lookup id items ≡ none
        → update_where (λ x. key x == id) f (in_order items order) ≡ in_order items order
    update_where-absent absent = update_where-fresh (in_order items order) (
        fresh-key key id items order (λ j x there. (keyed key x items order h j x there).0)
          (absent-order key id items order h.1 absent))
