-- ===== src/Store/Tables/Upsert.antt =====
-- internal/store/memory_store.go: a map with its order, as the list of rows that a table with
-- a primary key would hold.
use ganc_sys.Prelude.{
  ◌≡◌, ◌≢◌, refl, sym, ◌∙◌, ap, true, false, ◌||◌, List, [], ◌∷◌, ◌++◌, none, some, inl, inr, arith,
  ◌==◌, Bool-cases, Option-cases, All, All-append, All-map, ==_refl,
}
use ganc_sys.Dict.{Dict, lookup, insert, lookup-insert, member}
use ganc_sys.Dict.Laws.{All-lookup, All-insert}
use ganc_sys.Text.{Text, text_eq, text_beq_iff}
use ganc_sys.Repository.Sql.{upsert}
use ganc_sys.Store.Tables.{note_id, in_order}

abbrev pub Distinct : List Text → Type 0
Distinct [] = Unit
Distinct (id ∷ ids) = (member id ids ≡ false) × Distinct ids

member-append_one :
    (id new : Text) (ids : List Text) → member id (ids ++ (new ∷ [])) ≡ (member id ids || new == id)
unfolding member
member-append_one id new [] = ground arith
member-append_one id new (j ∷ ids) = ground (arith, member-append_one id new ids)

Distinct-append_one :
    (new : Text) (ids : List Text)
    → Distinct ids
    → member new ids ≡ false
    → Distinct (ids ++ (new ∷ []))
unfolding member
Distinct-append_one new [] d h = (refl, tt)
Distinct-append_one new (j ∷ ids) d h = (
  ground (arith, member-append_one j new ids, text_beq_iff j new, text_beq_iff new j, d.0),
  Distinct-append_one new ids d.1 (ground arith),
)

module _ {A : Type 0} (key : A → Text) where
  -- Each entry stands under its own key, which the order names; each key of the order has an entry,
  -- and none stands twice.
  abbrev pub IsTable : Dict Text A → List Text → Type 0
  IsTable items order =
      All (λ (e : Text × A). (key e.1 ≡ e.0) × (member e.0 order ≡ true)) items
      × All (λ (id : Text). lookup id items ≢ none) order
      × Distinct order

  in_order-append :
      (items : Dict Text A) (xs ys : List Text)
      → in_order items (xs ++ ys) ≡ in_order items xs ++ in_order items ys
  unfolding in_order
  in_order-append items [] ys = refl
  in_order-append items (j ∷ xs) ys = elim (Option-cases (lookup j items)) [
    | inl absent ↦ rw absent (in_order-append items xs ys)
    | inr (r, found) ↦ rw found (rw (in_order-append items xs ys) refl)
  ]

  pub in_order-insert :
      (id : Text) (r : A) (items : Dict Text A) (order : List Text)
      → member id order ≡ false
      → in_order (insert id r items) order ≡ in_order items order
  unfolding in_order member
  in_order-insert id r items [] h = refl
  in_order-insert id r items (j ∷ order) h =
      let same : lookup j (insert id r items) ≡ lookup j items =
        ground (arith, lookup-insert id j r items, text_beq_iff id j, text_beq_iff j id) in
      rw same (rw (in_order-insert id r items order (ground arith)) refl)

  pub fresh-key :
      (id : Text) (items : Dict Text A) (order : List Text)
      → ((j : Text) (r : A) → lookup j items ≡ some r → key r ≡ j)
      → member id order ≡ false
      → All (λ (r : A). (key r == id) ≡ false) (in_order items order)
  unfolding in_order member
  fresh-key id items [] keyed h = tt
  fresh-key id items (j ∷ order) keyed h = elim (Option-cases (lookup j items)) [
    | inl absent ↦ rw absent (fresh-key id items order keyed (ground arith))
    | inr (r, found) ↦
        rw found
          (rw (keyed j r found) (ground arith), fresh-key id items order keyed (ground arith))
  ]

  upsert-fresh :
      (r : A) (rows : List A)
      → All (λ (x : A). (key x == key r) ≡ false) rows
      → upsert key r rows ≡ rows ++ (r ∷ [])
  unfolding upsert
  upsert-fresh r [] h = refl
  upsert-fresh r (x ∷ rows) h = rw (h.0) (ap (λ t. x ∷ t) (upsert-fresh r rows h.1))

  replaced :
      (r : A) (items : Dict Text A) (order : List Text)
      → ((j : Text) (x : A) → lookup j items ≡ some x → key x ≡ j)
      → lookup (key r) items ≢ none
      → Distinct order
      → member (key r) order ≡ true
      → in_order (insert (key r) r items) order ≡ upsert key r (in_order items order)
  unfolding in_order member upsert
  replaced r items [] keyed has d h = absurd (ground arith)
  replaced r items (j ∷ order) keyed has d h = elim (Bool-cases (j == key r)) [
    | inl same ↦
        let here : j ≡ key r = (text_beq_iff j (key r)).0 same in
        let absent : member (key r) order ≡ false = rw (← here) d.0 in
        elim (Option-cases (lookup j items)) [
          | inl none_there ↦ absurd (has (rw (← here) none_there))
          | inr (x, found) ↦
              rw (lookup-insert (key r) j r items, found)
                (ground (
                  arith,
                  text_beq_iff (key r) j,
                  keyed j x found,
                  in_order-insert (key r) r items order absent,
                  same,
                  ==_refl (key r),
                ))
        ]
    | inr other ↦
        let rest : in_order (insert (key r) r items) order ≡ upsert key r (in_order items order) =
          replaced r items order keyed has d.1 (ground arith) in
        let unchanged : lookup j (insert (key r) r items) ≡ lookup j items = ground (
          arith,
          lookup-insert (key r) j r items,
          text_beq_iff (key r) j,
          text_beq_iff j (key r),
        ) in
        elim (Option-cases (lookup j items)) [
          | inl absent ↦ rw (unchanged, absent) rest
          | inr (x, found) ↦ rw (unchanged, found) (ground (arith, keyed j x found, rest))
        ]
  ]

  -- The keys that the order names all have entries, so an id without an entry is not among them.
  pub absent-order :
      (id : Text) (items : Dict Text A) (order : List Text)
      → All (λ (j : Text). lookup j items ≢ none) order
      → lookup id items ≡ none
      → member id order ≡ false
  unfolding member
  absent-order id items [] all absent = refl
  absent-order id items (j ∷ order) all absent = elim (Bool-cases (j == id)) [
    | inl same ↦ absurd (all.0 (rw ((text_beq_iff j id).0 same) absent))
    | inr other ↦ rw other (absent-order id items order all.1 absent)
  ]

  module _ (r : A) (items : Dict Text A) (order : List Text) (h : IsTable items order) where
    pub keyed : (j : Text) (x : A) → lookup j items ≡ some x → (key x ≡ j) × (member j order ≡ true)
    keyed j x found =
        All-lookup (λ e. (key e.1 ≡ e.0) × (member e.0 order ≡ true)) j x items h.0 found

    pub in_order-save_new :
        lookup (key r) items ≡ none
        → in_order (insert (key r) r items) (note_id (key r) items order)
          ≡ in_order items order ++ (r ∷ [])
    unfolding note_id
    in_order-save_new absent =
        let new : member (key r) order ≡ false = absent-order (key r) items order h.1 absent in
        let new_row : lookup (key r) (insert (key r) r items) ≡ some r =
          rw (lookup-insert (key r) (key r) r items) (rw (==_refl (key r)) refl) in
        rw absent (
          rw
            (
              in_order-append (insert (key r) r items) order (key r ∷ []),
              in_order-insert (key r) r items order new,
            )
            (unfold in_order in rw new_row refl))

    -- The rows after a save are those of an `INSERT … ON CONFLICT DO UPDATE`.
    pub in_order-save :
        in_order (insert (key r) r items) (note_id (key r) items order)
        ≡ upsert key r (in_order items order)
    unfolding note_id
    in_order-save = elim (Option-cases (lookup (key r) items)) [
      | inl absent ↦
          let new : member (key r) order ≡ false = absent-order (key r) items order h.1 absent in
          in_order-save_new absent
          ∙ sym (
              upsert-fresh r (in_order items order)
                (fresh-key (key r) items order (λ j x found. (keyed j x found).0) new))
      | inr (x, found) ↦ rw found (
          replaced r items order (λ j x found. (keyed j x found).0) (ground (arith, found)) h.2
            (keyed (key r) x found).1)
    ]

    still : (id : Text) → lookup id items ≢ none → lookup id (insert (key r) r items) ≢ none
    still id has = ground (arith, has, lookup-insert (key r) id r items)

    pub save-IsTable : IsTable (insert (key r) r items) (note_id (key r) items order)
    unfolding note_id
    save-IsTable = elim (Option-cases (lookup (key r) items)) [
      | inl absent ↦
          let new : member (key r) order ≡ false = absent-order (key r) items order h.1 absent in
          rw absent (
            All-insert (λ e. (key e.1 ≡ e.0) × (member e.0 (order ++ (key r ∷ [])) ≡ true)) (key r)
                r items
                (All-map (λ e p. (p.0, ground (arith, p.1, member-append_one e.0 (key r) order)))
                  items h.0)
                (refl, ground (arith, member-append_one (key r) (key r) order, ==_refl (key r))),
            All-append (λ id. lookup id (insert (key r) r items) ≢ none) order (key r ∷ [])
                (All-map still order h.1)
                (ground (arith, lookup-insert (key r) (key r) r items, ==_refl (key r)), tt),
            Distinct-append_one (key r) order h.2 new,
          )
      | inr (x, found) ↦ rw found (
        All-insert (λ e. (key e.1 ≡ e.0) × (member e.0 order ≡ true)) (key r) r items h.0
            (refl, (keyed (key r) x found).1),
        All-map still order h.1,
        h.2,
      )
    ]
