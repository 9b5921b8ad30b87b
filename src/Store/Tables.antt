-- ===== src/Store/Tables.antt =====
-- internal/store/memory_store.go: a map and the order in which its keys were first saved.
pub mod Upsert
pub mod Update
use ganc_sys.Prelude.{ℕ, List, [], ◌∷◌, ◌++◌, Option, none, some}
use ganc_sys.Dict.{Dict, lookup}
use ganc_sys.Text.{Text, text_eq}

module _ {A : Type 0} where
  -- `if !exists { order = append(order, id) }`
  abbrev pub append_unless : Option A → Text → List Text → List Text
  append_unless none id order = order ++ (id ∷ [])
  append_unless (some _) id order = order

  -- `_, exists := items[id]`, and the id at the end of the order if it is new
  unfoldable pub note_id : Text → Dict Text A → List Text → List Text
  note_id id items order = append_unless (lookup id items) id order

  -- `if ok { records = append(records, record) }`
  abbrev pub prepend : Option A → List A → List A
  prepend none rows = rows
  prepend (some r) rows = r ∷ rows

  -- The loop of the `List…` methods.
  unfoldable pub in_order : Dict Text A → List Text → List A
  in_order items [] = []
  in_order items (id ∷ ids) = prepend (lookup id items) (in_order items ids)
