-- ===== src/State/Manager/Rollback.antt =====
-- internal/state/offchain_manager.go: copies of maps and sets, and rollback.
use ganc_sys.Prelude.{
  ℕ, ◌≡◌, ◌≢◌, refl, sym, ap, ◌∙◌, false, List, [], ◌∷◌, ◌++◌, append-nil, append_assoc, All, ==_ne,
}
use ganc_sys.Dict.{Dict, DistinctKeys, insert, member, member-add}
use ganc_sys.Text.{Text, text_eq, is_empty}
use ganc_sys.Types.{Account}
use ganc_sys.State.Account.{AccountKey, key_eq}
use ganc_sys.State.Account.Valid.{IsValid}
use ganc_sys.State.Local.{LocalState}
use ganc_sys.State.Manager.{OffchainStateManager, copy_into, copy_str_set, take_snapshot, rollback}

-- No key of the one map stands in the other, and the second has distinct keys.
abbrev Fresh : Dict AccountKey Account → Dict AccountKey Account → Type 0
Fresh to from =
    All (λ (x : AccountKey × Account). All (λ (y : AccountKey × Account). x.0 ≢ y.0) from) to

insert-fresh :
    (k : AccountKey) (v : Account) (to : Dict AccountKey Account)
    → All (λ (x : AccountKey × Account). x.0 ≢ k) to
    → insert k v to ≡ to ++ ((k, v) ∷ [])
unfolding insert
insert-fresh k v [] h = refl
insert-fresh k v ((j, w) ∷ to) h =
    rw (==_ne j k h.0) (ap (λ (m : Dict AccountKey Account). (j, w) ∷ m) (insert-fresh k v to h.1))

Fresh-head :
    (to from : Dict AccountKey Account) (k : AccountKey) (v : Account)
    → Fresh to ((k, v) ∷ from)
    → All (λ (x : AccountKey × Account). x.0 ≢ k) to
Fresh-head [] from k v h = tt
Fresh-head (x ∷ to) from k v h = (h.0.0, Fresh-head to from k v h.1)

Fresh-tail :
    (to from : Dict AccountKey Account) (k : AccountKey) (v : Account)
    → Fresh to ((k, v) ∷ from)
    → All (λ (y : AccountKey × Account). k ≢ y.0) from
    → Fresh (to ++ ((k, v) ∷ [])) from
Fresh-tail [] from k v h d = (d, tt)
Fresh-tail (x ∷ to) from k v h d = (h.0.1, Fresh-tail to from k v h.1 d)

copy_into-append :
    (to from : Dict AccountKey Account)
    → Fresh to from
    → DistinctKeys from
    → copy_into to from ≡ to ++ from
unfolding copy_into
copy_into-append to [] h d = sym (append-nil to)
copy_into-append to ((k, v) ∷ from) h d = rw (insert-fresh k v to (Fresh-head to from k v h)) (
    copy_into-append (to ++ ((k, v) ∷ [])) from (Fresh-tail to from k v h d.0) d.1
    ∙ append_assoc to ((k, v) ∷ []) from)

-- Copying a map gives the map.
copy_map : (m : Dict AccountKey Account) → DistinctKeys m → copy_into [] m ≡ m
copy_map m d = copy_into-append [] m tt d

member-copy_str_set : (k : Text) (s : List Text) → member k (copy_str_set s) ≡ member k s
unfolding copy_str_set member
member-copy_str_set k [] = refl
member-copy_str_set k (j ∷ s) = rw (member-add j k (copy_str_set s), member-copy_str_set k s)

-- Two local states that no method tells apart: equal accounts and roots, and sets with the same
-- members.
pub record SameState (s t : LocalState) : Type 0 where
  pub accounts : s.accounts ≡ t.accounts
  pub root : s.root ≡ t.root
  pub deposits : (id : Text) → member id s.applied_deposits ≡ member id t.applied_deposits
  pub nullifiers : (n : Text) → member n s.applied_nullifiers ≡ member n t.applied_nullifiers

-- Rollback to a snapshot restores the local state that the snapshot was taken of, whatever the
-- manager holds at the rollback: equal accounts and root, and sets of applied ids with equal
-- members; for accounts that were valid and a root that was not empty at the snapshot.
pub rollback-take_snapshot :
    (sha256 : Text → List ℕ) (m later : OffchainStateManager)
    → IsValid m.ls.accounts
    → is_empty m.ls.root ≡ false
    → SameState (rollback sha256 (take_snapshot m) later).ls m.ls
unfolding rollback take_snapshot
rollback-take_snapshot sha256 m later v present = record {
  accounts =
      rw (copy_map m.ls.accounts.accounts v.distinct)
        (rw (copy_map m.ls.accounts.accounts v.distinct) refl);
  root = rw present;
  deposits = λ id.
      member-copy_str_set id (copy_str_set m.ls.applied_deposits)
      ∙ member-copy_str_set id m.ls.applied_deposits;
  nullifiers = λ n.
      member-copy_str_set n (copy_str_set m.ls.applied_nullifiers)
      ∙ member-copy_str_set n m.ls.applied_nullifiers;
}
