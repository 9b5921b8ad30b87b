-- ===== src/State/Account/Sorting.antt =====
-- internal/state/account_state.go: the sorting of `Snapshot`.
use mathlib.Core.Logic.{∥∥₁_elim}
use mathlib.Core.List.{Perm, Permᴰ}
use mathlib.Core.Path.{subst₂, ap₂}
use ganc_sys.State.Root.{compute_root}
use ganc_sys.Prelude.{
  subst, ℕ, ◌≡◌, refl, sym, ap, ◌∙◌, ◌≢◌, true, false, List, [], ◌∷◌, arith, All,
}
use ganc_sys.Dict.{Dict, DistinctKeys}
use ganc_sys.Text.{Text, text_eq, text_beq_iff}
use ganc_sys.Text.Order.{text_ltb_irrefl, text_ltb_trans, text_ltb_total}
use ganc_sys.Types.{Account}
use ganc_sys.State.Account.{
  AccountKey, key_eq, AccountState, account_before, insert_sorted, sort_accounts, values, snapshot,
}
use ganc_sys.State.Account.Valid.{IsValid, IsValidEntry}

before_asym : (a b : Account) → account_before a b ≡ true → account_before b a ≡ false
unfolding account_before
before_asym a b h = ground (
  arith,
  text_beq_iff a.owner b.owner,
  text_beq_iff b.owner a.owner,
  text_ltb_trans a.owner b.owner a.owner,
  text_ltb_trans a.denom b.denom a.denom,
  text_ltb_irrefl a.owner,
  text_ltb_irrefl a.denom,
)

before_trans :
    (a b c : Account)
    → account_before a b ≡ true
    → account_before b c ≡ true
    → account_before a c ≡ true
unfolding account_before
before_trans a b c h k = ground (
  arith,
  text_beq_iff a.owner b.owner,
  text_beq_iff b.owner c.owner,
  text_beq_iff a.owner c.owner,
  text_ltb_trans a.owner b.owner c.owner,
  text_ltb_trans a.denom b.denom c.denom,
  text_ltb_irrefl a.owner,
  text_ltb_trans a.owner b.owner a.owner,
)

abbrev pub Differ : Account → Account → Type 0
Differ a b = ¬ ((a.owner ≡ b.owner) × (a.denom ≡ b.denom))

before_total : (a b : Account) → Differ a b → account_before a b ≡ false → account_before b a ≡ true
unfolding account_before
before_total a b ne h = ground (
  arith,
  text_beq_iff a.owner b.owner,
  text_beq_iff b.owner a.owner,
  text_ltb_total a.owner b.owner,
  text_ltb_total a.denom b.denom,
)

insert_comm :
    (a b : Account) (l : List Account)
    → Differ a b
    → insert_sorted a (insert_sorted b l) ≡ insert_sorted b (insert_sorted a l)
unfolding insert_sorted
insert_comm a b [] ne = ground (arith, before_asym a b, before_asym b a, before_total a b ne)
insert_comm a b (c ∷ l) ne = ground (
  arith,
  before_asym a b,
  before_asym b a,
  before_total a b ne,
  before_trans c a b,
  before_trans c b a,
  before_trans a b c,
  before_trans b a c,
  before_asym a c,
  before_asym c a,
  before_asym b c,
  before_asym c b,
  insert_comm a b l ne,
)

-- Pairwise different owners or denoms.
abbrev pub AllDiffer : List Account → Type 0
AllDiffer [] = Unit
AllDiffer (a ∷ l) = All (Differ a) l × AllDiffer l

All-perm : (P : Account → Type 0) {l m : List Account} → Permᴰ l m → All P l → All P m
All-perm P Permᴰ.nil h = tt
All-perm P (Permᴰ.cons e p) h = (subst P e (h.0), All-perm P p h.1)
All-perm P (Permᴰ.swap e f) (ha, (hb, h)) = (subst P f hb, (subst P e ha, h))
All-perm P (Permᴰ.trans p q) h = All-perm P q (All-perm P p h)

Differ-sym : (a b : Account) → Differ a b → Differ b a
Differ-sym a b h (o, d) = h (sym o, sym d)

AllDiffer-perm : {l m : List Account} → Permᴰ l m → AllDiffer l → AllDiffer m
AllDiffer-perm Permᴰ.nil h = tt
AllDiffer-perm (Permᴰ.cons {a = a} {l₂ = l} e p) h =
    subst (λ x. AllDiffer (x ∷ l)) e (All-perm (Differ a) p h.0, AllDiffer-perm p h.1)
AllDiffer-perm (Permᴰ.swap {a = a} {b = b} {l = l} e f) h =
    let ((ne, ha), (hb, rest)) = h in
    subst₂ (λ x y. AllDiffer (x ∷ y ∷ l)) f e ((Differ-sym a b ne, hb), (ha, rest))
AllDiffer-perm (Permᴰ.trans p q) h = AllDiffer-perm q (AllDiffer-perm p h)

sort-perm : {l m : List Account} → Permᴰ l m → AllDiffer l → sort_accounts l ≡ sort_accounts m
unfolding sort_accounts
sort-perm Permᴰ.nil h = refl
sort-perm (Permᴰ.cons e p) h = cc (e, sort-perm p h.1)
sort-perm (Permᴰ.swap {a = a} {b = b} {l = l} e f) h =
    let ((ne, ha), (hb, rest)) = h in
    insert_comm a b (sort_accounts l) ne
    ∙ ap₂ (λ x y. insert_sorted x (insert_sorted y (sort_accounts l))) f e
sort-perm (Permᴰ.trans p q) h = sort-perm p h ∙ sort-perm q (AllDiffer-perm p h)

keys-Differ :
    (k j : AccountKey) (a b : Account)
    → k ≢ j
    → IsValidEntry (k, a)
    → IsValidEntry (j, b)
    → Differ a b
keys-Differ k j a b ne h g (o, d) = ne (cc (h.1, h.2, g.1, g.2, o, d))

Differ-from_each :
    (k : AccountKey) (a : Account) (m : Dict AccountKey Account)
    → IsValidEntry (k, a)
    → All IsValidEntry m
    → All (λ (x : AccountKey × Account). k ≢ x.0) m
    → All (Differ a) (values m)
unfolding values
Differ-from_each k a [] h hs ne = tt
Differ-from_each k a ((j, b) ∷ m) h hs ne =
    (keys-Differ k j a b ne.0 h hs.0, Differ-from_each k a m h hs.1 ne.1)

values-AllDiffer :
    (m : Dict AccountKey Account) → All IsValidEntry m → DistinctKeys m → AllDiffer (values m)
unfolding values
values-AllDiffer [] hs ne = tt
values-AllDiffer ((k, a) ∷ m) hs ne =
    (Differ-from_each k a m hs.0 hs.1 ne.0, values-AllDiffer m hs.1 ne.1)

values-perm : {m n : Dict AccountKey Account} → Permᴰ m n → Permᴰ (values m) (values n)
unfolding values
values-perm Permᴰ.nil = Permᴰ.nil
values-perm (Permᴰ.cons e p) = Permᴰ.cons (ap (λ x. x.1) e) (values-perm p)
values-perm (Permᴰ.swap e f) = Permᴰ.swap (ap (λ x. x.1) e) (ap (λ x. x.1) f)
values-perm (Permᴰ.trans p q) = Permᴰ.trans (values-perm p) (values-perm q)

Text-set : IsSet Text
Text-set = hlevel

Accounts-set : IsSet (List Account)
Accounts-set = hlevel

-- The sorted snapshot and the state root do not depend on the order in which a map with valid
-- entries is walked: two lists of the same entries give one snapshot and one root.
pub snapshot-perm :
    (sha256 : Text → List ℕ) (s t : AccountState)
    → IsValid s
    → Perm s.accounts t.accounts
    → (snapshot s ≡ snapshot t)
      × (compute_root sha256 (snapshot s) ≡ compute_root sha256 (snapshot t))
unfolding snapshot
snapshot-perm sha256 s t v p =
    let same : sort_accounts (values s.accounts) ≡ sort_accounts (values t.accounts) =
      ∥∥₁_elim p (Accounts-set _ _)
        (λ q. sort-perm (values-perm q) (values-AllDiffer s.accounts v.entries v.distinct)) in
    (same, ap (compute_root sha256) same)
