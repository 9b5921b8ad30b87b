-- ===== src/Service/Ordering/Chain.antt =====
-- internal/service/offchain_settlement_service.go: chains of transitions.
use ganc_sys.Prelude.{
  ℕ, zero, suc, ◌+◌, ◌≡◌, ◌≢◌, inl, inr, refl, ap, ◌∙◌, sym, false, ◌++◌, map, List, [], ◌∷◌, none,
  some, ==_refl, arith, Result, ok, Result-cases, Option-cases, All, length, length-append,
  and_then, subst,
}
use mathlib.Core.List.{Memᴰ}
use mathlib.Core.List.Memᴰ
use ganc_sys.Dict.{lookup, insert, lookup-insert}
use ganc_sys.Dict.Laws.{length-insert}
use ganc_sys.Text.{Text, text_eq, text_beq_iff, is_empty, trim_space}
use ganc_sys.Repository.Settlement.{PendingDepositTransition, PendingWithdrawalTransition}
use ganc_sys.Service.Ordering.{
  PendingSettlementTransition, of_deposit, of_withdrawal, ByRoot, add_pending_transition,
  add_transitions, follow_roots, order_pending_settlement_transitions,
}

-- Each transition starts at the root where the one before it ended, the first at the given one.
abbrev pub IsChain : Text → List PendingSettlementTransition → Type 0
IsChain root [] = Unit
IsChain root (t ∷ ts) = (t.root_before ≡ root) × IsChain t.root_after ts

-- The transitions of the two tables.
abbrev pub transitions_of :
    List PendingDepositTransition
    → List PendingWithdrawalTransition
    → List PendingSettlementTransition
transitions_of deposits withdrawals = map of_deposit deposits ++ map of_withdrawal withdrawals

-- Both roots are given.
abbrev pub HasRoots : PendingSettlementTransition → Type 0
HasRoots t =
    (is_empty (trim_space t.root_before) ≡ false) × (is_empty (trim_space t.root_after) ≡ false)

-- No two transitions start at one root.
abbrev pub StartsApart : List PendingSettlementTransition → Type 0
StartsApart [] = Unit
StartsApart (t ∷ ts) =
    All (λ (u : PendingSettlementTransition). t.root_before ≢ u.root_before) ts × StartsApart ts

unfoldable add_all : List PendingSettlementTransition → ByRoot → Result ByRoot
add_all [] m = ok m
add_all (t ∷ ts) m = and_then (add_pending_transition t m) (add_all ts)

add_transitions-map :
    {A : Type 0} (f : A → PendingSettlementTransition) (xs : List A) (m : ByRoot)
    → add_transitions f xs m ≡ add_all (map f xs) m
unfolding add_all add_transitions
add_transitions-map f [] m = refl
add_transitions-map f (x ∷ xs) m = elim (Result-cases (add_pending_transition (f x) m)) [
  | inr (e, bad) ↦ rw bad refl
  | inl (m', good) ↦ rw good (add_transitions-map f xs m')
]

add_all-append :
    (ts us : List PendingSettlementTransition) (m : ByRoot)
    → and_then (add_all ts m) (add_all us) ≡ add_all (ts ++ us) m
unfolding add_all
add_all-append [] us m = refl
add_all-append (t ∷ ts) us m = elim (Result-cases (add_pending_transition t m)) [
  | inr (e, bad) ↦ rw bad refl
  | inl (m', good) ↦ rw good (add_all-append ts us m')
]

-- What the map knows of its transitions.
abbrev IsIndex : List PendingSettlementTransition → ByRoot → Type 0
IsIndex all m =
    (k : Text) (t : PendingSettlementTransition)
    → lookup k m ≡ some t
    → (t.root_before ≡ k) × Memᴰ t all

add_pending_transition_sound :
    (t : PendingSettlementTransition) (m m' : ByRoot)
    → add_pending_transition t m ≡ ok m'
    → (lookup t.root_before m ≡ none) × (m' ≡ insert t.root_before t m) × HasRoots t
unfolding add_pending_transition
add_pending_transition_sound t m m' h = elim (Option-cases (lookup t.root_before m)) [
  | inl absent ↦ ground arith
  | inr (u, found) ↦ absurd (ground arith)
]

add_all_sound :
    (all ts : List PendingSettlementTransition) (m m' : ByRoot)
    → IsIndex all m
    → All (λ t. Memᴰ t all) ts
    → add_all ts m ≡ ok m'
    → IsIndex all m' × (length m' ≡ length m + length ts)
unfolding add_all
add_all_sound all [] m m' index h e =
    let same : m ≡ m' = ground arith in rw (← same) (index, omega arith)
add_all_sound all (t ∷ ts) m m' index h e = elim (Result-cases (add_pending_transition t m)) [
  | inr (e', bad) ↦ absurd (ground arith)
  | inl (m₁, good) ↦
      let (absent, grown, _) = add_pending_transition_sound t m m₁ good in
      let indexed : IsIndex all m₁ = λ k u found.
        ground (
          arith,
          lookup-insert t.root_before k t m,
          text_beq_iff t.root_before k,
          index k u,
          h.0,
        ) in
      let (i, l) = add_all_sound all ts m₁ m' indexed h.1 (ground arith) in
      (i, ground (arith, length-insert t.root_before t m absent))
]

follow_roots_sound :
    (all : List PendingSettlementTransition) (m : ByRoot)
    → IsIndex all m
    → (n : ℕ) (root : Text) (out : List PendingSettlementTransition)
    → follow_roots n root m ≡ ok out
    → IsChain root out × All (λ t. Memᴰ t all) out × (length out ≡ n)
unfolding follow_roots
follow_roots_sound all m index zero root [] h = (tt, tt, refl)
follow_roots_sound all m index zero root (t ∷ ts) h = absurd (ground arith)
follow_roots_sound all m index (suc n) root out h = elim (Option-cases (lookup root m)) [
  | inl absent ↦ absurd (ground arith)
  | inr (t, found) ↦ elim (Result-cases (follow_roots n t.root_after m)) [
    | inr (e, bad) ↦ absurd (ground arith)
    | inl (rest, good) ↦
        let (c, a, l) = follow_roots_sound all m index n t.root_after rest good in
        let (start, here) = index root t found in
        let whole : out ≡ t ∷ rest = ground arith in
        rw whole ((start, c), (here, a), omega (arith, l))
  ]
]

add_pending_transition_complete :
    (t : PendingSettlementTransition) (m : ByRoot)
    → HasRoots t
    → lookup t.root_before m ≡ none
    → add_pending_transition t m ≡ ok (insert t.root_before t m)
unfolding add_pending_transition
add_pending_transition_complete t m h absent = ground (arith, h.0, h.1)

still_fresh :
    (t : PendingSettlementTransition) (m : ByRoot) (us : List PendingSettlementTransition)
    → All (λ u. t.root_before ≢ u.root_before) us
    → All (λ u. lookup u.root_before m ≡ none) us
    → All (λ u. lookup u.root_before (insert t.root_before t m) ≡ none) us
still_fresh t m [] a h = tt
still_fresh t m (u ∷ us) a h = (
  ground (
    arith,
    lookup-insert t.root_before u.root_before t m,
    text_beq_iff t.root_before u.root_before,
    a.0,
    h.0,
  ),
  still_fresh t m us a.1 h.1,
)

away :
    (t : PendingSettlementTransition) (us : List PendingSettlementTransition)
    → All (λ u. t.root_before ≢ u.root_before) us
    → All (λ u. u.root_before ≢ t.root_before) us
away t [] h = tt
away t (u ∷ us) h = (λ e. h.0 (sym e), away t us h.1)

add_all_complete :
    (ts : List PendingSettlementTransition) (m : ByRoot)
    → All HasRoots ts
    → StartsApart ts
    → All (λ t. lookup t.root_before m ≡ none) ts
    → (m' : ByRoot) × (add_all ts m ≡ ok m')
      × (length m' ≡ length m + length ts)
      × All (λ t. lookup t.root_before m' ≡ some t) ts
      × ((k : Text) → All (λ t. t.root_before ≢ k) ts → lookup k m' ≡ lookup k m)
unfolding add_all
add_all_complete [] m given apart fresh = (m, refl, omega arith, tt, λ k h. refl)
add_all_complete (t ∷ ts) m given apart fresh =
    let m₁ = insert t.root_before t m in
    let added : add_pending_transition t m ≡ ok m₁ =
      add_pending_transition_complete t m given.0 fresh.0 in
    let (m', e, l, found, kept) =
      add_all_complete ts m₁ given.1 apart.1 (still_fresh t m ts apart.0 fresh.1) in
    (
      m',
      rw added e,
      ground (arith, length-insert t.root_before t m fresh.0),
      (
        kept t.root_before (away t ts apart.0)
            ∙ ground (arith, lookup-insert t.root_before t.root_before t m, ==_refl t.root_before),
        found,
      ),
      λ k h.
          kept k h.1
          ∙ ground (arith, lookup-insert t.root_before k t m, text_beq_iff t.root_before k, h.0),
    )

follow_roots_complete :
    (m : ByRoot) (root : Text) (chain : List PendingSettlementTransition)
    → IsChain root chain
    → All (λ t. lookup t.root_before m ≡ some t) chain
    → follow_roots (length chain) root m ≡ ok chain
unfolding follow_roots
follow_roots_complete m root [] c h = refl
follow_roots_complete m root (t ∷ ts) c h =
    ground (arith, c.0, h.0, follow_roots_complete m t.root_after ts c.1 h.1)

every_mem :
    (ts all : List PendingSettlementTransition)
    → ((t : PendingSettlementTransition) → Memᴰ t ts → Memᴰ t all)
    → All (λ t. Memᴰ t all) ts
every_mem [] all sub = tt
every_mem (t ∷ ts) all sub = (sub t (Memᴰ.head refl), every_mem ts all (λ u d. sub u (Memᴰ.tail d)))

All-mem :
    (P : PendingSettlementTransition → Type 0) (t : PendingSettlementTransition)
    (all : List PendingSettlementTransition)
    → All P all
    → Memᴰ t all
    → P t
All-mem P t [] h d = absurd (Memᴰ.not-nil d)
All-mem P t (u ∷ us) h d = elim (Memᴰ.cases_cons d) [
  | inl e ↦ subst P (sym e) h.0
  | inr d' ↦ All-mem P t us h.1 d'
]

All-mems :
    (P : PendingSettlementTransition → Type 0) (ts all : List PendingSettlementTransition)
    → All P all
    → All (λ t. Memᴰ t all) ts
    → All P ts
All-mems P [] all h ds = tt
All-mems P (t ∷ ts) all h ds = (All-mem P t all h ds.0, All-mems P ts all h ds.1)

length-map :
    {A : Type 0} (f : A → PendingSettlementTransition) (xs : List A) → length (map f xs) ≡ length xs
length-map f [] = refl
length-map f (x ∷ xs) = ap suc (length-map f xs)

length-transitions_of :
    (deposits : List PendingDepositTransition) (withdrawals : List PendingWithdrawalTransition)
    → length (transitions_of deposits withdrawals) ≡ length deposits + length withdrawals
length-transitions_of ds ws = omega (
  arith,
  length-append (map of_deposit ds) (map of_withdrawal ws),
  length-map of_deposit ds,
  length-map of_withdrawal ws,
)

empty-IsIndex : {all : List PendingSettlementTransition} → IsIndex all []
unfolding lookup
empty-IsIndex k t h = absurd (ground arith)

nothing_yet :
    (ts : List PendingSettlementTransition)
    → All (λ t. lookup {V = PendingSettlementTransition} t.root_before [] ≡ none) ts
unfolding lookup
nothing_yet [] = tt
nothing_yet (t ∷ ts) = (refl, nothing_yet ts)

-- The two loops fill the map as one would.
fills :
    (deposits : List PendingDepositTransition) (withdrawals : List PendingWithdrawalTransition)
    → and_then (add_transitions of_deposit deposits []) (add_transitions of_withdrawal withdrawals)
      ≡ add_all (transitions_of deposits withdrawals) []
fills ds ws = elim (Result-cases (add_all (map of_deposit ds) [])) [
  | inr (e, bad) ↦ ground (
    arith,
    add_transitions-map of_deposit ds [],
    add_all-append (map of_deposit ds) (map of_withdrawal ws) [],
  )
  | inl (m, good) ↦ ground (
    arith,
    add_transitions-map of_deposit ds [],
    add_transitions-map of_withdrawal ws m,
    add_all-append (map of_deposit ds) (map of_withdrawal ws) [],
  )
]

-- An order that orderPendingSettlementTransitions returns is a chain: each transition starts at the
-- root where the one before it ended, the first at the committed root; all of them are pending
-- rows, and there are as many as both tables have.
pub order_sound :
    (root : Text) (deposits : List PendingDepositTransition)
    (withdrawals : List PendingWithdrawalTransition) (out : List PendingSettlementTransition)
    → order_pending_settlement_transitions root deposits withdrawals ≡ ok out
    → IsChain root out
      × All (λ t. Memᴰ t (transitions_of deposits withdrawals)) out
      × (length out ≡ length deposits + length withdrawals)
unfolding order_pending_settlement_transitions
order_sound root deposits withdrawals out h =
    let all = transitions_of deposits withdrawals in
    let filled = fills deposits withdrawals in
    elim (Result-cases (add_all all [])) [
      | inr (e, bad) ↦ absurd (ground arith)
      | inl (m, good) ↦
          let (index, size) =
            add_all_sound all all [] m empty-IsIndex (every_mem all all (λ t d. d)) good in
          let (c, mem, l) = follow_roots_sound all m index (length m) root out (ground arith) in
          (c, mem, omega (arith, l, size, length-transitions_of deposits withdrawals))
    ]

-- If the pending rows, in whatever order the two tables list them, have non-blank roots, no two of
-- them start at one root, and a chain from the committed root consists of their transitions and is
-- as long as both tables together, then the order is found and is that chain.
pub order_complete :
    (root : Text) (deposits : List PendingDepositTransition)
    (withdrawals : List PendingWithdrawalTransition) (chain : List PendingSettlementTransition)
    → All HasRoots (transitions_of deposits withdrawals)
    → StartsApart (transitions_of deposits withdrawals)
    → IsChain root chain
    → All (λ t. Memᴰ t (transitions_of deposits withdrawals)) chain
    → length chain ≡ length deposits + length withdrawals
    → order_pending_settlement_transitions root deposits withdrawals ≡ ok chain
unfolding order_pending_settlement_transitions
order_complete root deposits withdrawals chain given apart c mem l =
    let all = transitions_of deposits withdrawals in
    let filled = fills deposits withdrawals in
    let (m, good, size, found, _) = add_all_complete all [] given apart (nothing_yet all) in
    let followed =
      follow_roots_complete m root chain c
        (All-mems (λ t. lookup t.root_before m ≡ some t) chain all found mem) in
    ground (arith, l, length-transitions_of deposits withdrawals)
