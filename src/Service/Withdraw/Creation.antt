-- ===== src/Service/Withdraw/Creation.antt =====
-- internal/service/withdraw_service.go: what `CreateWithdrawRequest` leaves with the off-chain
-- settlement.
use ganc_sys.Prelude.{
  ℕ, ◌≡◌, refl, ap, List, ok, err, Error, arith, inl, inr, Result-cases, Bool-cases, ◌==◌,
}
use ganc_sys.Text.{Text, text_eq}
use ganc_sys.Types.{WithdrawRequest}
use ganc_sys.State.Request.{WithdrawIntent}
use ganc_sys.State.Manager.{build_withdraw_request}
use ganc_sys.Store.{list_withdraw_requests, next_withdraw_sequence}
use ganc_sys.Repository.Settlement.{PendingWithdrawalTransition}
use ganc_sys.Repository.Backend.{Backend, next_value}
use ganc_sys.Repository.Withdraw.{
  WithdrawRepository, next_withdraw_id, save_request, get_request, store_postgres, signed,
}
use ganc_sys.Repository.Withdraw.Requests.{
  get_request-save_request, insert-cases, save-memory, save-refused, save-inserted,
}
use ganc_sys.Service.Settlement.{apply_withdraw_request}
use ganc_sys.Service.Withdraw.{
  WithdrawService, WithdrawState, create_offchain, withdraw_default_user_secret,
}

-- The requests that either mode lists.
abbrev pub SameRequests : Backend → Backend → Type 0
SameRequests b b' =
    (b'.requests ≡ b.requests) × (list_withdraw_requests b'.store ≡ list_withdraw_requests b.store)

module _ (repo : WithdrawRepository) (b : Backend) where
  next-keeps : SameRequests b (next_withdraw_id repo b).1
  unfolding next_withdraw_id next_value next_withdraw_sequence list_withdraw_requests
  next-keeps = elim (Bool-cases (repo.request_store == store_postgres)) [
    | inr memory ↦ rw memory (refl, refl)
    | inl mode ↦ (ground (arith, mode), ground (arith, mode))
  ]

  refused-keeps :
      (sha256 : Text → List ℕ) (req : WithdrawRequest) (e : Error) (b' : Backend)
      → save_request repo sha256 req b ≡ (err e, b')
      → b' ≡ b
  refused-keeps sha256 req e b' h =
      let it = signed repo sha256 req in
      elim (Bool-cases (repo.request_store == store_postgres)) [
        | inr memory ↦ absurd (ground (arith, save-memory sha256 repo req b memory))
        | inl mode ↦ elim (insert-cases repo it b) [
          | inl refused ↦ ground (arith, save-refused sha256 repo req b mode refused)
          | inr (inserted, new, pool) ↦
              absurd (ground (arith, save-inserted sha256 repo req b mode inserted))
        ]
      ]

module _ (sha256 : Text → List ℕ) (service : WithdrawService) (req : WithdrawIntent)
    (s s' : WithdrawState) where
  -- Where the off-chain CreateWithdrawRequest returns an error, the stored requests of both request
  -- stores are as before.
  pub create_offchain_refused :
      (e : Error)
      → create_offchain sha256 service req s ≡ (err e, s')
      → SameRequests s.backend s'.backend
  unfolding create_offchain
  create_offchain_refused e h = elim (Bool-cases (service.has_settlement)) [
    | inr missing ↦ ground (arith, missing)
    | inl has ↦
        let (reserved, c) = next_withdraw_id service.repository s.backend in
        let keeps : SameRequests s.backend c = next-keeps service.repository s.backend in
        elim (Result-cases reserved) [
          | inr (d, bad) ↦ ground (arith, has, bad, keeps)
          | inl (id, good) ↦
              elim (Result-cases (build_withdraw_request req id s.settlement.manager)) [
                | inr (d, bad) ↦ ground (arith, has, good, bad, keeps)
                | inl (q, built) ↦
                    let (applied, t) =
                      apply_withdraw_request sha256 q withdraw_default_user_secret s.settlement in
                    elim (Result-cases applied) [
                      | inr (d, bad) ↦ ground (arith, has, good, built, bad, keeps)
                      | inl (row, done) ↦
                          let (saved, b') = save_request service.repository sha256 q c in
                          elim (Result-cases saved) [
                            | inl (r, fine) ↦ absurd (ground (arith, has, good, built, done, fine))
                            | inr (d, bad) ↦
                                let same : b' ≡ c =
                                  refused-keeps service.repository c sha256 q d b'
                                    (ap (λ x. (x, b')) bad) in
                                ground (arith, has, good, built, done, bad, keeps, same)
                          ]
                    ]
              ]
        ]
  ]

  -- Where the off-chain CreateWithdrawRequest returns a request, the manager has built it for an
  -- id, the settlement service has applied it, and it is the built request, signed if it had no
  -- signature, that GetWithdrawRequest of its id returns afterwards.
  pub create_offchain_sound :
      (r : WithdrawRequest)
      → create_offchain sha256 service req s ≡ (ok r, s')
      → (id : Text) × (q : WithdrawRequest) × (row : PendingWithdrawalTransition)
        × (build_withdraw_request req id s.settlement.manager ≡ ok q)
        × (apply_withdraw_request sha256 q withdraw_default_user_secret s.settlement
            ≡ (ok row, s'.settlement))
        × (r ≡ signed service.repository sha256 q)
        × (get_request service.repository r.withdraw_id s'.backend ≡ (ok r, s'.backend))
  unfolding create_offchain
  create_offchain_sound r h = elim (Bool-cases (service.has_settlement)) [
    | inr missing ↦ absurd (ground (arith, missing))
    | inl has ↦
        let (reserved, c) = next_withdraw_id service.repository s.backend in
        elim (Result-cases reserved) [
          | inr (d, bad) ↦ absurd (ground (arith, has, bad))
          | inl (id, good) ↦
              elim (Result-cases (build_withdraw_request req id s.settlement.manager)) [
                | inr (d, bad) ↦ absurd (ground (arith, has, good, bad))
                | inl (q, built) ↦
                    let (applied, t) =
                      apply_withdraw_request sha256 q withdraw_default_user_secret s.settlement in
                    elim (Result-cases applied) [
                      | inr (d, bad) ↦ absurd (ground (arith, has, good, built, bad))
                      | inl (row, done) ↦
                          let (saved, b') = save_request service.repository sha256 q c in
                          elim (Result-cases saved) [
                            | inr (d, bad) ↦ absurd (ground (arith, has, good, built, done, bad))
                            | inl (x, fine) ↦
                                let outcome : (x ≡ r) × (b' ≡ s'.backend) × (t ≡ s'.settlement) =
                                  ground (arith, has, good, built, done, fine) in
                                let (mine, there) =
                                  get_request-save_request sha256 service.repository q x c b'
                                    (ap (λ y. (y, b')) fine) in
                                (
                                  id,
                                  q,
                                  row,
                                  built,
                                  ground (arith, done, outcome),
                                  ground (arith, outcome, mine),
                                  rw (← outcome.0, ← outcome.1) there,
                                )
                          ]
                    ]
              ]
        ]
  ]
