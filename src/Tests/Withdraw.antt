-- ===== src/Tests/Withdraw.antt =====
-- Withdrawals in the repository and in the service, in both modes.
use ganc_sys.Prelude.{
  ◌+◌, ◌^◌, ◌<◌, ◌≡◌, refl, true, false, List, [], ◌∷◌, ◌++◌, inl, arith, Result, ok, err,
  other_failure, withdraw_already_claimed, insufficient_balance,
}
use ganc_sys.Text.{Text, codes}
use ganc_sys.Types.{WithdrawRequest, WithdrawRecord}
use ganc_sys.State.Request.{WithdrawIntent}
use ganc_sys.State.Manager.{build_withdraw_request}
use ganc_sys.Store.{new_memory_store, save_withdraw_record}
use ganc_sys.Relayer.{claim_withdraw_local}
use ganc_sys.Repository.Settlement.{PendingWithdrawalTransition}
use ganc_sys.Repository.Backend.{Backend}
use ganc_sys.Repository.Withdraw.{
  WithdrawRepository, new_withdraw_repository, new_withdraw_repository_with_db, store_postgres,
  save_request, get_request, signed, create_withdraw_request, list_requests,
}
use ganc_sys.Repository.Records.{claim_record, get_record}
use ganc_sys.Repository.Records.Claims.{claimed_once}
use ganc_sys.Repository.Withdraw.Requests.{get_request-save_request}
use ganc_sys.Repository.Withdraw.Numbering.{
  IsNumbered, next_number, create_withdraw_request_appends,
}
use ganc_sys.Service.Settlement.{apply_withdraw_request}
use ganc_sys.Service.Withdraw.{
  WithdrawService, WithdrawState, ClaimWithdrawResponse, create_offchain, claim_withdraw,
  withdraw_default_user_secret,
}
use ganc_sys.Service.Withdraw.Creation.{
  SameRequests, create_offchain_refused, create_offchain_sound,
}
use ganc_sys.Service.Withdraw.Claim.{RecordTable, claim_withdraw_once}
use ganc_sys.Tests.Data.{length_digest, withdraw_40}
use ganc_sys.Tests.Flow.{with_deposit}

abbrev record_40 : WithdrawRecord
record_40 = record {
  withdraw_id = codes "wd-1";
  owner = codes "alice";
  denom = codes "uusdc";
  amount = codes "40";
  destination = codes "alice";
  nullifier = codes "0xn1";
  claimed = false;
}

abbrev claimed_40 : WithdrawRecord
claimed_40 = record record_40 { claimed = true }

abbrev backend : Backend
backend = record {
  store = save_withdraw_record record_40 new_memory_store;
  requests = [];
  records = record { entry = record_40; tx_hash = codes "0xaa" } ∷ [];
  builds = [];
  submits = [];
  proofs = [];
  request_seq = 1;
}

abbrev in_postgres : WithdrawRepository
in_postgres = new_withdraw_repository_with_db true store_postgres (store_postgres ∷ [])

abbrev after_claim : Backend
after_claim = (claim_record in_postgres (codes "wd-1") backend).1

claims : claim_record in_postgres (codes "wd-1") backend ≡ (ok claimed_40, after_claim)
unfolding ganc_sys.Text.text_beq ganc_sys.Repository.Backend.find_row
    ganc_sys.Repository.Records.get_record_postgres
    ganc_sys.Repository.Records.claim_record_postgres ganc_sys.Repository.Records.claim_record
claims = refl

claimed_once_example :
    ((claim_record in_postgres (codes "wd-1") after_claim).0 ≡ err withdraw_already_claimed)
    × (get_record in_postgres (codes "wd-1") after_claim ≡ (ok claimed_40, after_claim))
    × (claimed_40.claimed ≡ true)
claimed_once_example = claimed_once in_postgres (codes "wd-1") claimed_40 backend after_claim claims

abbrev signed_40 : WithdrawRequest
signed_40 = signed in_postgres length_digest withdraw_40

abbrev after_save : Backend
after_save = (save_request in_postgres length_digest withdraw_40 backend).1

saves : save_request in_postgres length_digest withdraw_40 backend ≡ (ok signed_40, after_save)
unfolding ganc_sys.Text.text_beq ganc_sys.Repository.Withdraw.insert_withdraw_request_postgres
    ganc_sys.Repository.Withdraw.save_request ganc_sys.Repository.Sql.count_where
saves = refl

get_request-save_request_example :
    (signed_40 ≡ signed in_postgres length_digest withdraw_40)
    × (get_request in_postgres signed_40.withdraw_id after_save ≡ (ok signed_40, after_save))
get_request-save_request_example =
    get_request-save_request length_digest in_postgres withdraw_40 signed_40 backend after_save
      saves

abbrev intent_40 : WithdrawIntent
intent_40 = record {
  owner = codes "alice";
  denom = codes "uusdc";
  amount = codes "40";
  destination = codes "cosmos1dest";
}

numbered : IsNumbered in_postgres backend
unfolding ganc_sys.Text.text_beq
numbered = inl (refl, refl, tt)

not_at_end : next_number in_postgres backend + 1 < 2 ^ 63
unfolding ganc_sys.Text.text_beq
not_at_end = omega arith

create_withdraw_request_appends_example :
    (r : WithdrawRequest) × (b' : Backend) × (rows : List WithdrawRequest)
    × (create_withdraw_request in_postgres length_digest intent_40 backend ≡ (ok r, b'))
    × (list_requests in_postgres backend ≡ (ok rows, backend))
    × (list_requests in_postgres b' ≡ (ok (rows ++ (r ∷ [])), b'))
    × IsNumbered in_postgres b'
create_withdraw_request_appends_example =
    create_withdraw_request_appends length_digest in_postgres intent_40 backend numbered not_at_end

abbrev service : WithdrawService
service = record {
  repository = in_postgres;
  offchain_settlement_enabled = true;
  has_settlement = true;
}

abbrev state : WithdrawState
state = record { backend = backend; settlement = with_deposit }

abbrev intent_400 : WithdrawIntent
intent_400 = record intent_40 { amount = codes "400" }

abbrev after_refusal : WithdrawState
after_refusal = (create_offchain length_digest service intent_400 state).1

refuses :
    create_offchain length_digest service intent_400 state
    ≡ (err insufficient_balance, after_refusal)
unfolding ganc_sys.Dict.lookup ganc_sys.Dict.insert ganc_sys.Dict.member ganc_sys.Text.text_beq
    ganc_sys.Text.trim_space ganc_sys.Service.Withdraw.create_offchain
    ganc_sys.Service.Settlement.get_or_init_cursor ganc_sys.Service.Settlement.update_pending_root
    ganc_sys.Service.Settlement.apply_indexed_deposit ganc_sys.State.Local.account
    ganc_sys.State.Local.new_local_state_with_genesis_root ganc_sys.State.Local.apply_deposit
    ganc_sys.State.Request.build ganc_sys.State.Account.key_beq
    ganc_sys.State.Account.new_account_key ganc_sys.State.Account.parse_non_negative_amount
    ganc_sys.State.Account.parse_positive_amount ganc_sys.State.Account.get_or_zero
    ganc_sys.State.Account.credit ganc_sys.State.Records.validate_deposit
    ganc_sys.State.Manager.build_withdraw_request ganc_sys.State.Manager.manager_apply_deposit
    ganc_sys.Repository.Backend.next_value ganc_sys.Repository.Withdraw.next_withdraw_id
    ganc_sys.Repository.Sql.upsert ganc_sys.Repository.Settlement.find_cursor
    ganc_sys.Repository.Settlement.get_cursor ganc_sys.Repository.Settlement.upsert_cursor
    ganc_sys.Repository.Settlement.save_pending_deposit ganc_sys.Text.Decimal.set_string
    ganc_sys.Text.Decimal.format
refuses = refl

create_offchain_refused_example : SameRequests state.backend after_refusal.backend
create_offchain_refused_example =
    create_offchain_refused length_digest service intent_400 state after_refusal
      insufficient_balance refuses

abbrev request_of : Result WithdrawRequest → WithdrawRequest
request_of (ok r) = r
request_of (err e) = withdraw_40

abbrev created : WithdrawRequest
created = request_of (create_offchain length_digest service intent_40 state).0

abbrev after_creation : WithdrawState
after_creation = (create_offchain length_digest service intent_40 state).1

creates : create_offchain length_digest service intent_40 state ≡ (ok created, after_creation)
unfolding ganc_sys.Dict.lookup ganc_sys.Dict.insert ganc_sys.Dict.member ganc_sys.Text.text_beq
    ganc_sys.Text.trim_space ganc_sys.Service.Withdraw.create_offchain
    ganc_sys.Service.Settlement.get_or_init_cursor ganc_sys.Service.Settlement.update_pending_root
    ganc_sys.Service.Settlement.apply_indexed_deposit
    ganc_sys.Service.Settlement.apply_withdraw_request ganc_sys.State.Local.account
    ganc_sys.State.Local.new_local_state_with_genesis_root ganc_sys.State.Local.apply_deposit
    ganc_sys.State.Local.apply_withdrawal ganc_sys.State.Address.withdraw_address_hash
    ganc_sys.State.Request.build ganc_sys.State.Account.key_beq
    ganc_sys.State.Account.new_account_key ganc_sys.State.Account.parse_non_negative_amount
    ganc_sys.State.Account.parse_positive_amount ganc_sys.State.Account.get_or_zero
    ganc_sys.State.Account.credit ganc_sys.State.Account.debit
    ganc_sys.State.Nullifier.nullifier_for ganc_sys.State.Root.compute_root
    ganc_sys.State.Records.validate_deposit ganc_sys.State.Records.validate_withdraw_request
    ganc_sys.State.Manager.build_withdraw_request ganc_sys.State.Manager.manager_apply_deposit
    ganc_sys.State.Manager.manager_apply_withdraw_request ganc_sys.Repository.Backend.next_value
    ganc_sys.Repository.Withdraw.insert_withdraw_request_postgres
    ganc_sys.Repository.Withdraw.next_withdraw_id ganc_sys.Repository.Withdraw.save_request
    ganc_sys.Repository.Sql.count_where ganc_sys.Repository.Sql.upsert
    ganc_sys.Repository.Settlement.find_cursor ganc_sys.Repository.Settlement.get_cursor
    ganc_sys.Repository.Settlement.upsert_cursor ganc_sys.Repository.Settlement.save_pending_deposit
    ganc_sys.Repository.Settlement.save_pending_withdrawal ganc_sys.Text.Decimal.set_string
    ganc_sys.Text.Decimal.format
creates = refl

create_offchain_sound_example :
    (id : Text) × (q : WithdrawRequest) × (row : PendingWithdrawalTransition)
    × (build_withdraw_request intent_40 id with_deposit.manager ≡ ok q)
    × (apply_withdraw_request length_digest q withdraw_default_user_secret with_deposit
        ≡ (ok row, after_creation.settlement))
    × (created ≡ signed in_postgres length_digest q)
    × (get_request in_postgres created.withdraw_id after_creation.backend
        ≡ (ok created, after_creation.backend))
create_offchain_sound_example =
    create_offchain_sound length_digest service intent_40 state after_creation created creates

abbrev marshal : WithdrawRecord → Text
marshal r = r.withdraw_id

abbrev response_of : Result ClaimWithdrawResponse → ClaimWithdrawResponse
response_of (ok r) = r
response_of (err e) = record {
  tx_hash = [];
  withdraw_record = record_40;
  balances = record { user_balances = []; module_account_balance = [] };
}

abbrev response : ClaimWithdrawResponse
response =
    response_of
      (claim_withdraw service (claim_withdraw_local length_digest marshal) (codes "wd-1") backend).0

abbrev after_service_claim : Backend
after_service_claim =
    (claim_withdraw service (claim_withdraw_local length_digest marshal) (codes "wd-1") backend).1

service_claims :
    claim_withdraw service (claim_withdraw_local length_digest marshal) (codes "wd-1") backend
    ≡ (ok response, after_service_claim)
unfolding ganc_sys.Text.text_beq ganc_sys.Relayer.claim_withdraw_local
    ganc_sys.Service.Withdraw.claim_withdraw ganc_sys.Repository.Backend.find_row
    ganc_sys.Repository.Records.get_record_postgres ganc_sys.Repository.Records.get_record
    ganc_sys.Repository.Records.claim_record_postgres ganc_sys.Repository.Records.claim_record
service_claims = refl

backend_table : RecordTable backend
unfolding ganc_sys.Dict.lookup ganc_sys.Dict.insert ganc_sys.Dict.member ganc_sys.Text.text_beq
    ganc_sys.Store.new_memory_store ganc_sys.Store.save_batch_submitted
    ganc_sys.Store.Tables.note_id
backend_table = (((refl, refl), tt), ((λ e. absurd (ground (arith, e))), tt), (refl, tt))

claim_withdraw_once_example :
    (response.withdraw_record.claimed ≡ true)
    × (get_record in_postgres (codes "wd-1") after_service_claim
        ≡ (ok response.withdraw_record, after_service_claim))
    × ((claim_withdraw service
          (claim_withdraw_local length_digest marshal)
          (codes "wd-1")
          after_service_claim).0
        ≡ err other_failure)
claim_withdraw_once_example =
    claim_withdraw_once length_digest marshal service (codes "wd-1") backend after_service_claim
      response backend_table service_claims
