-- ===== src/Tests/Chain.antt =====
-- The chain side: polls, a deposit, a proof that is submitted, and the command line client.
use ganc_sys.Prelude.{
  ℕ, suc, ◌≡◌, ◌≢◌, ◌⊎◌, refl, Bool, true, false, Option, none, some, List, [], ◌∷◌, map, arith,
  zero, Result, ok, err,
}
use ganc_sys.Dict.{lookup}
use ganc_sys.Text.{Text, text_eq, codes}
use ganc_sys.Text.Int64.{parse_int}
use ganc_sys.Types.{Witness, ProofBundle}
use ganc_sys.Store.{new_memory_store}
use ganc_sys.Repository.Settlement.{PendingDepositTransition}
use ganc_sys.Batch.Commitments.{build_commitments}
use ganc_sys.Service.Settlement.{apply_indexed_deposit}
use ganc_sys.Service.Guard.{guard_proof_contract}
use ganc_sys.Service.Deposit.{DepositResponse, create_deposit}
use ganc_sys.Service.Deposit.Local.{
  IsPositive, IsApplied, given_id, entry, create_deposit_local_sound,
}
use ganc_sys.Service.Proof.Pipeline.{local_pipeline}
use ganc_sys.Prover.{GenerateProofInput, generate_proof_local}
use ganc_sys.Relayer.{SubmitBatchInput, SubmitBatchResult, submit_batch_local, unclaimed_record}
use ganc_sys.Relayer.Cosmos.{
  CosmosConfig, with_defaults, build_submit_batch_proof_flags, submit_batch_cosmos, query_tx_args,
}
use ganc_sys.Relayer.Cosmos.Output.{TxOutput}
use ganc_sys.Relayer.Cosmos.Broadcast.{Runner, World, Run, broadcast, rounds}
use ganc_sys.Relayer.Cosmos.Retries.{Rounds, IsAllowed, broadcast-Rounds}
use ganc_sys.Relayer.Cosmos.Commit.{IsCommitted, submit_batch_args, submit_batch_cosmos_accepted}
use ganc_sys.Chain.{DepositRequest, TxResult}
use ganc_sys.Chain.Local.{LocalClient, new_local_client, deposit_local, is_not_positive}
use ganc_sys.Indexer.{IndexState}
use ganc_sys.Indexer.Poller.{DepositPoller, Source, run_polls, poll_once}
use ganc_sys.Indexer.Tendermint.{TxSearchEnvelope, TxSearchTx}
use ganc_sys.Indexer.Indexed.{
  SignedLe, IsResumeHeight, tendermint_source, run_polls-cursor, poll_once-IsResumeHeight,
}
use ganc_sys.Tests.Data.{length_digest, length_digest-IsDigest}
use ganc_sys.Batch.Settlement.Build.{next_seq}
use ganc_sys.Tests.Batch.{inputs, builder, update, settled}
use ganc_sys.Tests.Flow.{new_service}

abbrev fresh : IndexState
fresh = record { store = new_memory_store; settlement = new_service }

abbrev poller : DepositPoller
poller = record { cursor = 5; indexed = fresh }

abbrev search_tx : TxSearchTx
search_tx = record {
  hash = codes "0xab";
  height = codes "9";
  events =
      record {
        kind = codes "ob.zkdex.v1.EventDeposit";
        attributes =
            record { key = codes "deposit_id"; value = codes "\"dep-1\"" }
            ∷ record { key = codes "creator"; value = codes "alice" }
            ∷ record { key = codes "denom"; value = codes "uusdc" }
            ∷ record { key = codes "amount"; value = codes "100" }
            ∷ [];
      }
      ∷ [];
}

abbrev body : Option TxSearchEnvelope
body = some (record { txs = search_tx ∷ []; has_error = false })

abbrev no_codec : Text → Option Text
no_codec t = none

abbrev source : Source
source = tendermint_source no_codec no_codec false body

moved_to_9 : (poll_once length_digest true source poller).1.cursor ≡ 9
unfolding ganc_sys.Dict.lookup ganc_sys.Dict.insert ganc_sys.Text.text_beq ganc_sys.Text.trim_space
    ganc_sys.Text.has_prefix ganc_sys.Text.Int64.parse_int_clamped ganc_sys.Text.Decimal.set_string
    ganc_sys.Indexer.Poller.run_polls ganc_sys.Indexer.Tendermint.decode_attr_key
    ganc_sys.Indexer.Tendermint.decode_attr_value
    ganc_sys.Indexer.Tendermint.parse_tx_search_response
moved_to_9 = refl

run_polls-cursor_example :
    SignedLe 5 (run_polls length_digest true (source ∷ source ∷ []) poller).cursor
run_polls-cursor_example = run_polls-cursor length_digest true (source ∷ source ∷ []) poller

poll_once-IsResumeHeight_example :
    ((poll_once length_digest true source poller).1 ≡ poller)
    ⊎ ((txs : List TxResult) × (next : ℕ) × (source 5 ≡ ok (txs, next))
        × IsResumeHeight 5 (txs, (poll_once length_digest true source poller).1.cursor))
poll_once-IsResumeHeight_example =
    poll_once-IsResumeHeight no_codec no_codec false length_digest true body poller

abbrev request_100 : DepositRequest
request_100 = record { owner = codes "alice"; denom = codes "uusdc"; amount = codes "100" }

abbrev no_response : DepositResponse
no_response = record {
  tx_hash = [];
  deposit_record = record {
    deposit_id = [];
    owner = [];
    denom = [];
    amount = [];
    processed = false;
    created_height = 0;
    tx_hash = [];
  };
  current_state_root = [];
}

abbrev response_of : Result DepositResponse → DepositResponse
response_of (ok r) = r
response_of (err e) = no_response

abbrev chain : DepositRequest → Result TxResult
chain r = (deposit_local length_digest 77 r new_local_client).0

abbrev deposited : DepositResponse
deposited = response_of (create_deposit length_digest true chain request_100 fresh).0

abbrev after_deposit : IndexState
after_deposit = (create_deposit length_digest true chain request_100 fresh).1

deposits : create_deposit length_digest true chain request_100 fresh ≡ (ok deposited, after_deposit)
unfolding ganc_sys.Dict.lookup ganc_sys.Dict.member ganc_sys.Text.text_beq ganc_sys.Text.trim_space
    ganc_sys.Indexer.index_deposit_from_tx ganc_sys.Service.Deposit.create_deposit
    ganc_sys.Service.Settlement.get_or_init_cursor ganc_sys.Service.Settlement.update_pending_root
    ganc_sys.Service.Settlement.apply_indexed_deposit
    ganc_sys.State.Local.new_local_state_with_genesis_root ganc_sys.State.Local.apply_deposit
    ganc_sys.State.Account.new_account_key ganc_sys.State.Account.parse_non_negative_amount
    ganc_sys.State.Account.parse_positive_amount ganc_sys.State.Account.credit
    ganc_sys.State.Records.validate_deposit ganc_sys.State.Manager.manager_apply_deposit
    ganc_sys.Repository.Sql.upsert ganc_sys.Repository.Settlement.find_cursor
    ganc_sys.Repository.Settlement.get_cursor ganc_sys.Repository.Settlement.upsert_cursor
    ganc_sys.Repository.Settlement.save_pending_deposit ganc_sys.Text.Int64.word_of
    ganc_sys.Text.Int64.parse_int ganc_sys.Text.Decimal.set_string ganc_sys.Chain.Local.deposit_tx
    ganc_sys.Chain.Local.deposit_local
deposits = refl

create_deposit_local_sound_example :
    (deposited.deposit_record ≡ entry length_digest 77 request_100 new_local_client)
    × IsPositive (codes "100")
    × (lookup (given_id length_digest 77 request_100 new_local_client) after_deposit.store.deposits
        ≡ some (entry length_digest 77 request_100 new_local_client))
    × IsApplied length_digest 77 request_100 new_local_client true fresh after_deposit deposited
create_deposit_local_sound_example =
    create_deposit_local_sound length_digest 77 request_100 new_local_client true fresh
      after_deposit deposited deposits

abbrev marshal_input : GenerateProofInput → Text
marshal_input i = i.settlement_update.batch_id

abbrev marshal_batch : SubmitBatchInput → Text
marshal_batch i = i.settlement_update.batch_id

abbrev one_account : Witness
one_account = record {
  accounts =
      record {
        owner = codes "alice";
        user_secret = codes "k";
        nonce = codes "1";
        old_balance = codes "0";
        new_balance = codes "60";
      }
      ∷ [];
  state_path = [];
}

some_account : one_account.accounts ≢ []
some_account e = ground (arith, e)

local_pipeline_example :
    (bundle : ProofBundle) × (result : SubmitBatchResult) × (generate_proof_local length_digest
        marshal_input
        (record {
          settlement_update = update;
          batch_commitments = build_commitments length_digest update;
          witness = one_account;
        })
      ≡ ok bundle)
    × (guard_proof_contract (codes "local-v1") (record {
      settlement_update = update;
      batch_commitments = build_commitments length_digest update;
      proof_bundle = bundle;
    })
        ≡ ok tt)
    × (submit_batch_local length_digest marshal_batch (record {
      settlement_update = update;
      batch_commitments = build_commitments length_digest update;
      proof_bundle = bundle;
    })
        ≡ ok result)
    × (result.accepted ≡ true)
    × (result.withdraw_records ≡ map unclaimed_record update.withdrawals)
local_pipeline_example =
    local_pipeline length_digest length_digest-IsDigest marshal_input marshal_batch inputs builder
      (next_seq builder) update one_account settled some_account

-- A command that names a sequence mismatch the first time, and a transaction afterwards.
abbrev runner : Runner
runner zero args = (codes "account sequence mismatch", true)
runner (suc n) args = (codes "{}", false)

abbrev decode : Text → Option TxOutput
decode t = some (record { tx_hash = codes "AB"; code = 0; raw_log = [] })

abbrev live : ℕ → Bool
live n = true

abbrev blank_config : CosmosConfig
blank_config = record {
  binary = [];
  chain_id = codes "ob";
  node = [];
  from = codes "relayer";
  keyring_backend = [];
  home = [];
  gas = [];
  gas_adjustment = [];
  gas_prices = [];
  fees = [];
  broadcast_mode = [];
  wait_for_commit = true;
  confirm_attempts = 0;
  confirm_interval = 0;
  seq_retry_max = 0;
  seq_retry_delay = 0;
}

abbrev config : CosmosConfig
config = with_defaults blank_config

broadcast-Rounds_example :
    (n : ℕ) × IsAllowed 5 n
    × Rounds runner decode live
        (codes "tx" ∷ [])
        n
        []
        (broadcast runner decode live 5 (codes "tx" ∷ []) []).1
        (broadcast runner decode live 5 (codes "tx" ∷ []) []).0
broadcast-Rounds_example = broadcast-Rounds runner decode live (codes "tx" ∷ []) 5 []

abbrev submission : SubmitBatchInput
submission = record {
  settlement_update = update;
  batch_commitments = build_commitments length_digest update;
  proof_bundle = record {
    proof = codes "0x01";
    public_inputs = [] ∷ [] ∷ [] ∷ [] ∷ [] ∷ [] ∷ [];
    verification_key_id = [];
  };
}

abbrev flags : SubmitBatchInput → Text × Text × Text
flags i = ([], [], [])

abbrev no_result : SubmitBatchResult
no_result = record { tx_hash = []; accepted = false; proof_status = []; withdraw_records = [] }

abbrev result_of : Result SubmitBatchResult → SubmitBatchResult
result_of (ok r) = r
result_of (err e) = no_result

abbrev submitted : SubmitBatchResult
submitted =
    result_of
      (submit_batch_cosmos runner decode live config flags (some (codes "f")) submission []).0

abbrev after_submit : World
after_submit =
    (submit_batch_cosmos runner decode live config flags (some (codes "f")) submission []).1

submits :
    submit_batch_cosmos runner decode live config flags (some (codes "f")) submission []
    ≡ (ok submitted, after_submit)
unfolding ganc_sys.Text.trim_space ganc_sys.Text.has_prefix ganc_sys.Relayer.Cosmos.with_defaults
    ganc_sys.Relayer.Cosmos.build_submit_batch_proof_flags
    ganc_sys.Relayer.Cosmos.submit_batch_cosmos ganc_sys.Relayer.Cosmos.Output.parse_tx_output
    ganc_sys.Relayer.Cosmos.Output.is_sequence_mismatch ganc_sys.Relayer.Cosmos.Broadcast.broadcast
    ganc_sys.Relayer.Cosmos.Broadcast.wait_for_tx_commit
submits = refl

waits : config.wait_for_commit ≡ true
unfolding ganc_sys.Relayer.Cosmos.with_defaults
waits = refl

submit_batch_cosmos_accepted_example :
    (parts : Text × Text × Text) × (sent final : TxOutput) × (u : World)
    × (build_submit_batch_proof_flags flags submission ≡ ok parts)
    × (broadcast runner decode live config.seq_retry_max
          (submit_batch_args config (codes "f") parts)
          []
        ≡ (ok sent, u))
    × (sent.code ≡ 0)
    × (final.code ≡ 0)
    × IsCommitted runner decode live (query_tx_args config sent.tx_hash) final u after_submit
    × (submitted.accepted ≡ true)
    × (submitted.tx_hash ≡ final.tx_hash)
    × (submitted.withdraw_records ≡ map unclaimed_record update.withdrawals)
submit_batch_cosmos_accepted_example =
    submit_batch_cosmos_accepted runner decode live config flags (codes "f") submission submitted []
      after_submit waits submits
