-- ===== src/Lib.antt =====
-- ganc-sys: the backend that settles off-chain deposits and withdrawals in batches on a chain.
--
-- Users deposit on the chain; the backend credits the deposit to an off-chain account, by owner and
-- denom, and a user withdraws by a request that debits the account. Each operation moves the root
-- of the off-chain state. A batch collects pending operations: it has a settlement update (the old
-- and the new root and the entries), four commitments, a witness for the prover, and six public
-- inputs. A submission with its proof is guarded before the proof is verified.
--
-- The files and the code that they model:
-- Prelude: what the modules share: Result and Exec (fallible and stateful methods, an error keeps
-- what was written before it), equality tests, lists, the loop that stops at the first error.
-- Dict: Go maps as association lists; the order of the list is the order in which range meets the
-- entries. Text: strings as lists of code points, strings.TrimSpace, and in Text/Decimal the base
-- 10 SetString and String of math/big. Hash: pkg/hash/hash.go.
-- Types: the records of pkg/types.
-- State: internal/state. State/Account is account_state.go (credit, debit, snapshot), State/Root
-- and State/Json are root.go, State/Local and State/Records are local_state.go and withdrawal.go
-- (apply_deposit, apply_withdrawal), State/Nullifier and State/Address are nullifier.go and
-- withdraw_address_hash.go, State/Request is withdraw_request.go, and State/Manager is
-- offchain_manager.go (take_snapshot, rollback).
-- Batch: internal/batch. Batch/Settlement is builder.go, Batch/Commitments commitments.go,
-- Batch/PublicInputs public_inputs.go, Batch/Witness witness.go; Batch/Apply, Batch/LocalBuilder
-- and Batch/SnapshotBuilder are local_builder.go and snapshot_builder.go.
-- Repository: internal/repository. Repository/Settlement (rows and queries), with
-- Repository/Settlement/Batches (transactions on a batch), is offchain_settlement_repository.go on
-- the tables of migrations/003_offchain_settlement.sql; Repository/Backend has the tables of
-- migrations/001_init.sql beside the memory store. Repository/Withdraw (requests) and
-- Repository/Records (records and claims) are withdraw_repository.go, and Repository/Batch,
-- Deposit, Proof and Dashboard are batch_, deposit_, proof_ and state_repository.go, with the
-- choice between the memory store and PostgreSQL that each makes. Repository/Sql has the statements.
-- Store: internal/store/memory_store.go; Store/Balances the dashboard's balances, Store/Tables the
-- maps with their order of ids. Text/Int64: strconv on int64 values, as 64-bit words.
-- Service: internal/service. Service/Ordering, Service/WitnessAccounts, Service/Settlement,
-- Service/PendingBatch and Service/Rehydrate are offchain_settlement_service.go, Service/Guard,
-- Service/Submit and Service/Building are batch_service.go (the guard, SubmitBatch, the build
-- handlers), and Service/Withdraw, Deposit and Proof are withdraw_, deposit_ and proof_service.go.
-- Chain and Chain/Local: internal/chain/client.go and local_client.go. Indexer: internal/indexer
-- and internal/event; Indexer is deposit_indexer.go, Indexer/Poller deposit_poller.go and
-- Indexer/Tendermint tendermint_event_source.go. Prover: internal/prover; Prover is client.go,
-- Prover/Artifact the checks of the verifier's artifact, Prover/Remote what remote_client.go does
-- with an answer. Relayer: internal/relayer; Relayer is client.go, and Relayer/Cosmos, Output and
-- Broadcast under it are cosmos_client.go. How they interact: a deposit goes from the chain through
-- the indexer to the store and to the settlement service, a withdrawal from the withdraw service to
-- the settlement service, and a batch from the batch service through the proof service to the
-- relayer, which returns the records that are claimed.
-- Sequencer: SettleOnce of internal/sequencer/settlement_sequencer.go over an interface of drivers,
-- and Sequencer/Drain its drain, with the passes that are allowed as fuel.
-- Tests: runs on concrete values.
--
-- A method that changes its receiver is a function from the receiver to the result and the receiver
-- after it. The mutexes make each method of package state one step; a method of the settlement
-- service is one step because one writer drives it.
--
-- Parameters and bounds: SHA-256 is an argument, of which a theorem assumes at most that a digest
-- has 32 bytes; nowhere is it taken to be injective. Further arguments are the verifier, the
-- relayer and the prover where a service calls them, the JSON encoders and decoders, base64 and
-- strconv.Unquote, the clock, the answers of the chain's queries, the command that the chain's
-- client runs (a function of the number of the run and its arguments), and whether the context is
-- still live after a run. Amounts and nonces are math/big integers, so natural numbers without a
-- bound. The counters seq and gen are uint64 and wrap modulo 2^64; int and int64 values are the
-- 64-bit words of their two's complement. Loops recurse on the list that they range over; the loop
-- that follows the roots recurses on the number of rounds that are left, which the source's
-- condition fixes at the size of its map; the loops of the chain's client recurse on the rounds
-- that their configuration allows; the digits of a number n are emitted with fuel n, which is at
-- least their count. The poller's run is a list of the sources that answer its ticks.
--
-- Not modelled: error texts (an error is the sentinel that errors.Is finds), logs, time stamps,
-- cancellation inside a method but for the waits of the chain's client, a database that fails other
-- than by a missing pool or a broken constraint, aliasing of slices and maps (values are
-- immutable), concurrent calls of the settlement service, and the parts that are network, HTTP or
-- wiring: cmd/api, internal/api, internal/handler, internal/request, internal/response,
-- internal/db, cosmos_client.go and rest_query_client.go of internal/chain, the requests of the
-- remote prover, the health, state and chain query services. The sequencer's timer and
-- the generators of test vectors are not modelled either.
pub mod Prelude
pub mod Dict
pub mod Text
pub mod Hash
pub mod Types
pub mod State
pub mod Batch
pub mod Repository
pub mod Store
pub mod Relayer
pub mod Chain
pub mod Indexer
pub mod Prover
pub mod Service
pub mod Sequencer
pub mod Tests
