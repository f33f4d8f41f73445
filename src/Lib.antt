-- ===== src/Lib.antt =====
-- clutch-treasury: the money side of the Clutch Protocol. CLT is minted on the Clutch chain
-- against USDT that the treasury holds, and burned against USDT that it pays out.
--
-- The parts. A mint intent (crates/treasury-service/src/intents.rs) is created, approved by a
-- second person, and put into the outbox (crates/treasury-service/src/outbox.rs), which hands it
-- to the node past the circuit breakers (crates/treasury-service/src/breakers.rs) if the node is
-- at the tip (crates/treasury-service/src/chain_sync.rs). The watcher
-- (crates/treasury-service/src/watcher.rs) reads the chain's blocks, credits mints and confirms
-- burns in the ledger (crates/treasury-service/src/ledger.rs). A confirmed burn becomes a payout
-- (crates/treasury-service/src/payout.rs), and reconciliation
-- (crates/treasury-service/src/reconciliation.rs) compares the chain, the ledger and custody and
-- halts minting where they disagree. The service fee (crates/treasury-service/src/service_fee.rs)
-- is split off a deposit's mint. A deposit's intent is approved by no person: the verifier
-- (crates/treasury-service/src/tron_verifier.rs and bsc_verifier.rs) looks for its transfer on the
-- chain, and approves it, holds it for a person, rejects it or waits; on the GasFree rail
-- (crates/treasury-service/src/gasfree_rail.rs) it keeps back the relay's fee.
--
-- Where a deposit's intent comes from: the payment orchestrator watches the addresses of its users
-- (crates/payment-orchestrator/src/poller.rs, custody.rs) and the treasury's own pay-in addresses
-- (direct.rs, bsc_watch.rs), records each payment as a row (deposits.rs), and its bridge
-- (treasury_bridge.rs) asks the treasury for a mint intent with the row's id as `client_ref`, then
-- follows the intent's status.
--
-- Files. Base: lists as tables with the SQL shapes that the handlers use, text as its bytes,
-- signed integers and the arithmetic of an i64. Store: the tables as records, the database `Db` as
-- a record of tables, and the settings. Ledger: `append_event`, `balances` and the view behind it,
-- `alert`, `alert_once`. Breakers: `check_mint` and its parts. Reconciliation: `judge`, `record`
-- (`record_run`), `run_once`. Watcher: `credit_mint`, `confirm_burn`, `process_range`,
-- `poll_once`. Intents: `create_mint_intent_on`, `approve_mint_intent`, `net_payout`,
-- `create_redemption_intent`. ChainSync: `lag`, `check`. ServiceFee: `service_fee`, `split_off`.
-- Outbox: `drain_once` and all that it calls. Payout: `drain_once`; Payout/Rows its state and
-- rows, Payout/Reply the signer's answer, Payout/Settle the two confirmation passes. The files
-- below these prove. Api is `create_mint_intent_handler` of crates/treasury-service/src/api.rs,
-- Api/Routes the roles of its tokens and its other handlers that act or read one intent,
-- Api/Requests the requests that act, Api/Reports the reserve status and the published run.
-- Sweeper is `bsc_sweep_pass`, `by_index` and `mark_swept` of
-- crates/treasury-service/src/sweeper.rs, Sweeper/Plain its step for a plain TRON address.
-- RateLimiter is the request limit of crates/payment-orchestrator/src/ratelimit.rs, Bsc the
-- addresses, units, sums, words and logs of crates/bsc/src/lib.rs. Verifier/Client is the
-- `TronClient`, Verifier/Evaluate `evaluate` and `check_transfer`, Verifier/Judge the verdicts,
-- Verifier/Approve the writes, Verifier/Views the reads of contracts, Verifier itself the pass
-- `verify_once`; BscVerifier and GasfreeRail are the files of those names. Lifecycle is the state
-- machine of a mint intent across the operations that decide it, Lifecycle/Named its `client_ref`
-- across them. Orchestrator/Store is the
-- orchestrator's tables, Orchestrator/Deposits the writes of deposits.rs and the insert of a
-- credit, Orchestrator/Custody `transfers_to`, Orchestrator/Tiered the `TieredPoller`,
-- Orchestrator/Poller the pass `poll_once`, Orchestrator/Direct `credit_direct`,
-- Orchestrator/BscPayments, BscCredit, BscAddress and BscWatch `watch_once`, Orchestrator/Bridge
-- `run_once`; Orchestrator/Life is what all of these do to the rows, and what a repeated request
-- of the bridge does at the treasury. Tests holds runs at a small treasury and a small
-- orchestrator.
--
-- A handler is a function from the database and its inputs to the new database and its result. A
-- transaction that rolls back leaves the database it began with. The time of a handler is one
-- number of seconds, or of milliseconds at the orchestrator. What other systems answer (the node,
-- TronGrid, the signer, the relay) is an argument, a function of what is asked. An `i64` of the
-- program is an integer, and where it adds two of them the model wraps around as a release build
-- does.
--
-- Loops run over the rows that were read or over the count of heights, so they end without fuel.
-- The pages of an address's transfers are at most ten, as in the program, and then the read fails.
-- The BSC watch cuts its addresses into chunks with their number as fuel, which is enough, since a
-- chunk takes at least one of them.
--
-- Not modelled: a database call that fails, except where payout.rs, the verifier and the sweeper
-- handle it; other services changing a row in the middle of a pass; the text of messages (`Notice`
-- and `Reason` have one constructor for each format string) and of what is only logged; the cast
-- of a SUM to BIGINT, which fails above 2 ^ 63; logging. Hashes, base58 and the derivation of a
-- GasFree address are arguments. Outside the model are also the list of past runs of the HTTP API,
-- the GasFree sweeps and with them the loop of `sweep_once`, the HTTP API, redemptions and issued
-- addresses of crates/payment-orchestrator, the column `updated_at`, the RPC client and the
-- settings of crates/bsc, crates/tron-signer, crates/clutch-chain and crates/gasfree but for
-- `fee_to_hold`.
pub mod Base
pub mod Store
pub mod Orchestrator
pub mod Sweeper
pub mod Ledger
pub mod Breakers
pub mod Reconciliation
pub mod Watcher
pub mod Intents
pub mod ChainSync
pub mod ServiceFee
pub mod Outbox
pub mod Payout
pub mod RateLimiter
pub mod Bsc
pub mod Api
pub mod GasfreeRail
pub mod BscVerifier
pub mod Verifier
pub mod Lifecycle
pub mod Tests
