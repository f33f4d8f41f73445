-- ===== src/Store.antt =====
-- The database of crates/treasury-service as its migrations declare it, and the settings
-- (configuration.rs) that the handlers read. A `UUID` and a `BIGSERIAL` are numbers, `TEXT` is
-- its bytes, a time is a number of seconds. A column whose CHECK keeps it positive is a natural
-- number. Messages are values of `Notice`, one constructor for each format string.
use clutch_treasury.Base.{ℕ, Bool, Option, List, Text}
use clutch_treasury.Base.Int.{ℤ}

pub data MintStatus : Type 0 where
  created approved submitted credited failed rejected needs_manual : MintStatus

pub data Network : Type 0 where
  tron bsc : Network

pub record MintIntent : Type 0 where
  pub id : ℕ
  pub beneficiary : Text
  pub amount_clt : ℕ
  pub status : MintStatus
  pub credit_ref : Text
  pub created_by : Text
  pub approved_by : Option Text
  pub chain_tx_hash : Option Text
  pub client_ref : Option Text
  pub deposit_tx_id : Option Text
  pub verified_at : Option ℕ
  pub expected_amount_usdt : Option ℤ
  pub deposit_address : Option Text
  pub derivation_index : Option ℤ
  pub service_fee_clt : Option ℕ
  pub service_fee_for : Option ℕ
  pub direct_from : Option Text
  pub fee_held_usdt : Option ℕ
  pub network : Network
  pub swept_at : Option ℕ
  pub created_at : ℕ
  pub updated_at : ℕ

pub data RedemptionStatus : Type 0 where
  created burn_confirmed payout_pending payout_submitted paid expired failed : RedemptionStatus

pub record RedemptionIntent : Type 0 where
  pub id : ℕ
  pub redeemer_address : Text
  pub payout_address : Text
  pub amount_clt : ℕ
  pub payout_amount_usdt : ℕ
  pub status : RedemptionStatus
  pub redemption_ref : Text
  pub burn_tx_hash : Option Text
  pub payout_ref : Option Text
  pub payout_submitted_at : Option ℕ
  pub payout_trace_id : Option Text
  pub payout_permit_nonce : Option ℤ
  pub payout_permit_deadline : Option ℤ
  pub created_at : ℕ
  pub updated_at : ℕ

pub data EventKind : Type 0 where
  mint_executed burn_redeemed mint_reversed custody_deposit custody_withdrawal buffer_topup :
      EventKind

pub record Event : Type 0 where
  pub kind : EventKind
  pub amount_clt : ℕ
  pub amount_usdt : ℕ
  pub intent_id : Option ℕ
  pub chain_tx_hash : Option Text

pub data OutboxStatus : Type 0 where
  pending submitted confirmed failed : OutboxStatus

pub data RunStatus : Type 0 where
  ok over_backed_drift mismatch error : RunStatus

-- Why the verifier rejects a deposit or holds it, one constructor for each format string.
pub data Reason : Type 0 where
  no_value_moved wrong_recipient wrong_contract amount_below : Text → Reason
  not_yet_confirmed no_transaction : Reason
  not_the_beneficiary not_the_sender own_address own_deposit_address : Text → Reason
  direct_below_minimum : Text → Reason
  unmovable gasfree_below_minimum fee_takes_all already_claimed : Text → Reason
  bsc_sender_differs bsc_unusable_address bsc_no_route bsc_no_transaction bsc_bad_value : Reason
  bsc_not_derived bsc_reverted bsc_nothing_moved bsc_below : Text → Reason
  bsc_from_pay_in bsc_below_minimum : Reason

-- What the program writes into an alert, a halt reason, a denial or `last_error`.
pub data Notice : Type 0 where
  minting_halted over_per_tx_cap daily_cap backing_ratio no_recent_run last_run_mismatch : Notice
  manual_halt : Text → Notice
  manual_resume reconciliation_mismatch over_backed persistent_under_issuance : Notice
  never_confirmed not_confirmed_in_time node_behind waiting_for_signatures : Notice
  chain_error : Text → Notice
  failed_for_good needs_review burn_mismatch : ℕ → Notice
  chain_shrank gasfree_off : Notice
  float_not_active : Text → Notice
  float_differs : Option Text → Notice
  over_payout_cap claim_failed payout_unrecorded permit_unrecorded : ℕ → Notice
  relay_refused : ℕ → Text → Notice
  refusal_unrecorded return_failed payout_refused payout_unknown : ℕ → Notice
  confirmed_unrecorded transfer_failed nonce_moved : ℕ → Notice
  paid_another : ℕ → Text → ℕ → Notice
  unresolved_day unresolved_half_hour : ℕ → Notice
  mint_rejected : ℕ → Reason → Notice
  fallback_match : ℕ → Text → Notice
  backfill_error approval_failed hold_failed reject_failed : ℕ → Notice
  held_for_review : ℕ → Reason → Notice
  manual_custody : ℤ → Text → Notice
  gasfree_disagrees : ℤ → Option Text → Text → Notice
  sweep_unrecorded : Text → Text → List ℕ → Notice
  fee_account_dry : Text → ℤ → ℤ → Notice
  sweep_failed : Text → ℤ → Text → Notice
  sweep_failing : Text → ℤ → Notice
  rail_disagrees : Notice
  bsc_sweep_unrecorded : Text → Text → List ℕ → Notice
  bsc_gas_dry : Text → Text → Text → Notice
  bsc_sweep_failing : Text → ℤ → Notice

pub record OutboxRow : Type 0 where
  pub id : ℕ
  pub intent_id : ℕ
  pub status : OutboxStatus
  pub attempts : ℕ
  pub next_attempt_at : ℕ
  pub last_error : Option Notice

pub record Run : Type 0 where
  pub run_at : ℕ
  pub onchain_supply : ℤ
  pub genesis_allocation : ℤ
  pub ledger_liability : ℤ
  pub custody_reported : ℤ
  pub status : RunStatus
  -- The `treasury_minted` of the JSON `detail`.
  pub treasury_minted : ℤ

pub record BreakerState : Type 0 where
  pub minting_halted : Bool
  pub halt_reason : Option Notice

pub data Severity : Type 0 where
  info warn p1 : Severity

pub data Source : Type 0 where
  breakers reconciliation outbox watcher payout tron_verifier custody sweeper : Source

pub record Alert : Type 0 where
  pub severity : Severity
  pub source : Source
  pub message : Notice
  pub created_at : ℕ

pub record ApprovalSignature : Type 0 where
  pub intent_id : ℕ
  pub signer_address : Text

-- A GasFree account at which a deposit was verified; the last five columns are its sweep in flight.
pub record GasfreeAccount : Type 0 where
  pub derivation_index : ℤ
  pub gasfree_address : Text
  pub owner_address : Text
  pub first_transfer_at : Option ℕ
  pub pending_trace_id : Option Text
  pub pending_nonce : Option ℤ
  pub pending_deadline : Option ℤ
  pub pending_value_usdt : Option ℤ
  pub pending_requested_at : Option ℕ

pub record Db : Type 0 where
  pub mint_intents : List MintIntent
  pub redemption_intents : List RedemptionIntent
  pub treasury_events : List Event
  pub chain_outbox : List OutboxRow
  pub reconciliation_runs : List Run
  pub breaker_state : BreakerState
  pub last_processed_height : ℕ
  pub alerts : List Alert
  pub mint_approval_signatures : List ApprovalSignature
  pub gasfree_accounts : List GasfreeAccount

pub record AppConfig : Type 0 where
  pub per_tx_mint_cap_clt : ℤ
  pub daily_mint_cap_clt : ℤ
  pub backing_halt_bps : ℤ
  pub daily_payout_cap_clt : ℤ
  pub redemption_fee_usdt : ℤ
  pub mint_threshold : ℕ
  pub max_node_lag_blocks : ℕ
  -- `gasfree` is set, and its `rail`.
  pub gasfree_on : Bool
  pub gasfree_rail : Bool
