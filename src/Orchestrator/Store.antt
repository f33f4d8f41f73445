-- ===== src/Orchestrator/Store.antt =====
-- The orchestrator's tables: crates/payment-orchestrator/migrations and the row types of
-- crates/payment-orchestrator/src/deposits.rs. Times are milliseconds.
use clutch_treasury.Base.{ℕ, Bool, Option, List, Text}
use clutch_treasury.Base.Int.{ℤ}
use clutch_treasury.Store.{Network, Severity}

pub data DepositStatus : Type 0 where
  created invoiced paying confirmed mint_requested credited : DepositStatus
  expired failed needs_manual : DepositStatus

-- Without the response columns of the removed endpoint.
pub record DepositIntent : Type 0 where
  pub id : ℕ
  pub user_pk : Text
  pub clt_address : Text
  pub amount_usdt : ℕ
  pub amount_clt : ℕ
  pub status : DepositStatus
  pub client_key : Text
  pub tron_tx_id : Option Text
  pub payment_window_closed : Bool
  pub derivation_index : Option ℤ
  pub deposit_address : Option Text
  pub expires_at : ℕ
  pub treasury_intent_id : Option ℕ
  pub attempts : ℕ
  pub next_attempt_at : ℕ
  pub received_usdt : Option ℕ
  pub created_at : ℕ
  pub transfer_at : Option ℤ
  pub direct_from : Option Text
  pub network : Network

pub record DepositAddress : Type 0 where
  pub user_pk : Text
  pub derivation_index : ℤ
  pub address : Text
  pub clt_address : Text
  pub hot_until : Option ℕ
  pub last_polled_at : Option ℕ
  pub last_attempt_at : Option ℕ
  pub gasfree : Bool
  pub bsc_address : Option Text

-- A row of `direct_payers`.
pub record DirectPayer : Type 0 where
  pub user_pk : Text
  pub tron_address : Text
  pub clt_address : Text
  pub created_at : ℕ

-- A row of `direct_watch`.
pub record DirectWatch : Type 0 where
  pub pay_to : Text
  pub last_polled_at : Option ℕ

-- A row of `direct_unattributed` or of `bsc_unattributed`.
pub record Unattributed : Type 0 where
  pub tx_id : Text
  pub from_address : Text
  pub amount_usdt : ℤ

-- A row of `bsc_payers`.
pub record BscPayer : Type 0 where
  pub user_pk : Text
  pub address : Text
  pub created_at : ℕ

-- A row of `bsc_watch`.
pub record BscWatch : Type 0 where
  pub pay_in : Text
  pub last_block : ℕ

pub data Step : Type 0 where
  create poll : Step

-- Why a step of the bridge failed.
pub data FailureCause : Type 0 where
  unreachable refused local : FailureCause

-- The messages of the alerts, one constructor for each format string.
pub data Message : Type 0 where
  fetch_failed : Text → Message
  addresses_failed : ℕ → List Text → Message
  direct_unattributed : ℤ → Text → Text → Text → Message
  bsc_unattributed : ℤ → Text → Text → Text → Message
  bsc_two_addresses : ℤ → Text → Text → Message
  failures : ℕ → ℕ → Step → FailureCause → Message
  held_by_treasury : ℕ → ℕ → Message
  ended_by_treasury : ℕ → ℕ → Text → Message

pub data Source : Type 0 where
  poller direct_topup bsc_topup treasury_bridge : Source

pub record Alert : Type 0 where
  pub severity : Severity
  pub source : Source
  pub message : Message
  pub created_at : ℕ

pub record OrchDb : Type 0 where
  pub deposit_intents : List DepositIntent
  pub deposit_addresses : List DepositAddress
  pub direct_payers : List DirectPayer
  pub direct_watch : List DirectWatch
  pub direct_unattributed : List Unattributed
  pub bsc_payers : List BscPayer
  pub bsc_watch : List BscWatch
  pub bsc_unattributed : List Unattributed
  -- The next value of `deposit_derivation_index_seq`.
  pub next_index : ℕ
  pub alerts : List Alert

-- A transfer that TronGrid reported; `block_timestamp` is the node's, in milliseconds.
pub record ObservedTransfer : Type 0 where
  pub tx_id : Text
  pub amount_usdt : ℤ
  pub to : Text
  pub from : Text
  pub contract : Text
  pub block_timestamp : ℤ
