-- ===== src/Tests/Sample.antt =====
-- A small treasury: one approved mint of 5 CLT, one redemption of 10 CLT that awaits its payout of
-- 9 USDT and one that awaits its burn, and a reserve of 60.
use clutch_treasury.Base.{ℕ, false, none, [], ◌∷◌, codes}
use clutch_treasury.Base.Int.{pos}
use clutch_treasury.Store.{
  EventKind, MintIntent, MintStatus, tron, RedemptionIntent, RedemptionStatus, Event, mint_executed,
  custody_deposit, OutboxRow, OutboxStatus, Run, RunStatus, Db, AppConfig,
}

abbrev pub at_noon : ℕ
at_noon = 1000000

abbrev pub mint_of : ℕ → ℕ → MintStatus → MintIntent
mint_of id amount status = record {
  id = id;
  beneficiary = codes "0xab";
  amount_clt = amount;
  status = status;
  credit_ref = codes "ref";
  created_by = codes "alice";
  approved_by = none;
  chain_tx_hash = none;
  client_ref = none;
  deposit_tx_id = none;
  verified_at = none;
  expected_amount_usdt = none;
  deposit_address = none;
  derivation_index = none;
  service_fee_clt = none;
  service_fee_for = none;
  direct_from = none;
  fee_held_usdt = none;
  network = tron;
  swept_at = none;
  created_at = at_noon;
  updated_at = at_noon;
}

abbrev pub redemption_of : ℕ → RedemptionStatus → RedemptionIntent
redemption_of id status = record {
  id = id;
  redeemer_address = codes "0xab";
  payout_address = codes "T1";
  amount_clt = 10;
  payout_amount_usdt = 9;
  status = status;
  redemption_ref = codes "r8";
  burn_tx_hash = none;
  payout_ref = none;
  payout_submitted_at = none;
  payout_trace_id = none;
  payout_permit_nonce = none;
  payout_permit_deadline = none;
  created_at = at_noon;
  updated_at = at_noon;
}

abbrev pub outbox_of : ℕ → ℕ → OutboxRow
outbox_of id intent = record {
  id = id;
  intent_id = intent;
  status = OutboxStatus.pending;
  attempts = 0;
  next_attempt_at = at_noon;
  last_error = none;
}

abbrev pub good_run : Run
good_run = record {
  run_at = at_noon;
  onchain_supply = pos 50;
  genesis_allocation = pos 0;
  ledger_liability = pos 50;
  custody_reported = pos 60;
  status = RunStatus.ok;
  treasury_minted = pos 50;
}

abbrev event_of : EventKind → ℕ → ℕ → Event
event_of kind clt usdt = record {
  kind = kind;
  amount_clt = clt;
  amount_usdt = usdt;
  intent_id = none;
  chain_tx_hash = none;
}

abbrev pub treasury : Db
treasury = record {
  mint_intents = mint_of 1 5 MintStatus.approved ∷ [];
  redemption_intents =
      redemption_of 7 RedemptionStatus.payout_pending
      ∷ redemption_of 8 RedemptionStatus.created
      ∷ [];
  treasury_events = event_of mint_executed 50 0 ∷ event_of custody_deposit 0 60 ∷ [];
  chain_outbox = outbox_of 1 1 ∷ [];
  reconciliation_runs = good_run ∷ [];
  breaker_state = record { minting_halted = false; halt_reason = none };
  last_processed_height = 20;
  alerts = [];
  mint_approval_signatures = [];
  gasfree_accounts = [];
}

abbrev pub settings : AppConfig
settings = record {
  per_tx_mint_cap_clt = pos 100;
  daily_mint_cap_clt = pos 1000;
  backing_halt_bps = pos 10000;
  daily_payout_cap_clt = pos 100;
  redemption_fee_usdt = pos 1;
  mint_threshold = 1;
  max_node_lag_blocks = 3;
  gasfree_on = false;
  gasfree_rail = false;
}
