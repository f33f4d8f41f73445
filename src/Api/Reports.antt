-- ===== src/Api/Reports.antt =====
-- The reports of crates/treasury-service/src/api.rs; JSON is the record of what it shows.
use clutch_treasury.Base.{
  ℕ, Bool, true, false, Option, none, some, List, [], ◌∷◌, if◌then◌else◌, ltb, length, where_rows,
}
use clutch_treasury.Base.Int.{ℤ, pos, ltb_ℤ, ◌-ℤ◌}
use clutch_treasury.Store.{Run, RunStatus, OutboxRow, OutboxStatus, Notice, Db, AppConfig}
use clutch_treasury.Ledger.{Balances, balances}
use clutch_treasury.Breakers.{daily_mint_total}
use clutch_treasury.Api.{Role}
use clutch_treasury.Api.Routes.{Reply, unauthorized, body}

-- `ORDER BY run_at DESC, id DESC LIMIT 1`: among equal times, the row that was inserted last.
unfoldable pub last_run : List Run → Option Run
last_run [] = none
last_run (r ∷ runs) = elim (last_run runs) [
  | none ↦ some r
  | some s ↦ if ltb s.run_at r.run_at then some r else some s
]

pub record ReserveStatus : Type 0 where
  pub reserves : Balances
  pub minting_halted : Bool
  pub halt_reason : Option Notice
  pub last_reconciliation : Option (RunStatus × ℕ)
  pub pending_outbox : ℕ
  pub daily_headroom_clt : ℤ

abbrev pub is_pending : OutboxRow → Bool
is_pending o = elim o.status [ OutboxStatus.pending ↦ true | _ ↦ false ]

-- `max(0)`.
abbrev headroom : ℤ → ℤ
headroom left = if ltb_ℤ left (pos 0) then pos 0 else left

abbrev shown : Option Run → Option (RunStatus × ℕ)
shown none = none
shown (some r) = some (r.status, r.run_at)

unfoldable pub reserve_status_handler : AppConfig → ℕ → Option Role → Db → Reply ReserveStatus
unfolding balances last_run daily_mint_total where_rows
reserve_status_handler config now none db = unauthorized
reserve_status_handler config now (some role) db = body (record {
  reserves = balances db;
  minting_halted = db.breaker_state.minting_halted;
  halt_reason = db.breaker_state.halt_reason;
  last_reconciliation = shown (last_run db.reconciliation_runs);
  pending_outbox = length (where_rows is_pending db.chain_outbox);
  daily_headroom_clt = headroom (config.daily_mint_cap_clt -ℤ pos (daily_mint_total now db));
})

-- What anybody may read; `treasury_minted` is subtracted here.
pub record PublicRun : Type 0 where
  pub run_at : ℕ
  pub onchain_supply : ℤ
  pub genesis_allocation : ℤ
  pub treasury_minted : ℤ
  pub ledger_liability : ℤ
  pub custody_reported : ℤ
  pub status : RunStatus

abbrev published : Option Run → Option PublicRun
published none = none
published (some r) = some (record {
  run_at = r.run_at;
  onchain_supply = r.onchain_supply;
  genesis_allocation = r.genesis_allocation;
  treasury_minted = r.onchain_supply -ℤ r.genesis_allocation;
  ledger_liability = r.ledger_liability;
  custody_reported = r.custody_reported;
  status = r.status;
})

unfoldable pub public_reconciliation_handler : Db → Option PublicRun
unfolding last_run
public_reconciliation_handler db = published (last_run db.reconciliation_runs)
