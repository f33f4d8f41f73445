-- ===== src/Breakers.antt =====
-- The circuit breakers: crates/treasury-service/src/breakers.rs.
pub mod Backing
pub mod Daily
pub mod Gate
pub mod Latest
use clutch_treasury.Base.{
  ℕ, suc, ◌+◌, Bool, true, false, ◌&&◌, ◌||◌, ◌==◌, Option, none, some, List, [], ◌∷◌, ltb,
  if◌then◌else◌, sum_rows, is_some, Text, not,
}
use clutch_treasury.Base.Int.{ℤ, pos, negsuc, ltb_ℤ, pos_part, add_i64, scale, div_trunc}
use clutch_treasury.Store.{
  MintIntent, MintStatus, approved, submitted, credited, Run, RunStatus, mismatch, Db, AppConfig,
  Severity, warn, p1, breakers, Notice, minting_halted, over_per_tx_cap, daily_cap, backing_ratio,
  no_recent_run, last_run_mismatch, manual_halt, manual_resume,
}
use clutch_treasury.Ledger.{Balances, balances, alert}

pub record Denial : Type 0 where
  pub reason : Notice
  pub denied_over_per_tx_cap : Bool

pub data Verdict : Type 0 where
  allowed : Verdict
  denied : Denial → Verdict

-- `status IN ('approved', 'submitted', 'credited')`.
abbrev pub is_authorised : MintStatus → Bool
is_authorised approved = true
is_authorised submitted = true
is_authorised credited = true
is_authorised _ = false

-- `t > now() - interval`, in seconds.
abbrev pub within : ℕ → ℕ → ℕ → Bool
within seconds now t = ltb now (t + seconds)

abbrev pub day : ℕ
day = 86400

abbrev counts_today : ℕ → MintIntent → Bool
counts_today now i = is_authorised i.status && within day now i.created_at

unfoldable pub daily_mint_total : ℕ → Db → ℕ
daily_mint_total now db = sum_rows (counts_today now) (λ i. i.amount_clt) db.mint_intents

-- The same sum without one intent: `AND id <> $1`.
unfoldable pub daily_mint_total_excluding : ℕ → ℕ → Db → ℕ
daily_mint_total_excluding now id db =
    sum_rows (λ i. counts_today now i && not (i.id == id)) (λ i. i.amount_clt) db.mint_intents

unfoldable pub excluded_total : ℕ → Option ℕ → Db → ℕ
excluded_total now none db = daily_mint_total now db
excluded_total now (some id) db = daily_mint_total_excluding now id db

-- `ORDER BY run_at DESC LIMIT 1`; among equal times, the row that was inserted first.
abbrev pub later_run : Run → Option Run → Run
later_run r none = r
later_run r (some s) = if ltb r.run_at s.run_at then s else r

unfoldable pub latest : (Run → Bool) → List Run → Option Run
latest p [] = none
latest p (r ∷ rs) = if p r then some (later_run r (latest p rs)) else latest p rs

abbrev pub is_mismatch : RunStatus → Bool
is_mismatch mismatch = true
is_mismatch _ = false

-- Custody over liability in basis points, truncated as Rust divides.
unfoldable pub ratio_bps : ℤ → ℤ → ℤ
unfolding scale div_trunc
ratio_bps custody liability = div_trunc (scale 10000 custody) (pos_part liability)

abbrev pub halt : Notice → Db → Db
halt r db = record db { breaker_state = record { minting_halted = true; halt_reason = some r } }

-- Alert, and deny with `over_per_tx_cap: false`.
abbrev refuse : ℕ → Severity → Notice → Db → Verdict × Db
refuse now s r db =
    (denied (record { reason = r; denied_over_per_tx_cap = false }), alert now s breakers r db)

-- The last test: the latest reconciliation run of 48 hours.
abbrev check_last_run : ℕ → Option Run → Db → Verdict × Db
check_last_run now none db = refuse now warn no_recent_run db
check_last_run now (some r) db =
    if is_mismatch r.status then refuse now warn last_run_mismatch db else (allowed, db)

abbrev pub recent_run : ℕ → Db → Option Run
recent_run now db = latest (λ r. within 172800 now r.run_at) db.reconciliation_runs

abbrev is_underbacked : AppConfig → ℤ → ℤ → Bool
is_underbacked config custody liability =
    ltb_ℤ (pos 0) liability && ltb_ℤ (ratio_bps custody liability) config.backing_halt_bps

unfoldable pub check_mint_inner : AppConfig → ℕ → ℕ → Option ℕ → Db → Verdict × Db
unfolding balances
check_mint_inner config now amount_clt exclude db =
    if db.breaker_state.minting_halted
    then refuse now warn minting_halted db
    else if ltb_ℤ config.per_tx_mint_cap_clt (pos amount_clt)
    then (
      denied (record { reason = over_per_tx_cap; denied_over_per_tx_cap = true }),
      alert now warn breakers over_per_tx_cap db,
    )
    else if ltb_ℤ config.daily_mint_cap_clt
        (add_i64 (pos (excluded_total now exclude db)) (pos amount_clt))
    then refuse now warn daily_cap db
    else if is_underbacked config (balances db).custody_usdt
        (add_i64 (balances db).clt_liability (pos amount_clt))
    then refuse now p1 backing_ratio (halt backing_ratio db)
    else check_last_run now (recent_run now db) db

unfoldable pub check_mint : AppConfig → ℕ → ℕ → Db → Verdict × Db
unfolding check_mint_inner
check_mint config now amount_clt = check_mint_inner config now amount_clt none

unfoldable pub check_mint_excluding : AppConfig → ℕ → ℕ → ℕ → Db → Verdict × Db
unfolding check_mint_inner
check_mint_excluding config now amount_clt intent_id =
    check_mint_inner config now amount_clt (some intent_id)

-- `breakers::manual_halt` and `breakers::manual_resume`.
unfoldable pub manual_halt_now : ℕ → Text → Db → Db
manual_halt_now now reason db =
    alert now warn breakers (manual_halt reason) (halt (manual_halt reason) db)

unfoldable pub manual_resume_now : ℕ → Db → Db
manual_resume_now now db =
    alert now warn breakers manual_resume
      (record db { breaker_state = record { minting_halted = false; halt_reason = none } })
