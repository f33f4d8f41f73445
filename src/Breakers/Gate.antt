-- ===== src/Breakers/Gate.antt =====
-- What `check_mint_inner` (crates/treasury-service/src/breakers.rs) lets through.
use clutch_treasury.Base.{
  ℕ, refl, ◌*◌, ◌/◌, ◌≤◌, ◌<◌, ◌≡◌, ap, ◌≢◌, ◌↔◌, true, false, Option, some, arith, Option-cases,
  inl, inr, subst,
}
use clutch_treasury.Base.Int.{ℤ, pos, negsuc, ◌≤ℤ◌, ◌<ℤ◌, add_i64, scale, div_trunc, pos_part}
use clutch_treasury.Store.{Db, AppConfig, Run, RunStatus, ok, over_backed_drift, mismatch, error}
use clutch_treasury.Ledger.{balances}
use clutch_treasury.Breakers.{
  Verdict, allowed, check_mint_inner, excluded_total, recent_run, is_mismatch, ratio_bps,
}
use clutch_treasury.Breakers.Backing.{Covers, ratio_bps_iff}
use clutch_treasury.Breakers.Daily.{Total, excluded_total-Total, Total-excluded_total}
use clutch_treasury.Breakers.Latest.{IsLatest, recent_run-IsLatest_iff}

-- Everything that has to hold for a mint of `amount_clt` at the time `now`.
pub record Permits (config : AppConfig) (now amount_clt : ℕ) (exclude : Option ℕ) (db : Db)
    : Type 0 where
  pub not_halted : db.breaker_state.minting_halted ≡ false
  pub under_tx_cap : pos amount_clt ≤ℤ config.per_tx_mint_cap_clt
  pub under_daily_cap :
      add_i64 (pos (excluded_total now exclude db)) (pos amount_clt) ≤ℤ config.daily_mint_cap_clt
  pub backed :
      pos 0 <ℤ add_i64 (balances db).clt_liability (pos amount_clt)
      → config.backing_halt_bps
        ≤ℤ ratio_bps
            (balances db).custody_usdt
            (add_i64 (balances db).clt_liability (pos amount_clt))
  pub reconciled : (r : Run) × (recent_run now db ≡ some r) × (is_mismatch r.status ≡ false)

-- What the gate lets through meets every condition.
check-Permits :
    (config : AppConfig) (now amount_clt : ℕ) (exclude : Option ℕ) (db : Db)
    → (check_mint_inner config now amount_clt exclude db).0 ≡ allowed
    → Permits config now amount_clt exclude db
unfolding check_mint_inner
check-Permits config now amount_clt exclude db e = record {
  not_halted = ground arith;
  under_tx_cap = ground arith;
  under_daily_cap = ground arith;
  backed = λ p. ground arith;
  reconciled = elim (Option-cases (recent_run now db)) [
    | inl no_run ↦ absurd (ground arith)
    | inr (r, e') ↦ (r, e', ground arith)
  ];
}

-- What meets every condition is let through, and the check changes nothing.
Permits-check :
    (config : AppConfig) (now amount_clt : ℕ) (exclude : Option ℕ) (db : Db)
    → Permits config now amount_clt exclude db
    → check_mint_inner config now amount_clt exclude db ≡ (allowed, db)
unfolding check_mint_inner
Permits-check config now amount_clt exclude db (h) = ground (arith, h.reconciled.1, h.reconciled.2)

-- The same conditions, of the tables and the numbers alone.
pub record Allows (config : AppConfig) (now amount_clt : ℕ) (exclude : Option ℕ) (db : Db)
    : Type 0 where
  pub not_halted : db.breaker_state.minting_halted ≡ false
  pub under_tx_cap : pos amount_clt ≤ℤ config.per_tx_mint_cap_clt
  pub today : ℕ
  pub of_today : Total now exclude db.mint_intents today
  pub under_daily_cap : add_i64 (pos today) (pos amount_clt) ≤ℤ config.daily_mint_cap_clt
  pub backed :
      let liability = add_i64 (balances db).clt_liability (pos amount_clt) in
      pos 0 <ℤ liability
      → Covers config.backing_halt_bps (balances db).custody_usdt (pos_part liability)
  pub last_run : Run
  pub is_latest : IsLatest now db.reconciliation_runs last_run
  pub no_mismatch : last_run.status ≢ mismatch

mismatch_iff : (s : RunStatus) → (is_mismatch s ≡ false) ↔ (s ≢ mismatch)
mismatch_iff ok = (λ e c. cc, λ h. refl)
mismatch_iff over_backed_drift = (λ e c. cc, λ h. refl)
mismatch_iff mismatch = (λ e. cc, λ h. absurd (h refl))
mismatch_iff error = (λ e c. cc, λ h. refl)

backed_iff :
    (bps custody liability : ℤ)
    → (pos 0 <ℤ liability → bps ≤ℤ ratio_bps custody liability)
      ↔ (pos 0 <ℤ liability → Covers bps custody (pos_part liability))
backed_iff bps custody (pos n) = (
  λ h k. (ratio_bps_iff bps custody n (omega arith)).0 (h k),
  λ h k. (ratio_bps_iff bps custody n (omega arith)).1 (h k),
)
backed_iff bps custody (negsuc n) = (λ h k. absurd (omega arith), λ h k. absurd (omega arith))

Permits-Allows :
    (config : AppConfig) (now amount_clt : ℕ) (exclude : Option ℕ) (db : Db)
    → Permits config now amount_clt exclude db
    → Allows config now amount_clt exclude db
Permits-Allows config now amount_clt exclude db h = record {
  not_halted = h.not_halted;
  under_tx_cap = h.under_tx_cap;
  today = excluded_total now exclude db;
  of_today = excluded_total-Total now exclude db;
  under_daily_cap = h.under_daily_cap;
  backed = (backed_iff config.backing_halt_bps (balances db).custody_usdt _).0 h.backed;
  last_run = h.reconciled.0;
  is_latest = (recent_run-IsLatest_iff now db h.reconciled.0).0 h.reconciled.1;
  no_mismatch = (mismatch_iff h.reconciled.0.status).0 h.reconciled.2;
}

Allows-Permits :
    (config : AppConfig) (now amount_clt : ℕ) (exclude : Option ℕ) (db : Db)
    → Allows config now amount_clt exclude db
    → Permits config now amount_clt exclude db
Allows-Permits config now amount_clt exclude db h = record {
  not_halted = h.not_halted;
  under_tx_cap = h.under_tx_cap;
  under_daily_cap =
      subst (λ n. add_i64 (pos n) (pos amount_clt) ≤ℤ config.daily_mint_cap_clt)
        (Total-excluded_total now exclude db h.today h.of_today) h.under_daily_cap;
  backed = (backed_iff config.backing_halt_bps (balances db).custody_usdt _).1 h.backed;
  reconciled = (
    h.last_run,
    (recent_run-IsLatest_iff now db h.last_run).1 h.is_latest,
    (mismatch_iff h.last_run.status).1 h.no_mismatch,
  );
}

-- The gate lets a mint through exactly when minting is not halted; the amount is within the cap on
-- one mint; with the amounts approved, submitted or credited of the intents created less than a day
-- ago, the left-out one aside, it is within the cap of the day; custody covers the projected
-- liability, if that is positive, at the halt threshold; and the latest reconciliation run of 48
-- hours, the first of those at the same time, exists and is no mismatch.
pub check_mint_inner-allowed_iff :
    (config : AppConfig) (now amount_clt : ℕ) (exclude : Option ℕ) (db : Db)
    → ((check_mint_inner config now amount_clt exclude db).0 ≡ allowed)
      ↔ Allows config now amount_clt exclude db
check_mint_inner-allowed_iff config now amount_clt exclude db = (
  λ e.
      Permits-Allows config now amount_clt exclude db
        (check-Permits config now amount_clt exclude db e),
  λ h.
      ap (λ (r : Verdict × Db). r.0)
        (Permits-check config now amount_clt exclude db
          (Allows-Permits config now amount_clt exclude db h)),
)

div-mul-le : (q a d : ℕ) → 0 < d → q ≤ a / d → q * d ≤ a
div-mul-le q a d h k = grind (arith)

scale-negsuc : (k n : ℕ) → pos_part (scale k (negsuc n)) ≡ 0
unfolding scale
scale-negsuc k n = ground arith

div_trunc-nonpos : (x : ℤ) (d : ℕ) → pos_part x ≡ 0 → pos_part (div_trunc x d) ≡ 0
unfolding div_trunc
div_trunc-nonpos (pos n) d h = ground arith
div_trunc-nonpos (negsuc n) d h = ground arith

-- A ratio at or above a positive threshold means that custody covers that share of the
-- liability, with no rounding in the threshold's favour.
ratio_bps-covers :
    (bps : ℕ) (custody : ℤ) (liability : ℕ)
    → 0 < bps
    → 0 < liability
    → pos bps ≤ℤ ratio_bps custody (pos liability)
    → pos (bps * liability) ≤ℤ scale 10000 custody
unfolding ratio_bps
ratio_bps-covers bps (pos n) liability h k r =
    omega (arith, div-mul-le bps (10000 * n) liability k (omega arith))
ratio_bps-covers bps (negsuc n) liability h k r =
    absurd
      (omega (arith, div_trunc-nonpos (scale 10000 (negsuc n)) liability (scale-negsuc 10000 n)))

-- A halted treasury denies every mint, whatever its amount, and only records an alert.
pub check_mint_inner-halted :
    (config : AppConfig) (now amount_clt : ℕ) (exclude : Option ℕ) (db : Db)
    → db.breaker_state.minting_halted ≡ true
    → ((check_mint_inner config now amount_clt exclude db).0 ≢ allowed)
      × ((check_mint_inner config now amount_clt exclude db).1.breaker_state ≡ db.breaker_state)
unfolding check_mint_inner
check_mint_inner-halted config now amount_clt exclude db h = (ground arith, ground arith)
