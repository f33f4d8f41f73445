-- ===== src/Reconciliation.antt =====
-- Reconciliation: crates/treasury-service/src/reconciliation.rs. `run_once` reads the chain and
-- the custody balances and hands them to `record`; those reads are `Sources`.
pub mod Judge
use clutch_treasury.Base.{
  ℕ, Bool, true, false, Option, none, some, List, [], ◌∷◌, ◌++◌, if◌then◌else◌, sum_rows, ◌||◌,
  find, not, ltb, ◌+◌, ◌*◌,
}
use clutch_treasury.Base.Int.{ℤ, pos, ◌-ℤ◌, ltb_ℤ, leb_ℤ, wrap_i64, add_i64}
use clutch_treasury.Store.{
  MintIntent, MintStatus, submitted, Run, RunStatus, ok, over_backed_drift, mismatch, Db, Severity,
  warn, p1, reconciliation, reconciliation_mismatch, over_backed, persistent_under_issuance,
}
use clutch_treasury.Ledger.{balances, alert}
use clutch_treasury.Breakers.{latest, halt}

pub record Sources : Type 0 where
  pub onchain_supply : ℕ
  pub genesis_allocation : ℕ
  pub ledger_liability : ℤ
  pub custody_reported : ℤ

abbrev pub treasury_minted : Sources → ℤ
treasury_minted s = pos s.onchain_supply -ℤ pos s.genesis_allocation

unfoldable pub judge : Sources → RunStatus
judge s =
    if ltb_ℤ s.ledger_liability (treasury_minted s)
    then mismatch
    else if ltb_ℤ s.custody_reported s.ledger_liability
    then mismatch
    else if ltb_ℤ (treasury_minted s) s.ledger_liability
    then over_backed_drift
    else ok

abbrev is_drift : RunStatus → Bool
is_drift over_backed_drift = true
is_drift _ = false

-- The gap that the latest drifting run judged, read from its `detail`.
unfoldable pub previous_drift_gap : Db → Option ℤ
previous_drift_gap db = elim (latest (λ r. is_drift r.status) db.reconciliation_runs) [
  | none ↦ none
  | some r ↦ some (r.ledger_liability -ℤ r.treasury_minted)
]

abbrev pub insert_run : ℕ → Sources → Db → Db
insert_run now s db = record db {
  reconciliation_runs =
      db.reconciliation_runs
      ++ record {
        run_at = now;
        onchain_supply = wrap_i64 (pos s.onchain_supply);
        genesis_allocation = wrap_i64 (pos s.genesis_allocation);
        ledger_liability = s.ledger_liability;
        custody_reported = s.custody_reported;
        status = judge s;
        treasury_minted = wrap_i64 (treasury_minted s);
      }
        ∷ [];
}

-- `prior_gap.is_some_and(|prev| prev >= gap)`.
abbrev pub is_persistent : Option ℤ → ℤ → Bool
is_persistent none gap = false
is_persistent (some prev) gap = leb_ℤ gap prev

-- What `record` does after the insert, by the judged status.
unfoldable pub after_judgement : ℕ → Sources → Option ℤ → RunStatus → Db → Db
after_judgement now s prior_gap mismatch db =
    alert now p1 reconciliation reconciliation_mismatch (halt reconciliation_mismatch db)
after_judgement now s prior_gap over_backed_drift db =
    if is_persistent prior_gap (s.ledger_liability -ℤ treasury_minted s)
    then alert now p1 reconciliation persistent_under_issuance db
    else alert now warn reconciliation over_backed db
after_judgement now s prior_gap _ db = db

-- `record`. The earlier gap is read before the run is inserted.
unfoldable pub record_run : ℕ → Sources → Db → RunStatus × Db
unfolding after_judgement previous_drift_gap
record_run now s db =
    (judge s, after_judgement now s (previous_drift_gap db) (judge s) (insert_run now s db))

abbrev is_in_flight : MintIntent → Bool
is_in_flight i = elim i.status [ MintStatus.submitted ↦ true | _ ↦ false ]

unfoldable pub in_flight_mint_amount : Db → ℕ
in_flight_mint_amount db = sum_rows is_in_flight (λ i. i.amount_clt) db.mint_intents

-- `run_once`: the supply from the node, the reserve from the chains (`none` where a read fails,
-- which records no run), the liability from the ledger with the mints in flight.
unfoldable pub run_once : ℕ → ℕ → Option ℕ → Option ℤ → Db → Option RunStatus × Db
unfolding record_run balances in_flight_mint_amount
run_once now genesis none reserve db = (none, db)
run_once now genesis (some supply) none db = (none, db)
run_once now genesis (some supply) (some custody) db =
    let (status, db') =
      record_run now
        (record {
          onchain_supply = supply;
          genesis_allocation = genesis;
          ledger_liability = add_i64 (balances db).clt_liability (pos (in_flight_mint_amount db));
          custody_reported = custody;
        })
        db in
    (some status, db')
