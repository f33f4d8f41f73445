-- ===== src/Reconciliation/Judge.antt =====
-- What a reconciliation run concludes and what it does to the breaker.
use clutch_treasury.Base.{ℕ, ◌≡◌, ◌≢◌, ◌⊎◌, refl, true, Option, none, some, arith, inl, inr}
use clutch_treasury.Base.Int.{ℤ, ◌≤ℤ◌, ◌<ℤ◌, eq_of_parts}
use clutch_treasury.Store.{Db, AppConfig, RunStatus, ok, over_backed_drift, mismatch, error}
use clutch_treasury.Breakers.{allowed, check_mint_inner}
use clutch_treasury.Breakers.Gate.{check_mint_inner-halted}
use clutch_treasury.Reconciliation.{
  Sources, treasury_minted, judge, record_run, run_once, after_judgement,
}

-- What each status says of the three records.
abbrev pub Says : Sources → RunStatus → Type 0
Says s ok = (treasury_minted s ≡ s.ledger_liability) × (s.ledger_liability ≤ℤ s.custody_reported)
Says s over_backed_drift =
    (treasury_minted s <ℤ s.ledger_liability) × (s.ledger_liability ≤ℤ s.custody_reported)
Says s mismatch =
    (s.ledger_liability <ℤ treasury_minted s) ⊎ (s.custody_reported <ℤ s.ledger_liability)
Says s error = ⊥

-- The judgement is sound: the status it gives says what holds of the three records.
judge-Says : (s : Sources) → Says s (judge s)
unfolding judge
judge-Says s = ground (arith, eq_of_parts (treasury_minted s) s.ledger_liability)

judge-mismatch :
    (s : Sources)
    → (s.ledger_liability <ℤ treasury_minted s) ⊎ (s.custody_reported <ℤ s.ledger_liability)
    → judge s ≡ mismatch
unfolding judge
judge-mismatch s h = ground arith

record_run-halted :
    (now : ℕ) (s : Sources) (db : Db)
    → judge s ≡ mismatch
    → ((record_run now s db).0 ≡ mismatch)
      × ((record_run now s db).1.breaker_state.minting_halted ≡ true)
unfolding record_run
record_run-halted now s db e = (e, rw (e, after_judgement))

-- A run whose three records disagree on the unsafe side, unbacked CLT on chain or a reserve below
-- the liability, is judged a mismatch and halts minting: the gate then denies every mint.
pub record_run-halts :
    (config : AppConfig) (now later amount_clt : ℕ) (exclude : Option ℕ) (s : Sources) (db : Db)
    → (s.ledger_liability <ℤ treasury_minted s) ⊎ (s.custody_reported <ℤ s.ledger_liability)
    → ((record_run now s db).0 ≡ mismatch)
      × ((record_run now s db).1.breaker_state.minting_halted ≡ true)
      × ((check_mint_inner config later amount_clt exclude (record_run now s db).1).0 ≢ allowed)
record_run-halts config now later amount_clt exclude s db h =
    let (status, halted) = record_run-halted now s db (judge-mismatch s h) in
    (
      status,
      halted,
      (check_mint_inner-halted config later amount_clt exclude (record_run now s db).1 halted).0,
    )

-- Any other run leaves the breaker as it is: no run, however good, resumes minting.
record_run-keeps_breaker :
    (now : ℕ) (s : Sources) (db : Db)
    → s.ledger_liability ≤ℤ s.custody_reported
    → treasury_minted s ≤ℤ s.ledger_liability
    → (record_run now s db).1.breaker_state ≡ db.breaker_state
unfolding record_run judge
record_run-keeps_breaker now s db h k = ground arith

-- A run that cannot read the chain or the reserve records nothing at all.
pub run_once-unreadable :
    (now genesis : ℕ) (supply : Option ℕ) (reserve : Option ℤ) (db : Db)
    → (supply ≡ none) ⊎ (reserve ≡ none)
    → run_once now genesis supply reserve db ≡ (none, db)
unfolding run_once
run_once-unreadable now genesis none reserve db h = refl
run_once-unreadable now genesis (some supply) none db h = refl
run_once-unreadable now genesis (some supply) (some custody) db (inl e) = cc
run_once-unreadable now genesis (some supply) (some custody) db (inr e) = cc
