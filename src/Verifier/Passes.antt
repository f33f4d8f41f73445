-- ===== src/Verifier/Passes.antt =====
-- One pass takes the steps of its statements (tron_verifier.rs, `verify_once`).
use clutch_treasury.Base.{
  Selected, where_rows-Selected, All-order_by, ℕ, ◌≡◌, ◌≢◌, inl, inr, refl, Bool, true, false, ◌&&◌,
  Option, none, some, List, [], ◌∷◌, Bool-cases, Option-cases, exists_row, update-absent, Text, All,
  is_some,
}
use clutch_treasury.Base.Int.{ℤ}
use mathlib.Core.List.{Memᴰ}
use clutch_treasury.Store.{MintIntent, MintStatus, Db, Reason, already_claimed}
use clutch_treasury.Intents.{has_id}
use clutch_treasury.BscVerifier
use clutch_treasury.Verifier.Evaluate.{Evidence, pass, hard_mismatch, transient}
use clutch_treasury.Verifier.Judge.{Faults, Verdict, approve, hold, reject, wait}
use clutch_treasury.Verifier.Approve.{
  approve_and_ledger, claimed_by_other, reject_and_alert, backfill_deposit_tx_id, lost, is_created,
}
use clutch_treasury.Verifier.Steps.{
  to_mint, to_review, claimed, here, next, Between, Writes-trans, Writes-same,
  approve_and_ledger-Writes, reject_and_alert-Writes,
}
use clutch_treasury.Verifier.Untouched.{verdict_of-intents, stuck_intent_sweep-intents}
use clutch_treasury.Verifier.{
  VerifierConfig, Answers, reject_intent, act, verdict_of, claim, settle, evidence_for, verify_rows,
  verify_once, due_intents, approved_or_paged, held_or_paged, or_page, judge_claimed, bsc_witness,
}

module _ {may : ℕ → Type 0} where
  reject_intent-Writes :
      (faults : Faults) (now id : ℕ) (reason : Reason) (db : Db)
      → may id
      → Between may db (reject_intent faults now id reason db)
  unfolding reject_intent
  reject_intent-Writes faults now id reason db m =
      elim (Option-cases (reject_and_alert faults now id reason db)) [
        | inl fault ↦ rw fault here
        | inr done ↦ rw done.1 (reject_and_alert-Writes faults now id reason db done.0 m done.1)
      ]

  act-Writes :
      (config : VerifierConfig) (a : Answers) (now id : ℕ) (tx_id : Text) (observed : ℤ)
      (v : Verdict × Db)
      → may id
      → Between may v.1 (act config a now id tx_id observed v).1
  unfolding act
  act-Writes config a now id tx_id observed (approve limit, db) m =
      written
        (approve_and_ledger a.faults now id observed tx_id MintStatus.approved limit
          config.service_fee a.fee_id a.fee_ref db)
        refl
    where
      written :
          (o : Option (Bool × Db))
          → approve_and_ledger a.faults now id observed tx_id MintStatus.approved limit
              config.service_fee a.fee_id a.fee_ref db
            ≡ o
          → Between may db (approved_or_paged now id o db).1
      written none e = here
      written (some r) e =
          approve_and_ledger-Writes a.faults now id observed tx_id MintStatus.approved limit
            config.service_fee a.fee_id a.fee_ref db r.0 r.1 m to_mint e
  act-Writes config a now id tx_id observed (hold limit reason, db) m =
      written
        (approve_and_ledger a.faults now id observed tx_id MintStatus.needs_manual (some limit) none
          a.fee_id a.fee_ref db)
        refl
    where
      kept :
          (flag : Bool) (db' : Db)
          → Between may db db'
          → Between may db (held_or_paged now id reason (some (flag, db')) db)
      kept true db' w = w
      kept false db' w = w

      written :
          (o : Option (Bool × Db))
          → approve_and_ledger a.faults now id observed tx_id MintStatus.needs_manual
              (some limit)
              none
              a.fee_id
              a.fee_ref
              db
            ≡ o
          → Between may db (held_or_paged now id reason o db)
      written none e = here
      written (some r) e = kept r.0 r.1 (
          approve_and_ledger-Writes a.faults now id observed tx_id MintStatus.needs_manual
            (some limit) none a.fee_id a.fee_ref db r.0 r.1 m to_review e)
  act-Writes config a now id tx_id observed (reject reason, db) m =
      reject_intent-Writes a.faults now id reason db m
  act-Writes config a now id tx_id observed (wait, db) m = here

  lost-Writes :
      (faults : Faults) (now id : ℕ) (reason : Reason) (db : Db)
      → may id
      → Between may db (lost db (reject_and_alert faults now id reason db)).1
  lost-Writes faults now id reason db m =
      elim (Option-cases (reject_and_alert faults now id reason db)) [
        | inl fault ↦ rw fault here
        | inr done ↦ rw done.1 (reject_and_alert-Writes faults now id reason db done.0 m done.1)
      ]

  backfill-Writes :
      (faults : Faults) (now id : ℕ) (tx_id : Text) (db : Db)
      → may id
      → Between may db (backfill_deposit_tx_id faults now id tx_id db).1
  unfolding backfill_deposit_tx_id
  backfill-Writes faults now id tx_id db m = elim (Bool-cases faults.backfill) [
    | inl fault ↦ rw fault here
    | inr sound ↦ elim (Bool-cases (exists_row (has_id id) db.mint_intents)) [
      | inr gone ↦ rw (sound, gone) (Writes-same (update-absent (has_id id) _ db.mint_intents gone))
      | inl there ↦ elim (Bool-cases (exists_row (claimed_by_other id tx_id) db.mint_intents)) [
        | inr free ↦ rw (sound, there, free) (next here (claimed now id tx_id m free))
        | inl taken ↦
            rw (sound, there, taken) (lost-Writes faults now id (already_claimed tx_id) db m)
      ]
    ]
  ]

  or_page-Writes :
      (now id : ℕ) (db : Db) (r : Option Bool × Db)
      → Between may db r.1
      → Between may db (or_page now id r).1
  or_page-Writes now id db (some ok, db') h = h
  or_page-Writes now id db (none, db') h = h

  claim-Writes :
      (a : Answers) (now id : ℕ) (tx_id : Text) (known : Option Text) (db : Db)
      → may id
      → Between may db (claim a now id tx_id known db).1
  unfolding claim
  claim-Writes a now id tx_id (some t) db m = here
  claim-Writes a now id tx_id none db m =
      or_page-Writes now id db _ (backfill-Writes a.faults now id tx_id _ m)

  judge_claimed-Writes :
      (config : VerifierConfig) (a : Answers) (now : ℕ) (i : MintIntent) (tx_id : Text)
      (observed : ℤ) (db : Db) (r : Bool × Db)
      → may i.id
      → Between may db r.1
      → Between may db (judge_claimed config a now i tx_id observed r).1
  judge_claimed-Writes config a now i tx_id observed db (false, db') m h = h
  judge_claimed-Writes config a now i tx_id observed db (true, db') m h =
      let v = verdict_of config a now i observed db' in
      Writes-trans h (
        Writes-trans (Writes-same (verdict_of-intents config a now i observed db'))
          (act-Writes config a now i.id tx_id observed v m))

  settle-Writes :
      (config : VerifierConfig) (a : Answers) (now : ℕ) (i : MintIntent) (ev : Evidence) (db : Db)
      → (ev ≢ transient → may i.id)
      → Between may db (settle config a now i ev db).1
  unfolding settle
  settle-Writes config a now i (pass tx_id observed) db m =
      let own : may i.id = m (λ e. cc) in
      judge_claimed-Writes config a now i tx_id observed db _ own
        (claim-Writes a now i.id tx_id i.deposit_tx_id db own)
  settle-Writes config a now i (hard_mismatch reason) db m =
      reject_intent-Writes a.faults now i.id reason db (m (λ e. cc))
  settle-Writes config a now i transient db m = here

  verify_rows-Writes :
      (config : VerifierConfig) (w : Option (BscVerifier.Settings × Bool)) (answers : ℕ → Answers)
      (now : ℕ) (rows : List MintIntent) (s : ℕ × Db)
      → All (λ (i : MintIntent). evidence_for config w (answers i.id) i ≢ transient → may i.id) rows
      → Between may s.1 (verify_rows config w answers now rows s).1
  unfolding verify_rows
  verify_rows-Writes config w answers now [] s m = here
  verify_rows-Writes config w answers now (i ∷ rows) s m =
      Writes-trans
        (settle-Writes config (answers i.id) now i (evidence_for config w (answers i.id) i) s.1 m.0)
        (verify_rows-Writes config w answers now rows _ m.1)

-- The intents that a pass may decide: a row of the table that awaits its deposit, on evidence that
-- is not transient.
pub record Decisive (config : VerifierConfig) (w : Option (BscVerifier.Settings × Bool))
    (answers : ℕ → Answers) (db : Db) (id : ℕ) : Type 0 where
  pub row : MintIntent
  pub member : Memᴰ row db.mint_intents
  pub awaits : (is_created row.status && is_some row.client_ref) ≡ true
  pub its_id : row.id ≡ id
  pub not_transient : evidence_for config w (answers row.id) row ≢ transient

rows-Decisive :
    (config : VerifierConfig) (w : Option (BscVerifier.Settings × Bool)) (answers : ℕ → Answers)
    (db : Db) (rows : List MintIntent)
    → All (Selected (λ i. is_created i.status && is_some i.client_ref) db.mint_intents) rows
    → All
        (λ (i : MintIntent).
          evidence_for config w (answers i.id) i ≢ transient → Decisive config w answers db i.id)
        rows
unfolding Selected
rows-Decisive config w answers db [] h = tt
rows-Decisive config w answers db (i ∷ rows) h = (
  λ n. record { row = i; member = h.0.0; awaits = h.0.1; its_id = refl; not_transient = n },
  rows-Decisive config w answers db rows h.1,
)

-- A pass writes to the table only by these steps, and touches only intents that it may decide.
pub verify_once-Writes :
    (config : VerifierConfig) (chain : Option ℕ) (answers : ℕ → Answers) (now : ℕ) (db : Db)
    → Between
        (Decisive config (bsc_witness config.bsc_settings chain (due_intents db)) answers db)
        db
        (verify_once config chain answers now db).1
unfolding verify_once
verify_once-Writes config chain answers now db =
    let w = bsc_witness config.bsc_settings chain (due_intents db) in
    Writes-trans (Writes-same (stuck_intent_sweep-intents now (due_intents db) db)) (
      verify_rows-Writes config w answers now (due_intents db) _
        (rows-Decisive config w answers db (due_intents db) selected))
  where
    selected :
        All
          (Selected (λ i. is_created i.status && is_some i.client_ref) db.mint_intents)
          (due_intents db)
    selected = All-order_by _ (λ i. i.created_at) _ (where_rows-Selected _ db.mint_intents)
