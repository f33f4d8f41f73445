-- ===== src/Verifier.antt =====
-- One pass of the verifier: crates/treasury-service/src/tron_verifier.rs, `verify_once`. What the
-- nodes, the signer and the database answer while an intent is handled is an argument, for each
-- intent by its id.
pub mod Client
pub mod Evaluate
pub mod Judge
pub mod Views
pub mod Approve
pub mod Pages
pub mod Sound
pub mod Backing
pub mod Decided
pub mod Events
pub mod Books
pub mod Steps
pub mod Untouched
pub mod Passes
pub mod Waits
pub mod Claims
pub mod Within
pub mod Again
pub mod Caps
use clutch_treasury.Base.{
  ℕ, suc, ◌+◌, Bool, true, false, ◌&&◌, Option, none, some, List, [], ◌∷◌, if◌then◌else◌, is_some,
  Text, where_rows, exists_row, order_by,
}
use clutch_treasury.Base.Int.{ℤ}
use clutch_treasury.Store.{
  MintIntent, MintStatus, Network, tron, bsc, Db, Reason, p1, warn, tron_verifier, fallback_match,
  backfill_error, approval_failed, hold_failed, reject_failed, held_for_review,
}
use clutch_treasury.Ledger.{alert}
use clutch_treasury.Intents.{is_bsc}
use clutch_treasury.ServiceFee
use clutch_treasury.BscVerifier.{BscNode, Witness, evaluate_bsc, verdict_bsc, answers_for}
use clutch_treasury.BscVerifier
use clutch_treasury.Verifier.Client.{TronNode}
use clutch_treasury.Verifier.Evaluate.{
  Evidence, pass, hard_mismatch, transient, GasfreeSettings, TronConfig, Addresses, evaluate,
}
use clutch_treasury.Verifier.Judge.{
  Verdict, approve, hold, reject, wait, IndexAddresses, Faults, direct_verdict, gasfree_verdict,
}
use clutch_treasury.Verifier.Approve.{
  is_created, approve_and_ledger, reject_and_alert, backfill_deposit_tx_id, stuck_intent_sweep,
}

-- The settings that a pass reads.
pub record VerifierConfig : Type 0 where
  pub tron_config : TronConfig
  pub addresses : Addresses
  pub service_fee : Option ServiceFee.Settings
  pub bsc_settings : Option BscVerifier.Settings

-- What is answered while one intent is handled; the id and the reference of its fee's intent are
-- drawn then.
pub record Answers : Type 0 where
  pub tron_node : TronNode
  pub bsc_node : BscNode
  pub signer : ℤ → Option IndexAddresses
  pub faults : Faults
  pub fee_id : ℕ
  pub fee_ref : Text

abbrev pub rejected_or_paged : ℕ → ℕ → Option Db → Db → Db
rejected_or_paged now id none db = alert now p1 tron_verifier (reject_failed id) db
rejected_or_paged now id (some db') db = db'

-- A rejection, with its page if the write fails.
unfoldable pub reject_intent : Faults → ℕ → ℕ → Reason → Db → Db
unfolding reject_and_alert
reject_intent faults now id reason db =
    rejected_or_paged now id (reject_and_alert faults now id reason db) db

abbrev pub approved_or_paged : ℕ → ℕ → Option (Bool × Db) → Db → Bool × Db
approved_or_paged now id none db = (false, alert now p1 tron_verifier (approval_failed id) db)
approved_or_paged now id (some r) db = r

abbrev pub held_or_paged : ℕ → ℕ → Reason → Option (Bool × Db) → Db → Db
held_or_paged now id reason none db = alert now p1 tron_verifier (hold_failed id) db
held_or_paged now id reason (some (true, db')) db =
    alert now p1 tron_verifier (held_for_review id reason) db'
held_or_paged now id reason (some (false, db')) db = db'

-- The `match` on the verdict; true where an intent was approved.
unfoldable pub act : VerifierConfig → Answers → ℕ → ℕ → Text → ℤ → Verdict × Db → Bool × Db
unfolding approve_and_ledger reject_intent
act config a now id tx_id observed (approve cap, db) =
    approved_or_paged now id
      (approve_and_ledger a.faults now id observed tx_id MintStatus.approved cap config.service_fee
        a.fee_id a.fee_ref db)
      db
act config a now id tx_id observed (hold cap reason, db) = (
  false,
  held_or_paged now id reason
      (approve_and_ledger a.faults now id observed tx_id MintStatus.needs_manual (some cap) none
        a.fee_id a.fee_ref db)
      db,
)
act config a now id tx_id observed (reject reason, db) =
    (false, reject_intent a.faults now id reason db)
act config a now id tx_id observed (wait, db) = (false, db)

abbrev pub tron_verdict :
    VerifierConfig
    → Answers
    → ℕ
    → MintIntent
    → ℤ
    → Db
    → Option Text
    → Option GasfreeSettings
    → Verdict × Db
tron_verdict config a now i observed db (some from) gasfree =
    (direct_verdict a.faults config.tron_config config.addresses from observed db, db)
tron_verdict config a now i observed db none none = (approve none, db)
tron_verdict config a now i observed db none (some settings) =
    gasfree_verdict a.faults now settings config.addresses a.signer i observed db

unfoldable pub verdict_of : VerifierConfig → Answers → ℕ → MintIntent → ℤ → Db → Verdict × Db
unfolding direct_verdict gasfree_verdict verdict_bsc
verdict_of config a now i observed db =
    if is_bsc i.network
    then (
      verdict_bsc config.bsc_settings config.tron_config.gasfree i.direct_from i.deposit_address
          observed,
      db,
    )
    else tron_verdict config a now i observed db i.direct_from config.tron_config.gasfree

abbrev pub or_page : ℕ → ℕ → Option Bool × Db → Bool × Db
or_page now id (some ok, db) = (ok, db)
or_page now id (none, db) = (false, alert now warn tron_verifier (backfill_error id) db)

-- `may_approve`: a transfer matched without a hash is claimed first.
unfoldable pub claim : Answers → ℕ → ℕ → Text → Option Text → Db → Bool × Db
unfolding backfill_deposit_tx_id
claim a now id tx_id (some known) db = (true, db)
claim a now id tx_id none db = or_page now id (
    backfill_deposit_tx_id a.faults now id tx_id
      (alert now warn tron_verifier (fallback_match id tx_id) db))

abbrev pub judge_claimed :
    VerifierConfig → Answers → ℕ → MintIntent → Text → ℤ → Bool × Db → Bool × Db
judge_claimed config a now i tx_id observed (false, db) = (false, db)
judge_claimed config a now i tx_id observed (true, db) =
    act config a now i.id tx_id observed (verdict_of config a now i observed db)

-- The `match` on the evidence.
unfoldable pub settle : VerifierConfig → Answers → ℕ → MintIntent → Evidence → Db → Bool × Db
unfolding claim verdict_of act reject_intent
settle config a now i (pass tx_id observed) db =
    judge_claimed config a now i tx_id observed (claim a now i.id tx_id i.deposit_tx_id db)
settle config a now i (hard_mismatch reason) db = (false, reject_intent a.faults now i.id reason db)
settle config a now i transient db = (false, db)

-- The node that BSC evidence is read through, once per pass checked to be on its chain.
abbrev witness_at : Option (BscVerifier.Settings × Bool) → BscNode → Option Witness
witness_at none node = none
witness_at (some w) node = some (record { settings = w.0; node = node; on_chain = w.1 })

unfoldable pub evidence_for :
    VerifierConfig → Option (BscVerifier.Settings × Bool) → Answers → MintIntent → Evidence
unfolding evaluate evaluate_bsc
evidence_for config w a i =
    if is_bsc i.network
    then evaluate_bsc (witness_at w a.bsc_node) i
    else evaluate a.tron_node config.tron_config config.addresses i

abbrev pub count : Bool → ℕ → ℕ
count true n = suc n
count false n = n

-- The loop, from the number approved so far.
unfoldable pub verify_rows :
    VerifierConfig
    → Option (BscVerifier.Settings × Bool)
    → (ℕ → Answers)
    → ℕ
    → List MintIntent
    → ℕ × Db
    → ℕ × Db
unfolding settle evidence_for
verify_rows config w answers now [] s = s
verify_rows config w answers now (i ∷ rows) s =
    let r = settle config (answers i.id) now i (evidence_for config w (answers i.id) i) s.1 in
    verify_rows config w answers now rows (count r.0 s.0, r.1)

unfoldable pub due_intents : Db → List MintIntent
unfolding order_by
due_intents db =
    order_by (λ i. i.created_at)
      (where_rows (λ i. is_created i.status && is_some i.client_ref) db.mint_intents)

abbrev pub bsc_witness :
    Option BscVerifier.Settings → Option ℕ → List MintIntent → Option (BscVerifier.Settings × Bool)
bsc_witness none chain rows = none
bsc_witness (some s) chain rows =
    if exists_row (λ i. is_bsc i.network) rows then some (s, answers_for s chain) else none

-- `chain` is what the BSC node answers when it is asked for its chain.
unfoldable pub verify_once : VerifierConfig → Option ℕ → (ℕ → Answers) → ℕ → Db → ℕ × Db
unfolding verify_rows due_intents stuck_intent_sweep
verify_once config chain answers now db =
    verify_rows config (bsc_witness config.bsc_settings chain (due_intents db)) answers now
      (due_intents db) (0, stuck_intent_sweep now (due_intents db) db)
