-- ===== src/Outbox/Rows.antt =====
-- The writes of the mint outbox: crates/treasury-service/src/outbox.rs, from the rescue of
-- stuck submissions to the backoff.
use clutch_treasury.Base.{
  ℕ, ◌+◌, ◌*◌, ◌^◌, Bool, true, false, ◌&&◌, ◌==◌, Option, none, some, List, [], ◌∷◌, if◌then◌else◌,
  Text, update, find, where_rows, ltb, leb, min,
}
use clutch_treasury.Store.{
  MintIntent, MintStatus, OutboxRow, OutboxStatus, Db, Notice, never_confirmed,
  not_confirmed_in_time, failed_for_good, needs_review, p1, outbox,
}
use clutch_treasury.Ledger.{alert}

abbrev pub max_attempts : ℕ
max_attempts = 10

abbrev pub submitted_timeout_secs : ℕ
submitted_timeout_secs = 600

abbrev pub is_submitted : OutboxStatus → Bool
is_submitted s = elim s [ OutboxStatus.submitted ↦ true | _ ↦ false ]

abbrev pub is_pending : OutboxStatus → Bool
is_pending s = elim s [ OutboxStatus.pending ↦ true | _ ↦ false ]

abbrev pub row_is : ℕ → OutboxRow → Bool
row_is id o = o.id == id

abbrev pub intent_is : ℕ → MintIntent → Bool
intent_is id i = i.id == id

-- `UPDATE chain_outbox SET … WHERE id = $1`, and the same for an intent.
abbrev pub set_row : ℕ → (OutboxRow → OutboxRow) → Db → Db
set_row id f db = record db { chain_outbox = update (row_is id) f db.chain_outbox }

abbrev pub set_intent : (MintIntent → Bool) → (MintIntent → MintIntent) → Db → Db
set_intent p f db = record db { mint_intents = update p f db.mint_intents }

abbrev pub set_status : ℕ → MintStatus → MintIntent → MintIntent
set_status now s i = record i { status = s; updated_at = now }

abbrev pub close_row : Notice → OutboxRow → OutboxRow
close_row r o = record o { status = OutboxStatus.failed; last_error = some r }

abbrev pub requeue_row : ℕ → ℕ → OutboxRow → OutboxRow
requeue_row now attempts o = record o {
  status = OutboxStatus.pending;
  attempts = attempts;
  next_attempt_at = now;
  last_error = some not_confirmed_in_time;
}

-- One row of the loop of `requeue_stuck_submissions`.
unfoldable pub requeue_one : ℕ → OutboxRow → Db → Db
requeue_one now o db =
    if leb max_attempts o.attempts
    then set_intent (intent_is o.intent_id) (set_status now MintStatus.needs_manual)
        (set_row o.id (close_row never_confirmed) (alert now p1 outbox never_confirmed db))
    else record db {
      chain_outbox =
          update (λ x. x.id == o.id && is_submitted x.status) (requeue_row now (o.attempts + 1))
            db.chain_outbox;
    }

-- The rows that have been `submitted` since before the timeout.
abbrev pub is_stuck : ℕ → Db → OutboxRow → Bool
is_stuck now db o = is_submitted o.status && elim (find (intent_is o.intent_id) db.mint_intents) [
  | none ↦ false
  | some i ↦ ltb (i.updated_at + submitted_timeout_secs) now
]

unfoldable pub requeue_all : ℕ → List OutboxRow → Db → Db
unfolding requeue_one
requeue_all now [] db = db
requeue_all now (o ∷ rows) db = requeue_all now rows (requeue_one now o db)

unfoldable pub requeue_stuck_submissions : ℕ → Db → Db
unfolding requeue_all
requeue_stuck_submissions now db = requeue_all now (where_rows (is_stuck now db) db.chain_outbox) db

-- A due row joined with its intent, as the pass reads it before its loop.
pub record WorkItem : Type 0 where
  pub outbox_id : ℕ
  pub intent_id : ℕ
  pub attempts : ℕ
  pub beneficiary : Text
  pub amount_clt : ℕ
  pub credit_ref : Text
  pub client_ref : Option Text

abbrev pub is_due : ℕ → OutboxRow → Bool
is_due now o = is_pending o.status && leb o.next_attempt_at now

abbrev pub work_item : OutboxRow → MintIntent → WorkItem
work_item o i = record {
  outbox_id = o.id;
  intent_id = o.intent_id;
  attempts = o.attempts;
  beneficiary = i.beneficiary;
  amount_clt = i.amount_clt;
  credit_ref = i.credit_ref;
  client_ref = i.client_ref;
}

abbrev pub with_intent : OutboxRow → Option MintIntent → List WorkItem → List WorkItem
with_intent o none items = items
with_intent o (some i) items = work_item o i ∷ items

unfoldable pub join_intents : Db → List OutboxRow → List WorkItem
join_intents db [] = []
join_intents db (o ∷ rows) =
    with_intent o (find (intent_is o.intent_id) db.mint_intents) (join_intents db rows)

unfoldable pub due_items : ℕ → Db → List WorkItem
unfolding join_intents
due_items now db = join_intents db (where_rows (is_due now) db.chain_outbox)

unfoldable pub submit_ok : ℕ → ℕ → ℕ → Text → Db → Db
submit_ok now outbox_id intent_id tx_hash db =
    set_row outbox_id (λ o. record o { status = OutboxStatus.submitted; last_error = none })
      (set_intent (intent_is intent_id)
        (λ i. record i {
          status = MintStatus.submitted;
          chain_tx_hash = some tx_hash;
          updated_at = now;
        })
        db)

unfoldable pub mark_submitted_no_hash : ℕ → ℕ → ℕ → Db → Db
mark_submitted_no_hash now outbox_id intent_id db =
    set_row outbox_id (λ o. record o { status = OutboxStatus.submitted; last_error = none })
      (set_intent (intent_is intent_id) (set_status now MintStatus.submitted) db)

abbrev pub is_approved : MintStatus → Bool
is_approved s = elim s [ MintStatus.approved ↦ true | _ ↦ false ]

unfoldable pub needs_manual : ℕ → WorkItem → Notice → Db → Db
needs_manual now row reason db = alert now p1 outbox (needs_review row.intent_id) (
    set_intent (λ i. i.id == row.intent_id && is_approved i.status)
      (set_status now MintStatus.needs_manual) (set_row row.outbox_id (close_row reason) db))

abbrev pub parked : ℕ → Notice → OutboxRow → OutboxRow
parked now reason o = record o { next_attempt_at = now + 3600; last_error = some reason }

unfoldable pub park_row : ℕ → ℕ → Notice → Db → Db
park_row now outbox_id reason = set_row outbox_id (parked now reason)

-- 5 s * 2 ^ attempts, capped at 10 minutes. The shift is of at most 20 places.
unfoldable pub backoff_secs : ℕ → ℕ
backoff_secs attempts = min (5 * 2 ^ min attempts 20) 600

abbrev pub failed_row : ℕ → Notice → OutboxRow → OutboxRow
failed_row attempts reason o = record o {
  status = OutboxStatus.failed;
  attempts = attempts;
  last_error = some reason;
}

abbrev pub backed_off : ℕ → ℕ → Notice → OutboxRow → OutboxRow
backed_off now attempts reason o = record o {
  attempts = attempts;
  next_attempt_at = now + backoff_secs attempts;
  last_error = some reason;
}

unfoldable pub fail_or_backoff : ℕ → ℕ → ℕ → ℕ → Notice → Db → Db
fail_or_backoff now outbox_id intent_id prior_attempts reason db =
    let attempts = prior_attempts + 1 in
    if leb max_attempts attempts
    then alert now p1 outbox (failed_for_good intent_id) (
        set_intent (intent_is intent_id) (set_status now MintStatus.failed)
          (set_row outbox_id (failed_row attempts reason) db))
    else set_row outbox_id (backed_off now attempts reason) db
