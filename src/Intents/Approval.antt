-- ===== src/Intents/Approval.antt =====
-- Four eyes, and one work item for each approval (intents.rs, `approve_mint_intent`).
use clutch_treasury.Base.{
  ℕ, suc, ◌≡◌, ◌≢◌, refl, true, false, Option, none, some, List, arith, sym, ◌∙◌, Text, text_eq,
  text_eq_iff, exists_row, All, All-update_one, AtMostOne, AtMostOne-update, AtMostOne-snoc,
  Bool-cases, inl, inr, length, ◌⊎◌, ◌==◌, update, find,
}
use clutch_treasury.Store.{MintIntent, MintStatus, OutboxRow, OutboxStatus, Db}
use clutch_treasury.Intents.{
  Result, ok, err, rejected_by_database, not_found, wrong_status, four_eyes, approve_row,
  approve_mint_intent, find_by_id, has_id, is_approvable, set_approved, enqueue, for_intent, reopen,
  new_outbox_row,
}

-- The CHECK `four_eyes`: an approver is not the initiator.
abbrev pub FourEyes : MintIntent → Type 0
FourEyes i = (by : Text) → i.approved_by ≡ some by → i.created_by ≢ by

-- What an approval leaves: the intent approved by `by` at `now`, every other intent and every other
-- table as it was, and the intent's row of the outbox waiting to be handed to the node.
pub record Approved (now id : ℕ) (by : Text) (i : MintIntent) (db db' : Db) : Type 0 where
  pub intent :
      find_by_id id db'
      ≡ some (record i { status = MintStatus.approved; approved_by = some by; updated_at = now })
  pub others : (k : ℕ) → k ≢ id → find_by_id k db' ≡ find_by_id k db
  pub queued : OutboxRow
  pub in_outbox : find (λ o. o.intent_id == id) db'.chain_outbox ≡ some queued
  pub waits :
      (queued.status ≡ OutboxStatus.pending)
      × (queued.attempts ≡ 0)
      × (queued.next_attempt_at ≡ now)
  pub same_rest :
      (record db' { mint_intents = db.mint_intents; chain_outbox = db.chain_outbox }) ≡ db

-- Every outcome of an approval: it changes nothing and says why, or the intent was `created` or
-- `needs_manual` and is now approved by somebody other than its initiator.
abbrev pub Outcome : ℕ → ℕ → Text → Db → Result MintIntent × Db → Type 0
Outcome now id by db (ok j, db') =
    (i : MintIntent) × (find_by_id id db ≡ some i)
    × ((i.status ≡ MintStatus.created) ⊎ (i.status ≡ MintStatus.needs_manual))
    × (i.created_by ≢ by)
    × (find_by_id id db' ≡ some j)
    × Approved now id by i db db'
Outcome now id by db (err not_found, db') = (find_by_id id db ≡ none) × (db' ≡ db)
Outcome now id by db (err wrong_status, db') =
    ((i : MintIntent) × (find_by_id id db ≡ some i)
      × (i.status ≢ MintStatus.created)
      × (i.status ≢ MintStatus.needs_manual))
    × (db' ≡ db)
Outcome now id by db (err four_eyes, db') =
    ((i : MintIntent) × (find_by_id id db ≡ some i) × (i.created_by ≡ by)) × (db' ≡ db)
Outcome now id by db (err rejected_by_database, db') = ⊥

-- The outbox row of an intent after it is enqueued.
Queued : ℕ → ℕ → List OutboxRow → Type 0
Queued now id rows =
    (o : OutboxRow) × (find (λ r. r.intent_id == id) rows ≡ some o)
    × (o.status ≡ OutboxStatus.pending)
    × (o.attempts ≡ 0)
    × (o.next_attempt_at ≡ now)

approved_db : ℕ → ℕ → Text → Db → Db
approved_db now id by db = record db {
  mint_intents = update (has_id id) (set_approved now by) db.mint_intents;
  chain_outbox = enqueue now id db.chain_outbox;
}

-- The two tables in good order: four eyes on every intent, one intent to an id, one outbox row to
-- an intent.
pub record InOrder (db : Db) : Type 0 where
  pub eyes : All FourEyes db.mint_intents
  pub one_intent : (id : ℕ) → AtMostOne (has_id id) db.mint_intents
  pub one_row : (id : ℕ) → AtMostOne (for_intent id) db.chain_outbox

enqueue-AtMostOne :
    (now id j : ℕ) (rows : List OutboxRow)
    → AtMostOne (for_intent j) rows
    → AtMostOne (for_intent j) (enqueue now id rows)
unfolding enqueue
enqueue-AtMostOne now id j rows h = elim (Bool-cases (exists_row (for_intent id) rows)) [
  | inl old ↦
      rw old
        (AtMostOne-update (for_intent id) (for_intent j) (reopen now) (λ o. ground arith) rows h)
  | inr new ↦ rw new (
      AtMostOne-snoc (for_intent j) rows (new_outbox_row now (suc (length rows)) id) h
        (λ e. let same : id ≡ j = ground arith in rw (← same) new))
]

approve_row-InOrder :
    (now id : ℕ) (by : Text) (o : Option MintIntent) (db : Db)
    → find_by_id id db ≡ o
    → InOrder db
    → InOrder (approve_row now id by o db).1
unfolding approve_row
approve_row-InOrder now id by none db e h = h
approve_row-InOrder now id by (some i) db e h = elim (Bool-cases (is_approvable i.status)) [
  | inl open_intent ↦ elim (Bool-cases (text_eq i.created_by by)) [
    | inl same ↦ rw (open_intent, same) h
    | inr other ↦
        rw (open_intent, other)
          (record {
            eyes =
                All-update_one FourEyes (has_id id) (set_approved now by) db.mint_intents i
                  (h.one_intent id) (unfold find_by_id in e) h.eyes (differs other);
            one_intent = λ j.
                AtMostOne-update (has_id id) (has_id j) (set_approved now by) (λ x. ground arith)
                  db.mint_intents (h.one_intent j);
            one_row = λ j. enqueue-AtMostOne now id j db.chain_outbox (h.one_row j);
          })
  ]
  | inr closed ↦ rw closed h
]
  where
    differs : text_eq i.created_by by ≡ false → FourEyes (set_approved now by i)
    differs other b q same =
        let by_b : by ≡ b = cc in
        let clash : text_eq i.created_by by ≡ true =
          (text_eq_iff i.created_by by).1 (same ∙ sym by_b) in
        absurd (ground arith)

-- Approvals keep the tables in order: nobody approves what they initiated, and a re-approval
-- reopens the one work item of its intent instead of adding a second.
pub approve_mint_intent-InOrder :
    (now id : ℕ) (by : Text) (db : Db) → InOrder db → InOrder (approve_mint_intent now id by db).1
unfolding approve_mint_intent
approve_mint_intent-InOrder now id by db h =
    approve_row-InOrder now id by (find_by_id id db) db refl h
