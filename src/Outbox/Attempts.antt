-- ===== src/Outbox/Attempts.antt =====
-- The retries of an outbox row are bounded (outbox.rs: `requeue_stuck_submissions`,
-- `fail_or_backoff`).
use clutch_treasury.Base.{
  ℕ, ◌+◌, ◌≤◌, ◌≡◌, Bool, true, false, Option, none, some, List, [], ◌∷◌, arith, All, All-update,
  where_rows, leb, Bool-cases, inl, inr, contains, Text, is_some,
}
use clutch_treasury.Store.{
  Db, OutboxRow, Notice, AppConfig, waiting_for_signatures, node_behind, p1, outbox,
}
use clutch_treasury.Ledger.{alert}
use clutch_treasury.ChainSync.{SyncState, in_sync, behind, primary_unreachable, no_peers_answered}
use clutch_treasury.Breakers.{Denial, Verdict, allowed, denied, check_mint_excluding}
use clutch_treasury.Outbox.{
  WorkItem, ChainReply, not_built, taken, refused, handle_denial, fail_or_backoff, park_row,
  needs_manual, after_gate, process_row, process_rows, park_all, drain_due, drain_once, requeue_one,
  requeue_all, requeue_stuck_submissions, is_pending, is_stuck, is_due, join_intents, due_items,
  submit, lacks_signatures, submit_ok, mark_submitted_no_hash, already_processed,
}

-- A row that may be tried again has used ten attempts at most, and no row has used more than
-- eleven: the last one may follow a submission that was never confirmed.
abbrev pub IsBounded : OutboxRow → Type 0
IsBounded o = (is_pending o.status ≡ true → o.attempts ≤ 10) × (o.attempts ≤ 11)

abbrev pub Bounded : Db → Type 0
Bounded db = All IsBounded db.chain_outbox

requeue_one-Bounded :
    (now : ℕ) (o : OutboxRow) (db : Db) → Bounded db → Bounded (requeue_one now o db)
unfolding requeue_one
requeue_one-Bounded now o db h = elim (Bool-cases (leb 10 o.attempts)) [
  | inl spent ↦ rw spent (All-update IsBounded _ _ (λ x b e. ground arith) db.chain_outbox h)
  | inr left ↦ rw left (All-update IsBounded _ _ (λ x b e. ground arith) db.chain_outbox h)
]

requeue_all-Bounded :
    (now : ℕ) (rows : List OutboxRow) (db : Db) → Bounded db → Bounded (requeue_all now rows db)
unfolding requeue_all
requeue_all-Bounded now [] db h = h
requeue_all-Bounded now (o ∷ rows) db h =
    requeue_all-Bounded now rows (requeue_one now o db) (requeue_one-Bounded now o db h)

fail_or_backoff-Bounded :
    (now o i prior : ℕ) (r : Notice) (db : Db)
    → prior ≤ 10
    → Bounded db
    → Bounded (fail_or_backoff now o i prior r db)
unfolding fail_or_backoff
fail_or_backoff-Bounded now o i prior r db p h = elim (Bool-cases (leb 10 (prior + 1))) [
  | inl spent ↦ rw spent (All-update IsBounded _ _ (λ x b e. ground arith) db.chain_outbox h)
  | inr left ↦ rw left (All-update IsBounded _ _ (λ x b e. ground arith) db.chain_outbox h)
]

submitted-Bounded :
    (now o i : ℕ) (t : Text) (db : Db)
    → Bounded db
    → Bounded (submit_ok now o i t db) × Bounded (mark_submitted_no_hash now o i db)
unfolding submit_ok mark_submitted_no_hash
submitted-Bounded now o i t db h = (
  All-update IsBounded _ _ (λ x b e. ground arith) db.chain_outbox h,
  All-update IsBounded _ _ (λ x b e. ground arith) db.chain_outbox h,
)

submit-Bounded :
    (now : ℕ) (row : WorkItem) (reply : ChainReply) (db : Db)
    → row.attempts ≤ 10
    → Bounded db
    → Bounded (submit now row reply db).db
unfolding submit
submit-Bounded now row (not_built e) db p h =
    fail_or_backoff-Bounded now row.outbox_id row.intent_id row.attempts _ db p h
submit-Bounded now row (taken t) db p h =
    (submitted-Bounded now row.outbox_id row.intent_id t db h).0
submit-Bounded now row (refused e) db p h = elim (Bool-cases (contains e already_processed)) [
  | inl landed ↦ rw landed (submitted-Bounded now row.outbox_id row.intent_id e db h).1
  | inr failed ↦
      rw failed (fail_or_backoff-Bounded now row.outbox_id row.intent_id row.attempts _ db p h)
]

park_row-Bounded : (now o : ℕ) (r : Notice) (db : Db) → Bounded db → Bounded (park_row now o r db)
unfolding park_row
park_row-Bounded now o r db h = All-update IsBounded _ _ (λ x b e. ground arith) db.chain_outbox h

handle_denial-Bounded :
    (now : ℕ) (row : WorkItem) (d : Denial) (db : Db)
    → row.attempts ≤ 10
    → Bounded db
    → Bounded (handle_denial now row d db)
unfolding handle_denial needs_manual
handle_denial-Bounded now row d db p h = elim (Bool-cases d.denied_over_per_tx_cap) [
  | inl over ↦ rw over (All-update IsBounded _ _ (λ x b e. ground arith) db.chain_outbox h)
  | inr small ↦ elim (Bool-cases (is_some row.client_ref)) [
    | inl deposit ↦ rw (small, deposit) (park_row-Bounded now row.outbox_id d.reason db h)
    | inr manual ↦
        rw (small, manual)
          (fail_or_backoff-Bounded now row.outbox_id row.intent_id row.attempts d.reason db p h)
  ]
]

after_gate-Bounded :
    (config : AppConfig) (now : ℕ) (row : WorkItem) (reply : ChainReply) (v : Verdict) (db : Db)
    → row.attempts ≤ 10
    → Bounded db
    → Bounded (after_gate config now row reply v db).db
unfolding after_gate
after_gate-Bounded config now row reply (denied d) db p h = handle_denial-Bounded now row d db p h
after_gate-Bounded config now row reply allowed db p h =
    elim (Bool-cases (lacks_signatures config row.intent_id db)) [
      | inl lacks ↦ rw lacks (park_row-Bounded now row.outbox_id waiting_for_signatures db h)
      | inr enough ↦ rw enough (submit-Bounded now row reply db p h)
    ]

check-outbox :
    (config : AppConfig) (now amount id : ℕ) (db : Db)
    → (check_mint_excluding config now amount id db).1.chain_outbox ≡ db.chain_outbox
unfolding check_mint_excluding
check-outbox config now amount id db = ground arith

process_rows-Bounded :
    (config : AppConfig) (now : ℕ) (replies : ℕ → ChainReply) (rows : List WorkItem) (db : Db)
    → All (λ (r : WorkItem). r.attempts ≤ 10) rows
    → Bounded db
    → Bounded (process_rows config now replies rows db).db
unfolding process_rows process_row
process_rows-Bounded config now replies [] db p h = h
process_rows-Bounded config now replies (row ∷ rows) db p h =
    process_rows-Bounded config now replies rows _ p.1 (
      after_gate-Bounded config now row (replies row.outbox_id) _ _ p.0
        (rw (check-outbox config now row.amount_clt row.intent_id db) h))

park_all-Bounded :
    (now : ℕ) (rows : List WorkItem) (db : Db) → Bounded db → Bounded (park_all now rows db)
unfolding park_all
park_all-Bounded now [] db h = h
park_all-Bounded now (row ∷ rows) db h =
    park_all-Bounded now rows _ (park_row-Bounded now row.outbox_id node_behind db h)

join_intents-attempts :
    (now : ℕ) (db : Db) (rows : List OutboxRow)
    → All IsBounded rows
    → All (λ (r : WorkItem). r.attempts ≤ 10) (join_intents db (where_rows (is_due now) rows))
unfolding join_intents where_rows
join_intents-attempts now db [] h = tt
join_intents-attempts now db (o ∷ rows) h = ground (arith, join_intents-attempts now db rows h.1)

drain_due-Bounded :
    (config : AppConfig) (now : ℕ) (replies : ℕ → ChainReply) (sync : Option SyncState)
    (stale : Bool) (rows : List WorkItem) (db : Db)
    → All (λ (r : WorkItem). r.attempts ≤ 10) rows
    → Bounded db
    → Bounded (drain_due config now replies sync stale rows db).0.db
unfolding drain_due
drain_due-Bounded config now replies none stale rows db p h =
    process_rows-Bounded config now replies rows db p h
drain_due-Bounded config now replies (some (behind l b c)) true rows db p h =
    park_all-Bounded now rows db h
drain_due-Bounded config now replies (some (behind l b c)) false rows db p h =
    park_all-Bounded now rows (alert now p1 outbox node_behind db) h
drain_due-Bounded config now replies (some (in_sync l)) stale rows db p h =
    process_rows-Bounded config now replies rows db p h
drain_due-Bounded config now replies (some primary_unreachable) stale rows db p h =
    process_rows-Bounded config now replies rows db p h
drain_due-Bounded config now replies (some no_peers_answered) stale rows db p h =
    process_rows-Bounded config now replies rows db p h

-- A pass of the outbox, whatever the chain answers, never retries beyond the limit: a row that is
-- still pending has used at most ten attempts, and no row more than eleven.
pub drain_once-Bounded :
    (config : AppConfig) (now : ℕ) (replies : ℕ → ChainReply) (sync : Option SyncState)
    (stale : Bool) (db : Db)
    → Bounded db
    → Bounded (drain_once config now replies sync stale db).0.db
unfolding drain_once requeue_stuck_submissions due_items
drain_once-Bounded config now replies sync stale db h =
    drain_due-Bounded config now replies sync stale _ _
      (join_intents-attempts now (requeue_all now stuck db) (requeue_all now stuck db).chain_outbox
        rescued)
      rescued
  where
    stuck : List OutboxRow
    stuck = where_rows (is_stuck now db) db.chain_outbox

    rescued : Bounded (requeue_all now stuck db)
    rescued = requeue_all-Bounded now stuck db h
