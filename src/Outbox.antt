-- ===== src/Outbox.antt =====
-- The mint outbox: crates/treasury-service/src/outbox.rs. What the chain answers is an argument:
-- the sync check of the pass, and for each row how far its submission gets (`ChainReply`). The
-- result of a pass carries the mints that were handed to the node.
mod Rows
pub mod Gated
pub mod Attempts
pub mod Denied
unfoldable pub use Rows.*
use clutch_treasury.Base.{
  ℕ, suc, ◌+◌, ◌*◌, ◌^◌, Bool, true, false, ◌&&◌, ◌||◌, not, ◌==◌, Option, none, some, List, [],
  ◌∷◌, ◌++◌, if◌then◌else◌, is_some, Text, codes, contains, update, find, where_rows, length, ltb,
  leb, min,
}
use clutch_treasury.Base.Int.{ℤ}
use clutch_treasury.Store.{
  MintIntent, MintStatus, OutboxRow, OutboxStatus, ApprovalSignature, Db, AppConfig, Notice,
  chain_error, never_confirmed, not_confirmed_in_time, node_behind, waiting_for_signatures,
  failed_for_good, needs_review, p1, outbox,
}
use clutch_treasury.Ledger.{alert}
use clutch_treasury.Breakers.{Verdict, allowed, denied, Denial, check_mint_excluding}
use clutch_treasury.ChainSync.{SyncState, in_sync, behind, primary_unreachable, no_peers_answered}

-- How far the submission of one row gets: the nonce or the signing fails before the node is sent
-- anything; the node takes the transaction, or answers with an error.
pub data ChainReply : Type 0 where
  not_built : Text → ChainReply
  taken : Text → ChainReply
  refused : Text → ChainReply

-- A mint that was handed to the node.
pub record SentMint : Type 0 where
  pub to : Text
  pub amount : ℕ
  pub mint_credit_ref : Text

pub record Pass : Type 0 where
  pub db : Db
  pub sent : List SentMint
  pub processed : ℕ

abbrev pub already_processed : Text
already_processed = codes "already processed"

abbrev sent_mint : WorkItem → SentMint
sent_mint row = record {
  to = row.beneficiary;
  amount = row.amount_clt;
  mint_credit_ref = row.credit_ref;
}

abbrev pub quiet : Db → Pass
quiet db = record { db = db; sent = []; processed = 0 }

unfoldable pub submit : ℕ → WorkItem → ChainReply → Db → Pass
unfolding fail_or_backoff submit_ok mark_submitted_no_hash contains
submit now row (not_built e) db =
    quiet (fail_or_backoff now row.outbox_id row.intent_id row.attempts (chain_error e) db)
submit now row (taken tx_hash) db = record {
  db = submit_ok now row.outbox_id row.intent_id tx_hash db;
  sent = sent_mint row ∷ [];
  processed = 1;
}
submit now row (refused e) db = record {
  db =
      if contains e already_processed
      then mark_submitted_no_hash now row.outbox_id row.intent_id db
      else fail_or_backoff now row.outbox_id row.intent_id row.attempts (chain_error e) db;
  sent = sent_mint row ∷ [];
  processed = 0;
}

abbrev pub max_one : ℕ → ℕ
max_one n = if ltb n 1 then 1 else n

-- `config.effective_mint_threshold()`, against the submitter's signature and the stored ones.
abbrev pub lacks_signatures : AppConfig → ℕ → Db → Bool
lacks_signatures config intent_id db =
    ltb
      (1
        + length (
            where_rows (λ (s : ApprovalSignature). s.intent_id == intent_id)
              db.mint_approval_signatures))
      (max_one config.mint_threshold)

unfoldable pub handle_denial : ℕ → WorkItem → Denial → Db → Db
unfolding needs_manual park_row fail_or_backoff
handle_denial now row d db =
    if d.denied_over_per_tx_cap
    then needs_manual now row d.reason db
    else if is_some row.client_ref
    then park_row now row.outbox_id d.reason db
    else fail_or_backoff now row.outbox_id row.intent_id row.attempts d.reason db

-- The body of the loop of `drain_once`, after the gate has spoken.
unfoldable pub after_gate : AppConfig → ℕ → WorkItem → ChainReply → Verdict → Db → Pass
unfolding handle_denial park_row submit
after_gate config now row reply (denied d) db = quiet (handle_denial now row d db)
after_gate config now row reply allowed db =
    if lacks_signatures config row.intent_id db
    then quiet (park_row now row.outbox_id waiting_for_signatures db)
    else submit now row reply db

unfoldable pub process_row : AppConfig → ℕ → WorkItem → ChainReply → Db → Pass
unfolding after_gate
process_row config now row reply db =
    let (verdict, db') = check_mint_excluding config now row.amount_clt row.intent_id db in
    after_gate config now row reply verdict db'

abbrev pub and_then : Pass → Pass → Pass
and_then a b = record { db = b.db; sent = a.sent ++ b.sent; processed = a.processed + b.processed }

unfoldable pub process_rows : AppConfig → ℕ → (ℕ → ChainReply) → List WorkItem → Db → Pass
unfolding process_row
process_rows config now replies [] db = quiet db
process_rows config now replies (row ∷ rows) db =
    let first = process_row config now row (replies row.outbox_id) db in
    and_then first (process_rows config now replies rows first.db)

unfoldable pub park_all : ℕ → List WorkItem → Db → Db
unfolding park_row
park_all now [] db = db
park_all now (row ∷ rows) db = park_all now rows (park_row now row.outbox_id node_behind db)

-- The arms of the sync check; `stale` is the flag that an alert was raised in this episode, and
-- `none` is a service with no peers configured.
unfoldable pub drain_due :
    AppConfig → ℕ → (ℕ → ChainReply) → Option SyncState → Bool → List WorkItem → Db → Pass × Bool
unfolding process_rows park_all
drain_due config now replies none stale rows db = (process_rows config now replies rows db, stale)
drain_due config now replies (some (behind l primary best)) stale rows db =
    (quiet (park_all now rows (if stale then db else alert now p1 outbox node_behind db)), true)
drain_due config now replies (some (in_sync l)) stale rows db =
    (process_rows config now replies rows db, false)
drain_due config now replies (some s) stale rows db =
    (process_rows config now replies rows db, stale)

unfoldable pub drain_once :
    AppConfig → ℕ → (ℕ → ChainReply) → Option SyncState → Bool → Db → Pass × Bool
unfolding requeue_stuck_submissions due_items drain_due
drain_once config now replies sync stale db =
    let db' = requeue_stuck_submissions now db in
    drain_due config now replies sync stale (due_items now db') db'
