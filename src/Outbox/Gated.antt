-- ===== src/Outbox/Gated.antt =====
-- Nothing is handed to the node past the gate (outbox.rs, `drain_once`).
use clutch_treasury.Base.{
  ℕ, ◌≡◌, ◌≢◌, ◌⊎◌, refl, ◌∙◌, Bool, true, false, Option, none, some, List, [], ◌∷◌, arith, All,
  All-append, Bool-cases, inl, inr, where_rows,
}
use clutch_treasury.Base.Int.{pos, ◌≤ℤ◌}
use clutch_treasury.Store.{Db, AppConfig, OutboxRow, Run, mismatch, Notice}
use clutch_treasury.Breakers.{Verdict, allowed, denied, check_mint_inner, check_mint_excluding}
use clutch_treasury.Breakers.Gate.{check_mint_inner-allowed_iff}
use clutch_treasury.Breakers.Latest.{IsLatest}
use clutch_treasury.ChainSync.{SyncState, in_sync, behind, primary_unreachable, no_peers_answered}
use clutch_treasury.Outbox.{
  WorkItem, ChainReply, not_built, taken, refused, SentMint, submit, after_gate, process_row,
  process_rows, drain_due, drain_once, requeue_one, requeue_all, requeue_stuck_submissions,
  fail_or_backoff, is_stuck, lacks_signatures,
}

-- What no step of a pass undoes: a halt stays, and the reconciliation runs are only read.
pub record Keeps (db db' : Db) : Type 0 where
  pub halt_stays : db.breaker_state.minting_halted ≡ true → db'.breaker_state.minting_halted ≡ true
  pub same_runs : db'.reconciliation_runs ≡ db.reconciliation_runs

Keeps-refl : (db : Db) → Keeps db db
Keeps-refl db = record { halt_stays = λ h. h; same_runs = refl }

Keeps-trans : {a b c : Db} → Keeps a b → Keeps b c → Keeps a c
Keeps-trans h k = record {
  halt_stays = λ e. k.halt_stays (h.halt_stays e);
  same_runs = k.same_runs ∙ h.same_runs;
}

check-Keeps :
    (config : AppConfig) (now amount id : ℕ) (db : Db)
    → Keeps db (check_mint_excluding config now amount id db).1
unfolding check_mint_excluding
check-Keeps config now amount id db = record {
  halt_stays = λ h. ground arith;
  same_runs = ground arith;
}

fail_or_backoff-Keeps :
    (now o i prior : ℕ) (r : Notice) (db : Db) → Keeps db (fail_or_backoff now o i prior r db)
unfolding fail_or_backoff
fail_or_backoff-Keeps now o i prior r db = record {
  halt_stays = λ h. ground arith;
  same_runs = ground arith;
}

after_gate-Keeps :
    (config : AppConfig) (now : ℕ) (row : WorkItem) (reply : ChainReply) (v : Verdict) (db : Db)
    → Keeps db (after_gate config now row reply v db).db
unfolding after_gate
after_gate-Keeps config now row (not_built e) v db = record {
  halt_stays = λ h. ground arith;
  same_runs = ground arith;
}
after_gate-Keeps config now row (taken e) v db = record {
  halt_stays = λ h. ground arith;
  same_runs = ground arith;
}
after_gate-Keeps config now row (refused e) v db = record {
  halt_stays = λ h. ground arith;
  same_runs = ground arith;
}

process_row-Keeps :
    (config : AppConfig) (now : ℕ) (row : WorkItem) (reply : ChainReply) (db : Db)
    → Keeps db (process_row config now row reply db).db
unfolding process_row
process_row-Keeps config now row reply db =
    Keeps-trans (check-Keeps config now row.amount_clt row.intent_id db)
      (after_gate-Keeps config now row reply _ _)

-- What the gate of the database `db` leaves true of every mint that a pass over it sends.
pub record Gated (config : AppConfig) (now : ℕ) (db : Db) (m : SentMint) : Type 0 where
  pub under_tx_cap : pos m.amount ≤ℤ config.per_tx_mint_cap_clt
  pub not_halted : db.breaker_state.minting_halted ≡ false
  pub reconciled : (r : Run) × IsLatest now db.reconciliation_runs r × (r.status ≢ mismatch)

after_gate-sent :
    (config : AppConfig) (now : ℕ) (row : WorkItem) (reply : ChainReply) (v : Verdict) (db : Db)
    → ((after_gate config now row reply v db).sent ≡ [])
      ⊎ ((v ≡ allowed)
          × All (λ m. m.amount ≡ row.amount_clt) (after_gate config now row reply v db).sent)
unfolding after_gate
after_gate-sent config now row reply (denied d) db = inl refl
after_gate-sent config now row reply allowed db =
    elim (Bool-cases (lacks_signatures config row.intent_id db)) [
      | inl lacks ↦ rw (lacks) (inl refl)
      | inr enough ↦ rw enough (inr (refl, by_reply reply))
    ]
  where
    by_reply :
        (reply : ChainReply) → All (λ m. m.amount ≡ row.amount_clt) (submit now row reply db).sent
    by_reply (not_built e) = tt
    by_reply (taken e) = (refl, tt)
    by_reply (refused e) = (refl, tt)

process_row-Gated :
    (config : AppConfig) (now : ℕ) (row : WorkItem) (reply : ChainReply) (db : Db)
    → All (Gated config now db) (process_row config now row reply db).sent
unfolding process_row check_mint_excluding
process_row-Gated config now row reply db = sent_gated (after_gate-sent config now row reply _ _)
  where
    v : Verdict × Db
    v = check_mint_inner config now row.amount_clt (some row.intent_id) db

    gated : v.0 ≡ allowed → (m : SentMint) → m.amount ≡ row.amount_clt → Gated config now db m
    gated e m same =
        let h =
          (check_mint_inner-allowed_iff config now row.amount_clt (some row.intent_id) db).0 e in
        record {
          under_tx_cap = rw same h.under_tx_cap;
          not_halted = h.not_halted;
          reconciled = (h.last_run, h.is_latest, h.no_mismatch);
        }

    all_gated :
        v.0 ≡ allowed
        → (ms : List SentMint) → All (λ m. m.amount ≡ row.amount_clt) ms
        → All (Gated config now db) ms
    all_gated e [] a = tt
    all_gated e (m ∷ ms) a = (gated e m a.0, all_gated e ms a.1)

    sent_gated :
        ((after_gate config now row reply v.0 v.1).sent ≡ [])
          ⊎ ((v.0 ≡ allowed)
              × All (λ m. m.amount ≡ row.amount_clt) (after_gate config now row reply v.0 v.1).sent)
        → All (Gated config now db) (after_gate config now row reply v.0 v.1).sent
    sent_gated (inl none_sent) = rw none_sent tt
    sent_gated (inr (e, a)) = all_gated e _ a

-- A gate passed later was passed under the conditions of the start as well.
Gated-before :
    (config : AppConfig) (now : ℕ) (db db' : Db) (m : SentMint)
    → Keeps db db'
    → Gated config now db' m
    → Gated config now db m
Gated-before config now db db' m k g = record {
  under_tx_cap = g.under_tx_cap;
  not_halted = elim (Bool-cases db.breaker_state.minting_halted) [
    | inl halted ↦ absurd (clash (k.halt_stays halted) g.not_halted)
    | inr running ↦ running
  ];
  reconciled = rw (← k.same_runs) g.reconciled;
}
  where
    clash : db'.breaker_state.minting_halted ≡ true → db'.breaker_state.minting_halted ≡ false → ⊥
    clash p q = cc

All-before :
    (config : AppConfig) (now : ℕ) (db db' : Db) (ms : List SentMint)
    → Keeps db db'
    → All (Gated config now db') ms
    → All (Gated config now db) ms
All-before config now db db' [] k a = tt
All-before config now db db' (m ∷ ms) k a =
    (Gated-before config now db db' m k a.0, All-before config now db db' ms k a.1)

process_rows-Gated :
    (config : AppConfig) (now : ℕ) (replies : ℕ → ChainReply) (rows : List WorkItem) (db : Db)
    → All (Gated config now db) (process_rows config now replies rows db).sent
unfolding process_rows
process_rows-Gated config now replies [] db = tt
process_rows-Gated config now replies (row ∷ rows) db =
    All-append (Gated config now db) _ _
      (process_row-Gated config now row (replies row.outbox_id) db)
      (All-before config now db _ _ (process_row-Keeps config now row (replies row.outbox_id) db)
        (process_rows-Gated config now replies rows _))

requeue_all-Keeps : (now : ℕ) (rows : List OutboxRow) (db : Db) → Keeps db (requeue_all now rows db)
unfolding requeue_all
requeue_all-Keeps now [] db = Keeps-refl db
requeue_all-Keeps now (o ∷ rows) db =
    Keeps-trans (one o) (requeue_all-Keeps now rows (requeue_one now o db))
  where
    one : (o : OutboxRow) → Keeps db (requeue_one now o db)
    one o = record { halt_stays = λ h. ground arith; same_runs = ground arith }

drain_due-Gated :
    (config : AppConfig) (now : ℕ) (replies : ℕ → ChainReply) (sync : Option SyncState)
    (stale : Bool) (rows : List WorkItem) (db : Db)
    → All (Gated config now db) (drain_due config now replies sync stale rows db).0.sent
unfolding drain_due
drain_due-Gated config now replies none stale rows db =
    process_rows-Gated config now replies rows db
drain_due-Gated config now replies (some (behind l p b)) stale rows db = tt
drain_due-Gated config now replies (some (in_sync l)) stale rows db =
    process_rows-Gated config now replies rows db
drain_due-Gated config now replies (some primary_unreachable) stale rows db =
    process_rows-Gated config now replies rows db
drain_due-Gated config now replies (some no_peers_answered) stale rows db =
    process_rows-Gated config now replies rows db

-- Every mint that a pass of the outbox hands to the node, whatever the node answers, is within the
-- per-transaction cap, and at the start of the pass minting was not halted and the latest
-- reconciliation run of 48 hours existed and was no mismatch.
pub drain_once-Gated :
    (config : AppConfig) (now : ℕ) (replies : ℕ → ChainReply) (sync : Option SyncState)
    (stale : Bool) (db : Db)
    → All (Gated config now db) (drain_once config now replies sync stale db).0.sent
unfolding drain_once requeue_stuck_submissions
drain_once-Gated config now replies sync stale db =
    All-before config now db _ _
      (requeue_all-Keeps now (where_rows (is_stuck now db) db.chain_outbox) db)
      (drain_due-Gated config now replies sync stale _ _)

-- A pass on a node that has fallen behind its peers hands nothing to it.
pub drain_once-behind :
    (config : AppConfig) (now l primary best : ℕ) (replies : ℕ → ChainReply) (stale : Bool)
    (db : Db)
    → let (pass, alerted) = drain_once config now replies (some (behind l primary best)) stale db in
      (pass.sent ≡ []) × (pass.processed ≡ 0) × (alerted ≡ true)
unfolding drain_once
drain_once-behind config now l primary best replies stale db = (refl, refl, refl)
