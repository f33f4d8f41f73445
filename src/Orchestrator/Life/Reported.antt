-- ===== src/Orchestrator/Life/Reported.antt =====
-- A transfer that a human was told of is not credited later (crates/payment-orchestrator/src/
-- direct.rs).
use clutch_treasury.Base.{
  ℕ, ◌≡◌, inl, inr, ◌∙◌, ap, true, false, Option, none, some, List, [], ◌∷◌, Bool-cases, arith,
  Text, text_eq, text_eq_iff, option_text_eq, exists_row, exists_row-append,
}
use clutch_treasury.Base.Int.{ℤ}
use clutch_treasury.Orchestrator.Store.{DirectPayer, Unattributed, OrchDb, ObservedTransfer}
use clutch_treasury.Orchestrator.Deposits.{has_tx, insert_deposit}
use clutch_treasury.Orchestrator.Custody.{CustodyWatcher}
use clutch_treasury.Orchestrator.Tiered.{since}
use clutch_treasury.Orchestrator.Poller.{or_now}
use clutch_treasury.Orchestrator.Direct.{
  is_unattributed, payer_for, is_our_deposit_address, unattributed_row, report_unattributed,
  unclaimed, from_payer, handle, is_foreign, handle_ours, handle_all, open_watch, watermark,
  stamp_watch, after_read, credit_direct, credit, asked_first, direct_row,
}

-- The transfer was reported, and no deposit is for it.
pub record IsReported (tx_id : Text) (db : OrchDb) : Type 0 where
  pub listed : is_unattributed tx_id db.direct_unattributed ≡ true
  pub uncredited : exists_row (has_tx tx_id) db.deposit_intents ≡ false

report-IsReported :
    (now : ℕ) (pay_to tx_id : Text) (t : ObservedTransfer) (db : OrchDb)
    → IsReported tx_id db
    → IsReported tx_id (report_unattributed now pay_to t db)
unfolding report_unattributed is_unattributed
report-IsReported now pay_to tx_id t db h = record {
  listed = ground (
    arith,
    h.listed,
    exists_row-append (λ (u : Unattributed). text_eq u.tx_id tx_id) db.direct_unattributed
        (unattributed_row t ∷ []),
  );
  uncredited = ground (arith, h.uncredited);
}

-- The row of another transaction.
credit-IsReported :
    (now id : ℕ) (time_of : ℤ → Option ℤ) (p : DirectPayer) (tx_id : Text) (t : ObservedTransfer)
    (db : OrchDb)
    → text_eq t.tx_id tx_id ≡ false
    → IsReported tx_id db
    → IsReported tx_id (credit now id time_of p t db).1
unfolding credit insert_deposit exists_row option_text_eq
credit-IsReported now id time_of p tx_id t db apart h = record {
  listed = ground (arith, h.listed);
  uncredited = ground (
    arith,
    h.uncredited,
    exists_row-append (has_tx tx_id) db.deposit_intents
        (direct_row now id (or_now now (time_of t.block_timestamp)) p.user_pk p.clt_address t ∷ []),
  );
}

unclaimed-IsReported :
    (now : ℕ) (pay_to tx_id : Text) (t : ObservedTransfer) (db : OrchDb)
    → IsReported tx_id db
    → IsReported tx_id (unclaimed now pay_to t db)
unclaimed-IsReported now pay_to tx_id t db h =
    elim (Bool-cases (is_our_deposit_address t.from db)) [
      | inl ours ↦ rw ours h
      | inr theirs ↦ rw theirs (report-IsReported now pay_to tx_id t db h)
    ]

from_payer-IsReported :
    (now id : ℕ) (time_of : ℤ → Option ℤ) (pay_to tx_id : Text) (t : ObservedTransfer)
    (o : Option DirectPayer) (db : OrchDb)
    → text_eq t.tx_id tx_id ≡ false
    → IsReported tx_id db
    → IsReported tx_id (from_payer now id time_of pay_to t o db)
from_payer-IsReported now id time_of pay_to tx_id t none db apart h =
    unclaimed-IsReported now pay_to tx_id t db h
from_payer-IsReported now id time_of pay_to tx_id t (some p) db apart h =
    elim (Bool-cases (asked_first t p)) [
      | inl asked ↦ rw asked (credit-IsReported now id time_of p tx_id t db apart h)
      | inr late ↦ rw late (unclaimed-IsReported now pay_to tx_id t db h)
    ]

handle-IsReported :
    (now id : ℕ) (time_of : ℤ → Option ℤ) (pay_to tx_id : Text) (t : ObservedTransfer) (db : OrchDb)
    → IsReported tx_id db
    → IsReported tx_id (handle now id time_of pay_to t db)
unfolding handle
handle-IsReported now id time_of pay_to tx_id t db h =
    elim (Bool-cases (is_unattributed t.tx_id db.direct_unattributed)) [
      | inl known ↦ rw known h
      | inr unknown ↦ rw unknown (
          from_payer-IsReported now id time_of pay_to tx_id t (payer_for t.from db) db
            (apart unknown) h)
    ]
  where
    apart : is_unattributed t.tx_id db.direct_unattributed ≡ false → text_eq t.tx_id tx_id ≡ false
    apart unknown = elim (Bool-cases (text_eq t.tx_id tx_id)) [
      | inl same ↦
          let is_tx : t.tx_id ≡ tx_id = (text_eq_iff t.tx_id tx_id).0 same in
          let clash : is_unattributed t.tx_id db.direct_unattributed ≡ true =
            ap (λ x. is_unattributed x db.direct_unattributed) is_tx ∙ h.listed in
          absurd (ground arith)
      | inr other ↦ other
    ]

handle_ours-IsReported :
    (now id : ℕ) (time_of : ℤ → Option ℤ) (pay_to usdt_contract tx_id : Text) (t : ObservedTransfer)
    (db : OrchDb)
    → IsReported tx_id db
    → IsReported tx_id (handle_ours now id time_of pay_to usdt_contract t db)
unfolding handle_ours
handle_ours-IsReported now id time_of pay_to usdt_contract tx_id t db h =
    elim (Bool-cases (is_foreign pay_to usdt_contract t)) [
      | inl foreign ↦ rw foreign h
      | inr ours ↦ rw ours (handle-IsReported now id time_of pay_to tx_id t db h)
    ]

handle_all-IsReported :
    (now : ℕ) (fresh : Text → ℕ) (time_of : ℤ → Option ℤ) (pay_to usdt_contract tx_id : Text)
    (ts : List ObservedTransfer) (db : OrchDb)
    → IsReported tx_id db
    → IsReported tx_id (handle_all now fresh time_of pay_to usdt_contract ts db)
unfolding handle_all
handle_all-IsReported now fresh time_of pay_to usdt_contract tx_id [] db h = h
handle_all-IsReported now fresh time_of pay_to usdt_contract tx_id (t ∷ ts) db h =
    handle_all-IsReported now fresh time_of pay_to usdt_contract tx_id ts
      (handle_ours now (fresh t.tx_id) time_of pay_to usdt_contract t db)
      (handle_ours-IsReported now (fresh t.tx_id) time_of pay_to usdt_contract tx_id t db h)

after_read-IsReported :
    (now : ℕ) (fresh : Text → ℕ) (time_of : ℤ → Option ℤ) (pay_to usdt_contract tx_id : Text)
    (read : Option (List ObservedTransfer)) (db : OrchDb)
    → IsReported tx_id db
    → IsReported tx_id (after_read now fresh time_of pay_to usdt_contract read db)
unfolding stamp_watch
after_read-IsReported now fresh time_of pay_to usdt_contract tx_id none db h = h
after_read-IsReported now fresh time_of pay_to usdt_contract tx_id (some ts) db h =
    let kept = handle_all-IsReported now fresh time_of pay_to usdt_contract tx_id ts db h in
    record { listed = kept.listed; uncredited = kept.uncredited }

opened-IsReported :
    (pay_to tx_id : Text) (db : OrchDb)
    → IsReported tx_id db
    → IsReported tx_id (open_watch pay_to db)
unfolding open_watch
opened-IsReported pay_to tx_id db h = record {
  listed = ground (arith, h.listed);
  uncredited = ground (arith, h.uncredited);
}

-- A transfer that was reported as nobody's, with no deposit for it, stays so through any pass of
-- the sender watch, whoever has asked for a top-up since: a refund is not followed by a mint.
pub credit_direct-IsReported :
    (now : ℕ) (fresh : Text → ℕ) (time_of : ℤ → Option ℤ) (watcher : CustodyWatcher)
    (pay_to usdt_contract tx_id : Text) (db : OrchDb)
    → IsReported tx_id db
    → IsReported tx_id (credit_direct now fresh time_of watcher pay_to usdt_contract db)
unfolding credit_direct
credit_direct-IsReported now fresh time_of watcher pay_to usdt_contract tx_id db h =
    after_read-IsReported now fresh time_of pay_to usdt_contract tx_id
      (watcher pay_to (since (watermark pay_to (open_watch pay_to db)))) (open_watch pay_to db)
      (opened-IsReported pay_to tx_id db h)
