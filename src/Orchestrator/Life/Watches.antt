-- ===== src/Orchestrator/Life/Watches.antt =====
-- What the passes of crates/payment-orchestrator/src/direct.rs and bsc_watch.rs do to the deposits.
use clutch_treasury.Base.{
  ℕ, ◌≡◌, inl, inr, refl, false, Option, none, some, List, [], ◌∷◌, Bool-cases, arith, Text,
}
use clutch_treasury.Base.Int.{ℤ, pos, pos_part, leb_ℤ}
use clutch_treasury.Orchestrator.Store.{DirectPayer, OrchDb, ObservedTransfer}
use clutch_treasury.Orchestrator.Custody.{CustodyWatcher}
use clutch_treasury.Orchestrator.Tiered.{since}
use clutch_treasury.Orchestrator.Poller.{or_now}
use clutch_treasury.Orchestrator.Direct.{
  is_unattributed, payer_for, is_our_deposit_address, report_unattributed, unclaimed, from_payer,
  handle, is_foreign, handle_ours, handle_all, open_watch, watermark, stamp_watch, after_read,
  credit_direct, credit, asked_first, direct_row,
}
use clutch_treasury.Orchestrator.Life.{Change, IsNew, then_on}
use clutch_treasury.Orchestrator.Life as Life
use clutch_treasury.Orchestrator.Life.Writes.{Changes, Changes-refl}
use clutch_treasury.Orchestrator.Life.Polls.{inserted-Changes}

report-Changes :
    (now : ℕ) (pay_to : Text) (t : ObservedTransfer) (db : OrchDb)
    → Changes db (report_unattributed now pay_to t db)
unfolding report_unattributed
report-Changes now pay_to t db = Life.unchanged (ground arith)

unclaimed-Changes :
    (now : ℕ) (pay_to : Text) (t : ObservedTransfer) (db : OrchDb)
    → Changes db (unclaimed now pay_to t db)
unclaimed-Changes now pay_to t db = elim (Bool-cases (is_our_deposit_address t.from db)) [
  | inl ours ↦ rw ours (Changes-refl db)
  | inr theirs ↦ rw theirs (report-Changes now pay_to t db)
]

credit-Changes :
    (now id : ℕ) (time_of : ℤ → Option ℤ) (p : DirectPayer) (t : ObservedTransfer) (db : OrchDb)
    → leb_ℤ t.amount_usdt (pos 0) ≡ false
    → Changes db (credit now id time_of p t db).1
unfolding credit
credit-Changes now id time_of p t db real =
    inserted-Changes t.tx_id
      (direct_row now id (or_now now (time_of t.block_timestamp)) p.user_pk p.clt_address t) refl
      (record {
        arrived = pos_part t.amount_usdt;
        positive = ground arith;
        is_confirmed = refl;
        is_received = refl;
        same_clt = refl;
      })
      db

from_payer-Changes :
    (now id : ℕ) (time_of : ℤ → Option ℤ) (pay_to : Text) (t : ObservedTransfer)
    (o : Option DirectPayer) (db : OrchDb)
    → leb_ℤ t.amount_usdt (pos 0) ≡ false
    → Changes db (from_payer now id time_of pay_to t o db)
from_payer-Changes now id time_of pay_to t none db real = unclaimed-Changes now pay_to t db
from_payer-Changes now id time_of pay_to t (some p) db real = elim (Bool-cases (asked_first t p)) [
  | inl asked ↦ rw asked (credit-Changes now id time_of p t db real)
  | inr late ↦ rw late (unclaimed-Changes now pay_to t db)
]

handle-Changes :
    (now id : ℕ) (time_of : ℤ → Option ℤ) (pay_to : Text) (t : ObservedTransfer) (db : OrchDb)
    → leb_ℤ t.amount_usdt (pos 0) ≡ false
    → Changes db (handle now id time_of pay_to t db)
unfolding handle
handle-Changes now id time_of pay_to t db real =
    elim (Bool-cases (is_unattributed t.tx_id db.direct_unattributed)) [
      | inl known ↦ rw known (Changes-refl db)
      | inr unknown ↦
          rw unknown (from_payer-Changes now id time_of pay_to t (payer_for t.from db) db real)
    ]

handle_ours-Changes :
    (now id : ℕ) (time_of : ℤ → Option ℤ) (pay_to usdt_contract : Text) (t : ObservedTransfer)
    (db : OrchDb)
    → Changes db (handle_ours now id time_of pay_to usdt_contract t db)
unfolding handle_ours
handle_ours-Changes now id time_of pay_to usdt_contract t db =
    elim (Bool-cases (is_foreign pay_to usdt_contract t)) [
      | inl foreign ↦ rw foreign (Changes-refl db)
      | inr ours ↦ rw ours (handle-Changes now id time_of pay_to t db (ground arith))
    ]

handle_all-Changes :
    (now : ℕ) (fresh : Text → ℕ) (time_of : ℤ → Option ℤ) (pay_to usdt_contract : Text)
    (ts : List ObservedTransfer) (db : OrchDb)
    → Changes db (handle_all now fresh time_of pay_to usdt_contract ts db)
unfolding handle_all
handle_all-Changes now fresh time_of pay_to usdt_contract [] db = Changes-refl db
handle_all-Changes now fresh time_of pay_to usdt_contract (t ∷ ts) db =
    then_on (handle_ours-Changes now (fresh t.tx_id) time_of pay_to usdt_contract t db) (
      handle_all-Changes now fresh time_of pay_to usdt_contract ts
        (handle_ours now (fresh t.tx_id) time_of pay_to usdt_contract t db))

after_read-Changes :
    (now : ℕ) (fresh : Text → ℕ) (time_of : ℤ → Option ℤ) (pay_to usdt_contract : Text)
    (read : Option (List ObservedTransfer)) (db : OrchDb)
    → Changes db (after_read now fresh time_of pay_to usdt_contract read db)
unfolding stamp_watch
after_read-Changes now fresh time_of pay_to usdt_contract none db = Changes-refl db
after_read-Changes now fresh time_of pay_to usdt_contract (some ts) db =
    then_on (handle_all-Changes now fresh time_of pay_to usdt_contract ts db) (Life.unchanged refl)

open_watch-deposits :
    (pay_to : Text) (db : OrchDb) → (open_watch pay_to db).deposit_intents ≡ db.deposit_intents
unfolding open_watch
open_watch-deposits pay_to db = ground arith

pub credit_direct-Changes :
    (now : ℕ) (fresh : Text → ℕ) (time_of : ℤ → Option ℤ) (watcher : CustodyWatcher)
    (pay_to usdt_contract : Text) (db : OrchDb)
    → Changes db (credit_direct now fresh time_of watcher pay_to usdt_contract db)
unfolding credit_direct
credit_direct-Changes now fresh time_of watcher pay_to usdt_contract db =
    then_on (Life.unchanged (open_watch-deposits pay_to db)) (
      after_read-Changes now fresh time_of pay_to usdt_contract
        (watcher pay_to (since (watermark pay_to (open_watch pay_to db)))) (open_watch pay_to db))
