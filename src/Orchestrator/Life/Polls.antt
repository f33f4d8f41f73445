-- ===== src/Orchestrator/Life/Polls.antt =====
-- What a pass of crates/payment-orchestrator/src/poller.rs does to the deposits.
use clutch_treasury.Base.{
  ℕ, ◌≡◌, inl, inr, refl, true, Option, none, some, List, [], ◌∷◌, Bool-cases, arith, Text, text_eq,
}
use clutch_treasury.Base.Int.{ℤ, pos, pos_part, leb_ℤ}
use clutch_treasury.Orchestrator.Store.{
  DepositStatus, created, invoiced, paying, confirmed, mint_requested, credited, expired, failed,
  needs_manual, DepositIntent, DepositAddress, OrchDb, ObservedTransfer,
}
use clutch_treasury.Orchestrator.Deposits.{
  is_any, set_status, set_received_usdt, Insert, inserted, unchanged, refused, insert_deposit,
  transition,
}
use clutch_treasury.Orchestrator.Custody.{CustodyWatcher}
use clutch_treasury.Orchestrator.Tiered.{poll, stamp}
use clutch_treasury.Orchestrator.Poller.{
  credited_row, credited_by, credit_transfer, user_for_address, credit_owner, credit_one,
  credit_all, credit_from_addresses, budget, earliest, payable, confirm_received, receive,
  settle_legacy, legacy_step, legacy_rows, due_intents, is_lapsed, sweep_expired, is_stale,
  close_window, close_stale_watch_windows, poll_once, or_now,
}
use clutch_treasury.Orchestrator.Life.{Leads, Grown, IsNew, Change, written, then_on}
use clutch_treasury.Orchestrator.Life as Life
use clutch_treasury.Orchestrator.Life.Writes.{
  Changes, Changes-refl, transition-Changes, set_tron_tx_id-Changes, set_received_usdt-Changes,
  insert_deposit-Changes,
}

-- Whatever the insert of a new row does.
pub inserted-Changes :
    (tx_id : Text) (new : DepositIntent)
    → new.tron_tx_id ≡ some tx_id
    → IsNew new
    → (db : OrchDb) → Changes db (credited_by db (insert_deposit tx_id new db)).1
inserted-Changes tx_id new named_so is_new db = cases (insert_deposit tx_id new db) refl
  where
    cases : (r : Insert) → insert_deposit tx_id new db ≡ r → Changes db (credited_by db r).1
    cases (inserted db') e = insert_deposit-Changes tx_id new named_so is_new db db' e
    cases unchanged e = Changes-refl db
    cases refused e = Changes-refl db

pub credit_transfer-Changes :
    (now id : ℕ) (user_pk clt_address : Text) (derivation_index : ℤ) (t : ObservedTransfer)
    (db : OrchDb)
    → Changes db (credit_transfer now id user_pk clt_address derivation_index t db).1
unfolding credit_transfer
credit_transfer-Changes now id user_pk clt_address derivation_index t db =
    elim (Bool-cases (leb_ℤ t.amount_usdt (pos 0))) [
      | inl dust ↦ rw dust (Changes-refl db)
      | inr real ↦ rw real (
          inserted-Changes t.tx_id (credited_row now id user_pk clt_address derivation_index t) refl
            (record {
              arrived = pos_part t.amount_usdt;
              positive = ground arith;
              is_confirmed = refl;
              is_received = refl;
              same_clt = refl;
            })
            db)
    ]

credit_owner-Changes :
    (now id : ℕ) (t : ObservedTransfer) (o : Option DepositAddress) (db : OrchDb)
    → Changes db (credit_owner now id t o db)
credit_owner-Changes now id t none db = Changes-refl db
credit_owner-Changes now id t (some a) db =
    credit_transfer-Changes now id a.user_pk a.clt_address a.derivation_index t db

credit_one-Changes :
    (now : ℕ) (fresh : Text → ℕ) (usdt_contract : Text) (t : ObservedTransfer) (db : OrchDb)
    → Changes db (credit_one now fresh usdt_contract t db)
unfolding credit_one
credit_one-Changes now fresh usdt_contract t db =
    elim (Bool-cases (text_eq t.contract usdt_contract)) [
      | inl ours ↦
          rw ours (credit_owner-Changes now (fresh t.tx_id) t (user_for_address t.to db) db)
      | inr other ↦ rw other (Changes-refl db)
    ]

credit_all-Changes :
    (now : ℕ) (fresh : Text → ℕ) (usdt_contract : Text) (ts : List ObservedTransfer) (db : OrchDb)
    → Changes db (credit_all now fresh usdt_contract ts db)
unfolding credit_all
credit_all-Changes now fresh usdt_contract [] db = Changes-refl db
credit_all-Changes now fresh usdt_contract (t ∷ ts) db =
    then_on (credit_one-Changes now fresh usdt_contract t db)
      (credit_all-Changes now fresh usdt_contract ts (credit_one now fresh usdt_contract t db))

poll-deposits :
    (now budget : ℕ) (chain : CustodyWatcher) (db : OrchDb)
    → (poll now budget chain db).1.deposit_intents ≡ db.deposit_intents
unfolding poll stamp
poll-deposits now budget chain db = ground arith

-- Confirming a row that may still be paid.
confirm-Changes : (id : ℕ) (db : OrchDb) → Changes db (transition id payable confirmed db).1
confirm-Changes id db = transition-Changes id payable confirmed legal db
  where
    legal : (s : DepositStatus) → is_any payable s ≡ true → Leads s confirmed
    legal created e = inr (omega arith, omega arith)
    legal invoiced e = inr (omega arith, omega arith)
    legal paying e = inr (omega arith, omega arith)
    legal expired e = inr (omega arith, omega arith)
    legal confirmed e = inl refl
    legal mint_requested e = cc
    legal credited e = cc
    legal failed e = cc
    legal needs_manual e = cc

receive-Changes :
    (id : ℕ) (amount : ℤ) (stored : Option OrchDb) (db : OrchDb)
    → ((db' : OrchDb) → stored ≡ some db' → Changes db db')
    → Changes db (receive id amount stored db)
receive-Changes id amount none db h = Changes-refl db
receive-Changes id amount (some db') db h =
    then_on (h db' refl) (cases (set_received_usdt id amount db') refl)
  where
    cases :
        (r : Option OrchDb)
        → set_received_usdt id amount db' ≡ r
        → Changes db' (confirm_received id r db')
    cases none e = Changes-refl db'
    cases (some db'') e =
        then_on (set_received_usdt-Changes id amount db' db'' e) (confirm-Changes id db'')

settle_legacy-Changes :
    (now : ℕ) (time_of : ℤ → Option ℤ) (id : ℕ) (t : Option ObservedTransfer) (db : OrchDb)
    → Changes db (settle_legacy now time_of id t db)
unfolding settle_legacy
settle_legacy-Changes now time_of id none db = Changes-refl db
settle_legacy-Changes now time_of id (some t) db =
    receive-Changes id t.amount_usdt _ db
      (λ db' e. set_tron_tx_id-Changes id t.tx_id (or_now now (time_of t.block_timestamp)) db db' e)

legacy_step-Changes :
    (now : ℕ) (time_of : ℤ → Option ℤ) (id : ℕ) (address : Text)
    (read : Option (List ObservedTransfer)) (db : OrchDb)
    → Changes db (legacy_step now time_of id address read db)
legacy_step-Changes now time_of id address none db = Life.unchanged refl
legacy_step-Changes now time_of id address (some ts) db =
    settle_legacy-Changes now time_of id (earliest ts) db

legacy_rows-Changes :
    (now : ℕ) (time_of : ℤ → Option ℤ) (chain : CustodyWatcher) (due : List DepositIntent)
    (db : OrchDb)
    → Changes db (legacy_rows now time_of chain due db)
unfolding legacy_rows
legacy_rows-Changes now time_of chain [] db = Changes-refl db
legacy_rows-Changes now time_of chain (i ∷ due) db =
    then_on (legacy_step-Changes now time_of i.id _ _ db)
      (legacy_rows-Changes now time_of chain due _)

sweep_expired-Changes : (now : ℕ) (db : OrchDb) → Changes db (sweep_expired now db)
unfolding sweep_expired
sweep_expired-Changes now db =
    written (is_lapsed now) (set_status expired)
      (λ i e. (
        record {
          status_leads = ground arith;
          tx_filled = λ x q. q;
          received_filled = λ x q. q;
          treasury_filled = λ x q. q;
          same_rest = refl;
        },
        refl,
      ))
      refl

close-Changes : (now : ℕ) (db : OrchDb) → Changes db (close_stale_watch_windows now db)
unfolding close_stale_watch_windows
close-Changes now db =
    written (is_stale now) close_window
      (λ i e. (
        record {
          status_leads = inl refl;
          tx_filled = λ x q. q;
          received_filled = λ x q. q;
          treasury_filled = λ x q. q;
          same_rest = refl;
        },
        refl,
      ))
      refl

credit_from_addresses-Changes :
    (now : ℕ) (fresh : Text → ℕ) (usdt_contract : Text) (chain : CustodyWatcher) (db : OrchDb)
    → Changes db (credit_from_addresses now fresh usdt_contract chain db)
unfolding credit_from_addresses
credit_from_addresses-Changes now fresh usdt_contract chain db =
    then_on (Life.unchanged (poll-deposits now budget chain db)) (
      credit_all-Changes now fresh usdt_contract (poll now budget chain db).0
        (poll now budget chain db).1)

pub poll_once-Changes :
    (now : ℕ) (fresh : Text → ℕ) (time_of : ℤ → Option ℤ) (usdt_contract : Text)
    (chain legacy : CustodyWatcher) (db : OrchDb)
    → Changes db (poll_once now fresh time_of usdt_contract chain legacy db)
unfolding poll_once
poll_once-Changes now fresh time_of usdt_contract chain legacy db =
    let credited_db = credit_from_addresses now fresh usdt_contract chain db in
    let settled = legacy_rows now time_of legacy (due_intents credited_db) credited_db in
    then_on (credit_from_addresses-Changes now fresh usdt_contract chain db) (
      then_on (legacy_rows-Changes now time_of legacy (due_intents credited_db) credited_db) (
        then_on (sweep_expired-Changes now settled)
          (close-Changes now (sweep_expired now settled))))
