-- ===== src/Orchestrator/Life/Payments.antt =====
-- What a payment on BNB Smart Chain does to the deposits: crates/payment-orchestrator/src/
-- bsc_watch.rs, `handle` and `credit_address`.
use clutch_treasury.Base.{
  ℕ, ◌==◌, ◌≡◌, inl, inr, refl, Bool, true, false, Option, none, some, if◌then◌else◌, Bool-cases,
  arith, Text, text_eq,
}
use clutch_treasury.Base.Int.{ℤ, as_i64}
use clutch_treasury.Orchestrator.Store.{DepositIntent, DepositAddress, BscPayer, OrchDb}
use clutch_treasury.Orchestrator.Deposits.{Insert, inserted, unchanged, refused, insert_deposit}
use clutch_treasury.Orchestrator.Poller.{or_now}
use clutch_treasury.Orchestrator.Direct.{is_unattributed}
use clutch_treasury.Orchestrator.BscPayments.{Payment, AddressPayment}
use clutch_treasury.Orchestrator.BscCredit.{
  Settings, amount_of, sender_row, stored, credit, report_unattributed, asked_first, from_payer,
  known_payer, handle,
}
use clutch_treasury.Orchestrator.BscAddress.{
  address_row, report_second, after_insert, credit_address,
}
use clutch_treasury.Orchestrator.Life.{Change, IsNew, then_on}
use clutch_treasury.Orchestrator.Life as Life
use clutch_treasury.Orchestrator.Life.Writes.{Changes, Changes-refl, insert_deposit-Changes}

-- The database of a step that may fail.
abbrev pub Steps : OrchDb → Bool × OrchDb → Type 0
Steps db r = Changes db r.1

pub if-Steps :
    (b : Bool) (db : OrchDb) (x y : Bool × OrchDb)
    → Steps db x
    → Steps db y
    → Steps db (if b then x else y)
if-Steps true db x y h k = h
if-Steps false db x y h k = k

stored-Steps :
    (tx_id : Text) (new : DepositIntent)
    → new.tron_tx_id ≡ some tx_id
    → IsNew new
    → (db : OrchDb) → Steps db (stored db (insert_deposit tx_id new db))
stored-Steps tx_id new named_so is_new db = cases (insert_deposit tx_id new db) refl
  where
    cases : (r : Insert) → insert_deposit tx_id new db ≡ r → Steps db (stored db r)
    cases (inserted db') e = insert_deposit-Changes tx_id new named_so is_new db db' e
    cases unchanged e = Changes-refl db
    cases refused e = Changes-refl db

credit-Steps :
    (now id : ℕ) (time_of : ℤ → Option ℤ) (user_pk : Text) (p : Payment) (amount seconds : ℕ)
    (db : OrchDb)
    → (amount == 0) ≡ false
    → Steps db (credit now id time_of user_pk p amount seconds db)
unfolding credit
credit-Steps now id time_of user_pk p amount seconds db real =
    stored-Steps p.tx_hash
      (sender_row now id (or_now now (time_of (as_i64 seconds))) user_pk amount p) refl
      (record {
        arrived = amount;
        positive = ground arith;
        is_confirmed = refl;
        is_received = refl;
        same_clt = refl;
      })
      db

report-Changes :
    (now : ℕ) (settings : Settings) (p : Payment) (amount : ℕ) (db : OrchDb)
    → Changes db (report_unattributed now settings p amount db)
unfolding report_unattributed
report-Changes now settings p amount db = Life.unchanged (ground arith)

from_payer-Steps :
    (now id : ℕ) (time_of : ℤ → Option ℤ) (settings : Settings) (p : Payment) (amount seconds : ℕ)
    (o : Option BscPayer) (db : OrchDb)
    → (amount == 0) ≡ false
    → Steps db (from_payer now id time_of settings p amount seconds o db)
from_payer-Steps now id time_of settings p amount seconds none db real =
    report-Changes now settings p amount db
from_payer-Steps now id time_of settings p amount seconds (some payer) db real =
    if-Steps (asked_first seconds payer) db _ (true, _)
      (credit-Steps now id time_of payer.user_pk p amount seconds db real)
      (report-Changes now settings p amount db)

pub handle-Steps :
    (now id : ℕ) (time_of : ℤ → Option ℤ) (settings : Settings) (p : Payment) (seconds : ℕ)
    (db : OrchDb)
    → Steps db (handle now id time_of settings p seconds db)
unfolding handle
handle-Steps now id time_of settings p seconds db =
    elim (Bool-cases (amount_of settings p.value == 0)) [
      | inl dust ↦ rw dust (Changes-refl db)
      | inr real ↦ rw real (
          if-Steps (text_eq p.from settings.pay_in_address) db (true, db) _ (Changes-refl db)
            (if-Steps (is_unattributed p.tx_hash db.bsc_unattributed) db (true, db) _
              (Changes-refl db)
              (from_payer-Steps now id time_of settings p (amount_of settings p.value) seconds
                (known_payer p.from db) db real)))
    ]

second-Changes :
    (now : ℕ) (d : AddressPayment) (amount : ℕ) (db : OrchDb)
    → Changes db (report_second now d amount db)
unfolding report_second
second-Changes now d amount db = Life.unchanged (ground arith)

after_insert-Steps :
    (now : ℕ) (d : AddressPayment) (amount : ℕ) (new : DepositIntent)
    → new.tron_tx_id ≡ some d.tx_hash
    → IsNew new
    → (db : OrchDb) → Steps db (after_insert now d amount db (insert_deposit d.tx_hash new db))
after_insert-Steps now d amount new named_so is_new db =
    cases (insert_deposit d.tx_hash new db) refl
  where
    cases :
        (r : Insert)
        → insert_deposit d.tx_hash new db ≡ r
        → Steps db (after_insert now d amount db r)
    cases (inserted db') e = insert_deposit-Changes d.tx_hash new named_so is_new db db' e
    cases unchanged e = second-Changes now d amount db
    cases refused e = Changes-refl db

pub credit_address-Steps :
    (now id : ℕ) (time_of : ℤ → Option ℤ) (settings : Settings) (owner : DepositAddress)
    (d : AddressPayment) (seconds : ℕ) (db : OrchDb)
    → Steps db (credit_address now id time_of settings owner d seconds db)
unfolding credit_address
credit_address-Steps now id time_of settings owner d seconds db =
    elim (Bool-cases (amount_of settings d.value == 0)) [
      | inl dust ↦ rw dust (Changes-refl db)
      | inr real ↦ rw real (
          after_insert-Steps now d (amount_of settings d.value)
            (address_row now id (or_now now (time_of (as_i64 seconds))) owner
              (amount_of settings d.value) d)
            refl
            (record {
              arrived = amount_of settings d.value;
              positive = ground arith;
              is_confirmed = refl;
              is_received = refl;
              same_clt = refl;
            })
            db)
    ]
