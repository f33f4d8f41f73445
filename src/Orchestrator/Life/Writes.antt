-- ===== src/Orchestrator/Life/Writes.antt =====
-- What the statements of crates/payment-orchestrator/src/deposits.rs do to the deposits.
use clutch_treasury.Base.{
  ℕ, ◌≡◌, inl, inr, refl, Bool, true, false, some, List, if◌then◌else◌, Bool-cases, arith, Text,
  exists_row, update, update-absent,
}
use clutch_treasury.Base.Int.{ℤ, pos_part}
use clutch_treasury.Orchestrator.Store.{DepositStatus, DepositIntent, OrchDb}
use clutch_treasury.Orchestrator.Deposits.{
  is_any, has_id, set_status, may_leave, transition, lacks_tx, set_tx, set_tron_tx_id,
  lacks_received, set_received, set_received_usdt, lacks_treasury, set_treasury,
  set_treasury_intent_id, count_failure, record_attempt_failure, clear_attempts, reset_attempts,
  put_off, defer_poll, inserted, insert_deposit,
}
use clutch_treasury.Orchestrator.Life.{
  Leads, Grown, IsNew, Change, unchanged, written, named, added,
}

abbrev pub Changes : OrchDb → OrchDb → Type 0
Changes db db' = Change db.deposit_intents db'.deposit_intents

pub Changes-refl : (db : OrchDb) → Changes db db
Changes-refl db = unchanged refl

pub if-Changes :
    (b : Bool) (db x y : OrchDb) → Changes db x → Changes db y → Changes db (if b then x else y)
if-Changes true db x y h k = h
if-Changes false db x y h k = k

-- Each row that may move goes on.
pub transition-Changes :
    (id : ℕ) (from : List DepositStatus) (to : DepositStatus)
    → ((s : DepositStatus) → is_any from s ≡ true → Leads s to)
    → (db : OrchDb) → Changes db (transition id from to db).1
unfolding transition
transition-Changes id from to legal db =
    written (may_leave id from) (set_status to)
      (λ i e. (
        record {
          status_leads = legal i.status (ground arith);
          tx_filled = λ x q. q;
          received_filled = λ x q. q;
          treasury_filled = λ x q. q;
          same_rest = refl;
        },
        refl,
      ))
      refl

pub set_tron_tx_id-Changes :
    (id : ℕ) (tx_id : Text) (at : ℤ) (db db' : OrchDb)
    → set_tron_tx_id id tx_id at db ≡ some db'
    → Changes db db'
unfolding set_tron_tx_id
set_tron_tx_id-Changes id tx_id at db db' e =
    elim (Bool-cases (exists_row (lacks_tx id) db.deposit_intents)) [
      | inl lacking ↦ named id tx_id at (ground arith) (ground arith)
      | inr filled ↦
          unchanged (
            ground (arith, update-absent (lacks_tx id) (set_tx tx_id at) db.deposit_intents filled))
    ]

pub set_received_usdt-Changes :
    (id : ℕ) (received : ℤ) (db db' : OrchDb)
    → set_received_usdt id received db ≡ some db'
    → Changes db db'
unfolding set_received_usdt
set_received_usdt-Changes id received db db' e =
    written (lacks_received id) (set_received (pos_part received))
      (λ i h. (
        record {
          status_leads = inl refl;
          tx_filled = λ x q. q;
          received_filled = λ x q. ground arith;
          treasury_filled = λ x q. q;
          same_rest = refl;
        },
        refl,
      ))
      (ground arith)

pub set_treasury_intent_id-Changes :
    (id treasury_id : ℕ) (db : OrchDb) → Changes db (set_treasury_intent_id id treasury_id db)
unfolding set_treasury_intent_id
set_treasury_intent_id-Changes id treasury_id db =
    written (lacks_treasury id) (set_treasury treasury_id)
      (λ i h. (
        record {
          status_leads = inl refl;
          tx_filled = λ x q. q;
          received_filled = λ x q. q;
          treasury_filled = λ x q. ground arith;
          same_rest = refl;
        },
        refl,
      ))
      refl

-- A write of columns that `Grown` says nothing of.
plain :
    (p : DepositIntent → Bool) (f : DepositIntent → DepositIntent) (is : List DepositIntent)
    → ((i : DepositIntent) → Grown i (f i) × ((f i).tron_tx_id ≡ i.tron_tx_id))
    → Change is (update p f is)
plain p f is each = written p f (λ i h. each i) refl

pub record_attempt_failure-Changes :
    (now : ℕ) (draw : ℕ → ℕ) (id : ℕ) (db : OrchDb)
    → Changes db (record_attempt_failure now draw id db).1
unfolding record_attempt_failure
record_attempt_failure-Changes now draw id db =
    plain (has_id id) (count_failure now draw) db.deposit_intents (λ i. (
      record {
        status_leads = inl refl;
        tx_filled = λ x q. q;
        received_filled = λ x q. q;
        treasury_filled = λ x q. q;
        same_rest = refl;
      },
      refl,
    ))

pub reset_attempts-Changes : (id : ℕ) (db : OrchDb) → Changes db (reset_attempts id db)
unfolding reset_attempts
reset_attempts-Changes id db = plain (has_id id) clear_attempts db.deposit_intents (λ i. (
  record {
    status_leads = inl refl;
    tx_filled = λ x q. q;
    received_filled = λ x q. q;
    treasury_filled = λ x q. q;
    same_rest = refl;
  },
  refl,
))

pub defer_poll-Changes : (now id hours : ℕ) (db : OrchDb) → Changes db (defer_poll now id hours db)
unfolding defer_poll
defer_poll-Changes now id hours db = plain (has_id id) (put_off _) db.deposit_intents (λ i. (
  record {
    status_leads = inl refl;
    tx_filled = λ x q. q;
    received_filled = λ x q. q;
    treasury_filled = λ x q. q;
    same_rest = refl;
  },
  refl,
))

-- A row that is inserted is for a transaction that no row had.
pub insert_deposit-Changes :
    (tx_id : Text) (new : DepositIntent)
    → new.tron_tx_id ≡ some tx_id
    → IsNew new
    → (db db' : OrchDb) → insert_deposit tx_id new db ≡ inserted db'
    → Changes db db'
unfolding insert_deposit
insert_deposit-Changes tx_id new named_so is_new db db' e =
    added tx_id new named_so (ground arith) (ground arith) is_new (ground arith)
