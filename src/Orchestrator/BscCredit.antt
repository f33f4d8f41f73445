-- ===== src/Orchestrator/BscCredit.antt =====
-- Top-ups on BNB Smart Chain: crates/payment-orchestrator/src/bsc_watch.rs,
-- what one payment does. A fresh id and chrono's reading of seconds are arguments.
use clutch_treasury.Base.{
  ℕ, ◌/◌, ◌==◌, Bool, true, false, ◌||◌, Option, none, some, [], ◌∷◌, ◌++◌, if◌then◌else◌, leb,
  Text, codes, text_eq, find, exists_row,
}
use clutch_treasury.Base.Int.{ℤ, pos, leb_ℤ, as_i64}
use clutch_treasury.Store.{bsc, p1}
use clutch_treasury.Bsc.{normalize_address, to_micro}
use clutch_treasury.Orchestrator.Store.{
  confirmed, DepositIntent, BscPayer, OrchDb, bsc_unattributed, bsc_topup,
}
use clutch_treasury.Orchestrator.Deposits.{
  alert, Insert, inserted, unchanged, refused, insert_deposit,
}
use clutch_treasury.Orchestrator.Poller.{or_now}
use clutch_treasury.Orchestrator.Direct.{is_unattributed}
use clutch_treasury.Orchestrator.BscPayments.{Payment}

pub record Settings : Type 0 where
  pub confirmations : ℕ
  pub pay_in_address : Text
  pub usdt_contract : Text
  pub usdt_decimals : ℕ

abbrev insert_payer : ℕ → Text → Option Text → OrchDb → Option Text × OrchDb
insert_payer now user_pk none db = (none, db)
insert_payer now user_pk (some address) db =
    if exists_row (λ p. text_eq p.user_pk user_pk) db.bsc_payers
    then (some address, db)
    else if exists_row (λ p. text_eq p.address address) db.bsc_payers
    then (none, db)
    else (
      some address,
      record db {
        bsc_payers =
            db.bsc_payers ++ record { user_pk = user_pk; address = address; created_at = now } ∷ [];
      },
    )

unfoldable pub register_payer : ℕ → Text → Text → OrchDb → Option Text × OrchDb
unfolding normalize_address exists_row text_eq
register_payer now user_pk address db = insert_payer now user_pk (normalize_address address) db

abbrev pub or_zero : Option ℕ → ℕ
or_zero none = 0
or_zero (some n) = n

abbrev pub amount_of : Settings → ℕ → ℕ
amount_of settings value = or_zero (to_micro value settings.usdt_decimals)

abbrev pub sender_row : ℕ → ℕ → ℤ → Text → ℕ → Payment → DepositIntent
sender_row now id transfer_at user_pk amount p = record {
  id = id;
  user_pk = user_pk;
  clt_address = p.from;
  amount_usdt = amount;
  amount_clt = amount;
  status = confirmed;
  client_key = p.tx_hash;
  tron_tx_id = some p.tx_hash;
  payment_window_closed = false;
  derivation_index = none;
  deposit_address = none;
  expires_at = now;
  treasury_intent_id = none;
  attempts = 0;
  next_attempt_at = now;
  received_usdt = some amount;
  created_at = now;
  transfer_at = some transfer_at;
  direct_from = some p.from;
  network = bsc;
}

-- `false` is an error, which ends the pass.
abbrev pub stored : OrchDb → Insert → Bool × OrchDb
stored db (inserted db') = (true, db')
stored db unchanged = (true, db)
stored db refused = (false, db)

unfoldable pub credit : ℕ → ℕ → (ℤ → Option ℤ) → Text → Payment → ℕ → ℕ → OrchDb → Bool × OrchDb
unfolding insert_deposit as_i64
credit now id time_of user_pk p amount seconds db = stored db (
    insert_deposit p.tx_hash
      (sender_row now id (or_now now (time_of (as_i64 seconds))) user_pk amount p) db)

abbrev sender_of : Text → Text
sender_of [] = codes "several senders"
sender_of (c ∷ from) = c ∷ from

unfoldable pub report_unattributed : ℕ → Settings → Payment → ℕ → OrchDb → OrchDb
unfolding is_unattributed
report_unattributed now settings p amount db =
    if is_unattributed p.tx_hash db.bsc_unattributed
    then db
    else (let kept : OrchDb = record db {
      bsc_unattributed =
          db.bsc_unattributed
          ++ record { tx_id = p.tx_hash; from_address = sender_of p.from; amount_usdt = pos amount }
            ∷ [];
    } in
        if leb 1000000 amount
        then alert now p1 bsc_topup
            (bsc_unattributed (pos amount) settings.pay_in_address p.tx_hash (sender_of p.from))
            kept
        else kept)

unfoldable pub payer_for : Text → OrchDb → Option BscPayer
unfolding find text_eq
payer_for from db = find (λ p. text_eq p.address from) db.bsc_payers

-- The payer's time is cut to whole seconds, the block's is read as an i64.
abbrev pub asked_first : ℕ → BscPayer → Bool
asked_first seconds p = leb_ℤ (pos (p.created_at / 1000)) (as_i64 seconds)

abbrev pub from_payer :
    ℕ → ℕ → (ℤ → Option ℤ) → Settings → Payment → ℕ → ℕ → Option BscPayer → OrchDb → Bool × OrchDb
from_payer now id time_of settings p amount seconds none db =
    (true, report_unattributed now settings p amount db)
from_payer now id time_of settings p amount seconds (some payer) db =
    if asked_first seconds payer
    then credit now id time_of payer.user_pk p amount seconds db
    else (true, report_unattributed now settings p amount db)

abbrev pub known_payer : Text → OrchDb → Option BscPayer
known_payer [] db = none
known_payer (c ∷ from) db = payer_for (c ∷ from) db

unfoldable pub handle : ℕ → ℕ → (ℤ → Option ℤ) → Settings → Payment → ℕ → OrchDb → Bool × OrchDb
unfolding to_micro is_unattributed payer_for credit report_unattributed text_eq
handle now id time_of settings p seconds db =
    let amount : ℕ = amount_of settings p.value in
    if amount == 0 || text_eq p.from settings.pay_in_address
    then (true, db)
    else if is_unattributed p.tx_hash db.bsc_unattributed
    then (true, db)
    else from_payer now id time_of settings p amount seconds (known_payer p.from db) db
