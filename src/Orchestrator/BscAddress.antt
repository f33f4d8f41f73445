-- ===== src/Orchestrator/BscAddress.antt =====
-- A payment to a user's own BSC address: crates/payment-orchestrator/src/bsc_watch.rs,
-- `credit_address`.
use clutch_treasury.Base.{
  ℕ, ◌==◌, Bool, true, false, ◌&&◌, Option, none, some, [], ◌∷◌, ◌++◌, if◌then◌else◌, Text, codes,
  text_eq, option_text_eq, exists_row,
}
use clutch_treasury.Base.Int.{ℤ, pos, as_i64}
use clutch_treasury.Store.{bsc, p1}
use clutch_treasury.Bsc.{to_micro}
use clutch_treasury.Orchestrator.Store.{
  confirmed, DepositIntent, DepositAddress, OrchDb, bsc_two_addresses, bsc_topup,
}
use clutch_treasury.Orchestrator.Deposits.{
  alert, Insert, inserted, unchanged, refused, insert_deposit, has_tx,
}
use clutch_treasury.Orchestrator.Poller.{or_now}
use clutch_treasury.Orchestrator.Direct.{is_unattributed}
use clutch_treasury.Orchestrator.BscPayments.{AddressPayment}
use clutch_treasury.Orchestrator.BscCredit.{Settings, amount_of}

abbrev pub owns : Text → DepositAddress → Bool
owns address a = option_text_eq a.bsc_address (some address)

abbrev pub address_row : ℕ → ℕ → ℤ → DepositAddress → ℕ → AddressPayment → DepositIntent
address_row now id transfer_at owner amount d = record {
  id = id;
  user_pk = owner.user_pk;
  clt_address = owner.clt_address;
  amount_usdt = amount;
  amount_clt = amount;
  status = confirmed;
  client_key = d.tx_hash;
  tron_tx_id = some d.tx_hash;
  payment_window_closed = false;
  derivation_index = some owner.derivation_index;
  deposit_address = some d.to;
  expires_at = now;
  treasury_intent_id = none;
  attempts = 0;
  next_attempt_at = now;
  received_usdt = some amount;
  created_at = now;
  transfer_at = some transfer_at;
  direct_from = none;
  network = bsc;
}

-- `{hash}:{address}`.
abbrev pub second_key : AddressPayment → Text
second_key d = d.tx_hash ++ 58 ∷ d.to

abbrev credited_here : AddressPayment → DepositIntent → Bool
credited_here d i = has_tx d.tx_hash i && option_text_eq i.deposit_address (some d.to)

-- The transaction is a row already: of this address, or of another that it paid too.
unfoldable pub report_second : ℕ → AddressPayment → ℕ → OrchDb → OrchDb
unfolding exists_row is_unattributed option_text_eq text_eq
report_second now d amount db =
    if exists_row (credited_here d) db.deposit_intents
    then db
    else if is_unattributed (second_key d) db.bsc_unattributed
    then db
    else alert now p1 bsc_topup (bsc_two_addresses (pos amount) d.to d.tx_hash) (record db {
      bsc_unattributed =
          db.bsc_unattributed
          ++ record {
            tx_id = second_key d;
            from_address = codes "one transaction to two deposit addresses";
            amount_usdt = pos amount;
          }
            ∷ [];
    })

abbrev pub after_insert : ℕ → AddressPayment → ℕ → OrchDb → Insert → Bool × OrchDb
after_insert now d amount db (inserted db') = (true, db')
after_insert now d amount db unchanged = (true, report_second now d amount db)
after_insert now d amount db refused = (false, db)

unfoldable pub credit_address :
    ℕ → ℕ → (ℤ → Option ℤ) → Settings → DepositAddress → AddressPayment → ℕ → OrchDb → Bool × OrchDb
unfolding to_micro insert_deposit report_second
credit_address now id time_of settings owner d seconds db =
    let amount : ℕ = amount_of settings d.value in
    if amount == 0
    then (true, db)
    else after_insert now d amount db (
        insert_deposit d.tx_hash
          (address_row now id (or_now now (time_of (as_i64 seconds))) owner amount d) db)
