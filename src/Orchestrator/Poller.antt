-- ===== src/Orchestrator/Poller.antt =====
-- Crediting what arrived: crates/payment-orchestrator/src/poller.rs. The fresh ids of new rows and
-- chrono's reading of milliseconds (`from_timestamp_millis`) are arguments.
use clutch_treasury.Base.{
  ℕ, ◌+◌, Bool, true, false, ◌&&◌, not, Option, none, some, List, [], ◌∷◌, if◌then◌else◌, is_some,
  ltb, Text, text_eq, update, find, where_rows, order_by,
}
use clutch_treasury.Base.Int.{ℤ, pos, pos_part, leb_ℤ, ltb_ℤ}
use clutch_treasury.Store.{tron, warn}
use clutch_treasury.Orchestrator.Store.{
  DepositStatus, created, invoiced, paying, confirmed, expired, failed, DepositIntent,
  DepositAddress, OrchDb, ObservedTransfer, fetch_failed, poller,
}
use clutch_treasury.Orchestrator.Deposits.{
  alert, is_any, transition, set_status, set_tron_tx_id, set_received_usdt, Insert, inserted,
  unchanged, refused, insert_deposit,
}
use clutch_treasury.Orchestrator.Custody.{CustodyWatcher}
use clutch_treasury.Orchestrator.Tiered.{take, poll}

-- The row of an observed transfer to a permanent address.
abbrev pub credited_row : ℕ → ℕ → Text → Text → ℤ → ObservedTransfer → DepositIntent
credited_row now id user_pk clt_address derivation_index t = record {
  id = id;
  user_pk = user_pk;
  clt_address = clt_address;
  amount_usdt = pos_part t.amount_usdt;
  amount_clt = pos_part t.amount_usdt;
  status = confirmed;
  client_key = t.tx_id;
  tron_tx_id = some t.tx_id;
  payment_window_closed = false;
  derivation_index = some derivation_index;
  deposit_address = some t.to;
  expires_at = now;
  treasury_intent_id = none;
  attempts = 0;
  next_attempt_at = now;
  received_usdt = some (pos_part t.amount_usdt);
  created_at = now;
  transfer_at = none;
  direct_from = none;
  network = tron;
}

-- `Some(true)` where the row is new; `none` is a refused write.
abbrev pub credited_by : OrchDb → Insert → Option Bool × OrchDb
credited_by db (inserted db') = (some true, db')
credited_by db unchanged = (some false, db)
credited_by db refused = (none, db)

unfoldable pub credit_transfer :
    ℕ → ℕ → Text → Text → ℤ → ObservedTransfer → OrchDb → Option Bool × OrchDb
unfolding insert_deposit
credit_transfer now id user_pk clt_address derivation_index t db =
    if leb_ℤ t.amount_usdt (pos 0)
    then (some false, db)
    else credited_by db
        (insert_deposit t.tx_id (credited_row now id user_pk clt_address derivation_index t) db)

unfoldable pub user_for_address : Text → OrchDb → Option DepositAddress
unfolding find text_eq
user_for_address to db = find (λ a. text_eq a.address to) db.deposit_addresses

abbrev pub credit_owner : ℕ → ℕ → ObservedTransfer → Option DepositAddress → OrchDb → OrchDb
credit_owner now id t none db = db
credit_owner now id t (some a) db =
    (credit_transfer now id a.user_pk a.clt_address a.derivation_index t db).1

-- One transfer of the watcher, with a fresh id for its row.
unfoldable pub credit_one : ℕ → (Text → ℕ) → Text → ObservedTransfer → OrchDb → OrchDb
unfolding credit_transfer user_for_address text_eq
credit_one now fresh usdt_contract t db =
    if not (text_eq t.contract usdt_contract)
    then db
    else credit_owner now (fresh t.tx_id) t (user_for_address t.to db) db

unfoldable pub credit_all : ℕ → (Text → ℕ) → Text → List ObservedTransfer → OrchDb → OrchDb
unfolding credit_one
credit_all now fresh usdt_contract [] db = db
credit_all now fresh usdt_contract (t ∷ transfers) db =
    credit_all now fresh usdt_contract transfers (credit_one now fresh usdt_contract t db)

abbrev pub budget : ℕ
budget = 50

unfoldable pub credit_from_addresses : ℕ → (Text → ℕ) → Text → CustodyWatcher → OrchDb → OrchDb
unfolding poll credit_all
credit_from_addresses now fresh usdt_contract chain db =
    let (transfers, polled) = poll now budget chain db in
    credit_all now fresh usdt_contract transfers polled

-- The first of the transfers with the least time.
abbrev pub earlier : ObservedTransfer → Option ObservedTransfer → ObservedTransfer
earlier t none = t
earlier t (some s) = if ltb_ℤ s.block_timestamp t.block_timestamp then s else t

unfoldable pub earliest : List ObservedTransfer → Option ObservedTransfer
earliest [] = none
earliest (t ∷ ts) = some (earlier t (earliest ts))

abbrev pub or_now : ℕ → Option ℤ → ℤ
or_now now none = pos now
or_now now (some t) = t

abbrev pub payable : List DepositStatus
payable = created ∷ invoiced ∷ paying ∷ expired ∷ []

abbrev pub confirm_received : ℕ → Option OrchDb → OrchDb → OrchDb
confirm_received id none db = db
confirm_received id (some db') db = (transition id payable confirmed db').1

abbrev pub receive : ℕ → ℤ → Option OrchDb → OrchDb → OrchDb
receive id amount none db = db
receive id amount (some db') db = confirm_received id (set_received_usdt id amount db') db'

-- The evidence is stored first, then the amount, then the status.
unfoldable pub settle_legacy : ℕ → (ℤ → Option ℤ) → ℕ → Option ObservedTransfer → OrchDb → OrchDb
unfolding set_tron_tx_id set_received_usdt transition
settle_legacy now time_of id none db = db
settle_legacy now time_of id (some t) db =
    receive id t.amount_usdt (set_tron_tx_id id t.tx_id (or_now now (time_of t.block_timestamp)) db)
      db

abbrev pub legacy_step :
    ℕ → (ℤ → Option ℤ) → ℕ → Text → Option (List ObservedTransfer) → OrchDb → OrchDb
legacy_step now time_of id address none db = alert now warn poller (fetch_failed address) db
legacy_step now time_of id address (some transfers) db =
    settle_legacy now time_of id (earliest transfers) db

abbrev pub is_watched : DepositIntent → Bool
is_watched i = is_some i.deposit_address && not i.payment_window_closed && is_any payable i.status

unfoldable pub due_intents : OrchDb → List DepositIntent
unfolding where_rows order_by take
due_intents db = take 50 (order_by (λ i. i.created_at) (where_rows is_watched db.deposit_intents))

-- The column is not null in the rows that are read.
abbrev address_of : Option Text → Text
address_of none = []
address_of (some a) = a

unfoldable pub legacy_rows :
    ℕ → (ℤ → Option ℤ) → CustodyWatcher → List DepositIntent → OrchDb → OrchDb
unfolding earliest settle_legacy
legacy_rows now time_of chain [] db = db
legacy_rows now time_of chain (i ∷ due) db =
    let address : Text = address_of i.deposit_address in
    legacy_rows now time_of chain due (legacy_step now time_of i.id address (chain address none) db)

abbrev pub is_lapsed : ℕ → DepositIntent → Bool
is_lapsed now i = is_any (created ∷ invoiced ∷ paying ∷ []) i.status && ltb i.expires_at now

unfoldable pub sweep_expired : ℕ → OrchDb → OrchDb
unfolding update
sweep_expired now db = record db {
  deposit_intents = update (is_lapsed now) (set_status expired) db.deposit_intents;
}

-- 24 hours after the expiry.
abbrev pub is_stale : ℕ → DepositIntent → Bool
is_stale now i =
    not i.payment_window_closed
    && is_any (expired ∷ failed ∷ []) i.status
    && ltb (i.expires_at + 86400000) now

abbrev pub close_window : DepositIntent → DepositIntent
close_window i = record i { payment_window_closed = true }

unfoldable pub close_stale_watch_windows : ℕ → OrchDb → OrchDb
unfolding update
close_stale_watch_windows now db = record db {
  deposit_intents = update (is_stale now) close_window db.deposit_intents;
}

-- One pass, with the chain as the rotation and as the legacy loop read it.
unfoldable pub poll_once :
    ℕ → (Text → ℕ) → (ℤ → Option ℤ) → Text → CustodyWatcher → CustodyWatcher → OrchDb → OrchDb
unfolding credit_from_addresses due_intents legacy_rows sweep_expired close_stale_watch_windows
poll_once now fresh time_of usdt_contract chain legacy db =
    let credited : OrchDb = credit_from_addresses now fresh usdt_contract chain db in
    close_stale_watch_windows now
      (sweep_expired now (legacy_rows now time_of legacy (due_intents credited) credited))
