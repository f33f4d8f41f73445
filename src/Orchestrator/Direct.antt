-- ===== src/Orchestrator/Direct.antt =====
-- Top-ups from a user's own TRON address: crates/payment-orchestrator/src/direct.rs. Base58 with
-- its checksum is an argument (`encode`), as are fresh ids and chrono's reading of milliseconds.
use clutch_treasury.Base.{
  ℕ, ◌+◌, ◌*◌, ◌==◌, Bool, false, ◌||◌, not, Option, none, some, List, [], ◌∷◌, ◌++◌, if◌then◌else◌,
  length, Text, text_eq, option_text_eq, find, update, exists_row, hex_digit,
}
use clutch_treasury.Base.Int.{ℤ, pos, pos_part, leb_ℤ}
use clutch_treasury.Store.{tron, p1}
use clutch_treasury.Bsc.{all_hex, strip_prefix}
use clutch_treasury.Orchestrator.Store.{
  confirmed, DepositIntent, DirectPayer, DirectWatch, Unattributed, OrchDb, ObservedTransfer,
  direct_unattributed, direct_topup,
}
use clutch_treasury.Orchestrator.Deposits.{alert, insert_deposit}
use clutch_treasury.Orchestrator.Custody.{CustodyWatcher}
use clutch_treasury.Orchestrator.Tiered.{since}
use clutch_treasury.Orchestrator.Poller.{or_now, credited_by}

-- Without `0x` or `0X`, where it is there.
abbrev or_whole : Text → Option Text → Text
or_whole whole none = whole
or_whole whole (some rest) = rest

abbrev byte_of : Option ℕ → Option ℕ → Option (List ℕ) → Option (List ℕ)
byte_of (some hi) (some lo) (some rest) = some ((16 * hi + lo) ∷ rest)
byte_of _ _ _ = none

-- `hex::decode`.
unfoldable pub decode_hex : Text → Option (List ℕ)
decode_hex [] = some []
decode_hex (a ∷ []) = none
decode_hex (a ∷ b ∷ hex) = byte_of (hex_digit a) (hex_digit b) (decode_hex hex)

abbrev with_version : (List ℕ → Text) → Option (List ℕ) → Option Text
with_version encode none = none
with_version encode (some bytes) = some (encode (65 ∷ bytes))

-- `encode` is base58 with its checksum.
unfoldable pub tron_address_of : (List ℕ → Text) → Text → Option Text
unfolding decode_hex all_hex
tron_address_of encode clt_address =
    let hex : Text = or_whole clt_address (strip_prefix clt_address) in
    if not (length hex == 40) || not (all_hex hex)
    then none
    else with_version encode (decode_hex hex)

-- What a request answers: an error, or what it read and the database that it leaves.
abbrev insert_payer : ℕ → Text → Text → Option Text → OrchDb → Option Text × OrchDb
insert_payer now user_pk clt_address none db = (none, db)
insert_payer now user_pk clt_address (some tron_address) db =
    if exists_row (λ p. text_eq p.user_pk user_pk) db.direct_payers
    then (some tron_address, db)
    else if exists_row (λ p. text_eq p.tron_address tron_address) db.direct_payers
    then (none, db)
    else (
      some tron_address,
      record db {
        direct_payers =
            db.direct_payers
            ++ record {
              user_pk = user_pk;
              tron_address = tron_address;
              clt_address = clt_address;
              created_at = now;
            }
              ∷ [];
      },
    )

unfoldable pub register_payer : (List ℕ → Text) → ℕ → Text → Text → OrchDb → Option Text × OrchDb
unfolding tron_address_of exists_row text_eq
register_payer encode now user_pk clt_address db =
    insert_payer now user_pk clt_address (tron_address_of encode clt_address) db

unfoldable pub payer_for : Text → OrchDb → Option DirectPayer
unfolding find text_eq
payer_for from db = find (λ p. text_eq p.tron_address from) db.direct_payers

unfoldable pub is_our_deposit_address : Text → OrchDb → Bool
unfolding exists_row option_text_eq text_eq
is_our_deposit_address address db =
    exists_row (λ a. text_eq a.address address) db.deposit_addresses
    || exists_row (λ i. option_text_eq i.deposit_address (some address)) db.deposit_intents

unfoldable pub is_unattributed : Text → List Unattributed → Bool
unfolding exists_row text_eq
is_unattributed tx_id rows = exists_row (λ u. text_eq u.tx_id tx_id) rows

abbrev pub direct_row : ℕ → ℕ → ℤ → Text → Text → ObservedTransfer → DepositIntent
direct_row now id transfer_at user_pk clt_address t = record {
  id = id;
  user_pk = user_pk;
  clt_address = clt_address;
  amount_usdt = pos_part t.amount_usdt;
  amount_clt = pos_part t.amount_usdt;
  status = confirmed;
  client_key = t.tx_id;
  tron_tx_id = some t.tx_id;
  payment_window_closed = false;
  derivation_index = none;
  deposit_address = none;
  expires_at = now;
  treasury_intent_id = none;
  attempts = 0;
  next_attempt_at = now;
  received_usdt = some (pos_part t.amount_usdt);
  created_at = now;
  transfer_at = some transfer_at;
  direct_from = some t.from;
  network = tron;
}

unfoldable pub credit :
    ℕ → ℕ → (ℤ → Option ℤ) → DirectPayer → ObservedTransfer → OrchDb → Option Bool × OrchDb
unfolding insert_deposit
credit now id time_of p t db = credited_by db (
    insert_deposit t.tx_id
      (direct_row now id (or_now now (time_of t.block_timestamp)) p.user_pk p.clt_address t) db)

abbrev pub one_usdt : ℤ
one_usdt = pos 1000000

abbrev pub unattributed_row : ObservedTransfer → Unattributed
unattributed_row t = record { tx_id = t.tx_id; from_address = t.from; amount_usdt = t.amount_usdt }

unfoldable pub report_unattributed : ℕ → Text → ObservedTransfer → OrchDb → OrchDb
unfolding is_unattributed
report_unattributed now pay_to t db =
    if is_unattributed t.tx_id db.direct_unattributed
    then db
    else (let kept : OrchDb = record db {
      direct_unattributed = db.direct_unattributed ++ unattributed_row t ∷ [];
    } in
        if leb_ℤ one_usdt t.amount_usdt
        then alert now p1 direct_topup (direct_unattributed t.amount_usdt pay_to t.tx_id t.from)
            kept
        else kept)

-- The payer asked before the transfer landed.
abbrev pub asked_first : ObservedTransfer → DirectPayer → Bool
asked_first t p = leb_ℤ (pos p.created_at) t.block_timestamp

abbrev pub unclaimed : ℕ → Text → ObservedTransfer → OrchDb → OrchDb
unclaimed now pay_to t db =
    if is_our_deposit_address t.from db then db else report_unattributed now pay_to t db

abbrev pub from_payer :
    ℕ → ℕ → (ℤ → Option ℤ) → Text → ObservedTransfer → Option DirectPayer → OrchDb → OrchDb
from_payer now id time_of pay_to t none db = unclaimed now pay_to t db
from_payer now id time_of pay_to t (some p) db =
    if asked_first t p then (credit now id time_of p t db).1 else unclaimed now pay_to t db

unfoldable pub handle : ℕ → ℕ → (ℤ → Option ℤ) → Text → ObservedTransfer → OrchDb → OrchDb
unfolding is_unattributed payer_for credit is_our_deposit_address report_unattributed
handle now id time_of pay_to t db =
    if is_unattributed t.tx_id db.direct_unattributed
    then db
    else from_payer now id time_of pay_to t (payer_for t.from db) db

abbrev pub is_foreign : Text → Text → ObservedTransfer → Bool
is_foreign pay_to usdt_contract t =
    not (text_eq t.contract usdt_contract)
    || not (text_eq t.to pay_to)
    || leb_ℤ t.amount_usdt (pos 0)
    || length t.from == 0

unfoldable pub handle_ours :
    ℕ → ℕ → (ℤ → Option ℤ) → Text → Text → ObservedTransfer → OrchDb → OrchDb
unfolding handle text_eq
handle_ours now id time_of pay_to usdt_contract t db =
    if is_foreign pay_to usdt_contract t then db else handle now id time_of pay_to t db

unfoldable pub handle_all :
    ℕ → (Text → ℕ) → (ℤ → Option ℤ) → Text → Text → List ObservedTransfer → OrchDb → OrchDb
unfolding handle_ours
handle_all now fresh time_of pay_to usdt_contract [] db = db
handle_all now fresh time_of pay_to usdt_contract (t ∷ transfers) db =
    handle_all now fresh time_of pay_to usdt_contract transfers
      (handle_ours now (fresh t.tx_id) time_of pay_to usdt_contract t db)

abbrev pub watches : Text → DirectWatch → Bool
watches pay_to w = text_eq w.pay_to pay_to

unfoldable pub open_watch : Text → OrchDb → OrchDb
unfolding exists_row text_eq
open_watch pay_to db = if exists_row (watches pay_to) db.direct_watch then db else record db {
  direct_watch = db.direct_watch ++ record { pay_to = pay_to; last_polled_at = none } ∷ [];
}

abbrev watermark_of : Option DirectWatch → Option ℕ
watermark_of none = none
watermark_of (some w) = w.last_polled_at

unfoldable pub watermark : Text → OrchDb → Option ℕ
unfolding find text_eq
watermark pay_to db = watermark_of (find (watches pay_to) db.direct_watch)

unfoldable pub stamp_watch : ℕ → Text → OrchDb → OrchDb
unfolding update text_eq
stamp_watch now pay_to db = record db {
  direct_watch =
      update (watches pay_to) (λ w. record w { last_polled_at = some now }) db.direct_watch;
}

abbrev pub after_read :
    ℕ → (Text → ℕ) → (ℤ → Option ℤ) → Text → Text → Option (List ObservedTransfer) → OrchDb → OrchDb
after_read now fresh time_of pay_to usdt_contract none db = db
after_read now fresh time_of pay_to usdt_contract (some transfers) db =
    stamp_watch now pay_to (handle_all now fresh time_of pay_to usdt_contract transfers db)

-- One pass; a chain that cannot be read advances nothing.
unfoldable pub credit_direct :
    ℕ → (Text → ℕ) → (ℤ → Option ℤ) → CustodyWatcher → Text → Text → OrchDb → OrchDb
unfolding open_watch watermark handle_all stamp_watch
credit_direct now fresh time_of watcher pay_to usdt_contract db =
    let opened : OrchDb = open_watch pay_to db in
    after_read now fresh time_of pay_to usdt_contract
      (watcher pay_to (since (watermark pay_to opened))) opened
