-- ===== src/Payout/Settle.antt =====
-- Settling submitted payouts: `confirm_payouts_once`, `confirm_gasfree_payouts_once`,
-- `paid_by_another` and `pay_intent` of crates/treasury-service/src/payout.rs. What TronGrid, the
-- signer and each write answer is an argument.
use clutch_treasury.Base.{
  ℕ, ◌+◌, Bool, true, false, ◌&&◌, not, ◌==◌, Option, none, some, List, [], ◌∷◌, if◌then◌else◌,
  is_some, leb, Text, text_eq, update, find, where_rows, order_by,
}
use clutch_treasury.Base.Int.{ℤ, pos, leb_ℤ, add_i64, as_u64}
use clutch_treasury.Store.{
  RedemptionIntent, RedemptionStatus, Db, custody_withdrawal, p1, payout, confirmed_unrecorded,
  transfer_failed, nonce_moved, paid_another, float_differs,
}
use clutch_treasury.Ledger.{alert, alert_once, insert_event_once}
use clutch_treasury.Payout.Rows.{
  ClaimAnswer, answered, errored, is_payout_submitted, redemption_is, member, deadline_grace_secs,
}

abbrev pub set_paid : ℕ → Text → RedemptionIntent → RedemptionIntent
set_paid now tx r = record r {
  status = RedemptionStatus.paid;
  payout_ref = some tx;
  updated_at = now;
}

-- One transaction: the ledger event, and the row.
unfoldable pub pay_intent : ℕ → ℕ → ℕ → Text → Db → Db
unfolding insert_event_once
pay_intent now id amount_usdt tx db =
    let db' = insert_event_once id custody_withdrawal 0 amount_usdt none db in
    record db' {
      redemption_intents = update (redemption_is id) (set_paid now tx) db.redemption_intents;
    }

-- The rows that have a transaction to look for.
abbrev pub text_of : Option Text → Text
text_of none = []
text_of (some t) = t

abbrev pub has_transfer : RedemptionIntent → Bool
has_transfer r = is_payout_submitted r.status && is_some r.payout_ref

-- `failed_transfer_alerted` lives in the process.
pub record ConfirmState : Type 0 where
  pub db : Db
  pub failed_transfer_alerted : List ℕ
  pub confirmed : ℕ

-- What TronGrid says of a transaction (`none` is an error), and how each `pay_intent` ends.
pub record ChainView : Type 0 where
  pub transaction_confirmed : Text → Option Bool
  pub transfer_succeeded : Text → Option Bool
  pub recorded : ℕ → ClaimAnswer

unfoldable pub record_paid : ℕ → RedemptionIntent → ClaimAnswer → ConfirmState → ConfirmState
unfolding pay_intent
record_paid now r answered s = record s {
  db = pay_intent now r.id r.payout_amount_usdt (text_of r.payout_ref) s.db;
  confirmed = s.confirmed + 1;
}
record_paid now r (errored committed) s = record s {
  db = alert now p1 payout (confirmed_unrecorded r.id) (
      if committed
      then pay_intent now r.id r.payout_amount_usdt (text_of r.payout_ref) s.db
      else s.db);
}

abbrev failed_once : ℕ → ℕ → ConfirmState → ConfirmState
failed_once now id s = if member id s.failed_transfer_alerted then s else record s {
  db = alert now p1 payout (transfer_failed id) s.db;
  failed_transfer_alerted = id ∷ s.failed_transfer_alerted;
}

-- One row of `confirm_payouts_once`, by what the chain says of its transaction.
unfoldable pub confirm_row :
    ℕ → RedemptionIntent → Option Bool → Option Bool → ClaimAnswer → ConfirmState → ConfirmState
unfolding record_paid
confirm_row now r (some true) (some true) outcome s = record_paid now r outcome s
confirm_row now r (some true) (some false) outcome s = failed_once now r.id s
confirm_row now r (some true) none outcome s = s
confirm_row now r (some false) succeeded outcome s = s
confirm_row now r none succeeded outcome s = s

unfoldable pub confirm_rows : ℕ → ChainView → List RedemptionIntent → ConfirmState → ConfirmState
unfolding confirm_row
confirm_rows now view [] s = s
confirm_rows now view (r ∷ rows) s =
    let tx = text_of r.payout_ref in
    confirm_rows now view rows (
      confirm_row now r (view.transaction_confirmed tx) (view.transfer_succeeded tx)
        (view.recorded r.id) s)

unfoldable pub confirm_payouts_once : ℕ → ChainView → ConfirmState → ConfirmState
unfolding confirm_rows order_by
confirm_payouts_once now view s =
    confirm_rows now view
      (order_by (λ r. r.updated_at) (where_rows has_transfer s.db.redemption_intents)) s

-- What the relay, the chain and the signer say during a pass of `confirm_gasfree_payouts_once`.
pub record RelayView : Type 0 where
  -- The transaction of a trace, if the relay's record is readable and names one.
  pub trace : Text → Option (Option Text)
  -- The chain shows the transfer from the float that pays this redemption.
  pub confirmed_transfer : Text → ℕ → Option Bool
  pub another_readable : ℕ → Bool
  pub recorded : ℕ → ClaimAnswer
  pub float_owner : Option (Text × Option Text)
  pub gasfree_nonce : Text → Option ℕ
  pub written : ℕ → Bool

unfoldable pub paid_by_another : ℕ → Text → Db → Option RedemptionIntent
paid_by_another id tx db =
    find (λ r. elim r.payout_ref [ none ↦ false | some t ↦ text_eq t tx && not (r.id == id) ])
      db.redemption_intents

-- How far the relay's record settles a row: it is decided in this pass, with the payouts it adds
-- to the count, or left to the nonce of the float.
pub data Traced : Type 0 where
  decided : ℕ → Db → Traced
  undecided : Db → Traced

unfoldable pub take_transfer :
    ℕ → RedemptionIntent → Text → ClaimAnswer → Option RedemptionIntent → Db → Traced
unfolding pay_intent alert_once
take_transfer now r tx answered none db = decided 1 (pay_intent now r.id r.payout_amount_usdt tx db)
take_transfer now r tx (errored committed) none db = decided 0 (
    alert now p1 payout (confirmed_unrecorded r.id)
      (if committed then pay_intent now r.id r.payout_amount_usdt tx db else db))
take_transfer now r tx outcome (some other) db =
    undecided (alert_once 3600 now p1 payout (paid_another r.id tx other.id) db)

abbrev pub by_transfer : ℕ → RelayView → RedemptionIntent → Text → Option Bool → Db → Traced
by_transfer now view r tx none db = decided 0 db
by_transfer now view r tx (some false) db = undecided db
by_transfer now view r tx (some true) db =
    if view.another_readable r.id
    then take_transfer now r tx (view.recorded r.id) (paid_by_another r.id tx db) db
    else decided 0 db

abbrev pub by_record : ℕ → RelayView → RedemptionIntent → Option (Option Text) → Db → Traced
by_record now view r (some (some tx)) db =
    by_transfer now view r tx (view.confirmed_transfer tx r.id) db
by_record now view r _ db = undecided db

unfoldable pub trace_payout : ℕ → RelayView → RedemptionIntent → Option Text → Db → Traced
unfolding take_transfer paid_by_another
trace_payout now view r none db = undecided db
trace_payout now view r (some trace_id) db = by_record now view r (view.trace trace_id) db

abbrev pub unpermit : ℕ → RedemptionIntent → RedemptionIntent
unpermit now r = record r {
  status = RedemptionStatus.payout_pending;
  payout_trace_id = none;
  payout_permit_nonce = none;
  payout_permit_deadline = none;
  updated_at = now;
}

abbrev pub hand_over : RedemptionIntent → RedemptionIntent
hand_over r = record r { payout_permit_nonce = none }

-- The float's nonce against the permit's, once the permit can no longer run.
unfoldable pub by_nonce : ℕ → ℕ → ℤ → Bool → ℕ → Db → Db
unfolding as_u64
by_nonce now id nonce written chain_nonce db =
    if leb chain_nonce (as_u64 nonce)
    then (if written
        then record db {
          redemption_intents =
              update (λ r. r.id == id && is_payout_submitted r.status && not (is_some r.payout_ref))
                (unpermit now) db.redemption_intents;
        }
        else db)
    else (let db' = alert now p1 payout (nonce_moved id) db in
        if written
        then record db' {
          redemption_intents = update (redemption_is id) hand_over db.redemption_intents;
        }
        else db')

abbrev pub read_nonce : ℕ → ℕ → ℤ → Bool → Option ℕ → Db → Db
read_nonce now id nonce written none db = db
read_nonce now id nonce written (some n) db = by_nonce now id nonce written n db

abbrev pub is_float : Text → Option Text → Bool
is_float float none = false
is_float float (some t) = text_eq t float

unfoldable pub after_deadline : ℕ → RelayView → Text → ℕ → ℤ → Option (Text × Option Text) → Db → Db
unfolding by_nonce alert_once
after_deadline now view float id nonce none db = db
after_deadline now view float id nonce (some (owner, signers)) db =
    if is_float float signers
    then read_nonce now id nonce (view.written id) (view.gasfree_nonce owner) db
    else alert_once 3600 now p1 payout (float_differs signers) db

-- One row of `confirm_gasfree_payouts_once`.
abbrev pub settle_traced : ℕ → RelayView → Text → RedemptionIntent → ℤ → ℤ → Traced → ℕ × Db
settle_traced now view float r nonce deadline (decided n db) = (n, db)
settle_traced now view float r nonce deadline (undecided db) =
    if leb_ℤ (pos now) (add_i64 deadline (pos deadline_grace_secs))
    then (0, db)
    else (0, after_deadline now view float r.id nonce view.float_owner db)

-- A row whose permit is not recorded in full is not decoded: both columns are written together.
unfoldable pub settle_row :
    ℕ → RelayView → Text → RedemptionIntent → Option ℤ → Option ℤ → Db → ℕ × Db
unfolding trace_payout after_deadline add_i64
settle_row now view float r (some nonce) (some deadline) db =
    settle_traced now view float r nonce deadline (trace_payout now view r r.payout_trace_id db)
settle_row now view float r _ _ db = (0, db)

abbrev pub has_permit : RedemptionIntent → Bool
has_permit r =
    is_payout_submitted r.status && not (is_some r.payout_ref) && is_some r.payout_permit_nonce

abbrev time_of : Option ℕ → ℕ
time_of none = 0
time_of (some t) = t

unfoldable pub settle_rows : ℕ → RelayView → Text → List RedemptionIntent → Db → ℕ × Db
unfolding settle_row
settle_rows now view float [] db = (0, db)
settle_rows now view float (r ∷ rows) db =
    let (n, db') = settle_row now view float r r.payout_permit_nonce r.payout_permit_deadline db in
    let (m, db'') = settle_rows now view float rows db' in (n + m, db'')

-- `float` is `config.gasfree_float()`.
unfoldable pub confirm_gasfree_payouts_once : ℕ → RelayView → Option Text → Db → ℕ × Db
unfolding settle_rows order_by
confirm_gasfree_payouts_once now view none db = (0, db)
confirm_gasfree_payouts_once now view (some float) db =
    settle_rows now view float
      (order_by (λ r. time_of r.payout_submitted_at) (where_rows has_permit db.redemption_intents))
      db
