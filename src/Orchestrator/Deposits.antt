-- ===== src/Orchestrator/Deposits.antt =====
-- The deposit rows and their guarded transitions: crates/payment-orchestrator/src/deposits.rs and
-- alerts.rs.
use clutch_treasury.Base.{
  ℕ, ◌+◌, ◌*◌, ◌/◌, ◌^◌, min, suc, Bool, true, false, ◌&&◌, ◌||◌, not, ◌==◌, Option, none, some,
  List, [], ◌∷◌, ◌++◌, if◌then◌else◌, is_some, leb, length, Text, text_eq, option_text_eq, update,
  find, where_rows, exists_row, order_by,
}
use clutch_treasury.Base.Int.{ℤ, pos, pos_part, leb_ℤ}
use clutch_treasury.Store.{Severity}
use clutch_treasury.Orchestrator.Store.{
  DepositStatus, created, invoiced, paying, confirmed, mint_requested, credited, expired, failed,
  needs_manual, DepositIntent, Message, Source, OrchDb,
}

abbrev pub alert : ℕ → Severity → Source → Message → OrchDb → OrchDb
alert now severity source message db = record db {
  alerts =
      db.alerts
      ++ record { severity = severity; source = source; message = message; created_at = now } ∷ [];
}

abbrev pub same_status : DepositStatus → DepositStatus → Bool
same_status created created = true
same_status invoiced invoiced = true
same_status paying paying = true
same_status confirmed confirmed = true
same_status mint_requested mint_requested = true
same_status credited credited = true
same_status expired expired = true
same_status failed failed = true
same_status needs_manual needs_manual = true
same_status _ _ = false

-- `status = ANY(from)`.
abbrev pub is_any : List DepositStatus → DepositStatus → Bool
is_any [] s = false
is_any (t ∷ from) s = same_status t s || is_any from s

abbrev pub has_id : ℕ → DepositIntent → Bool
has_id id i = i.id == id

abbrev pub has_tx : Text → DepositIntent → Bool
has_tx tx_id i = option_text_eq i.tron_tx_id (some tx_id)

-- `nextval`: the sequence ends at 2 ^ 31 - 1 and does not cycle. An index that is drawn is gone.
unfoldable allocate_derivation_index : OrchDb → Option ℕ × OrchDb
allocate_derivation_index db =
    if leb db.next_index 2147483647
    then (some db.next_index, record db { next_index = suc db.next_index })
    else (none, db)

unfoldable pub find_by_id : ℕ → OrchDb → Option DepositIntent
find_by_id id db = find (has_id id) db.deposit_intents

abbrev pub set_status : DepositStatus → DepositIntent → DepositIntent
set_status to i = record i { status = to }

abbrev pub may_leave : ℕ → List DepositStatus → DepositIntent → Bool
may_leave id from i = has_id id i && is_any from i.status

-- `true` where exactly one row moved.
unfoldable pub transition : ℕ → List DepositStatus → DepositStatus → OrchDb → Bool × OrchDb
unfolding update where_rows
transition id from to db = (
  length (where_rows (may_leave id from) db.deposit_intents) == 1,
  record db { deposit_intents = update (may_leave id from) (set_status to) db.deposit_intents },
)

abbrev pub lacks_tx : ℕ → DepositIntent → Bool
lacks_tx id i = has_id id i && not (is_some i.tron_tx_id)

abbrev pub set_tx : Text → ℤ → DepositIntent → DepositIntent
set_tx tx_id at i = record i { tron_tx_id = some tx_id; transfer_at = some at }

-- `none` where the write breaks the index `uq_deposit_intents_tron_tx_id`.
unfoldable pub set_tron_tx_id : ℕ → Text → ℤ → OrchDb → Option OrchDb
unfolding update exists_row option_text_eq text_eq
set_tron_tx_id id tx_id at db =
    if exists_row (lacks_tx id) db.deposit_intents && exists_row (has_tx tx_id) db.deposit_intents
    then none
    else some
        (record db { deposit_intents = update (lacks_tx id) (set_tx tx_id at) db.deposit_intents })

abbrev pub lacks_received : ℕ → DepositIntent → Bool
lacks_received id i = has_id id i && not (is_some i.received_usdt)

abbrev pub set_received : ℕ → DepositIntent → DepositIntent
set_received received i = record i { received_usdt = some received }

-- `none` where the write breaks the CHECK `received_usdt > 0`.
unfoldable pub set_received_usdt : ℕ → ℤ → OrchDb → Option OrchDb
unfolding update exists_row
set_received_usdt id received db =
    if exists_row (lacks_received id) db.deposit_intents && leb_ℤ received (pos 0)
    then none
    else some (record db {
      deposit_intents =
          update (lacks_received id) (set_received (pos_part received)) db.deposit_intents;
    })

abbrev pub lacks_treasury : ℕ → DepositIntent → Bool
lacks_treasury id i = has_id id i && not (is_some i.treasury_intent_id)

abbrev pub set_treasury : ℕ → DepositIntent → DepositIntent
set_treasury treasury_id i = record i { treasury_intent_id = some treasury_id }

unfoldable pub set_treasury_intent_id : ℕ → ℕ → OrchDb → OrchDb
unfolding update
set_treasury_intent_id id treasury_id db = record db {
  deposit_intents = update (lacks_treasury id) (set_treasury treasury_id) db.deposit_intents;
}

-- The exponent stops at ilog2(300) + 1.
unfoldable pub backoff_secs : ℕ → ℕ
backoff_secs attempts = min (5 * 2 ^ min attempts 9) 300

abbrev pub count_failure : ℕ → (ℕ → ℕ) → DepositIntent → DepositIntent
count_failure now draw i =
    let wait : ℕ = backoff_secs (suc i.attempts) in
    record i { attempts = suc i.attempts; next_attempt_at = now + 1000 * (wait + draw (wait / 2)) }

abbrev tally : Option DepositIntent → Option ℕ
tally none = none
tally (some i) = some (suc i.attempts)

-- The new count of failures; `draw` is the random jitter up to its argument. `none`: no such row.
unfoldable pub record_attempt_failure : ℕ → (ℕ → ℕ) → ℕ → OrchDb → Option ℕ × OrchDb
unfolding update find_by_id
record_attempt_failure now draw id db = (
  tally (find_by_id id db),
  record db { deposit_intents = update (has_id id) (count_failure now draw) db.deposit_intents },
)

abbrev pub clear_attempts : DepositIntent → DepositIntent
clear_attempts i = record i { attempts = 0 }

unfoldable pub reset_attempts : ℕ → OrchDb → OrchDb
unfolding update
reset_attempts id db = record db {
  deposit_intents = update (has_id id) clear_attempts db.deposit_intents;
}

abbrev pub due_to_request : ℕ → DepositIntent → Bool
due_to_request now i = same_status i.status confirmed && leb i.next_attempt_at now

unfoldable pub due_for_mint_request : ℕ → OrchDb → List DepositIntent
unfolding where_rows order_by
due_for_mint_request now db =
    order_by (λ i. i.created_at) (where_rows (due_to_request now) db.deposit_intents)

abbrev pub due_to_poll : ℕ → DepositIntent → Bool
due_to_poll now i =
    is_any (mint_requested ∷ needs_manual ∷ []) i.status
    && is_some i.treasury_intent_id
    && leb i.next_attempt_at now

unfoldable pub due_for_status_poll : ℕ → OrchDb → List DepositIntent
unfolding where_rows order_by
due_for_status_poll now db =
    order_by (λ i. i.created_at) (where_rows (due_to_poll now) db.deposit_intents)

abbrev pub put_off : ℕ → DepositIntent → DepositIntent
put_off until i = record i { next_attempt_at = until }

unfoldable pub defer_poll : ℕ → ℕ → ℕ → OrchDb → OrchDb
unfolding update
defer_poll now id hours db = record db {
  deposit_intents = update (has_id id) (put_off (now + 3600000 * hours)) db.deposit_intents;
}

-- What an INSERT … ON CONFLICT (tron_tx_id) DO NOTHING does: `refused` breaks another constraint.
pub data Insert : Type 0 where
  inserted : OrchDb → Insert
  unchanged refused : Insert

-- The primary key and UNIQUE (user_pk, client_key).
abbrev pub clashes : DepositIntent → DepositIntent → Bool
clashes new i =
    i.id == new.id || text_eq i.user_pk new.user_pk && text_eq i.client_key new.client_key

unfoldable pub insert_deposit : Text → DepositIntent → OrchDb → Insert
unfolding exists_row option_text_eq text_eq
insert_deposit tx_id new db =
    if exists_row (has_tx tx_id) db.deposit_intents
    then unchanged
    else if exists_row (clashes new) db.deposit_intents
    then refused
    else inserted (record db { deposit_intents = db.deposit_intents ++ new ∷ [] })
