-- ===== src/Verifier/Approve.antt =====
-- The writes of the verifier: crates/treasury-service/src/tron_verifier.rs, `approve_and_ledger`,
-- `reject_and_alert`, `backfill_deposit_tx_id` and `stuck_intent_sweep`. A transaction that the
-- database aborts is `none`, and nothing of it is kept.
use clutch_treasury.Base.{
  ℕ, suc, ◌+◌, Bool, true, false, ◌&&◌, ◌||◌, not, ◌==◌, Option, none, some, List, [], ◌∷◌, ◌++◌,
  if◌then◌else◌, ltb, length, Text, codes, text_eq, update, exists_row,
}
use clutch_treasury.Base.Int.{ℤ, pos, pos_part, ltb_ℤ, leb_ℤ, ◌-ℤ◌}
use clutch_treasury.Store.{
  MintIntent, MintStatus, Db, Reason, already_claimed, custody_deposit, p1, warn, tron_verifier,
  mint_rejected, unresolved_day, unresolved_half_hour,
}
use clutch_treasury.Ledger.{alert, alert_once, insert_event_once}
use clutch_treasury.Intents.{has_id, same_text, for_intent, new_outbox_row}
use clutch_treasury.ServiceFee.{Settings, split_off}
use clutch_treasury.Verifier.Judge.{Faults}

abbrev pub is_created : MintStatus → Bool
is_created s = elim s [ MintStatus.created ↦ true | _ ↦ false ]

abbrev pub is_approved : MintStatus → Bool
is_approved s = elim s [ MintStatus.approved ↦ true | _ ↦ false ]

-- `WHERE id = $1 AND status = 'created'`.
abbrev pub is_open : ℕ → MintIntent → Bool
is_open id i = i.id == id && is_created i.status

abbrev pub verifier_name : Text
verifier_name = codes "tron-verifier"

-- `LEAST(amount_clt, cap)`.
abbrev pub least : ℕ → ℤ → ℤ
least amount cap = if ltb_ℤ cap (pos amount) then cap else pos amount

abbrev pub capped_amount : Option ℤ → ℕ → ℕ
capped_amount none amount = amount
capped_amount (some cap) amount = pos_part (least amount cap)

abbrev pub held_back : Option ℤ → ℤ → ℕ → Option ℕ
held_back none observed amount = none
held_back (some cap) observed amount = some (pos_part (observed -ℤ least amount cap))

abbrev pub set_verified : ℕ → MintStatus → Option ℤ → ℤ → MintIntent → MintIntent
set_verified now status cap observed i = record i {
  status = status;
  approved_by = some verifier_name;
  verified_at = some now;
  updated_at = now;
  amount_clt = capped_amount cap i.amount_clt;
  fee_held_usdt = held_back cap observed i.amount_clt;
}

-- The CHECKs on the two amounts.
abbrev bad_amounts : Option ℤ → ℤ → ℕ → Bool
bad_amounts none observed amount = false
bad_amounts (some cap) observed amount =
    leb_ℤ (least amount cap) (pos 0) || ltb_ℤ observed (least amount cap)

-- With `four_eyes`, the CHECKs that the update of a row can violate.
abbrev pub violates : Option ℤ → ℤ → MintIntent → Bool
violates cap observed i =
    bad_amounts cap observed i.amount_clt || text_eq i.created_by verifier_name

-- `INSERT INTO chain_outbox`, whose `intent_id` is unique.
abbrev pub insert_outbox : ℕ → ℕ → Db → Option Db
insert_outbox now id db =
    if exists_row (for_intent id) db.chain_outbox
    then none
    else some (record db {
      chain_outbox = db.chain_outbox ++ new_outbox_row now (suc (length db.chain_outbox)) id ∷ [];
    })

abbrev pub after_split : ℕ → ℕ → Option (ℤ × Db) → Option Db
after_split now id none = none
after_split now id (some r) = insert_outbox now id r.1

abbrev pub charge_fee : ℕ → Option Settings → ℕ → ℕ → Text → Db → Option Db
charge_fee now none id fee_id fee_ref db = insert_outbox now id db
charge_fee now (some settings) id fee_id fee_ref db =
    after_split now id (split_off now settings id fee_id fee_ref db)

-- The fee and the outbox row, for an approval only.
unfoldable pub enqueue_mint : ℕ → MintStatus → Option Settings → ℕ → ℕ → Text → Db → Option Db
unfolding split_off
enqueue_mint now status service_fee id fee_id fee_ref db =
    if is_approved status then charge_fee now service_fee id fee_id fee_ref db else some db

-- The event of the deposit; the CHECK on its amount comes before the conflict.
unfoldable pub ledger_deposit : ℕ → ℤ → Text → Option Db → Option (Bool × Db)
unfolding insert_event_once
ledger_deposit id observed tx_id none = none
ledger_deposit id observed tx_id (some db) =
    if ltb_ℤ observed (pos 0)
    then none
    else some (true, insert_event_once id custody_deposit 0 (pos_part observed) (some tx_id) db)

unfoldable pub approve_and_ledger :
    Faults
    → ℕ
    → ℕ
    → ℤ
    → Text
    → MintStatus
    → Option ℤ
    → Option Settings
    → ℕ
    → Text
    → Db
    → Option (Bool × Db)
unfolding enqueue_mint ledger_deposit
approve_and_ledger faults now id observed tx_id status cap service_fee fee_id fee_ref db =
    if faults.approval
    then none
    else if not (exists_row (is_open id) db.mint_intents)
    then some (false, db)
    else if exists_row (λ i. is_open id i && violates cap observed i) db.mint_intents
    then none
    else ledger_deposit id observed tx_id (
        enqueue_mint now status service_fee id fee_id fee_ref (record db {
          mint_intents = update (is_open id) (set_verified now status cap observed) db.mint_intents;
        }))

abbrev pub set_rejected : ℕ → MintIntent → MintIntent
set_rejected now i = record i { status = MintStatus.rejected; updated_at = now }

-- `none` is a failed write.
unfoldable pub reject_and_alert : Faults → ℕ → ℕ → Reason → Db → Option Db
reject_and_alert faults now id reason db =
    if faults.rejection
    then none
    else some (
        if exists_row (is_open id) db.mint_intents
        then alert now warn tron_verifier (mint_rejected id reason)
            (record db { mint_intents = update (is_open id) (set_rejected now) db.mint_intents })
        else db)

abbrev pub set_deposit_tx : ℕ → Text → MintIntent → MintIntent
set_deposit_tx now tx_id i = record i { deposit_tx_id = some tx_id; updated_at = now }

-- Another intent has claimed the transfer (`uq_mint_intents_deposit_tx`).
abbrev pub claimed_by_other : ℕ → Text → MintIntent → Bool
claimed_by_other id tx_id j = not (j.id == id) && same_text j.deposit_tx_id (some tx_id)

abbrev pub lost : Db → Option Db → Option Bool × Db
lost db none = (none, db)
lost db (some db') = (some false, db')

-- `none` is an error that decides nothing.
unfoldable pub backfill_deposit_tx_id : Faults → ℕ → ℕ → Text → Db → Option Bool × Db
unfolding reject_and_alert text_eq
backfill_deposit_tx_id faults now id tx_id db =
    if faults.backfill
    then (none, db)
    else if exists_row (has_id id) db.mint_intents
        && exists_row (claimed_by_other id tx_id) db.mint_intents
    then lost db (reject_and_alert faults now id (already_claimed tx_id) db)
    else (
      some true,
      record db { mint_intents = update (has_id id) (set_deposit_tx now tx_id) db.mint_intents },
    )

abbrev pub alert_stuck : ℕ → MintIntent → Db → Db
alert_stuck now i db =
    if ltb (i.created_at + 86400) now
    then alert_once 3600 now p1 tron_verifier (unresolved_day i.id) db
    else if ltb (i.created_at + 1800) now
    then alert_once 3600 now warn tron_verifier (unresolved_half_hour i.id) db
    else db

unfoldable pub stuck_intent_sweep : ℕ → List MintIntent → Db → Db
unfolding alert_once
stuck_intent_sweep now [] db = db
stuck_intent_sweep now (i ∷ rows) db = stuck_intent_sweep now rows (alert_stuck now i db)
