-- ===== src/Watcher.antt =====
-- The chain watcher: crates/treasury-service/src/watcher.rs. The node's answers are arguments: the
-- head, and the transactions of each block with the JSON fields that the watcher reads.
pub mod Range
pub mod Credit
pub mod Burn
use clutch_treasury.Base.{
  ℕ, suc, zero, ◌+◌, ◌-◌, Bool, true, false, ◌&&◌, ◌||◌, not, ◌==◌, Option, none, some, List, [],
  ◌∷◌, if◌then◌else◌, ltb, leb, is_some, Text, text_eq, eq_ignore_ascii_case, update, find,
}
use clutch_treasury.Base.Int.{ℤ, pos, pos_part, leb_ℤ}
use clutch_treasury.Store.{
  MintIntent, MintStatus, RedemptionIntent, RedemptionStatus, OutboxRow, OutboxStatus, Db,
  mint_executed, burn_redeemed, p1, watcher, chain_shrank, burn_mismatch,
}
use clutch_treasury.Ledger.{alert, insert_event_once}

-- `status IN ('submitted', 'approved')`.
abbrev pub is_creditable : MintStatus → Bool
is_creditable s = elim s [ MintStatus.submitted ↦ true | MintStatus.approved ↦ true | _ ↦ false ]

abbrev pub is_credited : MintStatus → Bool
is_credited s = elim s [ MintStatus.credited ↦ true | _ ↦ false ]

abbrev pub set_credited : ℕ → MintIntent → MintIntent
set_credited now i = record i { status = MintStatus.credited; updated_at = now }

abbrev pub set_hash : Text → MintIntent → MintIntent
set_hash tx_hash i = record i { chain_tx_hash = some tx_hash }

abbrev pub set_confirmed : OutboxRow → OutboxRow
set_confirmed o = record o { status = OutboxStatus.confirmed }

-- The three UPDATE statements of `credit_mint`.
unfoldable pub credit_rows : ℕ → ℕ → Text → Db → Db
credit_rows now intent_id tx_hash db = record db {
  mint_intents =
      update (λ i. i.id == intent_id && not (is_some i.chain_tx_hash)) (set_hash tx_hash)
        (update (λ i. i.id == intent_id && is_creditable i.status) (set_credited now)
          db.mint_intents);
  chain_outbox = update (λ o. o.intent_id == intent_id) set_confirmed db.chain_outbox;
}

unfoldable pub credit_mint : ℕ → ℕ → ℕ → Text → Db → Db
unfolding insert_event_once credit_rows
credit_mint now intent_id amount_clt tx_hash db =
    credit_rows now intent_id tx_hash
      (insert_event_once intent_id mint_executed amount_clt 0 (some tx_hash) db)

abbrev pub is_awaiting_burn : RedemptionStatus → Bool
is_awaiting_burn s = elim s [ RedemptionStatus.created ↦ true | _ ↦ false ]

abbrev set_burn_failed : ℕ → RedemptionIntent → RedemptionIntent
set_burn_failed now r = record r { status = RedemptionStatus.failed; updated_at = now }

abbrev set_payout_pending : ℕ → Text → RedemptionIntent → RedemptionIntent
set_payout_pending now tx_hash r = record r {
  status = RedemptionStatus.payout_pending;
  burn_tx_hash = some tx_hash;
  updated_at = now;
}

abbrev pub eq_ℤ : ℤ → ℤ → Bool
eq_ℤ a b = leb_ℤ a b && leb_ℤ b a

-- Who burned, how much, and for whom: what `confirm_burn` compares.
abbrev pub burn_matches : RedemptionIntent → Text → ℤ → Bool
burn_matches r sender amount_clt =
    eq_ignore_ascii_case r.redeemer_address sender && eq_ℤ (pos r.amount_clt) amount_clt

-- The three writes of `confirm_burn` for the redemption that it found.
unfoldable pub settle_burn : ℕ → RedemptionIntent → Text → ℤ → Text → Db → Db
unfolding insert_event_once
settle_burn now r sender amount_clt tx_hash db =
    if burn_matches r sender amount_clt
    then (let db' =
          insert_event_once r.id burn_redeemed (pos_part amount_clt) 0 (some tx_hash) db in
        record db' {
          redemption_intents =
              update (λ x. x.id == r.id && is_awaiting_burn x.status)
                (set_payout_pending now tx_hash) db.redemption_intents;
        })
    else alert now p1 watcher (burn_mismatch r.id) (record db {
      redemption_intents = update (λ x. x.id == r.id) (set_burn_failed now) db.redemption_intents;
    })

-- The redemption that a reference names while its burn is awaited.
abbrev pub awaited : Text → Db → Option RedemptionIntent
awaited redemption_ref db =
    find (λ r. text_eq r.redemption_ref redemption_ref && is_awaiting_burn r.status)
      db.redemption_intents

unfoldable pub settle_found : ℕ → Option RedemptionIntent → Text → ℤ → Text → Db → Db
unfolding settle_burn
settle_found now none sender amount_clt tx_hash db = db
settle_found now (some r) sender amount_clt tx_hash db =
    settle_burn now r sender amount_clt tx_hash db

unfoldable pub confirm_burn : ℕ → Text → Text → ℤ → Text → Db → Db
unfolding settle_found
confirm_burn now redemption_ref sender amount_clt tx_hash db =
    settle_found now (awaited redemption_ref db) sender amount_clt tx_hash db

pub data Scan : Type 0 where
  range : ℕ → ℕ → Scan
  up_to_date chain_shrunk : Scan

-- `process_range`. Subtraction on ℕ stops at 0, as `saturating_sub` does.
unfoldable pub process_range : ℕ → ℕ → ℕ → Scan
process_range cursor head confirmations =
    if ltb head cursor
    then chain_shrunk
    else if leb (head - confirmations) cursor
    then up_to_date
    else range (cursor + 1) (head - confirmations)

pub data FunctionCall : Type 0 where
  mint burn other_call : FunctionCall

-- The fields of a block's transaction that the watcher reads; a missing hash or sender is empty.
pub record Tx : Type 0 where
  pub function_call_type : FunctionCall
  pub credit_ref : Option Text
  pub redemption_ref : Option Text
  pub amount : Option ℤ
  pub sender : Text
  pub hash : Text

unfoldable pub process_mint : ℕ → Option Text → Text → Db → Db
unfolding credit_mint
process_mint now none tx_hash db = db
process_mint now (some credit_ref) tx_hash db =
    elim (find (λ i. text_eq i.credit_ref credit_ref && not (is_credited i.status))
      db.mint_intents) [ none ↦ db | some i ↦ credit_mint now i.id i.amount_clt tx_hash db ]

unfoldable pub process_burn : ℕ → Option Text → Option ℤ → Text → Text → Db → Db
process_burn now (some redemption_ref) (some amount_clt) sender tx_hash db =
    confirm_burn now redemption_ref sender amount_clt tx_hash db
process_burn now _ _ sender tx_hash db = db

unfoldable pub process_tx : ℕ → Tx → Db → Db
process_tx now tx db = elim tx.function_call_type [
  | mint ↦ process_mint now tx.credit_ref tx.hash db
  | burn ↦ process_burn now tx.redemption_ref tx.amount tx.sender tx.hash db
  | other_call ↦ db
]

unfoldable pub process_block : ℕ → List Tx → Db → Db
unfolding process_tx
process_block now [] db = db
process_block now (tx ∷ txs) db = process_block now txs (process_tx now tx db)

-- The loop of `poll_once` over `count` heights from `height`: the cursor moves after each block,
-- and an unreadable block ends the poll with an error.
unfoldable pub process_heights : ℕ → (ℕ → Option (List Tx)) → ℕ → ℕ → Db → Bool × Db
process_heights now blocks zero height db = (true, db)
process_heights now blocks (suc count) height db = elim (blocks height) [
  | none ↦ (false, db)
  | some txs ↦
      process_heights now blocks count (suc height)
        (record (process_block now txs db) { last_processed_height = height })
]

-- What `poll_once` does with a scan.
unfoldable pub run_scan : ℕ → (ℕ → Option (List Tx)) → Scan → Db → Bool × Db
unfolding process_heights
run_scan now blocks (range first last) db = process_heights now blocks (suc last - first) first db
run_scan now blocks up_to_date db = (true, db)
run_scan now blocks chain_shrunk db =
    (true, record (alert now p1 watcher chain_shrank db) { last_processed_height = 0 })

-- `poll_once`; `false` is its `Err`.
unfoldable pub poll_once : ℕ → Option ℕ → (ℕ → Option (List Tx)) → ℕ → Db → Bool × Db
unfolding run_scan
poll_once now none blocks confirmations db = (false, db)
poll_once now (some head) blocks confirmations db =
    run_scan now blocks (process_range db.last_processed_height head confirmations) db
