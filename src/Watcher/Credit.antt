-- ===== src/Watcher/Credit.antt =====
-- Crediting a mint (watcher.rs, `credit_mint`): exactly once, by the unique event of an intent.
use clutch_treasury.Base.{
  ℕ, ◌≡◌, refl, true, ◌&&◌, not, ◌==◌, Option, some, List, [], ◌∷◌, arith, if◌then◌else◌, update,
  update_twice, exists_row, exists_row-append, Text, Bool-cases, inl, inr, is_some, ap, ◌∙◌,
}
use clutch_treasury.Base.Int.{pos, ◌+ℤ◌}
use clutch_treasury.Store.{MintIntent, OutboxRow, EventKind, mint_executed, Db}
use clutch_treasury.Ledger.{balances, insert_event_once, is_event_of, intent_event}
use clutch_treasury.Ledger.Totals.{snoc_event-Moves}
use clutch_treasury.Watcher.{
  credit_mint, credit_rows, is_creditable, set_credited, set_hash, set_confirmed,
}

mint_rows_twice :
    (now later id : ℕ) (h h' : Text) (xs : List MintIntent)
    → let hashless = λ (i : MintIntent). i.id == id && not (is_some i.chain_tx_hash) in
      let open_intent = λ (i : MintIntent). i.id == id && is_creditable i.status in
      update hashless (set_hash h') (
        update open_intent
          (set_credited later)
          (update hashless (set_hash h) (update open_intent (set_credited now) xs)))
      ≡ update hashless (set_hash h) (update open_intent (set_credited now) xs)
mint_rows_twice now later id h h' xs = update_twice _ _ _ _ _ _ (λ x. ground arith) xs

outbox_rows_twice :
    (id : ℕ) (xs : List OutboxRow)
    → update
        (λ o. o.intent_id == id)
        set_confirmed
        (update (λ o. o.intent_id == id) set_confirmed xs)
      ≡ update (λ o. o.intent_id == id) set_confirmed xs
unfolding update
outbox_rows_twice id [] = refl
outbox_rows_twice id (x ∷ xs) = ground (arith, outbox_rows_twice id xs)

-- After the insert the event is there.
pub insert_event_once-exists :
    (id : ℕ) (kind : EventKind) (clt usdt : ℕ) (h : Option Text) (db : Db)
    → exists_row (is_event_of id kind) (insert_event_once id kind clt usdt h db).treasury_events
      ≡ true
unfolding insert_event_once exists_row
insert_event_once-exists id kind clt usdt h db = ground (
  arith,
  exists_row-append (is_event_of id kind) db.treasury_events (
      record {
        kind = kind;
        amount_clt = clt;
        amount_usdt = usdt;
        intent_id = some id;
        chain_tx_hash = h;
      }
      ∷ []),
)

insert_event_once_skip :
    (id : ℕ) (kind : EventKind) (clt usdt : ℕ) (h : Option Text) (db : Db)
    → exists_row (is_event_of id kind) db.treasury_events ≡ true
    → insert_event_once id kind clt usdt h db ≡ db
unfolding insert_event_once
insert_event_once_skip id kind clt usdt h db e = rw e

credit_rows_twice :
    (now later id : ℕ) (h h' : Text) (db : Db)
    → credit_rows later id h' (credit_rows now id h db) ≡ credit_rows now id h db
unfolding credit_rows
credit_rows_twice now later id h h' db = λ i. record db {
  mint_intents = mint_rows_twice now later id h h' db.mint_intents i;
  chain_outbox = outbox_rows_twice id db.chain_outbox i;
}

-- Crediting the same intent again, at any later time and with any amount or hash, changes nothing:
-- a replayed block, after a crash or a rewound cursor, credits once.
pub credit_mint_twice :
    (now later id amount amount' : ℕ) (h h' : Text) (db : Db)
    → credit_mint later id amount' h' (credit_mint now id amount h db)
      ≡ credit_mint now id amount h db
unfolding credit_mint insert_event_once
credit_mint_twice now later id amount amount' h h' db =
    ap (credit_rows later id h')
      (insert_event_once_skip id mint_executed amount' 0 (some h') _ there)
    ∙ credit_rows_twice now later id h h' _
  where
    there :
        exists_row (is_event_of id mint_executed) (credit_mint now id amount h db).treasury_events
        ≡ true
    there = insert_event_once-exists id mint_executed amount 0 (some h) db

-- What crediting does to the ledger: the liability rises by the minted amount if the intent has
-- no `mint_executed` event yet, and stays as it is if it has one; custody never moves.
pub credit_mint-balances :
    (now id amount : ℕ) (h : Text) (db : Db)
    → ((balances (credit_mint now id amount h db)).clt_liability ≡ (
        if exists_row (is_event_of id mint_executed) db.treasury_events
        then (balances db).clt_liability
        else (balances db).clt_liability +ℤ pos amount))
      × ((balances (credit_mint now id amount h db)).custody_usdt ≡ (balances db).custody_usdt)
unfolding credit_mint insert_event_once balances
credit_mint-balances now id amount h db =
    elim (Bool-cases (exists_row (is_event_of id mint_executed) db.treasury_events)) [
      | inl present ↦ rw present (refl, refl)
      | inr absent ↦
          rw absent (snoc_event-Moves (intent_event id mint_executed amount 0 (some h)) db)
    ]
