-- ===== src/Verifier/Books.antt =====
-- What an approval writes to the ledger (tron_verifier.rs, `approve_and_ledger`).
use clutch_treasury.Base.{
  ℕ, ◌≡◌, ◌≢◌, inl, inr, refl, sym, ap, ◌∙◌, Bool, true, false, ◌&&◌, not, Option, none, some,
  arith, Bool-cases, if◌then◌else◌, exists_row, update, Text,
}
use clutch_treasury.Base.Int.{ℤ, pos, pos_part, ltb_ℤ, ◌+ℤ◌}
use clutch_treasury.Store.{MintStatus, Db, custody_deposit}
use clutch_treasury.Ledger.{balances, insert_event_once, is_event_of, intent_event}
use clutch_treasury.Ledger.Totals.{snoc_event-Moves}
use clutch_treasury.ServiceFee.{Settings}
use clutch_treasury.Verifier.Judge.{Faults}
use clutch_treasury.Verifier.Approve.{
  approve_and_ledger, enqueue_mint, ledger_deposit, is_open, violates, set_verified,
}
use clutch_treasury.Verifier.Events.{enqueue_mint-events}

-- What a committed approval consists of: no fault, a row that was open, no CHECK violated, and the
-- writes one after the other.
pub record Committed (faults : Faults) (now id : ℕ) (observed : ℤ) (tx_id : Text)
    (status : MintStatus) (limit : Option ℤ) (fee : Option Settings) (fee_id : ℕ) (fee_ref : Text)
    (db db' : Db) : Type 0 where
  pub open_row : exists_row (is_open id) db.mint_intents ≡ true
  pub allowed : exists_row (λ i. is_open id i && violates limit observed i) db.mint_intents ≡ false
  pub queued : Db
  pub enqueued :
      enqueue_mint now status fee id fee_id fee_ref (record db {
        mint_intents = update (is_open id) (set_verified now status limit observed) db.mint_intents;
      })
      ≡ some queued
  pub natural : ltb_ℤ observed (pos 0) ≡ false
  pub written : db' ≡ insert_event_once id custody_deposit 0 (pos_part observed) (some tx_id) queued

abbrev payload : Option (Bool × Db) → Db → Db
payload none db = db
payload (some r) db = r.1

ledgered :
    (id : ℕ) (observed : ℤ) (tx_id : Text) (o : Option Db) (db' : Db)
    → ledger_deposit id observed tx_id o ≡ some (true, db')
    → (queued : Db) × (o ≡ some queued)
      × (ltb_ℤ observed (pos 0) ≡ false)
      × (db' ≡ insert_event_once id custody_deposit 0 (pos_part observed) (some tx_id) queued)
unfolding ledger_deposit
ledgered id observed tx_id none db' e = cc
ledgered id observed tx_id (some queued) db' e = elim (Bool-cases (ltb_ℤ observed (pos 0))) [
  | inl negative ↦
      let clash : ◌≡◌ {A = Option (Bool × Db)} none (some (true, db')) = rw negative at e in cc
  | inr natural ↦
      let e' = rw natural at e in (queued, refl, natural, ap (λ o. payload o db') (sym e'))
]

guards :
    (fault there bad : Bool) (rest : Option (Bool × Db)) (db db' : Db)
    → (if fault then none else if not there then some (false, db) else if bad then none else rest)
      ≡ some (true, db')
    → (there ≡ true) × (bad ≡ false) × (rest ≡ some (true, db'))
guards true there bad rest db db' e = cc
guards false false bad rest db db' e =
    let clash : false ≡ true = ap (λ o. elim o [ none ↦ true | some r ↦ r.0 ]) e in cc
guards false true true rest db db' e = cc
guards false true false rest db db' e = (refl, refl, e)

pub committed :
    (faults : Faults) (now id : ℕ) (observed : ℤ) (tx_id : Text) (status : MintStatus)
    (limit : Option ℤ) (fee : Option Settings) (fee_id : ℕ) (fee_ref : Text) (db db' : Db)
    → approve_and_ledger faults now id observed tx_id status limit fee fee_id fee_ref db
      ≡ some (true, db')
    → Committed faults now id observed tx_id status limit fee fee_id fee_ref db db'
unfolding approve_and_ledger
committed faults now id observed tx_id status limit fee fee_id fee_ref db db' e =
    let g =
      guards faults.approval (exists_row (is_open id) db.mint_intents)
        (exists_row (λ i. is_open id i && violates limit observed i) db.mint_intents) _ db db' e in
    let w = ledgered id observed tx_id _ db' g.2 in
    record {
      open_row = g.0;
      allowed = g.1;
      queued = w.0;
      enqueued = w.1;
      natural = w.2;
      written = w.3;
    }

balances-same :
    (db db' : Db) → db'.treasury_events ≡ db.treasury_events → balances db' ≡ balances db
unfolding balances
balances-same db db' e = rw e refl

insert_deposit-balances :
    (id usdt : ℕ) (h : Option Text) (db : Db)
    → ((balances (insert_event_once id custody_deposit 0 usdt h db)).clt_liability
        ≡ (balances db).clt_liability)
      × ((balances (insert_event_once id custody_deposit 0 usdt h db)).custody_usdt ≡ (
          if exists_row (is_event_of id custody_deposit) db.treasury_events
          then (balances db).custody_usdt
          else (balances db).custody_usdt +ℤ pos usdt))
unfolding insert_event_once
insert_deposit-balances id usdt h db =
    elim (Bool-cases (exists_row (is_event_of id custody_deposit) db.treasury_events)) [
      | inl present ↦ rw present (refl, refl)
      | inr absent ↦ rw absent (snoc_event-Moves (intent_event id custody_deposit 0 usdt h) db)
    ]

deposited-balances :
    (id : ℕ) (observed : ℤ) (h : Option Text) (db queued : Db)
    → ltb_ℤ observed (pos 0) ≡ false
    → queued.treasury_events ≡ db.treasury_events
    → let after = insert_event_once id custody_deposit 0 (pos_part observed) h queued in
      ((balances after).clt_liability ≡ (balances db).clt_liability)
      × ((balances after).custody_usdt ≡ (
          if exists_row (is_event_of id custody_deposit) db.treasury_events
          then (balances db).custody_usdt
          else (balances db).custody_usdt +ℤ observed))
deposited-balances id observed h db queued natural events =
    let same : balances queued ≡ balances db = balances-same db queued events in
    let whole : pos (pos_part observed) ≡ observed = ground (arith, natural) in
    let moved = insert_deposit-balances id (pos_part observed) h queued in
    (
      moved.0 ∙ ap (λ b. b.clt_liability) same,
      moved.1 ∙ λ i.
          if exists_row (is_event_of id custody_deposit) (events i)
          then (same i).custody_usdt
          else (same i).custody_usdt +ℤ whole i,
    )

-- A deposit that the verifier records, as an approval or as a hold, with a fee split off or not,
-- raises custody by exactly the amount that was observed, if the intent has no deposit event yet, and
-- leaves it otherwise; the liability does not move.
pub approve_and_ledger-balances :
    (faults : Faults) (now id : ℕ) (observed : ℤ) (tx_id : Text) (status : MintStatus)
    (limit : Option ℤ) (fee : Option Settings) (fee_id : ℕ) (fee_ref : Text) (db db' : Db)
    → approve_and_ledger faults now id observed tx_id status limit fee fee_id fee_ref db
      ≡ some (true, db')
    → ((balances db').clt_liability ≡ (balances db).clt_liability)
      × ((balances db').custody_usdt ≡ (
          if exists_row (is_event_of id custody_deposit) db.treasury_events
          then (balances db).custody_usdt
          else (balances db).custody_usdt +ℤ observed))
approve_and_ledger-balances faults now id observed tx_id status limit fee fee_id fee_ref db db' e =
    let c = committed faults now id observed tx_id status limit fee fee_id fee_ref db db' e in
    let events =
      enqueue_mint-events now status fee id fee_id fee_ref
        (record db {
          mint_intents =
              update (is_open id) (set_verified now status limit observed) db.mint_intents;
        })
        c.queued c.enqueued in
    rw c.written (deposited-balances id observed (some tx_id) db c.queued c.natural events)

-- A result that is not an approval changes nothing.
guards_idle :
    (fault there bad : Bool) (rest : Option (Bool × Db)) (db db' : Db)
    → ((d : Db) → rest ≢ some (false, d))
    → (if fault then none else if not there then some (false, db) else if bad then none else rest)
      ≡ some (false, db')
    → db' ≡ db
guards_idle true there bad rest db db' h e = cc
guards_idle false false bad rest db db' h e = ap (λ o. payload o db) (sym e)
guards_idle false true true rest db db' h e = cc
guards_idle false true false rest db db' h e = absurd (h db' e)

ledger_deposit-decides :
    (id : ℕ) (observed : ℤ) (tx_id : Text) (o : Option Db) (d : Db)
    → ledger_deposit id observed tx_id o ≢ some (false, d)
unfolding ledger_deposit
ledger_deposit-decides id observed tx_id none d e = cc
ledger_deposit-decides id observed tx_id (some q) d e = elim (Bool-cases (ltb_ℤ observed (pos 0))) [
  | inl negative ↦
      let clash : ◌≡◌ {A = Option (Bool × Db)} none (some (false, d)) = rw negative at e in cc
  | inr natural ↦
      let clash : true ≡ false =
        ap (λ o. elim o [ none ↦ true | some r ↦ r.0 ]) (rw natural at e) in
      cc
]

pub idle :
    (faults : Faults) (now id : ℕ) (observed : ℤ) (tx_id : Text) (status : MintStatus)
    (limit : Option ℤ) (fee : Option Settings) (fee_id : ℕ) (fee_ref : Text) (db db' : Db)
    → approve_and_ledger faults now id observed tx_id status limit fee fee_id fee_ref db
      ≡ some (false, db')
    → db' ≡ db
unfolding approve_and_ledger
idle faults now id observed tx_id status limit fee fee_id fee_ref db db' e =
    guards_idle faults.approval (exists_row (is_open id) db.mint_intents)
      (exists_row (λ i. is_open id i && violates limit observed i) db.mint_intents) _ db db'
      (ledger_deposit-decides id observed tx_id _) e
