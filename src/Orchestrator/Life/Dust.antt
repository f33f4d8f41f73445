-- ===== src/Orchestrator/Life/Dust.antt =====
-- A worthless transfer in front of the payment of an old intent (crates/payment-orchestrator/src/
-- poller.rs, the legacy loop of `poll_once`).
use clutch_treasury.Base.{
  ℕ, ◌≡◌, refl, ◌∙◌, ap, true, Option, none, some, List, [], ◌∷◌, map, arith, Text, exists_row,
  exists_row-update, update,
}
use clutch_treasury.Base.Int.{ℤ, pos, leb_ℤ}
use clutch_treasury.Orchestrator.Store.{DepositStatus, DepositIntent, OrchDb, ObservedTransfer}
use clutch_treasury.Orchestrator.Deposits.{
  lacks_tx, set_tx, set_tron_tx_id, lacks_received, set_received_usdt,
}
use clutch_treasury.Orchestrator.Poller.{or_now, earliest, settle_legacy, receive, legacy_step}

abbrev pub statuses : OrchDb → List DepositStatus
statuses db = map (λ i. i.status) db.deposit_intents

-- The amount is refused, whatever row lacks one.
refused :
    (id : ℕ) (received : ℤ) (db : OrchDb)
    → leb_ℤ received (pos 0) ≡ true
    → exists_row (lacks_received id) db.deposit_intents ≡ true
    → set_received_usdt id received db ≡ none
unfolding set_received_usdt
refused id received db dust lacking = ground arith

named_rows :
    (id : ℕ) (tx_id : Text) (at : ℤ) (db db' : OrchDb)
    → set_tron_tx_id id tx_id at db ≡ some db'
    → db'.deposit_intents ≡ update (lacks_tx id) (set_tx tx_id at) db.deposit_intents
unfolding set_tron_tx_id
named_rows id tx_id at db db' e = ground arith

same_statuses :
    (id : ℕ) (tx_id : Text) (at : ℤ) (is : List DepositIntent)
    → map (λ i. i.status) (update (lacks_tx id) (set_tx tx_id at) is) ≡ map (λ i. i.status) is
unfolding update
same_statuses id tx_id at [] = refl
same_statuses id tx_id at (i ∷ is) = grind (arith, same_statuses id tx_id at is)

-- What a pass keeps of a table.
pub record Stuck (id : ℕ) (db db' : OrchDb) : Type 0 where
  pub same : statuses db' ≡ statuses db
  pub still_lacking : exists_row (lacks_received id) db'.deposit_intents ≡ true

stored-Stuck :
    (id : ℕ) (t : ObservedTransfer) (at : ℤ) (db db' : OrchDb)
    → exists_row (lacks_received id) db.deposit_intents ≡ true
    → set_tron_tx_id id t.tx_id at db ≡ some db'
    → Stuck id db db'
stored-Stuck id t at db db' lacking e =
    let rows = named_rows id t.tx_id at db db' e in
    record {
      same = ap (map (λ i. i.status)) rows ∙ same_statuses id t.tx_id at db.deposit_intents;
      still_lacking =
          ap (exists_row (lacks_received id)) rows
          ∙ exists_row-update (lacks_tx id) (lacks_received id) (set_tx t.tx_id at)
              (λ i. ground arith) db.deposit_intents
          ∙ lacking;
    }

receive-Stuck :
    (id : ℕ) (t : ObservedTransfer) (at : ℤ) (db : OrchDb)
    → leb_ℤ t.amount_usdt (pos 0) ≡ true
    → exists_row (lacks_received id) db.deposit_intents ≡ true
    → (stored : Option OrchDb) → set_tron_tx_id id t.tx_id at db ≡ stored
    → Stuck id db (receive id t.amount_usdt stored db)
receive-Stuck id t at db dust lacking none e = record { same = refl; still_lacking = lacking }
receive-Stuck id t at db dust lacking (some db') e =
    let kept = stored-Stuck id t at db db' lacking e in
    rw (refused id t.amount_usdt db' dust kept.still_lacking) kept

-- Where the earliest transfer to the address of an old intent that has no received amount is worth
-- nothing, the step of the poller for the intent settles nothing, whatever came after: it leaves
-- every status as it is, and the intent without a received amount.
pub settle_legacy-Stuck :
    (now : ℕ) (time_of : ℤ → Option ℤ) (id : ℕ) (address : Text) (ts : List ObservedTransfer)
    (t : ObservedTransfer) (db : OrchDb)
    → earliest ts ≡ some t
    → leb_ℤ t.amount_usdt (pos 0) ≡ true
    → exists_row (lacks_received id) db.deposit_intents ≡ true
    → Stuck id db (legacy_step now time_of id address (some ts) db)
unfolding settle_legacy
settle_legacy-Stuck now time_of id address ts t db first dust lacking =
    rw first (receive-Stuck id t (or_now now (time_of t.block_timestamp)) db dust lacking _ refl)
