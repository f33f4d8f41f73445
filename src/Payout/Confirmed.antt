-- ===== src/Payout/Confirmed.antt =====
-- What settling a payout records (payout.rs, `pay_intent`, `confirm_payouts_once`,
-- `confirm_gasfree_payouts_once`).
use clutch_treasury.Base.{
  ℕ, ◌≡◌, ◌⊎◌, inl, inr, refl, Bool, true, false, Option, none, some, List, [], ◌∷◌, arith,
  Bool-cases, exists_row, Text, All, All-update_rows, exists_row-append, order_by, where_rows,
}
use clutch_treasury.Base.Int.{pos, ◌-ℤ◌}
use clutch_treasury.Store.{RedemptionIntent, RedemptionStatus, Db, custody_withdrawal}
use clutch_treasury.Ledger.{balances, insert_event_once, is_event_of, intent_event}
use clutch_treasury.Ledger.Totals.{snoc_event-Moves}
use clutch_treasury.Payout.Rows.{ClaimAnswer, answered, errored, redemption_is}
use clutch_treasury.Payout.Held.{Held, Held-update}
use clutch_treasury.Payout.Settle.{
  pay_intent, set_paid, ConfirmState, ChainView, record_paid, confirm_row, confirm_rows,
  confirm_payouts_once, text_of, has_transfer,
}

-- Recording a payout for the first time lowers custody by exactly what left the float and leaves
-- the liability, and the redemption is paid.
pay_intent-balances :
    (now id amount : ℕ) (tx : Text) (db : Db)
    → exists_row (is_event_of id custody_withdrawal) db.treasury_events ≡ false
    → let db' = pay_intent now id amount tx db in
      ((balances db').custody_usdt ≡ (balances db).custody_usdt -ℤ pos amount)
      × ((balances db').clt_liability ≡ (balances db).clt_liability)
      × All (λ r. r.id ≡ id → r.status ≡ RedemptionStatus.paid) db'.redemption_intents
unfolding pay_intent insert_event_once balances
pay_intent-balances now id amount tx db fresh =
    let moves = snoc_event-Moves (intent_event id custody_withdrawal 0 amount none) db in
    rw fresh (moves.1, moves.0, All-update_rows _ _ _ (λ r. ground arith) db.redemption_intents)

-- A payout is recorded in the ledger once: recording it again, after a crash or a lost answer,
-- with whatever time, amount and transaction, leaves the events and so the balances as they are.
pay_intent-once :
    (now now' id amount amount' : ℕ) (tx tx' : Text) (db : Db)
    → let db' = pay_intent now id amount tx db in
      (pay_intent now' id amount' tx' db').treasury_events ≡ db'.treasury_events
unfolding pay_intent insert_event_once exists_row
pay_intent-once now now' id amount amount' tx tx' db =
    elim (Bool-cases (exists_row (is_event_of id custody_withdrawal) db.treasury_events)) [
      | inl known ↦ rw (known, known) refl
      | inr fresh ↦ rw (fresh) (
          ground (
            arith,
            own,
            exists_row-append (is_event_of id custody_withdrawal) db.treasury_events
                (intent_event id custody_withdrawal 0 amount none ∷ []),
          ))
    ]
  where
    own :
        is_event_of id custody_withdrawal (intent_event id custody_withdrawal 0 amount none) ≡ true
    own = ground arith

-- The ledger and the redemptions are as they were.
abbrev SameBooks : Db → Db → Type 0
SameBooks db db' =
    (db'.treasury_events ≡ db.treasury_events) × (db'.redemption_intents ≡ db.redemption_intents)

-- A row is counted as confirmed only where the chain says of its transaction that it is confirmed
-- and that its transfer succeeded; anything else leaves the ledger and the redemptions unchanged.
confirm_row-SameBooks :
    (now : ℕ) (r : RedemptionIntent) (confirmed succeeded : Option Bool) (outcome : ClaimAnswer)
    (s : ConfirmState)
    → ((confirmed ≡ some true) × (succeeded ≡ some true))
      ⊎ (((confirm_row now r confirmed succeeded outcome s).confirmed ≡ s.confirmed)
          × SameBooks s.db (confirm_row now r confirmed succeeded outcome s).db)
unfolding confirm_row
confirm_row-SameBooks now r (some true) (some true) outcome s = inl (refl, refl)
confirm_row-SameBooks now r (some true) (some false) outcome s =
    inr (ground arith, (ground arith, ground arith))
confirm_row-SameBooks now r (some true) none outcome s = inr (refl, (refl, refl))
confirm_row-SameBooks now r (some false) succeeded outcome s = inr (refl, (refl, refl))
confirm_row-SameBooks now r none succeeded outcome s = inr (refl, (refl, refl))

pub pay_intent-keeps :
    (now i id amount : ℕ) (tx : Text) (db : Db)
    → Held i db
    → Held i (pay_intent now id amount tx db)
unfolding pay_intent
pay_intent-keeps now i id amount tx db h =
    Held-update i (redemption_is id) (set_paid now tx) db.redemption_intents (λ r a b. ground arith)
      h

confirm_row-keeps :
    (now i : ℕ) (r : RedemptionIntent) (c d : Option Bool) (outcome : ClaimAnswer)
    (s : ConfirmState)
    → Held i s.db
    → Held i (confirm_row now r c d outcome s).db
unfolding confirm_row record_paid
confirm_row-keeps now i r (some true) (some true) answered s h =
    pay_intent-keeps now i r.id r.payout_amount_usdt (text_of r.payout_ref) s.db h
confirm_row-keeps now i r (some true) (some true) (errored true) s h =
    pay_intent-keeps now i r.id r.payout_amount_usdt (text_of r.payout_ref) s.db h
confirm_row-keeps now i r (some true) (some true) (errored false) s h = h
confirm_row-keeps now i r (some true) (some false) outcome s h = ground arith
confirm_row-keeps now i r (some true) none outcome s h = h
confirm_row-keeps now i r (some false) d outcome s h = h
confirm_row-keeps now i r none d outcome s h = h

confirm_rows-keeps :
    (now i : ℕ) (view : ChainView) (rows : List RedemptionIntent) (s : ConfirmState)
    → Held i s.db
    → Held i (confirm_rows now view rows s).db
unfolding confirm_rows
confirm_rows-keeps now i view [] s h = h
confirm_rows-keeps now i view (r ∷ rows) s h =
    confirm_rows-keeps now i view rows _ (confirm_row-keeps now i r _ _ _ s h)

pub confirm_payouts_once-keeps :
    (now i : ℕ) (view : ChainView) (s : ConfirmState)
    → Held i s.db
    → Held i (confirm_payouts_once now view s).db
unfolding confirm_payouts_once
confirm_payouts_once-keeps now i view s h =
    confirm_rows-keeps now i view
      (order_by (λ r. r.updated_at) (where_rows has_transfer s.db.redemption_intents)) s h
