-- ===== src/Watcher/Burn.antt =====
-- Confirming a burn (watcher.rs, `confirm_burn`): only a burn whose reference, sender and amount
-- all match moves a redemption on to its payout.
use clutch_treasury.Base.{
  ℕ, ◌≡◌, refl, true, false, none, some, arith, exists_row, Text, All, All-update_rows,
}
use clutch_treasury.Base.Int.{ℤ, pos, ◌-ℤ◌, pos_part}
use clutch_treasury.Store.{RedemptionIntent, RedemptionStatus, burn_redeemed, Db}
use clutch_treasury.Ledger.{balances, insert_event_once, is_event_of, intent_event}
use clutch_treasury.Ledger.Totals.{snoc_event-Moves}
use clutch_treasury.Watcher.{awaited, confirm_burn, settle_burn, burn_matches}

-- A burn against no awaited reference changes nothing: a replay, an unknown reference, or a
-- redemption that is past its burn.
pub confirm_burn-unknown :
    (now : ℕ) (redemption_ref sender tx_hash : Text) (amount : ℤ) (db : Db)
    → awaited redemption_ref db ≡ none
    → confirm_burn now redemption_ref sender amount tx_hash db ≡ db
unfolding confirm_burn
confirm_burn-unknown now redemption_ref sender tx_hash amount db e = rw e

-- A burn that matches the awaited redemption in sender and amount lowers the liability by that
-- amount, unless the burn of this redemption was recorded before; custody does not move.
pub confirm_burn-liability :
    (now : ℕ) (redemption_ref sender tx_hash : Text) (amount : ℤ) (r : RedemptionIntent) (db : Db)
    → awaited redemption_ref db ≡ some r
    → burn_matches r sender amount ≡ true
    → exists_row (is_event_of r.id burn_redeemed) db.treasury_events ≡ false
    → let db' = confirm_burn now redemption_ref sender amount tx_hash db in
      ((balances db').clt_liability ≡ (balances db).clt_liability -ℤ pos r.amount_clt)
      × ((balances db').custody_usdt ≡ (balances db).custody_usdt)
unfolding confirm_burn settle_burn insert_event_once balances
confirm_burn-liability now redemption_ref sender tx_hash amount r db e m fresh =
    let same : pos_part amount ≡ r.amount_clt = ground arith in
    rw (e, m, fresh, same)
      (snoc_event-Moves (intent_event r.id burn_redeemed r.amount_clt 0 (some tx_hash)) db)

-- A burn that names the awaited reference with another sender or amount fails the redemption, and
-- no ledger event is written.
confirm_burn-mismatch :
    (now : ℕ) (redemption_ref sender tx_hash : Text) (amount : ℤ) (r : RedemptionIntent) (db : Db)
    → awaited redemption_ref db ≡ some r
    → burn_matches r sender amount ≡ false
    → let db' = confirm_burn now redemption_ref sender amount tx_hash db in
      (db'.treasury_events ≡ db.treasury_events)
      × All (λ x. x.id ≡ r.id → x.status ≡ RedemptionStatus.failed) db'.redemption_intents
unfolding confirm_burn settle_burn
confirm_burn-mismatch now redemption_ref sender tx_hash amount r db e m =
    rw (e, m) (refl, All-update_rows _ _ _ (λ x. ground arith) db.redemption_intents)
