-- ===== src/Outbox/Denied.antt =====
-- What a denied row of the outbox becomes (outbox.rs: `needs_manual`, `park_row`,
-- `fail_or_backoff`).
use clutch_treasury.Base.{
  ℕ, zero, suc, ◌-◌, ◌^◌, ◌≤◌, ◌≡◌, ◌≢◌, true, false, arith, All, update, All-update_rows, is_some,
  min,
}
use native.Mathlib.Nat.{pow-suc}
use clutch_treasury.Store.{Db, OutboxStatus, MintStatus}
use clutch_treasury.Breakers.{Denial}
use clutch_treasury.Outbox.{WorkItem, handle_denial, needs_manual, backoff_secs, parked, row_is}

-- A verified deposit that is denied for any reason but its size stays in the queue with its
-- attempts untouched and its intent as it was: no number of denials can fail it. It is due again
-- in an hour.
handle_denial-deposit :
    (now : ℕ) (row : WorkItem) (d : Denial) (db : Db)
    → is_some row.client_ref ≡ true
    → d.denied_over_per_tx_cap ≡ false
    → let db' = handle_denial now row d db in
      (db'.chain_outbox ≡ update (row_is row.outbox_id) (parked now d.reason) db.chain_outbox)
      × (db'.mint_intents ≡ db.mint_intents)
      × (db'.alerts ≡ db.alerts)
unfolding handle_denial
handle_denial-deposit now row d db h k = ground arith

-- A row denied for its size is closed and its intent, if it was approved, waits for a human: it is
-- not among the rows of a later pass, and it no longer counts as authorised.
pub handle_denial-over_cap :
    (now : ℕ) (row : WorkItem) (d : Denial) (db : Db)
    → d.denied_over_per_tx_cap ≡ true
    → let db' = handle_denial now row d db in
      All (λ o. o.id ≡ row.outbox_id → o.status ≡ OutboxStatus.failed) db'.chain_outbox
      × All (λ i. i.id ≡ row.intent_id → i.status ≢ MintStatus.approved) db'.mint_intents
unfolding handle_denial needs_manual
handle_denial-over_cap now row d db h = rw h (
  All-update_rows _ _ _ (λ o. ground arith) db.chain_outbox,
  All-update_rows _ _ _ (λ i. ground arith) db.mint_intents,
)

two-le-pow : (n : ℕ) → 2 ≤ 2 ^ suc n
two-le-pow zero = omega arith
two-le-pow (suc n) = rw (pow-suc) (omega (arith, two-le-pow n))

shift-pos : (attempts : ℕ) → 1 ≤ attempts → 2 ≤ 2 ^ min attempts 20
shift-pos attempts h =
    let places : min attempts 20 ≡ suc (min attempts 20 - 1) = omega arith in
    rw places (two-le-pow (min attempts 20 - 1))

-- The wait before the next attempt: from 10 seconds after the first failure up to ten minutes.
backoff_secs_bounds :
    (attempts : ℕ) → 1 ≤ attempts → (10 ≤ backoff_secs attempts) × (backoff_secs attempts ≤ 600)
unfolding backoff_secs
backoff_secs_bounds attempts h = omega (arith, shift-pos attempts h)
