-- ===== src/Ledger/Totals.antt =====
-- How one more event moves the totals of `ledger_balances`.
use clutch_treasury.Base.{◌≡◌, arith, sum_rows-snoc}
use clutch_treasury.Base.Int.{pos, ◌+ℤ◌, ◌-ℤ◌}
use clutch_treasury.Store.{Event, EventKind, mint_executed, burn_redeemed, custody_withdrawal, Db}
use clutch_treasury.Ledger.{Balances, balances, is_mint, is_burn, is_inflow, is_outflow, snoc_event}

-- The balances after an event, by its kind.
abbrev pub Moves : EventKind → Event → Balances → Balances → Type 0
Moves mint_executed e b b' =
    (b'.clt_liability ≡ b.clt_liability +ℤ pos e.amount_clt) × (b'.custody_usdt ≡ b.custody_usdt)
Moves burn_redeemed e b b' =
    (b'.clt_liability ≡ b.clt_liability -ℤ pos e.amount_clt) × (b'.custody_usdt ≡ b.custody_usdt)
Moves EventKind.mint_reversed e b b' =
    (b'.clt_liability ≡ b.clt_liability -ℤ pos e.amount_clt) × (b'.custody_usdt ≡ b.custody_usdt)
Moves custody_withdrawal e b b' =
    (b'.clt_liability ≡ b.clt_liability) × (b'.custody_usdt ≡ b.custody_usdt -ℤ pos e.amount_usdt)
Moves _ e b b' =
    (b'.clt_liability ≡ b.clt_liability) × (b'.custody_usdt ≡ b.custody_usdt +ℤ pos e.amount_usdt)

-- Each event moves exactly the total that its kind names, by exactly its amount.
pub snoc_event-Moves :
    (e : Event) (db : Db) → Moves e.kind e (balances db) (balances (snoc_event e db))
unfolding balances ◌+ℤ◌ ◌-ℤ◌
snoc_event-Moves e db = ground (
  arith,
  sum_rows-snoc is_mint (λ x. x.amount_clt) db.treasury_events e,
  sum_rows-snoc is_burn (λ x. x.amount_clt) db.treasury_events e,
  sum_rows-snoc is_inflow (λ x. x.amount_usdt) db.treasury_events e,
  sum_rows-snoc is_outflow (λ x. x.amount_usdt) db.treasury_events e,
)
