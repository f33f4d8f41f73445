-- ===== src/Tests/Chain.antt =====
-- The watcher and the sync check at the small treasury.
use clutch_treasury.Base.{
  ℕ, ◌+◌, ◌-◌, ◌≡◌, true, Option, none, some, List, [], ◌∷◌, arith, codes, exists_row,
  if◌then◌else◌,
}
use clutch_treasury.Base.Int.{pos, ◌+ℤ◌}
use clutch_treasury.Store.{mint_executed}
use clutch_treasury.Ledger.{balances, is_event_of}
use clutch_treasury.Watcher.{Tx, mint, credit_mint, process_range, poll_once}
use clutch_treasury.Watcher.Credit.{credit_mint_twice, credit_mint-balances}
use clutch_treasury.Watcher.Range.{process_range-Means, poll_once-catches_up}
use clutch_treasury.Watcher.Range as Range
use clutch_treasury.ChainSync.{ChainInfo, check}
use clutch_treasury.ChainSync.Lag.{check-Means}
use clutch_treasury.ChainSync.Lag as Lag
use clutch_treasury.Tests.Sample.{at_noon, treasury}

credit_mint_twice_example :
    credit_mint (at_noon + 60) 1 7 (codes "h2") (credit_mint at_noon 1 5 (codes "h1") treasury)
    ≡ credit_mint at_noon 1 5 (codes "h1") treasury
credit_mint_twice_example =
    credit_mint_twice at_noon (at_noon + 60) 1 5 7 (codes "h1") (codes "h2") treasury

credit_mint-balances_example :
    ((balances (credit_mint at_noon 1 5 (codes "h1") treasury)).clt_liability ≡ (
      if exists_row (is_event_of 1 mint_executed) treasury.treasury_events
      then (balances treasury).clt_liability
      else (balances treasury).clt_liability +ℤ pos 5))
    × ((balances (credit_mint at_noon 1 5 (codes "h1") treasury)).custody_usdt
        ≡ (balances treasury).custody_usdt)
credit_mint-balances_example = credit_mint-balances at_noon 1 5 (codes "h1") treasury

process_range-Means_example : Range.Means 20 30 3 (process_range 20 30 3)
process_range-Means_example = process_range-Means 20 30 3

abbrev mint_tx : Tx
mint_tx = record {
  function_call_type = mint;
  credit_ref = some (codes "ref");
  redemption_ref = none;
  amount = none;
  sender = codes "0xsender";
  hash = codes "h1";
}

abbrev head : Option ℕ
head = some 30

abbrev one_mint : ℕ → List Tx
one_mint h = mint_tx ∷ []

poll_once-catches_up_example :
    let (done, db') = poll_once at_noon (some 23) (λ h. some (one_mint h)) 2 treasury in
    (done ≡ true)
    × (db'.last_processed_height ≡ 23 - 2)
    × (poll_once (at_noon + 60) (some 23) (λ h. some (one_mint h)) 2 db' ≡ (true, db'))
poll_once-catches_up_example =
    poll_once-catches_up at_noon (at_noon + 60) 2 23 one_mint treasury (omega arith)

abbrev primary : Option ChainInfo
primary =
    some (record { latest_block_index = 10; blocks_behind = none; best_peer_block_index = none })

check-Means_example :
    Lag.Means primary (some 15 ∷ none ∷ []) 3 (check primary (some 15 ∷ none ∷ []) 3)
check-Means_example = check-Means primary (some 15 ∷ none ∷ []) 3
