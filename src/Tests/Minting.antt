-- ===== src/Tests/Minting.antt =====
-- The gate, the outbox, approvals, reconciliation and the fee at the small treasury.
use clutch_treasury.Base.{
  ℕ, ◌≡◌, ◌≢◌, ◌↔◌, inl, refl, true, false, Option, none, some, [], ◌∷◌, arith, codes, All,
  exists_row, find, update, sum_rows, text_eq, to_ascii_lowercase, eq_ignore_ascii_case,
}
use clutch_treasury.Base.Int.{
  ℤ, pos, ◌≤ℤ◌, ◌<ℤ◌, ◌+ℤ◌, ◌-ℤ◌, add_i64, scale, wrap_i64, div_trunc, as_i64,
}
use clutch_treasury.Store.{Db, MintIntent, MintStatus, daily_cap, RunStatus}
use clutch_treasury.Ledger.{balances}
use clutch_treasury.Breakers.{
  allowed, check_mint_inner, ratio_bps, Denial, excluded_total, daily_mint_total, latest,
}
use clutch_treasury.Breakers.Gate.{Allows, check_mint_inner-allowed_iff}
use clutch_treasury.Reconciliation.{Sources, record_run}
use clutch_treasury.Reconciliation.Judge.{record_run-halts}
use clutch_treasury.Intents.{approve_mint_intent, find_by_id}
use clutch_treasury.Intents.Approval.{InOrder, approve_mint_intent-InOrder}
use clutch_treasury.Outbox.{ChainReply, taken, drain_once, WorkItem}
use clutch_treasury.Outbox.Gated.{Gated, drain_once-Gated}
use clutch_treasury.Outbox.Attempts.{Bounded, drain_once-Bounded}
use clutch_treasury.ServiceFee.{Settings, service_fee, split_off, split_found, take_fee, share}
use clutch_treasury.ServiceFee.Split.{split_off-total, total_clt}
use clutch_treasury.Tests.Sample.{at_noon, mint_of, treasury, settings}

-- A mint of 5 passes the gate, and one over the cap does not.
allows_five : (check_mint_inner settings at_noon 5 none treasury).0 ≡ allowed
unfolding check_mint_inner balances excluded_total daily_mint_total sum_rows add_i64 wrap_i64 ◌+ℤ◌
    ratio_bps scale div_trunc latest
allows_five = refl

check_mint_inner-allowed_iff_example :
    ((check_mint_inner settings at_noon 5 none treasury).0 ≡ allowed)
    ↔ Allows settings at_noon 5 none treasury
check_mint_inner-allowed_iff_example = check_mint_inner-allowed_iff settings at_noon 5 none treasury

abbrev taken_by_node : ℕ → ChainReply
taken_by_node id = taken (codes "0xhash")

drain_once-Gated_example :
    All
      (Gated settings at_noon treasury)
      (drain_once settings at_noon taken_by_node none false treasury).0.sent
drain_once-Gated_example = drain_once-Gated settings at_noon taken_by_node none false treasury

drain_once-Bounded_example :
    Bounded (drain_once settings at_noon taken_by_node none false treasury).0.db
drain_once-Bounded_example =
    drain_once-Bounded settings at_noon taken_by_node none false treasury
      ((λ e. omega arith, omega arith), tt)

abbrev deposit_item : WorkItem
deposit_item = record {
  outbox_id = 1;
  intent_id = 1;
  attempts = 3;
  beneficiary = codes "0xab";
  amount_clt = 5;
  credit_ref = codes "ref";
  client_ref = some (codes "deposit");
}

abbrev capped : Denial
capped = record { reason = daily_cap; denied_over_per_tx_cap = false }

-- 70 CLT on chain for 50 on the books.
abbrev unbacked : Sources
unbacked = record {
  onchain_supply = 70;
  genesis_allocation = 0;
  ledger_liability = pos 50;
  custody_reported = pos 60;
}

record_run-halts_example :
    ((record_run at_noon unbacked treasury).0 ≡ RunStatus.mismatch)
    × ((record_run at_noon unbacked treasury).1.breaker_state.minting_halted ≡ true)
    × ((check_mint_inner settings at_noon 5 none (record_run at_noon unbacked treasury).1).0
        ≢ allowed)
unfolding ◌-ℤ◌
record_run-halts_example =
    record_run-halts settings at_noon at_noon 5 none unbacked treasury (inl (omega arith))

abbrev fresh_mint : Db
fresh_mint = record treasury {
  mint_intents = mint_of 2 5 MintStatus.created ∷ [];
  chain_outbox = [];
}

approve_mint_intent-InOrder_example :
    InOrder (approve_mint_intent at_noon 2 (codes "bob") fresh_mint).1
unfolding exists_row
approve_mint_intent-InOrder_example =
    approve_mint_intent-InOrder at_noon 2 (codes "bob") fresh_mint (record {
      eyes = (λ by e same. ground (arith, e), tt);
      one_intent = λ id. (λ e. refl, tt);
      one_row = λ id. tt;
    })

-- A second deposit of 200 CLT, of which one percent goes to the operator.
abbrev fee_settings : Settings
fee_settings = record { bps = 100; min_clt = pos 1; address = codes "0xfee" }

abbrev second_deposit : MintIntent
second_deposit = record (mint_of 4 200 MintStatus.approved) { client_ref = some (codes "b") }

abbrev two_deposits : Db
two_deposits = record treasury {
  mint_intents =
      record (mint_of 3 100 MintStatus.credited) { client_ref = some (codes "a") }
      ∷ second_deposit
      ∷ [];
}

abbrev after_split : Option (ℤ × Db)
after_split = split_off at_noon fee_settings 4 9 (codes "fee") two_deposits

abbrev split_db : Db
split_db = elim after_split [ none ↦ two_deposits | some r ↦ r.1 ]

split_off-total_example :
    (total_clt split_db ≡ total_clt two_deposits)
    × (pos 0 ≤ℤ pos 2)
    × (pos 2 <ℤ pos second_deposit.amount_clt)
unfolding split_off split_found take_fee service_fee share as_i64 find_by_id find exists_row update
    text_eq to_ascii_lowercase eq_ignore_ascii_case ◌-ℤ◌
split_off-total_example =
    split_off-total at_noon fee_settings 1 4 9 (codes "fee") two_deposits second_deposit (pos 2)
      split_db refl (λ e. cc, (λ e. refl, tt)) (omega arith) (omega arith) (omega arith) refl refl
