-- ===== src/Tests/Paying.antt =====
-- Payouts and burns at the small treasury.
use clutch_treasury.Base.{
  ℕ, ◌+◌, ◌≡◌, ◌⊎◌, refl, true, false, none, some, [], ◌∷◌, arith, codes, All, exists_row, find,
  update, sum_rows, text_eq, eq_ignore_ascii_case, to_ascii_lowercase, order_by, insert_by,
  where_rows,
}
use clutch_treasury.Base.Int.{pos, ◌≤ℤ◌, ◌+ℤ◌, ◌-ℤ◌, add_i64, wrap_i64}
use clutch_treasury.Store.{Db, RedemptionIntent, RedemptionStatus}
use clutch_treasury.Ledger.{balances}
use clutch_treasury.Watcher.{confirm_burn}
use clutch_treasury.Watcher.Burn.{confirm_burn-liability}
use clutch_treasury.Payout.Reply.{paid, ambiguous, Body, body, status_code, parse_reply}
use clutch_treasury.Payout.Rows.{State, Answers, answered, daily_payout_total, claim_row}
use clutch_treasury.Payout.{
  Pass, drain_once, pending_items, pay_rows, pay_row, claim_and_pay, record_reply,
}
use clutch_treasury.Payout.Budget.{risked, drain_once-within_cap}
use clutch_treasury.Payout.Calls.{Backed, drain_once-Backed}
use clutch_treasury.Payout.Held.{Held}
use clutch_treasury.Payout.Again.{Later, NeverAgain, drain_once-NeverAgain}
use clutch_treasury.Payout.Settle.{RelayView, settle_row}
use clutch_treasury.Payout.Permit.{NeverRan, settle_row-Held}
use clutch_treasury.Payout.Parse.{NamesRefusal, parse_reply-NamesRefusal}
use clutch_treasury.Tests.Sample.{at_noon, treasury, settings, redemption_of}

abbrev fresh : State
fresh = record { db = treasury; over_cap_alerted = []; payout_refused_alerted = [] }

-- The signer times out.
abbrev unclear : ℕ → Answers
unclear id = record { claim = answered; reply = ambiguous (codes "timed out"); written = true }

abbrev pays : ℕ → Answers
pays id = record { claim = answered; reply = paid (codes "tx1"); written = true }

abbrev first_pass : Pass
first_pass = drain_once settings at_noon unclear fresh

abbrev second_pass : Pass
second_pass = drain_once settings (at_noon + 60) pays first_pass.state

-- The unclear answer is one call, and the pass after it makes none.
one_call : (risked first_pass.calls ≡ 10) × (second_pass.calls ≡ [])
unfolding drain_once pending_items pay_rows pay_row claim_and_pay claim_row record_reply
    daily_payout_total order_by insert_by where_rows exists_row update sum_rows add_i64 wrap_i64
    ◌+ℤ◌
one_call = (refl, refl)

drain_once-NeverAgain_example : All (NeverAgain second_pass.state.db) first_pass.calls
drain_once-NeverAgain_example =
    drain_once-NeverAgain settings at_noon unclear fresh second_pass.state.db
      (Later.drained settings (at_noon + 60) pays first_pass.state Later.same)

drain_once-Backed_example : All (Backed at_noon treasury) first_pass.calls
drain_once-Backed_example = drain_once-Backed settings at_noon unclear fresh

drain_once-within_cap_example :
    (risked first_pass.calls ≡ 0)
    ⊎ (pos (daily_payout_total at_noon treasury + risked first_pass.calls) ≤ℤ pos 100)
unfolding daily_payout_total sum_rows
drain_once-within_cap_example =
    drain_once-within_cap settings at_noon unclear fresh (omega arith) (omega arith)

-- A relay that names no transaction, and a float whose nonce is still the permit's.
abbrev silent_relay : RelayView
silent_relay = record {
  trace = λ t. some none;
  confirmed_transfer = λ tx id. some false;
  another_readable = λ id. true;
  recorded = λ id. answered;
  float_owner = some (codes "owner", some (codes "float"));
  gasfree_nonce = λ owner. some 4;
  written = λ id. true;
}

abbrev permitted : RedemptionIntent
permitted = record (redemption_of 7 RedemptionStatus.payout_submitted) {
  payout_permit_nonce = some (pos 4);
  payout_permit_deadline = some (pos 5000);
}

abbrev with_permit : Db
with_permit = record treasury { redemption_intents = permitted ∷ [] }

settle_row-Held_example :
    Held 7
      (settle_row at_noon silent_relay
        (codes "float")
        permitted
        (some (pos 4))
        (some (pos 5000))
        with_permit).1
    ⊎ ((7 ≡ permitted.id) × NeverRan at_noon silent_relay (codes "float") (pos 4) (pos 5000))
unfolding exists_row
settle_row-Held_example =
    settle_row-Held at_noon 7 silent_relay (codes "float") permitted (pos 4) (pos 5000) with_permit
      refl

parse_reply-NamesRefusal_example :
    (status_code 400 ≡ status_code 400) ⊎ ((b : Body) × (status_code 400 ≡ body b) × NamesRefusal b)
unfolding parse_reply
parse_reply-NamesRefusal_example = parse_reply-NamesRefusal (status_code 400) refl

abbrev awaiting : RedemptionIntent
awaiting = redemption_of 8 RedemptionStatus.created

confirm_burn-liability_example :
    let db' = confirm_burn at_noon (codes "r8") (codes "0xAB") (pos 10) (codes "h") treasury in
    ((balances db').clt_liability ≡ (balances treasury).clt_liability -ℤ pos 10)
    × ((balances db').custody_usdt ≡ (balances treasury).custody_usdt)
unfolding find exists_row text_eq eq_ignore_ascii_case to_ascii_lowercase
confirm_burn-liability_example =
    confirm_burn-liability at_noon (codes "r8") (codes "0xAB") (codes "h") (pos 10) awaiting
      treasury refl refl refl
