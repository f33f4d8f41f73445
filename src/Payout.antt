-- ===== src/Payout.antt =====
-- Paying redemptions: crates/treasury-service/src/payout.rs, `drain_once` and the reply of the
-- signer.
pub mod Reply
pub mod Rows
pub mod Settle
pub mod Calls
pub mod Budget
pub mod Held
pub mod Settled
pub mod Confirmed
pub mod Permit
pub mod Parse
pub mod Again
use clutch_treasury.Base.{
  ℕ, ◌+◌, Bool, true, false, ◌&&◌, ◌||◌, not, ◌==◌, Option, none, some, List, [], ◌∷◌, ◌++◌,
  if◌then◌else◌, is_some, Text, update, where_rows, exists_row, order_by, sum_rows,
}
use clutch_treasury.Base.Int.{ℤ, pos, ltb_ℤ, add_i64, as_i64}
use clutch_treasury.Store.{
  RedemptionIntent, RedemptionStatus, Db, AppConfig, Notice, p1, warn, payout, gasfree_off,
  over_payout_cap, claim_failed, payout_unrecorded, permit_unrecorded, relay_refused,
  refusal_unrecorded, float_not_active, return_failed, payout_refused, payout_unknown,
}
use clutch_treasury.Ledger.{alert, alert_once}
use clutch_treasury.Breakers.{within, day}
use clutch_treasury.Payout.Reply.{
  PayoutReply, paid, float_dry, cap_exceeded, needs_trx, refused, ambiguous, submitted,
  refused_by_relay, float_inactive,
}
use clutch_treasury.Payout.Rows.{
  is_payout_pending, is_payout_submitted, daily_payout_total, in_doubt, PayoutItem, payout_item,
  ClaimAnswer, Answers, State, Call, Flow, Step, step, on_db, set_where, page, set_claimed,
  is_claimable, claim_row, set_pending, hand_back, redemption_is, set_ref, set_permit, set_hold,
  longest_permit_secs, deadline_grace_secs, member, answered, errored, continue_with, break_off,
}

-- The p1 of a proven refusal, once for each intent.
abbrev refused_once : ℕ → ℕ → State → State
refused_once now id s =
    if member id s.payout_refused_alerted
    then s
    else page now (payout_refused id)
        (record s { payout_refused_alerted = id ∷ s.payout_refused_alerted })

abbrev pub warn_gasfree_off : AppConfig → ℕ → State → State
warn_gasfree_off config now s =
    if config.gasfree_on then s else on_db (alert_once 3600 now p1 payout gasfree_off) s

-- A reply that proves that nothing was broadcast; a top-up with TRX pages nobody.
abbrev proven_unpaid : ℕ → ℕ → Bool → Bool → ℤ → State → Step
proven_unpaid now id written needs_page day_total s =
    if written
    then step (if needs_page then refused_once now id (hand_back now id s) else hand_back now id s)
        0 (continue_with day_total)
    else step (page now (return_failed id) s) 0 (continue_with day_total)

-- The `match` on the reply of the signer.
unfoldable pub record_reply : AppConfig → ℕ → PayoutItem → Bool → ℤ → PayoutReply → State → Step
unfolding hand_back alert_once as_i64 add_i64
record_reply config now item written day_total (paid tx_id) s =
    let charged = continue_with (add_i64 day_total (pos item.amount_clt)) in
    if written
    then step (set_where (redemption_is item.id) (set_ref now tx_id) s) 1 charged
    else step (page now (payout_unrecorded item.id) s) 0 charged
record_reply config now item written day_total (submitted trace_id nonce deadline) s =
    let s' = warn_gasfree_off config now s in
    step
      (if written
        then set_where (redemption_is item.id) (set_permit now (some trace_id) nonce deadline) s'
        else page now (permit_unrecorded item.id) s')
      1 break_off
record_reply config now item written day_total (refused_by_relay reason nonce deadline) s =
    let s' = warn_gasfree_off config now s in
    step
      (if written
        then on_db (alert now warn payout (relay_refused item.id reason))
            (set_where (redemption_is item.id) (set_permit now none nonce deadline) s')
        else page now (refusal_unrecorded item.id) s')
      0 break_off
record_reply config now item written day_total (float_inactive float_address) s =
    let s' = if written then hand_back now item.id s else page now (return_failed item.id) s in
    step (on_db (alert_once 3600 now warn payout (float_not_active float_address)) s') 0 break_off
record_reply config now item written day_total needs_trx s =
    proven_unpaid now item.id written false day_total s
record_reply config now item written day_total (float_dry address have need) s =
    proven_unpaid now item.id written true day_total s
record_reply config now item written day_total (cap_exceeded limit) s =
    proven_unpaid now item.id written true day_total s
record_reply config now item written day_total (refused reason) s =
    proven_unpaid now item.id written true day_total s
record_reply config now item written day_total (ambiguous msg) s =
    let gasfree_payouts = config.gasfree_on && config.gasfree_rail in
    let until = now + longest_permit_secs + deadline_grace_secs in
    let s' =
      if gasfree_payouts && written
      then set_where (redemption_is item.id) (set_hold until) s
      else s in
    step (page now (payout_unknown item.id) s') 0 (
      if gasfree_payouts
      then break_off
      else continue_with (add_i64 day_total (pos item.amount_clt)))

abbrev pub call_of : PayoutItem → PayoutReply → Call
call_of item reply = record {
  item = item;
  to = item.payout_address;
  amount_usdt = item.payout_amount_usdt;
  reply = reply;
}

-- The claim, the call of the signer, and its reply.
unfoldable pub claim_and_pay : AppConfig → ℕ → PayoutItem → Answers → ClaimAnswer → ℤ → State → Step
unfolding record_reply claim_row
claim_and_pay config now item answers (errored committed) day_total s =
    step (page now (claim_failed item.id) (if committed then claim_row now item.id s else s)) 0
      (continue_with day_total)
claim_and_pay config now item answers answered day_total s =
    if exists_row (is_claimable item.id) s.db.redemption_intents
    then (let rest =
          record_reply config now item answers.written day_total answers.reply
            (claim_row now item.id s) in
        record rest { calls = call_of item answers.reply ∷ [] })
    else step s 0 (continue_with day_total)

abbrev over_cap_once : ℕ → ℕ → State → State
over_cap_once now id s =
    if member id s.over_cap_alerted
    then s
    else page now (over_payout_cap id) (record s { over_cap_alerted = id ∷ s.over_cap_alerted })

-- The body of the loop of `drain_once`.
unfoldable pub pay_row : AppConfig → ℕ → PayoutItem → Answers → ℤ → State → Step
unfolding claim_and_pay add_i64
pay_row config now item answers day_total s =
    if ltb_ℤ config.daily_payout_cap_clt (pos item.amount_clt)
    then step (over_cap_once now item.id s) 0 (continue_with day_total)
    else if ltb_ℤ config.daily_payout_cap_clt (add_i64 day_total (pos item.amount_clt))
    then step s 0 break_off
    else claim_and_pay config now item answers answers.claim day_total s

pub record Pass : Type 0 where
  pub state : State
  pub calls : List Call
  pub processed : ℕ

abbrev pub idle : State → Pass
idle s = record { state = s; calls = []; processed = 0 }

abbrev pub prepend : Step → Pass → Pass
prepend a b = record {
  state = b.state;
  calls = a.calls ++ b.calls;
  processed = a.processed + b.processed;
}

unfoldable pub pay_rows : AppConfig → ℕ → (ℕ → Answers) → List PayoutItem → ℤ → State → Pass
unfolding pay_row
pay_rows config now answers [] day_total s = idle s
pay_rows config now answers (item ∷ items) day_total s =
    let first = pay_row config now item (answers item.id) day_total s in
    prepend first (elim first.flow [
      | continue_with total ↦ pay_rows config now answers items total first.state
      | break_off ↦ idle first.state
    ])

abbrev pub payout_items : List RedemptionIntent → List PayoutItem
payout_items [] = []
payout_items (r ∷ rs) = payout_item r ∷ payout_items rs

unfoldable pub pending_items : Db → List PayoutItem
unfolding order_by
pending_items db = payout_items (
    order_by (λ r. r.created_at)
      (where_rows (λ r. is_payout_pending r.status) db.redemption_intents))

unfoldable pub drain_once : AppConfig → ℕ → (ℕ → Answers) → State → Pass
unfolding pay_rows pending_items daily_payout_total
drain_once config now answers s =
    if s.db.breaker_state.minting_halted || exists_row (in_doubt now) s.db.redemption_intents
    then idle s
    else pay_rows config now answers (pending_items s.db) (pos (daily_payout_total now s.db)) s
