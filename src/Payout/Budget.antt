-- ===== src/Payout/Budget.antt =====
-- The daily cap on payouts (payout.rs, `drain_once`).
use clutch_treasury.Base.{
  ℕ, ◌+◌, ◌<◌, ◌≡◌, ◌⊎◌, inl, inr, refl, Bool, true, false, List, [], ◌∷◌, ◌-◌, ◌||◌, arith,
  Bool-cases, if◌then◌else◌, sum_rows, sum_rows-append, exists_row,
}
use clutch_treasury.Base.Int.{pos, ◌≤ℤ◌, add_i64, wrap_i64, ◌+ℤ◌, ltb_ℤ}
use clutch_treasury.Store.{AppConfig}
use clutch_treasury.Payout.Reply.{
  PayoutReply, paid, float_dry, cap_exceeded, needs_trx, refused, ambiguous, submitted,
  refused_by_relay, float_inactive,
}
use clutch_treasury.Payout.Rows.{
  State, Step, Call, continue_with, break_off, PayoutItem, Answers, ClaimAnswer, answered, errored,
  daily_payout_total, is_claimable, claim_row, in_doubt,
}
use clutch_treasury.Payout.{
  record_reply, claim_and_pay, pay_row, pay_rows, drain_once, pending_items,
}

-- The answers after which the float may have paid, or may still pay.
abbrev pub at_risk : PayoutReply → Bool
at_risk reply = elim reply [
  | paid _ ↦ true
  | ambiguous _ ↦ true
  | submitted _ _ _ ↦ true
  | refused_by_relay _ _ _ ↦ true
  | _ ↦ false
]

-- The CLT of the calls after which the float may have paid.
abbrev pub risked : List Call → ℕ
risked calls = sum_rows (λ c. at_risk c.reply) (λ c. c.item.amount_clt) calls

-- 2 ^ 62: two amounts below it add up to an `i64`.
abbrev pub half_bound : ℕ
half_bound = 4611686018427387904

add_below_half : (a b : ℕ) → a < half_bound → b < half_bound → add_i64 (pos a) (pos b) ≡ pos (a + b)
unfolding add_i64 wrap_i64 ◌+ℤ◌
add_below_half a b h k = ground arith

-- What a step charges goes into the `day_total` of the next.
record Charges (config : AppConfig) (t : ℕ) (s : Step) : Type 0 where
  flow : (s.flow ≡ break_off) ⊎ (s.flow ≡ continue_with (pos (t + risked s.calls)))
  capped : (risked s.calls ≡ 0) ⊎ (pos (t + risked s.calls) ≤ℤ config.daily_payout_cap_clt)

record_reply-flow :
    (config : AppConfig) (now : ℕ) (item : PayoutItem) (written : Bool) (t : ℕ)
    (reply : PayoutReply) (s : State)
    → t < half_bound
    → item.amount_clt < half_bound
    → let f = (record_reply config now item written (pos t) reply s).flow in
      (f ≡ break_off)
      ⊎ (f ≡ continue_with (pos (t + (if at_risk reply then item.amount_clt else 0))))
unfolding record_reply
record_reply-flow config now item written t (paid tx) s h k =
    rw (add_below_half t item.amount_clt h k) (ground arith)
record_reply-flow config now item written t (float_dry a b c) s h k = ground arith
record_reply-flow config now item written t (cap_exceeded a) s h k = ground arith
record_reply-flow config now item written t needs_trx s h k = ground arith
record_reply-flow config now item written t (refused a) s h k = ground arith
record_reply-flow config now item written t (ambiguous a) s h k =
    rw (add_below_half t item.amount_clt h k) (ground arith)
record_reply-flow config now item written t (submitted a b c) s h k = inl refl
record_reply-flow config now item written t (refused_by_relay a b c) s h k = inl refl
record_reply-flow config now item written t (float_inactive a) s h k = inl refl

claim_and_pay-Charges :
    (config : AppConfig) (now : ℕ) (item : PayoutItem) (answers : Answers) (claim : ClaimAnswer)
    (t : ℕ) (s : State)
    → t < half_bound
    → item.amount_clt < half_bound
    → pos (t + item.amount_clt) ≤ℤ config.daily_payout_cap_clt
    → Charges config t (claim_and_pay config now item answers claim (pos t) s)
unfolding claim_and_pay sum_rows
claim_and_pay-Charges config now item answers (errored c) t s h k fits = record {
  flow = inr (ground arith);
  capped = inl refl;
}
claim_and_pay-Charges config now item answers answered t s h k fits =
    elim (Bool-cases (exists_row (is_claimable item.id) s.db.redemption_intents)) [
      | inl found ↦ rw found (record {
        flow = ground (
          arith,
          record_reply-flow config now item answers.written t answers.reply
              (claim_row now item.id s) h k,
        );
        capped = ground arith;
      })
      | inr gone ↦ rw gone (record { flow = inr (ground arith); capped = inl refl })
    ]

pay_row-Charges :
    (config : AppConfig) (now : ℕ) (item : PayoutItem) (answers : Answers) (t : ℕ) (s : State)
    → t < half_bound
    → config.daily_payout_cap_clt ≤ℤ pos (half_bound - 1)
    → Charges config t (pay_row config now item answers (pos t) s)
unfolding pay_row sum_rows
pay_row-Charges config now item answers t s h k =
    elim (Bool-cases (ltb_ℤ config.daily_payout_cap_clt (pos item.amount_clt))) [
      | inl over ↦ rw over (record { flow = inr (ground arith); capped = inl refl })
      | inr one ↦
          let small : item.amount_clt < half_bound = ground arith in
          elim (Bool-cases (ltb_ℤ config.daily_payout_cap_clt (pos (t + item.amount_clt)))) [
            | inl full ↦
                rw (one, add_below_half t item.amount_clt h small, full)
                  (record { flow = inl refl; capped = inl refl })
            | inr fits ↦
                rw (one, add_below_half t item.amount_clt h small, fits)
                  (claim_and_pay-Charges config now item answers answers.claim t s h small
                    (ground arith))
          ]
    ]

pay_rows-capped :
    (config : AppConfig) (now : ℕ) (answers : ℕ → Answers) (items : List PayoutItem) (t : ℕ)
    (s : State)
    → t < half_bound
    → config.daily_payout_cap_clt ≤ℤ pos (half_bound - 1)
    → let calls = (pay_rows config now answers items (pos t) s).calls in
      (risked calls ≡ 0) ⊎ (pos (t + risked calls) ≤ℤ config.daily_payout_cap_clt)
unfolding pay_rows sum_rows
pay_rows-capped config now answers [] t s h k = inl refl
pay_rows-capped config now answers (item ∷ items) t s h k =
    let first = pay_row config now item (answers item.id) (pos t) s in
    let charges = pay_row-Charges config now item (answers item.id) t s h k in
    elim charges.flow [
      | inl stops ↦
          rw (stops, sum_rows-append (λ c. at_risk c.reply) (λ c. c.item.amount_clt) first.calls [])
            (ground (arith, charges.capped))
      | inr goes ↦
          let rest = pay_rows config now answers items (pos (t + risked first.calls)) first.state in
          let next =
            pay_rows-capped config now answers items (t + risked first.calls) first.state
              (ground (arith, charges.capped)) k in
          rw
            (
              goes,
              sum_rows-append (λ c. at_risk c.reply) (λ c. c.item.amount_clt) first.calls
                  rest.calls,
            )
            (ground (arith, charges.capped, next))
    ]

-- The CLT of the redemptions that one pass may have paid, with what the last 24 hours have already
-- spent, is within the daily cap, or the pass paid nothing; for a cap and a total below 2 ^ 62. A
-- payout whose outcome is unknown counts as paid.
pub drain_once-within_cap :
    (config : AppConfig) (now : ℕ) (answers : ℕ → Answers) (s : State)
    → daily_payout_total now s.db < half_bound
    → config.daily_payout_cap_clt ≤ℤ pos (half_bound - 1)
    → let calls = (drain_once config now answers s).calls in
      (risked calls ≡ 0)
      ⊎ (pos (daily_payout_total now s.db + risked calls) ≤ℤ config.daily_payout_cap_clt)
unfolding drain_once sum_rows
drain_once-within_cap config now answers s h k =
    elim (Bool-cases
      (s.db.breaker_state.minting_halted || exists_row (in_doubt now) s.db.redemption_intents)) [
        | inl held ↦ rw held (inl refl)
        | inr runs ↦ rw runs (
            pay_rows-capped config now answers (pending_items s.db) (daily_payout_total now s.db) s
              h k)
      ]
