-- ===== src/Payout/Calls.antt =====
-- What the signer is asked to pay (payout.rs, `drain_once`).
use clutch_treasury.Base.{
  Selected, where_rows-Selected, ℕ, ◌≡◌, inl, inr, refl, ap, sym, subst, false, ◌||◌, List, [], ◌∷◌,
  ◌++◌, arith, Bool-cases, exists_row, All, All-append, All-order_by,
}
use clutch_treasury.Base.Int.{ℤ, pos, ltb_ℤ, add_i64}
use clutch_treasury.Store.{AppConfig, RedemptionIntent, RedemptionStatus, Db}
use mathlib.Core.List.{Memᴰ}
use clutch_treasury.Payout.Rows.{
  State, Step, Call, Flow, continue_with, break_off, PayoutItem, payout_item, Answers, ClaimAnswer,
  answered, errored, is_payout_pending, in_doubt, is_claimable,
}
use clutch_treasury.Payout.{
  Pass, claim_and_pay, pay_row, pay_rows, drain_once, pending_items, idle, payout_items, call_of,
}

-- A redemption of the table awaits its payout, and the item is read from it.
abbrev pub Awaits : Db → PayoutItem → Type 0
Awaits db item =
    (r : RedemptionIntent) × Memᴰ r db.redemption_intents
    × (r.status ≡ RedemptionStatus.payout_pending)
    × (item ≡ payout_item r)

-- A call pays such a redemption what was quoted, where its redeemer asked for it, while the
-- treasury runs and no permit is in doubt.
pub record Backed (now : ℕ) (db : Db) (c : Call) : Type 0 where
  pub awaits : Awaits db c.item
  pub quoted : c.amount_usdt ≡ c.item.payout_amount_usdt
  pub to_redeemer : c.to ≡ c.item.payout_address
  pub not_halted : db.breaker_state.minting_halted ≡ false
  pub no_doubt : exists_row (in_doubt now) db.redemption_intents ≡ false

payout_items-Awaits :
    (db : Db) (rows : List RedemptionIntent)
    → All (Selected (λ r. is_payout_pending r.status) db.redemption_intents) rows
    → All (Awaits db) (payout_items rows)
unfolding Selected
payout_items-Awaits db [] h = tt
payout_items-Awaits db (r ∷ rows) h =
    ((r, h.0.0, ground (arith, h.0.1), refl), payout_items-Awaits db rows h.1)

pending_items-Awaits : (db : Db) → All (Awaits db) (pending_items db)
unfolding pending_items
pending_items-Awaits db = payout_items-Awaits db _ (
    All-order_by _ (λ r. r.created_at) _
      (where_rows-Selected (λ r. is_payout_pending r.status) db.redemption_intents))

pay_row-calls :
    (config : AppConfig) (now : ℕ) (item : PayoutItem) (answers : Answers) (t : ℤ) (s : State)
    → All (λ c. c ≡ call_of item c.reply) (pay_row config now item answers t s).calls
unfolding pay_row claim_and_pay
pay_row-calls config now item answers t s =
    elim (Bool-cases (ltb_ℤ config.daily_payout_cap_clt (pos item.amount_clt))) [
      | inl over ↦ rw over tt
      | inr one ↦
          elim (Bool-cases (ltb_ℤ config.daily_payout_cap_clt (add_i64 t (pos item.amount_clt)))) [
            | inl full ↦ rw (one, full) tt
            | inr fits ↦ rw (one, fits) (by_claim answers.claim)
          ]
    ]
  where
    by_claim :
        (a : ClaimAnswer)
        → All (λ c. c ≡ call_of item c.reply) (claim_and_pay config now item answers a t s).calls
    by_claim (errored c) = tt
    by_claim answered =
        elim (Bool-cases (exists_row (is_claimable item.id) s.db.redemption_intents)) [
          | inl found ↦ rw found (refl, tt)
          | inr gone ↦ rw gone tt
        ]

-- What the loop hands to the signer comes from its items.
abbrev FromItem : Db → Call → Type 0
FromItem db c = Awaits db c.item × (c ≡ call_of c.item c.reply)

from_item :
    (db : Db) (item : PayoutItem) (calls : List Call)
    → Awaits db item
    → All (λ c. c ≡ call_of item c.reply) calls
    → All (FromItem db) calls
from_item db item [] a h = tt
from_item db item (c ∷ calls) a h =
    let same : c.item ≡ item = ap (λ (x : Call). x.item) h.0 in
    (
      subst (λ i. Awaits db i × (c ≡ call_of i c.reply)) (sym same) (a, h.0),
      from_item db item calls a h.1,
    )

pay_rows-FromItem :
    (config : AppConfig) (now : ℕ) (answers : ℕ → Answers) (db : Db) (items : List PayoutItem)
    (t : ℤ) (s : State)
    → All (Awaits db) items
    → All (FromItem db) (pay_rows config now answers items t s).calls
unfolding pay_rows
pay_rows-FromItem config now answers db [] t s h = tt
pay_rows-FromItem config now answers db (item ∷ items) t s h =
    next (pay_row config now item (answers item.id) t s).flow
      (λ u. pay_rows-FromItem config now answers db items u _ h.1)
  where
    first : Step
    first = pay_row config now item (answers item.id) t s

    own : All (FromItem db) first.calls
    own = from_item db item first.calls h.0 (pay_row-calls config now item (answers item.id) t s)

    next :
        (f : Flow)
        → ((u : ℤ) → All (FromItem db) (pay_rows config now answers items u first.state).calls)
        → let rest : Pass = elim f [
          | continue_with u ↦ pay_rows config now answers items u first.state
          | break_off ↦ idle first.state
        ] in
          All (FromItem db) (first.calls ++ rest.calls)
    next (continue_with u) rest =
        All-append (FromItem db) first.calls (pay_rows config now answers items u first.state).calls
          own (rest u)
    next break_off rest = All-append (FromItem db) first.calls [] own tt

backed :
    (now : ℕ) (db : Db) (calls : List Call)
    → db.breaker_state.minting_halted ≡ false
    → exists_row (in_doubt now) db.redemption_intents ≡ false
    → All (FromItem db) calls
    → All (Backed now db) calls
backed now db [] running clear h = tt
backed now db (c ∷ calls) running clear h = (
  record {
    awaits = h.0.0;
    quoted = ap (λ (x : Call). x.amount_usdt) h.0.1;
    to_redeemer = ap (λ (x : Call). x.to) h.0.1;
    not_halted = running;
    no_doubt = clear;
  },
  backed now db calls running clear h.1,
)

-- Every payment that a pass asks of the signer is for a redemption of the table that was
-- payout_pending, of its quoted net amount, to its payout address; and it is asked only while the
-- treasury is not halted and no permit is in doubt.
pub drain_once-Backed :
    (config : AppConfig) (now : ℕ) (answers : ℕ → Answers) (s : State)
    → All (Backed now s.db) (drain_once config now answers s).calls
unfolding drain_once
drain_once-Backed config now answers s =
    elim (Bool-cases
      (s.db.breaker_state.minting_halted || exists_row (in_doubt now) s.db.redemption_intents)) [
        | inl held ↦ rw held tt
        | inr runs ↦ rw runs (
            backed now s.db _ (ground (arith, runs)) (ground (arith, runs)) (
              pay_rows-FromItem config now answers s.db (pending_items s.db) _ s
                (pending_items-Awaits s.db)))
      ]
