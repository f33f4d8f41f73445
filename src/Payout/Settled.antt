-- ===== src/Payout/Settled.antt =====
-- A burn that may have been paid is never paid again (payout.rs, `drain_once`).
use clutch_treasury.Base.{
  ℕ, ◌≡◌, inl, inr, true, List, [], ◌∷◌, ◌++◌, Bool-cases, exists_row, All, All-append,
}
use clutch_treasury.Base.Int.{ℤ, pos, ltb_ℤ, add_i64}
use clutch_treasury.Store.{AppConfig, Db}
use clutch_treasury.Payout.Rows.{
  State, Step, Call, Flow, continue_with, break_off, PayoutItem, Answers, ClaimAnswer, answered,
  errored, is_claimable, claim_row,
}
use clutch_treasury.Payout.Budget.{at_risk}
use clutch_treasury.Payout.{Pass, claim_and_pay, pay_row, pay_rows, idle}
use clutch_treasury.Payout.Held.{Held, claim_row-Held, record_reply-keeps, pay_rows-keeps}

-- A call after which the float may have paid leaves its redemption held.
abbrev pub Settles : Db → Call → Type 0
Settles db c = at_risk c.reply ≡ true → Held c.item.id db

pay_row-Settles :
    (config : AppConfig) (now : ℕ) (item : PayoutItem) (answers : Answers) (t : ℤ) (s : State)
    → let first = pay_row config now item answers t s in All (Settles first.state.db) first.calls
unfolding pay_row claim_and_pay
pay_row-Settles config now item answers t s =
    elim (Bool-cases (ltb_ℤ config.daily_payout_cap_clt (pos item.amount_clt))) [
      | inl over ↦ rw over tt
      | inr one ↦
          elim (Bool-cases (ltb_ℤ config.daily_payout_cap_clt (add_i64 t (pos item.amount_clt)))) [
            | inl full ↦ rw (one, full) tt
            | inr fits ↦ rw (one, fits) (by_claim answers.claim)
          ]
    ]
  where
    by_claim :
        (c : ClaimAnswer)
        → let first = claim_and_pay config now item answers c t s in
          All (Settles first.state.db) first.calls
    by_claim (errored c) = tt
    by_claim answered =
        elim (Bool-cases (exists_row (is_claimable item.id) s.db.redemption_intents)) [
          | inl found ↦ rw found (
            (λ risk.
                record_reply-keeps config now item.id item answers.written t answers.reply
                  (claim_row now item.id s) (λ e. risk) (claim_row-Held now item.id s)),
            tt,
          )
          | inr gone ↦ rw gone tt
        ]

All-settled :
    (a b : Db) (calls : List Call)
    → ((i : ℕ) → Held i a → Held i b)
    → All (Settles a) calls
    → All (Settles b) calls
All-settled a b [] keep h = tt
All-settled a b (c ∷ calls) keep h =
    (λ risk. keep c.item.id (h.0 risk), All-settled a b calls keep h.1)

-- The calls of a pass, and the state that it leaves.
abbrev pub AllSettled : Pass → Type 0
AllSettled p = All (Settles p.state.db) p.calls

pub pay_rows-Settles :
    (config : AppConfig) (now : ℕ) (answers : ℕ → Answers) (items : List PayoutItem) (t : ℤ)
    (s : State)
    → AllSettled (pay_rows config now answers items t s)
unfolding pay_rows
pay_rows-Settles config now answers [] t s = tt
pay_rows-Settles config now answers (item ∷ items) t s =
    next (pay_row config now item (answers item.id) t s).flow
      (λ u. pay_rows-Settles config now answers items u _)
      (λ u i. pay_rows-keeps config now i answers items u _)
  where
    first : Step
    first = pay_row config now item (answers item.id) t s

    own : All (Settles first.state.db) first.calls
    own = pay_row-Settles config now item (answers item.id) t s

    next :
        (f : Flow)
        → ((u : ℤ) → AllSettled (pay_rows config now answers items u first.state))
        → ((u : ℤ) (i : ℕ)
            → Held i first.state.db
            → Held i (pay_rows config now answers items u first.state).state.db)
        → let rest : Pass = elim f [
          | continue_with u ↦ pay_rows config now answers items u first.state
          | break_off ↦ idle first.state
        ] in
          All (Settles rest.state.db) (first.calls ++ rest.calls)
    next (continue_with u) rest keep =
        let after : Pass = pay_rows config now answers items u first.state in
        All-append (Settles after.state.db) first.calls after.calls
          (All-settled first.state.db after.state.db first.calls (keep u) own) (rest u)
    next break_off rest keep = All-append (Settles first.state.db) first.calls [] own tt
