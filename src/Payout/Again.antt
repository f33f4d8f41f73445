-- ===== src/Payout/Again.antt =====
-- No redemption is paid twice over any number of passes (payout.rs).
use clutch_treasury.Base.{
  ℕ, ◌≡◌, ◌≢◌, inl, inr, subst, sym, true, ◌||◌, List, [], ◌∷◌, ◌++◌, arith, Bool-cases, exists_row,
  All, All-append,
}
use clutch_treasury.Base.Int.{ℤ, pos, ltb_ℤ, add_i64}
use clutch_treasury.Store.{AppConfig, Db}
use clutch_treasury.Payout.Rows.{
  State, Step, Call, Flow, continue_with, break_off, PayoutItem, Answers, ClaimAnswer, answered,
  errored, is_claimable, in_doubt, daily_payout_total,
}
use clutch_treasury.Payout.{Pass, claim_and_pay, pay_row, pay_rows, drain_once, pending_items, idle}
use clutch_treasury.Payout.Budget.{at_risk}
use clutch_treasury.Payout.Held.{Held, pay_row-keeps, pay_rows-keeps}
use clutch_treasury.Payout.Settled.{Settles, AllSettled, pay_rows-Settles}
use clutch_treasury.Payout.Settle.{ConfirmState, ChainView, confirm_payouts_once}
use clutch_treasury.Payout.Confirmed.{confirm_payouts_once-keeps}

drain_once-keeps :
    (config : AppConfig) (now i : ℕ) (answers : ℕ → Answers) (s : State)
    → Held i s.db
    → Held i (drain_once config now answers s).state.db
unfolding drain_once
drain_once-keeps config now i answers s h = ground (
  arith,
  pay_rows-keeps config now i answers (pending_items s.db) (pos (daily_payout_total now s.db)) s h,
)

drain_once-Settles :
    (config : AppConfig) (now : ℕ) (answers : ℕ → Answers) (s : State)
    → AllSettled (drain_once config now answers s)
unfolding drain_once
drain_once-Settles config now answers s =
    elim (Bool-cases
      (s.db.breaker_state.minting_halted || exists_row (in_doubt now) s.db.redemption_intents)) [
        | inl held ↦ rw held tt
        | inr runs ↦ rw runs (pay_rows-Settles config now answers (pending_items s.db) _ s)
      ]

-- The signer is not asked to pay a redemption that is held.
abbrev pub Spares : ℕ → List Call → Type 0
Spares i calls = All (λ c. c.item.id ≢ i) calls

pay_row-Spares :
    (config : AppConfig) (now i : ℕ) (item : PayoutItem) (answers : Answers) (t : ℤ) (s : State)
    → Held i s.db
    → Spares i (pay_row config now item answers t s).calls
unfolding pay_row claim_and_pay
pay_row-Spares config now i item answers t s h =
    elim (Bool-cases (ltb_ℤ config.daily_payout_cap_clt (pos item.amount_clt))) [
      | inl over ↦ rw over tt
      | inr one ↦
          elim (Bool-cases (ltb_ℤ config.daily_payout_cap_clt (add_i64 t (pos item.amount_clt)))) [
            | inl full ↦ rw (one, full) tt
            | inr fits ↦ rw (one, fits) (by_claim answers.claim)
          ]
    ]
  where
    clash : exists_row (is_claimable item.id) s.db.redemption_intents ≡ true → item.id ≢ i
    clash found e = let h' : Held item.id s.db = subst (λ k. Held k s.db) (sym e) h in cc

    by_claim : (a : ClaimAnswer) → Spares i (claim_and_pay config now item answers a t s).calls
    by_claim (errored c) = tt
    by_claim answered =
        elim (Bool-cases (exists_row (is_claimable item.id) s.db.redemption_intents)) [
          | inl found ↦ rw found (clash found, tt)
          | inr gone ↦ rw gone tt
        ]

pay_rows-Spares :
    (config : AppConfig) (now i : ℕ) (answers : ℕ → Answers) (items : List PayoutItem) (t : ℤ)
    (s : State)
    → Held i s.db
    → Spares i (pay_rows config now answers items t s).calls
unfolding pay_rows
pay_rows-Spares config now i answers [] t s h = tt
pay_rows-Spares config now i answers (item ∷ items) t s h =
    next (pay_row config now item (answers item.id) t s).flow (λ u.
      pay_rows-Spares config now i answers items u _
        (pay_row-keeps config now i item (answers item.id) t s h))
  where
    first : Step
    first = pay_row config now item (answers item.id) t s

    own : Spares i first.calls
    own = pay_row-Spares config now i item (answers item.id) t s h

    next :
        (f : Flow)
        → ((u : ℤ) → Spares i (pay_rows config now answers items u first.state).calls)
        → let rest : Pass = elim f [
          | continue_with u ↦ pay_rows config now answers items u first.state
          | break_off ↦ idle first.state
        ] in
          Spares i (first.calls ++ rest.calls)
    next (continue_with u) rest =
        All-append (λ (c : Call). c.item.id ≢ i) first.calls
          (pay_rows config now answers items u first.state).calls own (rest u)
    next break_off rest = All-append (λ (c : Call). c.item.id ≢ i) first.calls [] own tt

drain_once-Spares :
    (config : AppConfig) (now i : ℕ) (answers : ℕ → Answers) (s : State)
    → Held i s.db
    → Spares i (drain_once config now answers s).calls
unfolding drain_once
drain_once-Spares config now i answers s h =
    elim (Bool-cases
      (s.db.breaker_state.minting_halted || exists_row (in_doubt now) s.db.redemption_intents)) [
        | inl held ↦ rw held tt
        | inr runs ↦ rw runs (pay_rows-Spares config now i answers (pending_items s.db) _ s h)
      ]

-- Further passes of the payout worker and of the confirmation of its transfers, in any order. What
-- the process remembers for its alerts may be anything, as after a restart.
pub data Later (a : Db) : Db → Type 0 where
  same : Later a a
  drained :
      (config : AppConfig) (now : ℕ) (answers : ℕ → Answers) (s : State)
      → Later a s.db
      → Later a (drain_once config now answers s).state.db
  confirmed :
      (now : ℕ) (view : ChainView) (s : ConfirmState)
      → Later a s.db
      → Later a (confirm_payouts_once now view s).db

Later-keeps : (i : ℕ) {a b : Db} → Later a b → Held i a → Held i b
Later-keeps i same h = h
Later-keeps i (drained config now answers s before) h =
    drain_once-keeps config now i answers s (Later-keeps i before h)
Later-keeps i (confirmed now view s before) h =
    confirm_payouts_once-keeps now i view s (Later-keeps i before h)

-- Where the float may have paid a redemption, no later pass of the worker asks for it again.
abbrev pub NeverAgain : Db → Call → Type 0
NeverAgain b c =
    at_risk c.reply ≡ true
    → (config : AppConfig) (now : ℕ) (answers : ℕ → Answers) (s : State) → s.db ≡ b
    → Spares c.item.id (drain_once config now answers s).calls

never_again :
    (a b : Db) (calls : List Call) → Later a b → All (Settles a) calls → All (NeverAgain b) calls
never_again a b [] later h = tt
never_again a b (c ∷ calls) later h = (
  λ risk config now answers s e.
      drain_once-Spares config now c.item.id answers s
        (subst (Held c.item.id) (sym e) (Later-keeps c.item.id later (h.0 risk))),
  never_again a b calls later h.1,
)

-- After a call of the signer that paid, may have paid or may still pay (an unclear answer, a
-- permit with the relay), no pass asks the signer to pay the same redemption again: not after any
-- number of further passes of the worker and of the confirmation of transfers, whatever the
-- signer and the chain answer in them and whichever writes fail. A redemption goes back only by
-- another hand: the settlement of permits, or an operator.
pub drain_once-NeverAgain :
    (config : AppConfig) (now : ℕ) (answers : ℕ → Answers) (s : State) (b : Db)
    → Later (drain_once config now answers s).state.db b
    → All (NeverAgain b) (drain_once config now answers s).calls
drain_once-NeverAgain config now answers s b later =
    never_again _ b _ later (drain_once-Settles config now answers s)
