-- ===== src/Orchestrator/Life/Bridges.antt =====
-- What a pass of crates/payment-orchestrator/src/treasury_bridge.rs does to the deposits.
use clutch_treasury.Base.{
  ℕ, ◌≡◌, inr, refl, Bool, true, false, Option, none, some, List, [], ◌∷◌, arith, Text, codes,
  text_eq,
}
use clutch_treasury.Api.{CreateMintIntentBody}
use clutch_treasury.Orchestrator.Store.{
  DepositStatus, created, invoiced, paying, confirmed, mint_requested, credited, expired, failed,
  needs_manual, DepositIntent, OrchDb, Step, FailureCause,
}
use clutch_treasury.Orchestrator.Deposits.{
  is_any, transition, record_attempt_failure, reset_attempts, set_treasury_intent_id, defer_poll,
  due_for_mint_request, due_for_status_poll,
}
use clutch_treasury.Orchestrator.Bridge.{
  mint_request, page, record_failure_and_maybe_alert, Answer, no_answer, bad_answer, says,
  create_step, hold, give_up, park, follow, poll_answered, poll_known, poll_step, create_steps,
  poll_steps, Treasury, run_once,
}
use clutch_treasury.Orchestrator.Life.{Leads, Change, then_on}
use clutch_treasury.Orchestrator.Life as Life
use clutch_treasury.Orchestrator.Life.Writes.{
  Changes, Changes-refl, if-Changes, transition-Changes, set_treasury_intent_id-Changes,
  record_attempt_failure-Changes, reset_attempts-Changes, defer_poll-Changes,
}

page-Changes :
    (now id : ℕ) (step : Step) (cause : FailureCause) (r : Option ℕ × OrchDb)
    → Changes r.1 (page now id step cause r)
page-Changes now id step cause (none, db) = Changes-refl db
page-Changes now id step cause (some attempts, db) = Life.unchanged (ground arith)

failure-Changes :
    (now : ℕ) (draw : ℕ → ℕ) (id : ℕ) (step : Step) (cause : FailureCause) (db : OrchDb)
    → Changes db (record_failure_and_maybe_alert now draw id step cause db)
unfolding record_failure_and_maybe_alert
failure-Changes now draw id step cause db =
    then_on (record_attempt_failure-Changes now draw id db)
      (page-Changes now id step cause (record_attempt_failure now draw id db))

request-Changes :
    (id : ℕ) (db : OrchDb) → Changes db (transition id (confirmed ∷ []) mint_requested db).1
request-Changes id db = transition-Changes id (confirmed ∷ []) mint_requested legal db
  where
    legal : (s : DepositStatus) → is_any (confirmed ∷ []) s ≡ true → Leads s mint_requested
    legal confirmed e = inr (omega arith, omega arith)
    legal created e = cc
    legal invoiced e = cc
    legal paying e = cc
    legal expired e = cc
    legal mint_requested e = cc
    legal credited e = cc
    legal failed e = cc
    legal needs_manual e = cc

park-Changes : (id : ℕ) (db : OrchDb) → Changes db (park id db).1
park-Changes id db = transition-Changes id (mint_requested ∷ []) needs_manual legal db
  where
    legal : (s : DepositStatus) → is_any (mint_requested ∷ []) s ≡ true → Leads s needs_manual
    legal mint_requested e = inr (omega arith, omega arith)
    legal confirmed e = cc
    legal created e = cc
    legal invoiced e = cc
    legal paying e = cc
    legal expired e = cc
    legal credited e = cc
    legal failed e = cc
    legal needs_manual e = cc

settle-Changes :
    (id : ℕ) (db : OrchDb)
    → Changes db (transition id (mint_requested ∷ needs_manual ∷ []) credited db).1
settle-Changes id db = transition-Changes id (mint_requested ∷ needs_manual ∷ []) credited legal db
  where
    legal :
        (s : DepositStatus)
        → is_any (mint_requested ∷ needs_manual ∷ []) s ≡ true
        → Leads s credited
    legal mint_requested e = inr (omega arith, omega arith)
    legal needs_manual e = inr (omega arith, omega arith)
    legal confirmed e = cc
    legal created e = cc
    legal invoiced e = cc
    legal paying e = cc
    legal expired e = cc
    legal credited e = cc
    legal failed e = cc

create_step-Changes :
    (now : ℕ) (draw : ℕ → ℕ) (text_of : ℕ → Text) (treasury : CreateMintIntentBody → Answer ℕ)
    (i : DepositIntent) (db : OrchDb)
    → Changes db (create_step now draw text_of treasury i db)
unfolding create_step
create_step-Changes now draw text_of treasury i db = answered (treasury (mint_request text_of i))
  where
    answered :
        (a : Answer ℕ)
        → Changes db (elim a [
          | no_answer ↦
              record_failure_and_maybe_alert now draw i.id Step.create FailureCause.unreachable db
          | bad_answer ↦
              record_failure_and_maybe_alert now draw i.id Step.create FailureCause.refused db
          | says treasury_id ↦
              (transition i.id
                (confirmed ∷ [])
                mint_requested
                (reset_attempts i.id (set_treasury_intent_id i.id treasury_id db))).1
        ])
    answered no_answer = failure-Changes now draw i.id Step.create FailureCause.unreachable db
    answered bad_answer = failure-Changes now draw i.id Step.create FailureCause.refused db
    answered (says treasury_id) = then_on (set_treasury_intent_id-Changes i.id treasury_id db) (
        then_on (reset_attempts-Changes i.id (set_treasury_intent_id i.id treasury_id db))
          (request-Changes i.id (reset_attempts i.id (set_treasury_intent_id i.id treasury_id db))))

hold-Changes :
    (now id treasury_id : ℕ) (r : Bool × OrchDb) → Changes r.1 (hold now id treasury_id r)
hold-Changes now id treasury_id (true, db) = Life.unchanged refl
hold-Changes now id treasury_id (false, db) = Life.unchanged refl

give_up-Changes :
    (now id treasury_id : ℕ) (s : Text) (r : Bool × OrchDb)
    → Changes r.1 (give_up now id treasury_id s r)
give_up-Changes now id treasury_id s (true, db) = Life.unchanged refl
give_up-Changes now id treasury_id s (false, db) = Life.unchanged refl

ended-Changes :
    (now id treasury_id : ℕ) (s : Text) (db : OrchDb)
    → Changes db (give_up now id treasury_id s (park id (defer_poll now id 24 db)))
ended-Changes now id treasury_id s db = then_on (defer_poll-Changes now id 24 db) (
    then_on (park-Changes id (defer_poll now id 24 db))
      (give_up-Changes now id treasury_id s (park id (defer_poll now id 24 db))))

follow-Changes :
    (now id treasury_id : ℕ) (status : Option Text) (db : OrchDb)
    → Changes db (follow now id treasury_id status db)
unfolding follow
follow-Changes now id treasury_id none db = Changes-refl db
follow-Changes now id treasury_id (some s) db =
    if-Changes (text_eq s (codes "credited")) db _ _ (settle-Changes id db) (
      if-Changes (text_eq s (codes "needs_manual")) db _ _
        (then_on (park-Changes id db) (hold-Changes now id treasury_id (park id db)))
        (if-Changes (text_eq s (codes "rejected")) db _ _ (ended-Changes now id treasury_id s db) (
          if-Changes (text_eq s (codes "failed")) db _ _ (ended-Changes now id treasury_id s db)
            (Changes-refl db))))

poll_answered-Changes :
    (now : ℕ) (draw : ℕ → ℕ) (id treasury_id : ℕ) (a : Answer (Option Text)) (db : OrchDb)
    → Changes db (poll_answered now draw id treasury_id a db)
poll_answered-Changes now draw id treasury_id no_answer db =
    failure-Changes now draw id Step.poll FailureCause.unreachable db
poll_answered-Changes now draw id treasury_id bad_answer db =
    failure-Changes now draw id Step.poll FailureCause.refused db
poll_answered-Changes now draw id treasury_id (says status) db =
    then_on (reset_attempts-Changes id db)
      (follow-Changes now id treasury_id status (reset_attempts id db))

poll_known-Changes :
    (now : ℕ) (draw : ℕ → ℕ) (treasury : ℕ → Answer (Option Text)) (id : ℕ) (known : Option ℕ)
    (db : OrchDb)
    → Changes db (poll_known now draw treasury id known db)
poll_known-Changes now draw treasury id none db = Changes-refl db
poll_known-Changes now draw treasury id (some treasury_id) db =
    poll_answered-Changes now draw id treasury_id (treasury treasury_id) db

create_steps-Changes :
    (now : ℕ) (draw : ℕ → ℕ) (text_of : ℕ → Text) (treasury : CreateMintIntentBody → Answer ℕ)
    (due : List DepositIntent) (db : OrchDb)
    → Changes db (create_steps now draw text_of treasury due db)
unfolding create_steps
create_steps-Changes now draw text_of treasury [] db = Changes-refl db
create_steps-Changes now draw text_of treasury (i ∷ due) db =
    then_on (create_step-Changes now draw text_of treasury i db) (
      create_steps-Changes now draw text_of treasury due
        (create_step now draw text_of treasury i db))

poll_steps-Changes :
    (now : ℕ) (draw : ℕ → ℕ) (treasury : ℕ → Answer (Option Text)) (due : List DepositIntent)
    (db : OrchDb)
    → Changes db (poll_steps now draw treasury due db)
unfolding poll_steps poll_step
poll_steps-Changes now draw treasury [] db = Changes-refl db
poll_steps-Changes now draw treasury (i ∷ due) db =
    then_on (poll_known-Changes now draw treasury i.id i.treasury_intent_id db)
      (poll_steps-Changes now draw treasury due (poll_step now draw treasury i db))

pub run_once-Changes :
    (now : ℕ) (draw : ℕ → ℕ) (text_of : ℕ → Text) (treasury : Treasury) (db : OrchDb)
    → Changes db (run_once now draw text_of treasury db)
unfolding run_once
run_once-Changes now draw text_of treasury db =
    let requested =
      create_steps now draw text_of treasury.created_as (due_for_mint_request now db) db in
    then_on
      (create_steps-Changes now draw text_of treasury.created_as (due_for_mint_request now db) db)
      (poll_steps-Changes now draw treasury.status_of (due_for_status_poll now requested) requested)
