-- ===== src/Orchestrator/Bridge.antt =====
-- The bridge to the treasury: crates/payment-orchestrator/src/treasury_bridge.rs. What the treasury
-- answers is an argument, as are the text of an id and the random jitter.
use clutch_treasury.Base.{
  ℕ, ◌%◌, ◌==◌, Bool, true, false, ◌&&◌, Option, none, some, List, [], ◌∷◌, if◌then◌else◌, ltb,
  Text, codes, text_eq,
}
use clutch_treasury.Base.Int.{pos}
use clutch_treasury.Store.{Network, tron, bsc, p1}
use clutch_treasury.Api.{CreateMintIntentBody}
use clutch_treasury.Orchestrator.Store.{
  confirmed, mint_requested, credited, needs_manual, DepositIntent, OrchDb, Step, create, poll,
  FailureCause, unreachable, refused, failures, held_by_treasury, ended_by_treasury,
  treasury_bridge,
}
use clutch_treasury.Orchestrator.Deposits.{
  alert, record_attempt_failure, reset_attempts, set_treasury_intent_id, transition, defer_poll,
  due_for_mint_request, due_for_status_poll,
}

abbrev pub or_else : Option ℕ → ℕ → ℕ
or_else none n = n
or_else (some m) n = m

abbrev network_of : Network → Option Text
network_of tron = none
network_of bsc = some (codes "bsc")

-- The body of the request; `text_of` writes an id.
abbrev pub mint_request : (ℕ → Text) → DepositIntent → CreateMintIntentBody
mint_request text_of i = record {
  beneficiary = i.clt_address;
  amount_clt = pos (or_else i.received_usdt i.amount_clt);
  client_ref = some (text_of i.id);
  deposit_tx_id = i.tron_tx_id;
  expected_amount_usdt = some (pos (or_else i.received_usdt i.amount_usdt));
  deposit_address = i.deposit_address;
  derivation_index = i.derivation_index;
  direct_from = i.direct_from;
  network = network_of i.network;
}

abbrev pages : ℕ → Bool
pages attempts = ltb 0 attempts && attempts % 10 == 0

abbrev pub page : ℕ → ℕ → Step → FailureCause → Option ℕ × OrchDb → OrchDb
page now id step cause (none, db) = db
page now id step cause (some attempts, db) =
    if pages attempts then alert now p1 treasury_bridge (failures id attempts step cause) db else db

unfoldable pub record_failure_and_maybe_alert :
    ℕ → (ℕ → ℕ) → ℕ → Step → FailureCause → OrchDb → OrchDb
unfolding record_attempt_failure
record_failure_and_maybe_alert now draw id step cause db =
    page now id step cause (record_attempt_failure now draw id db)

-- The answer to a request: no answer, an error or an unreadable answer, or what it says.
pub data Answer {ℓ} (A : Type ℓ) : Type ℓ where
  no_answer bad_answer : Answer A
  says : A → Answer A

unfoldable pub create_step :
    ℕ → (ℕ → ℕ) → (ℕ → Text) → (CreateMintIntentBody → Answer ℕ) → DepositIntent → OrchDb → OrchDb
unfolding record_failure_and_maybe_alert set_treasury_intent_id reset_attempts transition
create_step now draw text_of treasury i db = elim (treasury (mint_request text_of i)) [
  | no_answer ↦ record_failure_and_maybe_alert now draw i.id create unreachable db
  | bad_answer ↦ record_failure_and_maybe_alert now draw i.id create refused db
  | says treasury_id ↦
      (transition i.id (confirmed ∷ []) mint_requested
        (reset_attempts i.id (set_treasury_intent_id i.id treasury_id db))).1
]

-- One alert where the row moved.
abbrev pub hold : ℕ → ℕ → ℕ → Bool × OrchDb → OrchDb
hold now id treasury_id (true, db) =
    alert now p1 treasury_bridge (held_by_treasury id treasury_id) db
hold now id treasury_id (false, db) = db

abbrev pub give_up : ℕ → ℕ → ℕ → Text → Bool × OrchDb → OrchDb
give_up now id treasury_id status (true, db) =
    alert now p1 treasury_bridge (ended_by_treasury id treasury_id status) db
give_up now id treasury_id status (false, db) = db

abbrev pub park : ℕ → OrchDb → Bool × OrchDb
park id db = transition id (mint_requested ∷ []) needs_manual db

-- What the treasury's status does; none is an answer without one.
unfoldable pub follow : ℕ → ℕ → ℕ → Option Text → OrchDb → OrchDb
unfolding transition defer_poll text_eq
follow now id treasury_id none db = db
follow now id treasury_id (some s) db =
    if text_eq s (codes "credited")
    then (transition id (mint_requested ∷ needs_manual ∷ []) credited db).1
    else if text_eq s (codes "needs_manual")
    then hold now id treasury_id (park id db)
    else if text_eq s (codes "rejected")
    then give_up now id treasury_id s (park id (defer_poll now id 24 db))
    else if text_eq s (codes "failed")
    then give_up now id treasury_id s (park id (defer_poll now id 24 db))
    else db

abbrev pub poll_answered : ℕ → (ℕ → ℕ) → ℕ → ℕ → Answer (Option Text) → OrchDb → OrchDb
poll_answered now draw id treasury_id no_answer db =
    record_failure_and_maybe_alert now draw id poll unreachable db
poll_answered now draw id treasury_id bad_answer db =
    record_failure_and_maybe_alert now draw id poll refused db
poll_answered now draw id treasury_id (says status) db =
    follow now id treasury_id status (reset_attempts id db)

abbrev pub poll_known : ℕ → (ℕ → ℕ) → (ℕ → Answer (Option Text)) → ℕ → Option ℕ → OrchDb → OrchDb
poll_known now draw treasury id none db = db
poll_known now draw treasury id (some treasury_id) db =
    poll_answered now draw id treasury_id (treasury treasury_id) db

unfoldable pub poll_step :
    ℕ → (ℕ → ℕ) → (ℕ → Answer (Option Text)) → DepositIntent → OrchDb → OrchDb
unfolding record_failure_and_maybe_alert reset_attempts follow
poll_step now draw treasury i db = poll_known now draw treasury i.id i.treasury_intent_id db

unfoldable pub create_steps :
    ℕ
    → (ℕ → ℕ)
    → (ℕ → Text)
    → (CreateMintIntentBody → Answer ℕ)
    → List DepositIntent
    → OrchDb
    → OrchDb
unfolding create_step
create_steps now draw text_of treasury [] db = db
create_steps now draw text_of treasury (i ∷ due) db =
    create_steps now draw text_of treasury due (create_step now draw text_of treasury i db)

unfoldable pub poll_steps :
    ℕ → (ℕ → ℕ) → (ℕ → Answer (Option Text)) → List DepositIntent → OrchDb → OrchDb
unfolding poll_step
poll_steps now draw treasury [] db = db
poll_steps now draw treasury (i ∷ due) db =
    poll_steps now draw treasury due (poll_step now draw treasury i db)

-- What the treasury answers in one pass.
pub record Treasury : Type 0 where
  pub created_as : CreateMintIntentBody → Answer ℕ
  pub status_of : ℕ → Answer (Option Text)

unfoldable pub run_once : ℕ → (ℕ → ℕ) → (ℕ → Text) → Treasury → OrchDb → OrchDb
unfolding due_for_mint_request due_for_status_poll create_steps poll_steps
run_once now draw text_of treasury db =
    let requested : OrchDb =
      create_steps now draw text_of treasury.created_as (due_for_mint_request now db) db in
    poll_steps now draw treasury.status_of (due_for_status_poll now requested) requested
