-- ===== src/Lifecycle/Runs.antt =====
-- Any sequence of the operations that decide a mint intent (intents.rs, watcher.rs,
-- tron_verifier.rs).
use clutch_treasury.Base.{
  find-update_first, find-update_other, ℕ, ◌≡◌, inl, inr, refl, sym, ap, ◌∙◌, subst, Bool, true,
  false, ◌==◌, ==_iff, Option, some, List, [], ◌∷◌, arith, Bool-cases, Option-cases, find,
  find_holds, update, Text, text_eq,
}
use clutch_treasury.Store.{MintIntent, MintStatus, Db}
use clutch_treasury.Intents.{
  has_id, find_by_id, approve_mint_intent, approve_row, set_approved, is_approvable,
}
use clutch_treasury.Watcher.{credit_mint}
use clutch_treasury.Verifier.Passes.{verify_once-Writes}
use clutch_treasury.Verifier.{VerifierConfig, Answers, verify_once}
use clutch_treasury.Lifecycle.{
  Advance, accepts_deposit, holds_deposit, refuses_deposit, reviews, credits_approved,
  credits_submitted, Reach, stays, moves, Goes, Follows, Follows-trans, Writes-Follows,
  credit_mint-Follows,
}

from_approvable : (s : MintStatus) → is_approvable s ≡ true → Reach s MintStatus.approved
from_approvable MintStatus.created e = moves stays accepts_deposit
from_approvable MintStatus.needs_manual e = moves stays reviews
from_approvable MintStatus.approved e = cc
from_approvable MintStatus.submitted e = cc
from_approvable MintStatus.credited e = cc
from_approvable MintStatus.failed e = cc
from_approvable MintStatus.rejected e = cc

approved-Follows :
    (now id : ℕ) (by : Text) (rows : List MintIntent) (i : MintIntent)
    → find (has_id id) rows ≡ some i
    → is_approvable i.status ≡ true
    → Follows rows (update (has_id id) (set_approved now by) rows)
approved-Follows now id by rows i found ripe k j e = elim (Bool-cases (id == k)) [
  | inr apart ↦ (
    j,
    find-update_other (has_id k) (has_id id) (set_approved now by)
          (λ x hit. ground (arith, hit, apart)) (λ x hit. ground (arith, hit, apart)) rows
        ∙ e,
    stays,
  )
  | inl same ↦
      let own : id ≡ k = (==_iff id k).0 same in
      let both : some i ≡ some j =
        sym found ∙ subst (λ n. find (has_id n) rows ≡ some j) (sym own) e in
      let row : i ≡ j = cc in
      (
        set_approved now by i,
        subst
            (λ n.
              find (has_id n) (update (has_id id) (set_approved now by) rows)
              ≡ some (set_approved now by i))
            own
            (find-update_first (has_id id) (set_approved now by) rows i
              (find_holds (has_id id) rows i found) found),
        subst (λ (x : MintIntent). Reach x.status MintStatus.approved) row
            (from_approvable i.status ripe),
      )
]

approve_mint_intent-Follows :
    (now id : ℕ) (by : Text) (db : Db)
    → Follows db.mint_intents (approve_mint_intent now id by db).1.mint_intents
unfolding approve_mint_intent find_by_id approve_row
approve_mint_intent-Follows now id by db = elim (Option-cases (find (has_id id) db.mint_intents)) [
  | inl gone ↦ rw gone (λ k i e. (i, e, stays))
  | inr found ↦ elim (Bool-cases (is_approvable (found.0).status)) [
    | inr closed ↦ rw (found.1, closed) (λ k i e. (i, e, stays))
    | inl ripe ↦ elim (Bool-cases (text_eq (found.0).created_by by)) [
      | inl own ↦ rw (found.1, ripe, own) (λ k i e. (i, e, stays))
      | inr other ↦
          rw (found.1, ripe, other)
            (approved-Follows now id by db.mint_intents found.0 found.1 ripe)
    ]
  ]
]

-- An operation with all that it is given: a pass of the verifier, an approval by a person, a mint
-- seen on the chain.
pub data Operation : Type 0 where
  verify : VerifierConfig → Option ℕ → (ℕ → Answers) → ℕ → Operation
  approve : ℕ → ℕ → Text → Operation
  credit : ℕ → ℕ → ℕ → Text → Operation

unfoldable pub perform : Operation → Db → Db
unfolding verify_once approve_mint_intent credit_mint
perform (verify config chain answers now) db = (verify_once config chain answers now db).1
perform (approve now id by) db = (approve_mint_intent now id by db).1
perform (credit now id amount tx_hash) db = credit_mint now id amount tx_hash db

unfoldable pub run : List Operation → Db → Db
unfolding perform
run [] db = db
run (o ∷ rest) db = run rest (perform o db)

perform-Follows : (o : Operation) (db : Db) → Follows db.mint_intents (perform o db).mint_intents
unfolding perform
perform-Follows (verify config chain answers now) db =
    Writes-Follows (verify_once-Writes config chain answers now db)
perform-Follows (approve now id by) db = approve_mint_intent-Follows now id by db
perform-Follows (credit now id amount tx_hash) db = credit_mint-Follows now id amount tx_hash db

run-Goes :
    (operations : List Operation) (db : Db) (id : ℕ) (i : MintIntent)
    → find_by_id id db ≡ some i
    → Goes id i (run operations db).mint_intents
unfolding run find_by_id
run-Goes [] db id i e = (i, e, stays)
run-Goes (o ∷ rest) db id i e =
    Follows-trans db.mint_intents (perform o db).mint_intents (run rest (perform o db)).mint_intents
      (perform-Follows o db) (λ k j. run-Goes rest (perform o db) k j) id i e

-- The statuses that a mint intent does not leave.
abbrev pub is_final : MintStatus → Bool
is_final s = elim s [
  | MintStatus.rejected ↦ true
  | MintStatus.failed ↦ true
  | MintStatus.credited ↦ true
  | _ ↦ false
]

Advance-open : {s t : MintStatus} → Advance s t → is_final s ≡ false
Advance-open accepts_deposit = refl
Advance-open holds_deposit = refl
Advance-open refuses_deposit = refl
Advance-open reviews = refl
Advance-open credits_approved = refl
Advance-open credits_submitted = refl

Reach-final : {s t : MintStatus} → is_final s ≡ true → Reach s t → t ≡ s
Reach-final f stays = refl
Reach-final f (moves r a) =
    let still = Reach-final f r in
    let open_status = Advance-open a in
    let clash : true ≡ false = sym f ∙ ap is_final (sym still) ∙ open_status in absurd cc

-- Whatever passes of the verifier, approvals and credits run, in any order and with any answers of
-- the nodes, the signer and the database, an intent that is in the table stays in it, its status
-- goes only along the state machine, and a rejected, failed or credited intent keeps its status.
pub run-Follows :
    (operations : List Operation) (db : Db) (id : ℕ) (i : MintIntent)
    → find_by_id id db ≡ some i
    → (j : MintIntent) × (find_by_id id (run operations db) ≡ some j)
      × Reach i.status j.status
      × (is_final i.status ≡ true → j.status ≡ i.status)
unfolding find_by_id
run-Follows operations db id i e =
    let goes = run-Goes operations db id i e in (goes.0, goes.1, goes.2, λ f. Reach-final f goes.2)
