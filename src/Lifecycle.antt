-- ===== src/Lifecycle.antt =====
-- The life of a mint intent across the operations that decide it: the verifier's pass
-- (crates/treasury-service/src/tron_verifier.rs), the approval of intents.rs and the crediting of
-- watcher.rs, against one state machine of its status.
pub mod Runs
pub mod Named
use clutch_treasury.Base.{
  ℕ, ◌≡◌, ◌⊎◌, inl, inr, refl, sym, ap, ◌∙◌, subst, Bool, true, false, ◌&&◌, not, ◌==◌, ==_iff,
  Option, none, some, List, [], ◌∷◌, ◌++◌, arith, Bool-cases, Option-cases, if◌then◌else◌, find,
  update, is_some, Text, text_eq,
}
use clutch_treasury.Store.{MintIntent, MintStatus, Db, mint_executed}
use clutch_treasury.Ledger.{insert_event_once}
use clutch_treasury.Intents.{
  has_id, find_by_id, approve_mint_intent, approve_row, set_approved, is_approvable,
}
use clutch_treasury.Watcher.{credit_mint, credit_rows, is_creditable, set_credited, set_hash}
use clutch_treasury.ServiceFee.{charge}
use clutch_treasury.Verifier.Approve.{
  set_verified, set_rejected, set_deposit_tx, is_open, is_created,
}
use clutch_treasury.Verifier.Steps.{
  Given, to_mint, to_review, Written, claimed, rejected, verified, charged, appended, Writes, here,
  next, insert_event_once-intents,
}
use clutch_treasury.Verifier.Passes.{verify_once-Writes}
use clutch_treasury.Verifier.Waits.{find-append}
use clutch_treasury.Verifier.{VerifierConfig, Answers, verify_once}

-- The state machine of the status: what one decision does.
pub data Advance : MintStatus → MintStatus → Type 0 where
  accepts_deposit : Advance MintStatus.created MintStatus.approved
  holds_deposit : Advance MintStatus.created MintStatus.needs_manual
  refuses_deposit : Advance MintStatus.created MintStatus.rejected
  reviews : Advance MintStatus.needs_manual MintStatus.approved
  credits_approved : Advance MintStatus.approved MintStatus.credited
  credits_submitted : Advance MintStatus.submitted MintStatus.credited

pub data Reach (s : MintStatus) : MintStatus → Type 0 where
  stays : Reach s s
  moves : {t u : MintStatus} → Reach s t → Advance t u → Reach s u

Reach-trans : {s t u : MintStatus} → Reach s t → Reach t u → Reach s u
Reach-trans h stays = h
Reach-trans h (moves k a) = moves (Reach-trans h k) a

-- An intent goes on from one table to the next, by steps of the machine.
abbrev pub Goes : ℕ → MintIntent → List MintIntent → Type 0
Goes id i rows = (j : MintIntent) × (find (has_id id) rows ≡ some j) × Reach i.status j.status

abbrev pub Follows : List MintIntent → List MintIntent → Type 0
Follows rows after = (id : ℕ) (i : MintIntent) → find (has_id id) rows ≡ some i → Goes id i after

pub Follows-trans : (a b c : List MintIntent) → Follows a b → Follows b c → Follows a c
Follows-trans a b c h k id i e =
    let one = h id i e in let two = k id one.0 one.1 in (two.0, two.1, Reach-trans one.2 two.2)

head-Goes :
    (id : ℕ) (x y i : MintIntent) (ys : List MintIntent)
    → has_id id y ≡ true
    → ◌≡◌ {A = Option MintIntent} (some x) (some i)
    → Reach x.status y.status
    → Goes id i (y ∷ ys)
unfolding find
head-Goes id x y i ys own e r =
    let same : x ≡ i = cc in
    (y, rw own refl, subst (λ (z : MintIntent). Reach z.status y.status) same r)

tail-Goes :
    (id : ℕ) (y i : MintIntent) (ys : List MintIntent)
    → has_id id y ≡ false
    → Goes id i ys
    → Goes id i (y ∷ ys)
unfolding find
tail-Goes id y i ys other g = (g.0, rw other g.1, g.2)

-- An update that moves each row that it hits along the machine.
update-Follows :
    (p : MintIntent → Bool) (f : MintIntent → MintIntent)
    → ((x : MintIntent) → (f x).id ≡ x.id)
    → ((x : MintIntent) → p x ≡ true → Reach x.status (f x).status)
    → (rows : List MintIntent) → Follows rows (update p f rows)
unfolding find update
update-Follows p f ids step [] id i e = cc
update-Follows p f ids step (x ∷ rows) id i e = elim (Bool-cases (has_id id x)) [
  | inr other ↦
      tail-Goes id _ i (update p f rows) (kept (Bool-cases (p x)) ∙ other)
        (update-Follows p f ids step rows id i (rw other at e))
  | inl own ↦
      head-Goes id x _ i (update p f rows) (kept (Bool-cases (p x)) ∙ own) (rw own at e)
        (moved (Bool-cases (p x)))
]
  where
    kept : (p x ≡ true) ⊎ (p x ≡ false) → has_id id (if p x then f x else x) ≡ has_id id x
    kept (inl hit) = rw hit (ap (λ k. k == id) (ids x))
    kept (inr miss) = rw miss refl

    moved : (p x ≡ true) ⊎ (p x ≡ false) → Reach x.status (if p x then f x else x).status
    moved (inl hit) = rw hit (step x hit)
    moved (inr miss) = rw miss stays

-- From `created`, the only status that an open intent has.
from_created :
    (id : ℕ) (x : MintIntent) (s : MintStatus)
    → is_open id x ≡ true
    → Advance MintStatus.created s
    → Reach x.status s
from_created id x s open_row a = by_status x.status (ground (arith, open_row))
  where
    by_status : (t : MintStatus) → is_created t ≡ true → Reach t s
    by_status MintStatus.created e = moves stays a
    by_status MintStatus.approved e = cc
    by_status MintStatus.submitted e = cc
    by_status MintStatus.credited e = cc
    by_status MintStatus.failed e = cc
    by_status MintStatus.rejected e = cc
    by_status MintStatus.needs_manual e = cc

given : {s : MintStatus} → Given s → Advance MintStatus.created s
given to_mint = accepts_deposit
given to_review = holds_deposit

Written-Follows :
    {may : ℕ → Type 0} {rows after : List MintIntent} → Written may rows after → Follows rows after
Written-Follows (claimed {rows} now id tx_id m free) =
    update-Follows (has_id id) (set_deposit_tx now tx_id) (λ x. refl) (λ x e. stays) rows
Written-Follows (rejected {rows} now id m) =
    update-Follows (is_open id) (set_rejected now) (λ x. refl)
      (λ x e. from_created id x _ e refuses_deposit) rows
Written-Follows (verified {rows} now id status limit observed m g allowed) =
    update-Follows (is_open id) (set_verified now status limit observed) (λ x. refl)
      (λ x e. from_created id x status e (given g)) rows
Written-Follows (charged {rows} id fee m) =
    update-Follows (has_id id) (charge fee) (λ x. refl) (λ x e. stays) rows
Written-Follows (appended {rows} now settings id fee_id fee_ref fee takes) =
    λ k i e. (i, find-append (has_id k) rows _ i e, stays)

pub Writes-Follows :
    {may : ℕ → Type 0} {rows after : List MintIntent} → Writes may rows after → Follows rows after
Writes-Follows here = λ id i e. (i, e, stays)
Writes-Follows {rows = rows} {after = after} (next {mid} w s) =
    Follows-trans rows mid after (Writes-Follows w) (Written-Follows s)

-- Crediting.
from_creditable : (s : MintStatus) → is_creditable s ≡ true → Reach s MintStatus.credited
from_creditable MintStatus.approved e = moves stays credits_approved
from_creditable MintStatus.submitted e = moves stays credits_submitted
from_creditable MintStatus.created e = cc
from_creditable MintStatus.credited e = cc
from_creditable MintStatus.failed e = cc
from_creditable MintStatus.rejected e = cc
from_creditable MintStatus.needs_manual e = cc

pub credit_mint-Follows :
    (now id amount : ℕ) (h : Text) (db : Db)
    → Follows db.mint_intents (credit_mint now id amount h db).mint_intents
unfolding credit_mint credit_rows
credit_mint-Follows now id amount h db =
    subst
      (λ rows. Follows rows (
        update hashless (set_hash h) (
          update open_intent (set_credited now)
            (insert_event_once id mint_executed amount 0 (some h) db).mint_intents)))
      (insert_event_once-intents id mint_executed amount 0 (some h) db)
      (Follows-trans _ _ _
        (update-Follows open_intent (set_credited now) (λ x. refl)
          (λ x e. from_creditable x.status (ground (arith, e))) _)
        (update-Follows hashless (set_hash h) (λ x. refl) (λ x e. stays) _))
  where
    hashless : MintIntent → Bool
    hashless = λ i. i.id == id && not (is_some i.chain_tx_hash)

    open_intent : MintIntent → Bool
    open_intent = λ i. i.id == id && is_creditable i.status
