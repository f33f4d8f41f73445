-- ===== src/Lifecycle/Named.antt =====
-- A mint intent is found under its `client_ref` across the operations that decide it (intents.rs,
-- watcher.rs, tron_verifier.rs).
use clutch_treasury.Base.{
  ℕ, ◌≡◌, ◌⊎◌, inl, inr, refl, ap, ◌∙◌, subst, Bool, true, false, ◌&&◌, not, ◌==◌, Option, some,
  List, [], ◌∷◌, Bool-cases, Option-cases, if◌then◌else◌, find, update, is_some, Text, text_eq,
}
use clutch_treasury.Store.{MintIntent, Db, mint_executed}
use clutch_treasury.Ledger.{insert_event_once}
use clutch_treasury.Intents.{
  has_id, find_by_id, find_by_client_ref, same_text, approve_mint_intent, approve_row, set_approved,
  is_approvable,
}
use clutch_treasury.Watcher.{credit_mint, credit_rows, is_creditable, set_credited, set_hash}
use clutch_treasury.ServiceFee.{charge}
use clutch_treasury.Verifier.Approve.{set_verified, set_rejected, set_deposit_tx, is_open}
use clutch_treasury.Verifier.Steps.{
  Written, claimed, rejected, verified, charged, appended, Writes, here, next,
  insert_event_once-intents,
}
use clutch_treasury.Verifier.Passes.{verify_once-Writes}
use clutch_treasury.Verifier.Waits.{find-append}
use clutch_treasury.Lifecycle.Runs.{Operation, verify, approve, credit, perform, run}

abbrev refers : Text → MintIntent → Bool
refers r i = same_text i.client_ref (some r)

-- Under a reference, the same intent as before is found.
abbrev Finds : Text → MintIntent → List MintIntent → Type 0
Finds r i rows = (j : MintIntent) × (find (refers r) rows ≡ some j) × (j.id ≡ i.id)

abbrev KeepsNames : List MintIntent → List MintIntent → Type 0
KeepsNames rows after =
    (r : Text) (i : MintIntent) → find (refers r) rows ≡ some i → Finds r i after

KeepsNames-refl : (rows : List MintIntent) → KeepsNames rows rows
KeepsNames-refl rows r i e = (i, e, refl)

KeepsNames-trans : (a b c : List MintIntent) → KeepsNames a b → KeepsNames b c → KeepsNames a c
KeepsNames-trans a b c h k r i e =
    let one = h r i e in let two = k r one.0 one.1 in (two.0, two.1, two.2 ∙ one.2)

head-Finds :
    (r : Text) (x y i : MintIntent) (ys : List MintIntent)
    → refers r y ≡ true
    → ◌≡◌ {A = Option MintIntent} (some x) (some i)
    → y.id ≡ x.id
    → Finds r i (y ∷ ys)
unfolding find
head-Finds r x y i ys own e same_id =
    let same : x ≡ i = cc in (y, rw own refl, same_id ∙ ap (λ (z : MintIntent). z.id) same)

tail-Finds :
    (r : Text) (y i : MintIntent) (ys : List MintIntent)
    → refers r y ≡ false
    → Finds r i ys
    → Finds r i (y ∷ ys)
unfolding find
tail-Finds r y i ys other g = (g.0, rw other g.1, g.2)

-- An update of other columns.
update-KeepsNames :
    (p : MintIntent → Bool) (f : MintIntent → MintIntent)
    → ((x : MintIntent) → (f x).id ≡ x.id)
    → ((x : MintIntent) → (f x).client_ref ≡ x.client_ref)
    → (rows : List MintIntent) → KeepsNames rows (update p f rows)
unfolding find update
update-KeepsNames p f ids refs [] r i e = cc
update-KeepsNames p f ids refs (x ∷ rows) r i e = elim (Bool-cases (refers r x)) [
  | inr other ↦
      tail-Finds r _ i (update p f rows) (named (Bool-cases (p x)) ∙ other)
        (update-KeepsNames p f ids refs rows r i (rw other at e))
  | inl own ↦
      head-Finds r x _ i (update p f rows) (named (Bool-cases (p x)) ∙ own) (rw own at e)
        (kept (Bool-cases (p x)))
]
  where
    named : (p x ≡ true) ⊎ (p x ≡ false) → refers r (if p x then f x else x) ≡ refers r x
    named (inl hit) = rw hit (ap (λ o. same_text o (some r)) (refs x))
    named (inr miss) = rw miss refl

    kept : (p x ≡ true) ⊎ (p x ≡ false) → (if p x then f x else x).id ≡ x.id
    kept (inl hit) = rw hit (ids x)
    kept (inr miss) = rw miss refl

Written-KeepsNames :
    {may : ℕ → Type 0} {rows after : List MintIntent}
    → Written may rows after
    → KeepsNames rows after
Written-KeepsNames (claimed {rows} now id tx_id m free) =
    update-KeepsNames (has_id id) (set_deposit_tx now tx_id) (λ x. refl) (λ x. refl) rows
Written-KeepsNames (rejected {rows} now id m) =
    update-KeepsNames (is_open id) (set_rejected now) (λ x. refl) (λ x. refl) rows
Written-KeepsNames (verified {rows} now id status limit observed m g allowed) =
    update-KeepsNames (is_open id) (set_verified now status limit observed) (λ x. refl) (λ x. refl)
      rows
Written-KeepsNames (charged {rows} id fee m) =
    update-KeepsNames (has_id id) (charge fee) (λ x. refl) (λ x. refl) rows
Written-KeepsNames (appended {rows} now settings id fee_id fee_ref fee takes) =
    λ r i e. (i, find-append (refers r) rows _ i e, refl)

Writes-KeepsNames :
    {may : ℕ → Type 0} {rows after : List MintIntent}
    → Writes may rows after
    → KeepsNames rows after
Writes-KeepsNames {rows = rows} here = KeepsNames-refl rows
Writes-KeepsNames {rows = rows} {after = after} (next {mid} w s) =
    KeepsNames-trans rows mid after (Writes-KeepsNames w) (Written-KeepsNames s)

credit_mint-KeepsNames :
    (now id amount : ℕ) (h : Text) (db : Db)
    → KeepsNames db.mint_intents (credit_mint now id amount h db).mint_intents
unfolding credit_mint credit_rows
credit_mint-KeepsNames now id amount h db =
    subst
      (λ rows. KeepsNames rows (
        update hashless (set_hash h) (
          update open_intent (set_credited now)
            (insert_event_once id mint_executed amount 0 (some h) db).mint_intents)))
      (insert_event_once-intents id mint_executed amount 0 (some h) db)
      (KeepsNames-trans _ _ _
        (update-KeepsNames open_intent (set_credited now) (λ x. refl) (λ x. refl) _)
        (update-KeepsNames hashless (set_hash h) (λ x. refl) (λ x. refl) _))
  where
    hashless : MintIntent → Bool
    hashless = λ i. i.id == id && not (is_some i.chain_tx_hash)

    open_intent : MintIntent → Bool
    open_intent = λ i. i.id == id && is_creditable i.status

approve_mint_intent-KeepsNames :
    (now id : ℕ) (by : Text) (db : Db)
    → KeepsNames db.mint_intents (approve_mint_intent now id by db).1.mint_intents
unfolding approve_mint_intent find_by_id approve_row
approve_mint_intent-KeepsNames now id by db =
    elim (Option-cases (find (has_id id) db.mint_intents)) [
      | inl gone ↦ rw gone (KeepsNames-refl db.mint_intents)
      | inr found ↦ elim (Bool-cases (is_approvable (found.0).status)) [
        | inr closed ↦ rw (found.1, closed) (KeepsNames-refl db.mint_intents)
        | inl ripe ↦ elim (Bool-cases (text_eq (found.0).created_by by)) [
          | inl own ↦ rw (found.1, ripe, own) (KeepsNames-refl db.mint_intents)
          | inr other ↦
              rw (found.1, ripe, other)
                (update-KeepsNames (has_id id) (set_approved now by) (λ x. refl) (λ x. refl)
                  db.mint_intents)
        ]
      ]
    ]

perform-KeepsNames :
    (o : Operation) (db : Db) → KeepsNames db.mint_intents (perform o db).mint_intents
unfolding perform
perform-KeepsNames (verify config chain answers now) db =
    Writes-KeepsNames (verify_once-Writes config chain answers now db)
perform-KeepsNames (approve now id by) db = approve_mint_intent-KeepsNames now id by db
perform-KeepsNames (credit now id amount tx_hash) db =
    credit_mint-KeepsNames now id amount tx_hash db

-- An intent that is found under a reference is found under it after any operations.
pub run-KeepsNames :
    (operations : List Operation) (db : Db) (r : Text) (i : MintIntent)
    → find_by_client_ref r db ≡ some i
    → (j : MintIntent) × (find_by_client_ref r (run operations db) ≡ some j) × (j.id ≡ i.id)
unfolding run find_by_client_ref
run-KeepsNames [] db r i e = (i, e, refl)
run-KeepsNames (o ∷ rest) db r i e =
    KeepsNames-trans db.mint_intents (perform o db).mint_intents
      (run rest (perform o db)).mint_intents (perform-KeepsNames o db)
      (λ s j. run-KeepsNames rest (perform o db) s j) r i e
