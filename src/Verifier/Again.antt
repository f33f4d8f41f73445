-- ===== src/Verifier/Again.antt =====
-- A deposit is recorded once (tron_verifier.rs, `approve_and_ledger`).
use clutch_treasury.Base.{
  ℕ, ◌≡◌, ◌⊎◌, inl, inr, refl, ap, ◌∙◌, Bool, true, false, Option, none, some, List, [], ◌∷◌, arith,
  Bool-cases, if◌then◌else◌, exists_row, exists_row-append, update, Text,
}
use clutch_treasury.Base.Int.{ℤ, pos_part}
use clutch_treasury.Store.{MintIntent, MintStatus, Db, custody_deposit}
use clutch_treasury.Intents.{has_id}
use clutch_treasury.ServiceFee.{Settings, charge, fee_intent}
use clutch_treasury.Verifier.Judge.{Faults}
use clutch_treasury.Verifier.Approve.{
  approve_and_ledger, is_open, set_verified, set_rejected, set_deposit_tx,
}
use clutch_treasury.Verifier.Books.{Committed, committed}
use clutch_treasury.Verifier.Claims.{exists_row-shrink}
use clutch_treasury.Verifier.Steps.{
  Given, to_mint, to_review, Written, claimed, rejected, verified, charged, appended, Writes, here,
  next, enqueue_mint-Writes, insert_event_once-intents,
}

-- An update that leaves no created row created that was not.
closed-update :
    (id : ℕ) (p : MintIntent → Bool) (f : MintIntent → MintIntent) (rows : List MintIntent)
    → ((x : MintIntent) → is_open id x ≡ false → is_open id (f x) ≡ false)
    → exists_row (is_open id) rows ≡ false
    → exists_row (is_open id) (update p f rows) ≡ false
closed-update id p f rows h =
    exists_row-shrink p (is_open id) f (λ x e. keep x e (Bool-cases (p x))) rows
  where
    keep :
        (x : MintIntent)
        → is_open id x ≡ false
        → (p x ≡ true) ⊎ (p x ≡ false)
        → is_open id (if p x then f x else x) ≡ false
    keep x e (inl hit) = rw hit (h x e)
    keep x e (inr miss) = rw miss e

-- No step opens an intent again.
Written-closed :
    {may : ℕ → Type 0} {rows after : List MintIntent} (id : ℕ)
    → Written may rows after
    → exists_row (is_open id) rows ≡ false
    → exists_row (is_open id) after ≡ false
unfolding exists_row
Written-closed id (claimed {rows} now k tx_id m free) =
    closed-update id (has_id k) (set_deposit_tx now tx_id) rows (λ x e. e)
Written-closed id (rejected {rows} now k m) =
    closed-update id (is_open k) (set_rejected now) rows (λ x e. ground arith)
Written-closed id (verified {rows} now k status limit observed m to_mint allowed) =
    closed-update id (is_open k) (set_verified now MintStatus.approved limit observed) rows
      (λ x e. ground arith)
Written-closed id (verified {rows} now k status limit observed m to_review allowed) =
    closed-update id (is_open k) (set_verified now MintStatus.needs_manual limit observed) rows
      (λ x e. ground arith)
Written-closed id (charged {rows} k fee m) =
    closed-update id (has_id k) (charge fee) rows (λ x e. e)
Written-closed id (appended {rows} now settings k fee_id fee_ref fee takes) = λ e. ground (
  arith,
  e,
  exists_row-append (is_open id) rows (fee_intent now settings k fee_id fee_ref fee ∷ []),
)

Writes-closed :
    {may : ℕ → Type 0} {rows after : List MintIntent} (id : ℕ)
    → Writes may rows after
    → exists_row (is_open id) rows ≡ false
    → exists_row (is_open id) after ≡ false
Writes-closed id here e = e
Writes-closed id (next w s) e = Written-closed id s (Writes-closed id w e)

verified-closed :
    (now id : ℕ) (status : MintStatus) (limit : Option ℤ) (observed : ℤ) (rows : List MintIntent)
    → Given status
    → exists_row (is_open id) (update (is_open id) (set_verified now status limit observed) rows)
      ≡ false
unfolding exists_row update
verified-closed now id status limit observed [] g = refl
verified-closed now id status limit observed (x ∷ rows) to_mint =
    ground (arith, verified-closed now id MintStatus.approved limit observed rows to_mint)
verified-closed now id status limit observed (x ∷ rows) to_review =
    ground (arith, verified-closed now id MintStatus.needs_manual limit observed rows to_review)

-- Once a deposit is recorded, as an approval or as a hold, recording one for the same intent again,
-- with any verdict, amount, transaction and fee and at any time, writes nothing and reports that
-- nothing was done; only a failing database is reported as that.
pub approve_and_ledger_twice :
    (faults faults' : Faults) (now later id : ℕ) (observed observed' : ℤ) (tx_id tx_id' : Text)
    (status status' : MintStatus) (limit limit' : Option ℤ) (fee fee' : Option Settings)
    (fee_id fee_id' : ℕ) (fee_ref fee_ref' : Text) (db db' : Db)
    → Given status
    → approve_and_ledger faults now id observed tx_id status limit fee fee_id fee_ref db
      ≡ some (true, db')
    → approve_and_ledger faults' later id observed' tx_id' status' limit' fee' fee_id' fee_ref' db'
      ≡ (if faults'.approval then none else some (false, db'))
unfolding approve_and_ledger
approve_and_ledger_twice faults faults' now later id observed observed' tx_id tx_id' status status'
      limit limit' fee fee' fee_id fee_id' fee_ref fee_ref' db db' g e =
    rw closed refl
  where
    c : Committed faults now id observed tx_id status limit fee fee_id fee_ref db db'
    c = committed faults now id observed tx_id status limit fee fee_id fee_ref db db' e

    closed : exists_row (is_open id) db'.mint_intents ≡ false
    closed =
        ap (λ (d : Db). exists_row (is_open id) d.mint_intents) c.written
        ∙ ap (exists_row (is_open id)) (
            insert_event_once-intents id custody_deposit 0 (pos_part observed) (some tx_id)
              c.queued)
        ∙ Writes-closed id
            (enqueue_mint-Writes {may = λ _. Unit} now status fee id fee_id fee_ref _ c.queued tt
              c.enqueued)
            (verified-closed now id status limit observed db.mint_intents g)
