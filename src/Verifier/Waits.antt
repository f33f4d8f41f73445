-- ===== src/Verifier/Waits.antt =====
-- What a pass leaves as it is (tron_verifier.rs, `verify_once`).
use clutch_treasury.Base.{
  find-update_other, ℕ, ◌≡◌, inl, inr, ◌∙◌, subst, Bool, false, ◌==◌, ==_iff, Option, some, List,
  [], ◌∷◌, ◌++◌, arith, Bool-cases, find,
}
use clutch_treasury.Store.{MintIntent, Db}
use clutch_treasury.Intents.{has_id, find_by_id}
use clutch_treasury.Verifier.Approve.{set_verified, set_rejected, set_deposit_tx, is_open}
use clutch_treasury.Verifier.Steps.{
  Written, claimed, rejected, verified, charged, appended, Writes, here, next,
}
use clutch_treasury.Verifier.Passes.{Decisive, verify_once-Writes}
use clutch_treasury.Verifier.{VerifierConfig, Answers, verify_once, due_intents, bsc_witness}

pub find-append :
    {A : Type 0} (q : A → Bool) (xs ys : List A) (a : A)
    → find q xs ≡ some a
    → find q (xs ++ ys) ≡ some a
unfolding find
find-append q [] ys a e = cc
find-append q (x ∷ xs) ys a e = elim (Bool-cases (q x)) [
  | inl hit ↦ rw hit (rw hit at e)
  | inr miss ↦ rw miss (find-append q xs ys a (rw miss at e))
]

module _ (may : ℕ → Type 0) (k : ℕ) (apart : ¬ may k) where
  distinct : (id : ℕ) → may id → (id == k) ≡ false
  distinct id m = elim (Bool-cases (id == k)) [
    | inl same ↦ absurd (apart (subst may ((==_iff id k).0 same) m))
    | inr other ↦ other
  ]

  Written-spares :
      {rows after : List MintIntent} (i : MintIntent)
      → Written may rows after
      → find (has_id k) rows ≡ some i
      → find (has_id k) after ≡ some i
  Written-spares i (claimed {rows} now id tx_id m free) e =
      find-update_other (has_id k) (has_id id) (set_deposit_tx now tx_id)
        (λ x hit. ground (arith, hit, distinct id m)) (λ x hit. ground (arith, hit, distinct id m))
        rows
      ∙ e
  Written-spares i (rejected {rows} now id m) e =
      find-update_other (has_id k) (is_open id) (set_rejected now)
        (λ x hit. ground (arith, hit, distinct id m)) (λ x hit. ground (arith, hit, distinct id m))
        rows
      ∙ e
  Written-spares i (verified {rows} now id status limit observed m g allowed) e =
      find-update_other (has_id k) (is_open id) (set_verified now status limit observed)
        (λ x hit. ground (arith, hit, distinct id m)) (λ x hit. ground (arith, hit, distinct id m))
        rows
      ∙ e
  Written-spares i (charged {rows} id fee m) e =
      find-update_other (has_id k) (has_id id) _ (λ x hit. ground (arith, hit, distinct id m))
        (λ x hit. ground (arith, hit, distinct id m)) rows
      ∙ e
  Written-spares i (appended {rows} now settings id fee_id fee_ref fee takes) e =
      find-append (has_id k) rows _ i e

  Writes-spares :
      {rows after : List MintIntent} (i : MintIntent)
      → Writes may rows after
      → find (has_id k) rows ≡ some i
      → find (has_id k) after ≡ some i
  Writes-spares i here e = e
  Writes-spares i (next w s) e = Written-spares i s (Writes-spares i w e)

-- An intent stays in every column as it was through a pass in which no evidence for it is
-- conclusive, whatever is decided of the other intents: an outage of a node never rejects it.
pub verify_once-spares :
    (config : VerifierConfig) (chain : Option ℕ) (answers : ℕ → Answers) (now : ℕ) (db : Db)
    (id : ℕ) (i : MintIntent)
    → ¬ Decisive config (bsc_witness config.bsc_settings chain (due_intents db)) answers db id
    → find_by_id id db ≡ some i
    → find_by_id id (verify_once config chain answers now db).1 ≡ some i
unfolding find_by_id
verify_once-spares config chain answers now db id i apart e =
    Writes-spares _ id apart i (verify_once-Writes config chain answers now db) e
