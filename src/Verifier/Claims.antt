-- ===== src/Verifier/Claims.antt =====
-- One transfer backs one mint (tron_verifier.rs, `backfill_deposit_tx_id` and `verify_once`).
use clutch_treasury.Base.{
  ℕ, ◌≡◌, ◌⊎◌, inl, inr, refl, sym, ap, ◌∙◌, subst, Bool, true, false, ◌&&◌, not, ◌==◌, Option,
  none, some, List, [], ◌∷◌, ◌++◌, arith, Bool-cases, if◌then◌else◌, exists_row, exists_row-update,
  update, AtMostOne, AtMostOne-update, AtMostOne-snoc, Text, text_eq, text_eq_iff,
}
use clutch_treasury.Store.{MintIntent, Db}
use clutch_treasury.Intents.{has_id, same_text, accepts, clashes}
use clutch_treasury.ServiceFee.{fee_intent, charge}
use clutch_treasury.Verifier.Approve.{
  set_verified, set_rejected, set_deposit_tx, is_open, claimed_by_other,
}
use clutch_treasury.Verifier.Steps.{
  Written, claimed, rejected, verified, charged, appended, Writes, here, next,
}
use clutch_treasury.Verifier.Passes.{verify_once-Writes}
use clutch_treasury.Verifier.{VerifierConfig, Answers, verify_once}

-- The intent is backed by the transfer.
abbrev pub backed_by : Text → MintIntent → Bool
backed_by tx_id i = same_text i.deposit_tx_id (some tx_id)

-- One intent to an id, and at most one intent to a transfer.
pub record IsUnique (rows : List MintIntent) : Type 0 where
  pub one_id : (id : ℕ) → AtMostOne (has_id id) rows
  pub one_claim : (tx_id : Text) → AtMostOne (backed_by tx_id) rows

exists_row-weaken :
    {A : Type 0} (p q : A → Bool)
    → ((x : A) → q x ≡ true → p x ≡ true)
    → (xs : List A) → exists_row p xs ≡ false
    → exists_row q xs ≡ false
unfolding exists_row
exists_row-weaken p q h [] e = refl
exists_row-weaken p q h (x ∷ xs) e = elim (Bool-cases (q x)) [
  | inl hit ↦ ground (arith, h x hit, e)
  | inr miss ↦ rw miss (exists_row-weaken p q h xs (ground (arith, e)))
]

absent_too :
    {A : Type 0} (p q : A → Bool) (xs : List A)
    → exists_row p xs ≡ false
    → exists_row (λ x. not (p x) && q x) xs ≡ false
    → exists_row q xs ≡ false
unfolding exists_row
absent_too p q [] a b = refl
absent_too p q (x ∷ xs) a b = ground (arith, a, b, absent_too p q xs)

-- Where every row that satisfies `q` satisfies `p`, and `p` at most one.
pub AtMostOne-weaken :
    {A : Type 0} (p q : A → Bool) (xs : List A)
    → exists_row (λ x. not (p x) && q x) xs ≡ false
    → AtMostOne p xs
    → AtMostOne q xs
unfolding exists_row
AtMostOne-weaken p q [] e h = tt
AtMostOne-weaken p q (x ∷ xs) e h = (
  λ hit. absent_too p q xs (h.0 (ground (arith, e, hit))) (ground (arith, e)),
  AtMostOne-weaken p q xs (ground (arith, e)) h.1,
)

-- An update after which no row satisfies `q` that did not before.
pub exists_row-shrink :
    {A : Type 0} (p q : A → Bool) (f : A → A)
    → ((x : A) → q x ≡ false → q (if p x then f x else x) ≡ false)
    → (xs : List A) → exists_row q xs ≡ false
    → exists_row q (update p f xs) ≡ false
unfolding exists_row update
exists_row-shrink p q f h [] e = refl
exists_row-shrink p q f h (x ∷ xs) e = ground (arith, e, h x, exists_row-shrink p q f h xs)

AtMostOne-shrink :
    {A : Type 0} (p q : A → Bool) (f : A → A)
    → ((x : A) → q x ≡ false → q (if p x then f x else x) ≡ false)
    → (xs : List A) → AtMostOne q xs
    → AtMostOne q (update p f xs)
unfolding update
AtMostOne-shrink p q f h [] o = tt
AtMostOne-shrink p q f h (x ∷ xs) o = (
  λ hit. exists_row-shrink p q f h xs (o.0 (was hit (Bool-cases (q x)))),
  AtMostOne-shrink p q f h xs o.1,
)
  where
    was : q (if p x then f x else x) ≡ true → (q x ≡ true) ⊎ (q x ≡ false) → q x ≡ true
    was hit (inl yes_q) = yes_q
    was hit (inr no_q) = let clash : true ≡ false = sym hit ∙ h x no_q in cc

-- The claim of a transfer that no other intent has claimed.
claimed-one :
    (now id : ℕ) (tx_id other : Text) (rows : List MintIntent)
    → exists_row (claimed_by_other id tx_id) rows ≡ false
    → IsUnique rows
    → AtMostOne (backed_by other) (update (has_id id) (set_deposit_tx now tx_id) rows)
claimed-one now id tx_id other rows free h = elim (Bool-cases (text_eq tx_id other)) [
  | inl same ↦
      subst (λ t. AtMostOne (backed_by t) (update (has_id id) (set_deposit_tx now tx_id) rows))
        ((text_eq_iff tx_id other).0 same)
        (AtMostOne-weaken (has_id id) (backed_by tx_id) _
          (exists_row-update (has_id id) (claimed_by_other id tx_id) (set_deposit_tx now tx_id)
              (λ x. ground arith) rows
            ∙ free)
          (AtMostOne-update (has_id id) (has_id id) (set_deposit_tx now tx_id) (λ x. ground arith)
            rows (h.one_id id)))
  | inr differs ↦
      AtMostOne-shrink (has_id id) (backed_by other) (set_deposit_tx now tx_id)
        (λ x no. ground (arith, no, differs)) rows (h.one_claim other)
]

-- An update that keeps the id and the transfer of every row.
IsUnique-update :
    (p : MintIntent → Bool) (f : MintIntent → MintIntent) (rows : List MintIntent)
    → ((x : MintIntent) → (f x).id ≡ x.id)
    → ((x : MintIntent) → (f x).deposit_tx_id ≡ x.deposit_tx_id)
    → IsUnique rows
    → IsUnique (update p f rows)
IsUnique-update p f rows ids txs h = record {
  one_id = λ id.
      AtMostOne-update p (has_id id) f (λ x. kept_id id x (Bool-cases (p x))) rows (h.one_id id);
  one_claim = λ t.
      AtMostOne-update p (backed_by t) f (λ x. kept_tx t x (Bool-cases (p x))) rows (h.one_claim t);
}
  where
    kept_id :
        (id : ℕ) (x : MintIntent)
        → (p x ≡ true) ⊎ (p x ≡ false)
        → has_id id (if p x then f x else x) ≡ has_id id x
    kept_id id x (inl hit) = rw hit (ap (λ k. k == id) (ids x))
    kept_id id x (inr miss) = rw miss refl

    kept_tx :
        (t : Text) (x : MintIntent)
        → (p x ≡ true) ⊎ (p x ≡ false)
        → backed_by t (if p x then f x else x) ≡ backed_by t x
    kept_tx t x (inl hit) = rw hit (ap (λ o. same_text o (some t)) (txs x))
    kept_tx t x (inr miss) = rw miss refl

-- A row that the constraints accept, and that names no transfer.
IsUnique-snoc :
    (row : MintIntent) (rows : List MintIntent)
    → row.deposit_tx_id ≡ none
    → accepts row rows ≡ true
    → IsUnique rows
    → IsUnique (rows ++ row ∷ [])
IsUnique-snoc row rows unbacked takes h = record {
  one_id = λ id. AtMostOne-snoc (has_id id) rows row (h.one_id id) (λ own.
      exists_row-weaken (clashes row) (has_id id) (λ x hit. ground (arith, own, hit)) rows free);
  one_claim = λ t.
      AtMostOne-snoc (backed_by t) rows row (h.one_claim t)
        (λ own. let clash : false ≡ true = rw unbacked at own in cc);
}
  where
    free : exists_row (clashes row) rows ≡ false
    free = ground (arith, takes)

Written-IsUnique :
    {may : ℕ → Type 0} {rows after : List MintIntent}
    → Written may rows after
    → IsUnique rows
    → IsUnique after
Written-IsUnique (claimed {rows} now id tx_id m free) h = record {
  one_id = λ k.
      AtMostOne-update (has_id id) (has_id k) (set_deposit_tx now tx_id) (λ x. ground arith) rows
        (h.one_id k);
  one_claim = λ t. claimed-one now id tx_id t rows free h;
}
Written-IsUnique (rejected {rows} now id m) h =
    IsUnique-update (is_open id) (set_rejected now) rows (λ x. refl) (λ x. refl) h
Written-IsUnique (verified {rows} now id status limit observed m g allowed) h =
    IsUnique-update (is_open id) (set_verified now status limit observed) rows (λ x. refl)
      (λ x. refl) h
Written-IsUnique (charged {rows} id fee m) h =
    IsUnique-update (has_id id) (charge fee) rows (λ x. refl) (λ x. refl) h
Written-IsUnique (appended {rows} now settings id fee_id fee_ref fee takes) h =
    IsUnique-snoc (fee_intent now settings id fee_id fee_ref fee) rows refl takes h

Writes-IsUnique :
    {may : ℕ → Type 0} {rows after : List MintIntent}
    → Writes may rows after
    → IsUnique rows
    → IsUnique after
Writes-IsUnique here h = h
Writes-IsUnique (next w s) h = Written-IsUnique s (Writes-IsUnique w h)

-- A pass keeps the table so: one intent to an id, and at most one intent to a transfer, whatever the
-- nodes, the signer and the database answer. So one transfer never backs two mints.
pub verify_once-IsUnique :
    (config : VerifierConfig) (chain : Option ℕ) (answers : ℕ → Answers) (now : ℕ) (db : Db)
    → IsUnique db.mint_intents
    → IsUnique (verify_once config chain answers now db).1.mint_intents
verify_once-IsUnique config chain answers now db =
    Writes-IsUnique (verify_once-Writes config chain answers now db)
