-- ===== src/Orchestrator/Life.antt =====
-- What may happen to the deposits of the orchestrator: crates/payment-orchestrator/src, whichever
-- worker writes them.
pub mod Unique
pub mod Writes
pub mod Polls
pub mod Watches
pub mod Bridges
pub mod Payments
pub mod Chunks
pub mod Chains
pub mod Ranges
pub mod Runs
pub mod Reported
pub mod Dust
pub mod Watermark
use clutch_treasury.Base.{
  ℕ, ◌<◌, suc, Bool, true, false, ◌≡◌, ◌⊎◌, inl, inr, refl, sym, ◌∙◌, ap, subst, Option, none, some,
  List, [], ◌∷◌, ◌++◌, if◌then◌else◌, Bool-cases, arith, Text, exists_row, update,
}
use clutch_treasury.Base.Int.{ℤ}
use clutch_treasury.Orchestrator.Store.{
  DepositStatus, created, invoiced, paying, confirmed, mint_requested, credited, expired, failed,
  needs_manual, DepositIntent,
}
use clutch_treasury.Orchestrator.Deposits.{has_tx, lacks_tx, set_tx, clashes}

-- How far a deposit is.
abbrev pub rank : DepositStatus → ℕ
rank created = 0
rank invoiced = 0
rank paying = 0
rank expired = 1
rank confirmed = 2
rank mint_requested = 3
rank needs_manual = 4
rank credited = 5
rank failed = 6

-- A status stays or goes on; none becomes `failed`, and nothing leaves `failed`.
abbrev pub Leads : DepositStatus → DepositStatus → Type 0
Leads s t = (t ≡ s) ⊎ ((rank s < rank t) × (rank t < 6))

-- What is kept of a column that is filled once.
abbrev pub Filled {ℓ} : {A : Type ℓ} → Option A → Option A → Type ℓ
Filled {A = A} a b = (x : A) → a ≡ some x → b ≡ some x

-- A row and the same row later.
pub record Grown (i j : DepositIntent) : Type 0 where
  pub status_leads : Leads i.status j.status
  pub tx_filled : Filled i.tron_tx_id j.tron_tx_id
  pub received_filled : Filled i.received_usdt j.received_usdt
  pub treasury_filled : Filled i.treasury_intent_id j.treasury_intent_id
  pub same_rest :
      (record j {
        status = i.status;
        tron_tx_id = i.tron_tx_id;
        transfer_at = i.transfer_at;
        received_usdt = i.received_usdt;
        treasury_intent_id = i.treasury_intent_id;
        attempts = i.attempts;
        next_attempt_at = i.next_attempt_at;
        payment_window_closed = i.payment_window_closed;
      })
      ≡ i

-- A new row is confirmed, for the amount that arrived in its transaction.
pub record IsNew (i : DepositIntent) : Type 0 where
  pub arrived : ℕ
  pub positive : 0 < arrived
  pub is_confirmed : i.status ≡ confirmed
  pub is_received : i.received_usdt ≡ some arrived
  pub same_clt : i.amount_clt ≡ arrived

-- What the workers do to the table, step by step.
pub data Change : List DepositIntent → List DepositIntent → Type 0 where
  unchanged : {is js : List DepositIntent} → js ≡ is → Change is js
  written :
      {is js : List DepositIntent} (p : DepositIntent → Bool) (f : DepositIntent → DepositIntent)
      → ((i : DepositIntent) → p i ≡ true → Grown i (f i) × ((f i).tron_tx_id ≡ i.tron_tx_id))
      → js ≡ update p f is
      → Change is js
  named :
      {is js : List DepositIntent} (id : ℕ) (tx_id : Text) (at : ℤ)
      → exists_row (has_tx tx_id) is ≡ false
      → js ≡ update (lacks_tx id) (set_tx tx_id at) is
      → Change is js
  added :
      {is js : List DepositIntent} (tx_id : Text) (new : DepositIntent)
      → new.tron_tx_id ≡ some tx_id
      → exists_row (has_tx tx_id) is ≡ false
      → exists_row (clashes new) is ≡ false
      → IsNew new
      → js ≡ is ++ new ∷ []
      → Change is js
  then_on : {is js ks : List DepositIntent} → Change is js → Change js ks → Change is ks

-- The rows of the table are still there, grown.
abbrev pub Extends : List DepositIntent → List DepositIntent → Type 0
Extends [] js = Unit
Extends (i ∷ is) [] = ⊥
Extends (i ∷ is) (j ∷ js) = Grown i j × Extends is js

Leads-trans : (s t u : DepositStatus) → Leads s t → Leads t u → Leads s u
Leads-trans s t u (inl h) (inl k) = inl (k ∙ h)
Leads-trans s t u (inl h) (inr k) = subst (λ x. Leads x u) h (inr k)
Leads-trans s t u (inr h) (inl k) = subst (λ x. Leads s x) (sym k) (inr h)
Leads-trans s t u (inr h) (inr k) = inr (omega arith, k.1)

pub Grown-refl : (i : DepositIntent) → Grown i i
Grown-refl i = record {
  status_leads = inl refl;
  tx_filled = λ x e. e;
  received_filled = λ x e. e;
  treasury_filled = λ x e. e;
  same_rest = refl;
}

pub Grown-trans : {i j k : DepositIntent} → Grown i j → Grown j k → Grown i k
Grown-trans {i} {j} {k} g h = record {
  status_leads = Leads-trans i.status j.status k.status g.status_leads h.status_leads;
  tx_filled = λ x e. h.tx_filled x (g.tx_filled x e);
  received_filled = λ x e. h.received_filled x (g.received_filled x e);
  treasury_filled = λ x e. h.treasury_filled x (g.treasury_filled x e);
  same_rest =
      ap
        (λ (x : DepositIntent). record x {
          status = i.status;
          tron_tx_id = i.tron_tx_id;
          transfer_at = i.transfer_at;
          received_usdt = i.received_usdt;
          treasury_intent_id = i.treasury_intent_id;
          attempts = i.attempts;
          next_attempt_at = i.next_attempt_at;
          payment_window_closed = i.payment_window_closed;
        })
        h.same_rest
      ∙ g.same_rest;
}

Extends-refl : (is : List DepositIntent) → Extends is is
Extends-refl [] = tt
Extends-refl (i ∷ is) = (Grown-refl i, Extends-refl is)

Extends-trans : (is js ks : List DepositIntent) → Extends is js → Extends js ks → Extends is ks
Extends-trans [] js ks h k = tt
Extends-trans (i ∷ is) [] ks h k = absurd h
Extends-trans (i ∷ is) (j ∷ js) [] h k = absurd k
Extends-trans (i ∷ is) (j ∷ js) (l ∷ ks) h k = (Grown-trans h.0 k.0, Extends-trans is js ks h.1 k.1)

Extends-append : (is js : List DepositIntent) → Extends is (is ++ js)
Extends-append [] js = tt
Extends-append (i ∷ is) js = (Grown-refl i, Extends-append is js)

Extends-update :
    (p : DepositIntent → Bool) (f : DepositIntent → DepositIntent)
    → ((i : DepositIntent) → p i ≡ true → Grown i (f i))
    → (is : List DepositIntent) → Extends is (update p f is)
unfolding update
Extends-update p f each [] = tt
Extends-update p f each (i ∷ is) = (
  elim (Bool-cases (p i)) [ inl hit ↦ rw hit (each i hit) | inr miss ↦ rw miss (Grown-refl i) ],
  Extends-update p f each is,
)

set_tx-Grown :
    (id : ℕ) (tx_id : Text) (at : ℤ) (i : DepositIntent)
    → lacks_tx id i ≡ true
    → Grown i (set_tx tx_id at i)
set_tx-Grown id tx_id at i e = record {
  status_leads = inl refl;
  tx_filled = λ x q. ground arith;
  received_filled = λ x q. q;
  treasury_filled = λ x q. q;
  same_rest = refl;
}

pub Change-Extends : (is js : List DepositIntent) → Change is js → Extends is js
Change-Extends is js (unchanged e) = rw e (Extends-refl is)
Change-Extends is js (written p f each e) = rw e (Extends-update p f (λ i h. (each i h).0) is)
Change-Extends is js (named id tx_id at free e) =
    rw e (Extends-update (lacks_tx id) (set_tx tx_id at) (set_tx-Grown id tx_id at) is)
Change-Extends is js (added tx_id new named_so free apart is_new e) = rw e (Extends-append is _)
Change-Extends is ks (then_on {js = js} h k) =
    Extends-trans is js ks (Change-Extends is js h) (Change-Extends js ks k)
