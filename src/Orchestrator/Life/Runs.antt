-- ===== src/Orchestrator/Life/Runs.antt =====
-- The workers of crates/payment-orchestrator/src, in any order and any number of passes, and what the
-- treasury gets of a deposit.
use clutch_treasury.Base.{
  ℕ, ◌≡◌, inl, inr, refl, sym, ◌∙◌, ap, subst, ◌==◌, Option, some, List, [], ◌∷◌, Bool-cases, Text,
  find,
}
use clutch_treasury.Base.Int.{ℤ}
use clutch_treasury.Store.{MintIntent, Db}
use clutch_treasury.Api.{
  initiator, ApiConfig, CreateMintIntentBody, created, existing, Fresh, create_mint_intent,
}
use clutch_treasury.Api.Create.{create_mint_intent-found, create_mint_intent-existing}
use clutch_treasury.Lifecycle.Runs.{Operation, run}
use clutch_treasury.Lifecycle.Named.{run-KeepsNames}
use clutch_treasury.Orchestrator.Store.{DepositIntent, OrchDb}
use clutch_treasury.Orchestrator.Deposits.{has_id, find_by_id}
use clutch_treasury.Orchestrator.Custody.{CustodyWatcher}
use clutch_treasury.Orchestrator.Poller.{poll_once}
use clutch_treasury.Orchestrator.Direct.{credit_direct}
use clutch_treasury.Orchestrator.Bridge.{Treasury, run_once, mint_request}
use clutch_treasury.Orchestrator.BscWatch.{Pass, watch_once}
use clutch_treasury.Orchestrator.Life.{Grown, then_on, Extends, Change-Extends}
use clutch_treasury.Orchestrator.Life.Unique.{IsUnique, Change-IsUnique, Grown-id}
use clutch_treasury.Orchestrator.Life.Writes.{Changes, Changes-refl}
use clutch_treasury.Orchestrator.Life.Polls.{poll_once-Changes}
use clutch_treasury.Orchestrator.Life.Watches.{credit_direct-Changes}
use clutch_treasury.Orchestrator.Life.Bridges.{run_once-Changes}
use clutch_treasury.Orchestrator.Life.Ranges.{watch_once-Changes}

-- One pass of a worker, with all that it meets.
pub data Work : Type 0 where
  polls : ℕ → (Text → ℕ) → (ℤ → Option ℤ) → Text → CustodyWatcher → CustodyWatcher → Work
  directs : ℕ → (Text → ℕ) → (ℤ → Option ℤ) → CustodyWatcher → Text → Text → Work
  watches : Pass → (List Text → List Text) → Work
  bridges : ℕ → (ℕ → ℕ) → (ℕ → Text) → Treasury → Work

abbrev pub after : Work → OrchDb → OrchDb
after (polls now fresh time_of usdt_contract chain legacy) db =
    poll_once now fresh time_of usdt_contract chain legacy db
after (directs now fresh time_of watcher pay_to usdt_contract) db =
    credit_direct now fresh time_of watcher pay_to usdt_contract db
after (watches pass key_order) db = (watch_once pass key_order db).1
after (bridges now draw text_of treasury) db = run_once now draw text_of treasury db

abbrev pub after_all : List Work → OrchDb → OrchDb
after_all [] db = db
after_all (w ∷ works) db = after_all works (after w db)

after-Changes : (w : Work) (db : OrchDb) → Changes db (after w db)
after-Changes (polls now fresh time_of usdt_contract chain legacy) db =
    poll_once-Changes now fresh time_of usdt_contract chain legacy db
after-Changes (directs now fresh time_of watcher pay_to usdt_contract) db =
    credit_direct-Changes now fresh time_of watcher pay_to usdt_contract db
after-Changes (watches pass key_order) db = watch_once-Changes pass key_order db
after-Changes (bridges now draw text_of treasury) db = run_once-Changes now draw text_of treasury db

after_all-Changes : (works : List Work) (db : OrchDb) → Changes db (after_all works db)
after_all-Changes [] db = Changes-refl db
after_all-Changes (w ∷ works) db =
    then_on (after-Changes w db) (after_all-Changes works (after w db))

-- Whatever passes of the poller, of the two sender watches and of the bridge run, in any order and
-- with any answers, there stays one deposit to a transaction and one to an id.
pub after_all-IsUnique :
    (works : List Work) (db : OrchDb)
    → IsUnique db.deposit_intents
    → IsUnique (after_all works db).deposit_intents
after_all-IsUnique works db h =
    Change-IsUnique db.deposit_intents (after_all works db).deposit_intents
      (after_all-Changes works db) h

Extends-find :
    (id : ℕ) (is js : List DepositIntent)
    → Extends is js
    → (i : DepositIntent) → find (has_id id) is ≡ some i
    → (j : DepositIntent) × (find (has_id id) js ≡ some j) × Grown i j
unfolding find
Extends-find id [] js h i e = cc
Extends-find id (a ∷ is) [] h i e = absurd h
Extends-find id (a ∷ is) (b ∷ js) h i e =
    let same : has_id id b ≡ has_id id a = ap (λ n. n == id) (Grown-id a b h.0) in
    elim (Bool-cases (has_id id a)) [
      | inl hit ↦
          let own : some a ≡ some i = rw hit at e in
          let is_a : a ≡ i = cc in rw (same, hit) ((b, refl, subst (λ x. Grown x b) is_a h.0))
      | inr miss ↦ rw (same, miss) (Extends-find id is js h.1 i (rw miss at e))
    ]

-- Whatever passes run, a deposit is still found by its id, and it has only grown: its status
-- stayed or went on, its transaction, its received amount and its intent at the treasury stayed
-- once they were there, and its owner, addresses and amounts are as they were.
pub after_all-Grown :
    (works : List Work) (id : ℕ) (db : OrchDb) (i : DepositIntent)
    → find_by_id id db ≡ some i
    → (j : DepositIntent) × (find_by_id id (after_all works db) ≡ some j) × Grown i j
unfolding find_by_id
after_all-Grown works id db i e =
    Extends-find id db.deposit_intents (after_all works db).deposit_intents
      (Change-Extends db.deposit_intents (after_all works db).deposit_intents
        (after_all-Changes works db))
      i e

-- The columns of a request that `Grown` keeps as a whole.
mint_request-Grown :
    (text_of : ℕ → Text) (i j : DepositIntent) (arrived : ℕ) (tx_id : Text)
    → Grown i j
    → i.received_usdt ≡ some arrived
    → i.tron_tx_id ≡ some tx_id
    → mint_request text_of j ≡ mint_request text_of i
mint_request-Grown text_of i j arrived tx_id g e q =
    let received : j.received_usdt ≡ i.received_usdt = g.received_filled arrived e ∙ sym e in
    let tx : j.tron_tx_id ≡ i.tron_tx_id = g.tx_filled tx_id q ∙ sym q in
    let filled : mint_request text_of j
        ≡ mint_request text_of
            (record j { received_usdt = i.received_usdt; tron_tx_id = i.tron_tx_id }) =
      simp (received, tx) refl in
    filled ∙ ap (mint_request text_of) g.same_rest

-- However often the bridge asks the treasury for a deposit whose transaction and amount are known,
-- whatever passes of the orchestrator run in between, and whatever passes of the verifier, approvals
-- and credits at the treasury, at any later time and under any settings: once the request has
-- created a mint intent, it is the same request, answered with that intent, and changes nothing.
pub retry-creates_once :
    (works : List Work) (operations : List Operation) (text_of : ℕ → Text) (id arrived : ℕ)
    (tx_id : Text) (db : OrchDb) (i : DepositIntent) (config config' : ApiConfig)
    (address_of address_of' : Text → Option Text) (now later : ℕ) (fresh fresh' : Fresh)
    (treasury treasury' : Db) (m : MintIntent)
    → find_by_id id db ≡ some i
    → i.received_usdt ≡ some arrived
    → i.tron_tx_id ≡ some tx_id
    → create_mint_intent config address_of now fresh
        (some initiator)
        (mint_request text_of i)
        treasury
      ≡ (created m, treasury')
    → (j : DepositIntent) × (n : MintIntent) × (find_by_id id (after_all works db) ≡ some j)
      × (mint_request text_of j ≡ mint_request text_of i)
      × (n.id ≡ m.id)
      × (create_mint_intent config' address_of' later fresh'
            (some initiator)
            (mint_request text_of j)
            (run operations treasury')
          ≡ (existing n, run operations treasury'))
retry-creates_once works operations text_of id arrived tx_id db i config config' address_of
      address_of' now later fresh fresh' treasury treasury' m e received named_so done =
    let (j, found, grown) = after_all-Grown works id db i e in
    let same = mint_request-Grown text_of i j arrived tx_id grown received named_so in
    let kept = run-KeepsNames operations treasury' (text_of i.id) m (
      create_mint_intent-found config address_of now fresh (mint_request text_of i) (text_of i.id)
        treasury treasury' m refl done) in
    (
      j,
      kept.0,
      found,
      same,
      kept.2,
      create_mint_intent-existing config' address_of' later fresh' (mint_request text_of j)
          (text_of i.id) (run operations treasury') kept.0
          (ap (λ (b : CreateMintIntentBody). b.client_ref) same) kept.1,
    )
