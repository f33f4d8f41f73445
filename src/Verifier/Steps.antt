-- ===== src/Verifier/Steps.antt =====
-- The writes of a pass to the table of mint intents, as a step relation (tron_verifier.rs,
-- `verify_once`).
use clutch_treasury.Base.{
  ℕ, ◌≡◌, inl, inr, refl, sym, ap, ◌∙◌, subst, Bool, true, false, ◌&&◌, ◌||◌, not, Option, none,
  some, List, [], ◌∷◌, ◌++◌, arith, Bool-cases, exists_row, find, find_holds, update, Text,
}
use clutch_treasury.Base.Int.{ℤ, pos, pos_part, leb_ℤ}
use clutch_treasury.Store.{MintIntent, MintStatus, Db, EventKind, Reason, custody_deposit}
use clutch_treasury.Ledger.{insert_event_once}
use clutch_treasury.Intents.{has_id, accepts, find_by_id, for_intent}
use clutch_treasury.ServiceFee.{
  Settings, split_off, split_found, take_fee, fee_of, fee_intent, charge,
}
use clutch_treasury.ServiceFee.Split.{split_found-cases}
use clutch_treasury.Verifier.Judge.{Faults}
use clutch_treasury.Verifier.Approve.{
  approve_and_ledger, enqueue_mint, is_open, violates, set_verified, set_rejected, set_deposit_tx,
  claimed_by_other, is_approved, charge_fee, after_split, insert_outbox, reject_and_alert,
}
use clutch_treasury.Verifier.Books.{committed, idle}

-- The status that the verifier gives an intent.
pub data Given : MintStatus → Type 0 where
  to_mint : Given MintStatus.approved
  to_review : Given MintStatus.needs_manual

-- One statement, on an intent that it may touch; the fee's intent is appended.
pub data Written (may : ℕ → Type 0) : List MintIntent → List MintIntent → Type 0 where
  claimed :
      {rows : List MintIntent} (now id : ℕ) (tx_id : Text)
      → may id
      → exists_row (claimed_by_other id tx_id) rows ≡ false
      → Written may rows (update (has_id id) (set_deposit_tx now tx_id) rows)
  rejected :
      {rows : List MintIntent} (now id : ℕ)
      → may id
      → Written may rows (update (is_open id) (set_rejected now) rows)
  verified :
      {rows : List MintIntent} (now id : ℕ) (status : MintStatus) (limit : Option ℤ) (observed : ℤ)
      → may id
      → Given status
      → exists_row (λ i. is_open id i && violates limit observed i) rows ≡ false
      → Written may rows (update (is_open id) (set_verified now status limit observed) rows)
  charged :
      {rows : List MintIntent} (id : ℕ) (fee : ℤ)
      → may id
      → Written may rows (update (has_id id) (charge fee) rows)
  appended :
      {rows : List MintIntent} (now : ℕ) (settings : Settings) (id fee_id : ℕ) (fee_ref : Text)
      (fee : ℕ)
      → accepts (fee_intent now settings id fee_id fee_ref fee) rows ≡ true
      → Written may rows (rows ++ fee_intent now settings id fee_id fee_ref fee ∷ [])

-- Any number of statements.
pub data Writes (may : ℕ → Type 0) (rows : List MintIntent) : List MintIntent → Type 0 where
  here : Writes may rows rows
  next :
      {mid after : List MintIntent}
      → Writes may rows mid
      → Written may mid after
      → Writes may rows after

-- From the intents of one database to those of another.
abbrev pub Between : (ℕ → Type 0) → Db → Db → Type 0
Between may db db' = Writes may db.mint_intents db'.mint_intents

pub Writes-trans :
    {may : ℕ → Type 0} {a b c : List MintIntent} → Writes may a b → Writes may b c → Writes may a c
Writes-trans h here = h
Writes-trans h (next k s) = next (Writes-trans h k) s

pub Writes-same : {may : ℕ → Type 0} {a b : List MintIntent} → b ≡ a → Writes may a b
Writes-same {may} {a} e = subst (λ r. Writes may a r) (sym e) here

pub insert_outbox-intents :
    (now id : ℕ) (db db' : Db)
    → insert_outbox now id db ≡ some db'
    → db'.mint_intents ≡ db.mint_intents
insert_outbox-intents now id db db' e = ground (arith, e)

pub insert_event_once-intents :
    (id : ℕ) (kind : EventKind) (clt usdt : ℕ) (h : Option Text) (db : Db)
    → (insert_event_once id kind clt usdt h db).mint_intents ≡ db.mint_intents
unfolding insert_event_once
insert_event_once-intents id kind clt usdt h db = ground arith

module _ {may : ℕ → Type 0} where
  take_fee-Writes :
      (now : ℕ) (settings : Settings) (i : MintIntent) (fee_id : ℕ) (fee_ref : Text) (fee : ℤ)
      (db : Db) (out : ℤ × Db)
      → may i.id
      → take_fee now settings i fee_id fee_ref fee db ≡ some out
      → Between may db out.1
  unfolding take_fee
  take_fee-Writes now settings i fee_id fee_ref fee db out m e =
      elim (Bool-cases (
        leb_ℤ fee (pos 0)
        || not (accepts row charged_rows)
        || exists_row (for_intent fee_id) db.chain_outbox)) [
          | inl refused ↦
              let clash : ◌≡◌ {A = Option (ℤ × Db)} none (some out) = rw refused at e in cc
          | inr goes ↦
              let same : charged_rows ++ row ∷ [] ≡ out.1.mint_intents =
                ap (λ o. elim o [ none ↦ [] | some r ↦ r.1.mint_intents ]) (rw goes at e) in
              subst (λ r. Writes may db.mint_intents r) same
                (next (next here (charged i.id fee m))
                  (appended now settings i.id fee_id fee_ref (pos_part fee) (ground (arith, goes))))
        ]
    where
      charged_rows : List MintIntent
      charged_rows = update (has_id i.id) (charge fee) db.mint_intents

      row : MintIntent
      row = fee_intent now settings i.id fee_id fee_ref (pos_part fee)

  split_found-Writes :
      (now : ℕ) (settings : Settings) (o : Option MintIntent) (fee_id : ℕ) (fee_ref : Text)
      (db : Db) (out : ℤ × Db)
      → ((i : MintIntent) → o ≡ some i → may i.id)
      → split_found now settings o fee_id fee_ref db ≡ some out
      → Between may db out.1
  unfolding split_found
  split_found-Writes now settings none fee_id fee_ref db out m e = cc
  split_found-Writes now settings (some i) fee_id fee_ref db out m e =
      elim (split_found-cases now settings i fee_id fee_ref db out e) [
        | inl none_taken ↦
            let same : db ≡ out.1 = ap (λ o. elim o [ none ↦ out.1 | some r ↦ r.1 ]) none_taken in
            subst (λ (d : Db). Between may db d) same here
        | inr taken ↦
            take_fee-Writes now settings i fee_id fee_ref (fee_of settings i) db out (m i refl)
              taken
      ]

  after_split-Writes :
      (now id : ℕ) (o : Option (ℤ × Db)) (db db' : Db)
      → ((out : ℤ × Db) → o ≡ some out → Between may db out.1)
      → after_split now id o ≡ some db'
      → Between may db db'
  after_split-Writes now id none db db' h e = cc
  after_split-Writes now id (some r) db db' h e =
      subst (λ rows. Writes may db.mint_intents rows) (sym (insert_outbox-intents now id r.1 db' e))
        (h r refl)

  pub enqueue_mint-Writes :
      (now : ℕ) (status : MintStatus) (fee : Option Settings) (id fee_id : ℕ) (fee_ref : Text)
      (db db' : Db)
      → may id
      → enqueue_mint now status fee id fee_id fee_ref db ≡ some db'
      → Between may db db'
  unfolding enqueue_mint split_off find_by_id
  enqueue_mint-Writes now status fee id fee_id fee_ref db db' m e =
      elim (Bool-cases (is_approved status)) [
        | inl approved ↦ paid fee (rw approved at e)
        | inr held ↦
            let e' : some db ≡ some db' = rw held at e in
            Writes-same (ap (λ o. elim o [ none ↦ [] | some d ↦ d.mint_intents ]) (sym e'))
      ]
    where
      own : (i : MintIntent) → find (has_id id) db.mint_intents ≡ some i → may i.id
      own i found =
          let same : id ≡ i.id = ground (arith, find_holds (has_id id) db.mint_intents i found) in
          subst may same m

      paid :
          (f : Option Settings)
          → charge_fee now f id fee_id fee_ref db ≡ some db'
          → Between may db db'
      paid none c = Writes-same (insert_outbox-intents now id db db' c)
      paid (some settings) c =
          after_split-Writes now id (split_off now settings id fee_id fee_ref db) db db'
            (λ out. split_found-Writes now settings (find_by_id id db) fee_id fee_ref db out own) c

  pub approve_and_ledger-Writes :
      (faults : Faults) (now id : ℕ) (observed : ℤ) (tx_id : Text) (status : MintStatus)
      (limit : Option ℤ) (fee : Option Settings) (fee_id : ℕ) (fee_ref : Text) (db : Db)
      (flag : Bool) (db' : Db)
      → may id
      → Given status
      → approve_and_ledger faults now id observed tx_id status limit fee fee_id fee_ref db
        ≡ some (flag, db')
      → Between may db db'
  approve_and_ledger-Writes faults now id observed tx_id status limit fee fee_id fee_ref db true db'
        m g e =
      let c = committed faults now id observed tx_id status limit fee fee_id fee_ref db db' e in
      Writes-trans
        (Writes-trans (next here (verified now id status limit observed m g c.allowed))
          (enqueue_mint-Writes now status fee id fee_id fee_ref _ c.queued m c.enqueued))
        (Writes-same (
          ap (λ (d : Db). d.mint_intents) c.written
          ∙ insert_event_once-intents id custody_deposit 0 (pos_part observed) (some tx_id)
              c.queued))
  approve_and_ledger-Writes faults now id observed tx_id status limit fee fee_id fee_ref db false
        db' m g e =
      Writes-same (
        ap (λ (d : Db). d.mint_intents)
          (idle faults now id observed tx_id status limit fee fee_id fee_ref db db' e))

  pub reject_and_alert-Writes :
      (faults : Faults) (now id : ℕ) (reason : Reason) (db db' : Db)
      → may id
      → reject_and_alert faults now id reason db ≡ some db'
      → Between may db db'
  unfolding reject_and_alert
  reject_and_alert-Writes faults now id reason db db' m e = elim (Bool-cases faults.rejection) [
    | inl fault ↦ let clash : ◌≡◌ {A = Option Db} none (some db') = rw fault at e in cc
    | inr sound ↦ elim (Bool-cases (exists_row (is_open id) db.mint_intents)) [
      | inl there ↦
          let same : update (is_open id) (set_rejected now) db.mint_intents ≡ db'.mint_intents =
            ap (λ o. elim o [ none ↦ [] | some d ↦ d.mint_intents ]) (rw (sound, there) at e) in
          subst (λ r. Writes may db.mint_intents r) same (next here (rejected now id m))
      | inr gone ↦
          let same : db.mint_intents ≡ db'.mint_intents =
            ap (λ o. elim o [ none ↦ [] | some d ↦ d.mint_intents ]) (rw (sound, gone) at e) in
          Writes-same (sym same)
    ]
  ]
