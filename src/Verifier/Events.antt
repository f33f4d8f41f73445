-- ===== src/Verifier/Events.antt =====
-- The enqueueing of a mint leaves the ledger's events (tron_verifier.rs, `approve_and_ledger`).
use clutch_treasury.Base.{
  ℕ, ◌≡◌, inl, inr, refl, sym, ap, ◌∙◌, Option, none, some, [], arith, Bool-cases, Text,
}
use clutch_treasury.Base.Int.{ℤ}
use clutch_treasury.Store.{MintIntent, MintStatus, Db}
use clutch_treasury.Intents.{find_by_id}
use clutch_treasury.ServiceFee.{Settings, split_off, split_found, take_fee, fee_of}
use clutch_treasury.ServiceFee.Split.{split_found-cases}
use clutch_treasury.Verifier.Approve.{
  enqueue_mint, is_approved, charge_fee, after_split, insert_outbox,
}

-- A fee that is split off leaves the ledger's events.
take_fee-events :
    (now : ℕ) (settings : Settings) (i : MintIntent) (fee_id : ℕ) (fee_ref : Text) (fee : ℤ)
    (db : Db) (out : ℤ × Db)
    → take_fee now settings i fee_id fee_ref fee db ≡ some out
    → out.1.treasury_events ≡ db.treasury_events
unfolding take_fee
take_fee-events now settings i fee_id fee_ref fee db out e = ground (arith, e)

split_found-events :
    (now : ℕ) (settings : Settings) (o : Option MintIntent) (fee_id : ℕ) (fee_ref : Text) (db : Db)
    (out : ℤ × Db)
    → split_found now settings o fee_id fee_ref db ≡ some out
    → out.1.treasury_events ≡ db.treasury_events
unfolding split_found
split_found-events now settings none fee_id fee_ref db out e = cc
split_found-events now settings (some i) fee_id fee_ref db out e =
    elim (split_found-cases now settings i fee_id fee_ref db out e) [
      | inl none_taken ↦
          let same : db ≡ out.1 = ap (λ o. elim o [ none ↦ out.1 | some r ↦ r.1 ]) none_taken in
          ap (λ (d : Db). d.treasury_events) (sym same)
      | inr taken ↦ take_fee-events now settings i fee_id fee_ref (fee_of settings i) db out taken
    ]

insert_outbox-events :
    (now id : ℕ) (db db' : Db)
    → insert_outbox now id db ≡ some db'
    → db'.treasury_events ≡ db.treasury_events
insert_outbox-events now id db db' e = ground (arith, e)

after_split-events :
    (now id : ℕ) (o : Option (ℤ × Db)) (db db' : Db)
    → ((out : ℤ × Db) → o ≡ some out → out.1.treasury_events ≡ db.treasury_events)
    → after_split now id o ≡ some db'
    → db'.treasury_events ≡ db.treasury_events
after_split-events now id none db db' h e = cc
after_split-events now id (some r) db db' h e = insert_outbox-events now id r.1 db' e ∙ h r refl

pub enqueue_mint-events :
    (now : ℕ) (status : MintStatus) (fee : Option Settings) (id fee_id : ℕ) (fee_ref : Text)
    (db db' : Db)
    → enqueue_mint now status fee id fee_id fee_ref db ≡ some db'
    → db'.treasury_events ≡ db.treasury_events
unfolding enqueue_mint split_off
enqueue_mint-events now status fee id fee_id fee_ref db db' e =
    elim (Bool-cases (is_approved status)) [
      | inl approved ↦ charged fee (rw approved at e)
      | inr held ↦
          let e' : some db ≡ some db' = rw held at e in
          ap (λ o. elim o [ none ↦ [] | some d ↦ d.treasury_events ]) (sym e')
    ]
  where
    charged :
        (f : Option Settings)
        → charge_fee now f id fee_id fee_ref db ≡ some db'
        → db'.treasury_events ≡ db.treasury_events
    charged none c = insert_outbox-events now id db db' c
    charged (some settings) c =
        after_split-events now id (split_off now settings id fee_id fee_ref db) db db'
          (λ out. split_found-events now settings (find_by_id id db) fee_id fee_ref db out) c
