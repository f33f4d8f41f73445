-- ===== src/Api/Approves.antt =====
-- What an approver changes (crates/treasury-service/src/api.rs).
use clutch_treasury.Base.{
  ℕ, ◌≡◌, refl, ◌∙◌, Option, none, some, List, [], ◌∷◌, map, Text, arith, update,
}
use clutch_treasury.Store.{MintIntent, Db, AppConfig}
use clutch_treasury.Ledger.{append_event}
use clutch_treasury.Breakers.{
  Verdict, allowed, denied, check_mint, check_mint_inner, manual_halt_now, manual_resume_now,
}
use clutch_treasury.Intents.{
  Result, ok, err, has_id, find_by_id, approve_row, approve_mint_intent, set_approved,
}
use clutch_treasury.Api.{approver, create_mint_intent}
use clutch_treasury.Api.Routes.{
  SignatureBody, Authorities, store_signature, approver_name, approved_or_409, approve_signed,
  approve_gated, approve_found, approve_mint_intent_handler, create_redemption_intent_handler,
  halt_handler, resume_handler, custody_deposits_handler,
}
use clutch_treasury.Api.Requests.{
  Service, Request, propose, approve, redeem, halt, resume, deposit_custody, serve, NothingProposed,
}

check_mint-NothingProposed :
    (config : AppConfig) (now amount : ℕ) (db : Db)
    → NothingProposed db (check_mint config now amount db).1
unfolding check_mint check_mint_inner
check_mint-NothingProposed config now amount db = record {
  same_redemptions = ground arith;
  same_ids = ground arith;
}

ids-update :
    (id now : ℕ) (by : Text) (rows : List MintIntent)
    → map (λ i. i.id) (update (has_id id) (set_approved now by) rows) ≡ map (λ i. i.id) rows
unfolding update
ids-update id now by [] = refl
ids-update id now by (i ∷ rows) = grind (arith, ids-update id now by rows)

NothingProposed-refl : (db : Db) → NothingProposed db db
NothingProposed-refl db = record { same_redemptions = refl; same_ids = refl }

NothingProposed-trans :
    {a b c : Db} → NothingProposed a b → NothingProposed b c → NothingProposed a c
NothingProposed-trans h k = record {
  same_redemptions = k.same_redemptions ∙ h.same_redemptions;
  same_ids = k.same_ids ∙ h.same_ids;
}

approve_row-NothingProposed :
    (now id : ℕ) (by : Text) (o : Option MintIntent) (db : Db)
    → NothingProposed db (approve_row now id by o db).1
unfolding approve_row
approve_row-NothingProposed now id by none db = NothingProposed-refl db
approve_row-NothingProposed now id by (some i) db = record {
  same_redemptions = ground arith;
  same_ids = ground (arith, ids-update id now by db.mint_intents);
}

-- A signature is a row of its own table.
store_signature-NothingProposed :
    (authorities : Authorities) (id : ℕ) (i : MintIntent) (signature : Option SignatureBody)
    (db db' : Db)
    → store_signature authorities id i signature db ≡ some db'
    → NothingProposed db db'
unfolding store_signature
store_signature-NothingProposed authorities id i none db db' e = record {
  same_redemptions = ground arith;
  same_ids = ground arith;
}
store_signature-NothingProposed authorities id i (some signature) db db' e = record {
  same_redemptions = ground arith;
  same_ids = ground arith;
}

approved_or_409-NothingProposed :
    (db : Db) (r : Result MintIntent × Db)
    → NothingProposed db r.1
    → NothingProposed db (approved_or_409 r).1
approved_or_409-NothingProposed db (ok i, db') h = h
approved_or_409-NothingProposed db (err e, db') h = h

approve_signed-NothingProposed :
    (now id : ℕ) (db : Db) (stored : Option Db)
    → ((db' : Db) → stored ≡ some db' → NothingProposed db db')
    → NothingProposed db (approve_signed now id db stored).1
unfolding approve_mint_intent
approve_signed-NothingProposed now id db none h = NothingProposed-refl db
approve_signed-NothingProposed now id db (some db') h =
    approved_or_409-NothingProposed db (approve_mint_intent now id approver_name db') (
      NothingProposed-trans (h db' refl)
        (approve_row-NothingProposed now id approver_name (find_by_id id db') db'))

approve_gated-NothingProposed :
    (authorities : Authorities) (now id : ℕ) (i : MintIntent) (signature : Option SignatureBody)
    (gate : Verdict × Db)
    → NothingProposed gate.1 (approve_gated authorities now id i signature gate).1
approve_gated-NothingProposed authorities now id i signature (denied d, db) =
    NothingProposed-refl db
approve_gated-NothingProposed authorities now id i signature (allowed, db) =
    approve_signed-NothingProposed now id db (store_signature authorities id i signature db)
      (store_signature-NothingProposed authorities id i signature db)

approve_found-NothingProposed :
    (config : AppConfig) (authorities : Authorities) (now id : ℕ) (signature : Option SignatureBody)
    (o : Option MintIntent) (db : Db)
    → NothingProposed db (approve_found config authorities now id signature o db).1
approve_found-NothingProposed config authorities now id signature none db = NothingProposed-refl db
approve_found-NothingProposed config authorities now id signature (some i) db =
    NothingProposed-trans (check_mint-NothingProposed config now i.amount_clt db) (
      approve_gated-NothingProposed authorities now id i signature
        (check_mint config now i.amount_clt db))

pub serve-approver :
    (s : Service) (now : ℕ) (request : Request) (db : Db)
    → NothingProposed db (serve s now (some approver) request db)
unfolding create_mint_intent approve_mint_intent_handler create_redemption_intent_handler
    halt_handler resume_handler custody_deposits_handler manual_halt_now manual_resume_now
    append_event
serve-approver s now (propose fresh b) db = NothingProposed-refl db
serve-approver s now (approve id signature) db =
    approve_found-NothingProposed s.config s.authorities now id signature (find_by_id id db) db
serve-approver s now (redeem float_active id redemption_ref b) db = NothingProposed-refl db
serve-approver s now (halt reason) db = record { same_redemptions = refl; same_ids = refl }
serve-approver s now resume db = record { same_redemptions = refl; same_ids = refl }
serve-approver s now (deposit_custody amount_usdt reference) db = record {
  same_redemptions = ground arith;
  same_ids = ground arith;
}
