-- ===== src/Api/Proposes.antt =====
-- What an initiator changes (crates/treasury-service/src/api.rs).
use clutch_treasury.Base.{
  ℕ, Bool, true, false, inl, inr, refl, sym, Option, none, some, [], ◌∷◌, ◌++◌, append-nil,
  if◌then◌else◌, Bool-cases, Text, codes,
}
use clutch_treasury.Base.Int.{ℤ, pos, leb_ℤ}
use clutch_treasury.Store.{MintIntent, RedemptionIntent, Network, tron, bsc, Db, AppConfig}
use clutch_treasury.Intents.{
  rejected_by_database, insert_mint_row, new_row, accepts, Result, ok, err, net_payout,
  create_redemption_intent, NewMint, find_by_client_ref, create_mint_intent_on,
}
use clutch_treasury.Api.{
  deposit_ok, names, initiator, ApiConfig, CreateMintIntentBody, Fresh, answer, actor_name,
  new_mint, insert_new, create_manual, create_deposit, create_by_ref, create_mint_intent,
}
use clutch_treasury.Api.Routes.{
  approve_mint_intent_handler, RedemptionBody, created_or_500, float_ready, redeem_quoted,
  create_redemption_intent_handler, halt_handler, resume_handler, custody_deposits_handler,
}
use clutch_treasury.Api.Requests.{
  Service, Request, propose, approve, redeem, halt, resume, deposit_custody, serve, OnlyProposed,
  IsProposed, IsQuoted,
}

OnlyProposed-refl : (db : Db) → OnlyProposed db db
OnlyProposed-refl db = record {
  new_mints = [];
  mints = sym (append-nil db.mint_intents);
  proposed = tt;
  new_redemptions = [];
  redemptions = sym (append-nil db.redemption_intents);
  quoted = tt;
  same_rest = refl;
}

-- Whichever way a test goes.
if-OnlyProposed {ℓ} :
    {A : Type ℓ} (db : Db) (b : Bool) (x y : A × Db)
    → OnlyProposed db x.1
    → OnlyProposed db y.1
    → OnlyProposed db (if b then x else y).1
if-OnlyProposed db true x y h k = h
if-OnlyProposed db false x y h k = k

one_redemption-OnlyProposed :
    (r : RedemptionIntent) (db : Db)
    → IsQuoted r
    → OnlyProposed db (record db { redemption_intents = db.redemption_intents ++ r ∷ [] })
one_redemption-OnlyProposed r db h = record {
  new_mints = [];
  mints = sym (append-nil db.mint_intents);
  proposed = tt;
  new_redemptions = r ∷ [];
  redemptions = refl;
  quoted = (h, tt);
  same_rest = refl;
}

one_mint-OnlyProposed :
    (i : MintIntent) (db : Db)
    → IsProposed i
    → OnlyProposed db (record db { mint_intents = db.mint_intents ++ i ∷ [] })
one_mint-OnlyProposed i db h = record {
  new_mints = i ∷ [];
  mints = refl;
  proposed = (h, tt);
  new_redemptions = [];
  redemptions = sym (append-nil db.redemption_intents);
  quoted = tt;
  same_rest = refl;
}

create_redemption_intent-OnlyProposed :
    (now id : ℕ) (redemption_ref redeemer payout_address : Text) (amount payout : ℤ) (db : Db)
    → OnlyProposed db
        (create_redemption_intent now id redemption_ref redeemer payout_address amount payout db).1
unfolding create_redemption_intent
create_redemption_intent-OnlyProposed now id redemption_ref redeemer payout_address amount payout
      db =
    if-OnlyProposed db _ _ _ (one_redemption-OnlyProposed _ db refl) (OnlyProposed-refl db)

created_or_500-OnlyProposed :
    (db : Db) (r : Result RedemptionIntent × Db)
    → OnlyProposed db r.1
    → OnlyProposed db (created_or_500 r).1
created_or_500-OnlyProposed db (ok r, db') h = h
created_or_500-OnlyProposed db (err e, db') h = h

redeem_quoted-OnlyProposed :
    (config : AppConfig) (float_active : Option (Option Bool)) (now id : ℕ) (redemption_ref : Text)
    (b : RedemptionBody) (quote : Option ℤ) (db : Db)
    → OnlyProposed db (redeem_quoted config float_active now id redemption_ref b quote db).1
redeem_quoted-OnlyProposed config float_active now id redemption_ref b none db =
    OnlyProposed-refl db
redeem_quoted-OnlyProposed config float_active now id redemption_ref b (some payout) db =
    elim (Bool-cases (float_ready config float_active)) [
      | inl ready ↦ rw ready (
          created_or_500-OnlyProposed db _ (
            create_redemption_intent-OnlyProposed now id redemption_ref b.redeemer_address
              b.payout_address b.amount_clt payout db))
      | inr waiting ↦ rw waiting (OnlyProposed-refl db)
    ]

answer-OnlyProposed :
    (db : Db) (r : Result MintIntent × Db) → OnlyProposed db r.1 → OnlyProposed db (answer r).1
answer-OnlyProposed db (ok i, db') h = h
answer-OnlyProposed db (err e, db') h = h

insert_mint_row-OnlyProposed :
    (i : MintIntent) (db : Db) → IsProposed i → OnlyProposed db (insert_mint_row i db).1
insert_mint_row-OnlyProposed i db h =
    if-OnlyProposed db (accepts i db.mint_intents)
      (ok i, record db { mint_intents = db.mint_intents ++ i ∷ [] }) (err rejected_by_database, db)
      (one_mint-OnlyProposed i db h) (OnlyProposed-refl db)

create_mint_intent_on-OnlyProposed :
    (now id : ℕ) (credit_ref : Text) (n : NewMint) (db : Db)
    → OnlyProposed db (create_mint_intent_on now id credit_ref n db).1
unfolding create_mint_intent_on
create_mint_intent_on-OnlyProposed now id credit_ref n db =
    if-OnlyProposed db (leb_ℤ n.amount_clt (pos 0)) (err rejected_by_database, db)
      (insert_mint_row (new_row now id credit_ref n) db) (OnlyProposed-refl db)
      (insert_mint_row-OnlyProposed (new_row now id credit_ref n) db (refl, refl))

insert_new-OnlyProposed :
    (now : ℕ) (fresh : Fresh) (b : CreateMintIntentBody) (network : Network) (db : Db)
    → OnlyProposed db (insert_new now fresh b network db).1
unfolding insert_new
insert_new-OnlyProposed now fresh b network db = answer-OnlyProposed db _ (
    create_mint_intent_on-OnlyProposed now fresh.id fresh.credit_ref (new_mint actor_name b network)
      db)

create_deposit-OnlyProposed :
    (api : ApiConfig) (tron_address_of : Text → Option Text) (now : ℕ) (fresh : Fresh)
    (b : CreateMintIntentBody) (found : Option MintIntent) (db : Db)
    → OnlyProposed db (create_deposit api tron_address_of now fresh b found db).1
unfolding create_deposit
create_deposit-OnlyProposed api tron_address_of now fresh b (some i) db = OnlyProposed-refl db
create_deposit-OnlyProposed api tron_address_of now fresh b none db =
    elim (Bool-cases (deposit_ok api tron_address_of b)) [
      | inl good ↦ rw good (
          insert_new-OnlyProposed now fresh b (if names b.network (codes "bsc") then bsc else tron)
            db)
      | inr bad ↦ rw bad (OnlyProposed-refl db)
    ]

create_by_ref-OnlyProposed :
    (api : ApiConfig) (tron_address_of : Text → Option Text) (now : ℕ) (fresh : Fresh)
    (b : CreateMintIntentBody) (client_ref : Option Text) (db : Db)
    → OnlyProposed db (create_by_ref api tron_address_of now fresh b client_ref db).1
unfolding create_by_ref create_manual
create_by_ref-OnlyProposed api tron_address_of now fresh b none db =
    elim (Bool-cases (names b.network (codes "tron"))) [
      | inl on_tron ↦ rw on_tron (insert_new-OnlyProposed now fresh b tron db)
      | inr elsewhere ↦ rw elsewhere (OnlyProposed-refl db)
    ]
create_by_ref-OnlyProposed api tron_address_of now fresh b (some r) db =
    create_deposit-OnlyProposed api tron_address_of now fresh b (find_by_client_ref r db) db

pub serve-initiator :
    (s : Service) (now : ℕ) (request : Request) (db : Db)
    → OnlyProposed db (serve s now (some initiator) request db)
unfolding create_mint_intent approve_mint_intent_handler create_redemption_intent_handler
    halt_handler resume_handler custody_deposits_handler
serve-initiator s now (propose fresh b) db =
    create_by_ref-OnlyProposed s.api s.tron_address_of now fresh b b.client_ref db
serve-initiator s now (approve id signature) db = OnlyProposed-refl db
serve-initiator s now (redeem float_active id redemption_ref b) db =
    redeem_quoted-OnlyProposed s.config float_active now id redemption_ref b
      (net_payout b.amount_clt s.config.redemption_fee_usdt) db
serve-initiator s now (halt reason) db = OnlyProposed-refl db
serve-initiator s now resume db = OnlyProposed-refl db
serve-initiator s now (deposit_custody amount_usdt reference) db = OnlyProposed-refl db
