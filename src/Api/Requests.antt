-- ===== src/Api/Requests.antt =====
-- The requests that act on the database (crates/treasury-service/src/api.rs), and what each role
-- may change by one.
use clutch_treasury.Base.{ℕ, Bool, ◌≡◌, Option, none, List, ◌++◌, All, map, Text}
use clutch_treasury.Base.Int.{ℤ}
use clutch_treasury.Store.{
  MintIntent, MintStatus, RedemptionIntent, RedemptionStatus, Db, AppConfig,
}
use clutch_treasury.Api.{Role, ApiConfig, CreateMintIntentBody, Fresh, create_mint_intent}
use clutch_treasury.Api.Routes.{
  SignatureBody, Authorities, approve_mint_intent_handler, RedemptionBody,
  create_redemption_intent_handler, halt_handler, resume_handler, custody_deposits_handler,
}

-- The settings of the service, and who may sign.
pub record Service : Type 0 where
  pub config : AppConfig
  pub api : ApiConfig
  pub authorities : Authorities
  pub tron_address_of : Text → Option Text

-- A request to one of the handlers that act, with what it brings.
pub data Request : Type 0 where
  propose : Fresh → CreateMintIntentBody → Request
  approve : ℕ → Option SignatureBody → Request
  redeem : Option (Option Bool) → ℕ → Text → RedemptionBody → Request
  halt : Text → Request
  resume : Request
  deposit_custody : ℤ → Text → Request

-- What the request leaves behind.
abbrev pub serve : Service → ℕ → Option Role → Request → Db → Db
serve s now role (propose fresh b) db =
    (create_mint_intent s.api s.tron_address_of now fresh role b db).1
serve s now role (approve id signature) db =
    (approve_mint_intent_handler s.config s.authorities now role id signature db).1
serve s now role (redeem float_active id redemption_ref b) db =
    (create_redemption_intent_handler s.config float_active now role id redemption_ref b db).1
serve s now role (halt reason) db = (halt_handler now role reason db).1
serve s now role resume db = (resume_handler now role db).1
serve s now role (deposit_custody amount_usdt reference) db =
    (custody_deposits_handler now role amount_usdt reference db).1

abbrev pub ids : Db → List ℕ
ids db = map (λ i. i.id) db.mint_intents

abbrev pub IsProposed : MintIntent → Type 0
IsProposed i = (i.status ≡ MintStatus.created) × (i.approved_by ≡ none)

abbrev pub IsQuoted : RedemptionIntent → Type 0
IsQuoted r = r.status ≡ RedemptionStatus.created

-- Nothing but the two tables of intents differs, and these only by rows at their end that nobody
-- has approved, or burned for.
pub record OnlyProposed (db db' : Db) : Type 0 where
  pub new_mints : List MintIntent
  pub mints : db'.mint_intents ≡ db.mint_intents ++ new_mints
  pub proposed : All IsProposed new_mints
  pub new_redemptions : List RedemptionIntent
  pub redemptions : db'.redemption_intents ≡ db.redemption_intents ++ new_redemptions
  pub quoted : All IsQuoted new_redemptions
  pub same_rest :
      (record db' { mint_intents = db.mint_intents; redemption_intents = db.redemption_intents })
      ≡ db

-- The redemptions are the same, and so are the ids of the mints.
pub record NothingProposed (db db' : Db) : Type 0 where
  pub same_redemptions : db'.redemption_intents ≡ db.redemption_intents
  pub same_ids : ids db' ≡ ids db
