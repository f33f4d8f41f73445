-- ===== src/Api/Routes.antt =====
-- The other handlers of crates/treasury-service/src/api.rs. The recovery of a signer from a
-- signature over the approval digest (clutch-chain) and the answer of the TRON node about the float
-- are arguments; JSON is the record of what it shows.
use clutch_treasury.Base.{
  ℕ, Bool, true, false, ◌&&◌, ◌||◌, not, ◌==◌, Option, none, some, List, [], ◌∷◌, ◌++◌,
  if◌then◌else◌, length, Text, codes, text_eq, exists_row,
}
use clutch_treasury.Base.Int.{ℤ, pos, pos_part, ltb_ℤ}
use clutch_treasury.Store.{
  MintIntent, RedemptionIntent, ApprovalSignature, Db, AppConfig, custody_deposit, warn, custody,
  manual_custody,
}
use clutch_treasury.Ledger.{alert, append_event}
use clutch_treasury.Breakers.{
  Verdict, allowed, denied, check_mint, manual_halt_now, manual_resume_now,
}
use clutch_treasury.Intents.{
  Result, ok, err, find_by_id, approve_mint_intent, net_payout, find_redemption_by_id,
  create_redemption_intent,
}
use clutch_treasury.Api.{Role, initiator, approver, readonly}

-- `secret_eq`: after the lengths, every pair of bytes is compared and a difference is kept.
unfoldable pub differs : Bool → Text → Text → Bool
differs seen [] t = seen
differs seen (a ∷ s) [] = seen
differs seen (a ∷ s) (b ∷ t) = differs (seen || not (a == b)) s t

unfoldable pub secret_eq : Text → Text → Bool
unfolding differs
secret_eq presented expected =
    if not (length presented == length expected)
    then false
    else not (differs false presented expected)

pub record Tokens : Type 0 where
  pub initiator_token : Text
  pub approver_token : Text
  pub readonly_token : Text

-- `caller_role`, for the token of the `authorization` header, where there is one.
unfoldable pub caller_role : Tokens → Option Text → Option Role
unfolding secret_eq
caller_role tokens none = none
caller_role tokens (some token) =
    if secret_eq token tokens.initiator_token
    then some initiator
    else if secret_eq token tokens.approver_token
    then some approver
    else if secret_eq token tokens.readonly_token
    then some readonly
    else none

-- What a handler answers: a body, or a status code.
pub data Reply {ℓ} (A : Type ℓ) : Type ℓ where
  body : A → Reply A
  unauthorized forbidden not_found bad_request conflict : Reply A
  unprocessable unavailable internal_error : Reply A

abbrev pub found_or_404 {ℓ} : {A : Type ℓ} → Option A → Reply A
found_or_404 none = not_found
found_or_404 (some a) = body a

unfoldable pub get_mint_intent : Option Role → ℕ → Db → Reply MintIntent
unfolding find_by_id
get_mint_intent none id db = unauthorized
get_mint_intent (some role) id db = found_or_404 (find_by_id id db)

unfoldable pub get_redemption_intent : Option Role → ℕ → Db → Reply RedemptionIntent
unfolding find_redemption_by_id
get_redemption_intent none id db = unauthorized
get_redemption_intent (some role) id db = found_or_404 (find_redemption_by_id id db)

-- The signature of an approval request.
pub record SignatureBody : Type 0 where
  pub r : Text
  pub s : Text
  pub v : ℕ

-- Who signed the approval of an intent, and who may.
pub record Authorities : Type 0 where
  pub recover : MintIntent → SignatureBody → Option Text
  pub authority_set : List Text

abbrev pub is_signature : ℕ → Text → ApprovalSignature → Bool
is_signature id signer x = x.intent_id == id && text_eq x.signer_address signer

-- `INSERT … ON CONFLICT (intent_id, signer_address) DO NOTHING`.
abbrev insert_signature : ℕ → Text → Db → Db
insert_signature id signer db =
    if exists_row (is_signature id signer) db.mint_approval_signatures then db else record db {
      mint_approval_signatures =
          db.mint_approval_signatures ++ record { intent_id = id; signer_address = signer } ∷ [];
    }

abbrev by_authority : Authorities → ℕ → Option Text → Db → Option Db
by_authority authorities id none db = none
by_authority authorities id (some signer) db =
    if exists_row (text_eq signer) authorities.authority_set
    then some (insert_signature id signer db)
    else none

-- `none` is a signature that is refused.
unfoldable pub store_signature :
    Authorities → ℕ → MintIntent → Option SignatureBody → Db → Option Db
unfolding text_eq
store_signature authorities id i none db = some db
store_signature authorities id i (some signature) db =
    by_authority authorities id (authorities.recover i signature) db

abbrev pub approver_name : Text
approver_name = codes "approver"

abbrev pub approved_or_409 : Result MintIntent × Db → Reply MintIntent × Db
approved_or_409 (ok i, db) = (body i, db)
approved_or_409 (err e, db) = (conflict, db)

abbrev pub approve_signed : ℕ → ℕ → Db → Option Db → Reply MintIntent × Db
approve_signed now id db none = (bad_request, db)
approve_signed now id db (some db') = approved_or_409 (approve_mint_intent now id approver_name db')

abbrev pub approve_gated :
    Authorities → ℕ → ℕ → MintIntent → Option SignatureBody → Verdict × Db → Reply MintIntent × Db
approve_gated authorities now id i signature (denied d, db) = (unprocessable, db)
approve_gated authorities now id i signature (allowed, db) =
    approve_signed now id db (store_signature authorities id i signature db)

abbrev pub approve_found :
    AppConfig
    → Authorities
    → ℕ
    → ℕ
    → Option SignatureBody
    → Option MintIntent
    → Db
    → Reply MintIntent × Db
approve_found config authorities now id signature none db = (not_found, db)
approve_found config authorities now id signature (some i) db =
    approve_gated authorities now id i signature (check_mint config now i.amount_clt db)

unfoldable pub approve_mint_intent_handler :
    AppConfig
    → Authorities
    → ℕ
    → Option Role
    → ℕ
    → Option SignatureBody
    → Db
    → Reply MintIntent × Db
unfolding check_mint store_signature approve_mint_intent find_by_id
approve_mint_intent_handler config authorities now none id signature db = (unauthorized, db)
approve_mint_intent_handler config authorities now (some approver) id signature db =
    approve_found config authorities now id signature (find_by_id id db) db
approve_mint_intent_handler config authorities now (some role) id signature db = (forbidden, db)

pub record RedemptionBody : Type 0 where
  pub redeemer_address : Text
  pub payout_address : Text
  pub amount_clt : ℤ

abbrev pub created_or_500 : Result RedemptionIntent × Db → Reply RedemptionIntent × Db
created_or_500 (ok r, db) = (body r, db)
created_or_500 (err e, db) = (internal_error, db)

-- With GasFree payouts the float, where there is one, must be known to be activated.
abbrev pub float_ready : AppConfig → Option (Option Bool) → Bool
float_ready config float_active =
    if config.gasfree_on && config.gasfree_rail
    then elim float_active [ some (some true) ↦ true | _ ↦ false ]
    else true

abbrev pub redeem_quoted :
    AppConfig
    → Option (Option Bool)
    → ℕ
    → ℕ
    → Text
    → RedemptionBody
    → Option ℤ
    → Db
    → Reply RedemptionIntent × Db
redeem_quoted config float_active now id redemption_ref b none db = (bad_request, db)
redeem_quoted config float_active now id redemption_ref b (some payout) db =
    if float_ready config float_active
    then created_or_500 (
        create_redemption_intent now id redemption_ref b.redeemer_address b.payout_address
          b.amount_clt payout db)
    else (unavailable, db)

-- `float_active` is none without a float; the inner one is what the node answers.
unfoldable pub create_redemption_intent_handler :
    AppConfig
    → Option (Option Bool)
    → ℕ
    → Option Role
    → ℕ
    → Text
    → RedemptionBody
    → Db
    → Reply RedemptionIntent × Db
unfolding net_payout create_redemption_intent
create_redemption_intent_handler config float_active now none id redemption_ref b db =
    (unauthorized, db)
create_redemption_intent_handler config float_active now (some initiator) id redemption_ref b db =
    redeem_quoted config float_active now id redemption_ref b
      (net_payout b.amount_clt config.redemption_fee_usdt) db
create_redemption_intent_handler config float_active now (some role) id redemption_ref b db =
    (forbidden, db)

unfoldable pub halt_handler : ℕ → Option Role → Text → Db → Reply Bool × Db
unfolding manual_halt_now
halt_handler now none reason db = (unauthorized, db)
halt_handler now (some approver) reason db = (body true, manual_halt_now now reason db)
halt_handler now (some role) reason db = (forbidden, db)

unfoldable pub resume_handler : ℕ → Option Role → Db → Reply Bool × Db
unfolding manual_resume_now
resume_handler now none db = (unauthorized, db)
resume_handler now (some approver) db = (body false, manual_resume_now now db)
resume_handler now (some role) db = (forbidden, db)

-- The event's CHECK refuses a negative amount.
abbrev pub record_custody : ℕ → ℤ → Text → Db → Reply ℤ × Db
record_custody now amount_usdt reference db =
    if ltb_ℤ amount_usdt (pos 0) then (internal_error, db) else (
      body amount_usdt,
      alert now warn custody (manual_custody amount_usdt reference)
          (append_event custody_deposit 0 (pos_part amount_usdt) none none db),
    )

unfoldable pub custody_deposits_handler : ℕ → Option Role → ℤ → Text → Db → Reply ℤ × Db
unfolding append_event
custody_deposits_handler now none amount_usdt reference db = (unauthorized, db)
custody_deposits_handler now (some approver) amount_usdt reference db =
    record_custody now amount_usdt reference db
custody_deposits_handler now (some role) amount_usdt reference db = (forbidden, db)
