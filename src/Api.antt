-- ===== src/Api.antt =====
-- Creating a mint intent over HTTP: crates/treasury-service/src/api.rs,
-- `create_mint_intent_handler`. The role that the caller's token gives and the TRON address of a
-- beneficiary (`tron_address_of`, which hashes) are arguments, as are a fresh id and its reference.
pub mod Create
pub mod Requests
pub mod Approves
pub mod Proposes
pub mod Duties
pub mod Reports
pub mod Routes
use clutch_treasury.Base.{
  ℕ, Bool, true, false, ◌&&◌, ◌||◌, not, Option, none, some, [], ◌∷◌, if◌then◌else◌, is_some, Text,
  codes, text_eq, option_text_eq,
}
use clutch_treasury.Base.Int.{ℤ, pos, ltb_ℤ, leb_ℤ}
use clutch_treasury.Store.{MintIntent, Network, tron, bsc, Db}
use clutch_treasury.Bsc.{normalize_address, normalize_tx_hash}
use clutch_treasury.Intents.{Result, ok, err, NewMint, create_mint_intent_on, find_by_client_ref}

pub data Role : Type 0 where
  initiator approver readonly : Role

pub record ApiConfig : Type 0 where
  -- The pay-in address of the BSC settings, where they are set.
  pub bsc_pay_in : Option Text
  pub direct_topups_enabled : Bool
  -- `gasfree_float()` is set.
  pub has_gasfree_float : Bool

pub record CreateMintIntentBody : Type 0 where
  pub beneficiary : Text
  pub amount_clt : ℤ
  pub client_ref : Option Text
  pub deposit_tx_id : Option Text
  pub expected_amount_usdt : Option ℤ
  pub deposit_address : Option Text
  pub derivation_index : Option ℤ
  pub direct_from : Option Text
  pub network : Option Text

-- The status codes of the handler: 200, 201, 400, 401, 403 and 500.
pub data Response : Type 0 where
  existing : MintIntent → Response
  created : MintIntent → Response
  bad_request unauthorized forbidden internal_error : Response

abbrev pub and_then {ℓ κ} : {A : Type ℓ} {B : Type κ} → Option A → (A → Option B) → Option B
and_then none f = none
and_then (some a) f = f a

-- `is_none_or(str::is_empty)`, negated.
abbrev pub not_blank : Option Text → Bool
not_blank none = false
not_blank (some []) = false
not_blank (some (c ∷ t)) = true

abbrev pub is_positive : Option ℤ → Bool
is_positive none = false
is_positive (some a) = ltb_ℤ (pos 0) a

-- 0 ≤ index < 2 ^ 31.
abbrev is_index : Option ℤ → Bool
is_index none = false
is_index (some i) = leb_ℤ (pos 0) i && ltb_ℤ i (pos 2147483648)

abbrev bsc_sender : Text → CreateMintIntentBody → Option Text → Bool
bsc_sender pay_in body (some from) =
    option_text_eq (normalize_address from) (normalize_address body.beneficiary)
    && not (is_some body.deposit_address)
    && not (is_some body.derivation_index)
bsc_sender pay_in body none =
    let address = and_then body.deposit_address normalize_address in
    is_some address && not (option_text_eq address (some pay_in)) && is_index body.derivation_index

abbrev pub bsc_ok : Option Text → CreateMintIntentBody → Bool
bsc_ok none body = false
bsc_ok (some pay_in) body =
    is_some (normalize_address body.beneficiary)
    && bsc_sender pay_in body body.direct_from
    && not (option_text_eq (normalize_address body.beneficiary) (some pay_in))
    && is_some (and_then body.deposit_tx_id normalize_tx_hash)

abbrev pub tron_ok : ApiConfig → (Text → Option Text) → CreateMintIntentBody → Option Text → Bool
tron_ok config tron_address_of body (some from) =
    config.direct_topups_enabled
    && config.has_gasfree_float
    && not (is_some body.deposit_address)
    && not (is_some body.derivation_index)
    && not_blank body.deposit_tx_id
    && option_text_eq (tron_address_of body.beneficiary) (some from)
tron_ok config tron_address_of body none = not_blank body.deposit_address

abbrev names : Option Text → Text → Bool
names none net = text_eq (codes "tron") net
names (some t) net = text_eq t net

-- What is asked of a deposit-backed request, by its network.
unfoldable pub deposit_ok : ApiConfig → (Text → Option Text) → CreateMintIntentBody → Bool
unfolding normalize_address normalize_tx_hash option_text_eq text_eq
deposit_ok config tron_address_of body =
    (if names body.network (codes "bsc")
      then bsc_ok config.bsc_pay_in body
      else names body.network (codes "tron")
        && tron_ok config tron_address_of body body.direct_from)
    && is_positive body.expected_amount_usdt

-- The row to insert; a BSC hash and addresses are stored in lower case.
unfoldable pub new_mint : Text → CreateMintIntentBody → Network → NewMint
unfolding normalize_address normalize_tx_hash
new_mint actor body tron = record {
  beneficiary = body.beneficiary;
  amount_clt = body.amount_clt;
  created_by = actor;
  client_ref = body.client_ref;
  deposit_tx_id = body.deposit_tx_id;
  expected_amount_usdt = body.expected_amount_usdt;
  deposit_address = body.deposit_address;
  derivation_index = body.derivation_index;
  direct_from = body.direct_from;
  network = tron;
}
new_mint actor body bsc = record {
  beneficiary = body.beneficiary;
  amount_clt = body.amount_clt;
  created_by = actor;
  client_ref = body.client_ref;
  deposit_tx_id = and_then body.deposit_tx_id normalize_tx_hash;
  expected_amount_usdt = body.expected_amount_usdt;
  deposit_address = and_then body.deposit_address normalize_address;
  derivation_index = body.derivation_index;
  direct_from = and_then body.direct_from normalize_address;
  network = bsc;
}

abbrev pub answer : Result MintIntent × Db → Response × Db
answer (ok i, db) = (created i, db)
answer (err e, db) = (internal_error, db)

abbrev pub actor_name : Text
actor_name = codes "initiator"

-- The id of the new intent, and the reference hashed from it.
pub record Fresh : Type 0 where
  pub id : ℕ
  pub credit_ref : Text

unfoldable pub insert_new : ℕ → Fresh → CreateMintIntentBody → Network → Db → Response × Db
unfolding create_mint_intent_on new_mint
insert_new now fresh body network db =
    answer
      (create_mint_intent_on now fresh.id fresh.credit_ref (new_mint actor_name body network) db)

-- A request without `client_ref` is not a deposit and names no network but TRON.
unfoldable pub create_manual : ℕ → Fresh → CreateMintIntentBody → Db → Response × Db
unfolding insert_new
create_manual now fresh body db =
    if names body.network (codes "tron")
    then insert_new now fresh body tron db
    else (bad_request, db)

unfoldable pub create_deposit :
    ApiConfig
    → (Text → Option Text)
    → ℕ
    → Fresh
    → CreateMintIntentBody
    → Option MintIntent
    → Db
    → Response × Db
unfolding deposit_ok insert_new
create_deposit config tron_address_of now fresh body (some i) db = (existing i, db)
create_deposit config tron_address_of now fresh body none db =
    if deposit_ok config tron_address_of body
    then insert_new now fresh body (if names body.network (codes "bsc") then bsc else tron) db
    else (bad_request, db)

-- For the `client_ref` of the request.
unfoldable pub create_by_ref :
    ApiConfig
    → (Text → Option Text)
    → ℕ
    → Fresh
    → CreateMintIntentBody
    → Option Text
    → Db
    → Response × Db
unfolding create_manual create_deposit find_by_client_ref
create_by_ref config tron_address_of now fresh body none db = create_manual now fresh body db
create_by_ref config tron_address_of now fresh body (some r) db =
    create_deposit config tron_address_of now fresh body (find_by_client_ref r db) db

unfoldable pub create_mint_intent :
    ApiConfig
    → (Text → Option Text)
    → ℕ
    → Fresh
    → Option Role
    → CreateMintIntentBody
    → Db
    → Response × Db
unfolding create_by_ref
create_mint_intent config tron_address_of now fresh none body db = (unauthorized, db)
create_mint_intent config tron_address_of now fresh (some initiator) body db =
    create_by_ref config tron_address_of now fresh body body.client_ref db
create_mint_intent config tron_address_of now fresh (some role) body db = (forbidden, db)
