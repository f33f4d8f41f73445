-- ===== src/Intents.antt =====
-- Mint and redemption intents: crates/treasury-service/src/intents.rs, with the constraints that
-- the migrations put on the two tables. A random UUID and the reference that is hashed from it
-- (`intent_ref`) are arguments.
pub mod Approval
pub mod Quote
use clutch_treasury.Base.{
  ℕ, suc, ◌+◌, Bool, true, false, ◌&&◌, ◌||◌, not, ◌==◌, Option, none, some, List, [], ◌∷◌, ◌++◌,
  if◌then◌else◌, is_some, Text, text_eq, eq_ignore_ascii_case, update, find, exists_row, length,
}
use clutch_treasury.Base.Int.{ℤ, pos, pos_part, ltb_ℤ, leb_ℤ, ◌-ℤ◌, i64_bound, neg_part}
use clutch_treasury.Store.{
  MintIntent, MintStatus, Network, tron, bsc, RedemptionIntent, RedemptionStatus, OutboxRow,
  OutboxStatus, Db,
}

pub data Error : Type 0 where
  rejected_by_database not_found wrong_status four_eyes : Error

pub data Result {ℓ} (A : Type ℓ) : Type ℓ where
  ok : A → Result A
  err : Error → Result A

abbrev pub same_text : Option Text → Option Text → Bool
same_text (some s) (some t) = text_eq s t
same_text _ _ = false

abbrev same_number : Option ℕ → Option ℕ → Bool
same_number (some m) (some n) = m == n
same_number _ _ = false

-- The UNIQUE constraints; those on a nullable column compare the rows where it is set.
abbrev pub clashes : MintIntent → MintIntent → Bool
clashes i j =
    j.id == i.id
    || text_eq j.credit_ref i.credit_ref
    || same_text j.client_ref i.client_ref
    || same_text j.deposit_tx_id i.deposit_tx_id
    || same_number j.service_fee_for i.service_fee_for

abbrev pub is_bsc : Network → Bool
is_bsc tron = false
is_bsc bsc = true

abbrev pays_itself : MintIntent → Bool
pays_itself i = elim i.direct_from [ none ↦ false | some a ↦ eq_ignore_ascii_case a i.beneficiary ]

-- The CHECK `bsc_shape`.
abbrev bsc_shape : MintIntent → Bool
bsc_shape i =
    not (is_bsc i.network)
    || pays_itself i && not (is_some i.deposit_address)
    || not (is_some i.direct_from) && is_some i.deposit_address && is_some i.derivation_index

-- The CHECK `direct_topup_shape`.
abbrev direct_topup_shape : MintIntent → Bool
direct_topup_shape i =
    not (is_some i.direct_from)
    || not (is_some i.deposit_address)
      && not (is_some i.derivation_index)
      && is_some i.deposit_tx_id

-- The CHECKs `deposit_backed_needs_expected_amount` and `deposit_backed_needs_address`.
abbrev deposit_backed_shape : MintIntent → Bool
deposit_backed_shape i =
    not (is_some i.client_ref)
    || is_some i.expected_amount_usdt && (is_some i.deposit_address || is_some i.direct_from)

abbrev pub accepts : MintIntent → List MintIntent → Bool
accepts i rows =
    deposit_backed_shape i
    && direct_topup_shape i
    && bsc_shape i
    && not (exists_row (clashes i) rows)

abbrev pub insert_mint_row : MintIntent → Db → Result MintIntent × Db
insert_mint_row i db =
    if accepts i db.mint_intents
    then (ok i, record db { mint_intents = db.mint_intents ++ i ∷ [] })
    else (err rejected_by_database, db)

-- What the caller of `create_mint_intent_on` gives.
pub record NewMint : Type 0 where
  pub beneficiary : Text
  pub amount_clt : ℤ
  pub created_by : Text
  pub client_ref : Option Text
  pub deposit_tx_id : Option Text
  pub expected_amount_usdt : Option ℤ
  pub deposit_address : Option Text
  pub derivation_index : Option ℤ
  pub direct_from : Option Text
  pub network : Network

abbrev pub new_row : ℕ → ℕ → Text → NewMint → MintIntent
new_row now id credit_ref n = record {
  id = id;
  beneficiary = n.beneficiary;
  amount_clt = pos_part n.amount_clt;
  status = MintStatus.created;
  credit_ref = credit_ref;
  created_by = n.created_by;
  approved_by = none;
  chain_tx_hash = none;
  client_ref = n.client_ref;
  deposit_tx_id = n.deposit_tx_id;
  verified_at = none;
  expected_amount_usdt = n.expected_amount_usdt;
  deposit_address = n.deposit_address;
  derivation_index = n.derivation_index;
  service_fee_clt = none;
  service_fee_for = none;
  direct_from = n.direct_from;
  fee_held_usdt = none;
  network = n.network;
  swept_at = none;
  created_at = now;
  updated_at = now;
}

-- The CHECK `amount_clt > 0` comes first, since the stored column is a natural number.
unfoldable pub create_mint_intent_on : ℕ → ℕ → Text → NewMint → Db → Result MintIntent × Db
create_mint_intent_on now id credit_ref n db =
    if leb_ℤ n.amount_clt (pos 0)
    then (err rejected_by_database, db)
    else insert_mint_row (new_row now id credit_ref n) db

unfoldable pub find_by_client_ref : Text → Db → Option MintIntent
find_by_client_ref client_ref db =
    find (λ i. same_text i.client_ref (some client_ref)) db.mint_intents

abbrev pub has_id : ℕ → MintIntent → Bool
has_id id i = i.id == id

unfoldable pub find_by_id : ℕ → Db → Option MintIntent
find_by_id id db = find (has_id id) db.mint_intents

abbrev pub is_approvable : MintStatus → Bool
is_approvable s = elim s [ MintStatus.created ↦ true | MintStatus.needs_manual ↦ true | _ ↦ false ]

abbrev pub set_approved : ℕ → Text → MintIntent → MintIntent
set_approved now by i = record i {
  status = MintStatus.approved;
  approved_by = some by;
  updated_at = now;
}

abbrev pub reopen : ℕ → OutboxRow → OutboxRow
reopen now o = record o {
  status = OutboxStatus.pending;
  attempts = 0;
  next_attempt_at = now;
  last_error = none;
}

abbrev pub new_outbox_row : ℕ → ℕ → ℕ → OutboxRow
new_outbox_row now serial id = record {
  id = serial;
  intent_id = id;
  status = OutboxStatus.pending;
  attempts = 0;
  next_attempt_at = now;
  last_error = none;
}

abbrev pub for_intent : ℕ → OutboxRow → Bool
for_intent id o = o.intent_id == id

-- `INSERT INTO chain_outbox … ON CONFLICT (intent_id) DO UPDATE`. The serial is one past the
-- number of rows, since no row is ever deleted.
unfoldable pub enqueue : ℕ → ℕ → List OutboxRow → List OutboxRow
enqueue now id rows =
    if exists_row (for_intent id) rows
    then update (for_intent id) (reopen now) rows
    else rows ++ new_outbox_row now (suc (length rows)) id ∷ []

-- `approve_mint_intent`, for the row that it locked.
unfoldable pub approve_row : ℕ → ℕ → Text → Option MintIntent → Db → Result MintIntent × Db
unfolding enqueue
approve_row now id approved_by none db = (err not_found, db)
approve_row now id approved_by (some i) db =
    if not (is_approvable i.status)
    then (err wrong_status, db)
    else if text_eq i.created_by approved_by
    then (err four_eyes, db)
    else (
      ok (set_approved now approved_by i),
      record db {
        mint_intents = update (has_id id) (set_approved now approved_by) db.mint_intents;
        chain_outbox = enqueue now id db.chain_outbox;
      },
    )

unfoldable pub approve_mint_intent : ℕ → ℕ → Text → Db → Result MintIntent × Db
unfolding approve_row find_by_id
approve_mint_intent now id approved_by db = approve_row now id approved_by (find_by_id id db) db

-- `checked_sub`, then `None` unless something is left.
unfoldable pub net_payout : ℤ → ℤ → Option ℤ
net_payout amount_clt fee_usdt =
    let net = amount_clt -ℤ fee_usdt in
    if leb_ℤ (pos i64_bound) net then none else if leb_ℤ net (pos 0) then none else some net

unfoldable pub find_redemption_by_id : ℕ → Db → Option RedemptionIntent
find_redemption_by_id id db = find (λ r. r.id == id) db.redemption_intents

abbrev redemption_clashes : ℕ → Text → RedemptionIntent → Bool
redemption_clashes id redemption_ref r = r.id == id || text_eq r.redemption_ref redemption_ref

-- The CHECKs are `amount_clt > 0` and `payout_within_burn`.
abbrev payout_within_burn : ℤ → ℤ → Bool
payout_within_burn amount payout =
    ltb_ℤ (pos 0) amount && ltb_ℤ (pos 0) payout && leb_ℤ payout amount

unfoldable pub create_redemption_intent :
    ℕ → ℕ → Text → Text → Text → ℤ → ℤ → Db → Result RedemptionIntent × Db
create_redemption_intent now id redemption_ref redeemer payout_address amount payout db =
    if payout_within_burn amount payout
      && not (exists_row (redemption_clashes id redemption_ref) db.redemption_intents)
    then (let r : RedemptionIntent = record {
      id = id;
      redeemer_address = redeemer;
      payout_address = payout_address;
      amount_clt = pos_part amount;
      payout_amount_usdt = pos_part payout;
      status = RedemptionStatus.created;
      redemption_ref = redemption_ref;
      burn_tx_hash = none;
      payout_ref = none;
      payout_submitted_at = none;
      payout_trace_id = none;
      payout_permit_nonce = none;
      payout_permit_deadline = none;
      created_at = now;
      updated_at = now;
    } in
        (ok r, record db { redemption_intents = db.redemption_intents ++ r ∷ [] }))
    else (err rejected_by_database, db)
