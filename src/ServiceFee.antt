-- ===== src/ServiceFee.antt =====
-- The operator's fee on top-ups: crates/treasury-service/src/service_fee.rs.
pub mod Amount
pub mod Split
use clutch_treasury.Base.{
  ℕ, suc, ◌+◌, ◌-◌, ◌*◌, ◌/◌, ◌%◌, Bool, true, false, ◌&&◌, ◌||◌, not, ◌==◌, Option, none, some,
  List, [], ◌∷◌, ◌++◌, if◌then◌else◌, is_some, Text, codes, text_eq, to_ascii_lowercase,
  eq_ignore_ascii_case, update, find, where_rows, exists_row, length,
}
use clutch_treasury.Base.Int.{ℤ, pos, pos_part, ltb_ℤ, leb_ℤ, ◌-ℤ◌, as_i64}
use clutch_treasury.Store.{MintIntent, MintStatus, tron, Db}
use clutch_treasury.Breakers.{is_authorised}
use clutch_treasury.Watcher.{eq_ℤ}
use clutch_treasury.Intents.{find_by_id, has_id, accepts, new_outbox_row, for_intent}

abbrev max_ℤ : ℤ → ℤ → ℤ
max_ℤ a b = if ltb_ℤ a b then b else a

-- `minted * bps / 10_000`, for a positive `minted`.
unfoldable pub share : ℕ → ℕ → ℤ
unfolding as_i64
share minted bps = as_i64 (minted * bps / 10000)

unfoldable pub service_fee : ℤ → ℕ → ℤ → ℤ
unfolding share
service_fee minted bps min_fee =
    if bps == 0 || leb_ℤ minted (pos 0)
    then pos 0
    else (let fee = max_ℤ (share (pos_part minted) bps) min_fee in
        if leb_ℤ minted fee then pos 0 else fee)

pub record Settings : Type 0 where
  pub bps : ℕ
  pub min_clt : ℤ
  pub address : Text

-- `CREATED_BY`, and who approves the fee's intent.
abbrev pub fee_created_by : Text
fee_created_by = codes "service-fee"

abbrev fee_approved_by : Text
fee_approved_by = codes "tron-verifier"

-- The intent that mints the fee. Its id and the reference hashed from it are arguments.
abbrev pub fee_intent : ℕ → Settings → ℕ → ℕ → Text → ℕ → MintIntent
fee_intent now settings intent_id fee_id fee_ref fee = record {
  id = fee_id;
  beneficiary = settings.address;
  amount_clt = fee;
  status = MintStatus.approved;
  credit_ref = fee_ref;
  created_by = fee_created_by;
  approved_by = some fee_approved_by;
  chain_tx_hash = none;
  client_ref = none;
  deposit_tx_id = none;
  verified_at = some now;
  expected_amount_usdt = none;
  deposit_address = none;
  derivation_index = none;
  service_fee_clt = none;
  service_fee_for = some intent_id;
  direct_from = none;
  fee_held_usdt = none;
  network = tron;
  swept_at = none;
  created_at = now;
  updated_at = now;
}

abbrev pub charge : ℤ → MintIntent → MintIntent
charge fee i = record i {
  amount_clt = pos_part (pos i.amount_clt -ℤ fee);
  service_fee_clt = some (pos_part fee);
}

-- An earlier deposit of the same beneficiary that mints or minted.
abbrev pub is_earlier : MintIntent → MintIntent → Bool
is_earlier i j =
    eq_ignore_ascii_case j.beneficiary i.beneficiary
    && is_some j.client_ref
    && not (j.id == i.id)
    && is_authorised j.status

-- What `split_off` does once a fee is to be taken; a row that the database refuses aborts the
-- caller's transaction, which is `none`.
unfoldable pub take_fee : ℕ → Settings → MintIntent → ℕ → Text → ℤ → Db → Option (ℤ × Db)
take_fee now settings i fee_id fee_ref fee db =
    let charged = record db { mint_intents = update (has_id i.id) (charge fee) db.mint_intents } in
    let row = fee_intent now settings i.id fee_id fee_ref (pos_part fee) in
    if leb_ℤ fee (pos 0)
      || not (accepts row charged.mint_intents)
      || exists_row (for_intent fee_id) charged.chain_outbox
    then none
    else some (
      fee,
      record charged {
        mint_intents = charged.mint_intents ++ row ∷ [];
        chain_outbox =
            charged.chain_outbox
            ++ new_outbox_row now (suc (length charged.chain_outbox)) fee_id ∷ [];
      },
    )

abbrev pub fee_of : Settings → MintIntent → ℤ
fee_of settings i = service_fee (pos i.amount_clt) settings.bps settings.min_clt

unfoldable pub split_found : ℕ → Settings → Option MintIntent → ℕ → Text → Db → Option (ℤ × Db)
unfolding service_fee take_fee
split_found now settings none fee_id fee_ref db = none
split_found now settings (some i) fee_id fee_ref db =
    if text_eq (to_ascii_lowercase i.beneficiary) settings.address
    then some (pos 0, db)
    else if not (exists_row (is_earlier i) db.mint_intents)
    then some (pos 0, db)
    else if eq_ℤ (fee_of settings i) (pos 0)
    then some (pos 0, db)
    else take_fee now settings i fee_id fee_ref (fee_of settings i) db

unfoldable pub split_off : ℕ → Settings → ℕ → ℕ → Text → Db → Option (ℤ × Db)
unfolding split_found find_by_id
split_off now settings intent_id fee_id fee_ref db =
    split_found now settings (find_by_id intent_id db) fee_id fee_ref db
