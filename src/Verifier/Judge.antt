-- ===== src/Verifier/Judge.antt =====
-- What a verified deposit may do: crates/treasury-service/src/tron_verifier.rs, `Verdict`,
-- `direct_verdict`, `gasfree_verdict` and `record_account`. Why a deposit waits is only logged. The
-- signer's answer and the statements that fail are arguments.
use clutch_treasury.Base.{
  ℕ, Bool, false, ◌&&◌, ◌||◌, not, Option, none, some, List, [], ◌∷◌, ◌++◌, if◌then◌else◌, is_some,
  Text, text_eq, option_text_eq, find, exists_row,
}
use clutch_treasury.Base.Int.{ℤ, ltb_ℤ}
use clutch_treasury.Store.{
  MintIntent, GasfreeAccount, Db, Reason, own_address, own_deposit_address, direct_below_minimum,
  unmovable, gasfree_below_minimum, fee_takes_all, p1, tron_verifier, gasfree_disagrees,
}
use clutch_treasury.Ledger.{alert_once}
use clutch_treasury.Watcher.{eq_ℤ}
use clutch_treasury.GasfreeRail.{
  DepositMint, mint, below_minimum, nothing_to_mint, deposit_mint, fee_to_hold,
}
use clutch_treasury.Verifier.Evaluate.{GasfreeSettings, TronConfig, Addresses, gasfree_float}

pub data Verdict : Type 0 where
  approve : Option ℤ → Verdict
  hold : ℤ → Reason → Verdict
  reject : Reason → Verdict
  wait : Verdict

-- `IndexAddresses`, the signer's answer for an index.
pub record IndexAddresses : Type 0 where
  pub plain : Text
  pub gasfree : Option Text

-- The statements of the handling of one intent that the database fails.
pub record Faults : Type 0 where
  pub known_read : Bool
  pub account_insert : Bool
  pub account_read : Bool
  pub backfill : Bool
  pub approval : Bool
  pub rejection : Bool

abbrev pub at_address : Text → Option Text → Bool
at_address address none = false
at_address address (some a) = text_eq a address

abbrev deposit_at : Text → MintIntent → Bool
deposit_at address i = at_address address i.deposit_address

abbrev account_at : Text → GasfreeAccount → Bool
account_at address a = text_eq a.gasfree_address address || text_eq a.owner_address address

-- The two EXISTS of `direct_verdict`.
abbrev pub is_known : Text → Db → Bool
is_known from db =
    exists_row (deposit_at from) db.mint_intents || exists_row (account_at from) db.gasfree_accounts

abbrev pub is_ours : TronConfig → Addresses → Text → Bool
is_ours config addresses from =
    text_eq config.custody_tron_address from
    || text_eq config.payout_float_address from
    || at_address from (gasfree_float config addresses)

-- Below the minimum deposit it is held, with GasFree on.
abbrev direct_minimum : Option GasfreeSettings → Text → ℤ → Verdict
direct_minimum none from observed = approve (some observed)
direct_minimum (some settings) from observed =
    if ltb_ℤ observed settings.min_deposit_usdt
    then hold observed (direct_below_minimum from)
    else approve (some observed)

unfoldable pub direct_verdict : Faults → TronConfig → Addresses → Text → ℤ → Db → Verdict
unfolding gasfree_float text_eq
direct_verdict faults config addresses from observed db =
    if is_ours config addresses from
    then reject (own_address from)
    else if faults.known_read
    then wait
    else if is_known from db
    then reject (own_deposit_address from)
    else direct_minimum config.gasfree from observed

abbrev pub has_index : ℤ → GasfreeAccount → Bool
has_index index a = eq_ℤ a.derivation_index index

abbrev pub new_account : ℤ → Text → Text → GasfreeAccount
new_account index gasfree_address owner = record {
  derivation_index = index;
  gasfree_address = gasfree_address;
  owner_address = owner;
  first_transfer_at = none;
  pending_trace_id = none;
  pending_nonce = none;
  pending_deadline = none;
  pending_value_usdt = none;
  pending_requested_at = none;
}

-- The INSERT of `record_account`; `none` where the database refuses it.
unfoldable pub insert_account :
    Faults → ℤ → Text → Text → List GasfreeAccount → Option (List GasfreeAccount)
unfolding text_eq
insert_account faults index gasfree_address owner rows =
    if faults.account_insert
    then none
    else if exists_row (has_index index) rows
    then some rows
    else if exists_row (λ a. text_eq a.gasfree_address gasfree_address) rows
    then none
    else some (rows ++ new_account index gasfree_address owner ∷ [])

abbrev seen_in : Option GasfreeAccount → Option Bool
seen_in none = none
seen_in (some a) = some (is_some a.first_transfer_at)

abbrev pub read_account : Faults → ℤ → Text → Db → Option (List GasfreeAccount) → Option Bool × Db
read_account faults index gasfree_address db none = (none, db)
read_account faults index gasfree_address db (some rows) =
    let db' = record db { gasfree_accounts = rows } in
    if faults.account_read then (none, db') else (
      seen_in (find (λ a. has_index index a && text_eq a.gasfree_address gasfree_address) rows),
      db',
    )

-- `none` is the error, which the caller only waits on.
unfoldable pub record_account : Faults → ℤ → Text → Text → Db → Option Bool × Db
unfolding insert_account text_eq
record_account faults index gasfree_address owner db =
    read_account faults index gasfree_address db
      (insert_account faults index gasfree_address owner db.gasfree_accounts)

abbrev pub capped : Text → DepositMint → Verdict
capped address (mint cap) = approve (some cap)
capped address (below_minimum cap) = hold cap (gasfree_below_minimum address)
capped address nothing_to_mint = reject (fee_takes_all address)

-- The end of `gasfree_verdict`, once the account is recorded.
unfoldable pub size_mint : GasfreeSettings → Text → ℤ → Option Bool × Db → Verdict × Db
unfolding deposit_mint fee_to_hold
size_mint settings address observed (none, db) = (wait, db)
size_mint settings address observed (some seen, db) = (
  capped address (
      deposit_mint observed
        (fee_to_hold seen settings.activate_fee_max_usdt settings.transfer_fee_max_usdt)
        settings.min_deposit_usdt),
  db,
)

abbrev pub own_account :
    Faults → ℕ → GasfreeSettings → ℤ → IndexAddresses → Text → ℤ → Db → Option Text → Verdict × Db
own_account faults now settings index answer_of address observed db none = (wait, db)
own_account faults now settings index answer_of address observed db (some ours) =
    if not (option_text_eq answer_of.gasfree (some ours))
    then (
      wait,
      alert_once 3600 now p1 tron_verifier (gasfree_disagrees index answer_of.gasfree ours) db,
    )
    else if not (text_eq address ours)
    then (reject (unmovable address), db)
    else size_mint settings address observed
        (record_account faults index address answer_of.plain db)

abbrev pub classify :
    Faults
    → ℕ
    → GasfreeSettings
    → Addresses
    → ℤ
    → Text
    → ℤ
    → Db
    → Option IndexAddresses
    → Verdict × Db
classify faults now settings addresses index address observed db none = (wait, db)
classify faults now settings addresses index address observed db (some a) =
    if text_eq address a.plain
    then (approve none, db)
    else own_account faults now settings index a address observed db
        (addresses.gasfree_address a.plain)

abbrev text_or_empty : Option Text → Text
text_or_empty none = []
text_or_empty (some t) = t

abbrev pub at_derivation :
    Faults
    → ℕ
    → GasfreeSettings
    → Addresses
    → (ℤ → Option IndexAddresses)
    → MintIntent
    → ℤ
    → Db
    → Option ℤ
    → Verdict × Db
at_derivation faults now settings addresses signer i observed db none = (wait, db)
at_derivation faults now settings addresses signer i observed db (some index) =
    classify faults now settings addresses index (text_or_empty i.deposit_address) observed db
      (signer index)

unfoldable pub gasfree_verdict :
    Faults
    → ℕ
    → GasfreeSettings
    → Addresses
    → (ℤ → Option IndexAddresses)
    → MintIntent
    → ℤ
    → Db
    → Verdict × Db
unfolding alert_once record_account size_mint text_eq option_text_eq
gasfree_verdict faults now settings addresses signer i observed db =
    at_derivation faults now settings addresses signer i observed db i.derivation_index
