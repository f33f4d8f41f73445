-- ===== src/Verifier/Evaluate.antt =====
-- The evidence for a deposit on TRON: crates/treasury-service/src/tron_verifier.rs,
-- `check_transfer`, `evaluate` and `evaluate_direct`. Why a deposit waits is only logged, so a
-- transient outcome carries no reason. Base58 and hashing are arguments.
use clutch_treasury.Base.{
  ℕ, ◌+◌, ◌*◌, Bool, false, ◌&&◌, ◌||◌, not, ◌==◌, Option, none, some, List, [], ◌∷◌, if◌then◌else◌,
  length, is_some, Text, text_eq, option_text_eq, find, parse_i64, hex_digit,
}
use clutch_treasury.Base.Int.{ℤ, pos, sub_ℕ, leb_ℤ}
use clutch_treasury.Store.{
  MintIntent, Reason, no_value_moved, wrong_recipient, wrong_contract, amount_below,
  not_yet_confirmed, not_the_beneficiary, no_transaction, not_the_sender,
}
use clutch_treasury.Bsc.{all_hex, strip_prefix}
use clutch_treasury.Verifier.Client.{
  Trc20Transfer, TronNode, trc20_transfers, transaction_confirmed, trc20_transfer_event,
}

-- The fields of `gasfree::Settings` that the service reads.
pub record GasfreeSettings : Type 0 where
  pub activate_fee_max_usdt : ℤ
  pub transfer_fee_max_usdt : ℤ
  pub min_deposit_usdt : ℤ

-- The settings that the verification of a TRON deposit reads.
pub record TronConfig : Type 0 where
  pub usdt_contract : Text
  pub deposit_match_window_hours : ℕ
  pub direct_topups_enabled : Bool
  pub custody_tron_address : Text
  pub payout_float_address : Text
  pub gasfree : Option GasfreeSettings

-- Address arithmetic that ends in hashes: the GasFree account of a plain address, and base58check.
pub record Addresses : Type 0 where
  pub gasfree_address : Text → Option Text
  pub base58check : List ℕ → Text

pub data Evidence : Type 0 where
  pass : Text → ℤ → Evidence
  hard_mismatch : Reason → Evidence
  transient : Evidence

-- `AppConfig::gasfree_float`.
unfoldable pub gasfree_float : TronConfig → Addresses → Option Text
gasfree_float config addresses = elim config.gasfree [
  | none ↦ none
  | some settings ↦ addresses.gasfree_address config.payout_float_address
]

pub data Check : Type 0 where
  observed : ℤ → Check
  fails : Reason → Check

abbrev pub value_or : ℤ → Text → ℤ
value_or default value = elim (parse_i64 value) [ none ↦ default | some v ↦ v ]

unfoldable pub check_transfer : Trc20Transfer → Bool → Text → Text → ℤ → Check
unfolding text_eq parse_i64
check_transfer t confirmed deposit_address usdt_contract expected =
    if not (text_eq t.event_type trc20_transfer_event)
    then fails (no_value_moved t.transaction_id)
    else if not (text_eq t.to deposit_address)
    then fails (wrong_recipient t.transaction_id)
    else if not (text_eq t.token usdt_contract)
    then fails (wrong_contract t.transaction_id)
    else if not (leb_ℤ expected (value_or (pos 0) t.value))
    then fails (amount_below t.transaction_id)
    else if not confirmed
    then fails not_yet_confirmed
    else observed (value_or (pos 0) t.value)

-- The `match` on its result: the missing confirmation waits, any other failure is hard.
abbrev pub evidence_of : Text → Check → Evidence
evidence_of tx_id (observed amount) = pass tx_id amount
evidence_of tx_id (fails not_yet_confirmed) = transient
evidence_of tx_id (fails reason) = hard_mismatch reason

-- A read of the node that failed decides nothing.
abbrev pub checked : Trc20Transfer → Option Bool → Text → Text → Text → ℤ → Evidence
checked t none tx_id address usdt_contract expected = transient
checked t (some confirmed) tx_id address usdt_contract expected =
    evidence_of tx_id (check_transfer t confirmed address usdt_contract expected)

-- The window's start, in milliseconds.
abbrev pub earliest_ms : TronConfig → MintIntent → ℤ
earliest_ms config i = sub_ℕ (1000 * i.created_at) (3600000 * config.deposit_match_window_hours)

abbrev pub has_tx_id : Text → Trc20Transfer → Bool
has_tx_id tx_id t = text_eq t.transaction_id tx_id

-- The path of a recorded hash.
unfoldable pub by_tx_id : TronNode → Text → Text → Text → ℤ → Option Trc20Transfer → Evidence
unfolding check_transfer transaction_confirmed
by_tx_id node address usdt_contract tx_id expected none = transient
by_tx_id node address usdt_contract tx_id expected (some t) =
    checked t (transaction_confirmed node tx_id) tx_id address usdt_contract expected

abbrev at_least : ℤ → Option ℤ → Bool
at_least expected none = false
at_least expected (some v) = leb_ℤ expected v

unfoldable pub is_candidate : Text → Text → ℤ → ℤ → Trc20Transfer → Bool
unfolding text_eq parse_i64
is_candidate address usdt_contract expected earliest t =
    text_eq t.event_type trc20_transfer_event
    && text_eq t.to address
    && text_eq t.token usdt_contract
    && at_least expected (parse_i64 t.value)
    && leb_ℤ earliest t.block_timestamp

-- The fallback, where no hash was recorded.
unfoldable pub by_amount : ℤ → Option Trc20Transfer → Evidence
unfolding parse_i64
by_amount expected none = transient
by_amount expected (some t) = pass t.transaction_id (value_or expected t.value)

abbrev pub match_transfers :
    TronNode → TronConfig → MintIntent → Text → ℤ → Option Text → List Trc20Transfer → Evidence
match_transfers node config i address expected none transfers =
    by_amount expected
      (find (is_candidate address config.usdt_contract expected (earliest_ms config i)) transfers)
match_transfers node config i address expected (some tx_id) transfers =
    by_tx_id node address config.usdt_contract tx_id expected (find (has_tx_id tx_id) transfers)

abbrev pub match_listed :
    TronNode
    → TronConfig
    → MintIntent
    → Text
    → ℤ
    → Option Text
    → Option (List Trc20Transfer)
    → Evidence
match_listed node config i address expected deposit_tx_id none = transient
match_listed node config i address expected deposit_tx_id (some transfers) =
    match_transfers node config i address expected deposit_tx_id transfers

-- The request is bounded by the window only where the fallback will run.
abbrev pub request_from : TronConfig → MintIntent → Option Text → Option ℤ
request_from config i deposit_tx_id =
    if is_some deposit_tx_id then none else some (earliest_ms config i)

unfoldable pub evaluate_address : TronNode → TronConfig → MintIntent → ℤ → Option Text → Evidence
unfolding trc20_transfers by_tx_id by_amount is_candidate text_eq
evaluate_address node config i expected none = transient
evaluate_address node config i expected (some address) =
    match_listed node config i address expected i.deposit_tx_id
      (trc20_transfers node address (request_from config i i.deposit_tx_id))

abbrev byte_of : Option ℕ → Option ℕ → Option (List ℕ) → Option (List ℕ)
byte_of (some a) (some b) (some t) = some ((16 * a + b) ∷ t)
byte_of _ _ _ = none

-- `hex::decode`.
unfoldable pub hex_decode : Text → Option (List ℕ)
hex_decode [] = some []
hex_decode (a ∷ []) = none
hex_decode (a ∷ b ∷ t) = byte_of (hex_digit a) (hex_digit b) (hex_decode t)

abbrev encoded : Addresses → Option (List ℕ) → Option Text
encoded addresses none = none
encoded addresses (some bytes) = some (addresses.base58check (65 ∷ bytes))

abbrev without_prefix : Text → Text
without_prefix address = elim (strip_prefix address) [ none ↦ address | some hex ↦ hex ]

unfoldable pub tron_address_of : Addresses → Text → Option Text
unfolding hex_decode all_hex
tron_address_of addresses clt_address =
    let hex = without_prefix clt_address in
    if not (length hex == 40) || not (all_hex hex) then none else encoded addresses (hex_decode hex)

-- The transfer of a direct top-up: its sender comes first.
unfoldable pub by_sender :
    TronNode → Text → Text → Text → Text → ℤ → Option Trc20Transfer → Evidence
unfolding by_tx_id text_eq
by_sender node pay_to usdt_contract from tx_id expected none = transient
by_sender node pay_to usdt_contract from tx_id expected (some t) =
    if not (text_eq t.from from)
    then hard_mismatch (not_the_sender tx_id)
    else by_tx_id node pay_to usdt_contract tx_id expected (some t)

abbrev pub sender_listed :
    TronNode → Text → Text → Text → Text → ℤ → Option (List Trc20Transfer) → Evidence
sender_listed node pay_to usdt_contract from tx_id expected none = transient
sender_listed node pay_to usdt_contract from tx_id expected (some transfers) =
    by_sender node pay_to usdt_contract from tx_id expected (find (has_tx_id tx_id) transfers)

abbrev pub direct_hash :
    TronNode → TronConfig → MintIntent → ℤ → Text → Text → Option Text → Evidence
direct_hash node config i expected from pay_to none = hard_mismatch no_transaction
direct_hash node config i expected from pay_to (some tx_id) =
    sender_listed node pay_to config.usdt_contract from tx_id expected
      (trc20_transfers node pay_to (some (earliest_ms config i)))

abbrev pub direct_to :
    TronNode → TronConfig → Addresses → MintIntent → ℤ → Text → Option Text → Evidence
direct_to node config addresses i expected from none = transient
direct_to node config addresses i expected from (some pay_to) =
    if not (option_text_eq (tron_address_of addresses i.beneficiary) (some from))
    then hard_mismatch (not_the_beneficiary from)
    else direct_hash node config i expected from pay_to i.deposit_tx_id

unfoldable pub evaluate_direct :
    TronNode → TronConfig → Addresses → MintIntent → ℤ → Text → Evidence
unfolding trc20_transfers by_sender gasfree_float tron_address_of text_eq option_text_eq
evaluate_direct node config addresses i expected from =
    if not config.direct_topups_enabled
    then transient
    else direct_to node config addresses i expected from (gasfree_float config addresses)

abbrev pub evaluate_expected :
    TronNode → TronConfig → Addresses → MintIntent → Option Text → Option ℤ → Evidence
evaluate_expected node config addresses i direct_from none = transient
evaluate_expected node config addresses i none (some expected) =
    evaluate_address node config i expected i.deposit_address
evaluate_expected node config addresses i (some from) (some expected) =
    evaluate_direct node config addresses i expected from

unfoldable pub evaluate : TronNode → TronConfig → Addresses → MintIntent → Evidence
unfolding evaluate_address evaluate_direct
evaluate node config addresses i =
    evaluate_expected node config addresses i i.direct_from i.expected_amount_usdt
