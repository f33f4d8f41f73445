-- ===== src/Verifier/Client.antt =====
-- The client of the TRON node: crates/treasury-service/src/tron_verifier.rs, `TronClient` and its
-- answers. What the node sends back is an argument: `none` is a request that failed, whatever the
-- reason, and a JSON body is the record of the fields that are read.
use clutch_treasury.Base.{
  ℕ, zero, suc, Bool, true, false, ◌&&◌, ◌||◌, not, Option, none, some, List, [], ◌∷◌, ◌++◌,
  if◌then◌else◌, ltb, length, is_some, Text, codes, text_eq, eq_ignore_ascii_case, exists_row,
  parse_i64, parse_hex_i64, trim_zeros,
}
use clutch_treasury.Base.Int.{ℤ, pos, leb_ℤ, saturating_add}

pub record Trc20Transfer : Type 0 where
  pub transaction_id : Text
  pub to : Text
  pub from : Text
  pub value : Text
  -- `token_info.address`.
  pub token : Text
  pub event_type : Text
  pub block_timestamp : ℤ

-- A parsed `Trc20TransfersResponse`.
pub record Page : Type 0 where
  pub data_rows : List Trc20Transfer
  pub fingerprint : Option Text

-- A parsed `SolidityTransaction`; `ret` holds each entry's `contractRet`, none where it is absent
-- or null.
pub record SolidityTransaction : Type 0 where
  pub tx_id : Option Text
  pub ret : Option (List Text)

-- What the node answers: the page of an address from a time on at a cursor, a transaction, the
-- first word of `balanceOf`.
pub record TronNode : Type 0 where
  pub page : Text → Option ℤ → Option Text → Option Page
  pub transaction : Text → Option SolidityTransaction
  pub balance_word : Text → Option Text

abbrev pub trc20_page_limit : ℕ
trc20_page_limit = 200

abbrev pub max_pages : ℕ
max_pages = 10

-- An empty cursor counts as none.
abbrev pub cursor_of : Option Text → Option Text
cursor_of (some (c ∷ t)) = some (c ∷ t)
cursor_of _ = none

-- The page is short, or no cursor follows it.
abbrev pub is_last : Page → Bool
is_last p = ltb (length p.data_rows) trc20_page_limit || not (is_some (cursor_of p.fingerprint))

-- The loop of `trc20_transfers` with some pages left: `all_rows` are the rows so far.
unfoldable pub pages_from :
    (Option Text → Option Page) → ℕ → Option Text → List Trc20Transfer → Option (List Trc20Transfer)
pages_from page zero cursor all_rows = none
pages_from page (suc n) cursor all_rows = elim (page cursor) [
  | none ↦ none
  | some p ↦
      let rest = pages_from page n (cursor_of p.fingerprint) (all_rows ++ p.data_rows) in
      if is_last p then some (all_rows ++ p.data_rows) else rest
]

unfoldable pub trc20_transfers : TronNode → Text → Option ℤ → Option (List Trc20Transfer)
unfolding pages_from
trc20_transfers node address min_timestamp_ms =
    pages_from (node.page address min_timestamp_ms) max_pages none []

abbrev pub same_tx_id : Text → Option Text → Bool
same_tx_id tx_id none = false
same_tx_id tx_id (some got) = eq_ignore_ascii_case got tx_id

abbrev confirmed_in : Text → Option SolidityTransaction → Option Bool
confirmed_in tx_id none = none
confirmed_in tx_id (some t) = some (same_tx_id tx_id t.tx_id)

unfoldable pub transaction_confirmed : TronNode → Text → Option Bool
unfolding eq_ignore_ascii_case
transaction_confirmed node tx_id = confirmed_in tx_id (node.transaction tx_id)

abbrev first_ret : Option (List Text) → Option Text
first_ret (some (r ∷ rs)) = some r
first_ret _ = none

abbrev says_success : Option Text → Bool
says_success none = false
says_success (some r) = text_eq r (codes "SUCCESS")

abbrev succeeded_in : Text → Option SolidityTransaction → Option Bool
succeeded_in tx_id none = none
succeeded_in tx_id (some t) = some (same_tx_id tx_id t.tx_id && says_success (first_ret t.ret))

unfoldable pub transfer_succeeded : TronNode → Text → Option Bool
unfolding eq_ignore_ascii_case text_eq
transfer_succeeded node tx_id = succeeded_in tx_id (node.transaction tx_id)

abbrev ret_in : Text → Option SolidityTransaction → Option (Option Text)
ret_in tx_id none = none
ret_in tx_id (some t) = some (if same_tx_id tx_id t.tx_id then first_ret t.ret else none)

unfoldable pub payout_contract_ret : TronNode → Text → Option (Option Text)
unfolding eq_ignore_ascii_case
payout_contract_ret node tx_id = ret_in tx_id (node.transaction tx_id)

abbrev pub trc20_transfer_event : Text
trc20_transfer_event = codes "Transfer"

abbrev pub is_value : Text → ℤ → Bool
is_value value amount = elim (parse_i64 value) [
  | none ↦ false
  | some v ↦ leb_ℤ v amount && leb_ℤ amount v
]

unfoldable pub is_payment : Text → Text → Text → Text → ℤ → Trc20Transfer → Bool
unfolding eq_ignore_ascii_case text_eq parse_i64
is_payment tx_id from to usdt_contract amount t =
    eq_ignore_ascii_case t.transaction_id tx_id
    && text_eq t.event_type trc20_transfer_event
    && text_eq t.from from
    && text_eq t.to to
    && text_eq t.token usdt_contract
    && is_value t.value amount

abbrev any_payment : Text → Text → Text → Text → ℤ → Option (List Trc20Transfer) → Option Bool
any_payment tx_id from to usdt_contract amount none = none
any_payment tx_id from to usdt_contract amount (some ts) =
    some (exists_row (is_payment tx_id from to usdt_contract amount) ts)

unfoldable pub confirmed_transfer : TronNode → Text → Text → Text → Text → ℤ → ℤ → Option Bool
unfolding trc20_transfers is_payment
confirmed_transfer node tx_id from to usdt_contract amount since_ms =
    any_payment tx_id from to usdt_contract amount (trc20_transfers node from (some since_ms))

abbrev read_hex : Text → Option ℤ
read_hex [] = some (pos 0)
read_hex (c ∷ t) = parse_hex_i64 (c ∷ t)

abbrev balance_in : Option Text → Option ℤ
balance_in none = none
balance_in (some word) = read_hex (trim_zeros word)

unfoldable pub get_custody_balance : TronNode → Text → Option ℤ
unfolding trim_zeros parse_hex_i64
get_custody_balance node address = balance_in (node.balance_word address)

abbrev with_balance : Option ℤ → Option (List ℤ) → Option (List ℤ)
with_balance none rest = none
with_balance (some b) none = none
with_balance (some b) (some bs) = some (b ∷ bs)

-- `float_balances`: one that cannot be read fails the walk.
unfoldable pub float_balances : (Text → Option ℤ) → List Text → Option (List ℤ)
float_balances balance [] = some []
float_balances balance (a ∷ rest) = with_balance (balance a) (float_balances balance rest)

unfoldable pub saturating_sum : ℤ → List ℤ → ℤ
unfolding saturating_add
saturating_sum total [] = total
saturating_sum total (b ∷ bs) = saturating_sum (saturating_add total b) bs

unfoldable pub eq_balances : List ℤ → List ℤ → Bool
eq_balances [] [] = true
eq_balances [] (b ∷ bs) = false
eq_balances (a ∷ rest) [] = false
eq_balances (a ∷ rest) (b ∷ bs) = leb_ℤ a b && leb_ℤ b a && eq_balances rest bs

-- The balances of custody, then of the floats, as one of the two readings gives them.
abbrev pub reading : (Text → Option ℤ) → Text → List Text → Option (List ℤ)
reading balance main floats = with_balance (balance main) (float_balances balance floats)

abbrev add_unswept : List ℤ → Option (List ℤ) → Option ℤ
add_unswept first none = none
add_unswept [] (some bs) = none
add_unswept (main ∷ floats) (some bs) = some (saturating_sum (saturating_sum main floats) bs)

abbrev if_unmoved : Option (List ℤ) → Option (List ℤ) → Option (List ℤ) → Option ℤ
if_unmoved (some first) unswept (some last) =
    if eq_balances last first then add_unswept first unswept else none
if_unmoved _ _ _ = none

-- `get_reserve_balance`. A balance can change between two reads, so each of the three walks has
-- its own node: before, during and after.
unfoldable pub get_reserve_balance :
    TronNode → TronNode → TronNode → Text → List Text → List Text → Option ℤ
unfolding get_custody_balance float_balances saturating_sum eq_balances
get_reserve_balance before during after main_address unswept float_addresses =
    if_unmoved (reading (get_custody_balance before) main_address float_addresses)
      (float_balances (get_custody_balance during) unswept)
      (reading (get_custody_balance after) main_address float_addresses)
