-- ===== src/Bsc.antt =====
-- USDT on BNB Smart Chain: addresses, units and sums of crates/bsc/src/lib.rs. A `u128` is a
-- number below 2 ^ 128, and text is its bytes.
pub mod Units
pub mod Words
use clutch_treasury.Base.{
  ℕ, zero, suc, ◌+◌, ◌-◌, ◌/◌, ◌^◌, Bool, true, false, ◌&&◌, ◌||◌, not, ◌==◌, ◌%◌, Option, none,
  some, List, [], ◌∷◌, ◌++◌, if◌then◌else◌, ltb, leb, length, Text, codes, text_eq,
  to_ascii_lowercase, starts_with, eq_ignore_ascii_case, unsigned_hex, parse_hex, trim_zeros,
}
use clutch_treasury.Base.Int.{i64_bound}

-- 2 ^ 128.
abbrev pub u128_mod : ℕ
u128_mod = 340282366920938463463374607431768211456

pub record Transfer : Type 0 where
  pub tx_hash : Text
  pub log_index : ℕ
  pub block_number : ℕ
  pub contract : Text
  pub from : Text
  pub to : Text
  pub value : ℕ

abbrev in_range : ℕ → ℕ → ℕ → Bool
in_range lo hi c = leb lo c && leb c hi

-- `is_ascii_hexdigit`: 0-9, A-F, a-f.
abbrev pub is_hex : ℕ → Bool
is_hex c = in_range 48 57 c || in_range 65 70 c || in_range 97 102 c

unfoldable pub all_hex : Text → Bool
all_hex [] = true
all_hex (c ∷ t) = is_hex c && all_hex t

-- What follows `0x` or `0X`.
abbrev pub strip_prefix : Text → Option Text
strip_prefix (a ∷ b ∷ t) = if a == 48 && (b == 120 || b == 88) then some t else none
strip_prefix _ = none

abbrev pub zero_x : Text
zero_x = 48 ∷ 120 ∷ []

abbrev normalize_hex : ℕ → Option Text → Option Text
normalize_hex digits none = none
normalize_hex digits (some t) =
    if length t == digits && all_hex t then some (zero_x ++ to_ascii_lowercase t) else none

unfoldable pub normalize_address : Text → Option Text
unfolding all_hex to_ascii_lowercase
normalize_address address = normalize_hex 40 (strip_prefix address)

unfoldable pub normalize_tx_hash : Text → Option Text
unfolding all_hex to_ascii_lowercase
normalize_tx_hash hash = normalize_hex 64 (strip_prefix hash)

-- `checked_sub`, `checked_pow`, the division, and `i64::try_from`.
unfoldable pub to_micro : ℕ → ℕ → Option ℕ
to_micro value decimals =
    if ltb decimals 6
    then none
    else (let unit = 10 ^ (decimals - 6) in
        if leb u128_mod unit
        then none
        else if leb i64_bound (value / unit)
        then none
        else some (value / unit))

unfoldable pub is_between : Text → Text → Text → Transfer → Bool
unfolding text_eq
is_between contract from to t =
    text_eq t.contract contract && text_eq t.from from && text_eq t.to to

abbrev pub checked_add : ℕ → ℕ → Option ℕ
checked_add a b = if ltb (a + b) u128_mod then some (a + b) else none

-- The fold over the matching transfers, from a sum so far.
unfoldable pub sum_from : Text → Text → Text → List Transfer → Option ℕ → Option ℕ
unfolding is_between
sum_from contract from to ts none = none
sum_from contract from to [] (some sum) = some sum
sum_from contract from to (t ∷ ts) (some sum) =
    sum_from contract from to ts
      (if is_between contract from to t then checked_add sum t.value else some sum)

unfoldable pub sum_transfers : List Transfer → Text → Text → Text → Option ℕ
unfolding sum_from
sum_transfers ts contract from to = sum_from contract from to ts (some 0)

-- Zeros on the left up to a length, as the format `{:0>64}` pads.
unfoldable pub zeros : ℕ → Text
zeros zero = []
zeros (suc n) = b'0' ∷ zeros n

abbrev pub pad_left : ℕ → Text → Text
pad_left width t = zeros (width - length t) ++ t

abbrev pub drop_two : Text → Text
drop_two (a ∷ b ∷ t) = t
drop_two t = []

abbrev word_of : Option Text → Option Text
word_of none = none
word_of (some a) = some (zero_x ++ pad_left 64 (drop_two a))

-- `address_word`: the 20 bytes of an address, right-aligned in 32.
unfoldable pub address_word : Text → Option Text
unfolding normalize_address zeros
address_word address = word_of (normalize_address address)

-- `strip_prefix("0x")`, which takes no capital.
abbrev strip_zero_x : Text → Option Text
strip_zero_x (a ∷ b ∷ t) = if a == b'0' && b == b'x' then some t else none
strip_zero_x _ = none

unfoldable pub drop : ℕ → Text → Text
drop zero t = t
drop (suc n) [] = []
drop (suc n) (c ∷ t) = drop n t

unfoldable pub starts_with_zeros : ℕ → Text → Bool
starts_with_zeros zero t = true
starts_with_zeros (suc n) [] = true
starts_with_zeros (suc n) (c ∷ t) = c == b'0' && starts_with_zeros n t

abbrev address_in : Option Text → Option Text
address_in none = none
address_in (some hex) =
    if not (length hex == 64) || not (starts_with_zeros 24 hex)
    then none
    else normalize_address (zero_x ++ drop 24 hex)

unfoldable pub word_address : Text → Option Text
unfolding normalize_address drop starts_with_zeros
word_address word = address_in (strip_zero_x word)

-- `u128::from_str_radix(t, 16)` of at most 32 bytes, which do not overflow.
abbrev hex_value : Text → Option ℕ
hex_value [] = none
hex_value (c ∷ t) = if c == b'+' then unsigned_hex t else unsigned_hex (c ∷ t)

abbrev trimmed_value : Text → Option ℕ
trimmed_value [] = some 0
trimmed_value (c ∷ t) = if ltb 32 (length (c ∷ t)) then none else hex_value (c ∷ t)

abbrev value_in : Option Text → Option ℕ
value_in none = none
value_in (some hex) = trimmed_value (trim_zeros hex)

unfoldable pub hex_u128 : Text → Option ℕ
unfolding trim_zeros parse_hex
hex_u128 word = value_in (strip_zero_x word)

-- The fields of a log that are read; `topics` holds those that are strings.
pub record Log : Type 0 where
  pub removed : Bool
  pub topics : Option (List Text)
  pub data_word : Option Text
  pub transaction_hash : Option Text
  pub log_index : Option Text
  pub block_number : Option Text
  pub address : Option Text

abbrev pub transfer_topic : Text
transfer_topic = codes "0xddf252ad1be2c89b69c2b068fc378daa952ba7f163c4a11628f55a4df523b3ef"

abbrev read_text : (Text → Option Text) → Option Text → Option Text
read_text f none = none
read_text f (some t) = f t

-- `as u64`.
abbrev as_u64 : Option ℕ → Option ℕ
as_u64 none = none
as_u64 (some n) = some (n % 18446744073709551616)

abbrev read_u64 : Option Text → Option ℕ
read_u64 none = none
read_u64 (some t) = as_u64 (hex_u128 t)

-- All fields, or none.
abbrev transfer_of :
    Option Text
    → Option ℕ
    → Option ℕ
    → Option Text
    → Option Text
    → Option Text
    → Option ℕ
    → Option Transfer
transfer_of (some hash) (some index) (some block) (some contract) (some from) (some to)
      (some value) =
    some (record {
      tx_hash = hash;
      log_index = index;
      block_number = block;
      contract = contract;
      from = from;
      to = to;
      value = value;
    })
transfer_of _ _ _ _ _ _ _ = none

abbrev with_data : Log → Text → Text → Option Text → Option Transfer
with_data l from to none = none
with_data l from to (some data_text) =
    if not (length data_text == 66)
    then none
    else transfer_of (read_text normalize_tx_hash l.transaction_hash) (read_u64 l.log_index)
        (read_u64 l.block_number) (read_text normalize_address l.address)
        (word_address (to_ascii_lowercase from)) (word_address (to_ascii_lowercase to))
        (hex_u128 data_text)

abbrev with_topics : Log → Option (List Text) → Option Transfer
with_topics l (some (topic ∷ from ∷ to ∷ [])) =
    if not (eq_ignore_ascii_case topic transfer_topic)
    then none
    else with_data l from to l.data_word
with_topics l _ = none

unfoldable pub decode_transfer : Log → Option Transfer
unfolding word_address hex_u128 normalize_tx_hash to_ascii_lowercase eq_ignore_ascii_case
decode_transfer l = if l.removed then none else with_topics l l.topics
