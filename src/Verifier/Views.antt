-- ===== src/Verifier/Views.antt =====
-- Reads of contracts through the TRON node: crates/treasury-service/src/tron_verifier.rs,
-- `view_word`, `gasfree_nonce`, `implementation` and `has_contract`, and `code_changed` and
-- `parse_trace` of gasfree_rail.rs. The answer to a request is an argument, `none` where it failed.
use clutch_treasury.Base.{
  ℕ, Bool, true, false, ◌||◌, not, ◌==◌, Option, none, some, List, [], ◌∷◌, if◌then◌else◌, length,
  Text, text_eq, to_ascii_lowercase, unsigned_hex, parse_hex,
}
use clutch_treasury.Base.Int.{ℤ}
use clutch_treasury.Bsc.{all_hex, drop, starts_with_zeros}

-- A word of 64 hex digits, in lower case.
unfoldable pub view_word : Option Text → Option Text
unfolding all_hex to_ascii_lowercase
view_word none = none
view_word (some word) =
    if not (length word == 64) || not (all_hex word) then none else some (to_ascii_lowercase word)

-- `split_at(48)`: the high digits must be zero, the low sixteen are a `u64`.
abbrev nonce_in : Option Text → Option ℕ
nonce_in none = none
nonce_in (some word) = if not (starts_with_zeros 48 word) then none else unsigned_hex (drop 48 word)

unfoldable pub gasfree_nonce : Option Text → Option ℕ
unfolding view_word starts_with_zeros drop parse_hex
gasfree_nonce answer_word = nonce_in (view_word answer_word)

abbrev last_twenty : Option Text → Option Text
last_twenty none = none
last_twenty (some word) = some (drop 24 word)

unfoldable pub implementation : Option Text → Option Text
unfolding view_word drop
implementation answer_word = last_twenty (view_word answer_word)

-- The JSON of `getcontract`: the contract's address where it is a string, and whether the object is
-- empty.
pub record ContractAnswer : Type 0 where
  pub contract_address : Option Text
  pub is_empty_object : Bool

abbrev not_empty : Option Text → Bool
not_empty (some (c ∷ t)) = true
not_empty _ = false

abbrev contract_in : Option ContractAnswer → Option Bool
contract_in none = none
contract_in (some a) =
    if not_empty a.contract_address
    then some true
    else if a.is_empty_object
    then some false
    else none

unfoldable pub has_contract : Option ContractAnswer → Option Bool
has_contract answer_body = contract_in answer_body

-- One of the two proxies, with what is expected of it and what the node answers.
pub record Proxy : Type 0 where
  pub expected_implementation : Text
  pub word : Option Text

abbrev compared : Proxy → Option Text → Option Bool → Option Bool
compared p none rest = none
compared p (some now) rest = if not (text_eq now p.expected_implementation) then some true else rest

-- `code_changed`: true where the first proxy that differs can be read, and all before it.
unfoldable pub code_changed : List Proxy → Option Bool
unfolding implementation text_eq
code_changed [] = some false
code_changed (p ∷ rest) = compared p (implementation p.word) (code_changed rest)

-- The fields of a trace; `state` is none where it is no string.
pub record TraceAnswer : Type 0 where
  pub state_text : Option Text
  pub hash_text : Option Text
  pub amount_number : Option ℤ

pub record Trace : Type 0 where
  pub state : Text
  pub txn_hash : Option Text
  pub txn_amount : Option ℤ

abbrev non_empty : Option Text → Option Text
non_empty (some (c ∷ t)) = some (c ∷ t)
non_empty _ = none

abbrev trace_of : TraceAnswer → Option Text → Option Trace
trace_of a none = none
trace_of a (some state) =
    some (record { state = state; txn_hash = non_empty a.hash_text; txn_amount = a.amount_number })

unfoldable pub parse_trace : TraceAnswer → Option Trace
parse_trace a = trace_of a a.state_text
