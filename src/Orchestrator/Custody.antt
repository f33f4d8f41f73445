-- ===== src/Orchestrator/Custody.antt =====
-- What TronGrid says arrived at an address: crates/payment-orchestrator/src/custody.rs. The pages
-- follow one another as in the verifier's client, whose loop and answers this is.
use clutch_treasury.Base.{
  Bool, Option, none, some, List, [], ◌∷◌, ◌&&◌, if◌then◌else◌, Text, codes, text_eq, parse_i64,
}
use clutch_treasury.Base.Int.{ℤ}
use clutch_treasury.Verifier.Client.{Trc20Transfer, Page, max_pages, pages_from}
use clutch_treasury.Orchestrator.Store.{ObservedTransfer}

-- A chain read: the transfers to an address from a time on, `none` where it fails.
abbrev pub CustodyWatcher : Type 0
CustodyWatcher = Text → Option ℤ → Option (List ObservedTransfer)

abbrev pub is_incoming : Text → Text → Trc20Transfer → Bool
is_incoming expected_to contract r =
    text_eq r.event_type (codes "Transfer") && text_eq r.to expected_to && text_eq r.token contract

abbrev pub observed : Trc20Transfer → ℤ → ObservedTransfer
observed r amount = record {
  tx_id = r.transaction_id;
  amount_usdt = amount;
  to = r.to;
  from = r.from;
  contract = r.token;
  block_timestamp = r.block_timestamp;
}

abbrev pub keep_row : Trc20Transfer → Option ℤ → List ObservedTransfer → List ObservedTransfer
keep_row r none rest = rest
keep_row r (some amount) rest = observed r amount ∷ rest

-- An amount that does not parse is dropped.
unfoldable pub rows_to_transfers : List Trc20Transfer → Text → Text → List ObservedTransfer
unfolding text_eq parse_i64
rows_to_transfers [] expected_to contract = []
rows_to_transfers (r ∷ rows) expected_to contract =
    let rest = rows_to_transfers rows expected_to contract in
    if is_incoming expected_to contract r then keep_row r (parse_i64 r.value) rest else rest

abbrev read_rows : Text → Text → Option (List Trc20Transfer) → Option (List ObservedTransfer)
read_rows address contract none = none
read_rows address contract (some rows) = some (rows_to_transfers rows address contract)

-- The `TronGridWatcher`, for what TronGrid answers.
unfoldable pub transfers_to : (Text → Option ℤ → Option Text → Option Page) → Text → CustodyWatcher
unfolding pages_from rows_to_transfers
transfers_to page usdt_contract address min_timestamp_ms =
    read_rows address usdt_contract (pages_from (page address min_timestamp_ms) max_pages none [])
