-- ===== src/Orchestrator/BscWatch.antt =====
-- A pass over BNB Smart Chain: crates/payment-orchestrator/src/bsc_watch.rs, `watch_once`. The node's
-- answers and the order of a hash map's keys are arguments. A block's time is read once in a pass
-- there; here the answer for a block is one function.
use clutch_treasury.Base.{
  ℕ, zero, suc, ◌%◌, ◌+◌, ◌-◌, min, Bool, true, false, Option, none, some, List, [], ◌∷◌, ◌++◌, map,
  if◌then◌else◌, is_some, ltb, length, Text, text_eq, option_text_eq, find, update, exists_row,
  where_rows,
}
use clutch_treasury.Base.Int.{ℤ, i64_mod}
use clutch_treasury.Bsc.{Transfer}
use clutch_treasury.Orchestrator.Store.{DepositAddress, BscWatch, OrchDb}
use clutch_treasury.Orchestrator.Tiered.{take, drop_rows}
use clutch_treasury.Orchestrator.BscPayments.{Payment, by_transaction, AddressPayment, by_deposit}
use clutch_treasury.Orchestrator.BscCredit.{Settings, handle}
use clutch_treasury.Orchestrator.BscAddress.{owns, credit_address}

-- The node's answers, `none` where a read fails.
pub record BscChain : Type 0 where
  pub head : Option ℕ
  pub transfers_to : Text → Text → ℕ → ℕ → Option (List Transfer)
  pub transfers_to_any : Text → List Text → ℕ → ℕ → Option (List Transfer)
  pub block_timestamp : ℕ → Option ℕ

-- The fresh id of the row of a transaction, and chrono's reading of seconds.
pub record Pass : Type 0 where
  pub now : ℕ
  pub fresh : Text → ℕ
  pub time_of : ℤ → Option ℤ
  pub settings : Settings
  pub chain : BscChain

abbrev pub handle_at : Pass → Payment → Option ℕ → OrchDb → Bool × OrchDb
handle_at pass p none db = (false, db)
handle_at pass p (some seconds) db =
    handle pass.now (pass.fresh p.tx_hash) pass.time_of pass.settings p seconds db

-- A sweep of a deposit address is skipped.
unfoldable pub pay_in_step : Pass → List DepositAddress → Payment → OrchDb → Bool × OrchDb
unfolding handle exists_row option_text_eq text_eq
pay_in_step pass owners p db =
    if exists_row (owns p.from) owners
    then (true, db)
    else handle_at pass p (pass.chain.block_timestamp p.block_number) db

unfoldable pub pay_in_steps : Pass → List DepositAddress → List Payment → OrchDb → Bool × OrchDb
unfolding pay_in_step
pay_in_steps pass owners [] db = (true, db)
pay_in_steps pass owners (p ∷ ps) db =
    let step = pay_in_step pass owners p db in
    let rest = pay_in_steps pass owners ps step.1 in if step.0 then rest else step

abbrev pub credit_at : Pass → DepositAddress → AddressPayment → Option ℕ → OrchDb → Bool × OrchDb
credit_at pass owner d none db = (false, db)
credit_at pass owner d (some seconds) db =
    credit_address pass.now (pass.fresh d.tx_hash) pass.time_of pass.settings owner d seconds db

abbrev pub credit_owned : Pass → Option DepositAddress → AddressPayment → OrchDb → Bool × OrchDb
credit_owned pass none d db = (true, db)
credit_owned pass (some owner) d db =
    credit_at pass owner d (pass.chain.block_timestamp d.block_number) db

unfoldable pub deposit_steps :
    Pass → List DepositAddress → List AddressPayment → OrchDb → Bool × OrchDb
unfolding credit_address by_deposit find option_text_eq text_eq
deposit_steps pass owners [] db = (true, db)
deposit_steps pass owners (d ∷ ds) db =
    let step = credit_owned pass (find (owns d.to) owners) d db in
    let rest = deposit_steps pass owners ds step.1 in if step.0 then rest else step

abbrev pub chunk_read : Pass → List DepositAddress → Option (List Transfer) → OrchDb → Bool × OrchDb
chunk_read pass owners none db = (false, db)
chunk_read pass owners (some ts) db = deposit_steps pass owners (by_deposit ts) db

-- `chunks(100)` on fuel: the count of the addresses is enough.
unfoldable pub address_chunks :
    Pass → List DepositAddress → ℕ → ℕ → ℕ → List Text → OrchDb → Bool × OrchDb
unfolding by_deposit deposit_steps take drop_rows
address_chunks pass owners from_block to_block zero addresses db = (true, db)
address_chunks pass owners from_block to_block (suc fuel) [] db = (true, db)
address_chunks pass owners from_block to_block (suc fuel) (a ∷ addresses) db =
    let step =
      chunk_read pass owners
        (pass.chain.transfers_to_any pass.settings.usdt_contract (take 100 (a ∷ addresses))
          from_block to_block)
        db in
    let rest =
      address_chunks pass owners from_block to_block fuel (drop_rows 100 (a ∷ addresses)) step.1 in
    if step.0 then rest else step

abbrev pub has_bsc : DepositAddress → Bool
has_bsc a = is_some a.bsc_address

abbrev pub bsc_text : Option Text → Text
bsc_text none = []
bsc_text (some a) = a

abbrev pub watches : Text → BscWatch → Bool
watches pay_in w = text_eq w.pay_in pay_in

unfoldable pub stamp_watch : Text → ℕ → OrchDb → OrchDb
unfolding exists_row update text_eq
stamp_watch pay_in to_block db =
    if exists_row (watches pay_in) db.bsc_watch
    then record db {
      bsc_watch = update (watches pay_in) (λ w. record w { last_block = to_block }) db.bsc_watch;
    }
    else record db {
      bsc_watch = db.bsc_watch ++ record { pay_in = pay_in; last_block = to_block } ∷ [];
    }

-- The owners' part of a pass, where the pay-in part went through, and the cursor after both.
abbrev pub range_paid :
    Pass → List DepositAddress → List Text → ℕ → ℕ → Bool × OrchDb → Bool × OrchDb
range_paid pass owners addresses from_block to_block (false, db) = (false, db)
range_paid pass owners addresses from_block to_block (true, db) =
    let chunks = address_chunks pass owners from_block to_block (length addresses) addresses db in
    if chunks.0 then (true, stamp_watch pass.settings.pay_in_address to_block chunks.1) else chunks

abbrev pub range_read :
    Pass → List DepositAddress → List Text → ℕ → ℕ → Option (List Transfer) → OrchDb → Bool × OrchDb
range_read pass owners addresses from_block to_block none db = (false, db)
range_read pass owners addresses from_block to_block (some ts) db =
    range_paid pass owners addresses from_block to_block
      (pay_in_steps pass owners (by_transaction ts) db)

abbrev pub owners_of : OrchDb → List DepositAddress
owners_of db = where_rows has_bsc db.deposit_addresses

-- The addresses are listed before the blocks are read.
unfoldable pub read_range : Pass → (List Text → List Text) → ℕ → ℕ → OrchDb → Bool × OrchDb
unfolding where_rows by_transaction pay_in_steps address_chunks stamp_watch
read_range pass key_order from_block to_block db =
    range_read pass (owners_of db) (key_order (map (λ a. bsc_text a.bsc_address) (owners_of db)))
      from_block to_block
      (pass.chain.transfers_to pass.settings.usdt_contract pass.settings.pay_in_address from_block
        to_block)
      db

-- The first block to read, for the cursor and the last block that is deep enough. The cursor is
-- stored as an i64 and read as the same u64; a u64 wraps around.
abbrev pub first_block : ℕ → Option BscWatch → ℕ
first_block safe none = safe - 200
first_block safe (some w) = suc w.last_block % i64_mod

abbrev pub last_block_of : ℕ → ℕ → ℕ
last_block_of safe from_block = min safe ((from_block + 500 - 1) % i64_mod)

abbrev pub watch_safe : Pass → (List Text → List Text) → ℕ → OrchDb → Bool × OrchDb
watch_safe pass key_order safe db =
    let from_block : ℕ =
      first_block safe (find (watches pass.settings.pay_in_address) db.bsc_watch) in
    if ltb safe from_block
    then (true, db)
    else read_range pass key_order from_block (last_block_of safe from_block) db

abbrev pub watch_head : Pass → (List Text → List Text) → Option ℕ → OrchDb → Bool × OrchDb
watch_head pass key_order none db = (false, db)
watch_head pass key_order (some head) db =
    if ltb head pass.settings.confirmations
    then (true, db)
    else watch_safe pass key_order (head - pass.settings.confirmations) db

unfoldable pub watch_once : Pass → (List Text → List Text) → OrchDb → Bool × OrchDb
unfolding read_range find text_eq
watch_once pass key_order db = watch_head pass key_order pass.chain.head db
