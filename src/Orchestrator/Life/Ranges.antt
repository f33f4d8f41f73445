-- ===== src/Orchestrator/Life/Ranges.antt =====
-- What `watch_once` of crates/payment-orchestrator/src/bsc_watch.rs does to the deposits and to its
-- cursor.
use clutch_treasury.Base.{
  ℕ, ◌-◌, Bool, true, false, Option, none, some, List, Text, find, map, length, ltb,
}
use clutch_treasury.Bsc.{Transfer}
use clutch_treasury.Orchestrator.Store.{DepositAddress, OrchDb}
use clutch_treasury.Orchestrator.BscPayments.{by_transaction}
use clutch_treasury.Orchestrator.BscWatch.{
  Pass, pay_in_steps, address_chunks, range_paid, range_read, owners_of, bsc_text, watches,
  stamp_watch, read_range, first_block, last_block_of, watch_safe, watch_head, watch_once,
}
use clutch_treasury.Orchestrator.Life.{then_on}
use clutch_treasury.Orchestrator.Life.Writes.{Changes, Changes-refl}
use clutch_treasury.Orchestrator.Life.Chains.{
  pay_in_steps-Steps, address_chunks-Steps, stamp-Changes,
}
use clutch_treasury.Orchestrator.Life.Payments.{Steps, if-Steps}

range_paid-Steps :
    (pass : Pass) (owners : List DepositAddress) (addresses : List Text) (from_block to_block : ℕ)
    (paid : Bool × OrchDb)
    → Steps paid.1 (range_paid pass owners addresses from_block to_block paid)
range_paid-Steps pass owners addresses from_block to_block (false, db) = Changes-refl db
range_paid-Steps pass owners addresses from_block to_block (true, db) =
    let chunks = address_chunks pass owners from_block to_block (length addresses) addresses db in
    let read =
      address_chunks-Steps pass owners from_block to_block (length addresses) addresses db in
    if-Steps chunks.0 db (true, stamp_watch pass.settings.pay_in_address to_block chunks.1) chunks
      (then_on read (stamp-Changes pass.settings.pay_in_address to_block chunks.1)) read

range_read-Steps :
    (pass : Pass) (owners : List DepositAddress) (addresses : List Text) (from_block to_block : ℕ)
    (read : Option (List Transfer)) (db : OrchDb)
    → Steps db (range_read pass owners addresses from_block to_block read db)
range_read-Steps pass owners addresses from_block to_block none db = Changes-refl db
range_read-Steps pass owners addresses from_block to_block (some ts) db =
    then_on (pay_in_steps-Steps pass owners (by_transaction ts) db) (
      range_paid-Steps pass owners addresses from_block to_block
        (pay_in_steps pass owners (by_transaction ts) db))

read_range-Steps :
    (pass : Pass) (key_order : List Text → List Text) (from_block to_block : ℕ) (db : OrchDb)
    → Steps db (read_range pass key_order from_block to_block db)
unfolding read_range
read_range-Steps pass key_order from_block to_block db =
    range_read-Steps pass (owners_of db)
      (key_order (map (λ a. bsc_text a.bsc_address) (owners_of db))) from_block to_block
      (pass.chain.transfers_to pass.settings.usdt_contract pass.settings.pay_in_address from_block
        to_block)
      db

watch_safe-Steps :
    (pass : Pass) (key_order : List Text → List Text) (safe : ℕ) (db : OrchDb)
    → Steps db (watch_safe pass key_order safe db)
watch_safe-Steps pass key_order safe db =
    let from_block = first_block safe (find (watches pass.settings.pay_in_address) db.bsc_watch) in
    if-Steps (ltb safe from_block) db (true, db) _ (Changes-refl db)
      (read_range-Steps pass key_order from_block (last_block_of safe from_block) db)

watch_head-Steps :
    (pass : Pass) (key_order : List Text → List Text) (head : Option ℕ) (db : OrchDb)
    → Steps db (watch_head pass key_order head db)
watch_head-Steps pass key_order none db = Changes-refl db
watch_head-Steps pass key_order (some head) db =
    if-Steps (ltb head pass.settings.confirmations) db (true, db) _ (Changes-refl db)
      (watch_safe-Steps pass key_order (head - pass.settings.confirmations) db)

pub watch_once-Changes :
    (pass : Pass) (key_order : List Text → List Text) (db : OrchDb)
    → Changes db (watch_once pass key_order db).1
unfolding watch_once
watch_once-Changes pass key_order db = watch_head-Steps pass key_order pass.chain.head db
