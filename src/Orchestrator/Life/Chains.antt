-- ===== src/Orchestrator/Life/Chains.antt =====
-- What a pass of crates/payment-orchestrator/src/bsc_watch.rs does to the deposits.
use clutch_treasury.Base.{
  ℕ, zero, suc, true, Option, none, some, List, [], ◌∷◌, arith, Text, exists_row, find,
}
use clutch_treasury.Bsc.{Transfer}
use clutch_treasury.Orchestrator.Store.{DepositAddress, OrchDb}
use clutch_treasury.Orchestrator.Tiered.{take, drop_rows}
use clutch_treasury.Orchestrator.BscPayments.{Payment, AddressPayment, by_deposit}
use clutch_treasury.Orchestrator.BscAddress.{owns}
use clutch_treasury.Orchestrator.BscWatch.{
  Pass, handle_at, pay_in_step, pay_in_steps, credit_at, credit_owned, deposit_steps, chunk_read,
  address_chunks, stamp_watch,
}
use clutch_treasury.Orchestrator.Life.{Change, IsNew, then_on}
use clutch_treasury.Orchestrator.Life as Life
use clutch_treasury.Orchestrator.Life.Writes.{Changes, Changes-refl}
use clutch_treasury.Orchestrator.Life.Payments.{Steps, if-Steps, handle-Steps, credit_address-Steps}

handle_at-Steps :
    (pass : Pass) (p : Payment) (seconds : Option ℕ) (db : OrchDb)
    → Steps db (handle_at pass p seconds db)
handle_at-Steps pass p none db = Changes-refl db
handle_at-Steps pass p (some seconds) db =
    handle-Steps pass.now (pass.fresh p.tx_hash) pass.time_of pass.settings p seconds db

pay_in_step-Steps :
    (pass : Pass) (owners : List DepositAddress) (p : Payment) (db : OrchDb)
    → Steps db (pay_in_step pass owners p db)
unfolding pay_in_step
pay_in_step-Steps pass owners p db =
    if-Steps (exists_row (owns p.from) owners) db (true, db) _ (Changes-refl db)
      (handle_at-Steps pass p (pass.chain.block_timestamp p.block_number) db)

pub pay_in_steps-Steps :
    (pass : Pass) (owners : List DepositAddress) (ps : List Payment) (db : OrchDb)
    → Steps db (pay_in_steps pass owners ps db)
unfolding pay_in_steps
pay_in_steps-Steps pass owners [] db = Changes-refl db
pay_in_steps-Steps pass owners (p ∷ ps) db =
    let step = pay_in_step pass owners p db in
    let first = pay_in_step-Steps pass owners p db in
    if-Steps step.0 db _ step (then_on first (pay_in_steps-Steps pass owners ps step.1)) first

credit_owned-Steps :
    (pass : Pass) (o : Option DepositAddress) (d : AddressPayment) (db : OrchDb)
    → Steps db (credit_owned pass o d db)
credit_owned-Steps pass none d db = Changes-refl db
credit_owned-Steps pass (some owner) d db = at_time (pass.chain.block_timestamp d.block_number)
  where
    at_time : (seconds : Option ℕ) → Steps db (credit_at pass owner d seconds db)
    at_time none = Changes-refl db
    at_time (some seconds) =
        credit_address-Steps pass.now (pass.fresh d.tx_hash) pass.time_of pass.settings owner d
          seconds db

deposit_steps-Steps :
    (pass : Pass) (owners : List DepositAddress) (ds : List AddressPayment) (db : OrchDb)
    → Steps db (deposit_steps pass owners ds db)
unfolding deposit_steps
deposit_steps-Steps pass owners [] db = Changes-refl db
deposit_steps-Steps pass owners (d ∷ ds) db =
    let step = credit_owned pass (find (owns d.to) owners) d db in
    let first = credit_owned-Steps pass (find (owns d.to) owners) d db in
    if-Steps step.0 db _ step (then_on first (deposit_steps-Steps pass owners ds step.1)) first

chunk_read-Steps :
    (pass : Pass) (owners : List DepositAddress) (read : Option (List Transfer)) (db : OrchDb)
    → Steps db (chunk_read pass owners read db)
chunk_read-Steps pass owners none db = Changes-refl db
chunk_read-Steps pass owners (some ts) db = deposit_steps-Steps pass owners (by_deposit ts) db

pub address_chunks-Steps :
    (pass : Pass) (owners : List DepositAddress) (from_block to_block fuel : ℕ)
    (addresses : List Text) (db : OrchDb)
    → Steps db (address_chunks pass owners from_block to_block fuel addresses db)
unfolding address_chunks
address_chunks-Steps pass owners from_block to_block zero addresses db = Changes-refl db
address_chunks-Steps pass owners from_block to_block (suc fuel) [] db = Changes-refl db
address_chunks-Steps pass owners from_block to_block (suc fuel) (a ∷ addresses) db =
    let read =
      pass.chain.transfers_to_any pass.settings.usdt_contract (take 100 (a ∷ addresses)) from_block
        to_block in
    let step = chunk_read pass owners read db in
    let first = chunk_read-Steps pass owners read db in
    if-Steps step.0 db _ step
      (then_on first (
        address_chunks-Steps pass owners from_block to_block fuel (drop_rows 100 (a ∷ addresses))
          step.1))
      first

pub stamp-Changes :
    (pay_in : Text) (to_block : ℕ) (db : OrchDb) → Changes db (stamp_watch pay_in to_block db)
unfolding stamp_watch
stamp-Changes pay_in to_block db = Life.unchanged (ground arith)
