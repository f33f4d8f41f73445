-- ===== src/Sweeper.antt =====
-- Sweeping the deposit addresses: crates/treasury-service/src/sweeper.rs, but for the GasFree
-- accounts. The answers of the signer and of the TRON node are arguments, as is which statements
-- `mark_swept` fail.
pub mod Plain
pub mod Groups
pub mod Marks
pub mod Books
pub mod PlainBooks
use clutch_treasury.Base.{
  ℕ, ◌+◌, ◌-◌, ◌/◌, Bool, true, false, ◌&&◌, ◌||◌, not, ◌==◌, Option, none, some, List, [], ◌∷◌,
  ◌++◌, map, if◌then◌else◌, is_some, ltb, length, Text, text_eq, exists_row, update, where_rows,
  order_by,
}
use clutch_treasury.Base.Int.{ℤ, pos, ltb_ℤ, leb_ℤ}
use clutch_treasury.Store.{
  MintIntent, MintStatus, Network, tron, bsc, Db, AppConfig, Notice, sweep_unrecorded,
  fee_account_dry, sweep_failed, sweep_failing, rail_disagrees, bsc_sweep_unrecorded, bsc_gas_dry,
  bsc_sweep_failing, warn, p1, sweeper,
}
use clutch_treasury.Ledger.{alert, alert_once}

pub data BscReply : Type 0 where
  bsc_swept : Text → BscReply
  bsc_nothing_to_sweep : BscReply
  waiting : Text → BscReply
  gas_account_dry : Text → Text → Text → BscReply
  bsc_failed : Text → BscReply

-- A row of the queries over the unswept deposits; the BSC pass uses its first three columns only.
pub record SweepRow : Type 0 where
  pub id : ℕ
  pub address : Text
  pub index : ℤ
  pub age_hours : ℕ
  pub gasfree : Bool

pub record IndexGroup : Type 0 where
  pub index : ℤ
  pub address : Text
  pub age_hours : ℕ
  pub gasfree : Bool
  pub ids : List ℕ

abbrev pub new_group : SweepRow → IndexGroup
new_group r = record {
  index = r.index;
  address = r.address;
  age_hours = r.age_hours;
  gasfree = r.gasfree;
  ids = r.id ∷ [];
}

abbrev pub same_index : ℤ → ℤ → Bool
same_index a b = leb_ℤ a b && leb_ℤ b a

-- The row joins the group of its index, or opens one at the end; the BSC pass groups the same way.
unfoldable pub add_row : SweepRow → List IndexGroup → List IndexGroup
add_row r [] = new_group r ∷ []
add_row r (g ∷ groups) =
    if same_index g.index r.index
    then record g { ids = g.ids ++ r.id ∷ [] } ∷ groups
    else g ∷ add_row r groups

unfoldable pub add_rows : List SweepRow → List IndexGroup → List IndexGroup
unfolding add_row
add_rows [] groups = groups
add_rows (r ∷ rows) groups = add_rows rows (add_row r groups)

unfoldable pub by_index : List SweepRow → List IndexGroup
unfolding add_rows
by_index rows = add_rows rows []

abbrev pub is_on : Network → Network → Bool
is_on tron tron = true
is_on bsc bsc = true
is_on _ _ = false

abbrev pub is_sweepable : MintStatus → Bool
is_sweepable s = elim s [ MintStatus.credited ↦ true | MintStatus.submitted ↦ true | _ ↦ false ]

-- The WHERE of both queries over the unswept deposits.
abbrev pub is_unswept : Network → MintIntent → Bool
is_unswept network i =
    is_some i.deposit_address
    && is_some i.derivation_index
    && not (is_some i.swept_at)
    && is_on i.network network
    && is_sweepable i.status

abbrev pub or_zero : Option ℤ → ℤ
or_zero none = pos 0
or_zero (some a) = a

abbrev or_empty : Option Text → Text
or_empty none = []
or_empty (some t) = t

-- The two columns are not null in the rows of the queries.
abbrev pub sweep_row : ℕ → MintIntent → SweepRow
sweep_row now i = record {
  id = i.id;
  address = or_empty i.deposit_address;
  index = or_zero i.derivation_index;
  age_hours = (now - i.created_at) / 3600;
  gasfree = is_some i.fee_held_usdt;
}

unfoldable pub unswept_rows : ℕ → Network → Db → List SweepRow
unfolding where_rows order_by
unswept_rows now network db =
    map (sweep_row now)
      (order_by (λ i. i.created_at) (where_rows (is_unswept network) db.mint_intents))

abbrev pub to_mark : List ℕ → MintIntent → Bool
to_mark ids i = exists_row (λ id. i.id == id) ids && not (is_some i.swept_at)

abbrev pub set_swept : ℕ → MintIntent → MintIntent
set_swept now i = record i { swept_at = some now }

unfoldable pub mark_swept : ℕ → List ℕ → Db → Db
unfolding update exists_row
mark_swept now ids db = record db {
  mint_intents = update (to_mark ids) (set_swept now) db.mint_intents;
}

-- What the group of one index does; `false` ends the pass.
unfoldable pub bsc_step : ℕ → (List ℕ → Bool) → BscReply → IndexGroup → Db → Bool × Db
unfolding mark_swept alert_once
bsc_step now fails (bsc_swept tx_id) g db = (
  true,
  if fails g.ids
      then alert now p1 sweeper (bsc_sweep_unrecorded g.address tx_id g.ids) db
      else mark_swept now g.ids db,
)
bsc_step now fails bsc_nothing_to_sweep g db =
    (true, if fails g.ids then db else mark_swept now g.ids db)
bsc_step now fails (waiting why) g db = (true, db)
bsc_step now fails (gas_account_dry gas_address have_wei need_wei) g db =
    (false, alert_once 3600 now warn sweeper (bsc_gas_dry gas_address have_wei need_wei) db)
bsc_step now fails (bsc_failed e) g db =
    (true, alert_once 3600 now warn sweeper (bsc_sweep_failing g.address g.index) db)

unfoldable pub bsc_groups : ℕ → (List ℕ → Bool) → (ℤ → BscReply) → List IndexGroup → Db → Db
unfolding bsc_step
bsc_groups now fails signer [] db = db
bsc_groups now fails signer (g ∷ groups) db =
    let step = bsc_step now fails (signer g.index) g db in
    let rest = bsc_groups now fails signer groups step.1 in if step.0 then rest else step.1

unfoldable pub bsc_sweep_pass : ℕ → (List ℕ → Bool) → (ℤ → BscReply) → Db → Db
unfolding unswept_rows by_index bsc_groups
bsc_sweep_pass now fails signer db =
    bsc_groups now fails signer (by_index (unswept_rows now bsc db)) db
