-- ===== src/Sweeper/Plain.antt =====
-- Sweeping one plain TRON address: crates/treasury-service/src/sweeper.rs, `should_sweep` and the
-- part of the loop of `sweep_once` that serves an address without a GasFree account.
use clutch_treasury.Base.{
  ℕ, Bool, true, false, ◌||◌, not, Option, none, some, List, if◌then◌else◌, Text,
}
use clutch_treasury.Base.Int.{ℤ, pos, ltb_ℤ, leb_ℤ}
use clutch_treasury.Store.{
  Db, AppConfig, Notice, sweep_unrecorded, fee_account_dry, sweep_failed, sweep_failing,
  rail_disagrees, warn, p1, sweeper,
}
use clutch_treasury.Ledger.{alert, alert_once}
use clutch_treasury.Sweeper.{IndexGroup, mark_swept}

pub record SweepConfig : Type 0 where
  pub sweep_threshold_usdt : ℤ
  pub sweep_max_age_hours : ℤ
  pub sweep_min_usdt : ℤ

unfoldable pub should_sweep : ℤ → ℤ → ℤ → ℤ → ℤ → Bool
should_sweep balance_usdt threshold_usdt age_hours max_age_hours min_usdt =
    if leb_ℤ balance_usdt (pos 0)
    then false
    else if ltb_ℤ balance_usdt min_usdt
    then false
    else leb_ℤ threshold_usdt balance_usdt || leb_ℤ max_age_hours age_hours

pub data SignerReply : Type 0 where
  swept : Text → SignerReply
  nothing_to_sweep : SignerReply
  funded : Text → ℤ → SignerReply
  fee_dry : Text → ℤ → ℤ → SignerReply
  failed : Text → SignerReply
  pending : Text → Text → ℤ → ℤ → ℕ → ℕ → SignerReply
  busy : SignerReply
  rejected : Text → Text → SignerReply
  halted : Text → SignerReply
  below_fee : SignerReply

unfoldable pub sweep_failure : ℕ → AppConfig → Text → ℤ → Text → Db → Db
unfolding alert_once
sweep_failure now config address index e db =
    if not config.gasfree_on
    then alert now warn sweeper (sweep_failed address index e) db
    else alert_once 3600 now warn sweeper (sweep_failing address index) db

-- How the pass stands after one plain address.
pub data PlainStep : Type 0 where
  next : Bool → Db → PlainStep
  stop : Db → PlainStep

-- An answer for the GasFree account of the index.
abbrev pub unexpected : ℕ → AppConfig → Db → Db
unexpected now config db =
    if not config.gasfree_on then alert_once 3600 now p1 sweeper rail_disagrees db else db

abbrev dry_step : ℕ → AppConfig → Bool → Notice → Db → PlainStep
dry_step now config dry_alerted message db =
    if not config.gasfree_on
    then stop (alert now warn sweeper message db)
    else next true (if dry_alerted then db else alert_once 3600 now warn sweeper message db)

-- What the answer of the signer to a sweep of a plain address does.
unfoldable pub plain_reply :
    ℕ → AppConfig → (List ℕ → Bool) → SignerReply → IndexGroup → Bool → Db → PlainStep
unfolding mark_swept sweep_failure alert_once
plain_reply now config fails (swept tx_id) g dry_alerted db = next dry_alerted (
    if fails g.ids
    then alert now p1 sweeper (sweep_unrecorded g.address tx_id g.ids) db
    else mark_swept now g.ids db)
plain_reply now config fails nothing_to_sweep g dry_alerted db =
    next dry_alerted (if fails g.ids then db else mark_swept now g.ids db)
plain_reply now config fails (funded tx_id amount_sun) g dry_alerted db = next dry_alerted db
plain_reply now config fails (fee_dry fee_address have_sun need_sun) g dry_alerted db =
    dry_step now config dry_alerted (fee_account_dry fee_address have_sun need_sun) db
plain_reply now config fails (failed e) g dry_alerted db =
    next dry_alerted (sweep_failure now config g.address g.index e db)
plain_reply now config fails _ g dry_alerted db = next dry_alerted (unexpected now config db)

abbrev pub worth : SweepConfig → ℤ → IndexGroup → Bool
worth sweep balance g =
    should_sweep balance sweep.sweep_threshold_usdt (pos g.age_hours) sweep.sweep_max_age_hours
      sweep.sweep_min_usdt

-- A plain address: its balance where it can be read, and the answer of the signer if it is asked.
unfoldable pub plain_group :
    ℕ
    → AppConfig
    → SweepConfig
    → (List ℕ → Bool)
    → Option ℤ
    → SignerReply
    → IndexGroup
    → Bool
    → Db
    → PlainStep
unfolding should_sweep plain_reply
plain_group now config sweep fails none reply g dry_alerted db = next dry_alerted db
plain_group now config sweep fails (some balance) reply g dry_alerted db =
    if worth sweep balance g
    then plain_reply now config fails reply g dry_alerted db
    else next dry_alerted db
