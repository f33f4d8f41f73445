-- ===== src/Sweeper/PlainBooks.antt =====
-- What the step for a plain TRON address may write (crates/treasury-service/src/sweeper.rs).
use clutch_treasury.Base.{ℕ, Bool, inl, inr, Option, none, some, List, Bool-cases, not, All}
use clutch_treasury.Base.Int.{ℤ}
use clutch_treasury.Store.{AppConfig, Db}
use clutch_treasury.Sweeper.{IndexGroup}
use clutch_treasury.Sweeper.Plain.{
  SweepConfig, SignerReply, swept, nothing_to_sweep, funded, fee_dry, failed, pending, busy,
  rejected, halted, below_fee, sweep_failure, unexpected, worth, PlainStep, next, stop, plain_reply,
  plain_group,
}
use clutch_treasury.Sweeper.Marks.{
  OnlySwept, OnlySwept-refl, if-OnlySwept, alert-OnlySwept, alert_once-OnlySwept,
  mark_swept-OnlySwept,
}

abbrev pub left_by : PlainStep → Db
left_by (next dry_alerted db) = db
left_by (stop db) = db

unexpected-OnlySwept :
    (now : ℕ) (may : ℕ → Type 0) (config : AppConfig) (db : Db)
    → OnlySwept now may db (unexpected now config db)
unexpected-OnlySwept now may config db =
    if-OnlySwept now may (not config.gasfree_on) db _ _ (alert_once-OnlySwept now may 3600 _ _ _ db)
      (OnlySwept-refl now may db)

plain_reply-OnlySwept :
    (now : ℕ) (may : ℕ → Type 0) (config : AppConfig) (fails : List ℕ → Bool) (reply : SignerReply)
    (g : IndexGroup) (dry : Bool) (db : Db)
    → All may g.ids
    → OnlySwept now may db (left_by (plain_reply now config fails reply g dry db))
unfolding plain_reply sweep_failure
plain_reply-OnlySwept now may config fails (swept tx_id) g dry db all =
    if-OnlySwept now may (fails g.ids) db _ _ (alert-OnlySwept now may now _ _ _ db)
      (mark_swept-OnlySwept now may g.ids db all)
plain_reply-OnlySwept now may config fails nothing_to_sweep g dry db all =
    if-OnlySwept now may (fails g.ids) db _ _ (OnlySwept-refl now may db)
      (mark_swept-OnlySwept now may g.ids db all)
plain_reply-OnlySwept now may config fails (funded tx_id amount_sun) g dry db all =
    OnlySwept-refl now may db
plain_reply-OnlySwept now may config fails (fee_dry a have_sun need_sun) g dry db all =
    elim (Bool-cases config.gasfree_on) [
      | inl on ↦ rw on (
          if-OnlySwept now may dry db _ _ (OnlySwept-refl now may db)
            (alert_once-OnlySwept now may 3600 _ _ _ db))
      | inr off ↦ rw off (alert-OnlySwept now may now _ _ _ db)
    ]
plain_reply-OnlySwept now may config fails (failed e) g dry db all =
    if-OnlySwept now may (not config.gasfree_on) db _ _ (alert-OnlySwept now may now _ _ _ db)
      (alert_once-OnlySwept now may 3600 _ _ _ db)
plain_reply-OnlySwept now may config fails (pending t a value fee nonce deadline) g dry db all =
    unexpected-OnlySwept now may config db
plain_reply-OnlySwept now may config fails busy g dry db all =
    unexpected-OnlySwept now may config db
plain_reply-OnlySwept now may config fails (rejected reason message) g dry db all =
    unexpected-OnlySwept now may config db
plain_reply-OnlySwept now may config fails (halted reason) g dry db all =
    unexpected-OnlySwept now may config db
plain_reply-OnlySwept now may config fails below_fee g dry db all =
    unexpected-OnlySwept now may config db

-- A plain address moves no books either: whatever its balance and the answer of the signer, the
-- step leaves what a BSC pass may leave.
pub plain_group-OnlySwept :
    (now : ℕ) (may : ℕ → Type 0) (config : AppConfig) (sweep : SweepConfig) (fails : List ℕ → Bool)
    (balance : Option ℤ) (reply : SignerReply) (g : IndexGroup) (dry : Bool) (db : Db)
    → All may g.ids
    → OnlySwept now may db (left_by (plain_group now config sweep fails balance reply g dry db))
unfolding plain_group
plain_group-OnlySwept now may config sweep fails none reply g dry db all = OnlySwept-refl now may db
plain_group-OnlySwept now may config sweep fails (some balance) reply g dry db all =
    elim (Bool-cases (worth sweep balance g)) [
      | inl due ↦ rw due (plain_reply-OnlySwept now may config fails reply g dry db all)
      | inr early ↦ rw early (OnlySwept-refl now may db)
    ]
