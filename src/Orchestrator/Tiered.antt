-- ===== src/Orchestrator/Tiered.antt =====
-- The rotation over the permanent addresses: crates/payment-orchestrator/src/poller.rs,
-- `due_addresses` and `TieredPoller`.
use clutch_treasury.Base.{
  ℕ, zero, suc, Bool, false, Option, none, some, List, [], ◌∷◌, ◌++◌, map, ltb, length, Text,
  text_eq, update, exists_row, order_by, where_rows, not,
}
use clutch_treasury.Base.Int.{ℤ, sub_ℕ}
use clutch_treasury.Store.{warn}
use clutch_treasury.Orchestrator.Store.{
  DepositAddress, ObservedTransfer, OrchDb, addresses_failed, poller,
}
use clutch_treasury.Orchestrator.Deposits.{alert}
use clutch_treasury.Orchestrator.Custody.{CustodyWatcher}

-- LIMIT.
unfoldable pub take {ℓ} : {A : Type ℓ} → ℕ → List A → List A
take zero rows = []
take (suc n) [] = []
take (suc n) (r ∷ rows) = r ∷ take n rows

-- What is left after the first rows.
unfoldable pub drop_rows {ℓ} : {A : Type ℓ} → ℕ → List A → List A
drop_rows zero rows = rows
drop_rows (suc n) [] = []
drop_rows (suc n) (r ∷ rows) = drop_rows n rows

abbrev pub is_hot : ℕ → DepositAddress → Bool
is_hot now a = elim a.hot_until [ none ↦ false | some until ↦ ltb now until ]

-- `last_attempt_at ASC NULLS FIRST`.
abbrev pub attempted_at : DepositAddress → ℕ
attempted_at a = elim a.last_attempt_at [ none ↦ 0 | some t ↦ suc t ]

unfoldable pub due_addresses : ℕ → ℕ → OrchDb → List DepositAddress
unfolding take order_by where_rows
due_addresses now budget db =
    let rotation : List DepositAddress = order_by attempted_at db.deposit_addresses in
    take budget (where_rows (is_hot now) rotation ++ where_rows (λ a. not (is_hot now a)) rotation)

-- An hour before the last read that succeeded.
abbrev pub since : Option ℕ → Option ℤ
since none = none
since (some t) = some (sub_ℕ t 3600000)

-- What the loop over the due addresses gathers.
pub record Reads : Type 0 where
  pub found : List ObservedTransfer
  pub succeeded : List Text
  pub unread : List Text

abbrev pub add_read : Text → Option (List ObservedTransfer) → Reads → Reads
add_read address none rest = record rest { unread = address ∷ rest.unread }
add_read address (some ts) rest = record rest {
  found = ts ++ rest.found;
  succeeded = address ∷ rest.succeeded;
}

unfoldable pub read_addresses : CustodyWatcher → List DepositAddress → Reads
read_addresses chain [] = record { found = []; succeeded = []; unread = [] }
read_addresses chain (a ∷ due) =
    add_read a.address (chain a.address (since a.last_polled_at)) (read_addresses chain due)

-- `address = ANY(…)`.
abbrev pub is_among : List Text → DepositAddress → Bool
is_among addresses a = exists_row (text_eq a.address) addresses

abbrev pub stamp_attempt : ℕ → DepositAddress → DepositAddress
stamp_attempt now a = record a { last_attempt_at = some now }

abbrev pub stamp_read : ℕ → DepositAddress → DepositAddress
stamp_read now a = record a { last_polled_at = some now }

unfoldable pub stamp : ℕ → List Text → List Text → OrchDb → OrchDb
unfolding update exists_row text_eq
stamp now attempted succeeded db = record db {
  deposit_addresses =
      update (is_among succeeded) (stamp_read now)
        (update (is_among attempted) (stamp_attempt now) db.deposit_addresses);
}

abbrev pub warn_failed : ℕ → List Text → OrchDb → OrchDb
warn_failed now [] db = db
warn_failed now (a ∷ unread) db =
    alert now warn poller (addresses_failed (length (a ∷ unread)) (take 3 (a ∷ unread))) db

-- `TieredPoller::poll`.
unfoldable pub poll : ℕ → ℕ → CustodyWatcher → OrchDb → List ObservedTransfer × OrchDb
unfolding due_addresses read_addresses stamp take
poll now budget chain db =
    let due : List DepositAddress = due_addresses now budget db in
    let reads : Reads = read_addresses chain due in
    (
      reads.found,
      warn_failed now reads.unread (stamp now (map (λ a. a.address) due) reads.succeeded db),
    )
