-- ===== src/Ledger.antt =====
-- The reserve ledger: crates/treasury-service/src/ledger.rs and the view `ledger_balances` of
-- migrations/0001_init.sql and 0007_mint_reversed.sql. A failing database call is not modelled.
pub mod Totals
use clutch_treasury.Base.{
  ℕ, ◌+◌, Bool, true, false, ◌||◌, ◌&&◌, ◌≡◌, Option, none, some, List, [], ◌∷◌, ◌++◌, Text, ltb,
  if◌then◌else◌, sum_rows, exists_row, ◌==◌,
}
use clutch_treasury.Base.Int.{ℤ, sub_ℕ}
use mathlib.Core.Logic.{ite}
unfoldable pub use native.Mathlib.Decide.{ℕ_discrete}
use clutch_treasury.Store.{
  Event, EventKind, mint_executed, burn_redeemed, mint_reversed, custody_deposit,
  custody_withdrawal, buffer_topup, Db, Alert, Severity, Source, Notice, Reason,
}

pub record Balances : Type 0 where
  pub clt_liability : ℤ
  pub custody_usdt : ℤ

abbrev pub is_mint : Event → Bool
is_mint e = elim e.kind [ mint_executed ↦ true | _ ↦ false ]

-- The two kinds that lower the liability.
abbrev pub is_burn : Event → Bool
is_burn e = elim e.kind [ burn_redeemed ↦ true | mint_reversed ↦ true | _ ↦ false ]

abbrev pub is_inflow : Event → Bool
is_inflow e = elim e.kind [ custody_deposit ↦ true | buffer_topup ↦ true | _ ↦ false ]

abbrev pub is_outflow : Event → Bool
is_outflow e = elim e.kind [ custody_withdrawal ↦ true | _ ↦ false ]

-- `ledger_balances`, which `balances` reads.
unfoldable pub balances : Db → Balances
balances db = record {
  clt_liability =
      sub_ℕ (sum_rows is_mint (λ e. e.amount_clt) db.treasury_events)
        (sum_rows is_burn (λ e. e.amount_clt) db.treasury_events);
  custody_usdt =
      sub_ℕ (sum_rows is_inflow (λ e. e.amount_usdt) db.treasury_events)
        (sum_rows is_outflow (λ e. e.amount_usdt) db.treasury_events);
}

pub EventKind-discrete : Discrete EventKind
EventKind-discrete = hlevel

abbrev pub same_kind : EventKind → EventKind → Bool
same_kind a b = ite (EventKind-discrete a b) true false

abbrev pub same_intent : Option ℕ → ℕ → Bool
same_intent none i = false
same_intent (some j) i = j == i

-- `INSERT INTO alerts`, newest last.
abbrev pub alert : ℕ → Severity → Source → Notice → Db → Db
alert now severity source message db = record db {
  alerts =
      db.alerts
      ++ record { severity = severity; source = source; message = message; created_at = now } ∷ [];
}

ℤ-discrete : Discrete ℤ
ℤ-discrete = hlevel (ℕ_discrete)

Reason-discrete : Discrete Reason
Reason-discrete = hlevel (ℕ_discrete)

pub Notice-discrete : Discrete Notice
Notice-discrete = hlevel (ℕ_discrete, ℤ-discrete, Reason-discrete)

abbrev same_notice : Notice → Notice → Bool
same_notice a b = ite (Notice-discrete a b) true false

pub Source-discrete : Discrete Source
Source-discrete = hlevel

-- Silent where the same source has said the same within `seconds`.
unfoldable pub alert_once : ℕ → ℕ → Severity → Source → Notice → Db → Db
alert_once seconds now severity source message db =
    if exists_row
      (λ a.
        ite (Source-discrete a.source source) true false
        && same_notice a.message message
        && ltb now (a.created_at + seconds))
      db.alerts
    then db
    else alert now severity source message db

-- The key of the unique index `uq_events_intent_kind`.
abbrev pub is_event_of : ℕ → EventKind → Event → Bool
is_event_of id kind e = same_intent e.intent_id id && same_kind e.kind kind

-- `INSERT … ON CONFLICT (intent_id, kind) … DO NOTHING`.
abbrev pub snoc_event : Event → Db → Db
snoc_event e db = record db { treasury_events = db.treasury_events ++ e ∷ [] }

abbrev pub intent_event : ℕ → EventKind → ℕ → ℕ → Option Text → Event
intent_event id kind clt usdt tx_hash = record {
  kind = kind;
  amount_clt = clt;
  amount_usdt = usdt;
  intent_id = some id;
  chain_tx_hash = tx_hash;
}

unfoldable pub insert_event_once : ℕ → EventKind → ℕ → ℕ → Option Text → Db → Db
insert_event_once id kind clt usdt tx_hash db =
    if exists_row (is_event_of id kind) db.treasury_events
    then db
    else snoc_event (intent_event id kind clt usdt tx_hash) db

-- `append_event`, of an event that the caller's kind and intent make unique or that names none.
unfoldable pub append_event : EventKind → ℕ → ℕ → Option ℕ → Option Text → Db → Db
append_event kind clt usdt intent_id tx_hash db =
    snoc_event
      (record {
        kind = kind;
        amount_clt = clt;
        amount_usdt = usdt;
        intent_id = intent_id;
        chain_tx_hash = tx_hash;
      })
      db
