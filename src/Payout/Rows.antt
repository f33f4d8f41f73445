-- ===== src/Payout/Rows.antt =====
-- The rows and the state of the payout worker: crates/treasury-service/src/payout.rs. What the
-- signer, and each write after the read of the rows, answers is an argument: one `Answers` for
-- each intent. The two sets of intents that were alerted live in the process.
use clutch_treasury.Base.{
  ℕ, Bool, true, false, ◌&&◌, ◌||◌, not, ◌==◌, Option, none, some, List, [], is_some, Text, update,
  exists_row, sum_rows,
}
use clutch_treasury.Base.Int.{ℤ, pos, ltb_ℤ, as_i64}
use clutch_treasury.Store.{RedemptionIntent, RedemptionStatus, Db, Notice, p1, payout}
use clutch_treasury.Ledger.{alert}
use clutch_treasury.Breakers.{within, day}
use clutch_treasury.Payout.Reply.{PayoutReply}

abbrev pub is_payout_pending : RedemptionStatus → Bool
is_payout_pending s = elim s [ RedemptionStatus.payout_pending ↦ true | _ ↦ false ]

abbrev pub is_payout_submitted : RedemptionStatus → Bool
is_payout_submitted s = elim s [ RedemptionStatus.payout_submitted ↦ true | _ ↦ false ]

abbrev is_spent : RedemptionStatus → Bool
is_spent s = elim s [
  | RedemptionStatus.payout_submitted ↦ true
  | RedemptionStatus.paid ↦ true
  | _ ↦ false
]

abbrev submitted_today : ℕ → Option ℕ → Bool
submitted_today now none = false
submitted_today now (some t) = within day now t

unfoldable pub daily_payout_total : ℕ → Db → ℕ
daily_payout_total now db =
    sum_rows (λ r. is_spent r.status && submitted_today now r.payout_submitted_at)
      (λ r. r.amount_clt) db.redemption_intents

-- A permit that may still run: its nonce is recorded, or it has a deadline to come.
abbrev later_than : Option ℤ → ℕ → Bool
later_than none now = false
later_than (some deadline) now = ltb_ℤ (pos now) deadline

abbrev pub in_doubt : ℕ → RedemptionIntent → Bool
in_doubt now r =
    is_payout_submitted r.status
    && not (is_some r.payout_ref)
    && (is_some r.payout_permit_nonce || later_than r.payout_permit_deadline now)

-- What the pass reads of a pending row.
pub record PayoutItem : Type 0 where
  pub id : ℕ
  pub payout_address : Text
  pub amount_clt : ℕ
  pub payout_amount_usdt : ℕ

abbrev pub payout_item : RedemptionIntent → PayoutItem
payout_item r = record {
  id = r.id;
  payout_address = r.payout_address;
  amount_clt = r.amount_clt;
  payout_amount_usdt = r.payout_amount_usdt;
}

-- The claim goes through, or it errors, and then it may have been committed all the same.
pub data ClaimAnswer : Type 0 where
  answered : ClaimAnswer
  errored : Bool → ClaimAnswer

pub record Answers : Type 0 where
  pub claim : ClaimAnswer
  pub reply : PayoutReply
  -- The write that records the reply succeeds.
  pub written : Bool

pub record State : Type 0 where
  pub db : Db
  pub over_cap_alerted : List ℕ
  pub payout_refused_alerted : List ℕ

-- A call of `signer.pay`, with its answer.
pub record Call : Type 0 where
  pub item : PayoutItem
  pub to : Text
  pub amount_usdt : ℕ
  pub reply : PayoutReply

-- The next iteration of the loop with its `day_total`, or a `break`.
pub data Flow : Type 0 where
  continue_with : ℤ → Flow
  break_off : Flow

pub record Step : Type 0 where
  pub state : State
  pub calls : List Call
  pub processed : ℕ
  pub flow : Flow

abbrev pub step : State → ℕ → Flow → Step
step s n flow = record { state = s; calls = []; processed = n; flow = flow }

abbrev pub on_db : (Db → Db) → State → State
on_db f s = record s { db = f s.db }

abbrev pub set_where :
    (RedemptionIntent → Bool) → (RedemptionIntent → RedemptionIntent) → State → State
set_where p f = on_db (λ db. record db { redemption_intents = update p f db.redemption_intents })

-- An alert that a human has to act on.
abbrev pub page : ℕ → Notice → State → State
page now n = on_db (alert now p1 payout n)

abbrev pub set_claimed : ℕ → RedemptionIntent → RedemptionIntent
set_claimed now r = record r {
  status = RedemptionStatus.payout_submitted;
  payout_submitted_at = some now;
  updated_at = now;
}

abbrev pub is_claimable : ℕ → RedemptionIntent → Bool
is_claimable id r = r.id == id && is_payout_pending r.status

unfoldable pub claim_row : ℕ → ℕ → State → State
claim_row now id = set_where (is_claimable id) (set_claimed now)

abbrev pub set_pending : ℕ → RedemptionIntent → RedemptionIntent
set_pending now r = record r { status = RedemptionStatus.payout_pending; updated_at = now }

unfoldable pub hand_back : ℕ → ℕ → State → State
hand_back now id = set_where (λ r. r.id == id && is_payout_submitted r.status) (set_pending now)

abbrev pub redemption_is : ℕ → RedemptionIntent → Bool
redemption_is id r = r.id == id

abbrev pub set_ref : ℕ → Text → RedemptionIntent → RedemptionIntent
set_ref now tx_id r = record r { payout_ref = some tx_id; updated_at = now }

abbrev pub set_permit : ℕ → Option Text → ℕ → ℕ → RedemptionIntent → RedemptionIntent
set_permit now trace_id nonce deadline r = record r {
  payout_trace_id = trace_id;
  payout_permit_nonce = some (as_i64 nonce);
  payout_permit_deadline = some (as_i64 deadline);
  updated_at = now;
}

abbrev pub set_hold : ℕ → RedemptionIntent → RedemptionIntent
set_hold until r = record r { payout_permit_deadline = some (pos until) }

abbrev pub longest_permit_secs : ℕ
longest_permit_secs = 600

abbrev pub deadline_grace_secs : ℕ
deadline_grace_secs = 300

abbrev pub member : ℕ → List ℕ → Bool
member id ids = exists_row (λ n. n == id) ids
