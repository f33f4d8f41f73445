-- ===== src/Payout/Held.antt =====
-- Which redemptions the payout worker leaves unclaimable (payout.rs, `drain_once`).
use clutch_treasury.Base.{
  ℕ, ◌+◌, ◌≡◌, inl, inr, refl, subst, Bool, true, false, none, some, List, [], ◌∷◌, arith,
  Bool-cases, if◌then◌else◌, exists_row, update,
}
use clutch_treasury.Base.Int.{ℤ}
use clutch_treasury.Store.{
  AppConfig, Db, Severity, Source, Notice, p1, warn, payout, gasfree_off, float_not_active,
  return_failed, RedemptionIntent,
}
use clutch_treasury.Ledger.{alert_once}
use clutch_treasury.Payout.Reply.{
  PayoutReply, paid, float_dry, cap_exceeded, needs_trx, refused, ambiguous, submitted,
  refused_by_relay, float_inactive,
}
use clutch_treasury.Payout.Rows.{
  State, Flow, continue_with, break_off, PayoutItem, Answers, ClaimAnswer, answered, errored,
  is_claimable, claim_row, hand_back, redemption_is, set_hold, set_permit, longest_permit_secs,
  deadline_grace_secs, page,
}
use clutch_treasury.Payout.Budget.{at_risk}
use clutch_treasury.Payout.{
  Pass, record_reply, claim_and_pay, pay_row, pay_rows, warn_gasfree_off, idle,
}

-- No row of the redemption can be claimed.
abbrev pub Held : ℕ → Db → Type 0
Held id db = exists_row (is_claimable id) db.redemption_intents ≡ false

-- An update that makes no row of the redemption claimable.
pub Held-update :
    (id : ℕ) (p : RedemptionIntent → Bool) (f : RedemptionIntent → RedemptionIntent)
    (rows : List RedemptionIntent)
    → ((r : RedemptionIntent)
        → is_claimable id r ≡ false
        → p r ≡ true
        → is_claimable id (f r) ≡ false)
    → exists_row (is_claimable id) rows ≡ false
    → exists_row (is_claimable id) (update p f rows) ≡ false
unfolding exists_row update
Held-update id p f [] keep h = refl
Held-update id p f (r ∷ rows) keep h =
    ground (arith, keep r, Held-update id p f rows keep, Bool-cases (p r))

-- An update of every row with a property that takes the property away.
update-clears :
    {A : Type 0} (p : A → Bool) (f : A → A)
    → ((x : A) → p (f x) ≡ false)
    → (xs : List A) → exists_row p (update p f xs) ≡ false
unfolding exists_row update
update-clears p f gone [] = refl
update-clears p f gone (x ∷ xs) =
    ground (arith, gone x, update-clears p f gone xs, Bool-cases (p x))

-- The claim takes every row that could be claimed.
pub claim_row-Held : (now id : ℕ) (s : State) → Held id (claim_row now id s).db
unfolding claim_row
claim_row-Held now id s =
    update-clears (is_claimable id) _ (λ r. ground arith) s.db.redemption_intents

claim_row-keeps : (now i id : ℕ) (s : State) → Held i s.db → Held i (claim_row now id s).db
unfolding claim_row
claim_row-keeps now i id s h =
    Held-update i (is_claimable id) _ s.db.redemption_intents (λ r a b. ground arith) h

hand_back-keeps :
    (now i id : ℕ) (s : State) → (i ≡ id → ⊥) → Held i s.db → Held i (hand_back now id s).db
unfolding hand_back
hand_back-keeps now i id s other h =
    Held-update i _ _ s.db.redemption_intents (λ r a b. ground (arith, other)) h

pub alert_once-redemptions :
    (seconds now : ℕ) (v : Severity) (c : Source) (n : Notice) (db : Db)
    → (alert_once seconds now v c n db).redemption_intents ≡ db.redemption_intents
unfolding alert_once
alert_once-redemptions seconds now v c n db = ground arith

-- Recording a reply for one redemption leaves another held, and a reply after which the float may
-- have paid leaves its own held.
pub record_reply-keeps :
    (config : AppConfig) (now i : ℕ) (item : PayoutItem) (written : Bool) (t : ℤ)
    (reply : PayoutReply) (s : State)
    → (i ≡ item.id → at_risk reply ≡ true)
    → Held i s.db
    → Held i (record_reply config now item written t reply s).state.db
unfolding record_reply
record_reply-keeps config now i item true t (paid tx) s risk h =
    Held-update i _ _ s.db.redemption_intents (λ r a b. ground arith) h
record_reply-keeps config now i item false t (paid tx) s risk h = h
record_reply-keeps config now i item written t (float_dry a b c) s risk h =
    ground (arith, hand_back-keeps now i item.id s (λ e. ground (arith, risk e)) h)
record_reply-keeps config now i item written t (cap_exceeded a) s risk h =
    ground (arith, hand_back-keeps now i item.id s (λ e. ground (arith, risk e)) h)
record_reply-keeps config now i item written t needs_trx s risk h =
    ground (arith, hand_back-keeps now i item.id s (λ e. ground (arith, risk e)) h)
record_reply-keeps config now i item written t (refused a) s risk h =
    ground (arith, hand_back-keeps now i item.id s (λ e. ground (arith, risk e)) h)
record_reply-keeps config now i item written t (ambiguous a) s risk h = ground (
  arith,
  Held-update i (redemption_is item.id) (set_hold (now + longest_permit_secs + deadline_grace_secs))
      s.db.redemption_intents (λ r a b. ground arith) h,
)
record_reply-keeps config now i item written t (submitted a b c) s risk h =
    let s' = warn_gasfree_off config now s in
    let same : s'.db.redemption_intents ≡ s.db.redemption_intents =
      ground (arith, alert_once-redemptions 3600 now p1 payout gasfree_off s.db) in
    ground (
      arith,
      same,
      Held-update i (redemption_is item.id) (set_permit now (some a) b c) s.db.redemption_intents
          (λ r x y. ground arith) h,
    )
record_reply-keeps config now i item written t (refused_by_relay a b c) s risk h =
    let s' = warn_gasfree_off config now s in
    let same : s'.db.redemption_intents ≡ s.db.redemption_intents =
      ground (arith, alert_once-redemptions 3600 now p1 payout gasfree_off s.db) in
    ground (
      arith,
      same,
      Held-update i (redemption_is item.id) (set_permit now none b c) s.db.redemption_intents
          (λ r x y. ground arith) h,
    )
record_reply-keeps config now i item written t (float_inactive a) s risk h = ground (
  arith,
  hand_back-keeps now i item.id s (λ e. ground (arith, risk e)) h,
  alert_once-redemptions 3600 now warn payout (float_not_active a)
      (if written then hand_back now item.id s else page now (return_failed item.id) s).db,
)

claim_and_pay-keeps :
    (config : AppConfig) (now i : ℕ) (item : PayoutItem) (answers : Answers) (claim : ClaimAnswer)
    (t : ℤ) (s : State)
    → Held i s.db
    → Held i (claim_and_pay config now item answers claim t s).state.db
unfolding claim_and_pay
claim_and_pay-keeps config now i item answers (errored true) t s h =
    claim_row-keeps now i item.id s h
claim_and_pay-keeps config now i item answers (errored false) t s h = h
claim_and_pay-keeps config now i item answers answered t s h =
    elim (Bool-cases (exists_row (is_claimable item.id) s.db.redemption_intents)) [
      | inl found ↦ rw found (
          record_reply-keeps config now i item answers.written t answers.reply
            (claim_row now item.id s) (λ e. ground (arith, clash e found))
            (claim_row-keeps now i item.id s h))
      | inr gone ↦ rw gone h
    ]
  where
    clash : i ≡ item.id → exists_row (is_claimable item.id) s.db.redemption_intents ≡ true → ⊥
    clash e found = let h' : Held item.id s.db = subst (λ k. Held k s.db) e h in cc

pub pay_row-keeps :
    (config : AppConfig) (now i : ℕ) (item : PayoutItem) (answers : Answers) (t : ℤ) (s : State)
    → Held i s.db
    → Held i (pay_row config now item answers t s).state.db
unfolding pay_row
pay_row-keeps config now i item answers t s h =
    ground (arith, claim_and_pay-keeps config now i item answers answers.claim t s h)

pub pay_rows-keeps :
    (config : AppConfig) (now i : ℕ) (answers : ℕ → Answers) (items : List PayoutItem) (t : ℤ)
    (s : State)
    → Held i s.db
    → Held i (pay_rows config now answers items t s).state.db
unfolding pay_rows
pay_rows-keeps config now i answers [] t s h = h
pay_rows-keeps config now i answers (item ∷ items) t s h =
    next (pay_row config now item (answers item.id) t s).flow
      (λ u. pay_rows-keeps config now i answers items u _ kept)
  where
    first : State
    first = (pay_row config now item (answers item.id) t s).state

    kept : Held i first.db
    kept = pay_row-keeps config now i item (answers item.id) t s h

    next :
        (f : Flow)
        → ((u : ℤ) → Held i (pay_rows config now answers items u first).state.db)
        → let rest : Pass = elim f [
          | continue_with u ↦ pay_rows config now answers items u first
          | break_off ↦ idle first
        ] in
          Held i rest.state.db
    next (continue_with u) rest = rest u
    next break_off rest = kept
