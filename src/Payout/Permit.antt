-- ===== src/Payout/Permit.antt =====
-- When a redemption goes back from a GasFree permit (payout.rs, `confirm_gasfree_payouts_once`).
use clutch_treasury.Base.{
  ℕ, ◌≤◌, ◌≡◌, ◌⊎◌, inl, inr, Bool, true, false, Option, none, some, arith, Bool-cases, Text, leb,
  ◌==◌, Option-cases, refl, ap, text_eq_iff,
}
use clutch_treasury.Base.Int.{ℤ, pos, ◌<ℤ◌, add_i64, as_u64, leb_ℤ}
use clutch_treasury.Store.{RedemptionIntent, Db, p1, payout, paid_another, float_differs}
use clutch_treasury.Payout.Rows.{ClaimAnswer, answered, errored, deadline_grace_secs, redemption_is}
use clutch_treasury.Payout.Held.{Held, Held-update, alert_once-redemptions}
use clutch_treasury.Payout.Settle.{
  RelayView, Traced, decided, undecided, take_transfer, trace_payout, by_nonce, after_deadline,
  settle_row, paid_by_another, hand_over, unpermit, settle_traced, read_nonce, is_float,
  by_transfer, by_record,
}
use clutch_treasury.Payout.Confirmed.{pay_intent-keeps}

-- The permit can no longer run: its deadline and 300 seconds are past. The signer names the owner
-- of the float, and says that it signs for this float; the owner's nonce on the chain has not passed
-- the permit's.
pub record NeverRan (now : ℕ) (view : RelayView) (float : Text) (nonce deadline : ℤ) : Type 0 where
  pub expired : add_i64 deadline (pos 300) <ℤ pos now
  pub owner : Text
  pub of_float : view.float_owner ≡ some (owner, some float)
  pub chain_nonce : ℕ
  pub read : view.gasfree_nonce owner ≡ some chain_nonce
  pub not_passed : chain_nonce ≤ as_u64 nonce

traced_db : Traced → Db
traced_db (decided n db) = db
traced_db (undecided db) = db

take_transfer-keeps :
    (now i : ℕ) (r : RedemptionIntent) (tx : Text) (outcome : ClaimAnswer)
    (other : Option RedemptionIntent) (db : Db)
    → Held i db
    → Held i (traced_db (take_transfer now r tx outcome other db))
unfolding traced_db take_transfer
take_transfer-keeps now i r tx answered none db h =
    pay_intent-keeps now i r.id r.payout_amount_usdt tx db h
take_transfer-keeps now i r tx (errored true) none db h =
    pay_intent-keeps now i r.id r.payout_amount_usdt tx db h
take_transfer-keeps now i r tx (errored false) none db h = h
take_transfer-keeps now i r tx outcome (some other) db h =
    ground (arith, alert_once-redemptions 3600 now p1 payout (paid_another r.id tx other.id) db)

trace_payout-keeps :
    (now i : ℕ) (view : RelayView) (r : RedemptionIntent) (trace_id : Option Text) (db : Db)
    → Held i db
    → Held i (traced_db (trace_payout now view r trace_id db))
unfolding traced_db trace_payout
trace_payout-keeps now i view r none db h = h
trace_payout-keeps now i view r (some t) db h = by_trace (view.trace t)
  where
    by_transfer_read :
        (tx : Text) (c : Option Bool) → Held i (traced_db (by_transfer now view r tx c db))
    by_transfer_read tx none = h
    by_transfer_read tx (some false) = h
    by_transfer_read tx (some true) = elim (Bool-cases (view.another_readable r.id)) [
      | inl can ↦
          rw can
            (take_transfer-keeps now i r tx (view.recorded r.id) (paid_by_another r.id tx db) db h)
      | inr not_now ↦ rw not_now h
    ]

    by_trace : (t : Option (Option Text)) → Held i (traced_db (by_record now view r t db))
    by_trace none = h
    by_trace (some none) = h
    by_trace (some (some tx)) = by_transfer_read tx (view.confirmed_transfer tx r.id)

by_nonce-keeps :
    (now i id : ℕ) (nonce : ℤ) (written : Bool) (n : ℕ) (db : Db)
    → Held i db
    → Held i (by_nonce now id nonce written n db) ⊎ ((i ≡ id) × (n ≤ as_u64 nonce))
unfolding by_nonce
by_nonce-keeps now i id nonce false n db h = ground (arith, h)
by_nonce-keeps now i id nonce true n db h = elim (Bool-cases (leb n (as_u64 nonce))) [
  | inl low ↦ elim (Bool-cases (i == id)) [
    | inl own ↦ inr (ground arith, ground arith)
    | inr other ↦
        inl
          (rw low (Held-update i _ (unpermit now) db.redemption_intents (λ r a b. ground arith) h))
  ]
  | inr past ↦ inl (
      rw past (
        Held-update i (redemption_is id) hand_over db.redemption_intents (λ r a b. ground arith) h))
]

-- Where the row of redemption `i` may be claimed again after the deadline.
abbrev Freed : RelayView → Text → Option (Text × Option Text) → ℕ → ℕ → ℤ → Type 0
Freed view float named i id nonce =
    (i ≡ id)
    × (owner : Text) × (n : ℕ) × (named ≡ some (owner, some float))
    × (view.gasfree_nonce owner ≡ some n)
    × (n ≤ as_u64 nonce)

is_float-same : (float : Text) (t : Option Text) → is_float float t ≡ true → t ≡ some float
is_float-same float none e = cc
is_float-same float (some t) e = ap some ((text_eq_iff t float).0 e)

after_deadline-keeps :
    (now i id : ℕ) (view : RelayView) (float : Text) (nonce : ℤ)
    (owner : Option (Text × Option Text)) (db : Db)
    → Held i db
    → Held i (after_deadline now view float id nonce owner db) ⊎ Freed view float owner i id nonce
unfolding after_deadline
after_deadline-keeps now i id view float nonce none db h = inl h
after_deadline-keeps now i id view float nonce (some (owner, signers)) db h =
    elim (Bool-cases (is_float float signers)) [
      | inl ours ↦ rw ours (elim (by_read (Option-cases (view.gasfree_nonce owner))) [
        | inl kept ↦ inl kept
        | inr (own, n, e, low) ↦
            inr
              (own, owner, n, ap (λ t. some (owner, t)) (is_float-same float signers ours), e, low)
      ])
      | inr others ↦ rw others (
          inl
            (ground (arith, alert_once-redemptions 3600 now p1 payout (float_differs signers) db)))
    ]
  where
    by_read :
        (view.gasfree_nonce owner ≡ none) ⊎ ((n : ℕ) × (view.gasfree_nonce owner ≡ some n))
        → Held i (read_nonce now id nonce (view.written id) (view.gasfree_nonce owner) db)
          ⊎ ((i ≡ id) × (n : ℕ) × (view.gasfree_nonce owner ≡ some n) × (n ≤ as_u64 nonce))
    by_read (inl e) = rw e (inl h)
    by_read (inr (n, e)) = elim (by_nonce-keeps now i id nonce (view.written id) n db h) [
      | inl kept ↦ rw e (inl kept)
      | inr (own, low) ↦ rw e (inr (own, n, refl, low))
    ]

-- Settling a row that carries a permit makes no redemption claimable that was not, except its own,
-- and that only where the permit's deadline and five more minutes are past, the signer signs for
-- the configured float, and the chain's nonce of the owner that it names for it has not passed the
-- permit's.
pub settle_row-Held :
    (now i : ℕ) (view : RelayView) (float : Text) (r : RedemptionIntent) (nonce deadline : ℤ)
    (db : Db)
    → Held i db
    → Held i (settle_row now view float r (some nonce) (some deadline) db).1
      ⊎ ((i ≡ r.id) × NeverRan now view float nonce deadline)
unfolding settle_row traced_db
settle_row-Held now i view float r nonce deadline db h =
    by_traced (trace_payout now view r r.payout_trace_id db)
      (trace_payout-keeps now i view r r.payout_trace_id db h)
  where
    by_traced :
        (t : Traced)
        → Held i (traced_db t)
        → Held i (settle_traced now view float r nonce deadline t).1
          ⊎ ((i ≡ r.id) × NeverRan now view float nonce deadline)
    by_traced (decided n db') h' = inl h'
    by_traced (undecided db') h' =
        elim (Bool-cases (leb_ℤ (pos now) (add_i64 deadline (pos deadline_grace_secs)))) [
          | inl runs ↦ rw runs (inl h')
          | inr over ↦
              rw over
                (elim (after_deadline-keeps now i r.id view float nonce view.float_owner db' h') [
                  | inl kept ↦ inl kept
                  | inr (own, owner, n, ours, read, low) ↦ inr (
                    own,
                    record {
                      expired = ground arith;
                      owner = owner;
                      of_float = ours;
                      chain_nonce = n;
                      read = read;
                      not_passed = low;
                    },
                  )
                ])
        ]
