-- ===== src/Payout/Parse.antt =====
-- Which answers of the signer let a redemption be tried again (payout.rs, `pay`).
use clutch_treasury.Base.{
  ℕ, ◌≡◌, ◌⊎◌, inl, inr, refl, ap, true, false, Option, none, some, arith, Bool-cases, Text, codes,
  ◌==◌,
}
use clutch_treasury.Payout.Reply.{
  Body, Http, body, unreadable, status_code, no_answer, parse_reply, parse_body, is_status,
  parse_paid, parse_submitted, parse_refused,
}
use clutch_treasury.Payout.Budget.{at_risk}

-- The signer's words for an answer that it gives before any broadcast.
abbrev pub NamesRefusal : Body → Type 0
NamesRefusal b =
    (is_status b (codes "float_dry") ≡ true)
    ⊎ (is_status b (codes "cap_exceeded") ≡ true)
    ⊎ (is_status b (codes "needs_trx") ≡ true)
    ⊎ (is_status b (codes "float_not_active") ≡ true)
    ⊎ ((is_status b (codes "refused") ≡ true) × (b.nonce ≡ none) × (b.deadline ≡ none))

parse_paid-at_risk : (o : Option Text) → at_risk (parse_paid o) ≡ true
parse_paid-at_risk none = refl
parse_paid-at_risk (some t) = refl

parse_submitted-at_risk :
    (t : Option Text) (n d : Option ℕ) → at_risk (parse_submitted t n d) ≡ true
parse_submitted-at_risk t n d = ground arith

parse_refused-at_risk :
    (t : Text) (n d : Option ℕ) → (at_risk (parse_refused t n d) ≡ true) ⊎ ((n ≡ none) × (d ≡ none))
parse_refused-at_risk t n d = ground arith

parse_body-NamesRefusal : (b : Body) → (at_risk (parse_body b) ≡ true) ⊎ NamesRefusal b
unfolding parse_body
parse_body-NamesRefusal b =
    ground
      (arith, parse_paid-at_risk b.tx_id, parse_submitted-at_risk b.trace_id b.nonce b.deadline)

-- A reply that lets the redemption be tried again is the status code 400, or a readable success
-- answer that names one of the refusals made before anything is broadcast, a plain `refused` with
-- neither nonce nor deadline; every other outcome of the request counts as possibly paid.
pub parse_reply-NamesRefusal :
    (h : Http)
    → at_risk (parse_reply h) ≡ false
    → (h ≡ status_code 400) ⊎ ((b : Body) × (h ≡ body b) × NamesRefusal b)
unfolding parse_reply
parse_reply-NamesRefusal (body b) e = elim (parse_body-NamesRefusal b) [
  | inl risk ↦ cc
  | inr names ↦ inr (b, refl, names)
]
parse_reply-NamesRefusal unreadable e = cc
parse_reply-NamesRefusal (status_code n) e = elim (Bool-cases (n == 400)) [
  | inl bad_request ↦ inl (let same : n ≡ 400 = ground arith in ap status_code same)
  | inr other ↦ let e' : true ≡ false = rw other at e in cc
]
parse_reply-NamesRefusal no_answer e = cc
