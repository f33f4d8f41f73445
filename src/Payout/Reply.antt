-- ===== src/Payout/Reply.antt =====
-- The signer's answer to a payout request: `PayoutReply` and `HttpPayoutSigner::pay` of
-- crates/treasury-service/src/payout.rs. The HTTP exchange is an argument: its outcome, and the
-- JSON fields that the parser reads, by their type.
use clutch_treasury.Base.{
  ℕ, Bool, Option, none, some, Text, codes, text_eq, if◌then◌else◌, ◌==◌, [],
}
use clutch_treasury.Base.Int.{ℤ, pos}

pub data PayoutReply : Type 0 where
  paid : Text → PayoutReply
  float_dry : Text → ℤ → ℤ → PayoutReply
  cap_exceeded : ℤ → PayoutReply
  needs_trx : PayoutReply
  refused : Text → PayoutReply
  ambiguous : Text → PayoutReply
  submitted : Text → ℕ → ℕ → PayoutReply
  refused_by_relay : Text → ℕ → ℕ → PayoutReply
  float_inactive : Text → PayoutReply

pub record Body : Type 0 where
  pub status : Option Text
  pub tx_id : Option Text
  pub float_address : Option Text
  pub have_usdt : Option ℤ
  pub need_usdt : Option ℤ
  pub limit_usdt : Option ℤ
  pub trace_id : Option Text
  pub nonce : Option ℕ
  pub deadline : Option ℕ
  pub reason : Option Text

-- Success with a body or an unreadable one, another status code, or no answer.
pub data Http : Type 0 where
  body : Body → Http
  unreadable : Http
  status_code : ℕ → Http
  no_answer : Http

abbrev pub or_else {ℓ} : {A : Type ℓ} → A → Option A → A
or_else d none = d
or_else d (some a) = a

abbrev pub parse_paid : Option Text → PayoutReply
parse_paid none = ambiguous (codes "signer reported paid with no tx_id")
parse_paid (some tx) = paid tx

abbrev pub parse_submitted : Option Text → Option ℕ → Option ℕ → PayoutReply
parse_submitted (some trace_id) (some nonce) (some deadline) = submitted trace_id nonce deadline
parse_submitted _ _ _ = ambiguous (codes "signer reported submitted without the permit")

abbrev pub parse_refused : Text → Option ℕ → Option ℕ → PayoutReply
parse_refused reason none none = refused reason
parse_refused reason (some nonce) (some deadline) = refused_by_relay reason nonce deadline
parse_refused reason _ _ = ambiguous (codes "signer reported a refusal with half a permit")

abbrev pub is_status : Body → Text → Bool
is_status b name = text_eq (or_else [] b.status) name

unfoldable pub parse_body : Body → PayoutReply
parse_body b =
    if is_status b (codes "paid")
    then parse_paid b.tx_id
    else if is_status b (codes "float_dry")
    then float_dry (or_else (codes "unknown") b.float_address) (or_else (pos 0) b.have_usdt)
        (or_else (pos 0) b.need_usdt)
    else if is_status b (codes "cap_exceeded")
    then cap_exceeded (or_else (pos 0) b.limit_usdt)
    else if is_status b (codes "needs_trx")
    then needs_trx
    else if is_status b (codes "submitted")
    then parse_submitted b.trace_id b.nonce b.deadline
    else if is_status b (codes "float_not_active")
    then float_inactive (or_else (codes "unknown") b.float_address)
    else if is_status b (codes "refused")
    then parse_refused (or_else (codes "signer reported refused with no reason") b.reason) b.nonce
        b.deadline
    else ambiguous (codes "unrecognised signer status")

unfoldable pub parse_reply : Http → PayoutReply
unfolding parse_body
parse_reply (body b) = parse_body b
parse_reply unreadable = ambiguous (codes "unreadable signer response")
parse_reply (status_code n) =
    if n == 400
    then refused (codes "signer rejected the request as malformed")
    else ambiguous (codes "signer returned")
parse_reply no_answer = ambiguous (codes "signer unreachable or timed out")
