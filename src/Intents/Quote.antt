-- ===== src/Intents/Quote.antt =====
-- What a redemption pays (intents.rs, `net_payout` and `create_redemption_intent`).
use clutch_treasury.Base.{◌+◌, ◌≤◌, ◌≡◌, ◌↔◌, some, arith}
use clutch_treasury.Base.Int.{
  ℤ, pos, ◌≤ℤ◌, ◌<ℤ◌, ◌-ℤ◌, ◌+ℤ◌, -ℤ_parts, eq_of_parts, int_laws, pos_part, i64_bound,
}
use clutch_treasury.Intents.{net_payout}

-- A quote exists exactly when the amount exceeds the fee, by at most what an `i64` holds, and it
-- is the amount less the fee.
net_payout_iff :
    (amount fee net : ℤ)
    → (net_payout amount fee ≡ some net)
      ↔ ((net ≡ amount -ℤ fee) × (fee <ℤ amount) × (pos_part net + 1 ≤ i64_bound))
unfolding net_payout
net_payout_iff amount fee net = (
  λ e. ground (arith, -ℤ_parts amount fee, eq_of_parts net (amount -ℤ fee)),
  λ h. ground (arith, -ℤ_parts amount fee, h.0),
)

-- What a redemption row promises: it burns the whole amount and pays the amount less the fee, so
-- with a fee that is not negative it never pays more than it burns.
net_payout-within_burn :
    (amount fee net : ℤ)
    → pos 0 ≤ℤ fee
    → net_payout amount fee ≡ some net
    → (pos 0 <ℤ net) × (net ≤ℤ amount) × (net +ℤ fee ≡ amount)
net_payout-within_burn amount fee net h e =
    let q = (net_payout_iff amount fee net).0 e in
    let split : net ≡ amount -ℤ fee = q.0 in
    rw split (omega (int_laws, q.1), omega int_laws, omega int_laws)
