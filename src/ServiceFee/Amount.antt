-- ===== src/ServiceFee/Amount.antt =====
-- The fee of one mint (service_fee.rs, `service_fee`).
use clutch_treasury.Base.{ℕ, ◌*◌, ◌/◌, ◌≤◌, ◌<◌, ◌≡◌, ◌⊎◌, arith}
use clutch_treasury.Base.Int.{ℤ, pos, ◌≤ℤ◌, ◌<ℤ◌, i64_bound, pos_part, as_i64}
use clutch_treasury.ServiceFee.{service_fee, share}

as_i64-exact : (n : ℕ) → n < i64_bound → as_i64 n ≡ pos n
unfolding as_i64
as_i64-exact n h = ground arith

-- At most the whole mint: no wrap-around below 100 percent.
share-exact :
    (minted bps : ℕ)
    → minted < i64_bound
    → bps ≤ 10000
    → share minted bps ≡ pos (minted * bps / 10000)
unfolding share
share-exact minted bps h k = as_i64-exact (minted * bps / 10000) (grind arith)

share-le : (minted bps : ℕ) → bps ≤ 10000 → minted * bps / 10000 ≤ minted
share-le minted bps h = grind arith

-- The fee on a mint is never negative and never the whole mint, whatever the minimum; and where it
-- is charged at all it is the larger of the exact share, rounded down, and the minimum.
pub service_fee_bounds :
    (minted : ℤ) (bps minimum : ℕ)
    → pos_part minted < i64_bound
    → bps ≤ 10000
    → let fee = service_fee minted bps (pos minimum) in
      (pos 0 ≤ℤ fee)
      × (pos 0 <ℤ minted → fee <ℤ minted)
      × ((fee ≡ pos 0)
          ⊎ ((pos minimum ≤ℤ fee)
              × (pos (pos_part minted * bps / 10000) ≤ℤ fee)
              × ((fee ≡ pos minimum) ⊎ (fee ≡ pos (pos_part minted * bps / 10000)))))
unfolding service_fee
service_fee_bounds minted bps minimum h k = ground (arith, share-exact (pos_part minted) bps h k)
