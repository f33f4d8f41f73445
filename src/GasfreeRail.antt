-- ===== src/GasfreeRail.antt =====
-- What a deposit to a GasFree account may mint: crates/treasury-service/src/gasfree_rail.rs and
-- `fee_to_hold` of crates/gasfree/src/lib.rs.
use clutch_treasury.Base.{Bool, true, false, if◌then◌else◌}
use clutch_treasury.Base.Int.{ℤ, pos, ltb_ℤ, saturating_sub, add_i64}

pub data DepositMint : Type 0 where
  mint : ℤ → DepositMint
  below_minimum : ℤ → DepositMint
  nothing_to_mint : DepositMint

abbrev pub judge_cap : ℤ → ℤ → DepositMint
judge_cap cap min_deposit_usdt =
    if ltb_ℤ cap (pos 1)
    then nothing_to_mint
    else if ltb_ℤ cap min_deposit_usdt
    then below_minimum cap
    else mint cap

-- `saturating_sub`, then the judgement.
unfoldable pub deposit_mint : ℤ → ℤ → ℤ → DepositMint
unfolding saturating_sub
deposit_mint observed_usdt fee_usdt min_deposit_usdt =
    judge_cap (saturating_sub observed_usdt fee_usdt) min_deposit_usdt

unfoldable pub fee_to_hold : Bool → ℤ → ℤ → ℤ
unfolding add_i64
fee_to_hold true activate_max_usdt transfer_max_usdt = transfer_max_usdt
fee_to_hold false activate_max_usdt transfer_max_usdt = add_i64 activate_max_usdt transfer_max_usdt
