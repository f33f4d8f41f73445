-- ===== src/Verifier/Caps.antt =====
-- The cap of a deposit to a GasFree account (gasfree_rail.rs, `deposit_mint`, and `fee_to_hold` of
-- crates/gasfree/src/lib.rs).
use clutch_treasury.Base.{◌≡◌, arith, Bool-cases, inl, inr}
use clutch_treasury.Base.Int.{ℤ, pos, negsuc, ◌≤ℤ◌, ◌<ℤ◌, ◌+ℤ◌, ◌-ℤ◌, IsI64, saturating_sub, ltb_ℤ}
use clutch_treasury.GasfreeRail.{
  DepositMint, mint, below_minimum, nothing_to_mint, deposit_mint, judge_cap,
}

-- What a verdict means: with the fee held back, what is minted at most and what it leaves.
abbrev pub CapMeans : ℤ → ℤ → ℤ → DepositMint → Type 0
CapMeans observed fee least (mint limit) =
    (limit +ℤ fee ≡ observed) × (pos 1 ≤ℤ limit) × (least ≤ℤ limit)
CapMeans observed fee least (below_minimum limit) =
    (limit +ℤ fee ≡ observed) × (pos 1 ≤ℤ limit) × (limit <ℤ least)
CapMeans observed fee least nothing_to_mint = observed ≤ℤ fee

saturating_sub-used :
    (a b : ℤ)
    → IsI64 a
    → IsI64 b
    → pos 0 ≤ℤ b
    → (pos 1 ≤ℤ saturating_sub a b → saturating_sub a b +ℤ b ≡ a)
      × (saturating_sub a b <ℤ pos 1 → a ≤ℤ b)
unfolding saturating_sub ◌+ℤ◌ ◌-ℤ◌
saturating_sub-used (pos a) (pos b) h k p = (λ e. ground arith, λ e. ground arith)
saturating_sub-used (negsuc a) (pos b) h k p = (λ e. ground arith, λ e. ground arith)
saturating_sub-used a (negsuc b) h k p = absurd (ground arith)

judge_cap-Means :
    (limit observed fee least : ℤ)
    → (pos 1 ≤ℤ limit → limit +ℤ fee ≡ observed)
    → (limit <ℤ pos 1 → observed ≤ℤ fee)
    → CapMeans observed fee least (judge_cap limit least)
judge_cap-Means limit observed fee least exact spent = elim (Bool-cases (ltb_ℤ limit (pos 1))) [
  | inl none_left ↦ rw none_left (spent (ground (arith, none_left)))
  | inr some_left ↦
      let one : pos 1 ≤ℤ limit = ground (arith, some_left) in
      elim (Bool-cases (ltb_ℤ limit least)) [
        | inl small ↦ rw (some_left, small) (exact one, one, ground (arith, small))
        | inr enough ↦ rw (some_left, enough) (exact one, one, ground (arith, enough))
      ]
]

-- For an observed amount of an i64 and a fee that is not negative: a mint or a hold keeps back
-- exactly the fee, is of at least one unit, and is at or below the minimum deposit as it says;
-- nothing may be minted only where the fee takes all of it. The subtraction never saturates where
-- the result is used.
pub deposit_mint-Means :
    (observed fee least : ℤ)
    → IsI64 observed
    → IsI64 fee
    → pos 0 ≤ℤ fee
    → CapMeans observed fee least (deposit_mint observed fee least)
unfolding deposit_mint
deposit_mint-Means observed fee least h k positive =
    let used = saturating_sub-used observed fee h k positive in
    judge_cap-Means (saturating_sub observed fee) observed fee least used.0 used.1
