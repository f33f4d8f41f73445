-- ===== src/Breakers/Backing.antt =====
-- The backing ratio without its truncation (crates/treasury-service/src/breakers.rs,
-- `check_mint_inner`).
use clutch_treasury.Base.{ℕ, suc, ◌+◌, ◌*◌, ◌/◌, ◌≤◌, ◌<◌, ◌≡◌, ◌↔◌, arith}
use clutch_treasury.Base.Int.{ℤ, pos, negsuc, ◌≤ℤ◌, sub_ℕ, scale, div_trunc}
use clutch_treasury.Breakers.{ratio_bps}

-- The threshold in basis points, the custody and the positive liability: what custody has to be.
-- The ratio is cut towards zero, so that a negative custody passes a threshold while it is less
-- than one point below it.
abbrev pub Covers : ℤ → ℤ → ℕ → Type 0
Covers (pos b) (pos c) liability = b * liability ≤ 10000 * c
Covers (negsuc b) (pos c) liability = Unit
Covers (pos b) (negsuc c) liability = (b ≡ 0) × (10000 * suc c < liability)
Covers (negsuc b) (negsuc c) liability = 10000 * suc c < (b + 1 + 1) * liability

le-div : (q a d : ℕ) → 0 < d → (q ≤ a / d) ↔ (q * d ≤ a)
le-div q a d h = (λ k. grind (arith), λ k. grind (arith))

div-lt : (q a d : ℕ) → 0 < d → (a / d ≤ q) ↔ (a < (q + 1) * d)
div-lt q a d h = (λ k. grind (arith), λ k. grind (arith))

ratio_bps-neg :
    (c liability : ℕ) → ratio_bps (negsuc c) (pos liability) ≡ sub_ℕ 0 (10000 * suc c / liability)
unfolding ratio_bps scale div_trunc
ratio_bps-neg c liability = ground arith

-- Above a positive liability, the truncated ratio reaches the threshold exactly there.
pub ratio_bps_iff :
    (bps custody : ℤ) (liability : ℕ)
    → 0 < liability
    → (bps ≤ℤ ratio_bps custody (pos liability)) ↔ Covers bps custody liability
unfolding ratio_bps scale div_trunc
ratio_bps_iff (pos b) (pos c) liability h = (
  λ k. (le-div b (10000 * c) liability h).0 (omega arith),
  λ k. let q = (le-div b (10000 * c) liability h).1 k in omega arith,
)
ratio_bps_iff (negsuc b) (pos c) liability h = (λ k. tt, λ k. omega arith)
ratio_bps_iff (pos b) (negsuc c) liability h = rw (ratio_bps-neg c liability) (
  λ k. (ground arith, omega (arith, (div-lt 0 (10000 * suc c) liability h).0 (ground arith))),
  λ k. let q = (div-lt 0 (10000 * suc c) liability h).1 (omega (arith, k.1)) in ground arith,
)
ratio_bps_iff (negsuc b) (negsuc c) liability h = rw (ratio_bps-neg c liability) (
  λ k. (div-lt (b + 1) (10000 * suc c) liability h).0 (ground arith),
  λ k. let q = (div-lt (b + 1) (10000 * suc c) liability h).1 k in ground arith,
)
