-- ===== src/Tests/Edge.antt =====
-- The request limiter and the BSC units on small inputs.
use clutch_treasury.Base.{
  ℕ, ◌+◌, ◌-◌, ◌*◌, ◌^◌, ◌≤◌, ◌<◌, ◌≡◌, ◌↔◌, refl, some, List, [], ◌∷◌, arith, Text, codes,
  exists_row, text_eq, find,
}
use clutch_treasury.Base.Int.{i64_bound}
use clutch_treasury.RateLimiter.{RateLimiter, retry_after, check, check_entry}
use clutch_treasury.RateLimiter.Bounds.{InBounds, check-InBounds}
use clutch_treasury.Bsc.{Transfer, u128_mod, to_micro}
use clutch_treasury.Bsc.Units.{to_micro_iff}

-- One identity that has used its three requests of the minute from second 100.
abbrev limiter : RateLimiter
limiter = record {
  window = 60;
  max_per_window = 3;
  state = record { key = codes "0xab"; window_start = 100; count = 3 } ∷ [];
}

-- A fourth request 20 seconds into the window waits for the 40 that are left.
fourth : (check 120 (codes "0xab") limiter).0 ≡ retry_after 40
unfolding check check_entry find text_eq
fourth = refl

check-InBounds_example : InBounds (check 120 (codes "0xcd") limiter).1
unfolding exists_row
check-InBounds_example =
    check-InBounds 120 (codes "0xcd") limiter (omega arith) (record {
      few = omega arith;
      one_entry = λ key. (λ e. refl, tt);
      counted = (omega arith, tt);
    })

abbrev transfer_of : ℕ → Transfer
transfer_of value = record {
  tx_hash = codes "0x1";
  log_index = 0;
  block_number = 7;
  contract = codes "usdt";
  from = codes "alice";
  to = codes "treasury";
  value = value;
}

abbrev two_transfers : List Transfer
two_transfers = transfer_of 5 ∷ transfer_of 6 ∷ []

to_micro_iff_example : (to_micro 1999999999999 18 ≡ some 1) ↔ (
    (6 ≤ 18)
    × (10 ^ (18 - 6) < u128_mod)
    × (1 < i64_bound)
    × (1 * 10 ^ (18 - 6) ≤ 1999999999999)
    × (1999999999999 < (1 + 1) * 10 ^ (18 - 6)))
to_micro_iff_example = to_micro_iff 1999999999999 18 1

abbrev spelled : Text
spelled = codes "0XABCDEF0123456789abcdef0123456789ABCDEF01"

abbrev normal : Text
normal = codes "0xabcdef0123456789abcdef0123456789abcdef01"
