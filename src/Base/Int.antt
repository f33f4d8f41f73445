-- ===== src/Base/Int.antt =====
-- Signed integers over the native numbers, and the arithmetic of an `i64`.
use Prim.Native.Nat.{ℕ, suc, ◌+◌, ◌-◌, ◌*◌, ◌/◌, ◌%◌, ◌≤◌}
use mathlib.Core.Path.{◌≡◌}
use mathlib.Core.Bool.{Bool}
use native.Mathlib.Omega.{arith}
use clutch_treasury.Base.Tests.{ltb, leb, if◌then◌else◌}

-- `negsuc n` is -(n + 1).
pub data ℤ : Type 0 where
  pos : ℕ → ℤ
  negsuc : ℕ → ℤ

abbrev pub pos_part : ℤ → ℕ
pos_part (pos n) = n
pos_part (negsuc n) = 0

abbrev pub neg_part : ℤ → ℕ
neg_part (pos n) = 0
neg_part (negsuc n) = suc n

-- a - b, as an integer.
abbrev pub sub_ℕ : ℕ → ℕ → ℤ
sub_ℕ a b = if leb b a then pos (a - b) else negsuc (b - a - 1)

infixl 65 ◌+ℤ◌ ◌-ℤ◌
infix 50 ◌≤ℤ◌ ◌<ℤ◌
unfoldable pub ◌+ℤ◌ : ℤ → ℤ → ℤ
a +ℤ b = sub_ℕ (pos_part a + pos_part b) (neg_part a + neg_part b)

unfoldable pub ◌-ℤ◌ : ℤ → ℤ → ℤ
a -ℤ b = sub_ℕ (pos_part a + neg_part b) (neg_part a + pos_part b)

abbrev pub ◌≤ℤ◌ : ℤ → ℤ → Type 0
a ≤ℤ b = pos_part a + neg_part b ≤ pos_part b + neg_part a

abbrev pub ◌<ℤ◌ : ℤ → ℤ → Type 0
a <ℤ b = suc (pos_part a + neg_part b) ≤ pos_part b + neg_part a

abbrev pub ltb_ℤ : ℤ → ℤ → Bool
ltb_ℤ a b = ltb (pos_part a + neg_part b) (pos_part b + neg_part a)

abbrev pub leb_ℤ : ℤ → ℤ → Bool
leb_ℤ a b = leb (pos_part a + neg_part b) (pos_part b + neg_part a)

-- One lemma for each operation lets `omega` work with the operations shut.
pub +ℤ_parts :
    (a b : ℤ)
    → pos_part (a +ℤ b) + neg_part a + neg_part b ≡ neg_part (a +ℤ b) + pos_part a + pos_part b
unfolding ◌+ℤ◌
+ℤ_parts a b = ground arith

pub -ℤ_parts :
    (a b : ℤ)
    → pos_part (a -ℤ b) + neg_part a + pos_part b ≡ neg_part (a -ℤ b) + pos_part a + neg_part b
unfolding ◌-ℤ◌
-ℤ_parts a b = ground arith

pub eq_of_parts : (a b : ℤ) → pos_part a + neg_part b ≡ pos_part b + neg_part a → a ≡ b
eq_of_parts a b h = ground arith

pub ruleset int_laws = (arith, +ℤ_parts, -ℤ_parts, eq_of_parts)

-- 2 ^ 63 and 2 ^ 64, the bounds of an `i64`.
abbrev pub i64_bound : ℕ
i64_bound = 9223372036854775808

abbrev pub i64_mod : ℕ
i64_mod = 18446744073709551616

-- `x` is a value of the type `i64`.
abbrev pub IsI64 : ℤ → Type 0
IsI64 x = (pos_part x + 1 ≤ i64_bound) × (neg_part x ≤ i64_bound)

-- `as i64` of a wider integer between -2 ^ 64 and 2 ^ 64: it wraps around once at most.
unfoldable pub wrap_i64 : ℤ → ℤ
unfolding ◌+ℤ◌ ◌-ℤ◌
wrap_i64 s =
    if leb_ℤ (pos i64_bound) s
    then s -ℤ pos i64_mod
    else if ltb_ℤ s (negsuc (i64_bound - 1))
    then s +ℤ pos i64_mod
    else s

pub wrap_i64-exact : (s : ℤ) → IsI64 s → wrap_i64 s ≡ s
unfolding wrap_i64
wrap_i64-exact s h = ground arith

pub wrap_i64-IsI64 :
    (s : ℤ) → pos_part s + 1 ≤ i64_mod → neg_part s + 1 ≤ i64_mod → IsI64 (wrap_i64 s)
unfolding wrap_i64
wrap_i64-IsI64 s h k = ground arith

-- The sum of two `i64` values as a release build computes it.
unfoldable pub add_i64 : ℤ → ℤ → ℤ
unfolding wrap_i64 ◌+ℤ◌
add_i64 a b = wrap_i64 (a +ℤ b)

-- It is the sum whenever the sum is a value of the type.
pub add_i64-exact : (a b : ℤ) → IsI64 (a +ℤ b) → add_i64 a b ≡ a +ℤ b
unfolding add_i64
add_i64-exact a b h = wrap_i64-exact (a +ℤ b) h

-- A number times an integer, as `i128` holds it.
unfoldable pub scale : ℕ → ℤ → ℤ
scale k (pos n) = pos (k * n)
scale k (negsuc n) = sub_ℕ 0 (k * suc n)

-- Division as Rust does it, truncated towards zero, by a positive number.
unfoldable pub div_trunc : ℤ → ℕ → ℤ
div_trunc (pos n) d = pos (n / d)
div_trunc (negsuc n) d = sub_ℕ 0 (suc n / d)

-- `as i64` of a number that is not negative.
unfoldable pub as_i64 : ℕ → ℤ
as_i64 n = let r = n % i64_mod in if ltb_ℤ (pos r) (pos i64_bound) then pos r else sub_ℕ r i64_mod

-- `as u64` of an `i64`.
unfoldable pub as_u64 : ℤ → ℕ
as_u64 (pos n) = n
as_u64 (negsuc n) = i64_mod - suc n

-- `saturating_add` and `saturating_sub` of two `i64`.
abbrev pub saturate : ℤ → ℤ
saturate s =
    if leb_ℤ (pos i64_bound) s
    then pos (i64_bound - 1)
    else if ltb_ℤ s (negsuc (i64_bound - 1))
    then negsuc (i64_bound - 1)
    else s

unfoldable pub saturating_add : ℤ → ℤ → ℤ
unfolding ◌+ℤ◌
saturating_add a b = saturate (a +ℤ b)

unfoldable pub saturating_sub : ℤ → ℤ → ℤ
unfolding ◌-ℤ◌
saturating_sub a b = saturate (a -ℤ b)
