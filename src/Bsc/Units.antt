-- ===== src/Bsc/Units.antt =====
-- Units, sums and addresses are exact (bsc/src/lib.rs).
use clutch_treasury.Base.{
  ℕ, zero, suc, ◌+◌, ◌-◌, ◌*◌, ◌/◌, ◌^◌, ◌≤◌, ◌<◌, ◌≡◌, ◌↔◌, inl, inr, refl, sym, ap, true, ◌&&◌,
  ◌==◌, Option, none, some, List, [], ◌∷◌, ◌++◌, arith, if◌then◌else◌, ltb, length, Text,
  to_ascii_lowercase, Bool-cases, Option-cases, sum_rows, subst,
}
use native.Mathlib.Nat.{pow-suc}
use clutch_treasury.Base.Int.{i64_bound}
use clutch_treasury.Bsc.{
  Transfer, u128_mod, all_hex, strip_prefix, zero_x, normalize_address, to_micro, is_between,
  sum_from, sum_transfers, checked_add,
}

sum_from-exact :
    (contract from to : Text) (ts : List Transfer) (sum total : ℕ)
    → sum < u128_mod
    → (sum_from contract from to ts (some sum) ≡ some total) ↔ (
        (sum + sum_rows (is_between contract from to) (λ t. t.value) ts ≡ total)
        × (total < u128_mod))
unfolding sum_from sum_rows
sum_from-exact contract from to [] sum total h = (λ e. ground (arith, e), λ e. ground (arith, e.0))
sum_from-exact contract from to (t ∷ ts) sum total h =
    elim (Bool-cases (is_between contract from to t)) [
      | inl match ↦ elim (Bool-cases (ltb (sum + t.value) u128_mod)) [
        | inl fits ↦
            let rest = sum_from-exact contract from to ts (sum + t.value) total (ground arith) in
            by_next (some (sum + t.value)) (rw (match, fits) refl) (
              λ e. rw match (omega (arith, (rest.0 e).0), (rest.0 e).1),
              λ r. let r' = rw match at r in rest.1 (omega (arith, r'.0), r'.1),
            )
        | inr over ↦ by_next none (rw (match, over) refl) (
          λ e. absurd (ground (arith, e)),
          λ r. let r' = rw match at r in absurd (ground (arith, r'.0, r'.1, over)),
        )
      ]
      | inr other ↦ by_next (some sum) (rw other refl) (
          let rest = sum_from-exact contract from to ts sum total h in
          (
            λ e. rw other (omega (arith, (rest.0 e).0), (rest.0 e).1),
            λ r. let r' = rw other at r in rest.1 (omega (arith, r'.0), r'.1),
          ))
    ]
  where
    after : ℕ
    after =
        (if is_between contract from to t then t.value else 0)
        + sum_rows (is_between contract from to) (λ x. x.value) ts

    by_next :
        (o : Option ℕ)
        → (if is_between contract from to t then checked_add sum t.value else some sum) ≡ o
        → (sum_from contract from to ts o ≡ some total)
          ↔ ((sum + after ≡ total) × (total < u128_mod))
        → (sum_from contract from to (t ∷ ts) (some sum) ≡ some total)
          ↔ ((sum + after ≡ total) × (total < u128_mod))
    by_next o e =
        subst
          (λ x.
            (sum_from contract from to ts x ≡ some total)
            ↔ ((sum + after ≡ total) × (total < u128_mod)))
          (sym e)

-- Transfers are summed exactly, or not at all: a sum is given exactly when the values of the
-- transfers of this contract from this sender to this recipient add up to it below 2 ^ 128.
sum_transfers_iff :
    (ts : List Transfer) (contract from to : Text) (total : ℕ)
    → (sum_transfers ts contract from to ≡ some total)
      ↔ ((sum_rows (is_between contract from to) (λ t. t.value) ts ≡ total) × (total < u128_mod))
unfolding sum_transfers
sum_transfers_iff ts contract from to total =
    let exact = sum_from-exact contract from to ts 0 total (omega arith) in
    (λ e. (omega (arith, (exact.0 e).0), (exact.0 e).1), λ h. exact.1 (omega (arith, h.0), h.1))

div-floor : (v u m : ℕ) → 0 < u → (v / u ≡ m) ↔ ((m * u ≤ v) × (v < (m + 1) * u))
div-floor v u m h = (λ e. (grind arith, grind arith), λ e. grind arith)

pow-pos : (n : ℕ) → 0 < 10 ^ n
pow-pos zero = omega arith
pow-pos (suc n) = rw pow-suc (omega (arith, pow-pos n))

-- An amount is rounded down to the micro-USDT: a result is given exactly when the token has at
-- least 6 decimals, its unit and the result fit their types, and it is the greatest number of
-- micro-USDT whose base units do not exceed the value.
pub to_micro_iff :
    (value decimals m : ℕ)
    → (to_micro value decimals ≡ some m) ↔ (
        (6 ≤ decimals)
        × (10 ^ (decimals - 6) < u128_mod)
        × (m < i64_bound)
        × (m * 10 ^ (decimals - 6) ≤ value)
        × (value < (m + 1) * 10 ^ (decimals - 6)))
unfolding to_micro
to_micro_iff value decimals m =
    let floor = div-floor value (10 ^ (decimals - 6)) m (pow-pos (decimals - 6)) in
    (λ e. ground (arith, e, floor.0), λ h. ground (arith, floor.1 (h.3, h.4), h.0, h.1, h.2))

lower_twice : (t : Text) → to_ascii_lowercase (to_ascii_lowercase t) ≡ to_ascii_lowercase t
unfolding to_ascii_lowercase
lower_twice [] = refl
lower_twice (c ∷ t) = ground (arith, lower_twice t)

pub length-lower : (t : Text) → length (to_ascii_lowercase t) ≡ length t
unfolding to_ascii_lowercase
length-lower [] = refl
length-lower (c ∷ t) = ap suc (length-lower t)

all_hex-lower : (t : Text) → all_hex t ≡ true → all_hex (to_ascii_lowercase t) ≡ true
unfolding all_hex to_ascii_lowercase
all_hex-lower [] h = refl
all_hex-lower (c ∷ t) h = ground (arith, all_hex-lower t)

-- A normalised address is its own normal form, so the same account has one spelling.
pub normalize_address_twice :
    (a b : Text) → normalize_address a ≡ some b → normalize_address b ≡ some b
unfolding normalize_address
normalize_address_twice a b h = elim (Option-cases (strip_prefix a)) [
  | inl bare ↦ let clash : none ≡ some b = rw bare at h in cc
  | inr (t, rest) ↦ elim (Bool-cases (length t == 40 && all_hex t)) [
    | inl good ↦
        let h' : some (zero_x ++ to_ascii_lowercase t) ≡ some b = rw (rest, good) at h in
        let same : zero_x ++ to_ascii_lowercase t ≡ b = cc in
        let again : (length (to_ascii_lowercase t) == 40 && all_hex (to_ascii_lowercase t)) ≡ true =
          ground (arith, good, length-lower t, all_hex-lower t) in
        subst (λ x. normalize_address x ≡ some x) same
          (unfold normalize_address in rw (again, lower_twice t) refl)
    | inr bad ↦ let clash : none ≡ some b = rw (rest, bad) at h in cc
  ]
]
