-- ===== src/BscVerifier/Moved.antt =====
-- How much USDT a transaction moved along a route (bsc_verifier.rs, `evaluate`).
use clutch_treasury.Base.{
  ℕ, ◌+◌, ◌-◌, ◌*◌, ◌^◌, ◌≤◌, ◌<◌, ◌≡◌, inl, inr, refl, sym, ◌∙◌, Bool, true, false, ◌&&◌, Option,
  none, some, List, [], ◌∷◌, arith, if◌then◌else◌, ltb, Bool-cases, Option-cases, Text, text_eq,
  text_eq_iff, subst,
}
use clutch_treasury.Bsc.{
  Transfer, u128_mod, to_micro, is_between, sum_from, sum_transfers, checked_add,
}
use clutch_treasury.Bsc.Units.{to_micro_iff}
use clutch_treasury.BscVerifier.{Settings, Route, direct, address, sum_to, arrived_by, in_micro}

-- The value of the transfers that count, each once.
pub data Sum (Counts : Transfer → Type 0) : List Transfer → ℕ → Type 0 where
  nothing : Sum Counts [] 0
  adds :
      {t : Transfer} {ts : List Transfer} {n m : ℕ}
      → Counts t
      → Sum Counts ts n
      → m ≡ t.value + n
      → Sum Counts (t ∷ ts) m
  skips :
      {t : Transfer} {ts : List Transfer} {n : ℕ}
      → (Counts t → ⊥)
      → Sum Counts ts n
      → Sum Counts (t ∷ ts) n

-- USDT from a wallet to the pay-in address, or from anywhere to a deposit address.
abbrev pub Along : Settings → Route → Transfer → Type 0
Along s (direct from) t =
    (t.contract ≡ s.usdt_contract) × (t.from ≡ from) × (t.to ≡ s.pay_in_address)
Along s (address a) t = (t.contract ≡ s.usdt_contract) × (t.to ≡ a)

-- What a fold over the transfers sums that adds the ones a test picks.
module _ (Counts : Transfer → Type 0) (p : Transfer → Bool)
    (picks : (t : Transfer) → p t ≡ true → Counts t)
    (drops : (t : Transfer) → p t ≡ false → Counts t → ⊥)
    (fold : List Transfer → Option ℕ → Option ℕ) (ended : (sum : ℕ) → fold [] (some sum) ≡ some sum)
    (failed : (ts : List Transfer) → fold ts none ≡ none)
    (goes_on : (t : Transfer) (ts : List Transfer) (sum : ℕ)
      → fold (t ∷ ts) (some sum)
        ≡ fold ts (if p t then checked_add sum t.value else some sum)) where
  fold-Sum :
      (ts : List Transfer) (sum total : ℕ)
      → fold ts (some sum) ≡ some total
      → (n : ℕ) × Sum Counts ts n × (total ≡ sum + n)
  fold-Sum [] sum total e =
      let same : some sum ≡ some total = sym (ended sum) ∙ e in
      let it : sum ≡ total = cc in (0, nothing, omega (arith, it))
  fold-Sum (t ∷ ts) sum total e = elim (Bool-cases (p t)) [
    | inr other ↦
        let e' : fold ts (some sum) ≡ some total = rw other at (sym (goes_on t ts sum) ∙ e) in
        let rest = fold-Sum ts sum total e' in (rest.0, skips (drops t other) rest.1, rest.2)
    | inl hit ↦
        let e' : fold ts (checked_add sum t.value) ≡ some total =
          rw hit at (sym (goes_on t ts sum) ∙ e) in
        elim (Bool-cases (ltb (sum + t.value) u128_mod)) [
          | inl fits ↦
              let e'' : fold ts (some (sum + t.value)) ≡ some total = rw fits at e' in
              let rest = fold-Sum ts (sum + t.value) total e'' in
              (t.value + rest.0, adds (picks t hit) rest.1 refl, omega (arith, rest.2))
          | inr over ↦
              let e'' : fold ts none ≡ some total = rw over at e' in
              let clash : none ≡ some total = sym (failed ts) ∙ e'' in cc
        ]
  ]

between-Along :
    (s : Settings) (from : Text) (t : Transfer)
    → is_between s.usdt_contract from s.pay_in_address t ≡ true
    → Along s (direct from) t
unfolding is_between
between-Along s from t e = (
  (text_eq_iff t.contract s.usdt_contract).0 (ground (arith, e)),
  (text_eq_iff t.from from).0 (ground (arith, e)),
  (text_eq_iff t.to s.pay_in_address).0 (ground (arith, e)),
)

Along-between :
    (s : Settings) (from : Text) (t : Transfer)
    → Along s (direct from) t
    → is_between s.usdt_contract from s.pay_in_address t ≡ true
unfolding is_between
Along-between s from t h =
    let a : text_eq t.contract s.usdt_contract ≡ true =
      (text_eq_iff t.contract s.usdt_contract).1 h.0 in
    let b : text_eq t.from from ≡ true = (text_eq_iff t.from from).1 h.1 in
    let c : text_eq t.to s.pay_in_address ≡ true = (text_eq_iff t.to s.pay_in_address).1 h.2 in
    rw (a, b, c) refl

abbrev goes_to : Settings → Text → Transfer → Bool
goes_to s a t = text_eq t.contract s.usdt_contract && text_eq t.to a

goes_to-Along :
    (s : Settings) (a : Text) (t : Transfer) → goes_to s a t ≡ true → Along s (address a) t
goes_to-Along s a t e = (
  (text_eq_iff t.contract s.usdt_contract).0 (ground (arith, e)),
  (text_eq_iff t.to a).0 (ground (arith, e)),
)

Along-goes_to :
    (s : Settings) (a : Text) (t : Transfer) → Along s (address a) t → goes_to s a t ≡ true
Along-goes_to s a t h =
    let b : text_eq t.contract s.usdt_contract ≡ true =
      (text_eq_iff t.contract s.usdt_contract).1 h.0 in
    let c : text_eq t.to a ≡ true = (text_eq_iff t.to a).1 h.1 in rw (b, c) refl

sum_from-none :
    (contract from to : Text) (ts : List Transfer) → sum_from contract from to ts none ≡ none
unfolding sum_from
sum_from-none contract from to [] = refl
sum_from-none contract from to (t ∷ ts) = refl

sum_to-none : (contract to : Text) (ts : List Transfer) → sum_to contract to ts none ≡ none
unfolding sum_to
sum_to-none contract to [] = refl
sum_to-none contract to (t ∷ ts) = refl

-- What is said to have arrived is the sum of the transfers along the route.
arrived_by-Sum :
    (s : Settings) (route : Route) (ts : List Transfer) (value : ℕ)
    → arrived_by s route ts ≡ some value
    → Sum (Along s route) ts value
unfolding arrived_by sum_transfers sum_from sum_to
arrived_by-Sum s (direct from) ts value e =
    let found =
      fold-Sum (Along s (direct from)) (is_between s.usdt_contract from s.pay_in_address)
        (between-Along s from)
        (λ t miss h. let clash : true ≡ false = sym (Along-between s from t h) ∙ miss in absurd cc)
        (sum_from s.usdt_contract from s.pay_in_address) (λ n. refl)
        (sum_from-none s.usdt_contract from s.pay_in_address) (λ t rest n. refl) ts 0 value e in
    let same : value ≡ found.0 = omega (arith, found.2) in
    subst (Sum (Along s (direct from)) ts) (sym same) found.1
arrived_by-Sum s (address a) ts value e =
    let found =
      fold-Sum (Along s (address a)) (goes_to s a) (goes_to-Along s a)
        (λ t miss h. let clash : true ≡ false = sym (Along-goes_to s a t h) ∙ miss in absurd cc)
        (sum_to s.usdt_contract a) (λ n. refl) (sum_to-none s.usdt_contract a) (λ t rest n. refl) ts
        0 value e in
    let same : value ≡ found.0 = omega (arith, found.2) in
    subst (Sum (Along s (address a)) ts) (sym same) found.1

-- The transfers along the route add up to `value` base units, of which `micro` is the whole number
-- of micro-USDT.
pub record Moved (s : Settings) (route : Route) (ts : List Transfer) (micro : ℕ) : Type 0 where
  pub value : ℕ
  pub adds_up : Sum (Along s route) ts value
  pub has_decimals : 6 ≤ s.usdt_decimals
  pub not_above : micro * 10 ^ (s.usdt_decimals - 6) ≤ value
  pub no_more : value < (micro + 1) * 10 ^ (s.usdt_decimals - 6)

pub in_micro-Moved :
    (s : Settings) (route : Route) (ts : List Transfer) (micro : ℕ)
    → in_micro s (arrived_by s route ts) ≡ some micro
    → Moved s route ts micro
in_micro-Moved s route ts micro e = elim (Option-cases (arrived_by s route ts)) [
  | inl nothing_summed ↦ let clash : none ≡ some micro = rw nothing_summed at e in cc
  | inr (value, summed) ↦
      let e' : to_micro value s.usdt_decimals ≡ some micro = rw summed at e in
      let exact = (to_micro_iff value s.usdt_decimals micro).0 e' in
      record {
        value = value;
        adds_up = arrived_by-Sum s route ts value summed;
        has_decimals = exact.0;
        not_above = exact.3;
        no_more = exact.4;
      }
]
