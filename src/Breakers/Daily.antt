-- ===== src/Breakers/Daily.antt =====
-- The mints of the last day (crates/treasury-service/src/breakers.rs, `daily_mint_total` and
-- `daily_mint_total_excluding`).
use clutch_treasury.Base.{
  ℕ, Bool, ap, ◌+◌, ◌<◌, ◌≡◌, ◌≢◌, ◌⊎◌, ◌↔◌, inl, inr, refl, ◌∙◌, true, Option, none, some, List,
  [], ◌∷◌, sum_rows, Bool-cases, arith, ◌==◌, ◌&&◌, not, ltb,
}
use clutch_treasury.Store.{MintIntent, MintStatus, Db}
use clutch_treasury.Breakers.{
  daily_mint_total, daily_mint_total_excluding, excluded_total, is_authorised,
}

-- An intent approved, submitted or credited, created less than a day ago, and not the one left out.
pub record Counted (now : ℕ) (exclude : Option ℕ) (i : MintIntent) : Type 0 where
  pub authorised :
      (i.status ≡ MintStatus.approved)
      ⊎ ((i.status ≡ MintStatus.submitted) ⊎ (i.status ≡ MintStatus.credited))
  pub today : now < i.created_at + 86400
  pub not_left_out : exclude ≢ some i.id

-- The sum of the amounts of the counted intents.
abbrev pub Total : ℕ → Option ℕ → List MintIntent → ℕ → Type 0
Total now exclude [] n = n ≡ 0
Total now exclude (i ∷ is) n =
    (Counted now exclude i × ((m : ℕ) × Total now exclude is m × (n ≡ i.amount_clt + m)))
    ⊎ ((Counted now exclude i → ⊥) × Total now exclude is n)

authorised-status :
    (s : MintStatus)
    → is_authorised s ≡ true
    → (s ≡ MintStatus.approved) ⊎ ((s ≡ MintStatus.submitted) ⊎ (s ≡ MintStatus.credited))
authorised-status MintStatus.approved e = inl refl
authorised-status MintStatus.submitted e = inr (inl refl)
authorised-status MintStatus.credited e = inr (inr refl)
authorised-status MintStatus.created e = cc
authorised-status MintStatus.failed e = cc
authorised-status MintStatus.rejected e = cc
authorised-status MintStatus.needs_manual e = cc

status-authorised :
    (s : MintStatus)
    → (s ≡ MintStatus.approved) ⊎ ((s ≡ MintStatus.submitted) ⊎ (s ≡ MintStatus.credited))
    → is_authorised s ≡ true
status-authorised s (inl e) = ap is_authorised e
status-authorised s (inr (inl e)) = ap is_authorised e
status-authorised s (inr (inr e)) = ap is_authorised e

zero_add : (n : ℕ) → 0 + n ≡ n
zero_add n = omega arith

module _ (now : ℕ) (exclude : Option ℕ) (p : MintIntent → Bool)
    (means : (i : MintIntent) → (p i ≡ true) ↔ Counted now exclude i) where
  sum-Total : (is : List MintIntent) → Total now exclude is (sum_rows p (λ i. i.amount_clt) is)
  unfolding sum_rows
  sum-Total [] = refl
  sum-Total (i ∷ is) = elim (Bool-cases (p i)) [
    | inl hit ↦
        rw hit (inl ((means i).0 hit, (sum_rows p (λ i. i.amount_clt) is, sum-Total is, refl)))
    | inr miss ↦
        rw (miss, zero_add (sum_rows p (λ i. i.amount_clt) is))
          (inr (λ c. let e = (means i).1 c in cc, sum-Total is))
  ]

  Total-sum :
      (is : List MintIntent) (n : ℕ)
      → Total now exclude is n
      → n ≡ sum_rows p (λ i. i.amount_clt) is
  unfolding sum_rows
  Total-sum [] n h = h
  Total-sum (i ∷ is) n (inl (c, (m, h, e))) =
      let hit = (means i).1 c in rw hit (e ∙ ap (λ k. i.amount_clt + k) (Total-sum is m h))
  Total-sum (i ∷ is) n (inr (c, h)) = elim (Bool-cases (p i)) [
    | inl hit ↦ absurd (c ((means i).0 hit))
    | inr miss ↦ rw (miss, zero_add (sum_rows p (λ i. i.amount_clt) is)) (Total-sum is n h)
  ]

counts-Counted :
    (now : ℕ) (i : MintIntent)
    → (is_authorised i.status && ltb now (i.created_at + 86400) ≡ true) ↔ Counted now none i
counts-Counted now i = (
  λ e. record {
    authorised = authorised-status i.status (ground arith);
    today = ground arith;
    not_left_out = λ c. cc;
  },
  λ h. ground (arith, status-authorised i.status h.authorised, h.today),
)

counts_but-Counted :
    (now id : ℕ) (i : MintIntent)
    → ((is_authorised i.status && ltb now (i.created_at + 86400)) && not (i.id == id) ≡ true)
      ↔ Counted now (some id) i
counts_but-Counted now id i = (
  λ e. record {
    authorised = authorised-status i.status (ground arith);
    today = ground arith;
    not_left_out = λ c. ground (arith, some-inj id i.id c);
  },
  λ h.
      ground
        (arith, status-authorised i.status h.authorised, h.today, distinct id i.id h.not_left_out),
)
  where
    some-inj : (a b : ℕ) → some a ≡ some b → a ≡ b
    some-inj a b e = cc

    distinct : (a b : ℕ) → some a ≢ some b → a ≢ b
    distinct a b h e = h (ap some e)

-- The query finds that sum, and no other number is it.
pub excluded_total-Total :
    (now : ℕ) (exclude : Option ℕ) (db : Db)
    → Total now exclude db.mint_intents (excluded_total now exclude db)
unfolding excluded_total daily_mint_total daily_mint_total_excluding
excluded_total-Total now none db = sum-Total now none _ (counts-Counted now) db.mint_intents
excluded_total-Total now (some id) db =
    sum-Total now (some id) _ (counts_but-Counted now id) db.mint_intents

pub Total-excluded_total :
    (now : ℕ) (exclude : Option ℕ) (db : Db) (n : ℕ)
    → Total now exclude db.mint_intents n
    → n ≡ excluded_total now exclude db
unfolding excluded_total daily_mint_total daily_mint_total_excluding
Total-excluded_total now none db n h = Total-sum now none _ (counts-Counted now) db.mint_intents n h
Total-excluded_total now (some id) db n h =
    Total-sum now (some id) _ (counts_but-Counted now id) db.mint_intents n h
