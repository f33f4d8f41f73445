-- ===== src/Breakers/Latest.antt =====
-- The latest reconciliation run of 48 hours (crates/treasury-service/src/breakers.rs,
-- `check_mint_inner`).
use clutch_treasury.Base.{
  ℕ, Bool, ap, ◌+◌, ◌≤◌, ◌<◌, ◌≡◌, ◌↔◌, inl, inr, refl, sym, ◌∙◌, true, false, none, some, List, [],
  ◌∷◌, ◌++◌, All, subst, Bool-cases, Option-cases, arith, ltb,
}
use clutch_treasury.Store.{Run, Db}
use clutch_treasury.Breakers.{recent_run, latest, within}

-- A run of less than 48 hours ago with none later of them; of those at the same time, the first.
pub record IsLatest (now : ℕ) (runs : List Run) (r : Run) : Type 0 where
  pub earlier_rows : List Run
  pub later_rows : List Run
  pub in_table : runs ≡ earlier_rows ++ r ∷ later_rows
  pub is_recent : now < r.run_at + 172800
  pub after_earlier : All (λ (s : Run). now < s.run_at + 172800 → s.run_at < r.run_at) earlier_rows
  pub not_before_later : All (λ (s : Run). now < s.run_at + 172800 → s.run_at ≤ r.run_at) later_rows

some-inj : (a b : Run) → some a ≡ some b → a ≡ b
some-inj a b e = cc

at_most : (m : ℕ) (s t : Run) → t.run_at ≤ m → some t ≡ some s → s.run_at ≤ m
at_most m s t k e = subst (λ (x : Run). x.run_at ≤ m) (some-inj t s e) k

module _ (now : ℕ) where
  abbrev is_recent_run : Run → Bool
  is_recent_run r = within 172800 now r.run_at

  latest-below :
      (runs : List Run) (m : ℕ)
      → ((s : Run) → latest is_recent_run runs ≡ some s → s.run_at ≤ m)
      → All (λ (s : Run). now < s.run_at + 172800 → s.run_at ≤ m) runs
  unfolding latest
  latest-below [] m h = tt
  latest-below (r ∷ runs) m h = elim (Bool-cases (is_recent_run r)) [
    | inl hit ↦ elim (Option-cases (latest is_recent_run runs)) [
      | inl empty ↦ (
        λ k. h r (rw (hit, empty) refl),
        latest-below runs m (λ s e. absurd (none-some s (sym empty ∙ e))),
      )
      | inr (t, found) ↦ elim (Bool-cases (ltb r.run_at t.run_at)) [
        | inl late ↦
            let top = h t (rw (hit, found, late) refl) in
            (λ k. ground arith, latest-below runs m (λ s e. at_most m s t top (sym found ∙ e)))
        | inr early ↦
            let top = h r (rw (hit, found, early) refl) in
            (λ k. top, latest-below runs m (λ s e. at_most m s t (ground arith) (sym found ∙ e)))
      ]
    ]
    | inr miss ↦ (λ k. absurd (ground arith), latest-below runs m (λ s e. h s (rw miss e)))
  ]
    where
      none-some : (s : Run) → none ≡ some s → ⊥
      none-some s e = cc

  skip :
      (r s : Run) (runs : List Run)
      → (now < r.run_at + 172800 → r.run_at < s.run_at)
      → IsLatest now runs s
      → IsLatest now (r ∷ runs) s
  skip r s runs k h = record {
    earlier_rows = r ∷ h.earlier_rows;
    later_rows = h.later_rows;
    in_table = ap (λ rs. r ∷ rs) h.in_table;
    is_recent = h.is_recent;
    after_earlier = (k, h.after_earlier);
    not_before_later = h.not_before_later;
  }

  first :
      (r : Run) (runs : List Run)
      → is_recent_run r ≡ true
      → ((s : Run) → latest is_recent_run runs ≡ some s → s.run_at ≤ r.run_at)
      → IsLatest now (r ∷ runs) r
  first r runs hit h = record {
    earlier_rows = [];
    later_rows = runs;
    in_table = refl;
    is_recent = ground arith;
    after_earlier = tt;
    not_before_later = latest-below runs r.run_at h;
  }

  latest-IsLatest :
      (runs : List Run) (r : Run) → latest is_recent_run runs ≡ some r → IsLatest now runs r
  unfolding latest
  latest-IsLatest [] r e = cc
  latest-IsLatest (x ∷ runs) r e = elim (Bool-cases (is_recent_run x)) [
    | inl hit ↦ elim (Option-cases (latest is_recent_run runs)) [
      | inl empty ↦
          let same : x ≡ r = cc in
          subst (IsLatest now (x ∷ runs)) same (first x runs hit (λ s k. cc))
      | inr (t, found) ↦ elim (Bool-cases (ltb x.run_at t.run_at)) [
        | inl late ↦
            let e' = rw (hit, found, late) at e in
            let same : t ≡ r = some-inj t r e' in
            subst (IsLatest now (x ∷ runs)) same
              (skip x t runs (λ k. ground arith) (latest-IsLatest runs t found))
        | inr early ↦
            let e' = rw (hit, found, early) at e in
            let same : x ≡ r = some-inj x r e' in
            subst (IsLatest now (x ∷ runs)) same
              (first x runs hit (λ s k. at_most x.run_at s t (ground arith) (sym found ∙ k)))
      ]
    ]
    | inr miss ↦ skip x r runs (λ k. absurd (ground arith)) (latest-IsLatest runs r (rw miss at e))
  ]

  latest-under :
      (runs : List Run) (m : ℕ)
      → All (λ (s : Run). now < s.run_at + 172800 → s.run_at ≤ m) runs
      → (s : Run) → latest is_recent_run runs ≡ some s
      → s.run_at ≤ m
  unfolding latest
  latest-under [] m h s e = cc
  latest-under (r ∷ runs) m h s e = elim (Bool-cases (is_recent_run r)) [
    | inl hit ↦
        let low = h.0 (ground arith) in
        elim (Option-cases (latest is_recent_run runs)) [
          | inl empty ↦ at_most m s r low (rw (hit, empty) at e)
          | inr (t, found) ↦ elim (Bool-cases (ltb r.run_at t.run_at)) [
            | inl late ↦
                at_most m s t (latest-under runs m h.1 t found) (rw (hit, found, late) at e)
            | inr early ↦ at_most m s r low (rw (hit, found, early) at e)
          ]
        ]
    | inr miss ↦ latest-under runs m h.1 s (rw miss at e)
  ]

  latest-first :
      (r : Run) (runs : List Run)
      → is_recent_run r ≡ true
      → All (λ (s : Run). now < s.run_at + 172800 → s.run_at ≤ r.run_at) runs
      → latest is_recent_run (r ∷ runs) ≡ some r
  unfolding latest
  latest-first r runs hit h = elim (Option-cases (latest is_recent_run runs)) [
    | inl empty ↦ rw (hit, empty) refl
    | inr (t, found) ↦
        let top = latest-under runs r.run_at h t found in
        let early : ltb r.run_at t.run_at ≡ false = ground arith in rw (hit, found, early) refl
  ]

  latest-skip :
      (rows later : List Run) (r : Run)
      → is_recent_run r ≡ true
      → All (λ (s : Run). now < s.run_at + 172800 → s.run_at < r.run_at) rows
      → All (λ (s : Run). now < s.run_at + 172800 → s.run_at ≤ r.run_at) later
      → latest is_recent_run (rows ++ r ∷ later) ≡ some r
  unfolding latest
  latest-skip [] later r hit before after = latest-first r later hit after
  latest-skip (x ∷ rows) later r hit before after =
      let rest = latest-skip rows later r hit before.1 after in
      elim (Bool-cases (is_recent_run x)) [
        | inl in_time ↦
            let late : ltb x.run_at r.run_at ≡ true = ground (arith, before.0) in
            rw (in_time, rest, late) refl
        | inr miss ↦ rw miss rest
      ]

-- The query finds that run, and no other run is it.
pub recent_run-IsLatest_iff :
    (now : ℕ) (db : Db) (r : Run)
    → (recent_run now db ≡ some r) ↔ IsLatest now db.reconciliation_runs r
recent_run-IsLatest_iff now db r = (
  latest-IsLatest now db.reconciliation_runs r,
  λ h. rw h.in_table (
      latest-skip now h.earlier_rows h.later_rows r (ground (arith, h.is_recent)) h.after_earlier
        h.not_before_later),
)
