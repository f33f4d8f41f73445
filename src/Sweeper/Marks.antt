-- ===== src/Sweeper/Marks.antt =====
-- What a sweep may leave in the tables (crates/treasury-service/src/sweeper.rs, `mark_swept`).
use clutch_treasury.Base.{
  ℕ, Bool, ap, ◌≡◌, ◌⊎◌, inl, inr, refl, sym, ◌∙◌, true, false, none, some, List, [], ◌∷◌,
  if◌then◌else◌, Bool-cases, arith, update, ◌++◌, ◌==◌, ==_iff, exists_row, subst, All, append-nil,
  append_assoc,
}
use clutch_treasury.Store.{MintIntent, Alert, Severity, Source, Notice, Db}
use clutch_treasury.Ledger.{alert, alert_once}
use clutch_treasury.Sweeper.{to_mark, set_swept, mark_swept}

-- Row by row, what was there, or the same with the sweep's time where there was none, for an id
-- that the sweep may mark.
abbrev pub Marked : ℕ → (ℕ → Type 0) → List MintIntent → List MintIntent → Type 0
Marked now may [] [] = Unit
Marked now may [] (j ∷ js) = ⊥
Marked now may (i ∷ is) [] = ⊥
Marked now may (i ∷ is) (j ∷ js) =
    ((j ≡ i) ⊎ (may i.id × (i.swept_at ≡ none) × (j ≡ record i { swept_at = some now })))
    × Marked now may is js

-- Nothing moves but the marks, and the alerts are those that were there and perhaps more.
pub record OnlySwept (now : ℕ) (may : ℕ → Type 0) (db db' : Db) : Type 0 where
  pub marked : Marked now may db.mint_intents db'.mint_intents
  pub more_alerts : List Alert
  pub same_alerts : db'.alerts ≡ db.alerts ++ more_alerts
  pub same_rest : (record db' { mint_intents = db.mint_intents; alerts = db.alerts }) ≡ db

All-chosen :
    (P : ℕ → Type 0) (k : ℕ) (ids : List ℕ)
    → All P ids
    → exists_row (λ id. k == id) ids ≡ true
    → P k
unfolding exists_row
All-chosen P k [] h e = cc
All-chosen P k (n ∷ ids) h e = elim (Bool-cases (k == n)) [
  | inl own ↦ subst P (sym ((==_iff k n).0 own)) h.0
  | inr other ↦ All-chosen P k ids h.1 (rw other at e)
]

module _ (now : ℕ) (may : ℕ → Type 0) where
  Marked-refl : (is : List MintIntent) → Marked now may is is
  Marked-refl [] = tt
  Marked-refl (i ∷ is) = (inl refl, Marked-refl is)

  Marked-trans :
      (is js ks : List MintIntent)
      → Marked now may is js
      → Marked now may js ks
      → Marked now may is ks
  Marked-trans [] [] [] h k = tt
  Marked-trans [] [] (c ∷ ks) h k = absurd k
  Marked-trans [] (b ∷ js) ks h k = absurd h
  Marked-trans (a ∷ is) [] ks h k = absurd h
  Marked-trans (a ∷ is) (b ∷ js) [] h k = absurd k
  Marked-trans (a ∷ is) (b ∷ js) (c ∷ ks) h k = (once h.0 k.0, Marked-trans is js ks h.1 k.1)
    where
      once :
          (b ≡ a) ⊎ (may a.id × (a.swept_at ≡ none) × (b ≡ record a { swept_at = some now }))
          → (c ≡ b) ⊎ (may b.id × (b.swept_at ≡ none) × (c ≡ record b { swept_at = some now }))
          → (c ≡ a) ⊎ (may a.id × (a.swept_at ≡ none) × (c ≡ record a { swept_at = some now }))
      once (inl p) (inl q) = inl (q ∙ p)
      once (inl p) (inr q) = inr (
        subst (λ (x : MintIntent). may x.id) p q.0,
        ap (λ x. x.swept_at) (sym p) ∙ q.1,
        q.2 ∙ ap (λ (x : MintIntent). record x { swept_at = some now }) p,
      )
      once (inr p) (inl q) = inr (p.0, p.1, q ∙ p.2)
      once (inr p) (inr q) =
          let clash : some now ≡ none = sym (ap (λ x. x.swept_at) p.2) ∙ q.1 in cc

  mark-Marked :
      (ids : List ℕ) (is : List MintIntent)
      → All may ids
      → Marked now may is (update (to_mark ids) (set_swept now) is)
  unfolding update
  mark-Marked ids [] all = tt
  mark-Marked ids (i ∷ is) all = (
    elim (Bool-cases (to_mark ids i)) [
      | inl hit ↦
          rw hit (inr (All-chosen may i.id ids all (ground (arith, hit)), ground arith, refl))
      | inr miss ↦ rw miss (inl refl)
    ],
    mark-Marked ids is all,
  )

  pub OnlySwept-refl : (db : Db) → OnlySwept now may db db
  OnlySwept-refl db = record {
    marked = Marked-refl db.mint_intents;
    more_alerts = [];
    same_alerts = sym (append-nil db.alerts);
    same_rest = refl;
  }

  pub mark_swept-OnlySwept :
      (ids : List ℕ) (db : Db) → All may ids → OnlySwept now may db (mark_swept now ids db)
  unfolding mark_swept
  mark_swept-OnlySwept ids db all = record {
    marked = mark-Marked ids db.mint_intents all;
    more_alerts = [];
    same_alerts = sym (append-nil db.alerts);
    same_rest = refl;
  }

  pub alert-OnlySwept :
      (later : ℕ) (severity : Severity) (source : Source) (message : Notice) (db : Db)
      → OnlySwept now may db (alert later severity source message db)
  alert-OnlySwept later severity source message db = record {
    marked = Marked-refl db.mint_intents;
    more_alerts = _;
    same_alerts = refl;
    same_rest = refl;
  }

  pub if-OnlySwept :
      (b : Bool) (db x y : Db)
      → OnlySwept now may db x
      → OnlySwept now may db y
      → OnlySwept now may db (if b then x else y)
  if-OnlySwept true db x y h k = h
  if-OnlySwept false db x y h k = k

  pub alert_once-OnlySwept :
      (seconds : ℕ) (severity : Severity) (source : Source) (message : Notice) (db : Db)
      → OnlySwept now may db (alert_once seconds now severity source message db)
  unfolding alert_once
  alert_once-OnlySwept seconds severity source message db =
      if-OnlySwept _ db db (alert now severity source message db) (OnlySwept-refl db)
        (alert-OnlySwept now severity source message db)

  pub OnlySwept-trans :
      {a b c : Db} → OnlySwept now may a b → OnlySwept now may b c → OnlySwept now may a c
  OnlySwept-trans {a} {b} {c} h k = record {
    marked = Marked-trans a.mint_intents b.mint_intents c.mint_intents h.marked k.marked;
    more_alerts = h.more_alerts ++ k.more_alerts;
    same_alerts =
        k.same_alerts
        ∙ ap (λ x. x ++ k.more_alerts) h.same_alerts
        ∙ append_assoc a.alerts h.more_alerts k.more_alerts;
    same_rest =
        ap (λ (x : Db). record x { mint_intents = a.mint_intents; alerts = a.alerts }) k.same_rest
        ∙ h.same_rest;
  }
