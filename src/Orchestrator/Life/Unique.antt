-- ===== src/Orchestrator/Life/Unique.antt =====
-- One row to a transaction and to an id, whichever worker of the orchestrator writes.
use clutch_treasury.Base.{
  ℕ, ◌≡◌, inl, inr, refl, ◌∙◌, ap, Bool, true, false, ◌==◌, some, List, [], ◌∷◌, if◌then◌else◌,
  Bool-cases, arith, Text, text_eq, text_eq_iff, option_text_eq, exists_row, update, AtMostOne,
  AtMostOne-update, AtMostOne-snoc, update-absent, exists_row-update,
}
use clutch_treasury.Base.Int.{ℤ}
use clutch_treasury.Orchestrator.Store.{DepositIntent}
use clutch_treasury.Orchestrator.Deposits.{has_id, has_tx, lacks_tx, set_tx, clashes}
use clutch_treasury.Orchestrator.Life.{Grown, Change, unchanged, written, named, added, then_on}

pub record IsUnique (is : List DepositIntent) : Type 0 where
  pub one_tx : (tx_id : Text) → AtMostOne (has_tx tx_id) is
  pub one_id : (id : ℕ) → AtMostOne (has_id id) is

pub Grown-id : (i j : DepositIntent) → Grown i j → j.id ≡ i.id
Grown-id i j g = ap (λ (x : DepositIntent). x.id) g.same_rest

written-tx :
    (p : DepositIntent → Bool) (f : DepositIntent → DepositIntent)
    → ((i : DepositIntent) → p i ≡ true → Grown i (f i) × ((f i).tron_tx_id ≡ i.tron_tx_id))
    → (tx_id : Text) (i : DepositIntent) → has_tx tx_id (if p i then f i else i) ≡ has_tx tx_id i
written-tx p f each tx_id i = elim (Bool-cases (p i)) [
  | inl hit ↦ rw hit (ap (λ t. option_text_eq t (some tx_id)) (each i hit).1)
  | inr miss ↦ rw miss refl
]

written-id :
    (p : DepositIntent → Bool) (f : DepositIntent → DepositIntent)
    → ((i : DepositIntent) → p i ≡ true → Grown i (f i) × ((f i).tron_tx_id ≡ i.tron_tx_id))
    → (id : ℕ) (i : DepositIntent) → has_id id (if p i then f i else i) ≡ has_id id i
written-id p f each id i = elim (Bool-cases (p i)) [
  | inl hit ↦ rw hit (ap (λ n. n == id) (Grown-id i (f i) (each i hit).0))
  | inr miss ↦ rw miss refl
]

named-apart :
    (id : ℕ) (tx_id other : Text) (at : ℤ)
    → text_eq tx_id other ≡ false
    → (i : DepositIntent)
    → has_tx other (if lacks_tx id i then set_tx tx_id at i else i) ≡ has_tx other i
unfolding option_text_eq
named-apart id tx_id other at e i = ground arith

lacks-absent :
    (id : ℕ) (is : List DepositIntent)
    → exists_row (has_id id) is ≡ false
    → exists_row (lacks_tx id) is ≡ false
unfolding exists_row
lacks-absent id [] h = refl
lacks-absent id (i ∷ is) h = ground (arith, lacks-absent id is)

-- No row but one has the transaction, where none had it.
free-elsewhere :
    (tx_id other : Text) (is : List DepositIntent)
    → exists_row (has_tx tx_id) is ≡ false
    → text_eq tx_id other ≡ true
    → exists_row (has_tx other) is ≡ false
free-elsewhere tx_id other is free e =
    let same : tx_id ≡ other = (text_eq_iff tx_id other).0 e in rw (← same) free

-- After the write of a transaction that no row had, on the one row with the id.
named-one :
    (id : ℕ) (tx_id other : Text) (at : ℤ) (is : List DepositIntent)
    → exists_row (has_tx tx_id) is ≡ false
    → AtMostOne (has_id id) is
    → AtMostOne (has_tx other) is
    → AtMostOne (has_tx other) (update (lacks_tx id) (set_tx tx_id at) is)
unfolding update exists_row option_text_eq
named-one id tx_id other at [] free one h = tt
named-one id tx_id other at (i ∷ is) free one h =
    let free_tail : exists_row (has_tx tx_id) is ≡ false = ground arith in
    elim (Bool-cases (lacks_tx id i)) [
      | inl hit ↦
          let own : has_id id i ≡ true = ground arith in
          let rest =
            update-absent (lacks_tx id) (set_tx tx_id at) is (lacks-absent id is (one.0 own)) in
          rw (hit, rest) ((λ e. free-elsewhere tx_id other is free_tail e), h.1)
      | inr miss ↦ rw miss (
        (λ e. elim (Bool-cases (text_eq tx_id other)) [
          | inl same ↦
              let clash : has_tx other i ≡ false =
                head_free (free-elsewhere tx_id other (i ∷ is) free same) in
              absurd (ground arith)
          | inr apart ↦
              exists_row-update (lacks_tx id) (has_tx other) (set_tx tx_id at)
                (named-apart id tx_id other at apart) is
              ∙ h.0 e
        ]),
        named-one id tx_id other at is free_tail one.1 h.1,
      )
    ]
  where
    head_free : exists_row (has_tx other) (i ∷ is) ≡ false → has_tx other i ≡ false
    head_free q = ground arith

added-tx :
    (tx_id other : Text) (new : DepositIntent) (is : List DepositIntent)
    → new.tron_tx_id ≡ some tx_id
    → exists_row (has_tx tx_id) is ≡ false
    → has_tx other new ≡ true
    → exists_row (has_tx other) is ≡ false
unfolding option_text_eq
added-tx tx_id other new is e free hit =
    let hit' : text_eq tx_id other ≡ true = rw e at hit in free-elsewhere tx_id other is free hit'

added-id :
    (id : ℕ) (new : DepositIntent) (is : List DepositIntent)
    → exists_row (clashes new) is ≡ false
    → has_id id new ≡ true
    → exists_row (has_id id) is ≡ false
unfolding exists_row
added-id id new [] apart hit = refl
added-id id new (i ∷ is) apart hit = ground (arith, added-id id new is)

pub Change-IsUnique : (is js : List DepositIntent) → Change is js → IsUnique is → IsUnique js
Change-IsUnique is js (unchanged e) h = rw e h
Change-IsUnique is js (written p f each e) h = rw e (record {
  one_tx =
      λ tx_id. AtMostOne-update p (has_tx tx_id) f (written-tx p f each tx_id) is (h.one_tx tx_id);
  one_id = λ id. AtMostOne-update p (has_id id) f (written-id p f each id) is (h.one_id id);
})
Change-IsUnique is js (named id tx_id at free e) h = rw e (record {
  one_tx = λ other. named-one id tx_id other at is free (h.one_id id) (h.one_tx other);
  one_id = λ other.
      AtMostOne-update (lacks_tx id) (has_id other) (set_tx tx_id at) (λ i. ground arith) is
        (h.one_id other);
})
Change-IsUnique is js (added tx_id new e free apart is_new q) h = rw q (record {
  one_tx = λ other.
      AtMostOne-snoc (has_tx other) is new (h.one_tx other) (added-tx tx_id other new is e free);
  one_id = λ id. AtMostOne-snoc (has_id id) is new (h.one_id id) (added-id id new is apart);
})
Change-IsUnique is ks (then_on {js = js} h k) u =
    Change-IsUnique js ks k (Change-IsUnique is js h u)
