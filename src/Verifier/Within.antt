-- ===== src/Verifier/Within.antt =====
-- How much an approval lets be minted (tron_verifier.rs, `approve_and_ledger`).
use clutch_treasury.Base.{
  ℕ, ◌+◌, ◌≤◌, ◌<◌, ◌≡◌, inl, inr, refl, sym, ap, ◌∙◌, subst, Bool, true, false, ◌&&◌, Option, none,
  some, List, [], ◌∷◌, arith, Bool-cases, exists_row, find, update, sum_rows, sum_rows-update,
  AtMostOne, AtMostOne-update, Text,
}
use clutch_treasury.Base.Int.{ℤ, pos, pos_part, ◌≤ℤ◌, i64_bound}
use clutch_treasury.Store.{MintIntent, MintStatus, Db, custody_deposit}
use clutch_treasury.Intents.{has_id, find_by_id}
use clutch_treasury.ServiceFee.{Settings, split_off}
use clutch_treasury.ServiceFee.Split.{total_clt, split_off-total}
use clutch_treasury.Verifier.Judge.{Faults}
use clutch_treasury.Verifier.Approve.{
  approve_and_ledger, enqueue_mint, is_open, is_created, violates, set_verified, capped_amount,
  is_approved, charge_fee, after_split, insert_outbox,
}
use clutch_treasury.Verifier.Books.{Committed, committed}
use clutch_treasury.Verifier.Steps.{insert_outbox-intents, insert_event_once-intents}
use clutch_treasury.Verifier.Claims.{AtMostOne-weaken}

exists_row-never :
    {A : Type 0} (p : A → Bool) → ((x : A) → p x ≡ false) → (xs : List A) → exists_row p xs ≡ false
unfolding exists_row
exists_row-never p h [] = refl
exists_row-never p h (x ∷ xs) = ground (arith, h x, exists_row-never p h xs)

find-excluded :
    {A : Type 0} (p q : A → Bool) (xs : List A) (a : A)
    → exists_row (λ x. p x && q x) xs ≡ false
    → find p xs ≡ some a
    → q a ≡ false
unfolding exists_row find
find-excluded p q [] a h e = cc
find-excluded p q (x ∷ xs) a h e = elim (Bool-cases (p x)) [
  | inl hit ↦
      let e' : some x ≡ some a = rw hit at e in
      let same : x ≡ a = cc in subst (λ y. q y ≡ false) same (ground (arith, hit, h))
  | inr miss ↦ find-excluded p q xs a (ground (arith, h)) (rw miss at e)
]

find-absent : {A : Type 0} (p : A → Bool) (xs : List A) → exists_row p xs ≡ false → find p xs ≡ none
unfolding exists_row find
find-absent p [] h = refl
find-absent p (x ∷ xs) h = ground (arith, h, find-absent p xs)

absent_open :
    (id : ℕ) (rows : List MintIntent)
    → exists_row (has_id id) rows ≡ false
    → exists_row (is_open id) rows ≡ false
unfolding exists_row
absent_open id [] e = refl
absent_open id (x ∷ rows) e = ground (arith, e, absent_open id rows)

-- The one row with an id is the open one, where one is open.
find_open :
    (id : ℕ) (rows : List MintIntent) (i : MintIntent)
    → AtMostOne (has_id id) rows
    → find (has_id id) rows ≡ some i
    → exists_row (is_open id) rows ≡ true
    → find (is_open id) rows ≡ some i
unfolding exists_row find
find_open id [] i one e h = cc
find_open id (x ∷ rows) i one e h = elim (Bool-cases (has_id id x)) [
  | inl hit ↦
      let created : is_created x.status ≡ true =
        ground (arith, hit, h, absent_open id rows (one.0 hit)) in
      rw (hit, created) (rw hit at e)
  | inr miss ↦ rw miss (find_open id rows i one.1 (rw miss at e) (ground (arith, miss, h)))
]

find-update_one :
    (id : ℕ) (f : MintIntent → MintIntent) (rows : List MintIntent) (i : MintIntent)
    → ((x : MintIntent) → has_id id (f x) ≡ has_id id x)
    → find (is_open id) rows ≡ some i
    → AtMostOne (has_id id) rows
    → find (has_id id) (update (is_open id) f rows) ≡ some (f i)
unfolding find update
find-update_one id f [] i keep e one = cc
find-update_one id f (x ∷ rows) i keep e one = elim (Bool-cases (is_open id x)) [
  | inl hit ↦
      let e' : some x ≡ some i = rw hit at e in
      let same : x ≡ i = cc in
      let own : has_id id (f x) ≡ true = keep x ∙ ground (arith, hit) in
      rw (hit, own) (ap (λ y. some (f y)) same)
  | inr miss ↦ elim (Bool-cases (has_id id x)) [
    | inl own ↦
        let nothing : find (is_open id) rows ≡ none =
          find-absent (is_open id) rows (absent_open id rows (one.0 own)) in
        let clash : none ≡ some i = sym nothing ∙ rw miss at e in cc
    | inr other ↦ rw (miss, other) (find-update_one id f rows i keep (rw miss at e) one.1)
  ]
]

-- The bounds on the settings of the fee.
abbrev pub FeeBounds : Option Settings → Type 0
FeeBounds none = Unit
FeeBounds (some s) = (minimum : ℕ) × (s.bps ≤ 10000) × (s.min_clt ≡ pos minimum)

module _ (now : ℕ) (settings : Option Settings) (id fee_id : ℕ) (fee_ref : Text) where
  insert_outbox-total :
      (db db' : Db) → insert_outbox now id db ≡ some db' → total_clt db' ≡ total_clt db
  insert_outbox-total db db' e =
      ap (λ rows. sum_rows (λ _. true) (λ (i : MintIntent). i.amount_clt) rows)
        (insert_outbox-intents now id db db' e)

  after_split-total :
      (o : Option (ℤ × Db)) (db db' : Db)
      → ((out : ℤ × Db) → o ≡ some out → total_clt out.1 ≡ total_clt db)
      → after_split now id o ≡ some db'
      → total_clt db' ≡ total_clt db
  after_split-total none db db' h e = cc
  after_split-total (some r) db db' h e = insert_outbox-total r.1 db' e ∙ h r refl

  charge_fee-total :
      (fee : Option Settings) (db db' : Db) (i : MintIntent)
      → FeeBounds fee
      → find_by_id id db ≡ some i
      → AtMostOne (has_id id) db.mint_intents
      → i.amount_clt < i64_bound
      → 1 ≤ i.amount_clt
      → charge_fee now fee id fee_id fee_ref db ≡ some db'
      → total_clt db' ≡ total_clt db
  charge_fee-total none db db' i b found one low high e = insert_outbox-total db db' e
  charge_fee-total (some s) db db' i b found one low high e =
      after_split-total (split_off now s id fee_id fee_ref db) db db'
        (λ out taken.
          (split_off-total now s b.0 id fee_id fee_ref db i out.0 out.1 found one low high b.1 b.2
            taken).0)
        e

  enqueue_mint-total :
      (status : MintStatus) (db db' : Db) (i : MintIntent)
      → FeeBounds settings
      → find_by_id id db ≡ some i
      → AtMostOne (has_id id) db.mint_intents
      → i.amount_clt < i64_bound
      → 1 ≤ i.amount_clt
      → enqueue_mint now status settings id fee_id fee_ref db ≡ some db'
      → total_clt db' ≡ total_clt db
  unfolding enqueue_mint
  enqueue_mint-total status db db' i b found one low high e =
      elim (Bool-cases (is_approved status)) [
        | inl approved ↦ charge_fee-total settings db db' i b found one low high (rw approved at e)
        | inr held ↦
            let e' : some db ≡ some db' = rw held at e in
            sym (ap (λ o. elim o [ none ↦ total_clt db' | some d ↦ total_clt d ]) e')
      ]

-- A deposit recorded under a cap, for an intent of a unique id and a positive amount below 2 ^ 63:
-- what all the intents together mint changes by putting one positive amount in the place of the
-- intent's, and this amount is at most what was asked for, at most the cap and at most what was
-- observed to arrive. The operator's fee, at a rate of at most 10,000 basis points with a minimum
-- that is not negative, comes out of it.
pub approve_and_ledger-Within :
    (faults : Faults) (now id : ℕ) (observed : ℤ) (tx_id : Text) (status : MintStatus) (limit : ℤ)
    (fee : Option Settings) (fee_id : ℕ) (fee_ref : Text) (db db' : Db) (i : MintIntent)
    → FeeBounds fee
    → find_by_id id db ≡ some i
    → AtMostOne (has_id id) db.mint_intents
    → i.amount_clt < i64_bound
    → 1 ≤ i.amount_clt
    → approve_and_ledger faults now id observed tx_id status (some limit) fee fee_id fee_ref db
      ≡ some (true, db')
    → (minted : ℕ) × (total_clt db' + i.amount_clt ≡ total_clt db + minted)
      × (1 ≤ minted)
      × (minted ≤ i.amount_clt)
      × (pos minted ≤ℤ limit)
      × (pos minted ≤ℤ observed)
unfolding find_by_id
approve_and_ledger-Within faults now id observed tx_id status limit fee fee_id fee_ref db db' i b
      found one low high e =
    (
      capped_amount (some limit) i.amount_clt,
      moved_total,
      ground (arith, fine),
      ground (arith, fine, high),
      ground (arith, fine),
      ground (arith, fine),
    )
  where
    c : Committed faults now id observed tx_id status (some limit) fee fee_id fee_ref db db'
    c = committed faults now id observed tx_id status (some limit) fee fee_id fee_ref db db' e

    here_open : find (is_open id) db.mint_intents ≡ some i
    here_open = find_open id db.mint_intents i one found c.open_row

    fine : violates (some limit) observed i ≡ false
    fine =
        find-excluded (is_open id) (violates (some limit) observed) db.mint_intents i c.allowed
          here_open

    set : MintIntent → MintIntent
    set = set_verified now status (some limit) observed

    one_open : AtMostOne (is_open id) db.mint_intents
    one_open =
        AtMostOne-weaken (has_id id) (is_open id) db.mint_intents
          (exists_row-never _ (λ x. ground arith) db.mint_intents) one

    queued_total :
        total_clt c.queued
        ≡ sum_rows
            (λ _. true)
            (λ (x : MintIntent). x.amount_clt)
            (update (is_open id) set db.mint_intents)
    queued_total =
        enqueue_mint-total now fee id fee_id fee_ref status _ c.queued (set i) b
          (find-update_one id set db.mint_intents i (λ x. refl) here_open one)
          (AtMostOne-update (is_open id) (has_id id) set (λ x. ground arith) db.mint_intents one)
          (ground (arith, fine, low)) (ground (arith, fine, high)) c.enqueued

    written_total : total_clt db' ≡ total_clt c.queued
    written_total =
        ap (λ rows. sum_rows (λ _. true) (λ (x : MintIntent). x.amount_clt) rows)
          (ap (λ (d : Db). d.mint_intents) c.written
            ∙ insert_event_once-intents id custody_deposit 0 (pos_part observed) (some tx_id)
                c.queued)

    moved_total :
        total_clt db' + i.amount_clt ≡ total_clt db + capped_amount (some limit) i.amount_clt
    moved_total =
        ap (λ n. n + i.amount_clt) (written_total ∙ queued_total)
        ∙ sum_rows-update (is_open id) (λ _. true) set (λ x. x.amount_clt) db.mint_intents i
            one_open here_open
