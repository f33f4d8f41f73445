-- ===== src/Orchestrator/Life/Watermark.antt =====
-- When the read watermark of an address moves: crates/payment-orchestrator/src/poller.rs, the
-- `TieredPoller`.
use clutch_treasury.Base.{
  ℕ, zero, suc, ◌≡◌, ◌⊎◌, inl, inr, refl, sym, ◌∙◌, ap, subst, Bool, true, false, not, Option, none,
  some, List, [], ◌∷◌, if◌then◌else◌, map, Bool-cases, arith, Text, text_eq, text_eq_iff,
  text_eq_refl, find, update, where_rows, order_by, exists_row, exists_row-append, All, All-append,
  All-order_by, All-where_rows, AtMostOne,
}
use clutch_treasury.Base.Int.{ℤ, pos, ◌+ℤ◌}
use clutch_treasury.Orchestrator.Store.{DepositAddress, ObservedTransfer, OrchDb}
use clutch_treasury.Orchestrator.Custody.{CustodyWatcher}
use clutch_treasury.Orchestrator.Tiered.{
  take, is_hot, attempted_at, due_addresses, since, Reads, add_read, read_addresses, is_among,
  stamp_attempt, stamp_read, stamp, warn_failed, poll,
}

abbrev pub lives_at : Text → DepositAddress → Bool
lives_at address a = text_eq a.address address

-- Each of these transfers is one of those.
abbrev pub Within : List ObservedTransfer → List ObservedTransfer → Type 0
Within ts found = (q : ObservedTransfer → Bool) → exists_row q ts ≡ true → exists_row q found ≡ true

-- Where the reading of an address must start: an hour before the watermark, in milliseconds, and
-- at the beginning where there is none.
abbrev pub StartsAt : Option ℕ → Option ℤ → Type 0
StartsAt none start = start ≡ none
StartsAt (some t) none = ⊥
StartsAt (some t) (some start) = start +ℤ pos 3600000 ≡ pos t

-- The address was read from there on, and the pass hands on all that was there.
abbrev pub HandedOn : CustodyWatcher → Text → Option ℕ → List ObservedTransfer → Type 0
HandedOn chain address watermark found =
    (start : Option ℤ) × (ts : List ObservedTransfer) × StartsAt watermark start
    × (chain address start ≡ some ts)
    × Within ts found

since-StartsAt : (watermark : Option ℕ) → StartsAt watermark (since watermark)
unfolding ◌+ℤ◌
since-StartsAt none = refl
since-StartsAt (some t) = ground arith

-- The watermark that a row at the address has.
abbrev Marked : Text → Option ℕ → DepositAddress → Type 0
Marked address watermark a = lives_at address a ≡ true → a.last_polled_at ≡ watermark

All-take : {A : Type 0} (P : A → Type 0) (n : ℕ) (xs : List A) → All P xs → All P (take n xs)
unfolding take
All-take P zero xs h = tt
All-take P (suc n) [] h = tt
All-take P (suc n) (x ∷ xs) h = (h.0, All-take P n xs h.1)

due_addresses-Marked :
    (address : Text) (watermark : Option ℕ) (now budget : ℕ) (db : OrchDb)
    → All (Marked address watermark) db.deposit_addresses
    → All (Marked address watermark) (due_addresses now budget db)
unfolding due_addresses
due_addresses-Marked address watermark now budget db h =
    let P = Marked address watermark in
    let rotation = order_by attempted_at db.deposit_addresses in
    let all = All-order_by P attempted_at db.deposit_addresses h in
    All-take P budget _ (
      All-append P (where_rows (is_hot now) rotation)
        (where_rows (λ a. not (is_hot now a)) rotation) (All-where_rows P (is_hot now) rotation all)
        (All-where_rows P (λ a. not (is_hot now a)) rotation all))

Marked-row :
    (address : Text) (rows : List DepositAddress) (a : DepositAddress)
    → AtMostOne (lives_at address) rows
    → find (lives_at address) rows ≡ some a
    → All (Marked address a.last_polled_at) rows
unfolding find exists_row
Marked-row address [] a one e = tt
Marked-row address (x ∷ rows) a one e = elim (Bool-cases (lives_at address x)) [
  | inl hit ↦
      let e' : some x ≡ some a = rw hit at e in
      let same : x ≡ a = cc in
      (λ h. ap (λ (y : DepositAddress). y.last_polled_at) same, others rows (one.0 hit))
  | inr miss ↦ (
    λ h. let clash : true ≡ false = sym h ∙ miss in cc,
    Marked-row address rows a one.1 (rw miss at e),
  )
]
  where
    others :
        (ys : List DepositAddress)
        → exists_row (lives_at address) ys ≡ false
        → All (Marked address a.last_polled_at) ys
    others [] h = tt
    others (y ∷ ys) h = elim (Bool-cases (lives_at address y)) [
      | inl hit ↦ let clash : true ≡ false = ground (arith, h, hit) in absurd cc
      | inr miss ↦
          (λ k. let clash : true ≡ false = sym k ∙ miss in cc, others ys (ground (arith, h, miss)))
    ]

-- One more address is read, with its answer.
add_read-HandedOn :
    (chain : CustodyWatcher) (address : Text) (watermark : Option ℕ) (a : DepositAddress)
    (rest : Reads)
    → Marked address watermark a
    → (exists_row (text_eq address) rest.succeeded ≡ true
        → HandedOn chain address watermark rest.found)
    → (o : Option (List ObservedTransfer)) → chain a.address (since a.last_polled_at) ≡ o
    → exists_row (text_eq address) (add_read a.address o rest).succeeded ≡ true
    → HandedOn chain address watermark (add_read a.address o rest).found
unfolding exists_row
add_read-HandedOn chain address watermark a rest mark later none e k = later k
add_read-HandedOn chain address watermark a rest mark later (some ts) e k =
    elim (Bool-cases (text_eq address a.address)) [
      | inl hit ↦
          let own : address ≡ a.address = (text_eq_iff address a.address).0 hit in
          let same : a.last_polled_at ≡ watermark =
            mark (subst (λ x. text_eq a.address x ≡ true) (sym own) (text_eq_refl a.address)) in
          (
            since watermark,
            ts,
            since-StartsAt watermark,
            ap (λ x. chain x (since watermark)) own
                ∙ ap (λ w. chain a.address (since w)) (sym same)
                ∙ e,
            λ q m. ground (arith, m, exists_row-append q ts rest.found),
          )
      | inr miss ↦
          let found = later (ground (arith, k, miss)) in
          (
            found.0,
            found.1,
            found.2,
            found.3,
            λ q m. ground (arith, found.4 q m, exists_row-append q ts rest.found),
          )
    ]

read_addresses-HandedOn :
    (chain : CustodyWatcher) (address : Text) (watermark : Option ℕ) (due : List DepositAddress)
    → All (Marked address watermark) due
    → exists_row (text_eq address) (read_addresses chain due).succeeded ≡ true
    → HandedOn chain address watermark (read_addresses chain due).found
unfolding read_addresses exists_row
read_addresses-HandedOn chain address watermark [] all h = cc
read_addresses-HandedOn chain address watermark (a ∷ due) all h =
    add_read-HandedOn chain address watermark a (read_addresses chain due) all.0
      (read_addresses-HandedOn chain address watermark due all.1)
      (chain a.address (since a.last_polled_at)) refl h

find-update_kept :
    {A : Type 0} (q p : A → Bool) (f : A → A)
    → ((x : A) → q (f x) ≡ q x)
    → (xs : List A) (a : A) → find q xs ≡ some a
    → find q (update p f xs) ≡ some (if p a then f a else a)
unfolding find update
find-update_kept q p f keep [] a e = cc
find-update_kept q p f keep (x ∷ xs) a e = elim (Bool-cases (q x)) [
  | inl hit ↦
      let e' : some x ≡ some a = rw hit at e in
      let same : x ≡ a = cc in
      rw (still (Bool-cases (p x)) ∙ hit) (ap (λ y. some (if p y then f y else y)) same)
  | inr miss ↦
      rw (still (Bool-cases (p x)) ∙ miss) (find-update_kept q p f keep xs a (rw miss at e))
]
  where
    still : (p x ≡ true) ⊎ (p x ≡ false) → q (if p x then f x else x) ≡ q x
    still (inl hit) = rw hit (keep x)
    still (inr miss) = rw miss refl

warn_failed-rows :
    (now : ℕ) (unread : List Text) (db : OrchDb)
    → (warn_failed now unread db).deposit_addresses ≡ db.deposit_addresses
warn_failed-rows now [] db = refl
warn_failed-rows now (a ∷ unread) db = refl

-- The row of an address after each stamp.
abbrev attempted_row : ℕ → List Text → DepositAddress → DepositAddress
attempted_row now attempted a = if is_among attempted a then stamp_attempt now a else a

abbrev read_row : ℕ → List Text → DepositAddress → DepositAddress
read_row now succeeded a = if is_among succeeded a then stamp_read now a else a

attempted_row-keeps :
    (now : ℕ) (attempted : List Text) (a : DepositAddress)
    → ((attempted_row now attempted a).address ≡ a.address)
      × ((attempted_row now attempted a).last_polled_at ≡ a.last_polled_at)
attempted_row-keeps now attempted a = elim (Bool-cases (is_among attempted a)) [
  | inl hit ↦ rw hit (refl, refl)
  | inr miss ↦ rw miss (refl, refl)
]

reached_row :
    (now : ℕ) (attempted succeeded : List Text) (a : DepositAddress)
    → exists_row (text_eq a.address) succeeded ≡ true
    → (read_row now succeeded (attempted_row now attempted a)).last_polled_at ≡ some now
reached_row now attempted succeeded a read =
    let inside : is_among succeeded (attempted_row now attempted a) ≡ true =
      ap (λ x. exists_row (text_eq x) succeeded) (attempted_row-keeps now attempted a).0 ∙ read in
    rw inside refl

unread_row :
    (now : ℕ) (attempted succeeded : List Text) (a : DepositAddress)
    → exists_row (text_eq a.address) succeeded ≡ false
    → (read_row now succeeded (attempted_row now attempted a)).last_polled_at ≡ a.last_polled_at
unread_row now attempted succeeded a unread =
    let kept = attempted_row-keeps now attempted a in
    let outside : is_among succeeded (attempted_row now attempted a) ≡ false =
      ap (λ x. exists_row (text_eq x) succeeded) kept.0 ∙ unread in
    rw outside kept.1

-- A pass of the rotation moves the watermark of an address only to the time of the pass, and only
-- where it read the address from an hour before the old watermark on (from the beginning where there
-- was none); then it hands on every transfer that was there: none is passed over, whatever else was
-- read or failed. Each address has one row.
pub poll-HandedOn :
    (now budget : ℕ) (chain : CustodyWatcher) (db : OrchDb) (a : DepositAddress)
    → AtMostOne (lives_at a.address) db.deposit_addresses
    → find (lives_at a.address) db.deposit_addresses ≡ some a
    → let (found, db') = poll now budget chain db in
      (b : DepositAddress) × (find (lives_at a.address) db'.deposit_addresses ≡ some b)
      × ((b.last_polled_at ≡ a.last_polled_at)
          ⊎ ((b.last_polled_at ≡ some now) × HandedOn chain a.address a.last_polled_at found))
unfolding poll stamp
poll-HandedOn now budget chain db a one e =
    let due = due_addresses now budget db in
    let reads = read_addresses chain due in
    let attempted = map (λ x. x.address) due in
    let first =
      find-update_kept (lives_at a.address) (is_among attempted) (stamp_attempt now) (λ x. refl)
        db.deposit_addresses a e in
    let second =
      find-update_kept (lives_at a.address) (is_among reads.succeeded) (stamp_read now) (λ x. refl)
        _ (attempted_row now attempted a) first in
    (
      read_row now reads.succeeded (attempted_row now attempted a),
      ap (find (lives_at a.address))
            (warn_failed-rows now reads.unread (stamp now attempted reads.succeeded db))
          ∙ second,
      elim (Bool-cases (exists_row (text_eq a.address) reads.succeeded)) [
        | inl read ↦ inr (
          reached_row now attempted reads.succeeded a read,
          read_addresses-HandedOn chain a.address a.last_polled_at due
              (due_addresses-Marked a.address a.last_polled_at now budget db
                (Marked-row a.address db.deposit_addresses a one e))
              read,
        )
        | inr unread ↦ inl (unread_row now attempted reads.succeeded a unread)
      ],
    )
