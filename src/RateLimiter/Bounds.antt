-- ===== src/RateLimiter/Bounds.antt =====
-- The limiter bounds both its map and the requests of a window (ratelimit.rs, `check`).
use clutch_treasury.Base.{
  ℕ, ◌-◌, ◌≤◌, ◌≡◌, inl, inr, refl, subst, Bool, false, not, Option, none, some, List, [], ◌∷◌,
  arith, leb, length, Text, find, where_rows, exists_row, All, All-append, All-update_one,
  AtMostOne, AtMostOne-update, AtMostOne-snoc, text_eq_iff, Bool-cases, All-where_rows,
}
use clutch_treasury.RateLimiter.{
  Entry, RateLimiter, has_key, in_window, oldest, remove_oldest, evict, make_room, check_entry,
  check, max_keys, start_window, count_up,
}
use clutch_treasury.RateLimiter.Lengths.{length-check_entry}

-- No entry has counted more requests than a window allows.
abbrev pub Counted : ℕ → List Entry → Type 0
Counted limit es = All (λ (e : Entry). e.count ≤ limit) es

-- Making room only drops entries.
make_room_keeps :
    (Q : List Entry → Type 0) (window now : ℕ) (es : List Entry)
    → ((p : Entry → Bool) (xs : List Entry) → Q xs → Q (where_rows p xs))
    → Q es
    → Q (make_room window now es)
unfolding make_room evict
make_room_keeps Q window now es drop h = elim (Bool-cases (leb max_keys (length es))) [
  | inl full ↦ rw full (elim (Bool-cases (leb max_keys (length fresh))) [
    | inl still ↦ rw still (by_oldest (oldest fresh))
    | inr room ↦ rw room (drop (in_window window now) es h)
  ])
  | inr room ↦ rw room h
]
  where
    fresh : List Entry
    fresh = where_rows (in_window window now) es

    by_oldest : (o : Option Entry) → Q (remove_oldest o fresh)
    by_oldest none = drop (in_window window now) es h
    by_oldest (some e) = drop (λ f. not (has_key e.key f)) fresh (drop (in_window window now) es h)

make_room-Counted :
    (limit window now : ℕ) (es : List Entry)
    → Counted limit es
    → Counted limit (make_room window now es)
make_room-Counted limit window now es =
    make_room_keeps (Counted limit) window now es
      (λ p xs. All-where_rows (λ (x : Entry). x.count ≤ limit) p xs)

-- The entry that a request is counted on is the one entry with its key.
check_entry-Counted :
    (window limit now : ℕ) (key : Text) (o : Option Entry) (es : List Entry)
    → 1 ≤ limit
    → AtMostOne (has_key key) es
    → find (has_key key) es ≡ o
    → Counted limit es
    → Counted limit (check_entry window limit now key o es).1
unfolding check_entry
check_entry-Counted window limit now key none es k one found h =
    All-append (λ (x : Entry). x.count ≤ limit) (make_room window now es) _
      (make_room-Counted limit window now es h) (k, tt)
check_entry-Counted window limit now key (some e) es k one found h =
    elim (Bool-cases (leb window (now - e.window_start))) [
      | inl over ↦ rw over (
          All-update_one (λ (x : Entry). x.count ≤ limit) (has_key key) (start_window now) es e one
            found h k)
      | inr within ↦ elim (Bool-cases (leb limit e.count)) [
        | inl spent ↦ rw (within, spent) h
        | inr left ↦
            rw (within, left)
              (All-update_one (λ (x : Entry). x.count ≤ limit) (has_key key) count_up es e one found
                h (ground arith))
      ]
    ]

exists_row-where_rows :
    (q p : Entry → Bool) (xs : List Entry)
    → exists_row q xs ≡ false
    → exists_row q (where_rows p xs) ≡ false
unfolding exists_row where_rows
exists_row-where_rows q p [] h = refl
exists_row-where_rows q p (x ∷ xs) h =
    ground (arith, exists_row-where_rows q p xs, Bool-cases (p x), Bool-cases (q x))

AtMostOne-where_rows :
    (q p : Entry → Bool) (xs : List Entry) → AtMostOne q xs → AtMostOne q (where_rows p xs)
unfolding where_rows
AtMostOne-where_rows q p [] h = tt
AtMostOne-where_rows q p (x ∷ xs) h = elim (Bool-cases (p x)) [
  | inl kept ↦ rw kept (λ e. exists_row-where_rows q p xs (h.0 e), AtMostOne-where_rows q p xs h.1)
  | inr dropped ↦ rw dropped (AtMostOne-where_rows q p xs h.1)
]

find-none : (p : Entry → Bool) (xs : List Entry) → find p xs ≡ none → exists_row p xs ≡ false
unfolding find exists_row
find-none p [] h = refl
find-none p (x ∷ xs) h = ground (arith, find-none p xs, h, Bool-cases (p x))

-- A request adds an entry only under a key that has none.
check_entry-AtMostOne :
    (window limit now : ℕ) (key k : Text) (o : Option Entry) (es : List Entry)
    → find (has_key key) es ≡ o
    → AtMostOne (has_key k) es
    → AtMostOne (has_key k) (check_entry window limit now key o es).1
unfolding check_entry
check_entry-AtMostOne window limit now key k none es found h =
    AtMostOne-snoc (has_key k) (make_room window now es) _
      (make_room_keeps (AtMostOne (has_key k)) window now es (AtMostOne-where_rows (has_key k)) h)
      (λ e.
        let same : key ≡ k = (text_eq_iff key k).0 e in
        subst (λ x. exists_row (has_key x) (make_room window now es) ≡ false) same
          (make_room_keeps (λ xs. exists_row (has_key key) xs ≡ false) window now es
            (exists_row-where_rows (has_key key)) (find-none (has_key key) es found)))
check_entry-AtMostOne window limit now key k (some e) es found h =
    elim (Bool-cases (leb window (now - e.window_start))) [
      | inl over ↦
          rw over
            (AtMostOne-update (has_key key) (has_key k) (start_window now) (λ x. ground arith) es h)
      | inr within ↦ elim (Bool-cases (leb limit e.count)) [
        | inl spent ↦ rw (within, spent) h
        | inr left ↦
            rw (within, left)
              (AtMostOne-update (has_key key) (has_key k) count_up (λ x. ground arith) es h)
      ]
    ]

-- A limiter in bounds: at most 10,000 entries, one to an identity, and no identity has more requests
-- counted in its window than a window allows.
pub record InBounds (l : RateLimiter) : Type 0 where
  pub few : length l.state ≤ max_keys
  pub one_entry : (key : Text) → AtMostOne (has_key key) l.state
  pub counted : Counted l.max_per_window l.state

-- Any request keeps a limiter in bounds, for an allowance of at least one request.
pub check-InBounds :
    (now : ℕ) (key : Text) (l : RateLimiter)
    → 1 ≤ l.max_per_window
    → InBounds l
    → InBounds (check now key l).1
unfolding check
check-InBounds now key l k h = record {
  few =
      length-check_entry l.window l.max_per_window now key (find (has_key key) l.state) l.state
        h.few;
  counted =
      check_entry-Counted l.window l.max_per_window now key (find (has_key key) l.state) l.state k
        (h.one_entry key) refl h.counted;
  one_entry = λ other.
      check_entry-AtMostOne l.window l.max_per_window now key other (find (has_key key) l.state)
        l.state refl (h.one_entry other);
}
