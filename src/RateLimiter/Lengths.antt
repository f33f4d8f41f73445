-- ===== src/RateLimiter/Lengths.antt =====
-- How long the map of the limiter gets (ratelimit.rs, `check`).
use clutch_treasury.Base.{
  ℕ, ◌+◌, ◌≤◌, ◌≡◌, inl, inr, refl, subst, Bool, true, not, ◌||◌, Option, none, some, List, [], ◌∷◌,
  arith, ltb, leb, length, length-append, length-update, Text, text_eq_refl, where_rows, exists_row,
  Bool-cases, Option-cases,
}
use clutch_treasury.RateLimiter.{
  Entry, has_key, in_window, oldest, evict, make_room, check_entry, max_keys, start_window,
  count_up,
}

length-where_rows : (p : Entry → Bool) (es : List Entry) → length (where_rows p es) ≤ length es
unfolding where_rows
length-where_rows p [] = omega arith
length-where_rows p (e ∷ es) = ground (arith, length-where_rows p es)

-- Removing the rows with a property that some row has shortens the list.
length-removed :
    (p : Entry → Bool) (es : List Entry)
    → exists_row p es ≡ true
    → length (where_rows (λ e. not (p e)) es) + 1 ≤ length es
unfolding where_rows exists_row
length-removed p [] h = cc
length-removed p (e ∷ es) h =
    ground (arith, length-removed p es, length-where_rows (λ e. not (p e)) es, Bool-cases (p e))

-- The oldest entry is an entry.
oldest-exists :
    (es : List Entry) (e : Entry) → oldest es ≡ some e → exists_row (has_key e.key) es ≡ true
unfolding oldest exists_row
oldest-exists [] e h = cc
oldest-exists (f ∷ es) e h = elim (Option-cases (oldest es)) [
  | inl empty ↦
      let h' : some f ≡ some e = rw empty at h in
      let same : f ≡ e = cc in
      subst (λ x. (has_key x.key f || exists_row (has_key x.key) es) ≡ true) same
        (ground (arith, text_eq_refl f.key))
  | inr (g, found) ↦ elim (Bool-cases (ltb g.window_start f.window_start)) [
    | inl later ↦
        let h' : some g ≡ some e = rw (found, later) at h in
        let same : g ≡ e = cc in
        subst (λ x. (has_key x.key f || exists_row (has_key x.key) es) ≡ true) same
          (ground (arith, oldest-exists es g found))
    | inr first ↦
        let h' : some f ≡ some e = rw (found, first) at h in
        let same : f ≡ e = cc in
        subst (λ x. (has_key x.key f || exists_row (has_key x.key) es) ≡ true) same
          (ground (arith, text_eq_refl f.key))
  ]
]

oldest-none : (es : List Entry) → oldest es ≡ none → length es ≡ 0
unfolding oldest
oldest-none [] h = refl
oldest-none (e ∷ es) h = cc

length-evict : (es : List Entry) → length es ≤ max_keys → length (evict es) + 1 ≤ max_keys
unfolding evict
length-evict es h = elim (Bool-cases (leb max_keys (length es))) [
  | inl full ↦ elim (Option-cases (oldest es)) [
    | inl empty ↦ absurd (ground (arith, oldest-none es empty))
    | inr (e, found) ↦
        rw (full, found)
          (omega (arith, h, length-removed (has_key e.key) es (oldest-exists es e found)))
  ]
  | inr room ↦ rw room (ground arith)
]

length-make_room :
    (window now : ℕ) (es : List Entry)
    → length es ≤ max_keys
    → length (make_room window now es) + 1 ≤ max_keys
unfolding make_room
length-make_room window now es h = elim (Bool-cases (leb max_keys (length es))) [
  | inl full ↦ rw full (
      length-evict (where_rows (in_window window now) es)
        (omega (arith, h, length-where_rows (in_window window now) es)))
  | inr room ↦ rw room (ground arith)
]

-- A map of at most 10,000 keys has at most 10,000 keys after any request.
pub length-check_entry :
    (window limit now : ℕ) (key : Text) (o : Option Entry) (es : List Entry)
    → length es ≤ max_keys
    → length (check_entry window limit now key o es).1 ≤ max_keys
unfolding check_entry
length-check_entry window limit now key none es h =
    rw (length-append (make_room window now es) _) (omega (arith, length-make_room window now es h))
length-check_entry window limit now key (some e) es h = ground (
  arith,
  length-update (has_key key) (start_window now) es,
  length-update (has_key key) count_up es,
)
