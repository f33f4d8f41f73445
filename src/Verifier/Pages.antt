-- ===== src/Verifier/Pages.antt =====
-- The pages of an address's transfers (tron_verifier.rs, `trc20_transfers`).
use clutch_treasury.Base.{
  ℕ, zero, suc, ◌≡◌, ◌↔◌, refl, ◌∙◌, inl, inr, ◌⊎◌, ◌≤◌, ◌<◌, ◌||◌, not, length, is_some, ltb,
  arith, subst, ◌∷◌, true, false, Option, none, some, List, [], ◌++◌, append_assoc, Bool-cases,
  Option-cases, Text,
}
use clutch_treasury.Base.Int.{ℤ}
use clutch_treasury.Verifier.Client.{
  Trc20Transfer, Page, TronNode, cursor_of, is_last, max_pages, pages_from, trc20_transfers,
}

-- An absent cursor, or an empty one.
abbrev pub NoCursor : Option Text → Type 0
NoCursor none = Unit
NoCursor (some next) = length next ≡ 0

-- The rows of the pages that follow one another from a cursor, the last one included, where there
-- are at most `n` of them and all can be read.
pub data Listed (page : Option Text → Option Page)
    : ℕ → Option Text → List Trc20Transfer → Type 0 where
  last :
      {n : ℕ} {cursor : Option Text} {rows : List Trc20Transfer} (p : Page)
      → page cursor ≡ some p
      → (length p.data_rows < 200) ⊎ NoCursor p.fingerprint
      → rows ≡ p.data_rows
      → Listed page (suc n) cursor rows
  more :
      {n : ℕ} {cursor : Option Text} {rows : List Trc20Transfer} (p : Page) (next : Text)
      (rest : List Trc20Transfer)
      → page cursor ≡ some p
      → 200 ≤ length p.data_rows
      → p.fingerprint ≡ some next
      → 1 ≤ length next
      → Listed page n (some next) rest
      → rows ≡ p.data_rows ++ rest
      → Listed page (suc n) cursor rows

cursor_of-none : (o : Option Text) → is_some (cursor_of o) ≡ false → NoCursor o
cursor_of-none none e = tt
cursor_of-none (some []) e = refl
cursor_of-none (some (c ∷ t)) e = cc

is_last-Means : (p : Page) → is_last p ≡ true → (length p.data_rows < 200) ⊎ NoCursor p.fingerprint
is_last-Means p e = elim (Bool-cases (ltb (length p.data_rows) 200)) [
  | inl short ↦ inl (ground (arith, short))
  | inr long ↦ inr (cursor_of-none p.fingerprint (ground (arith, e, long)))
]

Means-is_last : (p : Page) → (length p.data_rows < 200) ⊎ NoCursor p.fingerprint → is_last p ≡ true
Means-is_last p (inl short) = ground (arith, short)
Means-is_last p (inr none_follows) = by_cursor p.fingerprint none_follows
  where
    by_cursor :
        (o : Option Text)
        → NoCursor o
        → (ltb (length p.data_rows) 200 || not (is_some (cursor_of o))) ≡ true
    by_cursor none k = ground arith
    by_cursor (some []) k = ground arith
    by_cursor (some (c ∷ t)) k = absurd (ground (arith, k))

cursor_of-some :
    (o : Option Text)
    → is_some (cursor_of o) ≡ true
    → (next : Text) × (o ≡ some next) × (1 ≤ length next) × (cursor_of o ≡ some next)
cursor_of-some none e = cc
cursor_of-some (some []) e = cc
cursor_of-some (some (c ∷ t)) e = (c ∷ t, refl, omega arith, refl)

not_short : (n : ℕ) → ltb n 200 ≡ false → 200 ≤ n
not_short n long = ground (arith, long)

goes_on-Means :
    (p : Page)
    → is_last p ≡ false
    → (next : Text) × (200 ≤ length p.data_rows)
      × (p.fingerprint ≡ some next)
      × (1 ≤ length next)
      × (cursor_of p.fingerprint ≡ some next)
goes_on-Means p e = elim (Bool-cases (ltb (length p.data_rows) 200)) [
  | inl short ↦ absurd (ground (arith, e, short))
  | inr long ↦ elim (Bool-cases (is_some (cursor_of p.fingerprint))) [
    | inl follows ↦
        let found = cursor_of-some p.fingerprint follows in
        (found.0, not_short (length p.data_rows) long, found.1, found.2, found.3)
    | inr ends ↦ let clash : true ≡ false = rw (long, ends) at e in absurd cc
  ]
]

Means-goes_on :
    (p : Page) (next : Text)
    → 200 ≤ length p.data_rows
    → p.fingerprint ≡ some next
    → 1 ≤ length next
    → (is_last p ≡ false) × (cursor_of p.fingerprint ≡ some next)
Means-goes_on p [] long given some_text = absurd (omega (arith, some_text))
Means-goes_on p (c ∷ t) long given some_text = (rw given (ground (arith, long)), rw given refl)

Gathered :
    (Option Text → Option Page) → ℕ → Option Text → List Trc20Transfer → List Trc20Transfer → Type 0
Gathered page n cursor so_far rows =
    (rest : List Trc20Transfer) × Listed page n cursor rest × (rows ≡ so_far ++ rest)

pages_from-Listed :
    (page : Option Text → Option Page) (n : ℕ) (cursor : Option Text)
    (so_far rows : List Trc20Transfer)
    → pages_from page n cursor so_far ≡ some rows
    → Gathered page n cursor so_far rows
unfolding pages_from Gathered
pages_from-Listed page zero cursor so_far rows e = cc
pages_from-Listed page (suc n) cursor so_far rows e = elim (Option-cases (page cursor)) [
  | inl failed ↦ let clash : none ≡ some rows = rw (pages_from, failed) at e in cc
  | inr read ↦ elim (Bool-cases (is_last read.0)) [
    | inl ends ↦
        let e' : some (so_far ++ read.0.data_rows) ≡ some rows =
          rw (pages_from, read.1, ends) at e in
        (read.0.data_rows, last read.0 read.1 (is_last-Means read.0 ends) refl, cc)
    | inr goes_on ↦
        let found =
          pages_from-Listed page n (cursor_of read.0.fingerprint) (so_far ++ read.0.data_rows) rows
            (rw (pages_from, read.1, goes_on) at e) in
        (
          read.0.data_rows ++ found.0,
          (let (next, long, given, some_text, own) = goes_on-Means read.0 goes_on in
              more read.0 next found.0 read.1 long given some_text
                (subst (λ c. Listed page n c found.0) own found.1) refl),
          found.2 ∙ append_assoc so_far read.0.data_rows found.0,
        )
  ]
]

Listed-pages_from :
    (page : Option Text → Option Page) {n : ℕ} {cursor : Option Text} {rest : List Trc20Transfer}
    (so_far : List Trc20Transfer)
    → Listed page n cursor rest
    → pages_from page n cursor so_far ≡ some (so_far ++ rest)
unfolding pages_from
Listed-pages_from page so_far (last p read ends same) =
    rw (pages_from, read, Means-is_last p ends, same) refl
Listed-pages_from page so_far (more p next rest read long given some_text later same) =
    rw
      (
        pages_from,
        read,
        (Means-goes_on p next long given some_text).0,
        (Means-goes_on p next long given some_text).1,
        same,
        ← append_assoc so_far p.data_rows rest,
      )
      (Listed-pages_from page (so_far ++ p.data_rows) later)

-- The transfers of an address are answered exactly where at most ten pages lead to one that is
-- short or has no cursor and every one of them can be read; the answer is the rows of all of them,
-- in order. So an answer is never cut short.
pub trc20_transfers_iff :
    (node : TronNode) (address : Text) (from : Option ℤ) (rows : List Trc20Transfer)
    → (trc20_transfers node address from ≡ some rows) ↔ Listed (node.page address from) 10 none rows
unfolding trc20_transfers Gathered
trc20_transfers_iff node address from rows = (
  λ e.
      let found = pages_from-Listed (node.page address from) max_pages none [] rows e in
      rw found.2 found.1,
  λ l. Listed-pages_from (node.page address from) [] l,
)
