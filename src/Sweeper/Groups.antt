-- ===== src/Sweeper/Groups.antt =====
-- Grouping by index (crates/treasury-service/src/sweeper.rs, `by_index`).
use clutch_treasury.Base.{
  ℕ, ap, Bool, ◌≡◌, inl, inr, refl, ◌∙◌, true, false, ◌||◌, List, [], ◌∷◌, ◌++◌, append_assoc,
  append-nil, map, if◌then◌else◌, Bool-cases, arith, where_rows, AtMostOne, sym, exists_row, All,
  subst,
}
use clutch_treasury.Base.Int.{ℤ, pos, negsuc}
use clutch_treasury.Sweeper.{SweepRow, IndexGroup, same_index, add_row, add_rows, by_index}

-- The ids that the groups have for an index.
unfoldable pub ids_of : ℤ → List IndexGroup → List ℕ
ids_of k [] = []
ids_of k (g ∷ groups) = if same_index g.index k then g.ids ++ ids_of k groups else ids_of k groups

-- The ids of the rows of an index, in their order.
unfoldable pub row_ids : ℤ → List SweepRow → List ℕ
unfolding where_rows
row_ids k rows = map (λ r. r.id) (where_rows (λ r. same_index r.index k) rows)

abbrev pub has_index : ℤ → IndexGroup → Bool
has_index k g = same_index g.index k

same_index_trans : (a b c : ℤ) → same_index a b ≡ true → same_index a c ≡ same_index b c
same_index_trans a b c e = ground arith

ids_of-absent :
    (j k : ℤ) (groups : List IndexGroup)
    → same_index j k ≡ true
    → exists_row (has_index j) groups ≡ false
    → ids_of k groups ≡ []
unfolding ids_of exists_row
ids_of-absent j k [] e h = refl
ids_of-absent j k (g ∷ groups) e h =
    let elsewhere : same_index g.index k ≡ false = ground arith in
    let rest = ids_of-absent j k groups e (ground arith) in rw elsewhere rest

ids_of-add_row :
    (k : ℤ) (r : SweepRow) (groups : List IndexGroup)
    → AtMostOne (has_index r.index) groups
    → ids_of k (add_row r groups) ≡ ids_of k groups ++ row_ids k (r ∷ [])
unfolding ids_of add_row row_ids where_rows
ids_of-add_row k r [] one = elim (Bool-cases (same_index r.index k)) [
  | inl own ↦ rw own refl
  | inr other ↦ rw other refl
]
ids_of-add_row k r (g ∷ groups) one = elim (Bool-cases (same_index g.index r.index)) [
  | inl joins ↦ elim (Bool-cases (same_index r.index k)) [
    | inl own ↦
        let same : same_index g.index k ≡ true = same_index_trans g.index r.index k joins ∙ own in
        let none_left = ids_of-absent r.index k groups own (one.0 joins) in
        rw (joins, same, own, none_left, append-nil (g.ids ++ r.id ∷ []), append-nil g.ids) refl
    | inr other ↦
        let same : same_index g.index k ≡ false =
          same_index_trans g.index r.index k joins ∙ other in
        rw (joins, same, other) (sym (append-nil (ids_of k groups)))
  ]
  | inr apart ↦ elim (Bool-cases (same_index g.index k)) [
    | inl own ↦
        rw (apart, own, ids_of-add_row k r groups one.1)
          (sym (append_assoc g.ids (ids_of k groups) (row_ids k (r ∷ []))))
    | inr other ↦ rw (apart, other) (ids_of-add_row k r groups one.1)
  ]
]

or_assoc : (a b c : Bool) → (a || (b || c)) ≡ ((a || b) || c)
or_assoc a b c = ground arith

or_last : (a b : Bool) → (a || b) ≡ (a || b || a)
or_last a b = ground arith

exists_row-add_row :
    (k : ℤ) (r : SweepRow) (groups : List IndexGroup)
    → exists_row (has_index k) (add_row r groups)
      ≡ (exists_row (has_index k) groups || same_index r.index k)
unfolding add_row exists_row
exists_row-add_row k r [] = ground arith
exists_row-add_row k r (g ∷ groups) = elim (Bool-cases (same_index g.index r.index)) [
  | inl joins ↦
      let same = same_index_trans g.index r.index k joins in
      rw (joins, same) (or_last (same_index r.index k) (exists_row (has_index k) groups))
  | inr apart ↦
      rw (apart, exists_row-add_row k r groups)
        (or_assoc (has_index k g) (exists_row (has_index k) groups) (same_index r.index k))
]

add_row-AtMostOne :
    (k : ℤ) (r : SweepRow) (groups : List IndexGroup)
    → AtMostOne (has_index k) groups
    → AtMostOne (has_index k) (add_row r groups)
unfolding add_row exists_row
add_row-AtMostOne k r [] one = (λ e. refl, tt)
add_row-AtMostOne k r (g ∷ groups) one = elim (Bool-cases (same_index g.index r.index)) [
  | inl joins ↦ rw joins one
  | inr apart ↦ rw apart (
    λ e. ground (arith, exists_row-add_row k r groups, one.0 e),
    add_row-AtMostOne k r groups one.1,
  )
]

row_ids-cons :
    (k : ℤ) (r : SweepRow) (rows : List SweepRow)
    → row_ids k (r ∷ rows) ≡ row_ids k (r ∷ []) ++ row_ids k rows
unfolding row_ids where_rows
row_ids-cons k r rows = elim (Bool-cases (same_index r.index k)) [
  | inl own ↦ rw own refl
  | inr other ↦ rw other refl
]

-- What the groups know of an index after the rows that are left.
add_rows-ids :
    (k : ℤ) (rows : List SweepRow) (groups : List IndexGroup)
    → ((j : ℤ) → AtMostOne (has_index j) groups)
    → (ids_of k (add_rows rows groups) ≡ ids_of k groups ++ row_ids k rows)
      × AtMostOne (has_index k) (add_rows rows groups)
unfolding add_rows row_ids where_rows
add_rows-ids k [] groups one = (sym (append-nil (ids_of k groups)), one k)
add_rows-ids k (r ∷ rows) groups one =
    let rest = add_rows-ids k rows (add_row r groups) (λ j. add_row-AtMostOne j r groups (one j)) in
    (
      rw (rest.0, ids_of-add_row k r groups (one r.index), row_ids-cons k r rows)
          (append_assoc (ids_of k groups) (row_ids k (r ∷ [])) (row_ids k rows)),
      rest.1,
    )

-- Whatever rows a sweep lists, there is at most one group to an index, and the ids of the group of
-- an index are those of its rows, all of them, in their order.
pub by_index-Partitions :
    (k : ℤ) (rows : List SweepRow)
    → (ids_of k (by_index rows) ≡ row_ids k rows) × AtMostOne (has_index k) (by_index rows)
unfolding by_index ids_of
by_index-Partitions k rows = add_rows-ids k rows [] (λ j. tt)

-- What holds of every row holds of every id that its group collects.
module _ (P : ℤ → ℕ → Type 0) where
  same_index-same : (a b : ℤ) → same_index a b ≡ true → a ≡ b
  same_index-same (pos a) (pos b) e = ap pos (ground arith)
  same_index-same (pos a) (negsuc b) e = absurd (ground arith)
  same_index-same (negsuc a) (pos b) e = absurd (ground arith)
  same_index-same (negsuc a) (negsuc b) e = ap negsuc (ground arith)

  All-snoc : (k : ℤ) (ids : List ℕ) (id : ℕ) → All (P k) ids → P k id → All (P k) (ids ++ id ∷ [])
  All-snoc k [] id h p = (p, tt)
  All-snoc k (n ∷ ids) id h p = (h.0, All-snoc k ids id h.1 p)

  add_row-All :
      (r : SweepRow) (groups : List IndexGroup)
      → P r.index r.id
      → All (λ (g : IndexGroup). All (P g.index) g.ids) groups
      → All (λ (g : IndexGroup). All (P g.index) g.ids) (add_row r groups)
  unfolding add_row
  add_row-All r [] p h = ((p, tt), tt)
  add_row-All r (g ∷ groups) p h = elim (Bool-cases (same_index g.index r.index)) [
    | inl joins ↦
        let own : P g.index r.id =
          subst (λ k. P k r.id) (sym (same_index-same g.index r.index joins)) p in
        rw joins (All-snoc g.index g.ids r.id h.0 own, h.1)
    | inr apart ↦ rw apart (h.0, add_row-All r groups p h.1)
  ]

  add_rows-All :
      (rows : List SweepRow) (groups : List IndexGroup)
      → All (λ (r : SweepRow). P r.index r.id) rows
      → All (λ (g : IndexGroup). All (P g.index) g.ids) groups
      → All (λ (g : IndexGroup). All (P g.index) g.ids) (add_rows rows groups)
  unfolding add_rows
  add_rows-All [] groups hs h = h
  add_rows-All (r ∷ rows) groups hs h =
      add_rows-All rows (add_row r groups) hs.1 (add_row-All r groups hs.0 h)

  pub by_index-All :
      (rows : List SweepRow)
      → All (λ (r : SweepRow). P r.index r.id) rows
      → All (λ (g : IndexGroup). All (P g.index) g.ids) (by_index rows)
  unfolding by_index
  by_index-All rows hs = add_rows-All rows [] hs tt
