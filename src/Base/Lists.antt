-- ===== src/Base/Lists.antt =====
-- Lists measured by native numbers, and the SQL shapes of a table: `UPDATE … WHERE`,
-- `SELECT … WHERE` of one row or of all, `SUM`, `EXISTS`.
use Prim.Native.Nat.{ℕ, suc, ◌+◌}
use mathlib.Core.Path.{◌≡◌, refl, ap, subst, sym, ◌∙◌}
use mathlib.Core.Logic.{inl, inr}
use mathlib.Core.Bool.{Bool, true, false, ◌||◌}
use mathlib.Core.List.{List, [], ◌∷◌, ◌++◌}
use mathlib.Core.Option.{Option, none, some}
use native.Mathlib.Omega.{arith}
use clutch_treasury.Base.Tests.{if◌then◌else◌, Bool-cases, ltb}

module _ {ℓ} {A : Type ℓ} where
  abbrev pub length : List A → ℕ
  length [] = 0
  length (x ∷ xs) = suc (length xs)

  -- A predicate on every row.
  abbrev pub All {κ} : (A → Type κ) → List A → Type κ
  All P [] = Unit
  All P (x ∷ xs) = P x × All P xs

  -- `UPDATE … SET f WHERE p`.
  unfoldable pub update : (A → Bool) → (A → A) → List A → List A
  update p f [] = []
  update p f (x ∷ xs) = (if p x then f x else x) ∷ update p f xs

  -- The first row that satisfies `p`.
  unfoldable pub find : (A → Bool) → List A → Option A
  find p [] = none
  find p (x ∷ xs) = if p x then some x else find p xs

  -- `SELECT … WHERE p`.
  unfoldable pub where_rows : (A → Bool) → List A → List A
  where_rows p [] = []
  where_rows p (x ∷ xs) = if p x then x ∷ where_rows p xs else where_rows p xs

  -- `SELECT EXISTS (… WHERE p)`.
  unfoldable pub exists_row : (A → Bool) → List A → Bool
  exists_row p [] = false
  exists_row p (x ∷ xs) = p x || exists_row p xs

  -- `COALESCE(SUM(f) FILTER (WHERE p), 0)`.
  unfoldable pub sum_rows : (A → Bool) → (A → ℕ) → List A → ℕ
  sum_rows p f [] = 0
  sum_rows p f (x ∷ xs) = (if p x then f x else 0) + sum_rows p f xs

  pub All-update {κ} :
      (P : A → Type κ) (p : A → Bool) (f : A → A)
      → ((x : A) → P x → p x ≡ true → P (f x))
      → (xs : List A) → All P xs
      → All P (update p f xs)
  unfolding update
  All-update P p f keep [] h = h
  All-update P p f keep (x ∷ xs) h = (ground (arith, keep x h.0), All-update P p f keep xs h.1)

  pub All-append {κ} : (P : A → Type κ) (xs ys : List A) → All P xs → All P ys → All P (xs ++ ys)
  All-append P [] ys h k = k
  All-append P (x ∷ xs) ys h k = (h.0, All-append P xs ys h.1 k)

  pub length-append : (xs ys : List A) → length (xs ++ ys) ≡ length xs + length ys
  length-append [] ys = omega arith
  length-append (x ∷ xs) ys = omega (arith, length-append xs ys)

  pub length-update : (p : A → Bool) (f : A → A) (xs : List A) → length (update p f xs) ≡ length xs
  unfolding update
  length-update p f [] = refl
  length-update p f (x ∷ xs) = ap suc (length-update p f xs)

  pub sum_rows-append :
      (p : A → Bool) (f : A → ℕ) (xs ys : List A)
      → sum_rows p f (xs ++ ys) ≡ sum_rows p f xs + sum_rows p f ys
  unfolding sum_rows
  sum_rows-append p f [] ys = omega arith
  sum_rows-append p f (x ∷ xs) ys = omega (arith, sum_rows-append p f xs ys)

  pub exists_row-append :
      (p : A → Bool) (xs ys : List A)
      → exists_row p (xs ++ ys) ≡ (exists_row p xs || exists_row p ys)
  unfolding exists_row
  exists_row-append p [] ys = refl
  exists_row-append p (x ∷ xs) ys = ground (arith, exists_row-append p xs ys)

  -- What `find` returns satisfies the condition and the invariant of the table.
  pub find-All {κ} :
      (P : A → Type κ) (p : A → Bool) (xs : List A) (a : A)
      → All P xs
      → find p xs ≡ some a
      → P a × (p a ≡ true)
  unfolding find
  find-All P p [] a h e = cc
  find-All P p (x ∷ xs) a h e = elim (Bool-cases (p x)) [
    | inl hit ↦
        let e' : some x ≡ some a = rw hit at e in
        let same : x ≡ a = cc in subst (λ y. P y × (p y ≡ true)) same (h.0, hit)
    | inr miss ↦ find-All P p xs a h.1 (rw miss at e)
  ]

  -- Two updates in a row after which doing both again changes no row.
  pub update_twice :
      (p q : A → Bool) (f g f' g' : A → A)
      → ((x : A)
          → let y = if p x then f x else x in
            let z = if q y then g y else y in
            let w = if p z then f' z else z in (if q w then g' w else w) ≡ z)
      → (xs : List A)
      → update q g' (update p f' (update q g (update p f xs))) ≡ update q g (update p f xs)
  unfolding update
  update_twice p q f g f' g' same [] = refl
  update_twice p q f g f' g' same (x ∷ xs) = λ i. same x i ∷ update_twice p q f g f' g' same xs i

  pub sum_rows-snoc :
      (p : A → Bool) (f : A → ℕ) (xs : List A) (x : A)
      → sum_rows p f (xs ++ x ∷ []) ≡ sum_rows p f xs + (if p x then f x else 0)
  unfolding sum_rows
  sum_rows-snoc p f [] x = omega arith
  sum_rows-snoc p f (y ∷ xs) x = omega (arith, sum_rows-snoc p f xs x)

  -- A predicate that every updated row has.
  pub All-update_rows {κ} :
      (P : A → Type κ) (p : A → Bool) (f : A → A)
      → ((x : A) → P (if p x then f x else x))
      → (xs : List A) → All P (update p f xs)
  unfolding update
  All-update_rows P p f each [] = tt
  All-update_rows P p f each (x ∷ xs) = (each x, All-update_rows P p f each xs)

  -- At most one row satisfies `p`.
  abbrev pub AtMostOne : (A → Bool) → List A → Type 0
  AtMostOne p [] = Unit
  AtMostOne p (x ∷ xs) = (p x ≡ true → exists_row p xs ≡ false) × AtMostOne p xs

  pub update-absent :
      (p : A → Bool) (f : A → A) (xs : List A) → exists_row p xs ≡ false → update p f xs ≡ xs
  unfolding update exists_row
  update-absent p f [] h = refl
  update-absent p f (x ∷ xs) h = ground (arith, update-absent p f xs)

  -- How the sum of a column moves when the one row with a key is updated.
  pub sum_rows-update :
      (p q : A → Bool) (f : A → A) (g : A → ℕ) (xs : List A) (a : A)
      → AtMostOne p xs
      → find p xs ≡ some a
      → sum_rows q g (update p f xs) + (if q a then g a else 0)
        ≡ sum_rows q g xs + (if q (f a) then g (f a) else 0)
  unfolding update find sum_rows
  sum_rows-update p q f g [] a h e = cc
  sum_rows-update p q f g (x ∷ xs) a h e = elim (Bool-cases (p x)) [
    | inl hit ↦
        let e' : some x ≡ some a = rw hit at e in
        let same : x ≡ a = cc in rw (hit, update-absent p f xs (h.0 hit), same) (omega arith)
    | inr miss ↦ rw miss (omega (arith, sum_rows-update p q f g xs a h.1 (rw miss at e)))
  ]

  -- Where one row has the key, an invariant needs only that row's new value.
  pub All-update_one {κ} :
      (P : A → Type κ) (p : A → Bool) (f : A → A) (xs : List A) (a : A)
      → AtMostOne p xs
      → find p xs ≡ some a
      → All P xs
      → P (f a)
      → All P (update p f xs)
  unfolding update find
  All-update_one P p f [] a h e all new = cc
  All-update_one P p f (x ∷ xs) a h e all new = elim (Bool-cases (p x)) [
    | inl hit ↦
        let e' : some x ≡ some a = rw hit at e in
        let same : x ≡ a = cc in rw (hit, update-absent p f xs (h.0 hit), same) (new, all.1)
    | inr miss ↦ rw miss (all.0, All-update_one P p f xs a h.1 (rw miss at e) all.1 new)
  ]

  pub exists_row-update :
      (p q : A → Bool) (f : A → A)
      → ((x : A) → q (if p x then f x else x) ≡ q x)
      → (xs : List A) → exists_row q (update p f xs) ≡ exists_row q xs
  unfolding exists_row update
  exists_row-update p q f keep [] = refl
  exists_row-update p q f keep (x ∷ xs) = ground (arith, keep x, exists_row-update p q f keep xs)

  pub AtMostOne-update :
      (p q : A → Bool) (f : A → A)
      → ((x : A) → q (if p x then f x else x) ≡ q x)
      → (xs : List A) → AtMostOne q xs
      → AtMostOne q (update p f xs)
  unfolding update
  AtMostOne-update p q f keep [] h = tt
  AtMostOne-update p q f keep (x ∷ xs) h = (
    λ e. exists_row-update p q f keep xs ∙ h.0 (sym (keep x) ∙ e),
    AtMostOne-update p q f keep xs h.1,
  )

  pub AtMostOne-snoc :
      (q : A → Bool) (xs : List A) (a : A)
      → AtMostOne q xs
      → (q a ≡ true → exists_row q xs ≡ false)
      → AtMostOne q (xs ++ a ∷ [])
  unfolding exists_row
  AtMostOne-snoc q [] a h new = (λ e. refl, tt)
  AtMostOne-snoc q (x ∷ xs) a h new = (
    λ e. ground (arith, exists_row-append q xs (a ∷ []), h.0 e, Bool-cases (q a), new),
    AtMostOne-snoc q xs a h.1 (λ e. ground (arith, new e)),
  )

  pub find_holds : (p : A → Bool) (xs : List A) (a : A) → find p xs ≡ some a → p a ≡ true
  unfolding find
  find_holds p [] a e = cc
  find_holds p (x ∷ xs) a e = elim (Bool-cases (p x)) [
    | inl hit ↦
        let e' : some x ≡ some a = rw hit at e in
        let same : x ≡ a = cc in subst (λ y. p y ≡ true) same hit
    | inr miss ↦ find_holds p xs a (rw miss at e)
  ]

  -- `ORDER BY`, keeping the order of rows with equal keys.
  unfoldable pub insert_by : (A → ℕ) → A → List A → List A
  insert_by key a [] = a ∷ []
  insert_by key a (x ∷ xs) =
      let rest = insert_by key a xs in if ltb (key x) (key a) then x ∷ rest else a ∷ x ∷ xs

  unfoldable pub order_by : (A → ℕ) → List A → List A
  unfolding insert_by
  order_by key [] = []
  order_by key (x ∷ xs) = insert_by key x (order_by key xs)
