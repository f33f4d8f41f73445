-- ===== src/Base/Rows.antt =====
-- What holds of all rows of a table holds of those that a statement reads.
use clutch_treasury.Base.Tests.{Bool-cases, ltb}
use clutch_treasury.Base.Lists.{All, insert_by, order_by, where_rows, find, update, exists_row}
use Prim.Native.Nat.{ℕ}
use mathlib.Core.Bool.{Bool, true, false}
use mathlib.Core.Path.{◌≡◌, refl}
use mathlib.Core.Option.{none, some}
use mathlib.Core.Logic.{inl, inr}
use mathlib.Core.List.{List, [], ◌∷◌, ◌++◌, Memᴰ}

module _ {A : Type 0} where
  All-insert_by :
      (P : A → Type 0) (key : A → ℕ) (a : A) (xs : List A)
      → P a
      → All P xs
      → All P (insert_by key a xs)
  unfolding insert_by
  All-insert_by P key a [] h k = (h, tt)
  All-insert_by P key a (x ∷ xs) h k = elim (Bool-cases (ltb (key x) (key a))) [
    | inl before ↦ rw before (k.0, All-insert_by P key a xs h k.1)
    | inr after ↦ rw after (h, k)
  ]

  pub All-order_by :
      (P : A → Type 0) (key : A → ℕ) (xs : List A) → All P xs → All P (order_by key xs)
  unfolding order_by
  All-order_by P key [] h = tt
  All-order_by P key (x ∷ xs) h =
      All-insert_by P key x (order_by key xs) h.0 (All-order_by P key xs h.1)

  pub All-where_rows :
      (P : A → Type 0) (p : A → Bool) (es : List A) → All P es → All P (where_rows p es)
  unfolding where_rows
  All-where_rows P p [] h = tt
  All-where_rows P p (e ∷ es) h = elim (Bool-cases (p e)) [
    | inl kept ↦ rw kept (h.0, All-where_rows P p es h.1)
    | inr dropped ↦ rw dropped (All-where_rows P p es h.1)
  ]

  -- An update of rows that the search does not hit.
  pub find-update_other :
      (q p : A → Bool) (f : A → A)
      → ((x : A) → p x ≡ true → q x ≡ false)
      → ((x : A) → p x ≡ true → q (f x) ≡ false)
      → (xs : List A) → find q (update p f xs) ≡ find q xs
  unfolding find update
  find-update_other q p f before after [] = refl
  find-update_other q p f before after (x ∷ xs) = elim (Bool-cases (p x)) [
    | inl hit ↦ rw (hit, before x hit, after x hit) (find-update_other q p f before after xs)
    | inr miss ↦ elim (Bool-cases (q x)) [
      | inl found ↦ rw (miss, found) refl
      | inr passed ↦ rw (miss, passed) (find-update_other q p f before after xs)
    ]
  ]

  pub find-update_first :
      (p : A → Bool) (f : A → A) (xs : List A) (a : A)
      → p (f a) ≡ true
      → find p xs ≡ some a
      → find p (update p f xs) ≡ some (f a)
  unfolding find update
  find-update_first p f [] a h e = cc
  find-update_first p f (x ∷ xs) a h e = elim (Bool-cases (p x)) [
    | inl hit ↦
        let e' : some x ≡ some a = rw hit at e in let same : x ≡ a = cc in rw (hit, same, h) refl
    | inr miss ↦ rw (miss, miss) (find-update_first p f xs a h (rw miss at e))
  ]

  pub find-snoc :
      (p : A → Bool) (xs : List A) (a : A)
      → find p xs ≡ none
      → p a ≡ true
      → find p (xs ++ a ∷ []) ≡ some a
  unfolding find
  find-snoc p [] a h e = rw e refl
  find-snoc p (x ∷ xs) a h e = elim (Bool-cases (p x)) [
    | inl hit ↦ let clash : some x ≡ none = rw hit at h in cc
    | inr miss ↦ rw miss (find-snoc p xs a (rw miss at h) e)
  ]

  -- `EXISTS` and the first row that it is about.
  pub exists_row-find :
      (p : A → Bool) (xs : List A) → exists_row p xs ≡ true → (a : A) × (find p xs ≡ some a)
  unfolding find exists_row
  exists_row-find p [] h = cc
  exists_row-find p (x ∷ xs) h = elim (Bool-cases (p x)) [
    | inl hit ↦ (x, rw hit refl)
    | inr miss ↦ rw miss (exists_row-find p xs (rw miss at h))
  ]

  pub absent-find : (p : A → Bool) (xs : List A) → exists_row p xs ≡ false → find p xs ≡ none
  unfolding find exists_row
  absent-find p [] h = refl
  absent-find p (x ∷ xs) h = elim (Bool-cases (p x)) [
    | inl hit ↦ let clash : true ≡ false = rw hit at h in cc
    | inr miss ↦ rw miss (absent-find p xs (rw miss at h))
  ]

  -- A row of the table that a condition holds of.
  unfoldable pub Selected : (A → Bool) → List A → A → Type 0
  Selected p xs x = Memᴰ x xs × (p x ≡ true)

  Selected-later :
      (p : A → Bool) (y : A) (xs ys : List A)
      → All (Selected p xs) ys
      → All (Selected p (y ∷ xs)) ys
  unfolding Selected
  Selected-later p y xs [] h = tt
  Selected-later p y xs (x ∷ ys) h = ((Memᴰ.tail h.0.0, h.0.1), Selected-later p y xs ys h.1)

  pub where_rows-Selected : (p : A → Bool) (xs : List A) → All (Selected p xs) (where_rows p xs)
  unfolding where_rows Selected
  where_rows-Selected p [] = tt
  where_rows-Selected p (x ∷ xs) = elim (Bool-cases (p x)) [
    | inl hit ↦ rw hit ((Memᴰ.head refl, hit), Selected-later p x xs _ (where_rows-Selected p xs))
    | inr miss ↦ rw miss (Selected-later p x xs _ (where_rows-Selected p xs))
  ]
