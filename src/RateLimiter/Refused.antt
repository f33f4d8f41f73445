-- ===== src/RateLimiter/Refused.antt =====
-- When the limiter refuses (ratelimit.rs, `check`).
use clutch_treasury.Base.{
  ℕ, ◌+◌, ◌-◌, ◌≤◌, ◌<◌, ◌≡◌, inl, inr, refl, ◌∙◌, sym, Option, none, some, arith, leb, Text, find,
  Bool-cases,
}
use clutch_treasury.RateLimiter.{
  Entry, RateLimiter, has_key, Answer, pass, retry_after, check_entry, check,
}

-- The identity has an entry whose window still runs and whose allowance is used up.
abbrev pub Spent : ℕ → Text → RateLimiter → ℕ → Type 0
Spent now key l t =
    (e : Entry) × (find (has_key key) l.state ≡ some e)
    × (l.max_per_window ≤ e.count)
    × (now - e.window_start < l.window)
    × (t + (now - e.window_start) ≡ l.window)

-- What each answer means. A refusal names the rest of the window, which is not zero.
abbrev Explains : ℕ → Text → RateLimiter → Answer × RateLimiter → Type 0
Explains now key l (retry_after t, l') = Spent now key l t × (1 ≤ t) × (l' ≡ l)
Explains now key l (pass, l') = (t : ℕ) → Spent now key l t → ⊥

by_entry :
    (now : ℕ) (key : Text) (l : RateLimiter) (o : Option Entry)
    → find (has_key key) l.state ≡ o
    → let (a, es) = check_entry l.window l.max_per_window now key o l.state in
      Explains now key l (a, record l { state = es })
unfolding check_entry
by_entry now key l none e = λ t spent. let clash : none ≡ some spent.0 = sym e ∙ spent.1 in cc
by_entry now key l (some x) e = elim (Bool-cases (leb l.window (now - x.window_start))) [
  | inl over ↦ rw over (λ t spent.
      let same : some x ≡ some spent.0 = sym e ∙ spent.1 in
      let y : x ≡ spent.0 = cc in ground (arith, y, over, spent.3))
  | inr within ↦ elim (Bool-cases (leb l.max_per_window x.count)) [
    | inl used ↦
        rw (within, used) ((x, e, ground arith, ground arith, ground arith), ground arith, refl)
    | inr left ↦
        rw (within, left)
          (λ t spent.
            let same : some x ≡ some spent.0 = sym e ∙ spent.1 in
            let y : x ≡ spent.0 = cc in ground (arith, y, left, spent.2))
  ]
]

-- A request is refused exactly where its identity has used up the allowance of a window that still
-- runs; a refusal changes nothing and says how long the window has left.
check-Explains : (now : ℕ) (key : Text) (l : RateLimiter) → Explains now key l (check now key l)
unfolding check
check-Explains now key l = by_entry now key l (find (has_key key) l.state) refl
