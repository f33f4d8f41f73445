-- ===== src/RateLimiter.antt =====
-- The request limit of the public routes: crates/payment-orchestrator/src/ratelimit.rs. The map is
-- an association list in the order in which it is iterated, which is unspecified; an instant and a
-- duration are numbers of the same unit.
pub mod Lengths
pub mod Bounds
pub mod Refused
use clutch_treasury.Base.{
  ℕ, ◌+◌, ◌-◌, Bool, true, false, not, Option, none, some, List, [], ◌∷◌, ◌++◌, if◌then◌else◌, ltb,
  leb, length, Text, text_eq, update, find, where_rows,
}

abbrev pub max_keys : ℕ
max_keys = 10000

pub record Entry : Type 0 where
  pub key : Text
  pub window_start : ℕ
  pub count : ℕ

pub record RateLimiter : Type 0 where
  pub window : ℕ
  pub max_per_window : ℕ
  pub state : List Entry

abbrev pub has_key : Text → Entry → Bool
has_key key e = text_eq e.key key

abbrev pub in_window : ℕ → ℕ → Entry → Bool
in_window window now e = ltb (now - e.window_start) window

-- The entry with the earliest start; the first of several.
abbrev earlier : Entry → Option Entry → Entry
earlier e none = e
earlier e (some f) = if ltb f.window_start e.window_start then f else e

unfoldable pub oldest : List Entry → Option Entry
oldest [] = none
oldest (e ∷ es) = some (earlier e (oldest es))

abbrev pub remove_oldest : Option Entry → List Entry → List Entry
remove_oldest none es = es
remove_oldest (some e) es = where_rows (λ f. not (has_key e.key f)) es

unfoldable pub evict : List Entry → List Entry
unfolding oldest where_rows
evict es = if leb max_keys (length es) then remove_oldest (oldest es) es else es

-- Makes room before a new key.
unfoldable pub make_room : ℕ → ℕ → List Entry → List Entry
unfolding evict
make_room window now es =
    if leb max_keys (length es) then evict (where_rows (in_window window now) es) else es

abbrev pub start_window : ℕ → Entry → Entry
start_window now e = record e { window_start = now; count = 1 }

abbrev pub count_up : Entry → Entry
count_up e = record e { count = e.count + 1 }

-- `Ok(())`, or `Err(retry_after)`.
pub data Answer : Type 0 where
  pass : Answer
  retry_after : ℕ → Answer

-- `check`, for the entry that the map has under the key.
unfoldable pub check_entry : ℕ → ℕ → ℕ → Text → Option Entry → List Entry → Answer × List Entry
unfolding make_room
check_entry window max_per_window now key none es =
    (pass, make_room window now es ++ record { key = key; window_start = now; count = 1 } ∷ [])
check_entry window max_per_window now key (some e) es =
    let elapsed = now - e.window_start in
    if leb window elapsed
    then (pass, update (has_key key) (start_window now) es)
    else if leb max_per_window e.count
    then (retry_after (window - elapsed), es)
    else (pass, update (has_key key) count_up es)

unfoldable pub check : ℕ → Text → RateLimiter → Answer × RateLimiter
unfolding check_entry
check now key l =
    let (a, es) =
      check_entry l.window l.max_per_window now key (find (has_key key) l.state) l.state in
    (a, record l { state = es })
