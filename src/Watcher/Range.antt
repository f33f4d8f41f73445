-- ===== src/Watcher/Range.antt =====
-- Which blocks a poll of the watcher processes (watcher.rs, `process_range` and `poll_once`).
use clutch_treasury.Base.{
  ℕ, zero, suc, ◌+◌, ◌-◌, ◌≤◌, ◌<◌, ◌≡◌, refl, Option, none, some, List, [], ◌∷◌, arith, true,
  false, Option-cases, inl, inr, ◌∙◌, ◌⊎◌,
}
use clutch_treasury.Store.{Db}
use clutch_treasury.Watcher.{
  Scan, range, up_to_date, chain_shrunk, process_range, process_heights, run_scan, poll_once, Tx,
  process_block, process_tx, process_mint, process_burn, credit_mint, confirm_burn,
}

-- What a scan means: the blocks above the cursor that are buried under `confirmations` blocks,
-- none of them, or a cursor above the head.
abbrev pub Means : ℕ → ℕ → ℕ → Scan → Type 0
Means cursor head confirmations (range first last) =
    (first ≡ cursor + 1) × (first ≤ last) × (last + confirmations ≡ head)
Means cursor head confirmations up_to_date = (cursor ≤ head) × (head ≤ cursor + confirmations)
Means cursor head confirmations chain_shrunk = head < cursor

-- The scan for a cursor, a head and a depth is what it says; in particular no bound underflows.
pub process_range-Means :
    (cursor head confirmations : ℕ)
    → Means cursor head confirmations (process_range cursor head confirmations)
unfolding process_range
process_range-Means cursor head confirmations = ground arith

process_tx-cursor :
    (now : ℕ) (tx : Tx) (db : Db)
    → (process_tx now tx db).last_processed_height ≡ db.last_processed_height
unfolding process_tx process_mint credit_mint process_burn confirm_burn
process_tx-cursor now tx db = ground arith

process_block-cursor :
    (now : ℕ) (txs : List Tx) (db : Db)
    → (process_block now txs db).last_processed_height ≡ db.last_processed_height
unfolding process_block
process_block-cursor now [] db = refl
process_block-cursor now (tx ∷ txs) db =
    process_block-cursor now txs (process_tx now tx db) ∙ process_tx-cursor now tx db

-- The cursor after the loop over readable blocks.
process_heights-cursor :
    (now : ℕ) (blocks : ℕ → List Tx) (count height : ℕ) (db : Db)
    → let (done, db') = process_heights now (λ h. some (blocks h)) (suc count) height db in
      (done ≡ true) × (db'.last_processed_height ≡ height + count)
unfolding process_heights
process_heights-cursor now blocks zero height db = (refl, omega arith)
process_heights-cursor now blocks (suc count) height db =
    let (done, reached) =
      process_heights-cursor now blocks count (suc height)
        (record (process_block now (blocks height) db) { last_processed_height = height }) in
    (done, omega (arith, reached))

-- Where the cursor stops at an unreadable block: on the block before it, so that the next poll
-- begins with the block that could not be read.
process_heights-stops :
    (now : ℕ) (blocks : ℕ → Option (List Tx)) (count height : ℕ) (db : Db)
    → db.last_processed_height + 1 ≡ height
    → let (done, db') = process_heights now blocks count height db in
      (done ≡ false → blocks (db'.last_processed_height + 1) ≡ none)
      × (db.last_processed_height ≤ db'.last_processed_height)
      × (db'.last_processed_height ≤ db.last_processed_height + count)
unfolding process_heights
process_heights-stops now blocks zero height db e = (λ f. cc, omega arith, omega arith)
process_heights-stops now blocks (suc count) height db e = elim (Option-cases (blocks height)) [
  | inl unread ↦ rw (unread, process_heights) (λ _. rw e unread, omega arith, omega arith)
  | inr (txs, read) ↦
      let next =
        process_heights-stops now blocks count (suc height)
          (record (process_block now txs db) { last_processed_height = height }) (omega arith) in
      rw (read, process_heights) (next.0, omega (arith, next.1), omega (arith, next.2))
]

run_scan-error :
    (now head confirmations : ℕ) (blocks : ℕ → Option (List Tx)) (s : Scan) (db : Db)
    → Means db.last_processed_height head confirmations s
    → (run_scan now blocks s db).0 ≡ false
    → blocks ((run_scan now blocks s db).1.last_processed_height + 1) ≡ none
unfolding run_scan
run_scan-error now head confirmations blocks (range first last) db m e =
    (process_heights-stops now blocks (suc last - first) first db (omega arith)).0 e
run_scan-error now head confirmations blocks up_to_date db m e = cc
run_scan-error now head confirmations blocks chain_shrunk db m e = cc

-- Whatever the chain answers, a poll that ends in an error could not read the head and changed
-- nothing, or could not read the block above the cursor that it leaves: no block is skipped.
poll_once-error :
    (now confirmations : ℕ) (head : Option ℕ) (blocks : ℕ → Option (List Tx)) (db : Db)
    → (poll_once now head blocks confirmations db).0 ≡ false
    → ((head ≡ none) × ((poll_once now head blocks confirmations db).1 ≡ db))
      ⊎ (blocks ((poll_once now head blocks confirmations db).1.last_processed_height + 1) ≡ none)
unfolding poll_once
poll_once-error now confirmations none blocks db e = inl (refl, refl)
poll_once-error now confirmations (some head) blocks db e = inr (
    run_scan-error now head confirmations blocks _ db
      (process_range-Means db.last_processed_height head confirmations) e)

run_scan-catches_up :
    (now head confirmations : ℕ) (blocks : ℕ → List Tx) (s : Scan) (db : Db)
    → Means db.last_processed_height head confirmations s
    → db.last_processed_height ≤ head - confirmations
    → let (done, db') = run_scan now (λ h. some (blocks h)) s db in
      (done ≡ true) × (db'.last_processed_height ≡ head - confirmations)
unfolding run_scan
run_scan-catches_up now head confirmations blocks (range first last) db m h =
    let reached = process_heights-cursor now blocks (last - first) first db in
    let rounds : suc last - first ≡ suc (last - first) = omega arith in
    rw rounds (reached.0, omega (arith, reached.1))
run_scan-catches_up now head confirmations blocks up_to_date db m h = (refl, omega arith)
run_scan-catches_up now head confirmations blocks chain_shrunk db m h = absurd (omega arith)

poll_once_idle :
    (now confirmations head : ℕ) (blocks : ℕ → Option (List Tx)) (db : Db)
    → db.last_processed_height ≤ head
    → head - confirmations ≤ db.last_processed_height
    → poll_once now (some head) blocks confirmations db ≡ (true, db)
unfolding poll_once process_range
poll_once_idle now confirmations head blocks db h k = ground arith

-- With every block readable a poll moves the cursor to the last block that is buried deep enough,
-- and polling again at the same head changes nothing.
pub poll_once-catches_up :
    (now later confirmations head : ℕ) (blocks : ℕ → List Tx) (db : Db)
    → db.last_processed_height ≤ head - confirmations
    → let (done, db') = poll_once now (some head) (λ h. some (blocks h)) confirmations db in
      (done ≡ true)
      × (db'.last_processed_height ≡ head - confirmations)
      × (poll_once later (some head) (λ h. some (blocks h)) confirmations db' ≡ (true, db'))
poll_once-catches_up now later confirmations head blocks db h = (
  caught_up.0,
  caught_up.1,
  poll_once_idle later confirmations head (λ x. some (blocks x)) _ (omega (arith, caught_up.1))
      (omega (arith, caught_up.1)),
)
  where
    caught_up :
        let (done, db') = poll_once now (some head) (λ h. some (blocks h)) confirmations db in
        (done ≡ true) × (db'.last_processed_height ≡ head - confirmations)
    caught_up =
        unfold poll_once in
        run_scan-catches_up now head confirmations blocks _ db
          (process_range-Means db.last_processed_height head confirmations) h
