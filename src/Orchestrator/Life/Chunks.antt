-- ===== src/Orchestrator/Life/Chunks.antt =====
-- The fuel of the chunks of crates/payment-orchestrator/src/bsc_watch.rs, `watch_once`.
use clutch_treasury.Base.{ℕ, zero, suc, ◌≡◌, ◌≤◌, refl, List, [], ◌∷◌, arith, length, Text}
use clutch_treasury.Orchestrator.Store.{DepositAddress, OrchDb}
use clutch_treasury.Orchestrator.Tiered.{drop_rows}
use clutch_treasury.Orchestrator.BscWatch.{Pass, address_chunks}

length-drop_rows {ℓ} :
    {A : Type ℓ} (n : ℕ) (rows : List A) → length (drop_rows n rows) ≤ length rows
unfolding drop_rows
length-drop_rows zero rows = omega arith
length-drop_rows (suc n) [] = omega arith
length-drop_rows (suc n) (r ∷ rows) = omega (arith, length-drop_rows n rows)

-- Any fuel that is not below the count of the addresses reads the same chunks: no address is left
-- out for want of fuel.
address_chunks-enough :
    (pass : Pass) (owners : List DepositAddress) (from_block to_block fuel fuel' : ℕ)
    (addresses : List Text) (db : OrchDb)
    → length addresses ≤ fuel
    → length addresses ≤ fuel'
    → address_chunks pass owners from_block to_block fuel addresses db
      ≡ address_chunks pass owners from_block to_block fuel' addresses db
unfolding address_chunks drop_rows
address_chunks-enough pass owners from_block to_block zero zero addresses db h h' = refl
address_chunks-enough pass owners from_block to_block zero (suc fuel') [] db h h' = refl
address_chunks-enough pass owners from_block to_block (suc fuel) zero [] db h h' = refl
address_chunks-enough pass owners from_block to_block (suc fuel) (suc fuel') [] db h h' = refl
address_chunks-enough pass owners from_block to_block zero (suc fuel') (a ∷ addresses) db h h' =
    absurd (omega (arith, h))
address_chunks-enough pass owners from_block to_block (suc fuel) zero (a ∷ addresses) db h h' =
    absurd (omega (arith, h'))
address_chunks-enough pass owners from_block to_block (suc fuel) (suc fuel') (a ∷ addresses) db h
      h' =
    let left = length-drop_rows 99 addresses in
    rw
      (address_chunks-enough pass owners from_block to_block fuel fuel' (drop_rows 99 addresses) _
        (omega (arith, left, h)) (omega (arith, left, h')))
      refl
