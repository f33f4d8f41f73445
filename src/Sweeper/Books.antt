-- ===== src/Sweeper/Books.antt =====
-- What a sweep may write (crates/treasury-service/src/sweeper.rs).
use clutch_treasury.Base.{
  ℕ, Bool, ◌≡◌, ◌⊎◌, inl, inr, refl, true, Option, none, some, List, [], ◌∷◌, arith, not, All,
  is_some, map, order_by, where_rows, All-order_by, Selected, where_rows-Selected,
}
use clutch_treasury.Base.Int.{ℤ}
use clutch_treasury.Store.{MintIntent, MintStatus, Network, tron, Db, bsc}
use clutch_treasury.Sweeper.{
  BscReply, bsc_swept, bsc_nothing_to_sweep, waiting, gas_account_dry, bsc_failed, IndexGroup,
  bsc_step, bsc_groups, unswept_rows, by_index, bsc_sweep_pass, SweepRow, is_on, is_sweepable,
  is_unswept, or_zero, sweep_row,
}
use mathlib.Core.List.{Memᴰ}
use clutch_treasury.Sweeper.Groups.{by_index-All}
use clutch_treasury.Sweeper.Marks.{
  OnlySwept, OnlySwept-refl, mark_swept-OnlySwept, alert-OnlySwept, if-OnlySwept,
  alert_once-OnlySwept, OnlySwept-trans,
}

-- The signer emptied the address, or found it empty.
abbrev pub Emptied : BscReply → Type 0
Emptied (bsc_swept tx_id) = Unit
Emptied bsc_nothing_to_sweep = Unit
Emptied (waiting why) = ⊥
Emptied (gas_account_dry gas_address have_wei need_wei) = ⊥
Emptied (bsc_failed e) = ⊥

-- The id of a credited or submitted BSC deposit at an index that waits for its sweep.
pub record Awaiting (db : Db) (index : ℤ) (id : ℕ) : Type 0 where
  pub intent : MintIntent
  pub in_table : Memᴰ intent db.mint_intents
  pub same_id : intent.id ≡ id
  pub on_bsc : intent.network ≡ bsc
  pub minted : (intent.status ≡ MintStatus.credited) ⊎ (intent.status ≡ MintStatus.submitted)
  pub at_index : intent.derivation_index ≡ some index
  pub unswept : intent.swept_at ≡ none

-- A deposit whose address the signer has emptied.
abbrev pub Collected : (ℤ → BscReply) → Db → ℕ → Type 0
Collected signer db id = (index : ℤ) × Awaiting db index id × Emptied (signer index)

module _ (now : ℕ) (may : ℕ → Type 0) where
  bsc_step-OnlySwept :
      (fails : List ℕ → Bool) (reply : BscReply) (g : IndexGroup) (db : Db)
      → (Emptied reply → All may g.ids)
      → OnlySwept now may db (bsc_step now fails reply g db).1
  unfolding bsc_step
  bsc_step-OnlySwept fails (bsc_swept tx_id) g db all =
      if-OnlySwept now may (fails g.ids) db _ _ (alert-OnlySwept now may now _ _ _ db)
        (mark_swept-OnlySwept now may g.ids db (all tt))
  bsc_step-OnlySwept fails bsc_nothing_to_sweep g db all =
      if-OnlySwept now may (fails g.ids) db _ _ (OnlySwept-refl now may db)
        (mark_swept-OnlySwept now may g.ids db (all tt))
  bsc_step-OnlySwept fails (waiting why) g db all = OnlySwept-refl now may db
  bsc_step-OnlySwept fails (gas_account_dry gas_address have_wei need_wei) g db all =
      alert_once-OnlySwept now may 3600 _ _ _ db
  bsc_step-OnlySwept fails (bsc_failed e) g db all = alert_once-OnlySwept now may 3600 _ _ _ db

  bsc_groups-OnlySwept :
      (fails : List ℕ → Bool) (signer : ℤ → BscReply) (groups : List IndexGroup) (db : Db)
      → All (λ (g : IndexGroup). Emptied (signer g.index) → All may g.ids) groups
      → OnlySwept now may db (bsc_groups now fails signer groups db)
  unfolding bsc_groups
  bsc_groups-OnlySwept fails signer [] db all = OnlySwept-refl now may db
  bsc_groups-OnlySwept fails signer (g ∷ groups) db all =
      let step = bsc_step now fails (signer g.index) g db in
      let marks = bsc_step-OnlySwept fails (signer g.index) g db all.0 in
      if-OnlySwept now may step.0 db (bsc_groups now fails signer groups step.1) step.1
        (OnlySwept-trans now may marks (bsc_groups-OnlySwept fails signer groups step.1 all.1))
        marks

-- The rows of a pass, and the groups of them.
on_bsc-same : (n : Network) → is_on n bsc ≡ true → n ≡ bsc
on_bsc-same tron e = cc
on_bsc-same bsc e = refl

sweepable-status :
    (s : MintStatus)
    → is_sweepable s ≡ true
    → (s ≡ MintStatus.credited) ⊎ (s ≡ MintStatus.submitted)
sweepable-status MintStatus.credited e = inl refl
sweepable-status MintStatus.submitted e = inr refl
sweepable-status MintStatus.created e = cc
sweepable-status MintStatus.approved e = cc
sweepable-status MintStatus.failed e = cc
sweepable-status MintStatus.rejected e = cc
sweepable-status MintStatus.needs_manual e = cc

index-given : (o : Option ℤ) → is_some o ≡ true → o ≡ some (or_zero o)
index-given none e = cc
index-given (some i) e = refl

not_given : (o : Option ℕ) → not (is_some o) ≡ true → o ≡ none
not_given none e = refl
not_given (some n) e = cc

Selected-Awaiting :
    (now : ℕ) (db : Db) (i : MintIntent)
    → Selected (is_unswept bsc) db.mint_intents i
    → Awaiting db (sweep_row now i).index (sweep_row now i).id
unfolding Selected
Selected-Awaiting now db i h = record {
  intent = i;
  in_table = h.0;
  same_id = refl;
  on_bsc = on_bsc-same i.network (ground (arith, h.1));
  minted = sweepable-status i.status (ground (arith, h.1));
  at_index = index-given i.derivation_index (ground (arith, h.1));
  unswept = not_given i.swept_at (ground (arith, h.1));
}

rows-Awaiting :
    (now : ℕ) (db : Db) (is : List MintIntent)
    → All (Selected (is_unswept bsc) db.mint_intents) is
    → All (λ (r : SweepRow). Awaiting db r.index r.id) (map (sweep_row now) is)
rows-Awaiting now db [] h = tt
rows-Awaiting now db (i ∷ is) h = (Selected-Awaiting now db i h.0, rows-Awaiting now db is h.1)

unswept_rows-Awaiting :
    (now : ℕ) (db : Db) → All (λ (r : SweepRow). Awaiting db r.index r.id) (unswept_rows now bsc db)
unfolding unswept_rows
unswept_rows-Awaiting now db =
    rows-Awaiting now db
      (order_by (λ i. i.created_at) (where_rows (is_unswept bsc) db.mint_intents))
      (All-order_by (Selected (is_unswept bsc) db.mint_intents) (λ i. i.created_at)
        (where_rows (is_unswept bsc) db.mint_intents)
        (where_rows-Selected (is_unswept bsc) db.mint_intents))

Collected-groups :
    (signer : ℤ → BscReply) (db : Db) (groups : List IndexGroup)
    → All (λ (g : IndexGroup). All (Awaiting db g.index) g.ids) groups
    → All (λ (g : IndexGroup). Emptied (signer g.index) → All (Collected signer db) g.ids) groups
Collected-groups signer db [] h = tt
Collected-groups signer db (g ∷ groups) h =
    (λ emptied. each emptied g.ids h.0, Collected-groups signer db groups h.1)
  where
    each :
        Emptied (signer g.index)
        → (ids : List ℕ) → All (Awaiting db g.index) ids
        → All (Collected signer db) ids
    each emptied [] k = tt
    each emptied (id ∷ ids) k = ((g.index, k.0, emptied), each emptied ids k.1)

-- A pass over the BSC deposits, whatever the signer answers and whichever writes fail, moves no
-- books: it may put its time where an intent has no `swept_at`, and that only for a credited or
-- submitted BSC deposit that waits at an index whose address the signer emptied or found empty; it
-- may add alerts to those there are; and it changes nothing else.
pub bsc_sweep_pass-OnlySwept :
    (now : ℕ) (fails : List ℕ → Bool) (signer : ℤ → BscReply) (db : Db)
    → OnlySwept now (Collected signer db) db (bsc_sweep_pass now fails signer db)
unfolding bsc_sweep_pass
bsc_sweep_pass-OnlySwept now fails signer db =
    let rows = unswept_rows now bsc db in
    bsc_groups-OnlySwept now (Collected signer db) fails signer (by_index rows) db (
      Collected-groups signer db (by_index rows)
        (by_index-All (Awaiting db) rows (unswept_rows-Awaiting now db)))
