-- ===== src/Tests/Sweeps.antt =====
-- Sweeps of a small treasury with one BSC deposit.
use clutch_treasury.Base.{
  ℕ, ◌≡◌, Bool, refl, false, some, List, [], ◌∷◌, map, codes, update, exists_row, where_rows,
  order_by, find, AtMostOne, ◌++◌, ◌==◌,
}
use clutch_treasury.Base.Int.{ℤ, pos}
use clutch_treasury.Store.{MintIntent, MintStatus, bsc, Db}
use clutch_treasury.Sweeper.{
  BscReply, bsc_swept, SweepRow, by_index, add_rows, add_row, unswept_rows, bsc_groups, bsc_step,
  mark_swept, bsc_sweep_pass,
}
use clutch_treasury.Sweeper.Groups.{ids_of, row_ids, has_index, by_index-Partitions}
use clutch_treasury.Sweeper.Marks.{OnlySwept}
use clutch_treasury.Sweeper.Books.{Collected, bsc_sweep_pass-OnlySwept}
use clutch_treasury.Tests.Sample.{at_noon, treasury, mint_of}

abbrev row : ℕ → ℕ → SweepRow
row id index = record {
  id = id;
  address = codes "T9";
  index = pos index;
  age_hours = 2;
  gasfree = false;
}

abbrev three_rows : List SweepRow
three_rows = row 1 7 ∷ row 2 8 ∷ row 3 7 ∷ []

two_groups : map (λ g. g.ids) (by_index three_rows) ≡ (1 ∷ 3 ∷ []) ∷ (2 ∷ []) ∷ []
unfolding by_index add_rows add_row
two_groups = refl

by_index-Partitions_example :
    (ids_of (pos 7) (by_index three_rows) ≡ row_ids (pos 7) three_rows)
    × AtMostOne (has_index (pos 7)) (by_index three_rows)
by_index-Partitions_example = by_index-Partitions (pos 7) three_rows

abbrev deposit : MintIntent
deposit = record (mint_of 9 5 MintStatus.credited) {
  deposit_address = some (codes "0xab");
  derivation_index = some (pos 4);
  network = bsc;
}

abbrev with_deposit : Db
with_deposit = record treasury { mint_intents = treasury.mint_intents ++ deposit ∷ [] }

abbrev always : ℤ → BscReply
always index = bsc_swept (codes "0xt")

abbrev no_fault : List ℕ → Bool
no_fault ids = false

it_is_marked :
    find (λ i. i.id == 9) (bsc_sweep_pass at_noon no_fault always with_deposit).mint_intents
    ≡ some (record deposit { swept_at = some at_noon })
unfolding bsc_sweep_pass unswept_rows where_rows order_by by_index add_rows add_row bsc_groups
    bsc_step mark_swept update exists_row find
it_is_marked = refl

bsc_sweep_pass-OnlySwept_example :
    OnlySwept at_noon
      (Collected always with_deposit)
      with_deposit
      (bsc_sweep_pass at_noon no_fault always with_deposit)
bsc_sweep_pass-OnlySwept_example = bsc_sweep_pass-OnlySwept at_noon no_fault always with_deposit
