-- ===== src/Verifier/Backing.antt =====
-- What stands behind the outcome of a TRON deposit (tron_verifier.rs, `evaluate`).
use clutch_treasury.Base.{
  ◌≡◌, ◌≢◌, inl, inr, refl, sym, subst, true, false, Option, none, some, List, arith, Option-cases,
  Text, text_eq_iff, find, find_holds, parse_i64,
}
use clutch_treasury.Base.Int.{ℤ, ◌≤ℤ◌}
use clutch_treasury.Store.{MintIntent}
use clutch_treasury.Verifier.Client.{
  Trc20Transfer, TronNode, trc20_transfers, transaction_confirmed,
}
use clutch_treasury.Verifier.Evaluate.{
  TronConfig, Addresses, Evidence, pass, hard_mismatch, transient, value_or, by_amount,
  is_candidate, gasfree_float, tron_address_of, earliest_ms,
}
use clutch_treasury.Verifier.Sound.{Paid, Flawed, Seen, HashMeans, find_member}

module _ (node : TronNode) (config : TronConfig) (addresses : Addresses) (i : MintIntent) where
  -- The three ways to pass. A deposit is at the intent's own address, by its recorded hash and
  -- confirmed, or by its amount in the window before the intent. A direct top-up is at the float,
  -- by its recorded hash and confirmed, from the beneficiary's own TRON address.
  pub data Witnessed (tx_id : Text) (amount : ℤ) : Type 0 where
    by_hash :
        (address : Text) (expected : ℤ) (t : Trc20Transfer)
        → i.direct_from ≡ none
        → i.deposit_address ≡ some address
        → i.expected_amount_usdt ≡ some expected
        → i.deposit_tx_id ≡ some tx_id
        → Seen node address none tx_id t
        → transaction_confirmed node tx_id ≡ some true
        → Paid address config.usdt_contract expected t amount
        → Witnessed tx_id amount
    by_window :
        (address : Text) (expected : ℤ) (t : Trc20Transfer)
        → i.direct_from ≡ none
        → i.deposit_address ≡ some address
        → i.expected_amount_usdt ≡ some expected
        → i.deposit_tx_id ≡ none
        → Seen node address (some (earliest_ms config i)) tx_id t
        → earliest_ms config i ≤ℤ t.block_timestamp
        → Paid address config.usdt_contract expected t amount
        → Witnessed tx_id amount
    by_twin :
        (from pay_to : Text) (expected : ℤ) (t : Trc20Transfer)
        → i.direct_from ≡ some from
        → config.direct_topups_enabled ≡ true
        → gasfree_float config addresses ≡ some pay_to
        → tron_address_of addresses i.beneficiary ≡ some from
        → i.expected_amount_usdt ≡ some expected
        → i.deposit_tx_id ≡ some tx_id
        → Seen node pay_to (some (earliest_ms config i)) tx_id t
        → t.from ≡ from
        → transaction_confirmed node tx_id ≡ some true
        → Paid pay_to config.usdt_contract expected t amount
        → Witnessed tx_id amount

  -- What alone refutes a deposit: a listed transfer of the recorded hash that is not the deposit, or
  -- a direct top-up that names no transaction or another sender.
  pub data Refuted : Type 0 where
    flawed :
        (address tx_id : Text) (from : Option ℤ) (expected : ℤ) (t : Trc20Transfer)
        → i.deposit_tx_id ≡ some tx_id
        → Seen node address from tx_id t
        → Flawed address config.usdt_contract expected t
        → Refuted
    from_another :
        (from pay_to tx_id : Text) (t : Trc20Transfer)
        → i.direct_from ≡ some from
        → i.deposit_tx_id ≡ some tx_id
        → Seen node pay_to (some (earliest_ms config i)) tx_id t
        → t.from ≢ from
        → Refuted
    not_theirs :
        (from : Text)
        → i.direct_from ≡ some from
        → tron_address_of addresses i.beneficiary ≢ some from
        → Refuted
    unnamed : (from : Text) → i.direct_from ≡ some from → i.deposit_tx_id ≡ none → Refuted

  abbrev pub EvidenceMeans : Evidence → Type 0
  EvidenceMeans (pass tx_id amount) = Witnessed tx_id amount
  EvidenceMeans (hard_mismatch r) = Refuted
  EvidenceMeans transient = Unit

  pub from_hash :
      (address tx_id : Text) (expected : ℤ) (t : Trc20Transfer) (ev : Evidence)
      → i.direct_from ≡ none
      → i.deposit_address ≡ some address
      → i.expected_amount_usdt ≡ some expected
      → i.deposit_tx_id ≡ some tx_id
      → Seen node address none tx_id t
      → HashMeans node t tx_id address config.usdt_contract expected ev
      → EvidenceMeans ev
  from_hash address tx_id expected t (pass id amount) d a e x seen m =
      subst (λ k. Witnessed k amount) (sym m.0) (by_hash address expected t d a e x seen m.1 m.2)
  from_hash address tx_id expected t (hard_mismatch r) d a e x seen m =
      flawed address tx_id none expected t x seen m
  from_hash address tx_id expected t transient d a e x seen m = tt

  pub from_twin :
      (from pay_to tx_id : Text) (expected : ℤ) (t : Trc20Transfer) (ev : Evidence)
      → i.direct_from ≡ some from
      → config.direct_topups_enabled ≡ true
      → gasfree_float config addresses ≡ some pay_to
      → tron_address_of addresses i.beneficiary ≡ some from
      → i.expected_amount_usdt ≡ some expected
      → i.deposit_tx_id ≡ some tx_id
      → Seen node pay_to (some (earliest_ms config i)) tx_id t
      → t.from ≡ from
      → HashMeans node t tx_id pay_to config.usdt_contract expected ev
      → EvidenceMeans ev
  from_twin from pay_to tx_id expected t (pass id amount) d on f b e x seen sent m =
      subst (λ k. Witnessed k amount) (sym m.0)
        (by_twin from pay_to expected t d on f b e x seen sent m.1 m.2)
  from_twin from pay_to tx_id expected t (hard_mismatch r) d on f b e x seen sent m =
      flawed pay_to tx_id (some (earliest_ms config i)) expected t x seen m
  from_twin from pay_to tx_id expected t transient d on f b e x seen sent m = tt

  -- A transfer that the fallback picks.
  candidate-Paid :
      (address : Text) (expected : ℤ) (t : Trc20Transfer)
      → is_candidate address config.usdt_contract expected (earliest_ms config i) t ≡ true
      → Paid address config.usdt_contract expected t (value_or expected t.value)
        × (earliest_ms config i ≤ℤ t.block_timestamp)
  unfolding is_candidate
  candidate-Paid address expected t h = elim (Option-cases (parse_i64 t.value)) [
    | inl unreadable ↦ let clash : false ≡ true = ground (arith, rw unreadable at h) in cc
    | inr read ↦
        rw (value_or, read.1)
          (
            record {
              moved_value = (text_eq_iff _ _).0 (ground (arith, rw read.1 at h));
              to_address = (text_eq_iff _ _).0 (ground (arith, rw read.1 at h));
              in_usdt = (text_eq_iff _ _).0 (ground (arith, rw read.1 at h));
              amount_read = read.1;
              enough = ground (arith, rw read.1 at h);
            },
            ground (arith, h),
          )
  ]

  pub by_amount-Means :
      (address : Text) (expected : ℤ) (rows : List Trc20Transfer)
      → i.direct_from ≡ none
      → i.deposit_address ≡ some address
      → i.expected_amount_usdt ≡ some expected
      → i.deposit_tx_id ≡ none
      → trc20_transfers node address (some (earliest_ms config i)) ≡ some rows
      → EvidenceMeans (
          by_amount expected
            (find (is_candidate address config.usdt_contract expected (earliest_ms config i)) rows))
  unfolding by_amount
  by_amount-Means address expected rows d a e x listed =
      elim (Option-cases
        (find (is_candidate address config.usdt_contract expected (earliest_ms config i)) rows)) [
          | inl nothing ↦ rw nothing tt
          | inr found ↦
              let holds =
                candidate-Paid address expected found.0 (find_holds _ rows found.0 found.1) in
              let seen : Seen node address (some (earliest_ms config i)) found.0.transaction_id
                  found.0 =
                record {
                  rows = rows;
                  listed = listed;
                  member = find_member _ rows found.0 found.1;
                  its_id = refl;
                } in
              rw found.1 (by_window address expected found.0 d a e x seen holds.1 holds.0)
        ]
