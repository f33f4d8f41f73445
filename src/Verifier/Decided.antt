-- ===== src/Verifier/Decided.antt =====
-- Every outcome of the evaluation of a TRON deposit (tron_verifier.rs, `evaluate`).
use clutch_treasury.Base.{
  ◌≡◌, ◌≢◌, refl, inl, inr, if◌then◌else◌, Bool, true, false, not, Option, none, some, List, arith,
  Bool-cases, Option-cases, Text, text_eq, text_eq_iff, option_text_eq, find,
}
use clutch_treasury.Base.Int.{ℤ, pos, ◌<ℤ◌}
use clutch_treasury.Store.{MintIntent}
use clutch_treasury.Verifier.Client.{Trc20Transfer, TronNode, trc20_transfers}
use clutch_treasury.Verifier.Evaluate.{
  TronConfig, Addresses, by_sender, has_tx_id, evaluate_address, evaluate_direct, evaluate,
  match_listed, request_from, sender_listed, direct_hash, direct_to, evaluate_expected, by_tx_id,
  transient, gasfree_float, tron_address_of, earliest_ms,
}
use clutch_treasury.Verifier.Sound.{Seen, by_tx_id-Means, found-Seen, text_neq}
use clutch_treasury.Verifier.Backing.{
  EvidenceMeans, from_hash, from_twin, by_amount-Means, from_another, not_theirs, unnamed,
}

match_listed-Means :
    (node : TronNode) (config : TronConfig) (addresses : Addresses) (i : MintIntent) (expected : ℤ)
    (address : Text) (tx : Option Text) (rows : Option (List Trc20Transfer))
    → pos 0 <ℤ expected
    → i.direct_from ≡ none
    → i.expected_amount_usdt ≡ some expected
    → i.deposit_address ≡ some address
    → i.deposit_tx_id ≡ tx
    → trc20_transfers node address (request_from config i tx) ≡ rows
    → EvidenceMeans node config addresses i (match_listed node config i address expected tx rows)
unfolding by_tx_id
match_listed-Means node config addresses i expected address tx none positive d e a x l = tt
match_listed-Means node config addresses i expected address none (some rows) positive d e a x l =
    by_amount-Means node config addresses i address expected rows d a e x l
match_listed-Means node config addresses i expected address (some tx_id) (some rows) positive d e a
      x l =
    elim (Option-cases (find (has_tx_id tx_id) rows)) [
      | inl unseen ↦ rw unseen tt
      | inr found ↦ rw found.1 (
          from_hash node config addresses i address tx_id expected found.0 _ d a e x
            (found-Seen node address none tx_id rows found.0 l found.1)
            (by_tx_id-Means node found.0 tx_id address config.usdt_contract expected positive))
    ]

option_text_eq_iff : (s : Option Text) (t : Text) → option_text_eq s (some t) ≡ true → s ≡ some t
unfolding option_text_eq
option_text_eq_iff none t h = cc
option_text_eq_iff (some s) t h = let same : s ≡ t = (text_eq_iff s t).0 h in cc

option_text_neq : (s : Option Text) (t : Text) → option_text_eq s (some t) ≡ false → s ≢ some t
unfolding option_text_eq
option_text_neq none t h e = cc
option_text_neq (some s) t h e = let same : s ≡ t = cc in ground (arith, h, text_eq_iff s t)

sender_listed-Means :
    (node : TronNode) (config : TronConfig) (addresses : Addresses) (i : MintIntent) (expected : ℤ)
    (from pay_to tx_id : Text) (rows : Option (List Trc20Transfer))
    → pos 0 <ℤ expected
    → i.direct_from ≡ some from
    → i.expected_amount_usdt ≡ some expected
    → config.direct_topups_enabled ≡ true
    → gasfree_float config addresses ≡ some pay_to
    → tron_address_of addresses i.beneficiary ≡ some from
    → i.deposit_tx_id ≡ some tx_id
    → trc20_transfers node pay_to (some (earliest_ms config i)) ≡ rows
    → EvidenceMeans node config addresses i
        (sender_listed node pay_to config.usdt_contract from tx_id expected rows)
unfolding by_sender
sender_listed-Means node config addresses i expected from pay_to tx_id none positive d e on f b x
      l =
    tt
sender_listed-Means node config addresses i expected from pay_to tx_id (some rows) positive d e on f
      b x l =
    elim (Option-cases (find (has_tx_id tx_id) rows)) [
      | inl unseen ↦ rw unseen tt
      | inr found ↦
          let seen : Seen node pay_to (some (earliest_ms config i)) tx_id found.0 =
            found-Seen node pay_to (some (earliest_ms config i)) tx_id rows found.0 l found.1 in
          elim (Bool-cases (text_eq (found.0).from from)) [
            | inr other ↦
                rw (found.1, other)
                  (from_another from pay_to tx_id found.0 d x seen (text_neq _ _ other))
            | inl same ↦
                rw (found.1, same)
                  (from_twin node config addresses i from pay_to tx_id expected found.0 _ d on f b e
                    x seen ((text_eq_iff _ _).0 same)
                    (by_tx_id-Means node found.0 tx_id pay_to config.usdt_contract expected
                      positive))
          ]
    ]

direct_hash-Means :
    (node : TronNode) (config : TronConfig) (addresses : Addresses) (i : MintIntent) (expected : ℤ)
    (from pay_to : Text) (tx : Option Text)
    → pos 0 <ℤ expected
    → i.direct_from ≡ some from
    → i.expected_amount_usdt ≡ some expected
    → config.direct_topups_enabled ≡ true
    → gasfree_float config addresses ≡ some pay_to
    → tron_address_of addresses i.beneficiary ≡ some from
    → i.deposit_tx_id ≡ tx
    → EvidenceMeans node config addresses i (direct_hash node config i expected from pay_to tx)
direct_hash-Means node config addresses i expected from pay_to none positive d e on f b x =
    unnamed from d x
direct_hash-Means node config addresses i expected from pay_to (some tx_id) positive d e on f b x =
    sender_listed-Means node config addresses i expected from pay_to tx_id
      (trc20_transfers node pay_to (some (earliest_ms config i))) positive d e on f b x refl

direct_to-Means :
    (node : TronNode) (config : TronConfig) (addresses : Addresses) (i : MintIntent) (expected : ℤ)
    (from : Text) (float : Option Text)
    → pos 0 <ℤ expected
    → i.direct_from ≡ some from
    → i.expected_amount_usdt ≡ some expected
    → config.direct_topups_enabled ≡ true
    → gasfree_float config addresses ≡ float
    → EvidenceMeans node config addresses i (direct_to node config addresses i expected from float)
direct_to-Means node config addresses i expected from none positive d e on f = tt
direct_to-Means node config addresses i expected from (some pay_to) positive d e on f =
    elim (Bool-cases (option_text_eq (tron_address_of addresses i.beneficiary) (some from))) [
      | inr other ↦ rw other (not_theirs from d (option_text_neq _ from other))
      | inl twin ↦ rw twin (
          direct_hash-Means node config addresses i expected from pay_to i.deposit_tx_id positive d
            e on f (option_text_eq_iff _ from twin) refl)
    ]

evaluate_direct-Means :
    (node : TronNode) (config : TronConfig) (addresses : Addresses) (i : MintIntent) (expected : ℤ)
    (from : Text)
    → pos 0 <ℤ expected
    → i.direct_from ≡ some from
    → i.expected_amount_usdt ≡ some expected
    → EvidenceMeans node config addresses i (evaluate_direct node config addresses i expected from)
unfolding evaluate_direct
evaluate_direct-Means node config addresses i expected from positive d e =
    switched config.direct_topups_enabled refl
  where
    switched :
        (enabled : Bool)
        → config.direct_topups_enabled ≡ enabled
        → EvidenceMeans node config addresses i (
            if not enabled
            then transient
            else direct_to node config addresses i expected from (gasfree_float config addresses))
    switched false off = tt
    switched true on =
        direct_to-Means node config addresses i expected from (gasfree_float config addresses)
          positive d e on refl

evaluate_expected-Means :
    (node : TronNode) (config : TronConfig) (addresses : Addresses) (i : MintIntent)
    (direct : Option Text) (amount : Option ℤ)
    → ((expected : ℤ) → i.expected_amount_usdt ≡ some expected → pos 0 <ℤ expected)
    → i.direct_from ≡ direct
    → i.expected_amount_usdt ≡ amount
    → EvidenceMeans node config addresses i
        (evaluate_expected node config addresses i direct amount)
unfolding evaluate_address
evaluate_expected-Means node config addresses i direct none positive d e = tt
evaluate_expected-Means node config addresses i (some from) (some expected) positive d e =
    evaluate_direct-Means node config addresses i expected from (positive expected e) d e
evaluate_expected-Means node config addresses i none (some expected) positive d e =
    at_address i.deposit_address refl
  where
    at_address :
        (a : Option Text)
        → i.deposit_address ≡ a
        → EvidenceMeans node config addresses i (evaluate_address node config i expected a)
    at_address none a = tt
    at_address (some address) a =
        match_listed-Means node config addresses i expected address i.deposit_tx_id _
          (positive expected e) d e a refl refl

-- For an intent whose expected amount, where it has one, is positive: a deposit passes only where a
-- listed transfer of at least that amount, of USDT and to the right address, stands behind it, by its
-- recorded hash and confirmed, or in the window before the intent; a direct top-up only where its
-- sender is also the beneficiary's own TRON address. A deposit is refuted only by what the chain
-- lists under its recorded hash, or, for a direct top-up, by a hash or sender that it does not have.
-- So a failed read refutes nothing.
pub evaluate-Means :
    (node : TronNode) (config : TronConfig) (addresses : Addresses) (i : MintIntent)
    → ((expected : ℤ) → i.expected_amount_usdt ≡ some expected → pos 0 <ℤ expected)
    → EvidenceMeans node config addresses i (evaluate node config addresses i)
unfolding evaluate
evaluate-Means node config addresses i positive =
    evaluate_expected-Means node config addresses i i.direct_from i.expected_amount_usdt positive
      refl refl
