-- ===== src/BscVerifier/Backing.antt =====
-- A BSC top-up passes only on its own money (bsc_verifier.rs, `evaluate`).
use clutch_treasury.Base.{
  ◌≡◌, refl, sym, subst, Bool, true, false, not, Option, none, some, Text, if◌then◌else◌,
}
use clutch_treasury.Base.Int.{ℤ}
use clutch_treasury.Store.{MintIntent}
use clutch_treasury.Bsc.{normalize_address}
use clutch_treasury.Verifier.Evaluate.{Evidence, pass, hard_mismatch, transient}
use clutch_treasury.BscVerifier.{
  BscNode, Witness, Route, Routed, goes, ends, choose, route_of, normal_hash, judge_hash, follow,
  evaluate_expected, evaluate_bsc,
}
use clutch_treasury.BscVerifier.Sound.{
  OnPass, Arrived, RouteFor, RoutedMeans, own_wallet-Means, at_index-Means, judge_receipt-Means,
}

choose-Means :
    (node : BscNode) (i : MintIntent) (from given : Option Text)
    → i.direct_from ≡ from
    → i.deposit_address ≡ given
    → RoutedMeans node i (choose node i from given)
unfolding RoutedMeans
choose-Means node i (some from) given d g =
    own_wallet-Means node i from (normalize_address i.beneficiary) (normalize_address from) d refl
      refl
choose-Means node i none (some a) d g =
    at_index-Means node i a (normalize_address a) i.derivation_index d g refl refl
choose-Means node i none none d g = tt

-- What a pass rests on: a node on the configured chain, the intent's own route and recorded hash,
-- and the USDT of that transaction along the route.
pub record Backing (w : Witness) (i : MintIntent) (tx_hash : Text) (amount : ℤ) : Type 0 where
  pub on_chain : w.on_chain ≡ true
  pub expected : ℤ
  pub was_expected : i.expected_amount_usdt ≡ some expected
  pub route : Route
  pub its_route : RouteFor w.node i route
  pub its_hash : normal_hash i.deposit_tx_id ≡ some tx_hash
  pub arrived : Arrived w route expected tx_hash amount

module _ (w : Witness) (i : MintIntent) where
  pass-Backing :
      (expected : ℤ) (route : Route) (tx_hash : Text) (ev : Evidence)
      → w.on_chain ≡ true
      → i.expected_amount_usdt ≡ some expected
      → RouteFor w.node i route
      → normal_hash i.deposit_tx_id ≡ some tx_hash
      → OnPass (λ t a. (t ≡ tx_hash) × Arrived w route expected tx_hash a) ev
      → OnPass (Backing w i) ev
  pass-Backing expected route tx_hash (pass t a) on e r h m =
      subst (λ k. Backing w i k a) (sym m.0)
        (record {
          on_chain = on;
          expected = expected;
          was_expected = e;
          route = route;
          its_route = r;
          its_hash = h;
          arrived = m.1;
        })
  pass-Backing expected route tx_hash (hard_mismatch x) on e r h m = tt
  pass-Backing expected route tx_hash transient on e r h m = tt

  judge_hash-Means :
      (expected : ℤ) (route : Route) (hash : Option Text)
      → w.on_chain ≡ true
      → i.expected_amount_usdt ≡ some expected
      → RouteFor w.node i route
      → normal_hash i.deposit_tx_id ≡ hash
      → OnPass (Backing w i) (judge_hash w route expected hash)
  judge_hash-Means expected route none on e r h = tt
  judge_hash-Means expected route (some tx_hash) on e r h =
      pass-Backing expected route tx_hash _ on e r h
        (judge_receipt-Means w route tx_hash expected (w.node.receipt tx_hash) refl)

  follow-Means :
      (expected : ℤ) (routed : Routed)
      → w.on_chain ≡ true
      → i.expected_amount_usdt ≡ some expected
      → RoutedMeans w.node i routed
      → OnPass (Backing w i) (follow w i expected routed)
  unfolding follow RoutedMeans
  follow-Means expected (goes route) on e r =
      judge_hash-Means expected route (normal_hash i.deposit_tx_id) on e r refl
  follow-Means expected (ends (pass t a)) on e r = absurd r
  follow-Means expected (ends (hard_mismatch x)) on e r = tt
  follow-Means expected (ends transient) on e r = tt

  evaluate_expected-Means :
      (o : Option ℤ)
      → w.on_chain ≡ true
      → i.expected_amount_usdt ≡ o
      → OnPass (Backing w i) (evaluate_expected w i o)
  unfolding route_of
  evaluate_expected-Means none on e = tt
  evaluate_expected-Means (some expected) on e =
      follow-Means expected _ on e (choose-Means w.node i i.direct_from i.deposit_address refl refl)

-- A BSC top-up passes only where the node is on the configured chain and holds, deep enough, the
-- successful transaction of the recorded hash, which moved USDT of the amount that passes, not zero
-- and at least what was expected: from the beneficiary's own wallet to the pay-in address, or to the
-- deposit address that the signer derives at the intent's index.
pub evaluate_bsc-Means :
    (w : Witness) (i : MintIntent) → OnPass (Backing w i) (evaluate_bsc (some w) i)
unfolding evaluate_bsc
evaluate_bsc-Means w i = by_chain w.on_chain refl
  where
    by_chain :
        (on : Bool)
        → w.on_chain ≡ on
        → OnPass
            (Backing w i)
            (if not on then transient else evaluate_expected w i i.expected_amount_usdt)
    by_chain false off = tt
    by_chain true on = evaluate_expected-Means w i i.expected_amount_usdt on refl
