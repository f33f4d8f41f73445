-- ===== src/BscVerifier.antt =====
-- The evidence for a top-up on BNB Smart Chain: crates/treasury-service/src/bsc_verifier.rs. What the
-- node and the signer answer are arguments; `none` is a request that failed.
pub mod Moved
pub mod Sound
pub mod Backing
use clutch_treasury.Base.{
  ℕ, ◌+◌, ◌-◌, Bool, true, false, ◌&&◌, ◌||◌, not, ◌==◌, Option, none, some, List, [], ◌∷◌,
  if◌then◌else◌, ltb, leb, is_some, Text, text_eq, option_text_eq,
}
use clutch_treasury.Base.Int.{ℤ, pos, ltb_ℤ, i64_bound, i64_mod}
use clutch_treasury.Store.{
  MintIntent, Reason, bsc_sender_differs, bsc_unusable_address, bsc_no_route, bsc_no_transaction,
  bsc_bad_value, bsc_not_derived, bsc_reverted, bsc_nothing_moved, bsc_below, bsc_from_pay_in,
  bsc_below_minimum,
}
use clutch_treasury.Bsc.{
  Transfer, normalize_address, normalize_tx_hash, sum_transfers, to_micro, checked_add,
}
use clutch_treasury.Verifier.Evaluate.{Evidence, pass, hard_mismatch, transient, GasfreeSettings}
use clutch_treasury.Verifier.Judge.{Verdict, approve, hold, reject}

-- `bsc::Settings`; the RPC address is not read by the model.
pub record Settings : Type 0 where
  pub chain_id : ℕ
  pub usdt_contract : Text
  pub usdt_decimals : ℕ
  pub pay_in_address : Text
  pub confirmations : ℕ

pub record Receipt : Type 0 where
  pub succeeded : Bool
  pub block_number : ℕ
  pub transfers : List Transfer

pub record BscNode : Type 0 where
  pub chain_id : Option ℕ
  -- A transaction without a receipt is the inner `none`.
  pub receipt : Text → Option (Option Receipt)
  pub head : Option ℕ
  pub balance_of : Text → Option ℕ
  -- The signer's address at an index.
  pub bsc_address : ℤ → Option Text

pub record Witness : Type 0 where
  pub settings : Settings
  pub node : BscNode
  pub on_chain : Bool

abbrev pub answers_for : Settings → Option ℕ → Bool
answers_for settings none = false
answers_for settings (some id) = id == settings.chain_id

-- `Witness::new`.
abbrev pub witness_of : Settings → BscNode → Witness
witness_of settings node = record {
  settings = settings;
  node = node;
  on_chain = answers_for settings node.chain_id;
}

pub data Route : Type 0 where
  direct address : Text → Route

-- What the choice of a route comes to: a route, or the evidence that ends the evaluation.
pub data Routed : Type 0 where
  goes : Route → Routed
  ends : Evidence → Routed

abbrev pub own_wallet : Option Text → Option Text → Routed
own_wallet (some b) (some f) =
    if text_eq b f then goes (direct f) else ends (hard_mismatch bsc_sender_differs)
own_wallet _ _ = ends (hard_mismatch bsc_sender_differs)

abbrev derived_as : Text → Option Text → Routed
derived_as a none = ends transient
derived_as a (some ours) =
    if text_eq ours a then goes (address a) else ends (hard_mismatch (bsc_not_derived a))

abbrev pub at_index : BscNode → Option Text → Option ℤ → Routed
at_index node (some a) (some index) = derived_as a (node.bsc_address index)
at_index node _ _ = ends (hard_mismatch bsc_unusable_address)

abbrev pub choose : BscNode → MintIntent → Option Text → Option Text → Routed
choose node i (some from) _ = own_wallet (normalize_address i.beneficiary) (normalize_address from)
choose node i none (some a) = at_index node (normalize_address a) i.derivation_index
choose node i none none = ends (hard_mismatch bsc_no_route)

unfoldable pub route_of : BscNode → MintIntent → Routed
unfolding normalize_address text_eq
route_of node i = choose node i i.direct_from i.deposit_address

-- The fold over the transfers to a deposit address, from a sum so far.
unfoldable pub sum_to : Text → Text → List Transfer → Option ℕ → Option ℕ
unfolding text_eq
sum_to contract to ts none = none
sum_to contract to [] (some sum) = some sum
sum_to contract to (t ∷ ts) (some sum) =
    sum_to contract to ts
      (if text_eq t.contract contract && text_eq t.to to then checked_add sum t.value else some sum)

unfoldable pub arrived_by : Settings → Route → List Transfer → Option ℕ
unfolding sum_to sum_transfers
arrived_by s (direct from) ts = sum_transfers ts s.usdt_contract from s.pay_in_address
arrived_by s (address a) ts = sum_to s.usdt_contract a ts (some 0)

abbrev pub in_micro : Settings → Option ℕ → Option ℕ
in_micro s none = none
in_micro s (some value) = to_micro value s.usdt_decimals

unfoldable pub judge_arrived : Text → ℤ → Option ℕ → Evidence
judge_arrived tx_hash expected none = hard_mismatch bsc_bad_value
judge_arrived tx_hash expected (some n) =
    if n == 0
    then hard_mismatch (bsc_nothing_moved tx_hash)
    else if ltb_ℤ (pos n) expected
    then hard_mismatch (bsc_below tx_hash)
    else pass tx_hash (pos n)

-- `saturating_add` of two `u64`.
abbrev pub saturating_add_u64 : ℕ → ℕ → ℕ
saturating_add_u64 a b = if ltb (a + b) i64_mod then a + b else i64_mod - 1

abbrev pub judge_depth : Witness → Route → Text → ℤ → Receipt → Option ℕ → Evidence
judge_depth w route tx_hash expected r none = transient
judge_depth w route tx_hash expected r (some head) =
    if ltb head (saturating_add_u64 r.block_number w.settings.confirmations)
    then transient
    else judge_arrived tx_hash expected
        (in_micro w.settings (arrived_by w.settings route r.transfers))

abbrev pub judge_receipt : Witness → Route → Text → ℤ → Option (Option Receipt) → Evidence
judge_receipt w route tx_hash expected none = transient
judge_receipt w route tx_hash expected (some none) = transient
judge_receipt w route tx_hash expected (some (some r)) =
    if not r.succeeded
    then hard_mismatch (bsc_reverted tx_hash)
    else judge_depth w route tx_hash expected r w.node.head

abbrev pub normal_hash : Option Text → Option Text
normal_hash none = none
normal_hash (some t) = normalize_tx_hash t

abbrev pub judge_hash : Witness → Route → ℤ → Option Text → Evidence
judge_hash w route expected none = hard_mismatch bsc_no_transaction
judge_hash w route expected (some tx_hash) =
    judge_receipt w route tx_hash expected (w.node.receipt tx_hash)

-- The receipt at a route.
unfoldable pub follow : Witness → MintIntent → ℤ → Routed → Evidence
unfolding normalize_tx_hash arrived_by judge_arrived to_micro
follow w i expected (ends evidence) = evidence
follow w i expected (goes route) = judge_hash w route expected (normal_hash i.deposit_tx_id)

abbrev pub evaluate_expected : Witness → MintIntent → Option ℤ → Evidence
evaluate_expected w i none = transient
evaluate_expected w i (some expected) = follow w i expected (route_of w.node i)

-- `evaluate`, of a BSC intent.
unfoldable pub evaluate_bsc : Option Witness → MintIntent → Evidence
unfolding route_of follow
evaluate_bsc none i = transient
evaluate_bsc (some w) i =
    if not w.on_chain then transient else evaluate_expected w i i.expected_amount_usdt

abbrev normal_from : Option Text → Option Text
normal_from none = none
normal_from (some t) = normalize_address t

abbrev pay_in_of : Option Settings → Option Text
pay_in_of none = none
pay_in_of (some s) = some s.pay_in_address

abbrev bsc_minimum : Option GasfreeSettings → ℤ → Verdict
bsc_minimum none observed = approve (some observed)
bsc_minimum (some g) observed =
    if ltb_ℤ observed g.min_deposit_usdt
    then hold observed bsc_below_minimum
    else approve (some observed)

-- `verdict`, of a BSC top-up.
unfoldable pub verdict_bsc :
    Option Settings → Option GasfreeSettings → Option Text → Option Text → ℤ → Verdict
unfolding normalize_address option_text_eq
verdict_bsc settings gasfree direct_from deposit_address observed =
    let from = normal_from direct_from in
    let at_own_address = not (is_some direct_from) && is_some deposit_address in
    if not at_own_address && (not (is_some from) || option_text_eq from (pay_in_of settings))
    then reject bsc_from_pay_in
    else bsc_minimum gasfree observed

abbrev checked_total : Option ℕ → Option ℕ → Option ℕ
checked_total (some a) (some b) = if ltb (a + b) i64_bound then some (a + b) else none
checked_total _ _ = none

-- The sum over the addresses, from a total so far.
unfoldable pub reserve_from : Settings → BscNode → List Text → Option ℕ → Option ℕ
unfolding to_micro
reserve_from s node [] total = total
reserve_from s node (a ∷ rest) total =
    reserve_from s node rest (checked_total total (in_micro s (node.balance_of a)))

unfoldable pub reserve_micro : Settings → BscNode → List Text → Option ℕ
unfolding reserve_from
reserve_micro s node unswept =
    if answers_for s node.chain_id
    then reserve_from s node (s.pay_in_address ∷ unswept) (some 0)
    else none
