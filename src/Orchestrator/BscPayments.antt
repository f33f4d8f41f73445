-- ===== src/Orchestrator/BscPayments.antt =====
-- The transfers of a range by transaction: crates/payment-orchestrator/src/bsc_watch.rs,
-- `by_transaction` and `by_deposit`. A map in the order of its keys is a sorted list.
use clutch_treasury.Base.{
  ℕ, ◌+◌, ◌-◌, min, ◌==◌, Bool, true, false, ◌&&◌, ◌||◌, List, [], ◌∷◌, if◌then◌else◌, ltb, Text,
  text_eq,
}
use clutch_treasury.Bsc.{Transfer, u128_mod}

-- One transaction's USDT to the pay-in address; `from` is empty where two senders paid.
pub record Payment : Type 0 where
  pub tx_hash : Text
  pub block_number : ℕ
  pub from : Text
  pub value : ℕ

-- The order of texts by their bytes.
unfoldable pub text_ltb : Text → Text → Bool
text_ltb s [] = false
text_ltb [] (b ∷ t) = true
text_ltb (a ∷ s) (b ∷ t) = if a == b then text_ltb s t else ltb a b

abbrev saturating_add : ℕ → ℕ → ℕ
saturating_add a b = min (a + b) (u128_mod - 1)

abbrev pub pays_in : Transfer → Payment → Payment
pays_in t p = record p {
  from = if text_eq p.from t.from then p.from else [];
  value = saturating_add p.value t.value;
}

abbrev pub first_payment : Transfer → Payment
first_payment t = record {
  tx_hash = t.tx_hash;
  block_number = t.block_number;
  from = t.from;
  value = saturating_add 0 t.value;
}

-- The order of the map's keys: the block, then the hash.
abbrev before : ℕ → Text → ℕ → Text → Bool
before block hash block' hash' = ltb block block' || block == block' && text_ltb hash hash'

unfoldable pub add_payment : Transfer → List Payment → List Payment
unfolding text_eq text_ltb
add_payment t [] = first_payment t ∷ []
add_payment t (p ∷ ps) =
    let rest = add_payment t ps in
    if p.block_number == t.block_number && text_eq p.tx_hash t.tx_hash
    then pays_in t p ∷ ps
    else if before t.block_number t.tx_hash p.block_number p.tx_hash
    then first_payment t ∷ p ∷ ps
    else p ∷ rest

unfoldable pub add_payments : List Transfer → List Payment → List Payment
unfolding add_payment
add_payments [] ps = ps
add_payments (t ∷ ts) ps = add_payments ts (add_payment t ps)

unfoldable pub by_transaction : List Transfer → List Payment
unfolding add_payments
by_transaction ts = add_payments ts []

-- One transaction's USDT to one deposit address.
pub record AddressPayment : Type 0 where
  pub tx_hash : Text
  pub block_number : ℕ
  pub to : Text
  pub value : ℕ

abbrev pub first_deposit : Transfer → AddressPayment
first_deposit t = record {
  tx_hash = t.tx_hash;
  block_number = t.block_number;
  to = t.to;
  value = saturating_add 0 t.value;
}

abbrev before_deposit : Transfer → AddressPayment → Bool
before_deposit t d =
    before t.block_number t.tx_hash d.block_number d.tx_hash
    || t.block_number == d.block_number && text_eq t.tx_hash d.tx_hash && text_ltb t.to d.to

unfoldable pub add_deposit : Transfer → List AddressPayment → List AddressPayment
unfolding text_eq text_ltb
add_deposit t [] = first_deposit t ∷ []
add_deposit t (d ∷ ds) =
    let rest = add_deposit t ds in
    if d.block_number == t.block_number && text_eq d.tx_hash t.tx_hash && text_eq d.to t.to
    then record d { value = saturating_add d.value t.value } ∷ ds
    else if before_deposit t d
    then first_deposit t ∷ d ∷ ds
    else d ∷ rest

unfoldable pub add_deposits : List Transfer → List AddressPayment → List AddressPayment
unfolding add_deposit
add_deposits [] ds = ds
add_deposits (t ∷ ts) ds = add_deposits ts (add_deposit t ds)

unfoldable pub by_deposit : List Transfer → List AddressPayment
unfolding add_deposits
by_deposit ts = add_deposits ts []
