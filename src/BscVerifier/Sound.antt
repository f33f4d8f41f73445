-- ===== src/BscVerifier/Sound.antt =====
-- What stands behind a BSC top-up that passes (bsc_verifier.rs, `evaluate`).
use clutch_treasury.Base.{
  ℕ, ◌≤◌, ◌≡◌, inl, inr, refl, ap, ◌∙◌, Bool, true, false, not, ◌==◌, Option, none, some, arith,
  Bool-cases, Option-cases, Text, text_eq, text_eq_iff, ltb, if◌then◌else◌, ◌+◌, min,
}
use clutch_treasury.Base.Int.{ℤ, pos, ◌≤ℤ◌, ltb_ℤ}
use clutch_treasury.Store.{MintIntent, bsc_reverted}
use clutch_treasury.Bsc.{normalize_address}
use clutch_treasury.Verifier.Evaluate.{Evidence, pass, hard_mismatch, transient}
use clutch_treasury.BscVerifier.{
  Receipt, BscNode, Witness, Route, direct, address, Routed, goes, ends, own_wallet, at_index,
  arrived_by, in_micro, judge_arrived, saturating_add_u64, judge_depth, judge_receipt,
}
use clutch_treasury.BscVerifier.Moved.{Moved, in_micro-Moved}

-- What holds of an evaluation where it passes.
abbrev pub OnPass : (Text → ℤ → Type 0) → Evidence → Type 0
OnPass P (pass tx_id amount) = P tx_id amount
OnPass P (hard_mismatch r) = Unit
OnPass P transient = Unit

-- The USDT of a mined, deep and successful transaction that went along a route.
pub record Arrived (w : Witness) (route : Route) (expected : ℤ) (tx_hash : Text) (amount : ℤ)
    : Type 0 where
  pub receipt : Receipt
  pub mined : w.node.receipt tx_hash ≡ some (some receipt)
  pub succeeded : receipt.succeeded ≡ true
  pub head : ℕ
  pub head_read : w.node.head ≡ some head
  pub deep : min (receipt.block_number + w.settings.confirmations) 18446744073709551615 ≤ head
  pub micro : ℕ
  pub moved : Moved w.settings route receipt.transfers micro
  pub is_amount : amount ≡ pos micro
  pub not_zero : 1 ≤ micro
  pub enough : expected ≤ℤ pos micro

-- Where the money of an intent must have gone, and from whom.
pub data RouteFor (node : BscNode) (i : MintIntent) : Route → Type 0 where
  from_owner :
      (from own : Text)
      → i.direct_from ≡ some from
      → normalize_address from ≡ some own
      → normalize_address i.beneficiary ≡ some own
      → RouteFor node i (direct own)
  to_derived :
      (given own : Text) (index : ℤ)
      → i.direct_from ≡ none
      → i.deposit_address ≡ some given
      → normalize_address given ≡ some own
      → i.derivation_index ≡ some index
      → node.bsc_address index ≡ some own
      → RouteFor node i (address own)

is_deep :
    (block confirmations head : ℕ)
    → saturating_add_u64 block confirmations ≤ head
    → min (block + confirmations) 18446744073709551615 ≤ head
is_deep block confirmations head h = ground (arith, h)

module _ (w : Witness) (route : Route) (tx_hash : Text) (expected : ℤ) where
  judge_arrived-Means :
      (o : Option ℕ)
      → OnPass
          (λ t a.
            (t ≡ tx_hash) × ((n : ℕ) × (o ≡ some n) × (a ≡ pos n) × (1 ≤ n) × (expected ≤ℤ pos n)))
          (judge_arrived tx_hash expected o)
  unfolding judge_arrived
  judge_arrived-Means none = tt
  judge_arrived-Means (some n) = elim (Bool-cases (n == 0)) [
    | inl nothing ↦ rw nothing tt
    | inr some_usdt ↦ elim (Bool-cases (ltb_ℤ (pos n) expected)) [
      | inl low ↦ rw (some_usdt, low) tt
      | inr enough ↦
          rw (some_usdt, enough)
            (refl, (n, refl, refl, ground (arith, some_usdt), ground (arith, enough)))
    ]
  ]

  arrived :
      (r : Receipt) (head : ℕ) (ev : Evidence)
      → w.node.receipt tx_hash ≡ some (some r)
      → r.succeeded ≡ true
      → w.node.head ≡ some head
      → saturating_add_u64 r.block_number w.settings.confirmations ≤ head
      → OnPass
          (λ t a.
            (t ≡ tx_hash)
            × ((n : ℕ) × (in_micro w.settings (arrived_by w.settings route r.transfers) ≡ some n)
                × (a ≡ pos n)
                × (1 ≤ n)
                × (expected ≤ℤ pos n)))
          ev
      → OnPass (λ t a. (t ≡ tx_hash) × Arrived w route expected tx_hash a) ev
  arrived r head (pass t a) mined good read deep m = (
    m.0,
    record {
      receipt = r;
      mined = mined;
      succeeded = good;
      head = head;
      head_read = read;
      deep = is_deep r.block_number w.settings.confirmations head deep;
      micro = m.1.0;
      moved = in_micro-Moved w.settings route r.transfers m.1.0 m.1.1;
      is_amount = m.1.2;
      not_zero = m.1.3;
      enough = m.1.4;
    },
  )
  arrived r head (hard_mismatch x) mined good read deep m = tt
  arrived r head transient mined good read deep m = tt

  judge_depth-Means :
      (r : Receipt) (head : Option ℕ)
      → w.node.receipt tx_hash ≡ some (some r)
      → r.succeeded ≡ true
      → w.node.head ≡ head
      → OnPass
          (λ t a. (t ≡ tx_hash) × Arrived w route expected tx_hash a)
          (judge_depth w route tx_hash expected r head)
  judge_depth-Means r none mined good read = tt
  judge_depth-Means r (some head) mined good read =
      elim (Bool-cases (ltb head (saturating_add_u64 r.block_number w.settings.confirmations))) [
        | inl shallow ↦ rw shallow tt
        | inr deep ↦ rw deep (
            arrived r head _ mined good read (ground (arith, deep))
              (judge_arrived-Means (in_micro w.settings (arrived_by w.settings route r.transfers))))
      ]

  pub judge_receipt-Means :
      (o : Option (Option Receipt))
      → w.node.receipt tx_hash ≡ o
      → OnPass
          (λ t a. (t ≡ tx_hash) × Arrived w route expected tx_hash a)
          (judge_receipt w route tx_hash expected o)
  judge_receipt-Means none mined = tt
  judge_receipt-Means (some none) mined = tt
  judge_receipt-Means (some (some r)) mined = by_outcome r.succeeded refl
    where
      by_outcome :
          (good : Bool)
          → r.succeeded ≡ good
          → OnPass
              (λ t a. (t ≡ tx_hash) × Arrived w route expected tx_hash a)
              (if not good
                then hard_mismatch (bsc_reverted tx_hash)
                else judge_depth w route tx_hash expected r w.node.head)
      by_outcome false bad = tt
      by_outcome true good = judge_depth-Means r w.node.head mined good refl

-- The route of an intent.
unfoldable pub RoutedMeans : BscNode → MintIntent → Routed → Type 0
RoutedMeans node i (goes route) = RouteFor node i route
RoutedMeans node i (ends (pass t a)) = ⊥
RoutedMeans node i (ends (hard_mismatch r)) = Unit
RoutedMeans node i (ends transient) = Unit

pub own_wallet-Means :
    (node : BscNode) (i : MintIntent) (from : Text) (b f : Option Text)
    → i.direct_from ≡ some from
    → normalize_address i.beneficiary ≡ b
    → normalize_address from ≡ f
    → RoutedMeans node i (own_wallet b f)
unfolding RoutedMeans
own_wallet-Means node i from none f d nb nf = tt
own_wallet-Means node i from (some b) none d nb nf = tt
own_wallet-Means node i from (some b) (some f) d nb nf = elim (Bool-cases (text_eq b f)) [
  | inr differs ↦ rw differs tt
  | inl same ↦ rw same (from_owner from f d nf (nb ∙ ap some ((text_eq_iff b f).0 same)))
]

pub at_index-Means :
    (node : BscNode) (i : MintIntent) (given : Text) (a : Option Text) (index : Option ℤ)
    → i.direct_from ≡ none
    → i.deposit_address ≡ some given
    → normalize_address given ≡ a
    → i.derivation_index ≡ index
    → RoutedMeans node i (at_index node a index)
unfolding RoutedMeans
at_index-Means node i given none index d g n x = tt
at_index-Means node i given (some a) none d g n x = tt
at_index-Means node i given (some a) (some k) d g n x = elim (Option-cases (node.bsc_address k)) [
  | inl failed ↦ rw failed tt
  | inr ours ↦ elim (Bool-cases (text_eq ours.0 a)) [
    | inr differs ↦ rw (ours.1, differs) tt
    | inl same ↦
        rw (ours.1, same)
          (to_derived given a k d g n x (ours.1 ∙ ap some ((text_eq_iff ours.0 a).0 same)))
  ]
]
