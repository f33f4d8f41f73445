-- ===== src/Verifier/Sound.antt =====
-- What the evidence for a TRON deposit says (tron_verifier.rs, `check_transfer`, `evaluate` and
-- `evaluate_direct`).
use clutch_treasury.Base.{
  ◌≡◌, ◌≢◌, inl, inr, refl, Bool, true, false, Option, some, List, [], ◌∷◌, arith, Bool-cases,
  Option-cases, Text, text_eq, text_eq_iff, find, find_holds, parse_i64,
}
use clutch_treasury.Base.Int.{ℤ, pos, ◌≤ℤ◌, ◌<ℤ◌, leb_ℤ}
use mathlib.Core.List.{Memᴰ}
use clutch_treasury.Verifier.Client.{
  Trc20Transfer, TronNode, trc20_transfers, transaction_confirmed, trc20_transfer_event,
}
use clutch_treasury.Verifier.Evaluate.{
  Evidence, pass, hard_mismatch, transient, check_transfer, evidence_of, value_or, by_tx_id,
  has_tx_id,
}

-- A transfer of USDT to an address of at least what was expected.
pub record Paid (address usdt_contract : Text) (expected : ℤ) (t : Trc20Transfer) (amount : ℤ)
    : Type 0 where
  pub moved_value : t.event_type ≡ trc20_transfer_event
  pub to_address : t.to ≡ address
  pub in_usdt : t.token ≡ usdt_contract
  pub amount_read : parse_i64 t.value ≡ some amount
  pub enough : expected ≤ℤ amount

-- A transfer that is not one.
pub data Flawed (address usdt_contract : Text) (expected : ℤ) (t : Trc20Transfer) : Type 0 where
  another_event : t.event_type ≢ trc20_transfer_event → Flawed address usdt_contract expected t
  another_address : t.to ≢ address → Flawed address usdt_contract expected t
  another_token : t.token ≢ usdt_contract → Flawed address usdt_contract expected t
  too_little : value_or (pos 0) t.value <ℤ expected → Flawed address usdt_contract expected t

pub text_neq : (s t : Text) → text_eq s t ≡ false → s ≢ t
text_neq s t h e = ground (arith, h, text_eq_iff s t)

-- What the check of a transfer with a known depth comes to.
CheckMeans : Trc20Transfer → Bool → Text → Text → Text → ℤ → Evidence → Type 0
CheckMeans t confirmed tx_id address contract expected (pass id amount) =
    (id ≡ tx_id) × (confirmed ≡ true) × Paid address contract expected t amount
CheckMeans t confirmed tx_id address contract expected (hard_mismatch r) =
    Flawed address contract expected t
CheckMeans t confirmed tx_id address contract expected transient = Unit

amount_of :
    (value : Text) (expected : ℤ)
    → pos 0 <ℤ expected
    → leb_ℤ expected (value_or (pos 0) value) ≡ true
    → parse_i64 value ≡ some (value_or (pos 0) value)
amount_of value expected positive h = elim (Option-cases (parse_i64 value)) [
  | inl unreadable ↦
      let low : leb_ℤ expected (pos 0) ≡ true = rw (value_or, unreadable) at h in
      ground (arith, positive, low)
  | inr read ↦ rw (value_or, read.1) refl
]

check_transfer-Means :
    (t : Trc20Transfer) (confirmed : Bool) (tx_id address contract : Text) (expected : ℤ)
    → pos 0 <ℤ expected
    → CheckMeans t confirmed tx_id address contract expected
        (evidence_of tx_id (check_transfer t confirmed address contract expected))
unfolding CheckMeans check_transfer
check_transfer-Means t confirmed tx_id address contract expected positive =
    elim (Bool-cases (text_eq t.event_type trc20_transfer_event)) [
      | inr bad ↦ rw bad (another_event (text_neq _ _ bad))
      | inl moved ↦ elim (Bool-cases (text_eq t.to address)) [
        | inr bad ↦ rw (moved, bad) (another_address (text_neq _ _ bad))
        | inl to ↦ elim (Bool-cases (text_eq t.token contract)) [
          | inr bad ↦ rw (moved, to, bad) (another_token (text_neq _ _ bad))
          | inl token ↦ elim (Bool-cases (leb_ℤ expected (value_or (pos 0) t.value))) [
            | inr bad ↦ rw (moved, to, token, bad) (too_little (ground (arith, bad)))
            | inl enough ↦ elim (Bool-cases confirmed) [
              | inr waits ↦ rw (moved, to, token, enough, waits) tt
              | inl final ↦
                  rw (moved, to, token, enough, final)
                    (
                      refl,
                      refl,
                      record {
                        moved_value = (text_eq_iff _ _).0 moved;
                        to_address = (text_eq_iff _ _).0 to;
                        in_usdt = (text_eq_iff _ _).0 token;
                        amount_read = amount_of t.value expected positive enough;
                        enough = ground (arith, enough);
                      },
                    )
            ]
          ]
        ]
      ]
    ]

-- A transfer with an id, in what the node lists for an address from a time on.
pub record Seen (node : TronNode) (address : Text) (from : Option ℤ) (tx_id : Text)
    (t : Trc20Transfer) : Type 0 where
  pub rows : List Trc20Transfer
  pub listed : trc20_transfers node address from ≡ some rows
  pub member : Memᴰ t rows
  pub its_id : t.transaction_id ≡ tx_id

pub find_member : {A : Type 0} (p : A → Bool) (xs : List A) (a : A) → find p xs ≡ some a → Memᴰ a xs
unfolding find
find_member p [] a e = cc
find_member p (x ∷ xs) a e = elim (Bool-cases (p x)) [
  | inl hit ↦ let e' : some x ≡ some a = rw hit at e in Memᴰ.head cc
  | inr miss ↦ Memᴰ.tail (find_member p xs a (rw miss at e))
]

-- What the path of a recorded hash comes to for its transfer.
abbrev pub HashMeans : TronNode → Trc20Transfer → Text → Text → Text → ℤ → Evidence → Type 0
HashMeans node t tx_id address contract expected (pass id amount) =
    (id ≡ tx_id)
    × (transaction_confirmed node tx_id ≡ some true)
    × Paid address contract expected t amount
HashMeans node t tx_id address contract expected (hard_mismatch r) =
    Flawed address contract expected t
HashMeans node t tx_id address contract expected transient = Unit

confirmed_means :
    (node : TronNode) (t : Trc20Transfer) (confirmed : Bool) (tx_id address contract : Text)
    (expected : ℤ) (ev : Evidence)
    → transaction_confirmed node tx_id ≡ some confirmed
    → CheckMeans t confirmed tx_id address contract expected ev
    → HashMeans node t tx_id address contract expected ev
unfolding CheckMeans
confirmed_means node t confirmed tx_id address contract expected (pass id amount) read m =
    (m.0, rw (← m.1) read, m.2)
confirmed_means node t confirmed tx_id address contract expected (hard_mismatch r) read m = m
confirmed_means node t confirmed tx_id address contract expected transient read m = tt

pub by_tx_id-Means :
    (node : TronNode) (t : Trc20Transfer) (tx_id address contract : Text) (expected : ℤ)
    → pos 0 <ℤ expected
    → HashMeans node t tx_id address contract expected
        (by_tx_id node address contract tx_id expected (some t))
unfolding by_tx_id
by_tx_id-Means node t tx_id address contract expected positive =
    elim (Option-cases (transaction_confirmed node tx_id)) [
      | inl failed ↦ rw failed tt
      | inr read ↦ rw read.1 (
          confirmed_means node t read.0 tx_id address contract expected _ read.1
            (check_transfer-Means t read.0 tx_id address contract expected positive))
    ]

pub found-Seen :
    (node : TronNode) (address : Text) (from : Option ℤ) (tx_id : Text) (rows : List Trc20Transfer)
    (t : Trc20Transfer)
    → trc20_transfers node address from ≡ some rows
    → find (has_tx_id tx_id) rows ≡ some t
    → Seen node address from tx_id t
found-Seen node address from tx_id rows t listed found = record {
  rows = rows;
  listed = listed;
  member = find_member (has_tx_id tx_id) rows t found;
  its_id = (text_eq_iff _ _).0 (find_holds (has_tx_id tx_id) rows t found);
}
