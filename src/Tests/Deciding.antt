-- ===== src/Tests/Deciding.antt =====
-- Passes of the verifier over one deposit, with the node answering and with it down; a BSC top-up;
-- an address as a word; and a run of the operations.
use clutch_treasury.Base.{
  ℕ, ◌≡◌, refl, true, none, some, List, [], ◌∷◌, Text, codes, text_eq, find, exists_row, update,
  where_rows, sym, subst,
}
use clutch_treasury.Base.Int.{pos}
use mathlib.Core.List.{Memᴰ}
use clutch_treasury.Store.{MintIntent, bsc}
use clutch_treasury.Intents.{find_by_id}
use clutch_treasury.Bsc.{Transfer, normalize_address, address_word, word_address}
use clutch_treasury.Bsc.Words.{word_address-address_word}
use clutch_treasury.BscVerifier
use clutch_treasury.BscVerifier.{BscNode, Receipt, Witness, witness_of, evaluate_bsc}
use clutch_treasury.BscVerifier.Sound.{OnPass}
use clutch_treasury.BscVerifier.Backing.{Backing, evaluate_bsc-Means}
use clutch_treasury.Verifier.Client.{trc20_transfers}
use clutch_treasury.Verifier.Evaluate.{transient, pass}
use clutch_treasury.Verifier.Passes.{Decisive}
use clutch_treasury.Verifier.Waits.{verify_once-spares}
use clutch_treasury.Verifier.Claims.{IsUnique, verify_once-IsUnique}
use clutch_treasury.Verifier.{VerifierConfig, Answers, verify_once, evidence_for}
use clutch_treasury.Lifecycle.{Reach}
use clutch_treasury.Lifecycle.Runs.{Operation, verify, credit, run, is_final, run-Follows}
use clutch_treasury.Tests.Sample.{at_noon}
use clutch_treasury.Tests.Deposits.{deposit, waiting, node, tron_settings, address_book, sound}

abbrev config : VerifierConfig
config = record {
  tron_config = tron_settings;
  addresses = address_book;
  service_fee = none;
  bsc_settings = none;
}

abbrev silent_bsc : BscNode
silent_bsc = record {
  chain_id = none;
  receipt = λ hash. none;
  head = none;
  balance_of = λ a. none;
  bsc_address = λ k. none;
}

abbrev up : ℕ → Answers
up id = record {
  tron_node = node;
  bsc_node = silent_bsc;
  signer = λ k. none;
  faults = sound;
  fee_id = 9;
  fee_ref = codes "f9";
}

abbrev down : ℕ → Answers
down id = record (up id) {
  tron_node = record {
    page = λ address from cursor. none;
    transaction = λ tx_id. none;
    balance_word = λ address. none;
  };
}

approves : (verify_once config none up at_noon waiting).0 ≡ 1
unfolding verify_once where_rows find exists_row update
approves = refl

unclear : evidence_for config none (down 3) deposit ≡ transient
unfolding evidence_for trc20_transfers
unclear = refl

the_one : (r : MintIntent) → Memᴰ r (deposit ∷ []) → r ≡ deposit
the_one r (Memᴰ.head e) = e
the_one r (Memᴰ.tail m) = elim m [ ]

undecided : ¬ Decisive config none down waiting 3
undecided d = d.not_transient (
    subst (λ (r : MintIntent). evidence_for config none (down r.id) r ≡ transient)
      (sym (the_one d.row d.member)) unclear)

found : find_by_id 3 waiting ≡ some deposit
unfolding find_by_id find
found = refl

verify_once-spares_example :
    find_by_id 3 (verify_once config none down at_noon waiting).1 ≡ some deposit
verify_once-spares_example =
    verify_once-spares config none down at_noon waiting 3 deposit undecided found

unique : IsUnique waiting.mint_intents
unfolding exists_row
unique = record { one_id = λ id. (λ e. refl, tt); one_claim = λ t. (λ e. refl, tt) }

verify_once-IsUnique_example : IsUnique (verify_once config none up at_noon waiting).1.mint_intents
verify_once-IsUnique_example = verify_once-IsUnique config none up at_noon waiting unique

abbrev alice : Text
alice = codes "0x11111111111111111111111111111111111111AB"

abbrev alice_normal : Text
alice_normal = codes "0x11111111111111111111111111111111111111ab"

normal : normalize_address alice ≡ some alice_normal
unfolding normalize_address
normal = refl

word_address-address_word_example :
    (w : Text) × (address_word alice ≡ some w) × (word_address w ≡ some alice_normal)
word_address-address_word_example = word_address-address_word alice alice_normal normal

-- A top-up of 10 USDT at 6 decimals from Alice's wallet, mined in block 5 and seen from block 9.
abbrev pay_in : Text
pay_in = codes "0x2222222222222222222222222222222222222222"

abbrev hash : Text
hash = codes "0x3333333333333333333333333333333333333333333333333333333333333333"

abbrev bsc_settings : BscVerifier.Settings
bsc_settings = record {
  chain_id = 56;
  usdt_contract = codes "0x4444444444444444444444444444444444444444";
  usdt_decimals = 6;
  pay_in_address = pay_in;
  confirmations = 3;
}

abbrev moved : Transfer
moved = record {
  tx_hash = hash;
  log_index = 0;
  block_number = 5;
  contract = bsc_settings.usdt_contract;
  from = alice_normal;
  to = pay_in;
  value = 10;
}

abbrev bsc_up : BscNode
bsc_up = record silent_bsc {
  chain_id = some 56;
  receipt =
      λ h. some (some (record { succeeded = true; block_number = 5; transfers = moved ∷ [] }));
  head = some 9;
}

abbrev top_up : MintIntent
top_up = record deposit {
  beneficiary = alice;
  direct_from = some alice;
  deposit_address = none;
  deposit_tx_id = some hash;
  network = bsc;
}

evaluate_bsc-Means_example :
    OnPass
      (Backing (witness_of bsc_settings bsc_up) top_up)
      (evaluate_bsc (some (witness_of bsc_settings bsc_up)) top_up)
evaluate_bsc-Means_example = evaluate_bsc-Means (witness_of bsc_settings bsc_up) top_up

top_up_passes : evaluate_bsc (some (witness_of bsc_settings bsc_up)) top_up ≡ pass hash (pos 10)
unfolding evaluate_bsc text_eq
top_up_passes = refl

abbrev operations : List Operation
operations = verify config none up at_noon ∷ credit 2000000 3 9 (codes "c1") ∷ []

run-Follows_example :
    (j : MintIntent) × (find_by_id 3 (run operations waiting) ≡ some j)
    × Reach deposit.status j.status
    × (is_final deposit.status ≡ true → j.status ≡ deposit.status)
run-Follows_example = run-Follows operations waiting 3 deposit found
