-- ===== src/Tests/Deposits.antt =====
-- A deposit of 10 USDT at the address of an intent of 9 CLT, its transfer, and what the verifier
-- makes of them.
use clutch_treasury.Base.{
  ℕ, ◌+◌, ◌≤◌, ◌≡◌, refl, true, false, none, some, [], ◌∷◌, codes, text_eq, if◌then◌else◌, find,
  exists_row, update, AtMostOne, arith,
}
use clutch_treasury.Base.Int.{ℤ, pos, negsuc, ◌≤ℤ◌, ◌<ℤ◌, ◌+ℤ◌}
use clutch_treasury.Store.{MintIntent, MintStatus, Db, custody_deposit}
use clutch_treasury.Ledger.{balances, is_event_of}
use clutch_treasury.Intents.{has_id, find_by_id}
use clutch_treasury.ServiceFee.Split.{total_clt}
use clutch_treasury.Verifier.Client.{Trc20Transfer, Page, TronNode, trc20_transfers}
use clutch_treasury.Verifier.Pages.{Listed, trc20_transfers_iff}
use clutch_treasury.Verifier.Evaluate.{TronConfig, Addresses, evaluate, pass}
use clutch_treasury.Verifier.Backing.{EvidenceMeans}
use clutch_treasury.Verifier.Decided.{evaluate-Means}
use clutch_treasury.Verifier.Judge.{Faults}
use clutch_treasury.Verifier.Approve.{approve_and_ledger}
use clutch_treasury.Verifier.Books.{approve_and_ledger-balances}
use clutch_treasury.Verifier.Within.{approve_and_ledger-Within}
use clutch_treasury.Verifier.Again.{approve_and_ledger_twice}
use clutch_treasury.Verifier.Steps.{to_mint}
use clutch_treasury.GasfreeRail.{deposit_mint}
use clutch_treasury.Verifier.Caps.{CapMeans, deposit_mint-Means}
use clutch_treasury.Tests.Sample.{at_noon, treasury, mint_of}

abbrev pub deposit : MintIntent
deposit = record (mint_of 3 9 MintStatus.created) {
  credit_ref = codes "ref3";
  client_ref = some (codes "dep-3");
  expected_amount_usdt = some (pos 10);
  deposit_address = some (codes "T9");
  deposit_tx_id = some (codes "h1");
}

abbrev pub waiting : Db
waiting = record treasury { mint_intents = deposit ∷ [] }

abbrev transfer : Trc20Transfer
transfer = record {
  transaction_id = codes "h1";
  to = codes "T9";
  from = codes "T5";
  value = codes "10";
  token = codes "U";
  event_type = codes "Transfer";
  block_timestamp = pos 999000000;
}

abbrev page : Page
page = record { data_rows = transfer ∷ []; fingerprint = none }

abbrev pub node : TronNode
node = record {
  page = λ address from cursor. some page;
  transaction =
      λ tx_id. some (record { tx_id = some (codes "H1"); ret = some (codes "SUCCESS" ∷ []) });
  balance_word = λ address. none;
}

abbrev pub tron_settings : TronConfig
tron_settings = record {
  usdt_contract = codes "U";
  deposit_match_window_hours = 24;
  direct_topups_enabled = false;
  custody_tron_address = codes "T0";
  payout_float_address = codes "T1";
  gasfree = none;
}

abbrev pub address_book : Addresses
address_book = record { gasfree_address = λ plain. none; base58check = λ bytes. bytes }

abbrev pub sound : Faults
sound = record {
  known_read = false;
  account_insert = false;
  account_read = false;
  backfill = false;
  approval = false;
  rejection = false;
}

listed : trc20_transfers node (codes "T9") none ≡ some (transfer ∷ [])
unfolding trc20_transfers
listed = refl

trc20_transfers_iff_example : Listed (node.page (codes "T9") none) 10 none (transfer ∷ [])
trc20_transfers_iff_example = (trc20_transfers_iff node (codes "T9") none (transfer ∷ [])).0 listed

passes : evaluate node tron_settings address_book deposit ≡ pass (codes "h1") (pos 10)
unfolding evaluate find
passes = refl

positive : (expected : ℤ) → deposit.expected_amount_usdt ≡ some expected → pos 0 <ℤ expected
positive (pos n) e = ground (arith, e)
positive (negsuc n) e = cc

evaluate-Means_example :
    EvidenceMeans node tron_settings address_book deposit
      (evaluate node tron_settings address_book deposit)
evaluate-Means_example = evaluate-Means node tron_settings address_book deposit positive

unfoldable pub recorded : Db
unfolding approve_and_ledger
recorded =
    elim (approve_and_ledger sound at_noon 3 (pos 10) (codes "h1") MintStatus.approved
      (some (pos 8)) none 9 (codes "f9") waiting) [ none ↦ waiting | some r ↦ r.1 ]

records :
    approve_and_ledger sound at_noon 3
      (pos 10)
      (codes "h1")
      MintStatus.approved
      (some (pos 8))
      none
      9
      (codes "f9")
      waiting
    ≡ some (true, recorded)
unfolding approve_and_ledger recorded exists_row update text_eq
records = refl

approve_and_ledger-balances_example :
    ((balances recorded).clt_liability ≡ (balances waiting).clt_liability)
    × ((balances recorded).custody_usdt ≡ (
        if exists_row (is_event_of 3 custody_deposit) waiting.treasury_events
        then (balances waiting).custody_usdt
        else (balances waiting).custody_usdt +ℤ pos 10))
approve_and_ledger-balances_example =
    approve_and_ledger-balances sound at_noon 3 (pos 10) (codes "h1") MintStatus.approved
      (some (pos 8)) none 9 (codes "f9") waiting recorded records

found : find_by_id 3 waiting ≡ some deposit
unfolding find_by_id find
found = refl

one : AtMostOne (has_id 3) waiting.mint_intents
unfolding exists_row
one = (λ e. refl, tt)

approve_and_ledger-Within_example :
    (minted : ℕ) × (total_clt recorded + 9 ≡ total_clt waiting + minted)
    × (1 ≤ minted)
    × (minted ≤ 9)
    × (pos minted ≤ℤ pos 8)
    × (pos minted ≤ℤ pos 10)
approve_and_ledger-Within_example =
    approve_and_ledger-Within sound at_noon 3 (pos 10) (codes "h1") MintStatus.approved (pos 8) none
      9 (codes "f9") waiting recorded deposit tt found one (omega arith) (omega arith) records

approve_and_ledger_twice_example :
    approve_and_ledger sound 2000000 3
      (pos 11)
      (codes "h2")
      MintStatus.needs_manual
      none
      none
      10
      (codes "f10")
      recorded
    ≡ (if sound.approval then none else some (false, recorded))
approve_and_ledger_twice_example =
    approve_and_ledger_twice sound sound at_noon 2000000 3 (pos 10) (pos 11) (codes "h1")
      (codes "h2") MintStatus.approved MintStatus.needs_manual (some (pos 8)) none none none 9 10
      (codes "f9") (codes "f10") waiting recorded to_mint records

deposit_mint-Means_example :
    CapMeans (pos 10) (pos 2) (pos 5) (deposit_mint (pos 10) (pos 2) (pos 5))
deposit_mint-Means_example =
    deposit_mint-Means (pos 10) (pos 2) (pos 5) (omega arith, omega arith)
      (omega arith, omega arith) (omega arith)
