-- ===== src/Tests/Arrivals.antt =====
-- Deposits at a small orchestrator, and what the treasury gets of them.
use clutch_treasury.Base.{
  ℕ, ◌⊎◌, arith, ◌+◌, ◌≡◌, refl, false, Option, none, some, List, [], ◌∷◌, if◌then◌else◌, map, Text,
  codes, text_eq, option_text_eq, exists_row, update, find, where_rows, order_by,
  eq_ignore_ascii_case,
}
use clutch_treasury.Base.Int.{ℤ, pos}
use clutch_treasury.Store.{MintIntent, MintStatus, tron, Db}
use clutch_treasury.Intents.{create_mint_intent_on, find_by_client_ref}
use clutch_treasury.Api.{
  initiator, Response, existing, created, create_mint_intent, create_by_ref, create_deposit,
  deposit_ok, insert_new, new_mint,
}
use clutch_treasury.Lifecycle.Runs.{Operation, approve, credit, run}
use clutch_treasury.Orchestrator.Store.{
  DepositStatus, DepositIntent, DepositAddress, OrchDb, ObservedTransfer,
}
use clutch_treasury.Orchestrator.Deposits.{
  find_by_id, insert_deposit, transition, set_tron_tx_id, set_received_usdt,
}
use clutch_treasury.Orchestrator.Custody.{CustodyWatcher}
use clutch_treasury.Orchestrator.Tiered.{poll, due_addresses, read_addresses, stamp, take}
use clutch_treasury.Orchestrator.Poller.{
  credit_transfer, user_for_address, credit_one, credit_all, credit_from_addresses, earliest,
  settle_legacy, legacy_step, due_intents, legacy_rows, sweep_expired, close_stale_watch_windows,
  poll_once,
}
use clutch_treasury.Orchestrator.Direct.{credit_direct, is_unattributed}
use clutch_treasury.Orchestrator.Bridge.{says, mint_request}
use clutch_treasury.Orchestrator.Life.{Grown}
use clutch_treasury.Orchestrator.Life.Unique.{IsUnique}
use clutch_treasury.Orchestrator.Life.Runs.{
  Work, polls, bridges, after_all, after_all-IsUnique, after_all-Grown, retry-creates_once,
}
use clutch_treasury.Orchestrator.Life.Reported.{IsReported, credit_direct-IsReported}
use clutch_treasury.Orchestrator.Life.Watermark.{lives_at, HandedOn, poll-HandedOn}
use clutch_treasury.Orchestrator.Life.Dust.{Stuck, settle_legacy-Stuck}
use clutch_treasury.Tests.Sample.{at_noon, treasury, mint_of}
use clutch_treasury.Tests.Requests.{api, no_address, new_id, other_id}

abbrev user_address : DepositAddress
user_address = record {
  user_pk = codes "0xaa";
  derivation_index = pos 3;
  address = codes "T9";
  clt_address = codes "0xaa";
  hot_until = none;
  last_polled_at = none;
  last_attempt_at = none;
  gasfree = false;
  bsc_address = none;
}

abbrev arrival : ObservedTransfer
arrival = record {
  tx_id = codes "t1";
  amount_usdt = pos 5;
  to = codes "T9";
  from = codes "T1";
  contract = codes "TU";
  block_timestamp = pos 900;
}

-- One that was credited, one that an old intent waits for.
abbrev known : DepositIntent
known = record {
  id = 1;
  user_pk = codes "0xaa";
  clt_address = codes "0xaa";
  amount_usdt = 7;
  amount_clt = 7;
  status = DepositStatus.confirmed;
  client_key = codes "t0";
  tron_tx_id = some (codes "t0");
  payment_window_closed = false;
  derivation_index = some (pos 3);
  deposit_address = some (codes "T9");
  expires_at = 100;
  treasury_intent_id = none;
  attempts = 0;
  next_attempt_at = 100;
  received_usdt = some 7;
  created_at = 100;
  transfer_at = none;
  direct_from = none;
  network = tron;
}

abbrev old_intent : DepositIntent
old_intent = record known {
  id = 2;
  status = DepositStatus.invoiced;
  client_key = codes "k2";
  tron_tx_id = none;
  deposit_address = some (codes "T8");
  expires_at = 5000;
  received_usdt = none;
}

abbrev small : OrchDb
small = record {
  deposit_intents = known ∷ old_intent ∷ [];
  deposit_addresses = user_address ∷ [];
  direct_payers =
      record {
        user_pk = codes "0xbb";
        tron_address = codes "T1";
        clt_address = codes "0xbb";
        created_at = 500;
      }
      ∷ [];
  direct_watch = [];
  direct_unattributed =
      record { tx_id = codes "t9"; from_address = codes "T1"; amount_usdt = pos 4 } ∷ [];
  bsc_payers = [];
  bsc_watch = [];
  bsc_unattributed = [];
  next_index = 4;
  alerts = [];
}

abbrev chain : CustodyWatcher
chain address since = if text_eq address (codes "T9") then some (arrival ∷ []) else some []

abbrev dust : ObservedTransfer
dust = record arrival { tx_id = codes "d1"; amount_usdt = pos 0; to = codes "T8" }

abbrev paid : ObservedTransfer
paid = record arrival {
  tx_id = codes "p1";
  amount_usdt = pos 7;
  to = codes "T8";
  block_timestamp = pos 950;
}

abbrev dusty : CustodyWatcher
dusty address since = some (paid ∷ dust ∷ [])

abbrev fresh_id : Text → ℕ
fresh_id tx_id = 3

abbrev exact : ℤ → Option ℤ
exact t = some t

abbrev name_of : ℕ → Text
name_of id = (100 + id) ∷ []

abbrev one_pass : List Work
one_pass =
    polls 2000 fresh_id exact (codes "TU") chain dusty
    ∷ bridges 3000 (λ n. 0) name_of
        (record { created_as = λ b. says 5; status_of = λ id. says (some (codes "credited")) })
    ∷ []

abbrev polled : OrchDb
polled = poll_once 2000 fresh_id exact (codes "TU") chain dusty small

-- The new transfer is credited; the old intent has the worthless one on it and stays.
polled_rows :
    map (λ i. i.status) polled.deposit_intents
    ≡ DepositStatus.confirmed ∷ DepositStatus.invoiced ∷ DepositStatus.confirmed ∷ []
unfolding poll_once credit_from_addresses poll due_addresses read_addresses stamp take credit_all
    credit_one credit_transfer user_for_address insert_deposit due_intents legacy_rows earliest
    settle_legacy set_tron_tx_id set_received_usdt transition sweep_expired
    close_stale_watch_windows update exists_row find where_rows order_by text_eq option_text_eq
polled_rows = refl

small-IsUnique : IsUnique small.deposit_intents
unfolding exists_row option_text_eq text_eq
small-IsUnique = record {
  one_tx = λ tx_id. ((λ e. refl), ((λ e. refl), tt));
  one_id = λ id. ground arith;
}

after_all-IsUnique_example : IsUnique (after_all one_pass small).deposit_intents
after_all-IsUnique_example = after_all-IsUnique one_pass small small-IsUnique

after_all-Grown_example :
    (j : DepositIntent) × (find_by_id 2 (after_all one_pass small) ≡ some j) × Grown old_intent j
unfolding find_by_id find
after_all-Grown_example = after_all-Grown one_pass 2 small old_intent refl

abbrev first_request : Response × Db
first_request =
    create_mint_intent api no_address at_noon new_id (some initiator) (mint_request name_of known)
      treasury

abbrev minted : Response → MintIntent
minted (created i) = i
minted _ = mint_of 0 0 MintStatus.failed

abbrev decided : List Operation
decided =
    approve (at_noon + 20) (minted first_request.0).id (codes "bob")
    ∷ credit (at_noon + 40) (minted first_request.0).id 7 (codes "c1")
    ∷ []

retry-creates_once_example :
    (j : DepositIntent) × (n : MintIntent) × (find_by_id 1 (after_all one_pass small) ≡ some j)
    × (mint_request name_of j ≡ mint_request name_of known)
    × (n.id ≡ (minted first_request.0).id)
    × (create_mint_intent api no_address
          (at_noon + 60)
          other_id
          (some initiator)
          (mint_request name_of j)
          (run decided first_request.1)
        ≡ (existing n, run decided first_request.1))
unfolding find_by_id create_mint_intent create_by_ref create_deposit deposit_ok insert_new new_mint
    create_mint_intent_on find_by_client_ref find exists_row text_eq eq_ignore_ascii_case
retry-creates_once_example =
    retry-creates_once one_pass decided name_of 1 7 (codes "t0") small known api api no_address
      no_address at_noon (at_noon + 60) new_id other_id treasury first_request.1
      (minted first_request.0) refl refl refl refl

again : CustodyWatcher
again address since = some (record arrival { tx_id = codes "t9"; to = codes "TP" } ∷ [])

credit_direct-IsReported_example :
    IsReported
      (codes "t9")
      (credit_direct 4000 fresh_id exact again (codes "TP") (codes "TU") small)
unfolding is_unattributed exists_row text_eq option_text_eq
credit_direct-IsReported_example =
    credit_direct-IsReported 4000 fresh_id exact again (codes "TP") (codes "TU") (codes "t9") small
      (record { listed = refl; uncredited = refl })

settle_legacy-Stuck_example :
    Stuck 2 small (legacy_step 2000 exact 2 (codes "T8") (some (paid ∷ dust ∷ [])) small)
unfolding earliest exists_row
settle_legacy-Stuck_example =
    settle_legacy-Stuck 2000 exact 2 (codes "T8") (paid ∷ dust ∷ []) dust small refl refl refl

poll-HandedOn_example :
    (b : DepositAddress) × (find
        (lives_at user_address.address)
        (poll 2000 50 chain small).1.deposit_addresses
      ≡ some b)
    × ((b.last_polled_at ≡ user_address.last_polled_at)
        ⊎ ((b.last_polled_at ≡ some 2000)
            × HandedOn chain user_address.address user_address.last_polled_at
                (poll 2000 50 chain small).0))
unfolding find exists_row text_eq
poll-HandedOn_example = poll-HandedOn 2000 50 chain small user_address (λ e. refl, tt) refl
