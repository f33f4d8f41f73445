-- ===== src/Tests/Requests.antt =====
-- A deposit's intent is requested twice at the small treasury.
use clutch_treasury.Base.{false, Option, none, some, Text, codes}
use clutch_treasury.Base.Int.{pos}
use clutch_treasury.Api.{ApiConfig, CreateMintIntentBody, Fresh}

abbrev pub api : ApiConfig
api = record { bsc_pay_in = none; direct_topups_enabled = false; has_gasfree_float = false }

abbrev pub no_address : Text → Option Text
no_address t = none

abbrev request : CreateMintIntentBody
request = record {
  beneficiary = codes "0xab";
  amount_clt = pos 5;
  client_ref = some (codes "dep-1");
  deposit_tx_id = none;
  expected_amount_usdt = some (pos 5);
  deposit_address = some (codes "T9");
  derivation_index = some (pos 3);
  direct_from = none;
  network = none;
}

abbrev pub new_id : Fresh
new_id = record { id = 11; credit_ref = codes "ref11" }

abbrev pub other_id : Fresh
other_id = record { id = 12; credit_ref = codes "ref12" }
