-- ===== src/Verifier/Untouched.antt =====
-- What the judgement of a deposit leaves alone: the table of mint intents (tron_verifier.rs,
-- `gasfree_verdict`, `stuck_intent_sweep`).
use clutch_treasury.Base.{
  ℕ, ◌≡◌, inl, inr, refl, ◌∙◌, Bool, Option, none, some, List, [], ◌∷◌, arith, Bool-cases,
  Option-cases, Text, text_eq, option_text_eq,
}
use clutch_treasury.Base.Int.{ℤ}
use clutch_treasury.Store.{
  MintIntent, Db, Severity, Source, Notice, p1, warn, tron_verifier, unresolved_day,
  unresolved_half_hour,
}
use clutch_treasury.Ledger.{alert_once}
use clutch_treasury.Intents.{is_bsc}
use clutch_treasury.Verifier.Evaluate.{GasfreeSettings, Addresses}
use clutch_treasury.Verifier.Judge.{
  Faults, IndexAddresses, record_account, size_mint, gasfree_verdict, own_account, classify,
  at_derivation, insert_account,
}
use clutch_treasury.Verifier.Approve.{stuck_intent_sweep, alert_stuck}
use clutch_treasury.Verifier.{VerifierConfig, Answers, verdict_of, tron_verdict}

alert_once-intents :
    (seconds now : ℕ) (severity : Severity) (source : Source) (message : Notice) (db : Db)
    → (alert_once seconds now severity source message db).mint_intents ≡ db.mint_intents
unfolding alert_once
alert_once-intents seconds now severity source message db = ground arith

alert_stuck-intents :
    (now : ℕ) (i : MintIntent) (db : Db) → (alert_stuck now i db).mint_intents ≡ db.mint_intents
alert_stuck-intents now i db = ground (
  arith,
  alert_once-intents 3600 now p1 tron_verifier (unresolved_day i.id) db,
  alert_once-intents 3600 now warn tron_verifier (unresolved_half_hour i.id) db,
)

pub stuck_intent_sweep-intents :
    (now : ℕ) (rows : List MintIntent) (db : Db)
    → (stuck_intent_sweep now rows db).mint_intents ≡ db.mint_intents
unfolding stuck_intent_sweep
stuck_intent_sweep-intents now [] db = refl
stuck_intent_sweep-intents now (i ∷ rows) db =
    stuck_intent_sweep-intents now rows (alert_stuck now i db) ∙ alert_stuck-intents now i db

record_account-intents :
    (faults : Faults) (index : ℤ) (address owner : Text) (db : Db)
    → (record_account faults index address owner db).1.mint_intents ≡ db.mint_intents
unfolding record_account
record_account-intents faults index address owner db =
    elim (Option-cases (insert_account faults index address owner db.gasfree_accounts)) [
      | inl refused ↦ rw refused refl
      | inr rows ↦ rw rows.1 (ground arith)
    ]

size_mint-intents :
    (settings : GasfreeSettings) (address : Text) (observed : ℤ) (r : Option Bool × Db)
    → (size_mint settings address observed r).1.mint_intents ≡ r.1.mint_intents
unfolding size_mint
size_mint-intents settings address observed (none, db) = refl
size_mint-intents settings address observed (some seen, db) = refl

module _ (faults : Faults) (now : ℕ) (settings : GasfreeSettings) (addresses : Addresses) where
  own_account-intents :
      (index : ℤ) (a : IndexAddresses) (address : Text) (observed : ℤ) (db : Db) (o : Option Text)
      → (own_account faults now settings index a address observed db o).1.mint_intents
        ≡ db.mint_intents
  own_account-intents index a address observed db none = refl
  own_account-intents index a address observed db (some ours) =
      elim (Bool-cases (option_text_eq a.gasfree (some ours))) [
        | inr differs ↦ rw differs (alert_once-intents 3600 now _ _ _ db)
        | inl agrees ↦ elim (Bool-cases (text_eq address ours)) [
          | inr other ↦ rw (agrees, other) refl
          | inl same ↦
              rw (agrees, same)
                (size_mint-intents settings address observed
                    (record_account faults index address a.plain db)
                  ∙ record_account-intents faults index address a.plain db)
        ]
      ]

  classify-intents :
      (index : ℤ) (address : Text) (observed : ℤ) (db : Db) (o : Option IndexAddresses)
      → (classify faults now settings addresses index address observed db o).1.mint_intents
        ≡ db.mint_intents
  classify-intents index address observed db none = refl
  classify-intents index address observed db (some a) =
      elim (Bool-cases (text_eq address a.plain)) [
        | inl plain ↦ rw plain refl
        | inr other ↦
            rw other
              (own_account-intents index a address observed db (addresses.gasfree_address a.plain))
      ]

  gasfree_verdict-intents :
      (signer : ℤ → Option IndexAddresses) (i : MintIntent) (observed : ℤ) (db : Db)
      → (gasfree_verdict faults now settings addresses signer i observed db).1.mint_intents
        ≡ db.mint_intents
  unfolding gasfree_verdict
  gasfree_verdict-intents signer i observed db = by_index i.derivation_index
    where
      by_index :
          (o : Option ℤ)
          → (at_derivation faults now settings addresses signer i observed db o).1.mint_intents
            ≡ db.mint_intents
      by_index none = refl
      by_index (some index) = classify-intents index _ observed db (signer index)

pub verdict_of-intents :
    (config : VerifierConfig) (a : Answers) (now : ℕ) (i : MintIntent) (observed : ℤ) (db : Db)
    → (verdict_of config a now i observed db).1.mint_intents ≡ db.mint_intents
unfolding verdict_of
verdict_of-intents config a now i observed db = elim (Bool-cases (is_bsc i.network)) [
  | inl yes_bsc ↦ rw yes_bsc refl
  | inr on_tron ↦ rw on_tron (by_route i.direct_from config.tron_config.gasfree)
]
  where
    by_route :
        (from : Option Text) (g : Option GasfreeSettings)
        → (tron_verdict config a now i observed db from g).1.mint_intents ≡ db.mint_intents
    by_route (some from) g = refl
    by_route none none = refl
    by_route none (some settings) =
        gasfree_verdict-intents a.faults now settings config.addresses a.signer i observed db
