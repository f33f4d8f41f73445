-- ===== src/Api/Duties.antt =====
-- The separation of duties (crates/treasury-service/src/api.rs).
use clutch_treasury.Base.{
  ℕ, Bool, true, false, ◌||◌, not, ◌==◌, ◌≡◌, inl, inr, refl, Option, none, some, [], ◌∷◌,
  Bool-cases, ap, length, Text, arith,
}
use clutch_treasury.Store.{Db}
use clutch_treasury.Api.{readonly, create_mint_intent}
use clutch_treasury.Api.Routes.{
  differs, secret_eq, Tokens, caller_role, approve_mint_intent_handler,
  create_redemption_intent_handler, halt_handler, resume_handler, custody_deposits_handler,
}
use clutch_treasury.Api.Requests.{
  Service, Request, propose, approve, redeem, halt, resume, deposit_custody, serve, OnlyProposed,
  NothingProposed,
}
use clutch_treasury.Api.Approves.{serve-approver}
use clutch_treasury.Api.Proposes.{serve-initiator}

-- What a bearer of `token` may have done.
pub data Permitted (tokens : Tokens) (token : Option Text) (db db' : Db) : Type 0 where
  nothing : db' ≡ db → Permitted tokens token db db'
  as_initiator :
      token ≡ some tokens.initiator_token → OnlyProposed db db' → Permitted tokens token db db'
  as_approver :
      token ≡ some tokens.approver_token → NothingProposed db db' → Permitted tokens token db db'

differs_lem :
    (seen : Bool) (s t : Text)
    → length s ≡ length t
    → differs seen s t ≡ false
    → (seen ≡ false) × (s ≡ t)
unfolding differs
differs_lem seen [] [] l e = (e, refl)
differs_lem seen [] (b ∷ t) l e = absurd (ground arith)
differs_lem seen (a ∷ s) [] l e = absurd (ground arith)
differs_lem seen (a ∷ s) (b ∷ t) l e =
    let rest = differs_lem (seen || not (a == b)) s t (ground arith) e in
    (ground (arith, rest.0), ground (arith, rest.1, rest.0))

secret_eq-exact : (s t : Text) → secret_eq s t ≡ true → s ≡ t
unfolding secret_eq
secret_eq-exact s t e = (differs_lem false s t (ground arith) (ground arith)).1

serve-nobody :
    (s : Service) (now : ℕ) (request : Request) (db : Db)
    → (serve s now none request db ≡ db) × (serve s now (some readonly) request db ≡ db)
unfolding create_mint_intent approve_mint_intent_handler create_redemption_intent_handler
    halt_handler resume_handler custody_deposits_handler
serve-nobody s now (propose fresh b) db = (refl, refl)
serve-nobody s now (approve id signature) db = (refl, refl)
serve-nobody s now (redeem float_active id redemption_ref b) db = (refl, refl)
serve-nobody s now (halt reason) db = (refl, refl)
serve-nobody s now resume db = (refl, refl)
serve-nobody s now (deposit_custody amount_usdt reference) db = (refl, refl)

-- A request to propose, approve, redeem, halt, resume or record custody leaves the database as it
-- is unless it comes with the exact token of the initiator or of the approver. With the
-- initiator's it only adds intents that nobody has approved or burned for; with the approver's it
-- changes no redemption and adds, drops or renumbers no mint intent.
pub serve-Permitted :
    (s : Service) (now : ℕ) (tokens : Tokens) (token : Option Text) (request : Request) (db : Db)
    → Permitted tokens token db (serve s now (caller_role tokens token) request db)
unfolding caller_role
serve-Permitted s now tokens none request db = nothing (serve-nobody s now request db).0
serve-Permitted s now tokens (some token) request db =
    elim (Bool-cases (secret_eq token tokens.initiator_token)) [
      | inl own ↦ rw own (
          as_initiator (ap some (secret_eq-exact token tokens.initiator_token own))
            (serve-initiator s now request db))
      | inr other ↦ elim (Bool-cases (secret_eq token tokens.approver_token)) [
        | inl own ↦
            rw (other, own)
              (as_approver (ap some (secret_eq-exact token tokens.approver_token own))
                (serve-approver s now request db))
        | inr third ↦ elim (Bool-cases (secret_eq token tokens.readonly_token)) [
          | inl own ↦ rw (other, third, own) (nothing (serve-nobody s now request db).1)
          | inr none_of_them ↦
              rw (other, third, none_of_them) (nothing (serve-nobody s now request db).0)
        ]
      ]
    ]
