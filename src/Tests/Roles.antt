-- ===== src/Tests/Roles.antt =====
-- The three tokens at the small treasury.
use clutch_treasury.Base.{◌≡◌, refl, none, some, codes, []}
use clutch_treasury.Api.{approver}
use clutch_treasury.Api.Routes.{Tokens, Authorities, caller_role, secret_eq, differs}
use clutch_treasury.Api.Requests.{Service, halt, serve}
use clutch_treasury.Api.Duties.{Permitted, serve-Permitted}
use clutch_treasury.Tests.Sample.{at_noon, treasury, settings}
use clutch_treasury.Tests.Requests.{api, no_address}

abbrev tokens : Tokens
tokens = record {
  initiator_token = codes "init";
  approver_token = codes "appr";
  readonly_token = codes "read";
}

abbrev nobody : Authorities
nobody = record { recover = λ i s. none; authority_set = [] }

abbrev service : Service
service = record {
  config = settings;
  api = api;
  authorities = nobody;
  tron_address_of = no_address;
}

-- One byte off is no token.
near_miss : caller_role tokens (some (codes "apps")) ≡ none
unfolding caller_role secret_eq differs
near_miss = refl

of_approver : caller_role tokens (some (codes "appr")) ≡ some approver
unfolding caller_role secret_eq differs
of_approver = refl

-- The approver halts minting.
serve-Permitted_example : Permitted tokens (some (codes "appr")) treasury (
    serve service at_noon (caller_role tokens (some (codes "appr"))) (halt (codes "stop")) treasury)
serve-Permitted_example =
    serve-Permitted service at_noon tokens (some (codes "appr")) (halt (codes "stop")) treasury
