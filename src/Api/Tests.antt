-- ===== src/Api/Tests.antt =====
-- Requests against a policed route and problem documents, and the theorems at concrete inputs.
use mathlib.Core.Path.{◌≡◌, refl}
use mathlib.Core.Logic.{◌↔◌, ◌⊎◌}
use mathlib.Core.Bool.{Bool, true}
use mathlib.Core.Option.{Option, none, some}
use mathlib.Core.List.{[], ◌∷◌, ◌++◌}
use aircraft_api_r.Prelude.{ok, err, nat_eq}
use aircraft_api_r.Prelude.Text.{Text, codes, text_eq, len, split_once, splitn}
use aircraft_api_r.App.Auth.Scope.{catalog_read, admin, has_scope}
use aircraft_api_r.App.Auth.Credential.{credential_parse, of_segments, verifier_eq}
use aircraft_api_r.App.Auth.Authentication.{
  AuthenticatedPrincipal, authenticate, after_lookup, judge, principal_of,
}
use aircraft_api_r.App.Auth.Tests.{ids, digests, token, presented, registered, known}
use aircraft_api_r.Api.Problem.{ApiProblem, not_found}
use aircraft_api_r.Api.Problem.Instance.{
  Uri, IsInstance, bounded_instance, invalid_instance, oversized_instance,
  bounded_instance-IsInstance,
}
use aircraft_api_r.Api.Problem.Response.{Agrees, into_response, into_response-Agrees}
use aircraft_api_r.Api.Bearer.{
  Request, Platform, authorization, candidate_of, bearer_token, single_value, token_after_scheme,
  get_all,
}
use aircraft_api_r.Prelude.Text.Search.{eq_ignore_ascii_case}
use aircraft_api_r.Api.Policed.{screen}
use aircraft_api_r.Api.Policed.Screening.{
  Identifies, passed_on, admission, screen_ok_iff, screen_charges, screen_unidentified,
}
use aircraft_api_r.RateLimit.Quota.{Quota}
use aircraft_api_r.RateLimit.Limiter.{RateLimiter, admitted, limiter_new}

abbrev plain : Text → Option Uri
plain t = some (record { scheme = none; authority = none; path = t; query = none })

abbrev platform : Platform Bool
platform = record {
  to_str = λ bytes. some bytes;
  parse_uri = plain;
  digests = digests;
  uuids = ids;
}

abbrev one : Quota
one = record { capacity = 1; refill_per_second = 1 }

abbrev limiter : RateLimiter
limiter = limiter_new (record { default = one; tiers = []; max_buckets = 2 })

abbrev request : Request
request = record {
  headers = (authorization, codes "bearer " ++ token) ∷ (codes "accept", codes "*/*") ∷ [];
  uri_path = codes "/models";
  original_path = some (codes "/v1/models");
  body = [];
  principal = none;
}

abbrev caller : AuthenticatedPrincipal
caller = principal_of known

identified : Identifies platform registered request caller
unfolding candidate_of bearer_token single_value token_after_scheme get_all eq_ignore_ascii_case
    authenticate after_lookup judge verifier_eq text_eq split_once credential_parse of_segments len
    splitn
identified = (presented, refl, refl)

screen_ok_iff_example :
    (screen platform registered (some catalog_read) limiter 5 request ≡ (
      (admission platform registered limiter caller 5).0,
      ok (passed_on platform registered request caller),
    ))
    ↔ ((p : AuthenticatedPrincipal) × Identifies platform registered request p
        × (admission platform registered limiter p 5
            ≡ ((admission platform registered limiter caller 5).0, admitted))
        × (has_scope catalog_read p.scopes ≡ true)
        × (passed_on platform registered request caller ≡ passed_on platform registered request p))
screen_ok_iff_example =
    screen_ok_iff platform registered catalog_read limiter
      (admission platform registered limiter caller 5).0 5 request
      (passed_on platform registered request caller)

-- The caller lacks the scope, and is charged all the same.
screen_charges_example :
    (screen platform registered (some admin) limiter 5 request).0
    ≡ (admission platform registered limiter caller 5).0
screen_charges_example =
    screen_charges platform registered admin limiter 5 request caller identified

abbrev anonymous : Request
anonymous = record request { headers = [] }

unidentified_anonymous : (p : AuthenticatedPrincipal) → ¬ Identifies platform registered anonymous p
unfolding candidate_of bearer_token single_value get_all
unidentified_anonymous p (c, found, accepted) = cc

screen_unidentified_example :
    (problem : ApiProblem) × (screen platform registered (some admin) limiter 5 anonymous
      ≡ (limiter, err problem))
screen_unidentified_example =
    screen_unidentified platform registered admin limiter 5 anonymous unidentified_anonymous

into_response-Agrees_example :
    Agrees (into_response (record { kind = not_found; instance_path = codes "/v1/models/x" }))
into_response-Agrees_example =
    into_response-Agrees (record { kind = not_found; instance_path = codes "/v1/models/x" })

bounded_instance-IsInstance_example :
    IsInstance (bounded_instance plain (codes "/v1/models"))
    × ((bounded_instance plain (codes "/v1/models") ≡ codes "/v1/models")
        ⊎ (bounded_instance plain (codes "/v1/models") ≡ invalid_instance)
        ⊎ (bounded_instance plain (codes "/v1/models") ≡ oversized_instance))
bounded_instance-IsInstance_example = bounded_instance-IsInstance plain (codes "/v1/models")
