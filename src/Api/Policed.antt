-- ===== src/Api/Policed.antt =====
-- Route policies: `RoutePolicy`, `Policed::call` and the inventory of
-- crates/aircraft_api/src/routes/mod.rs. A handler is a function of the request; the trace events
-- are left out.
pub mod Screening
pub mod Inventory
use Prim.Native.Nat.{ℕ, suc, ◌*◌}
use mathlib.Core.Bool.{Bool, true, false}
use mathlib.Core.Option.{Option, none, some, get_or}
use mathlib.Core.List.{List, [], ◌∷◌}
use aircraft_api_r.Prelude.{if◌then◌else◌, Result, ok, err}
use aircraft_api_r.Prelude.Text.{Text}
use aircraft_api_r.Prelude.Integers.{ℤ, pos, negsuc}
use aircraft_api_r.App.Persistence.{PersistenceError}
use aircraft_api_r.App.Auth.Scope.{
  Scope, catalog_read, military_read, curation_read, curation_write, admin, has_scope,
}
use aircraft_api_r.App.Auth.Authentication.{CredentialLookupRecord, AuthenticatedPrincipal}
use aircraft_api_r.Api.Problem.{
  ApiProblem, insufficient_scope, rate_limited, overloaded, from_scope,
}
use aircraft_api_r.Api.Problem.Response.{Response, into_response}
use aircraft_api_r.Api.Bearer.{Request, Platform, authenticate_request, api_problem}
use aircraft_api_r.RateLimit.Limiter.{RateLimiter, Admission, admitted, refused, saturated, admit}

pub data RoutePolicy : Type 0 where
  public_route : RoutePolicy
  reads_catalog : RoutePolicy
  reads_military : RoutePolicy
  reads_curation : RoutePolicy
  writes_curation : RoutePolicy
  administers : RoutePolicy

unfoldable pub required_scope : RoutePolicy → Option Scope
required_scope public_route = none
required_scope reads_catalog = some catalog_read
required_scope reads_military = some military_read
required_scope reads_curation = some curation_read
required_scope writes_curation = some curation_write
required_scope administers = some admin

-- The limiter's number for a principal: identifiers are only compared, and different ones have
-- different numbers.
abbrev pub principal_number : ℤ → ℕ
principal_number (pos n) = 2 * n
principal_number (negsuc n) = suc (2 * n)

abbrev pub instance_of : Request → Text
instance_of request = get_or request.original_path request.uri_path

module _ {Uuid : Type 0} (platform : Platform Uuid)
    (resolve : Uuid → Result PersistenceError (Option CredentialLookupRecord)) where
  -- The scope comparison, once a token is spent.
  unfoldable pub check_scope :
      Scope → AuthenticatedPrincipal → Request → Text → Result ApiProblem Request
  check_scope required principal request path =
      if has_scope required principal.scopes
      then ok (record request { principal = some principal })
      else err (api_problem platform (insufficient_scope (from_scope required)) path)

  -- The match on the admission.
  unfoldable pub after_admission :
      Scope
      → AuthenticatedPrincipal
      → Request
      → Text
      → RateLimiter × Admission
      → RateLimiter × Result ApiProblem Request
  after_admission required principal request path (limiter, admitted) =
      (limiter, check_scope required principal request path)
  after_admission required principal request path (limiter, refused seconds) =
      (limiter, err (api_problem platform (rate_limited seconds) path))
  after_admission required principal request path (limiter, saturated) =
      (limiter, err (api_problem platform overloaded path))

  -- The match on the identity.
  unfoldable pub after_identity :
      Scope
      → RateLimiter
      → ℕ
      → Text
      → Result ApiProblem AuthenticatedPrincipal × Request
      → RateLimiter × Result ApiProblem Request
  after_identity required limiter now path (err problem, request) = (limiter, err problem)
  after_identity required limiter now path (ok principal, request) =
      after_admission required principal request path
        (admit limiter (principal_number principal.principal_id) principal.tier now)

  -- Everything before the handler: the request that it gets, or the problem that is answered.
  unfoldable pub screen :
      Option Scope → RateLimiter → ℕ → Request → RateLimiter × Result ApiProblem Request
  screen none limiter now request = (limiter, ok request)
  screen (some required) limiter now request =
      after_identity required limiter now (instance_of request)
        (authenticate_request platform resolve request (instance_of request))

  unfoldable pub answer : (Request → Response) → Result ApiProblem Request → Response
  answer handler (ok request) = handler request
  answer handler (err problem) = into_response problem

  unfoldable pub call :
      RoutePolicy → (Request → Response) → RateLimiter → ℕ → Request → RateLimiter × Response
  call policy handler limiter now request =
      let (limiter', screened) = screen (required_scope policy) limiter now request in
      (limiter', answer handler screened)
