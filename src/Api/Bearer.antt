-- ===== src/Api/Bearer.antt =====
-- Bearer authentication: `authenticate` and `bearer_token` of
-- crates/aircraft_api/src/authentication.rs. `HeaderValue::to_str` is a parameter.
use Prim.Native.Nat.{ℕ}
use mathlib.Core.Path.{◌≡◌, refl}
use mathlib.Core.Option.{Option, none, some}
use mathlib.Core.List.{List, [], ◌∷◌}
use native.Mathlib.Omega.{arith}
use aircraft_api_r.Prelude.{if◌then◌else◌, Result, ok, err}
use aircraft_api_r.Prelude.Text.{Text, codes, text_eq, split_once}
use aircraft_api_r.Prelude.Text.Search.{and_then, eq_ignore_ascii_case}
use aircraft_api_r.App.Persistence.{PersistenceError, database, invariant}
use aircraft_api_r.App.Auth.Credential.{Digests, Uuids, CredentialCandidate, credential_parse}
use aircraft_api_r.App.Auth.Authentication.{
  CredentialLookupRecord, AuthenticatedPrincipal, AuthenticationError, rejected, unavailable,
  authenticate,
}
use aircraft_api_r.Api.Problem.{
  ApiProblem, ProblemKind, authentication_required, database_unavailable, internal,
}
use aircraft_api_r.Api.Problem.Instance.{Uri, problem_new}

-- A request, with the path that the caller sent if the router kept it, and the principal once
-- it is known. A header's value is bytes.
pub record Request : Type 0 where
  pub headers : List (Text × List ℕ)
  pub uri_path : Text
  pub original_path : Option Text
  pub body : Text
  pub principal : Option AuthenticatedPrincipal

abbrev pub authorization : Text
authorization = codes "authorization"

-- `HeaderMap::get_all`
unfoldable pub get_all : Text → List (Text × List ℕ) → List (List ℕ)
get_all name [] = []
get_all name ((n, v) ∷ headers) =
    let rest = get_all name headers in if text_eq n name then v ∷ rest else rest

-- `HeaderMap::remove`
unfoldable pub remove : Text → List (Text × List ℕ) → List (Text × List ℕ)
remove name [] = []
remove name ((n, v) ∷ headers) =
    let rest = remove name headers in if text_eq n name then rest else (n, v) ∷ rest

pub get_all-remove : (name : Text) (h : List (Text × List ℕ)) → get_all name (remove name h) ≡ []
unfolding get_all remove
get_all-remove name [] = refl
get_all-remove name ((n, v) ∷ h) = ground (arith, get_all-remove name h)

-- The scheme and what follows it.
unfoldable pub token_after_scheme : Option (Text × Text) → Option Text
token_after_scheme none = none
token_after_scheme (some (scheme, token)) =
    if eq_ignore_ascii_case scheme (codes "Bearer") then some token else none

abbrev pub result_ok {ℓ κ} : {E : Type ℓ} {A : Type κ} → Result E A → Option A
result_ok (ok a) = some a
result_ok (err e) = none

-- What the crate takes from others: header text, URIs, digests and UUIDs.
pub record Platform (Uuid : Type 0) : Type 0 where
  pub to_str : List ℕ → Option Text
  pub parse_uri : Text → Option Uri
  pub digests : Digests
  pub uuids : Uuids Uuid

module _ {Uuid : Type 0} (platform : Platform Uuid) where
  -- One value and no other.
  unfoldable pub single_value : List (List ℕ) → Option Text
  single_value (value ∷ []) =
      and_then (platform.to_str value) (λ s. token_after_scheme (split_once b' ' s))
  single_value _ = none

  unfoldable pub bearer_token : List (Text × List ℕ) → Option Text
  bearer_token headers = single_value (get_all authorization headers)

  unfoldable pub candidate_of : List (Text × List ℕ) → Option (CredentialCandidate Uuid)
  candidate_of headers =
      and_then (bearer_token headers)
        (λ token. result_ok (credential_parse platform.digests platform.uuids token))

  abbrev pub api_problem : ProblemKind → Text → ApiProblem
  api_problem = problem_new platform.parse_uri

  unfoldable pub to_problem : Text → AuthenticationError → ApiProblem
  to_problem path rejected = api_problem authentication_required path
  to_problem path (unavailable (database code message)) = api_problem database_unavailable path
  to_problem path (unavailable (invariant message)) = api_problem internal path

  unfoldable pub map_problem :
      Text
      → Result AuthenticationError AuthenticatedPrincipal
      → Result ApiProblem AuthenticatedPrincipal
  map_problem path (ok p) = ok p
  map_problem path (err e) = err (to_problem path e)

  unfoldable pub with_candidate :
      (Uuid → Result PersistenceError (Option CredentialLookupRecord))
      → Text
      → Option (CredentialCandidate Uuid)
      → Result ApiProblem AuthenticatedPrincipal
  with_candidate resolve path none = err (api_problem authentication_required path)
  with_candidate resolve path (some c) = map_problem path (authenticate platform.digests resolve c)

  -- The request comes back without its `Authorization` header.
  unfoldable pub authenticate_request :
      (Uuid → Result PersistenceError (Option CredentialLookupRecord))
      → Request
      → Text
      → Result ApiProblem AuthenticatedPrincipal × Request
  authenticate_request resolve request path = (
    with_candidate resolve path (candidate_of request.headers),
    record request { headers = remove authorization request.headers },
  )
