-- ===== src/Api/Problem/Response.antt =====
-- The response of a problem: `IntoResponse for ApiProblem`.
use Prim.Native.Nat.{ℕ, ◌≤◌, ◌<◌}
use mathlib.Core.Path.{◌≡◌}
use mathlib.Core.Logic.{◌↔◌}
use mathlib.Core.Bool.{true}
use mathlib.Core.List.{[], ◌∷◌}
use native.Mathlib.Omega.{arith}
use aircraft_api_r.Prelude.{is_some}
use aircraft_api_r.Prelude.Text.{Text, Text-Eq, codes, text_eq}
use aircraft_api_r.Prelude.Dict.{Dict, lookup, contains}
use aircraft_api_r.Api.Problem.{
  ProblemKind, ProblemDetails, ApiProblem, details, contract, scope_member, authentication_required,
  rate_limited, insufficient_scope, malformed_input, validation_failed, not_found,
  method_not_allowed, conflict, payload_too_large, database_unavailable, shutting_down,
  shutdown_cancelled, overloaded, internal, deadline_exceeded,
}

-- A header's value: text, or a number that is written out.
pub data HeaderValue : Type 0 where
  static : Text → HeaderValue
  number : ℕ → HeaderValue

pub record Response : Type 0 where
  pub status : ℕ
  pub headers : Dict Text HeaderValue
  pub body : ProblemDetails

abbrev pub content_type : Text
content_type = codes "content-type"

abbrev pub www_authenticate : Text
www_authenticate = codes "www-authenticate"

abbrev pub retry_after : Text
retry_after = codes "retry-after"

-- The headers that a kind adds.
unfoldable pub added_headers : ProblemKind → Dict Text HeaderValue
added_headers authentication_required = (www_authenticate, static (codes "Bearer")) ∷ []
added_headers (rate_limited seconds) = (retry_after, number seconds) ∷ []
added_headers _ = []

unfoldable pub into_response : ApiProblem → Response
unfolding details added_headers
into_response self = record {
  status = (details self).status;
  headers = (content_type, static (codes "application/problem+json")) ∷ added_headers self.kind;
  body = details self;
}

-- What the parts of a response have to do with its status.
abbrev pub Agrees : Response → Type 0
Agrees r =
    (r.body.status ≡ r.status)
    × (400 ≤ r.status)
    × (r.status < 600)
    × ((contains www_authenticate r.headers ≡ true) ↔ (r.status ≡ 401))
    × ((contains retry_after r.headers ≡ true) ↔ (r.status ≡ 429))
    × ((is_some r.body.required_scope ≡ true) ↔ (r.status ≡ 403))

agrees :
    (kind : ProblemKind) (path : Text)
    → Agrees (into_response (record { kind = kind; instance_path = path }))
unfolding into_response details contract scope_member added_headers contains lookup text_eq
agrees malformed_input path = ground arith
agrees validation_failed path = ground arith
agrees authentication_required path = ground arith
agrees (insufficient_scope s) path = ground arith
agrees not_found path = ground arith
agrees method_not_allowed path = ground arith
agrees conflict path = ground arith
agrees payload_too_large path = ground arith
agrees (rate_limited n) path = ground arith
agrees database_unavailable path = ground arith
agrees shutting_down path = ground arith
agrees shutdown_cancelled path = ground arith
agrees overloaded path = ground arith
agrees internal path = ground arith
agrees deadline_exceeded path = ground arith

-- A problem's response has an error status, which its document repeats; it has `WWW-Authenticate`
-- exactly with 401 and `Retry-After` exactly with 429, and its document names a required scope
-- exactly with 403.
pub into_response-Agrees : (p : ApiProblem) → Agrees (into_response p)
into_response-Agrees p = agrees p.kind p.instance_path
