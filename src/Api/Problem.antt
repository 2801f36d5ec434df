-- ===== src/Api/Problem.antt =====
-- Problem documents: crates/aircraft_api/src/problem.rs. Parsing of URIs belongs to another crate.
pub mod Instance
pub mod Response
use Prim.Native.Nat.{ℕ}
use mathlib.Core.Option.{Option, none, some}
use aircraft_api_r.Prelude.Text.{Text, codes}
use aircraft_api_r.App.Auth.Scope.{
  Scope, catalog_read, military_read, curation_read, curation_write, admin,
}

pub data RequiredScope : Type 0 where
  required_catalog_read : RequiredScope
  required_military_read : RequiredScope
  required_curation_read : RequiredScope
  required_curation_write : RequiredScope
  required_admin : RequiredScope

unfoldable pub from_scope : Scope → RequiredScope
from_scope catalog_read = required_catalog_read
from_scope military_read = required_military_read
from_scope curation_read = required_curation_read
from_scope curation_write = required_curation_write
from_scope admin = required_admin

pub data ProblemKind : Type 0 where
  malformed_input : ProblemKind
  validation_failed : ProblemKind
  authentication_required : ProblemKind
  insufficient_scope : RequiredScope → ProblemKind
  not_found : ProblemKind
  method_not_allowed : ProblemKind
  conflict : ProblemKind
  payload_too_large : ProblemKind
  rate_limited : ℕ → ProblemKind
  database_unavailable : ProblemKind
  shutting_down : ProblemKind
  shutdown_cancelled : ProblemKind
  overloaded : ProblemKind
  internal : ProblemKind
  deadline_exceeded : ProblemKind

pub record ProblemContract : Type 0 where
  pub kind : Text
  pub title : Text
  pub status : ℕ
  pub detail : Text

unfoldable pub contract : ProblemKind → ProblemContract
contract malformed_input = record {
  kind = codes "/problems/malformed-input";
  title = codes "Bad Request";
  status = 400;
  detail = codes "The request body could not be read.";
}
contract validation_failed = record {
  kind = codes "/problems/validation-failed";
  title = codes "Validation Failed";
  status = 400;
  detail = codes "The request violates the API contract.";
}
contract authentication_required = record {
  kind = codes "/problems/authentication-required";
  title = codes "Unauthorized";
  status = 401;
  detail = codes "Authentication is required to access this resource.";
}
contract (insufficient_scope required_scope) = record {
  kind = codes "/problems/insufficient-scope";
  title = codes "Forbidden";
  status = 403;
  detail = codes "The authenticated principal lacks the required scope.";
}
contract not_found = record {
  kind = codes "/problems/not-found";
  title = codes "Not Found";
  status = 404;
  detail = codes "The requested resource was not found.";
}
contract method_not_allowed = record {
  kind = codes "/problems/method-not-allowed";
  title = codes "Method Not Allowed";
  status = 405;
  detail = codes "The request method is not allowed for this resource.";
}
contract conflict = record {
  kind = codes "/problems/conflict";
  title = codes "Conflict";
  status = 409;
  detail = codes "The request conflicts with the current resource state.";
}
contract payload_too_large = record {
  kind = codes "/problems/payload-too-large";
  title = codes "Payload Too Large";
  status = 413;
  detail = codes "The request body is larger than this service accepts.";
}
contract (rate_limited retry_after_seconds) = record {
  kind = codes "/problems/rate-limit-exceeded";
  title = codes "Too Many Requests";
  status = 429;
  detail = codes "The request rate limit has been exceeded.";
}
contract database_unavailable = record {
  kind = codes "/problems/database-unavailable";
  title = codes "Service Unavailable";
  status = 503;
  detail = codes "The service cannot reach its database.";
}
contract shutting_down = record {
  kind = codes "/problems/shutting-down";
  title = codes "Service Unavailable";
  status = 503;
  detail = codes "The service is shutting down and is not accepting new work.";
}
contract shutdown_cancelled = record {
  kind = codes "/problems/shutting-down";
  title = codes "Service Unavailable";
  status = 503;
  detail = codes "The service stopped waiting for this request so it could shut down.";
}
contract overloaded = record {
  kind = codes "/problems/overloaded";
  title = codes "Service Unavailable";
  status = 503;
  detail = codes "The service is at capacity and refused this request rather than queueing it.";
}
contract internal = record {
  kind = codes "/problems/internal-error";
  title = codes "Internal Server Error";
  status = 500;
  detail = codes "The service encountered an unexpected error.";
}
contract deadline_exceeded = record {
  kind = codes "/problems/deadline-exceeded";
  title = codes "Gateway Timeout";
  status = 504;
  detail = codes "The service did not produce a response within its deadline.";
}

pub record ProblemDetails : Type 0 where
  pub kind : Text
  pub title : Text
  pub status : ℕ
  pub detail : Text
  pub instance_path : Text
  pub required_scope : Option RequiredScope

pub record ApiProblem : Type 0 where
  pub kind : ProblemKind
  pub instance_path : Text

-- The scope that a document names.
unfoldable pub scope_member : ProblemKind → Option RequiredScope
scope_member (insufficient_scope required_scope) = some required_scope
scope_member _ = none

unfoldable pub details : ApiProblem → ProblemDetails
unfolding contract scope_member
details self = record {
  kind = (contract self.kind).kind;
  title = (contract self.kind).title;
  status = (contract self.kind).status;
  detail = (contract self.kind).detail;
  instance_path = self.instance_path;
  required_scope = scope_member self.kind;
}
