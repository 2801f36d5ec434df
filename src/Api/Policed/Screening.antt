-- ===== src/Api/Policed/Screening.antt =====
-- When the handler of a policed route runs, and what the limiter is charged.
use Prim.Native.Nat.{ℕ}
use mathlib.Core.Path.{◌≡◌, refl, ap}
use mathlib.Core.Logic.{◌↔◌}
use mathlib.Core.Bool.{true}
use mathlib.Core.Option.{Option, none, some}
use aircraft_api_r.Prelude.{Result, ok, err, ok_inj, err_ne_ok, if-eq-ok}
use aircraft_api_r.Prelude.Text.{Text}
use aircraft_api_r.App.Persistence.{PersistenceError}
use aircraft_api_r.App.Auth.Scope.{Scope, has_scope}
use aircraft_api_r.App.Auth.Credential.{CredentialCandidate}
use aircraft_api_r.App.Auth.Authentication.{
  CredentialLookupRecord, AuthenticatedPrincipal, AuthenticationError, authenticate,
}
use aircraft_api_r.Api.Problem.{ApiProblem, insufficient_scope, from_scope}
use aircraft_api_r.Api.Bearer.{
  Request, Platform, authenticate_request, with_candidate, map_problem, candidate_of, api_problem,
  remove, authorization,
}
use aircraft_api_r.Api.Policed.{
  screen, after_identity, after_admission, check_scope, instance_of, principal_number,
}
use aircraft_api_r.RateLimit.Limiter.{RateLimiter, Admission, admitted, refused, saturated, admit}

module _ {Uuid : Type 0} (platform : Platform Uuid)
    (resolve : Uuid → Result PersistenceError (Option CredentialLookupRecord)) where
  -- The credential of the request is that of this principal.
  abbrev pub Identifies : Request → AuthenticatedPrincipal → Type 0
  Identifies request p =
      (c : CredentialCandidate Uuid) × (candidate_of platform request.headers ≡ some c)
      × (authenticate platform.digests resolve c ≡ ok p)

  map_problem-ok :
      (path : Text) (r : Result AuthenticationError AuthenticatedPrincipal)
      (p : AuthenticatedPrincipal)
      → map_problem platform path r ≡ ok p
      → r ≡ ok p
  unfolding map_problem
  map_problem-ok path (ok q) p e = λ i. ok (ok_inj e i)
  map_problem-ok path (err f) p e = absurd (err_ne_ok e)

  with_candidate-ok :
      (path : Text) (o : Option (CredentialCandidate Uuid)) (p : AuthenticatedPrincipal)
      → with_candidate platform resolve path o ≡ ok p
      → (c : CredentialCandidate Uuid) × (o ≡ some c)
        × (authenticate platform.digests resolve c ≡ ok p)
  unfolding with_candidate
  with_candidate-ok path none p e = absurd (cc)
  with_candidate-ok path (some c) p e =
      (c, refl, map_problem-ok path (authenticate platform.digests resolve c) p e)

  check_scope-ok :
      (required : Scope) (p : AuthenticatedPrincipal) (request out : Request) (path : Text)
      → check_scope platform resolve required p request path ≡ ok out
      → (has_scope required p.scopes ≡ true) × (out ≡ record request { principal = some p })
  unfolding check_scope
  check_scope-ok required p request out path e =
      if-eq-ok (has_scope required p.scopes) (record request { principal = some p })
        (api_problem platform (insufficient_scope (from_scope required)) path) e

  after_admission-ok :
      (required : Scope) (p : AuthenticatedPrincipal) (request out : Request) (path : Text)
      (limiter : RateLimiter) (r : RateLimiter × Admission)
      → after_admission platform resolve required p request path r ≡ (limiter, ok out)
      → (r ≡ (limiter, admitted)) × (check_scope platform resolve required p request path ≡ ok out)
  unfolding after_admission
  after_admission-ok required p request out path limiter (l, admitted) e =
      ((λ i. ((e i).0, admitted)), ap (λ x. x.1) e)
  after_admission-ok required p request out path limiter (l, refused s) e =
      absurd (err_ne_ok (ap (λ x. x.1) e))
  after_admission-ok required p request out path limiter (l, saturated) e =
      absurd (err_ne_ok (ap (λ x. x.1) e))

  -- The request that the handler gets.
  abbrev pub passed_on : Request → AuthenticatedPrincipal → Request
  passed_on request p = record request {
    headers = remove authorization request.headers;
    principal = some p;
  }

  -- The limiter's answer for a principal.
  abbrev pub admission : RateLimiter → AuthenticatedPrincipal → ℕ → RateLimiter × Admission
  admission limiter p now = admit limiter (principal_number p.principal_id) p.tier now

  after_identity-ok :
      (required : Scope) (limiter limiter' : RateLimiter) (now : ℕ) (path : Text)
      (r : Result ApiProblem AuthenticatedPrincipal) (request out : Request)
      → after_identity platform resolve required limiter now path (r, request) ≡ (limiter', ok out)
      → (p : AuthenticatedPrincipal) × (r ≡ ok p)
        × (admission limiter p now ≡ (limiter', admitted))
        × (has_scope required p.scopes ≡ true)
        × (out ≡ record request { principal = some p })
  unfolding after_identity
  after_identity-ok required limiter limiter' now path (err problem) request out e =
      absurd (err_ne_ok (ap (λ x. x.1) e))
  after_identity-ok required limiter limiter' now path (ok p) request out e =
      let a = after_admission-ok required p request out path limiter' (admission limiter p now) e in
      let s = check_scope-ok required p request out path a.1 in (p, refl, a.0, s.0, s.1)

  identity :
      (request : Request) (p : AuthenticatedPrincipal) (path : Text)
      → Identifies request p
      → with_candidate platform resolve path (candidate_of platform request.headers) ≡ ok p
  unfolding with_candidate map_problem
  identity request p path (c, found, accepted) =
      rw (found, with_candidate, accepted, map_problem) refl

  -- A request reaches the handler of a scoped route, with the limiter in a given state
  -- afterwards, exactly when its credential is that of a principal, the limiter admits that
  -- principal's request and is left in that state, and the principal holds the scope; the handler
  -- gets the request without its `Authorization` header and with the principal.
  pub screen_ok_iff :
      (required : Scope) (limiter limiter' : RateLimiter) (now : ℕ) (request out : Request)
      → (screen platform resolve (some required) limiter now request ≡ (limiter', ok out)) ↔ (
          (p : AuthenticatedPrincipal) × Identifies request p
          × (admission limiter p now ≡ (limiter', admitted))
          × (has_scope required p.scopes ≡ true)
          × (out ≡ passed_on request p))
  unfolding screen authenticate_request after_identity after_admission check_scope
  screen_ok_iff required limiter limiter' now request out = (
    λ e.
        let (p, r, a, scoped, same) =
          after_identity-ok required limiter limiter' now (instance_of request)
            (with_candidate platform resolve (instance_of request)
              (candidate_of platform request.headers))
            (record request { headers = remove authorization request.headers }) out e in
        (
          p,
          with_candidate-ok (instance_of request) (candidate_of platform request.headers) p r,
          a,
          scoped,
          same,
        ),
    λ (p, i, a, scoped, same).
        rw
          (
            identity request p (instance_of request) i,
            after_identity,
            a,
            after_admission,
            check_scope,
            scoped,
            same,
          )
          (λ i. ((a i).0, ok (passed_on request p))),
  )

  after_admission-limiter :
      (required : Scope) (p : AuthenticatedPrincipal) (request : Request) (path : Text)
      (r : RateLimiter × Admission)
      → (after_admission platform resolve required p request path r).0 ≡ r.0
  unfolding after_admission
  after_admission-limiter required p request path (l, admitted) = refl
  after_admission-limiter required p request path (l, refused s) = refl
  after_admission-limiter required p request path (l, saturated) = refl

  -- A request whose credential is that of a principal leaves the limiter as the principal's
  -- admission does, whether or not the principal holds the scope.
  pub screen_charges :
      (required : Scope) (limiter : RateLimiter) (now : ℕ) (request : Request)
      (p : AuthenticatedPrincipal)
      → Identifies request p
      → (screen platform resolve (some required) limiter now request).0
        ≡ (admission limiter p now).0
  unfolding screen authenticate_request after_identity
  screen_charges required limiter now request p i =
      rw (identity request p (instance_of request) i, after_identity)
        (after_admission-limiter required p
          (record request { headers = remove authorization request.headers }) (instance_of request)
          (admission limiter p now))

  unidentified :
      (required : Scope) (limiter : RateLimiter) (now : ℕ) (request out : Request) (path : Text)
      (r : Result ApiProblem AuthenticatedPrincipal)
      → ((p : AuthenticatedPrincipal) → ¬ (r ≡ ok p))
      → (problem : ApiProblem) × (after_identity platform resolve required limiter now path (r, out)
          ≡ (limiter, err problem))
  unfolding after_identity
  unidentified required limiter now request out path (ok p) h = absurd (h p refl)
  unidentified required limiter now request out path (err problem) h = (problem, refl)

  -- A request whose credential is that of no principal is answered with a problem, and the
  -- limiter is not asked.
  pub screen_unidentified :
      (required : Scope) (limiter : RateLimiter) (now : ℕ) (request : Request)
      → ((p : AuthenticatedPrincipal) → ¬ Identifies request p)
      → (problem : ApiProblem) × (screen platform resolve (some required) limiter now request
          ≡ (limiter, err problem))
  unfolding screen authenticate_request
  screen_unidentified required limiter now request h =
      unidentified required limiter now request
        (record request { headers = remove authorization request.headers }) (instance_of request)
        (with_candidate platform resolve (instance_of request)
          (candidate_of platform request.headers))
        (λ p r.
          h p (with_candidate-ok (instance_of request) (candidate_of platform request.headers) p r))
