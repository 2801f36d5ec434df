-- ===== src/App/Auth/Authentication.antt =====
-- `AuthenticationService` of crates/aircraft_app/src/services/authentication.rs. The lookup is a
-- port, and stands here as a function of the key.
pub mod Acceptance
use Prim.Native.Nat.{ℕ, zero, suc}
use mathlib.Core.Path.{◌≡◌, refl, sym, ap, ◌∙◌}
use mathlib.Core.Logic.{◌↔◌, ◌⊎◌, inl, inr}
use mathlib.Core.Bool.{Bool, true, false, not, ◌&&◌}
use mathlib.Core.Option.{Option, none, some}
use mathlib.Core.List.{List, [], ◌∷◌}
use native.Mathlib.Omega.{arith}
use aircraft_api_r.Prelude.{if◌then◌else◌, Result, ok, err, Bool-cases, Option-cases}
use aircraft_api_r.Prelude.Text.{Text, codes}
use aircraft_api_r.Prelude.Integers.{ℤ}
use aircraft_api_r.App.Persistence.{PersistenceError, persistence_code}
use aircraft_api_r.App.Auth.Redaction.{redact_persistence_error}
use aircraft_api_r.App.Auth.Scope.{Scope}
use aircraft_api_r.App.Auth.Credential.{
  Digests, CredentialCandidate, CredentialVerifier, verifier_eq,
}

pub record CredentialLookupRecord : Type 0 where
  pub verifier : CredentialVerifier
  pub revoked : Bool
  pub disabled : Bool
  pub principal_id : ℤ
  pub scopes : List Scope
  pub tier : Text

pub record AuthenticatedPrincipal : Type 0 where
  pub principal_id : ℤ
  pub scopes : List Scope
  pub tier : Text

pub data AuthenticationError : Type 0 where
  rejected : AuthenticationError
  unavailable : PersistenceError → AuthenticationError

unfoldable pub authentication_code : AuthenticationError → Text
authentication_code rejected = codes "CREDENTIAL_REJECTED"
authentication_code (unavailable error) = persistence_code error

abbrev repeat : ℕ → ℕ → List ℕ
repeat zero x = []
repeat (suc n) x = x ∷ repeat n x

abbrev pub absent_verifier : CredentialVerifier
absent_verifier = record { digest = repeat 32 0 }

abbrev pub principal_of : CredentialLookupRecord → AuthenticatedPrincipal
principal_of found = record {
  principal_id = found.principal_id;
  scopes = found.scopes;
  tier = found.tier;
}

abbrev pub stored_verifier : Option CredentialLookupRecord → CredentialVerifier
stored_verifier none = absent_verifier
stored_verifier (some found) = found.verifier

-- The match on the row, once the digests are compared.
unfoldable pub judge :
    Bool → Option CredentialLookupRecord → Result AuthenticationError AuthenticatedPrincipal
judge digest_matches none = err rejected
judge digest_matches (some found) =
    if digest_matches && not found.revoked && not found.disabled
    then ok (principal_of found)
    else err rejected

module _ {Uuid : Type 0} (digests : Digests) where
  -- What follows the lookup.
  unfoldable pub after_lookup :
      CredentialCandidate Uuid
      → Result PersistenceError (Option CredentialLookupRecord)
      → Result AuthenticationError AuthenticatedPrincipal
  after_lookup candidate (err error) = err (unavailable (redact_persistence_error error))
  after_lookup candidate (ok row) =
      judge (verifier_eq digests candidate.verifier (stored_verifier row)) row

  unfoldable pub authenticate :
      (Uuid → Result PersistenceError (Option CredentialLookupRecord))
      → CredentialCandidate Uuid
      → Result AuthenticationError AuthenticatedPrincipal
  authenticate resolve candidate = after_lookup candidate (resolve candidate.key_id)
