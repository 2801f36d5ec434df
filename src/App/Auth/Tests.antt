-- ===== src/App/Auth/Tests.antt =====
-- A small world to run the credential services in, and the theorems at concrete inputs.
use Prim.Native.Nat.{ℕ, zero, suc, ◌<◌, ◌≤◌}
use mathlib.Core.Path.{◌≡◌, refl, sym, ap, subst}
use mathlib.Core.Logic.{◌↔◌}
use mathlib.Core.Bool.{Bool, true, false, not}
use mathlib.Core.Option.{Option, none, some}
use mathlib.Core.List.{List, [], ◌∷◌, ◌++◌}
use native.Mathlib.Omega.{arith}
use aircraft_api_r.Prelude.{if◌then◌else◌, Result, ok, err, ok_inj, length, any, ◌==◌}
use aircraft_api_r.Prelude.Text.{Text, codes, text_eq, text_eq_iff, len, Lacks, is_whitespace}
use aircraft_api_r.Prelude.Integers.{ℤ, pos}
use aircraft_api_r.App.Persistence.{PersistenceError, hex_digest, IsBytes}
use aircraft_api_r.App.Auth.Scope.{catalog_read}
use aircraft_api_r.App.Auth.Redaction.{
  redact_digest_runs, redact_loop, flush, redacted_hex_run, redact_digest_runs-run_lt,
  redact_digest_runs_idem,
}
use aircraft_api_r.App.Auth.Credential.{
  Digests, Uuids, CredentialCandidate, credential_parse, of_token,
}
use aircraft_api_r.App.Auth.Credential.Layout.{StandsFor, credential_parse_iff}
use aircraft_api_r.App.Auth.Authentication.{
  CredentialLookupRecord, AuthenticatedPrincipal, rejected, authenticate, principal_of,
}
use aircraft_api_r.App.Auth.Authentication.Acceptance.{
  Accepts, Refuses, authenticate_ok_iff, authenticate_rejected_iff,
}
use aircraft_api_r.App.Auth.Issuance.{
  IssueCredential, NewCredential, CredentialRecord, IssuedCredential, IssuancePorts,
  issue_credential_new, issue, key_read, secret_read, store_material, persisted, build,
  max_label_chars,
}
use aircraft_api_r.App.Auth.Issuance.Input.{IsPositive, issue_credential_new_iff}
use aircraft_api_r.App.Auth.Issuance.RoundTrip.{PortLaws, authenticate-issue}

-- Two identifiers.
abbrev pub spelling : Bool → Text
spelling true = codes "11111111-1111-4111-8111-111111111111"
spelling false = codes "00000000-0000-4000-8000-000000000000"

abbrev pub read_id : Text → Option Bool
read_id t =
    if text_eq t (spelling true)
    then some true
    else if text_eq t (spelling false)
    then some false
    else none

pub read_id-spelling : (u : Bool) → read_id (spelling u) ≡ some u
unfolding text_eq
read_id-spelling true = refl
read_id-spelling false = refl

pub len-spelling : (u : Bool) → len (spelling u) ≡ 36
unfolding len
len-spelling true = refl
len-spelling false = refl

pub Lacks-spelling : (u : Bool) → Lacks b'_' (spelling u)
Lacks-spelling true = ground arith
Lacks-spelling false = ground arith

abbrev pub ids : Uuids Bool
ids = record {
  try_parse = read_id;
  hyphenated = spelling;
  from_random_bytes = λ bytes. length bytes == 16;
  try_parse-hyphenated = read_id-spelling;
  len-hyphenated = len-spelling;
  Lacks-hyphenated = Lacks-spelling;
}

-- A text stands for its own digest.
abbrev pub digests : Digests
digests = record { sha256 = λ t. t; ct_eq = text_eq; ct_eq_iff = text_eq_iff }

abbrev pub World : Type 0
World = List (NewCredential Bool)

abbrev sevens : ℕ → List ℕ
sevens zero = []
sevens (suc n) = 7 ∷ sevens n

abbrev stored_as : NewCredential Bool → CredentialRecord Bool
stored_as c = record {
  key_id = c.key_id;
  principal_id = c.principal_id;
  label = c.label;
  created_at = 0;
  updated_at = 0;
}

abbrev ports : IssuancePorts Bool World
ports = record { entropy = λ n w. (ok (sevens n), w); persist = λ c w. (ok (stored_as c), c ∷ w) }

abbrev as_found : NewCredential Bool → CredentialLookupRecord
as_found c = record {
  verifier = c.verifier;
  revoked = false;
  disabled = false;
  principal_id = c.principal_id;
  scopes = catalog_read ∷ [];
  tier = codes "FREE";
}

abbrev same_id : Bool → Bool → Bool
same_id true b = b
same_id false b = not b

same_id_refl : (b : Bool) → same_id b b ≡ true
same_id_refl true = refl
same_id_refl false = refl

abbrev pub row_of : Bool → World → Option CredentialLookupRecord
row_of key [] = none
row_of key (c ∷ w) = if same_id c.key_id key then some (as_found c) else row_of key w

abbrev pub resolve : Bool → World → Result PersistenceError (Option CredentialLookupRecord)
resolve key w = ok (row_of key w)

abbrev disabled : ℤ → World → Bool
disabled principal_id w = false

IsBytes-sevens : (n : ℕ) → IsBytes (sevens n)
IsBytes-sevens zero = tt
IsBytes-sevens (suc n) = (omega arith, IsBytes-sevens n)

length-sevens : (n : ℕ) → length (sevens n) ≡ n
length-sevens zero = omega arith
length-sevens (suc n) = omega (arith, length-sevens n)

Finds : NewCredential Bool → World → Type 0
Finds c w' =
    (r : CredentialLookupRecord) × (resolve c.key_id w' ≡ ok (some r))
    × (r.verifier ≡ c.verifier)
    × (r.revoked ≡ false)
    × (r.disabled ≡ disabled c.principal_id w')
    × (r.principal_id ≡ c.principal_id)

Finds-new : (c : NewCredential Bool) (w : World) → Finds c (c ∷ w)
unfolding Finds
Finds-new c w = (as_found c, rw (same_id_refl c.key_id) refl, refl, refl, refl, refl)

laws : PortLaws ports resolve disabled
unfolding Finds
laws = record {
  entropy_fills = λ n w w' bytes e.
      let same = ok_inj (ap (λ x. x.0) e) in
      subst (λ b. IsBytes b × (length b ≡ n)) same (IsBytes-sevens n, length-sevens n);
  persist_resolves = λ c w w' stored e.
      let same = ok_inj (ap (λ x. x.0) e) in
      let f = subst (Finds c) (ap (λ x. x.1) e) (Finds-new c w) in
      (sym (ap (λ s. s.key_id) same), f.0, f.1, f.2, f.3, f.4, f.5);
}

abbrev request : IssueCredential
request = record { principal_id = pos 4; label = codes "ci" }

abbrev secret_text : Text
secret_text = codes "0707070707070707070707070707070707070707070707070707070707070707"

abbrev pub token : Text
token = codes "ak1_11111111-1111-4111-8111-111111111111_" ++ secret_text

abbrev new_row : NewCredential Bool
new_row = record {
  key_id = true;
  principal_id = pos 4;
  verifier = of_token digests token;
  label = codes "ci";
}

abbrev issued : IssuedCredential Bool
issued = record { issued_record = stored_as new_row; clear = token }

issues : issue digests ids ports request [] ≡ (ok issued, new_row ∷ [])
unfolding issue key_read secret_read store_material persisted build hex_digest
issues = refl

authenticate-issue_example :
    (c : CredentialCandidate Bool) × (p : AuthenticatedPrincipal) × (credential_parse digests ids
        token
      ≡ ok c)
    × (c.key_id ≡ true)
    × (authenticate digests (λ key. resolve key (new_row ∷ [])) c ≡ ok p)
    × (p.principal_id ≡ pos 4)
authenticate-issue_example =
    authenticate-issue digests ids ports resolve disabled laws request [] (new_row ∷ []) issued
      issues refl

abbrev pub presented : CredentialCandidate Bool
presented = record { key_id = true; verifier = of_token digests token }

abbrev pub known : CredentialLookupRecord
known = as_found new_row

abbrev pub registered : Bool → Result PersistenceError (Option CredentialLookupRecord)
registered key = resolve key (new_row ∷ [])

credential_parse_iff_example :
    (credential_parse digests ids token ≡ ok presented) ↔ StandsFor digests ids token presented
credential_parse_iff_example = credential_parse_iff digests ids token presented

authenticate_ok_iff_example :
    (authenticate digests registered presented ≡ ok (principal_of known)) ↔ (
      (r : CredentialLookupRecord) × (registered true ≡ ok (some r))
      × Accepts presented r
      × (principal_of known ≡ principal_of r))
authenticate_ok_iff_example = authenticate_ok_iff digests registered presented (principal_of known)

authenticate_rejected_iff_example :
    (authenticate digests (λ key. resolve key []) presented ≡ err rejected) ↔ (
      (row : Option CredentialLookupRecord) × (Path
        (Result PersistenceError (Option CredentialLookupRecord))
        (resolve true [])
        (ok row))
      × Refuses presented row)
authenticate_rejected_iff_example =
    authenticate_rejected_iff digests (λ key. resolve key []) presented

issue_credential_new_iff_example : (issue_credential_new (pos 4) (codes "ci") ≡ ok request) ↔ (
    IsPositive (pos 4)
    × (any (λ c. not (is_whitespace c)) (codes "ci") ≡ true)
    × (length (codes "ci") ≤ max_label_chars)
    × (request ≡ record { principal_id = pos 4; label = codes "ci" }))
issue_credential_new_iff_example = issue_credential_new_iff (pos 4) (codes "ci") request

abbrev leak : Text
leak = codes "key 0707070707070707070707070707070707 repeats at 12ab"

redacts : redact_digest_runs leak ≡ codes "key [REDACTED] repeats at " ++ (codes "12ab" ++ [])
unfolding redact_digest_runs redact_loop flush len
redacts = refl

redact_digest_runs-run_lt_example : length (codes "12ab") < redacted_hex_run
redact_digest_runs-run_lt_example =
    redact_digest_runs-run_lt leak (codes "key [REDACTED] repeats at ") (codes "12ab") []
      (refl, (refl, (refl, (refl, tt)))) redacts

redact_digest_runs_idem_example :
    redact_digest_runs (redact_digest_runs leak) ≡ redact_digest_runs leak
redact_digest_runs_idem_example = redact_digest_runs_idem leak
