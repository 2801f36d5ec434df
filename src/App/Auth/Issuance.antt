-- ===== src/App/Auth/Issuance.antt =====
-- Minting: crates/aircraft_app/src/services/credential_issuance.rs. The random source and the
-- store are ports: functions of a state `W` of the world, which they may change. The trace
-- events are left out.
pub mod Input
pub mod RoundTrip
use Prim.Native.Nat.{ℕ}
use mathlib.Core.Bool.{Bool, true, false, not}
use mathlib.Core.List.{List, [], ◌∷◌, ◌++◌}
use aircraft_api_r.Prelude.{ltb, if◌then◌else◌, Result, ok, err, guard, ◌>>=◌, ◌>>◌, length, any}
use aircraft_api_r.Prelude.Text.{Text, codes, text_eq, is_whitespace}
use aircraft_api_r.Prelude.Integers.{ℤ, pos, lebℤ}
use aircraft_api_r.App.Persistence.{
  PersistenceError, database, invariant, persistence_code, hex_digest,
}
use aircraft_api_r.App.Auth.Redaction.{redact_persistence_error}
use aircraft_api_r.App.Auth.Credential.{
  Digests, Uuids, CredentialVerifier, of_token, token_prefix, key_id_bytes, secret_bytes,
}

abbrev pub max_label_chars : ℕ
max_label_chars = 200

pub record IssueCredential : Type 0 where
  pub principal_id : ℤ
  pub label : Text

pub data CredentialInputError : Type 0 where
  non_positive_principal_id : CredentialInputError
  blank_label : CredentialInputError
  label_too_long : CredentialInputError

unfoldable pub input_code : CredentialInputError → Text
input_code non_positive_principal_id = codes "NON_POSITIVE_PRINCIPAL_ID"
input_code blank_label = codes "BLANK_LABEL"
input_code label_too_long = codes "LABEL_TOO_LONG"

unfoldable pub issue_credential_new : ℤ → Text → Result CredentialInputError IssueCredential
issue_credential_new principal_id label =
    guard (not (lebℤ principal_id (pos 0))) non_positive_principal_id
    >> guard (any (λ c. not (is_whitespace c)) label) blank_label
    >> guard (not (ltb max_label_chars (length label))) label_too_long
    >> ok (record { principal_id = principal_id; label = label })

pub record NewCredential (Uuid : Type 0) : Type 0 where
  pub key_id : Uuid
  pub principal_id : ℤ
  pub verifier : CredentialVerifier
  pub label : Text

-- The timestamps of the database are numbers.
pub record CredentialRecord (Uuid : Type 0) : Type 0 where
  pub key_id : Uuid
  pub principal_id : ℤ
  pub label : Text
  pub created_at : ℕ
  pub updated_at : ℕ

pub record CredentialMaterial (Uuid : Type 0) : Type 0 where
  pub key_id : Uuid
  pub clear : Text
  pub verifier : CredentialVerifier

pub record IssuedCredential (Uuid : Type 0) : Type 0 where
  pub issued_record : CredentialRecord Uuid
  pub clear : Text

pub data CredentialIssuanceError : Type 0 where
  entropy_unavailable : Text → CredentialIssuanceError
  unknown_principal : ℤ → CredentialIssuanceError
  duplicate_credential : CredentialIssuanceError
  persistence : PersistenceError → CredentialIssuanceError

unfoldable pub issuance_code : CredentialIssuanceError → Text
issuance_code (entropy_unavailable message) = codes "ENTROPY_UNAVAILABLE"
issuance_code (unknown_principal principal_id) = codes "UNKNOWN_PRINCIPAL"
issuance_code duplicate_credential = codes "DUPLICATE_CREDENTIAL"
issuance_code (persistence error) = persistence_code error

abbrev pub foreign_key_violation : Text
foreign_key_violation = codes "DATABASE_23503"

abbrev pub unique_violation : Text
unique_violation = codes "DATABASE_23505"

unfoldable pub classify : PersistenceError → ℤ → CredentialIssuanceError
classify (database code message) principal_id =
    if text_eq code foreign_key_violation
    then unknown_principal principal_id
    else if text_eq code unique_violation
    then duplicate_credential
    else persistence (redact_persistence_error (database code message))
classify (invariant message) principal_id =
    persistence (redact_persistence_error (invariant message))

module _ {Uuid : Type 0} (digests : Digests) (uuids : Uuids Uuid) where
  abbrev pub token_text : Uuid → List ℕ → Text
  token_text key_id secret =
      token_prefix ++ b'_' ∷ (uuids.hyphenated key_id ++ b'_' ∷ hex_digest secret)

  unfoldable pub build : List ℕ → List ℕ → CredentialMaterial Uuid
  build key secret =
      let key_id = uuids.from_random_bytes key in
      let token = token_text key_id secret in
      record { key_id = key_id; clear = token; verifier = of_token digests token }

-- The ports of the service: `EntropySource`, which fills a buffer of the given length, and
-- `CredentialStore`.
pub record IssuancePorts (Uuid W : Type 0) : Type 0 where
  pub entropy : ℕ → W → Result Text (List ℕ) × W
  pub persist : NewCredential Uuid → W → Result PersistenceError (CredentialRecord Uuid) × W

module _ {Uuid W : Type 0} (digests : Digests) (uuids : Uuids Uuid)
    (ports : IssuancePorts Uuid W) where
  unfoldable pub persisted :
      IssueCredential
      → CredentialMaterial Uuid
      → Result PersistenceError (CredentialRecord Uuid) × W
      → Result CredentialIssuanceError (IssuedCredential Uuid) × W
  persisted request material (err error, w) = (err (classify error request.principal_id), w)
  persisted request material (ok stored, w) =
      (ok (record { issued_record = stored; clear = material.clear }), w)

  unfoldable pub store_material :
      IssueCredential
      → CredentialMaterial Uuid
      → W
      → Result CredentialIssuanceError (IssuedCredential Uuid) × W
  store_material request material w = persisted request material (
      ports.persist
        (record {
          key_id = material.key_id;
          principal_id = request.principal_id;
          verifier = material.verifier;
          label = request.label;
        })
        w)

  -- After the second read, with the bytes of the first.
  unfoldable pub secret_read :
      IssueCredential
      → List ℕ
      → Result Text (List ℕ) × W
      → Result CredentialIssuanceError (IssuedCredential Uuid) × W
  secret_read request key (err message, w) = (err (entropy_unavailable message), w)
  secret_read request key (ok secret, w) = store_material request (build digests uuids key secret) w

  -- After the first read.
  unfoldable pub key_read :
      IssueCredential
      → Result Text (List ℕ) × W
      → Result CredentialIssuanceError (IssuedCredential Uuid) × W
  key_read request (err message, w) = (err (entropy_unavailable message), w)
  key_read request (ok key, w) = secret_read request key (ports.entropy secret_bytes w)

  unfoldable pub issue :
      IssueCredential → W → Result CredentialIssuanceError (IssuedCredential Uuid) × W
  issue request w = key_read request (ports.entropy key_id_bytes w)
