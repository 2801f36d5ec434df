-- ===== src/App/Auth/Credential.antt =====
-- `CredentialVerifier` of crates/aircraft_app/src/services/credential_issuance.rs and
-- `CredentialCandidate` of authentication.rs beside it. The SHA-256 function, the constant-time
-- comparison and the UUID type belong to other crates, and stand here as interfaces.
pub mod Layout
use Prim.Native.Nat.{ℕ, ◌+◌, ◌*◌, ◌≤◌, ◌<◌}
use mathlib.Core.Path.{◌≡◌, refl, sym}
use mathlib.Core.Logic.{◌↔◌, inl, inr}
use mathlib.Core.Bool.{Bool, true, false, ◌&&◌}
use mathlib.Core.Option.{Option, none, some}
use mathlib.Core.List.{List, [], ◌∷◌, ◌++◌}
use native.Mathlib.Omega.{arith}
use aircraft_api_r.Prelude.{◌==◌, Result, ok, err, ok_or, guard, ◌>>=◌, ◌>>◌, length, All}
use aircraft_api_r.Prelude.Text.{Text, codes, len, text_eq, splitn, join, Lacks}

-- `Sha256::digest` over the UTF-8 bytes of a text, and `ct_eq` on 32-byte arrays, which is equality.
pub record Digests : Type 0 where
  pub sha256 : Text → List ℕ
  pub ct_eq : List ℕ → List ℕ → Bool
  pub ct_eq_iff : (a b : List ℕ) → (ct_eq a b ≡ true) ↔ (a ≡ b)

-- The UUID type: its parser, its hyphenated text and its version 4 builder.
pub record Uuids (Uuid : Type 0) : Type 0 where
  pub try_parse : Text → Option Uuid
  pub hyphenated : Uuid → Text
  pub from_random_bytes : List ℕ → Uuid
  pub try_parse-hyphenated : (u : Uuid) → try_parse (hyphenated u) ≡ some u
  pub len-hyphenated : (u : Uuid) → len (hyphenated u) ≡ 36
  pub Lacks-hyphenated : (u : Uuid) → Lacks b'_' (hyphenated u)

abbrev pub token_prefix : Text
token_prefix = codes "ak1"

abbrev pub secret_bytes : ℕ
secret_bytes = 32

abbrev pub key_id_bytes : ℕ
key_id_bytes = 16

abbrev pub token_chars : ℕ
token_chars = 3 + 1 + 36 + 1 + secret_bytes * 2

pub record CredentialVerifier : Type 0 where
  pub digest : List ℕ

module _ (digests : Digests) where
  unfoldable pub verifier_eq : CredentialVerifier → CredentialVerifier → Bool
  verifier_eq a b = digests.ct_eq a.digest b.digest

  abbrev pub of_token : Text → CredentialVerifier
  of_token token = record { digest = digests.sha256 token }

pub record CredentialCandidate (Uuid : Type 0) : Type 0 where
  pub key_id : Uuid
  pub verifier : CredentialVerifier

pub data CredentialSyntaxError : Type 0 where
  unexpected_length : CredentialSyntaxError
  unexpected_shape : CredentialSyntaxError
  malformed_key_id : CredentialSyntaxError

module _ {Uuid : Type 0} (digests : Digests) (uuids : Uuids Uuid) where
  -- The checks on the segments.
  unfoldable pub of_segments :
      Text → List Text → Result CredentialSyntaxError (CredentialCandidate Uuid)
  of_segments token (prefix ∷ key ∷ secret ∷ []) =
      guard (text_eq prefix token_prefix && len secret == secret_bytes * 2) unexpected_shape
      >> (ok_or (uuids.try_parse key) malformed_key_id >>= λ u.
          ok (record { key_id = u; verifier = of_token digests token }))
  of_segments token _ = err unexpected_shape

  unfoldable pub credential_parse : Text → Result CredentialSyntaxError (CredentialCandidate Uuid)
  credential_parse token =
      guard (len token == token_chars) unexpected_length >> of_segments token (splitn 4 b'_' token)
