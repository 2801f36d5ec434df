-- ===== src/App/Auth/Issuance/RoundTrip.antt =====
-- What was issued is accepted: issuance against parsing and authentication.
use Prim.Native.Nat.{ℕ}
use mathlib.Core.Path.{◌≡◌, refl, sym, ap, ◌∙◌}
use mathlib.Core.Bool.{Bool, false}
use mathlib.Core.Option.{Option, some}
use mathlib.Core.List.{List, [], ◌∷◌}
use native.Mathlib.Omega.{arith}
use aircraft_api_r.Prelude.{Result, ok, err, err_ne_ok, ok_inj, length}
use aircraft_api_r.Prelude.Text.{Text, Lacks}
use aircraft_api_r.Prelude.Integers.{ℤ}
use aircraft_api_r.App.Persistence.{
  PersistenceError, hex_digest, IsBytes, IsHex, hex_digest-IsHex, length-hex_digest, len_hex,
}
use aircraft_api_r.App.Auth.Credential.{
  Digests, Uuids, CredentialCandidate, credential_parse, key_id_bytes, secret_bytes,
}
use aircraft_api_r.App.Auth.Credential.Layout.{credential_parse_iff}
use aircraft_api_r.App.Auth.Authentication.{
  CredentialLookupRecord, AuthenticatedPrincipal, authenticate, principal_of,
}
use aircraft_api_r.App.Auth.Authentication.Acceptance.{authenticate_ok_iff}
use aircraft_api_r.App.Auth.Issuance.{
  IssueCredential, NewCredential, CredentialRecord, IssuedCredential, CredentialMaterial,
  IssuancePorts, issue, key_read, secret_read, store_material, persisted, build,
}

Lacks-hex : (s : Text) → IsHex s → Lacks b'_' s
Lacks-hex [] h = tt
Lacks-hex (c ∷ s) (hex, h) = (ground arith, Lacks-hex s h)

-- What the service relies on: the random source fills the buffer with bytes, and a row that was
-- persisted is what a lookup of its key finds afterwards, not revoked, with the state of its
-- principal.
pub record PortLaws {Uuid W : Type 0} (ports : IssuancePorts Uuid W)
    (resolve : Uuid → W → Result PersistenceError (Option CredentialLookupRecord))
    (disabled : ℤ → W → Bool) : Type 0 where
  pub entropy_fills :
      (n : ℕ) (w w' : W) (bytes : List ℕ)
      → ports.entropy n w ≡ (ok bytes, w')
      → IsBytes bytes × (length bytes ≡ n)
  pub persist_resolves :
      (c : NewCredential Uuid) (w w' : W) (stored : CredentialRecord Uuid)
      → ports.persist c w ≡ (ok stored, w')
      → (stored.key_id ≡ c.key_id)
        × (r : CredentialLookupRecord) × (resolve c.key_id w' ≡ ok (some r))
        × (r.verifier ≡ c.verifier)
        × (r.revoked ≡ false)
        × (r.disabled ≡ disabled c.principal_id w')
        × (r.principal_id ≡ c.principal_id)

module _ {Uuid W : Type 0} (digests : Digests) (uuids : Uuids Uuid) (ports : IssuancePorts Uuid W)
    (request : IssueCredential) where
  -- The row that is persisted for the bytes that were read.
  abbrev row : List ℕ → List ℕ → NewCredential Uuid
  row key secret =
      let material = build digests uuids key secret in
      record {
        key_id = material.key_id;
        principal_id = request.principal_id;
        verifier = material.verifier;
        label = request.label;
      }

  key_read-ok :
      (r : Result Text (List ℕ) × W) (issued : IssuedCredential Uuid) (w' : W)
      → key_read digests uuids ports request r ≡ (ok issued, w')
      → (key : List ℕ) × (w₁ : W) × (r ≡ (ok key, w₁))
        × (secret_read digests uuids ports request key (ports.entropy secret_bytes w₁)
            ≡ (ok issued, w'))
  unfolding key_read
  key_read-ok (ok key, w₁) issued w' e = (key, w₁, refl, e)
  key_read-ok (err m, w₁) issued w' e = absurd (err_ne_ok (ap (λ x. x.0) e))

  secret_read-ok :
      (key : List ℕ) (r : Result Text (List ℕ) × W) (issued : IssuedCredential Uuid) (w' : W)
      → secret_read digests uuids ports request key r ≡ (ok issued, w')
      → (secret : List ℕ) × (w₂ : W) × (r ≡ (ok secret, w₂))
        × (persisted digests uuids ports request
              (build digests uuids key secret)
              (ports.persist (row key secret) w₂)
            ≡ (ok issued, w'))
  unfolding secret_read store_material
  secret_read-ok key (ok secret, w₂) issued w' e = (secret, w₂, refl, e)
  secret_read-ok key (err m, w₂) issued w' e = absurd (err_ne_ok (ap (λ x. x.0) e))

  persisted-ok :
      (material : CredentialMaterial Uuid) (r : Result PersistenceError (CredentialRecord Uuid) × W)
      (issued : IssuedCredential Uuid) (w' : W)
      → persisted digests uuids ports request material r ≡ (ok issued, w')
      → (r ≡ (ok issued.issued_record, w')) × (issued.clear ≡ material.clear)
  unfolding persisted
  persisted-ok material (ok stored, w₃) issued w' e =
      let same = ok_inj (ap (λ x. x.0) e) in
      (λ i. (ok (same i).issued_record, (e i).1), sym (ap (λ x. x.clear) same))
  persisted-ok material (err m, w₃) issued w' e = absurd (err_ne_ok (ap (λ x. x.0) e))

module _ {Uuid W : Type 0} (digests : Digests) (uuids : Uuids Uuid) (ports : IssuancePorts Uuid W)
    (resolve : Uuid → W → Result PersistenceError (Option CredentialLookupRecord))
    (disabled : ℤ → W → Bool) (laws : PortLaws ports resolve disabled) where
  -- The candidate that the token of these bytes is parsed to.
  abbrev candidate : List ℕ → List ℕ → CredentialCandidate Uuid
  candidate key secret =
      let material = build digests uuids key secret in
      record { key_id = material.key_id; verifier = material.verifier }

  credential_parse-build :
      (key secret : List ℕ)
      → IsBytes secret
      → length secret ≡ secret_bytes
      → credential_parse digests uuids (build digests uuids key secret).clear
        ≡ ok (candidate key secret)
  unfolding build
  credential_parse-build key secret bytes size =
      let u = uuids.from_random_bytes key in
      let hex = hex_digest-IsHex secret bytes in
      (credential_parse_iff digests uuids (build digests uuids key secret).clear
          (candidate key secret)).1
        (
          uuids.hyphenated u,
          hex_digest secret,
          refl,
          uuids.Lacks-hyphenated u,
          Lacks-hex (hex_digest secret) hex,
          uuids.len-hyphenated u,
          len_hex (hex_digest secret) hex ∙ length-hex_digest secret ∙ omega (arith, size),
          uuids.try_parse-hyphenated u,
          refl,
        )

  -- When issuance succeeds and the principal is enabled afterwards, the clear credential parses,
  -- to the identifier of the record that was returned, and authenticates as the principal it was
  -- issued to. The random source fills its buffer with bytes, and a row that was persisted is
  -- what a lookup of its key finds afterwards, not revoked and with the state of its principal.
  pub authenticate-issue :
      (request : IssueCredential) (w w' : W) (issued : IssuedCredential Uuid)
      → issue digests uuids ports request w ≡ (ok issued, w')
      → disabled request.principal_id w' ≡ false
      → (c : CredentialCandidate Uuid) × (p : AuthenticatedPrincipal) × (credential_parse digests
            uuids issued.clear
          ≡ ok c)
        × (c.key_id ≡ issued.issued_record.key_id)
        × (authenticate digests (λ key. resolve key w') c ≡ ok p)
        × (p.principal_id ≡ request.principal_id)
  unfolding issue
  authenticate-issue request w w' issued e enabled =
      let (key, w₁, read, e₁) =
        key_read-ok digests uuids ports request (ports.entropy key_id_bytes w) issued w' e in
      let (secret, w₂, read₂, e₂) =
        secret_read-ok digests uuids ports request key (ports.entropy secret_bytes w₁) issued w'
          e₁ in
      let (stored, clear) =
        persisted-ok digests uuids ports request (build digests uuids key secret)
          (ports.persist (row digests uuids ports request key secret) w₂) issued w' e₂ in
      let filled = laws.entropy_fills secret_bytes w₁ w₂ secret read₂ in
      let (same_key, r, found, same_verifier, live, state, principal) =
        laws.persist_resolves (row digests uuids ports request key secret) w₂ w'
          issued.issued_record stored in
      (
        candidate key secret,
        principal_of r,
        ap (credential_parse digests uuids) clear
            ∙ credential_parse-build key secret filled.0 filled.1,
        sym same_key,
        (authenticate_ok_iff digests (λ k. resolve k w') (candidate key secret) (principal_of r)).1
            (r, found, (sym (ap (λ v. v.digest) same_verifier), live, state ∙ enabled), refl),
        principal,
      )
