-- ===== src/App/Auth/Credential/Layout.antt =====
-- The tokens that `CredentialCandidate::parse` takes.
use Prim.Native.Nat.{◌≤◌}
use mathlib.Core.Path.{◌≡◌, refl, sym, subst, ap, ◌∙◌}
use mathlib.Core.Logic.{◌↔◌}
use mathlib.Core.Bool.{true, ◌&&◌}
use mathlib.Core.Option.{some}
use mathlib.Core.List.{List, [], ◌∷◌, ◌++◌}
use native.Mathlib.Omega.{arith}
use aircraft_api_r.Prelude.{
  ◌==◌, ok, ok_or, guard, ◌>>=◌, >>-eq-ok, >>=-eq-ok, ok_inj, ok_or-eq-ok, length,
}
use aircraft_api_r.Prelude.Text.{
  Text, len, len-append, text_eq, text_eq_iff, splitn, Lacks, IsSplit, splitn-IsSplit, splitn-join,
}
use aircraft_api_r.App.Auth.Credential.{
  Digests, Uuids, CredentialCandidate, of_segments, credential_parse, of_token, token_prefix,
  token_chars, unexpected_length, unexpected_shape, malformed_key_id,
}

-- The text of a token with this key and secret.
abbrev pub token_of : Text → Text → Text
token_of key secret = token_prefix ++ b'_' ∷ (key ++ b'_' ∷ secret)

Lacks-token_prefix : Lacks b'_' token_prefix
Lacks-token_prefix = (refl, (refl, (refl, tt)))

token_len :
    (token key secret : Text)
    → token ≡ token_of key secret
    → len key ≡ 36
    → len secret ≡ 64
    → len token ≡ token_chars
unfolding len
token_len token key secret layout lk ls =
    ap len layout ∙ omega (arith, len-append key (b'_' ∷ secret))

key_len :
    (token key secret : Text)
    → token ≡ token_of key secret
    → len token ≡ token_chars
    → len secret ≡ 64
    → len key ≡ 36
unfolding len
key_len token key secret layout lt ls =
    let whole = sym lt ∙ ap len layout in omega (arith, whole, len-append key (b'_' ∷ secret))

text_eq_refl : (t : Text) → text_eq t t ≡ true
text_eq_refl t = (text_eq_iff t t).1 refl

module _ {Uuid : Type 0} (digests : Digests) (uuids : Uuids Uuid) where
  -- A token that stands for a candidate: a UUID of 36 bytes and a secret of 64, neither with a
  -- separator, and the digest is that of the whole token.
  abbrev pub StandsFor : Text → CredentialCandidate Uuid → Type 0
  StandsFor token c =
      (key : Text) × (secret : Text) × (token ≡ token_of key secret)
      × Lacks b'_' key
      × Lacks b'_' secret
      × (len key ≡ 36)
      × (len secret ≡ 64)
      × (uuids.try_parse key ≡ some c.key_id)
      × (c.verifier ≡ of_token digests token)

  StandsFor-parse :
      (token : Text) (c : CredentialCandidate Uuid)
      → StandsFor token c
      → credential_parse digests uuids token ≡ ok c
  unfolding credential_parse of_segments
  StandsFor-parse token c (key, secret, layout, nk, ns, lk, ls, parsed, hashed) =
      let split =
        subst (λ t. splitn 4 b'_' t ≡ token_prefix ∷ key ∷ secret ∷ []) (sym layout)
          (splitn-join 3 b'_' (token_prefix ∷ key ∷ secret ∷ [])
            (Lacks-token_prefix, (nk, (ns, tt))) (omega arith) (omega arith)) in
      rw
        (
          token_len token key secret layout lk ls,
          split,
          of_segments,
          text_eq_refl token_prefix,
          ls,
          parsed,
        )
        (ap (λ v. ok (record { key_id = c.key_id; verifier = v })) (sym hashed))

  segments_ok :
      (token : Text) (c : CredentialCandidate Uuid) (parts : List Text)
      → len token ≡ token_chars
      → IsSplit b'_' token parts
      → of_segments digests uuids token parts ≡ ok c
      → StandsFor token c
  unfolding of_segments
  segments_ok token c (prefix ∷ key ∷ secret ∷ []) l (joined, lacks) e =
      let checks =
        >>-eq-ok (guard (text_eq prefix token_prefix && len secret == 64) unexpected_shape)
          (ok_or (uuids.try_parse key) malformed_key_id >>= λ u.
            ok (record { key_id = u; verifier = of_token digests token }))
          e in
      let prefixed = (text_eq_iff prefix token_prefix).0 (ground (arith, checks.0)) in
      let long : len secret ≡ 64 = ground (arith, checks.0) in
      let layout : token ≡ token_of key secret =
        joined ∙ ap (λ p. p ++ b'_' ∷ (key ++ b'_' ∷ secret)) prefixed in
      let parsed =
        >>=-eq-ok (ok_or (uuids.try_parse key) malformed_key_id)
          (λ u. ok (record { key_id = u; verifier = of_token digests token })) checks.1 in
      let same : Path (CredentialCandidate Uuid)
          (record { key_id = parsed.0; verifier = of_token digests token }) c =
        ok_inj parsed.2 in
      (
        key,
        secret,
        layout,
        lacks.1.0,
        lacks.1.1.0,
        key_len token key secret layout l long,
        long,
        ok_or-eq-ok (uuids.try_parse key) malformed_key_id parsed.1 ∙ ap (λ x. some x.key_id) same,
        sym (ap (λ x. x.verifier) same),
      )
  segments_ok token c [] l split e = absurd (cc)
  segments_ok token c (a ∷ []) l split e = absurd (cc)
  segments_ok token c (a ∷ b ∷ []) l split e = absurd (cc)
  segments_ok token c (a ∷ b ∷ d ∷ f ∷ parts) l split e = absurd (cc)

  of_segments-length :
      (token : Text) (c : CredentialCandidate Uuid) (parts : List Text)
      → of_segments digests uuids token parts ≡ ok c
      → length parts ≤ 3
  unfolding of_segments
  of_segments-length token c (prefix ∷ key ∷ secret ∷ []) e = omega arith
  of_segments-length token c [] e = omega arith
  of_segments-length token c (a ∷ []) e = omega arith
  of_segments-length token c (a ∷ b ∷ []) e = omega arith
  of_segments-length token c (a ∷ b ∷ d ∷ f ∷ parts) e = absurd (cc)

  -- A token parses to a candidate exactly when it is `ak1`, a text of 36 bytes that the UUID
  -- parser reads as the candidate's key, and 64 bytes of secret, joined by underscores that
  -- neither part has, and the candidate's digest is that of the whole token.
  pub credential_parse_iff :
      (token : Text) (c : CredentialCandidate Uuid)
      → (credential_parse digests uuids token ≡ ok c) ↔ StandsFor token c
  unfolding credential_parse
  credential_parse_iff token c = (
    λ e.
        let checks =
          >>-eq-ok (guard (len token == token_chars) unexpected_length)
            (of_segments digests uuids token (splitn 4 b'_' token)) e in
        segments_ok token c (splitn 4 b'_' token) (ground (arith, checks.0))
          (splitn-IsSplit 3 b'_' token (of_segments-length token c (splitn 4 b'_' token) checks.1))
          checks.1,
    StandsFor-parse token c,
  )
