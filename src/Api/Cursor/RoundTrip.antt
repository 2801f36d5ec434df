-- ===== src/Api/Cursor/RoundTrip.antt =====
-- A cursor that is read again: `encode` and `decode` of crates/aircraft_api/src/pagination.rs.
use Prim.Native.Nat.{ℕ, ◌≤◌}
use mathlib.Core.Path.{◌≡◌, refl, sym, ap, subst, ◌∙◌}
use mathlib.Core.Bool.{false}
use mathlib.Core.Logic.{inl, inr}
use mathlib.Core.Option.{some}
use mathlib.Core.List.{List, [], ◌∷◌}
use aircraft_api_r.Prelude.{arith, ok, err, ltb, if◌then◌else◌, Bool-cases}
use aircraft_api_r.Prelude.Text.{len, text_eq, text_eq_iff}
use aircraft_api_r.App.Persistence.{hex_digest, hex_digest_inj, IsBytes}
use aircraft_api_r.Api.Cursor.{
  Wire, CursorToken, CursorPosition, FilterFingerprint, filter_mismatch, max_cursor_bytes,
  cursor_version, to_hex, encode, decode, position_of, or_default,
}

to_hex-hex_digest : (bytes : List ℕ) → to_hex bytes ≡ hex_digest bytes
unfolding to_hex hex_digest
to_hex-hex_digest [] = refl
to_hex-hex_digest (byte ∷ bytes) = rw (to_hex-hex_digest bytes) refl

-- Equal digests have equal texts, and no others.
to_hex-text_eq :
    (a b : List ℕ) → IsBytes a → IsBytes b → text_eq (to_hex a) (to_hex b) ≡ text_eq a b
to_hex-text_eq a b h k = elim (Bool-cases (text_eq a b)) [
  | inl same ↦
      let e = (text_eq_iff a b).0 same in
      (text_eq_iff (to_hex a) (to_hex b)).1 (ap to_hex e) ∙ sym same
  | inr other ↦ elim (Bool-cases (text_eq (to_hex a) (to_hex b))) [
    | inr different ↦ different ∙ sym other
    | inl collides ↦
        let e = (text_eq_iff (to_hex a) (to_hex b)).0 collides in
        let same = hex_digest_inj a b h k (sym (to_hex-hex_digest a) ∙ e ∙ to_hex-hex_digest b) in
        absurd (let found = (text_eq_iff a b).1 same in ground (arith, found, other))
  ]
]

module _ {B : Type 0} (wire : Wire B) where
  -- What is written is read back.
  abbrev pub ReadsBack : Type 0
  ReadsBack =
      ((bytes : B) → wire.base64_decode (wire.base64_encode bytes) ≡ some bytes)
      × ((token : CursorToken)
          → (bytes : B) × (wire.to_vec token ≡ some bytes)
            × (wire.version_of bytes ≡ some token.version)
            × (wire.from_slice bytes ≡ some token))

  abbrev token_of : CursorPosition → FilterFingerprint → CursorToken
  token_of position filters = record {
    version = cursor_version;
    sort = position.sort;
    last_value = position.last_value;
    tiebreaker = position.tiebreaker;
    filter = to_hex filters.bytes;
  }

  decoded :
      (position : CursorPosition) (issued filters : FilterFingerprint)
      → IsBytes issued.bytes
      → IsBytes filters.bytes
      → position_of wire filters (token_of position issued)
        ≡ (if text_eq issued.bytes filters.bytes then ok position else err filter_mismatch)
  unfolding position_of
  decoded position issued filters h k =
      let same = to_hex-text_eq issued.bytes filters.bytes h k in
      elim (Bool-cases (text_eq issued.bytes filters.bytes)) [
        | inl equal ↦ rw (same, equal) refl
        | inr other ↦ rw (same, other) refl
      ]

  read_back :
      (position : CursorPosition) (issued filters : FilterFingerprint) (token : CursorToken)
      (bytes : B)
      → len (wire.base64_encode bytes) ≤ max_cursor_bytes
      → wire.base64_decode (wire.base64_encode bytes) ≡ some bytes
      → wire.version_of bytes ≡ some cursor_version
      → wire.from_slice bytes ≡ some token
      → decode wire (wire.base64_encode bytes) filters ≡ position_of wire filters token
  unfolding decode
  read_back position issued filters token bytes short read version payload =
      let fits : ltb max_cursor_bytes (len (wire.base64_encode bytes)) ≡ false =
        ground (arith, short) in
      rw (fits, read, version, payload) refl

  -- A cursor of at most 1024 bytes is read back, under the fingerprint it was issued for, as the
  -- position that it was made of, and under any other as one for different filters: provided
  -- base64 and JSON read back what they write, and fingerprints are bytes.
  pub decode-encode :
      (position : CursorPosition) (issued filters : FilterFingerprint)
      → ReadsBack
      → IsBytes issued.bytes
      → IsBytes filters.bytes
      → len (encode wire position issued) ≤ max_cursor_bytes
      → decode wire (encode wire position issued) filters
        ≡ (if text_eq issued.bytes filters.bytes then ok position else err filter_mismatch)
  unfolding encode
  decode-encode position issued filters laws h k short =
      let (bytes, written, version, payload) = laws.1 (token_of position issued) in
      let e : encode wire position issued ≡ wire.base64_encode bytes =
        ap (λ o. wire.base64_encode (or_default o wire.no_bytes)) written in
      ap (λ t. decode wire t filters) e
      ∙ read_back position issued filters (token_of position issued) bytes
          (subst (λ t. len t ≤ max_cursor_bytes) e short) (laws.0 bytes) version payload
      ∙ decoded position issued filters h k
