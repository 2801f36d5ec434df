-- ===== src/Api/Cursor.antt =====
-- The cursors of crates/aircraft_api/src/pagination.rs, over what base64 and serde_json make of a token.
pub mod RoundTrip
mod Tests
use Prim.Native.Nat.{ℕ, ◌/◌, ◌%◌}
use mathlib.Core.Bool.{Bool, true, false, not}
use mathlib.Core.Option.{Option, none, some}
use mathlib.Core.List.{List, [], ◌∷◌}
use aircraft_api_r.Prelude.{Result, ok, err, ◌>>=◌, ◌>>◌, guard, ok_or, ltb, ◌==◌}
use aircraft_api_r.Prelude.Text.{Text, len, text_eq}
use aircraft_api_r.App.Persistence.{hex_digit}
use aircraft_api_r.Api.Problem.{ApiProblem, ProblemKind, validation_failed}
use aircraft_api_r.Api.Problem.Instance.{Uri, problem_new}
use aircraft_api_r.App.Pagination.{PageLimit, from_requested}

abbrev pub max_cursor_bytes : ℕ
max_cursor_bytes = 1024

abbrev pub cursor_version : ℕ
cursor_version = 1

-- The payload.
pub record CursorToken : Type 0 where
  pub version : ℕ
  pub sort : Text
  pub last_value : Text
  pub tiebreaker : Text
  pub filter : Text

pub record FilterFingerprint : Type 0 where
  pub bytes : List ℕ

pub record CursorPosition : Type 0 where
  pub sort : Text
  pub last_value : Text
  pub tiebreaker : Text

pub data CursorDecodeError : Type 0 where
  malformed : CursorDecodeError
  unsupported_version : CursorDecodeError
  filter_mismatch : CursorDecodeError

-- Base64 and JSON: a payload as bytes, the version alone, and the whole payload.
pub record Wire (B : Type 0) : Type 0 where
  pub base64_encode : B → Text
  pub base64_decode : Text → Option B
  pub to_vec : CursorToken → Option B
  pub no_bytes : B
  pub version_of : B → Option ℕ
  pub from_slice : B → Option CursorToken

unfoldable pub to_hex : List ℕ → Text
to_hex [] = []
to_hex (byte ∷ bytes) = hex_digit (byte / 16) ∷ hex_digit (byte % 16) ∷ to_hex bytes

-- `Sha256` over text is a parameter.
unfoldable pub fingerprint_of : (Text → List ℕ) → Text → FilterFingerprint
fingerprint_of sha256 normalized_filters = record { bytes = sha256 normalized_filters }

-- The parameters of a request; a limit is a `NonZeroU16`.
pub record ListQuery : Type 0 where
  pub limit : Option ℕ
  pub cursor : Option Text

abbrev pub or_default {ℓ} : {B : Type ℓ} → Option B → B → B
or_default none b = b
or_default (some a) b = a

module _ {B : Type 0} (wire : Wire B) where
  unfoldable pub encode : CursorPosition → FilterFingerprint → Text
  encode position filters = wire.base64_encode (
      or_default
        (wire.to_vec (record {
          version = cursor_version;
          sort = position.sort;
          last_value = position.last_value;
          tiebreaker = position.tiebreaker;
          filter = to_hex filters.bytes;
        }))
        wire.no_bytes)

  unfoldable pub position_of :
      FilterFingerprint → CursorToken → Result CursorDecodeError CursorPosition
  position_of filters token =
      guard (text_eq token.filter (to_hex filters.bytes)) filter_mismatch
      >> ok (record {
        sort = token.sort;
        last_value = token.last_value;
        tiebreaker = token.tiebreaker;
      })

  unfoldable pub decode : Text → FilterFingerprint → Result CursorDecodeError CursorPosition
  decode token filters = do
    guard (not (ltb max_cursor_bytes (len token))) malformed
    json ← ok_or (wire.base64_decode token) malformed
    version ← ok_or (wire.version_of json) malformed
    guard (version == cursor_version) unsupported_version
    payload ← ok_or (wire.from_slice json) malformed
    position_of filters payload

  -- No cursor, or what is read of it; every refusal is the one problem.
  unfoldable pub resumed :
      (Text → Option Uri)
      → Text
      → FilterFingerprint
      → Option Text
      → Result ApiProblem (Option CursorPosition)
  resumed parse_uri instance_path filters none = ok none
  resumed parse_uri instance_path filters (some token) = elim (decode token filters) [
    | ok position ↦ ok (some position)
    | err e ↦ err (problem_new parse_uri validation_failed instance_path)
  ]

  unfoldable pub into_page_request :
      (Text → Option Uri)
      → ListQuery
      → FilterFingerprint
      → Text
      → Result ApiProblem (PageLimit × Option CursorPosition)
  into_page_request parse_uri query filters instance_path =
      resumed parse_uri instance_path filters query.cursor >>= λ cursor.
      ok (from_requested query.limit, cursor)
