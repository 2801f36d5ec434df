-- ===== src/Ingest/Images.antt =====
-- The images of a record: `image_items` and `normalized_url` of
-- crates/aircraft_ingest/src/normalization.rs.
pub mod Order
pub mod Quiet
use Prim.Native.Nat.{ℕ, suc}
use mathlib.Core.Bool.{Bool, true, false, not, ◌&&◌, ◌||◌}
use mathlib.Core.Option.{Option, none, some}
use mathlib.Core.List.{List, [], ◌∷◌, ◌++◌}
use aircraft_api_r.Prelude.{leb, if◌then◌else◌, map_option, is_some, Eq}
use aircraft_api_r.Prelude.Dict.{Dict, lookup}
use aircraft_api_r.Prelude.Text.{Text, Text-Eq, codes, text_eq}
use aircraft_api_r.Prelude.Text.Search.{and_then}
use aircraft_api_r.Prelude.Text.Signed.{i16_max}
use aircraft_api_r.Prelude.Text.Decimal.{decimal}
use aircraft_api_r.Prelude.Integers.{ℤ, pos}
use aircraft_api_r.Prelude.Json.{
  Value, Values, Members, null, bool, number, string, array, object, values, entries,
}
use aircraft_api_r.App.Ingestion.Record.{ImageMetadataInput}
use aircraft_api_r.Ingest.Noted.{Noted, pure, ◌>>=◌, ◌>>◌, note_if, absent, when_some}
use aircraft_api_r.Ingest.Fields.{Object, value_text}
use aircraft_api_r.Ingest.Names.{dimensions_px}
use aircraft_api_r.Ingest.Items.{Url, Formats, is_none, push_some, warning_at}

abbrev pub or_else {ℓ} : {A : Type ℓ} → Option A → Option A → Option A
or_else none b = b
or_else (some a) b = some a

abbrev pub planephd_base : Text
planephd_base = codes "https://planephd.com/"

module _ (formats : Formats) where
  unfoldable pub resolved_url : Text → Option Url
  resolved_url raw =
      or_else (formats.parse_url raw)
        (and_then (formats.parse_url planephd_base) (λ base. formats.join_url base raw))

  unfoldable pub supported_url : Text → Text → Option Url → Noted (Option Text)
  supported_url raw field none = absent (
      warning_at formats field (codes "INVALID_URL") "URL is invalid or uses an unsupported scheme"
        (some (string raw)))
  supported_url raw field (some url) =
      if text_eq url.scheme (codes "http") || text_eq url.scheme (codes "https")
      then pure (some url.text)
      else absent (
          warning_at formats field (codes "INVALID_URL")
            "URL is invalid or uses an unsupported scheme" (some (string raw)))

  unfoldable pub normalized_url : Text → Text → Noted (Option Text)
  normalized_url raw field = supported_url raw field (resolved_url raw)

  abbrev pub image_path : ℕ → Text
  image_path position = codes "images[" ++ (decimal position ++ codes "]")

  -- An image with a reference, at a position that an `i16` holds.
  unfoldable pub placed_image : ℕ → Object → Text → Noted (Option ImageMetadataInput)
  placed_image position fields href = do
    let dimensions = and_then (lookup (codes "dimensions") fields) value_text
    let parsed = and_then dimensions dimensions_px
    note_if (is_some dimensions && is_none parsed) (
        warning_at formats (image_path position ++ codes ".dimensions")
          (codes "INVALID_IMAGE_DIMENSIONS") "expected WxH dimensions"
          (lookup (codes "dimensions") fields))
    resolved ← normalized_url href (image_path position ++ codes ".href")
    pure (
        some (record {
          array_position = pos position;
          href_raw = href;
          href_resolved = resolved;
          title = and_then (lookup (codes "title") fields) value_text;
          holder = and_then (lookup (codes "holder") fields) value_text;
          dimensions_raw = dimensions;
          width_px = map_option (λ pair. pair.0) parsed;
          height_px = map_option (λ pair. pair.1) parsed;
          is_primary = false;
        }))

  unfoldable pub linked_image : ℕ → Object → Option Text → Noted (Option ImageMetadataInput)
  linked_image position fields none = absent (
      warning_at formats (image_path position ++ codes ".href") (codes "IMAGE_HREF_MISSING")
        "image metadata has no usable href" (lookup (codes "href") fields))
  linked_image position fields (some href) =
      if leb position i16_max
      then placed_image position fields href
      else absent (
          warning_at formats (image_path position) (codes "IMAGE_POSITION_OUT_OF_RANGE")
            "image position exceeds the supported range" none)

  unfoldable pub image_item : ℕ → Value → Noted (Option ImageMetadataInput)
  image_item position (object fs) =
      linked_image position (entries fs) (and_then (lookup (codes "href") (entries fs)) value_text)
  image_item position v = absent (
      warning_at formats (image_path position) (codes "IMAGE_NOT_OBJECT")
        "image metadata must be an object" (some v))

  -- The enumeration, with the position of the next image.
  unfoldable pub image_loop : ℕ → List Value → Noted (List ImageMetadataInput)
  image_loop position [] = pure []
  image_loop position (v ∷ rest) = do
    item ← image_item position v
    items ← image_loop (suc position) rest
    pure (push_some item items)

  unfoldable pub mark_primary : List ImageMetadataInput → List ImageMetadataInput
  mark_primary [] = []
  mark_primary (first ∷ rest) = record first { is_primary = true } ∷ rest

  unfoldable pub image_items : Option Value → Noted (List ImageMetadataInput)
  image_items none = pure []
  image_items (some (array vs)) = do items ← image_loop 0 (values vs); pure (mark_primary items)
  image_items (some v) = do
    note_if true (
        warning_at formats (codes "images") (codes "IMAGES_NOT_ARRAY")
          "images metadata is not an array" (some v))
    pure []
