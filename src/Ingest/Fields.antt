-- ===== src/Ingest/Fields.antt =====
-- Fields of a record: `issue`, `scalar` and the readers of crates/aircraft_ingest/src/normalization.rs.
pub mod Quiet
use mathlib.Core.Bool.{Bool, true, false, ◌||◌}
use mathlib.Core.Option.{Option, none, some}
use mathlib.Core.List.{List, [], ◌∷◌}
use aircraft_api_r.Prelude.{if◌then◌else◌, take, map_option, Eq}
use aircraft_api_r.Prelude.Dict.{Dict, lookup}
use aircraft_api_r.Prelude.Text.{Text, Text-Eq, codes, text_eq}
use aircraft_api_r.Prelude.Text.Search.{trim, to_ascii_lowercase}
use aircraft_api_r.Prelude.Integers.{ℤ}
use aircraft_api_r.Prelude.Json.{
  Value, Values, Members, null, bool, number, string, array, object, entries,
}
use aircraft_api_r.App.Ingestion.Record.{IngestIssue, IssueSeverity, warning, error}
use aircraft_api_r.App.Ingestion.Service.{keep_visible}
use aircraft_api_r.Ingest.Noted.{Noted, pure, ◌>>=◌, note, absent, when_some}
use aircraft_api_r.Ingest.Scalars.{parse_sentinel, parse_numeric}

-- `serde_json`'s map
abbrev pub Object : Type 0
Object = Dict Text Value

unfoldable pub value_text : Value → Option Text
value_text null = none
value_text (string v) = parse_sentinel v
value_text (number v) = some v
value_text (bool true) = some (codes "true")
value_text (bool false) = some (codes "false")
value_text (array vs) = none
value_text (object fs) = none

abbrev pub boolean_of : Text → Option Bool
boolean_of word =
    if text_eq word (codes "true") || text_eq word (codes "yes") || text_eq word (codes "1")
    then some true
    else if text_eq word (codes "false") || text_eq word (codes "no") || text_eq word (codes "0")
    then some false
    else none

-- `Value::to_string` is a parameter.
module _ (json_text : Value → Text) where
  unfoldable pub raw_text : Option Value → Option Text
  raw_text raw = map_option (λ v. take 256 (keep_visible (json_text v))) raw

  abbrev pub issue : Text → IssueSeverity → Text → Text → Option Value → IngestIssue
  issue code severity path message raw = record {
    code = code;
    severity = severity;
    field_path = path;
    message = message;
    raw_value = raw_text raw;
  }

  abbrev pub warn : Text → Text → Text → Option Value → IngestIssue
  warn code path message raw = issue code warning path message raw

  unfoldable pub nested_value : Text → Option Value → Noted (Option Object)
  nested_value field none = pure none
  nested_value field (some null) = pure none
  nested_value field (some (object fs)) = pure (some (entries fs))
  nested_value field (some v) =
      absent
        (warn (codes "FIELD_NOT_OBJECT") field (codes "nested field must be an object") (some v))

  unfoldable pub nested : Object → Text → Noted (Option Object)
  nested fields field = nested_value field (lookup field fields)

  unfoldable pub scalar : Option Value → Text → Noted (Option Text)
  scalar none field = pure none
  scalar (some null) field = pure none
  scalar (some (array vs)) field = absent (
      warn (codes "FIELD_NOT_SCALAR") field (codes "field must be a scalar value")
        (some (array vs)))
  scalar (some (object fs)) field = absent (
      warn (codes "FIELD_NOT_SCALAR") field (codes "field must be a scalar value")
        (some (object fs)))
  scalar (some v) field = pure (value_text v)

  -- `or_else`: the parsed value, or none and the issue.
  unfoldable pub or_note : {A : Type 0} → Option A → IngestIssue → Noted (Option A)
  or_note none i = absent i
  or_note (some a) i = pure (some a)

  -- With the parser of the integer type.
  unfoldable pub integer : (Text → Option ℤ) → Object → Text → Noted (Option ℤ)
  integer parse fields field = do
    text ← scalar (lookup field fields) field
    when_some text (λ v. or_note (parse v) (
        warn (codes "INVALID_INTEGER_FIELD") field (codes "field is not an integer")
          (lookup field fields)))

  unfoldable pub numeric : Option Value → Text → Noted (Option Text)
  numeric v field = do
    text ← scalar v field
    when_some text (λ raw.
        or_note (parse_numeric raw) (
          warn (codes "INVALID_NUMERIC_FIELD") field (codes "field has no valid numeric prefix") v))

  unfoldable pub numeric_integer : (Text → Option ℤ) → Option Value → Text → Noted (Option ℤ)
  numeric_integer parse v field = do
    text ← numeric v field
    when_some text (λ parsed. or_note (parse parsed) (
        warn (codes "INVALID_INTEGER_FIELD") field
          (codes "numeric field is not an integer in the supported range") v))

  unfoldable pub boolean_value : Text → Option Value → Noted (Option Bool)
  boolean_value field none = pure none
  boolean_value field (some (bool b)) = pure (some b)
  boolean_value field (some (string v)) = or_note (boolean_of (to_ascii_lowercase (trim v))) (
      warn (codes "INVALID_BOOLEAN_FIELD") field (codes "field is not a boolean") (some (string v)))
  boolean_value field (some v) =
      absent (warn (codes "INVALID_BOOLEAN_FIELD") field (codes "field is not a boolean") (some v))

  unfoldable pub boolean : Object → Text → Noted (Option Bool)
  boolean fields field = boolean_value field (lookup field fields)
