-- ===== src/Ingest/Items.antt =====
-- The lists of a record: measurements and costs, from crates/aircraft_ingest/src/normalization.rs.
-- `Value::to_string`, the `url` crate and SHA-256 are parameters.
pub mod Sound
pub mod Quiet
use Prim.Native.Nat.{ℕ, suc}
use Prim.Native.String.{String}
use mathlib.Core.Bool.{Bool, true, false, not, ◌&&◌, ◌||◌}
use mathlib.Core.Option.{Option, none, some}
use mathlib.Core.List.{List, [], ◌∷◌, ◌++◌}
use aircraft_api_r.Prelude.{leb, if◌then◌else◌, map_option, is_some, Eq}
use aircraft_api_r.Prelude.Dict.{Dict, lookup}
use aircraft_api_r.Prelude.Text.{Text, Text-Eq, codes, text_eq}
use aircraft_api_r.Prelude.Text.Search.{and_then, starts_with}
use aircraft_api_r.Prelude.Text.Signed.{i16_max}
use aircraft_api_r.Prelude.Integers.{ℤ, pos}
use aircraft_api_r.Prelude.Json.{
  Value, Values, Members, null, bool, number, string, array, object, values, entries,
}
use aircraft_api_r.App.Ingestion.Record.{
  IngestIssue, MeasurementInput, CostItemInput, ImageMetadataInput,
}
use aircraft_api_r.Ingest.Noted.{Noted, pure, ◌>>=◌, ◌>>◌, note_if, absent, when_some}
use aircraft_api_r.Ingest.Scalars.{parse_numeric, parse_unit}
use aircraft_api_r.Ingest.Fields.{Object, scalar, value_text, warn}
use aircraft_api_r.Ingest.Vocabulary.{unit_code, unit_fits_metric}
use aircraft_api_r.Ingest.Costs.{CostCode, cost_code}
use aircraft_api_r.Ingest.Names.{dimensions_px}

-- A parsed URL: its scheme, and the text that it prints as.
pub record Url : Type 0 where
  pub scheme : Text
  pub text : Text

-- What the normalizer takes from other crates.
pub record Formats : Type 0 where
  pub json_text : Value → Text
  pub parse_url : Text → Option Url
  pub join_url : Url → Text → Option Url
  pub sha256 : Text → List ℕ

abbrev pub is_none {ℓ} : {A : Type ℓ} → Option A → Bool
is_none o = not (is_some o)

abbrev pub push_some {ℓ} : {A : Type ℓ} → Option A → List A → List A
push_some none items = items
push_some (some a) items = a ∷ items

-- `filter_map` with a function that raises issues.
unfoldable pub filter_map_noted {ℓ κ} :
    {A : Type ℓ} {B : Type κ} → (A → Noted (Option B)) → List A → Noted (List B)
filter_map_noted f [] = pure []
filter_map_noted f (a ∷ rest) = do
  item ← f a
  items ← filter_map_noted f rest
  pure (push_some item items)

module _ (formats : Formats) where
  abbrev pub warning_at : Text → Text → String → Option Value → IngestIssue
  warning_at path code message raw = warn formats.json_text code path (codes message) raw

  -- Both codes are there, and the unit does not measure the metric.
  abbrev pub misfit : Option Text → Option Text → Bool
  misfit (some metric) (some unit) = not (unit_fits_metric metric unit)
  misfit _ _ = false

  abbrev pub is_negative : Option Text → Bool
  is_negative none = false
  is_negative (some parsed) = starts_with (codes "-") parsed

  abbrev pub unless {ℓ} : {A : Type ℓ} → Bool → Option A → Option A
  unless true o = none
  unless false o = o

  -- A measurement, once its value is a text.
  unfoldable pub measured :
      Text → Text → Option Text → Value → Text → Noted (Option MeasurementInput)
  measured path field metric_code v raw_value = do
    let numeric_value = parse_numeric raw_value
    let raw_unit = parse_unit raw_value
    let unit = and_then raw_unit unit_code
    note_if (is_none metric_code) (
        warning_at path (codes "UNMAPPED_MEASUREMENT_FIELD")
          "measurement is preserved as a pending assertion" (some v))
    note_if (is_none numeric_value) (
        warning_at path (codes "MEASUREMENT_PARSE_FAILURE")
          "measurement has no parseable numeric prefix" (some v))
    note_if (is_some raw_unit && is_none unit) (
        warning_at path (codes "UNKNOWN_MEASUREMENT_UNIT")
          "unit is not mapped and will not be canonicalized" (some v))
    note_if (is_some metric_code && is_some numeric_value && is_none raw_unit) (
        warning_at path (codes "MISSING_MEASUREMENT_UNIT")
          "measurement has no unit and will not be canonicalized" (some v))
    note_if (misfit metric_code unit) (
        warning_at path (codes "INCOMPATIBLE_MEASUREMENT_UNIT")
          "unit does not measure this metric and will not be canonicalized" (some v))
    note_if (is_negative numeric_value) (
        warning_at path (codes "NEGATIVE_MEASUREMENT")
          "measurement is negative and will not be canonicalized" (some v))
    pure (
        some (record {
          source_field = field;
          metric_code = metric_code;
          raw_value = raw_value;
          numeric_value = unless (is_negative numeric_value) numeric_value;
          raw_unit = raw_unit;
          unit_code = unless (misfit metric_code unit) unit;
        }))

  -- The horsepower and the thrust of the performance describe the engines.
  abbrev pub describes_engine : Text → Text → Bool
  describes_engine path field =
      text_eq path (codes "performance")
      && (text_eq field (codes "horsepower") || text_eq field (codes "thrust"))

  unfoldable pub measurement :
      Text → (Text → Option Text) → Text × Value → Noted (Option MeasurementInput)
  measurement path mapping (field, v) = if describes_engine path field then pure none else do
    let field_path = path ++ (b'.' ∷ field)
    raw_value ← scalar formats.json_text (some v) field_path
    when_some raw_value (λ raw. measured field_path field (mapping field) v raw)

  unfoldable pub measurements :
      Option Object → Text → (Text → Option Text) → Noted (List MeasurementInput)
  measurements none path mapping = pure []
  measurements (some fields) path mapping = filter_map_noted (measurement path mapping) fields

  abbrev pub cost_path : Text → Text
  cost_path key = codes "ownership_costs." ++ key

  -- A cost, once its value is a text.
  unfoldable pub costed : Text → CostCode → Value → Text → Noted (Option CostItemInput)
  costed key (mapped, numeric, aggregate) v raw = do
    let amount = if numeric then parse_numeric raw else none
    note_if (is_none mapped) (
        warning_at (cost_path key) (codes "UNMAPPED_COST_KEY")
          "no cost item type matches this key; the cost is preserved for curation and excluded from canonical totals"
          (some v))
    note_if (is_some mapped && numeric && is_none amount) (
        warning_at (cost_path key) (codes "UNPARSEABLE_COST_VALUE")
          "the key is mapped but its value is not a number; the cost is preserved for curation and excluded from canonical totals"
          (some v))
    pure (
        some (record {
          source_key = key;
          raw_value = raw;
          mapped_code = mapped;
          numeric_value = amount;
          is_aggregate = aggregate;
          is_numeric = numeric;
        }))

  unfoldable pub cost_item : Text × Value → Noted (Option CostItemInput)
  cost_item (key, v) = do
    raw ← scalar formats.json_text (some v) (cost_path key)
    when_some raw (λ text. costed key (cost_code key) v text)

  unfoldable pub cost_items : Option Object → Noted (List CostItemInput)
  cost_items none = pure []
  cost_items (some fields) = filter_map_noted cost_item fields
