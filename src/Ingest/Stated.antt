-- ===== src/Ingest/Stated.antt =====
-- What a record states before anything is promoted: its names, its fields and its production, from
-- `normalize_record` of crates/aircraft_ingest/src/normalization.rs.
use mathlib.Core.Bool.{Bool, not}
use mathlib.Core.Option.{Option, none, some}
use mathlib.Core.List.{[], ◌∷◌}
use aircraft_api_r.Prelude.{any, Result, ok, err}
use aircraft_api_r.Prelude.Dict.{lookup}
use aircraft_api_r.Prelude.Text.{Text, Text-Eq, codes, text_eq, is_empty}
use aircraft_api_r.Prelude.Text.Search.{trim}
use aircraft_api_r.Prelude.Text.Signed.{parse_i16}
use aircraft_api_r.Prelude.Integers.{ℤ}
use aircraft_api_r.Prelude.Json.{Value}
use aircraft_api_r.App.Ingestion.Record.{IngestIssue, warning, error}
use aircraft_api_r.Domain.ProductionYears.{
  ProductionYears, IngestionInvariantError, invariant_error_text,
}
use aircraft_api_r.Ingest.Noted.{Noted, pure, ◌>>=◌, ◌>>◌, note, note_if}
use aircraft_api_r.Ingest.Fields.{Object, issue, scalar, integer, boolean}
use aircraft_api_r.Ingest.Vocabulary.{known_fields}
use aircraft_api_r.Ingest.Names.{ProductionRange, no_range, parsed_production_range}
use aircraft_api_r.Ingest.Items.{Formats, warning_at}
use aircraft_api_r.Ingest.Images.{or_else}

module _ (formats : Formats) where
  abbrev pub error_at : Text → Text → Text → Option Value → IngestIssue
  error_at path code message raw = issue formats.json_text code error path message raw

  -- The loop over the fields that are not promoted.
  unfoldable pub unsupported_fields : Object → Noted (Unit {0})
  unsupported_fields [] = pure tt
  unsupported_fields ((field, v) ∷ rest) = do
    note_if (not (any (text_eq field) known_fields)) (
        warning_at formats field (codes "UNSUPPORTED_RECORD_FIELD")
          "field is preserved in raw JSON but is not promoted" (some v))
    unsupported_fields rest

  unfoldable pub range_or_none : Result Text ProductionRange → Noted ProductionRange
  range_or_none (ok range) = pure range
  range_or_none (err what) = (
    no_range,
    issue formats.json_text (codes "UNPARSEABLE_PRODUCTION_RANGE") warning (codes "$.<aircraft>")
          what none
        ∷ [],
  )

  unfoldable pub production_range : Text → Noted ProductionRange
  production_range aircraft = range_or_none (parsed_production_range aircraft)

  unfoldable pub years_issue : Result IngestionInvariantError ProductionYears → Noted (Unit {0})
  years_issue (ok years) = pure tt
  years_issue (err failure) = note (
      error_at (codes "production_years") (codes "INVALID_PRODUCTION_YEARS")
        (invariant_error_text failure) none)

  -- The errors of the two names.
  unfoldable pub name_issues : Text → Text → Noted (Unit {0})
  name_issues manufacturer aircraft = do
    note_if (is_empty (trim manufacturer)) (
        error_at (codes "$.<manufacturer>") (codes "MANUFACTURER_NAME_EMPTY")
          (codes "manufacturer key must not be empty") none)
    note_if (is_empty (trim aircraft)) (
        error_at (codes "$.<manufacturer>.<aircraft>") (codes "AIRCRAFT_NAME_EMPTY")
          (codes "aircraft key must not be empty") none)

  -- The description, and the production: whether it goes on, its first year and its last.
  abbrev pub Stated : Type 0
  Stated = Option Text × Option Bool × Option ℤ × Option ℤ

  -- What the fields state comes before what the name of the aircraft spells.
  unfoldable pub stated_years : Text → Object → Noted Stated
  stated_years aircraft fields = do
    description ←
        scalar formats.json_text (lookup (codes "description") fields) (codes "description")
    range ← production_range aircraft
    stated_production ← boolean formats.json_text fields (codes "in_production")
    stated_start ← integer formats.json_text parse_i16 fields (codes "start_year")
    stated_end ← integer formats.json_text parse_i16 fields (codes "end_year")
    pure (
      description,
      or_else stated_production range.2,
      or_else stated_start range.0,
      or_else stated_end range.1,
    )
