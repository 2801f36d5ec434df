-- ===== src/Ingest/Normalize.antt =====
-- `normalize_record` of crates/aircraft_ingest/src/normalization.rs.
pub mod Promoted
pub mod Errors
use Prim.Native.Nat.{ℕ}
use Prim.Native.String.{String}
use mathlib.Core.Bool.{Bool, true, false, not}
use mathlib.Core.Option.{Option, none, some}
use mathlib.Core.List.{List, [], ◌∷◌, ◌++◌}
use aircraft_api_r.Prelude.{if◌then◌else◌, map_option, any, Eq, Result, ok, err}
use aircraft_api_r.Prelude.Dict.{Dict, lookup}
use aircraft_api_r.Prelude.Text.{Text, Text-Eq, codes, text_eq, is_empty}
use aircraft_api_r.Prelude.Text.Search.{and_then, trim, to_ascii_lowercase}
use aircraft_api_r.Prelude.Text.Signed.{parse_i16, parse_i32}
use aircraft_api_r.Prelude.Integers.{ℤ}
use aircraft_api_r.Prelude.Json.{
  Value, Values, Members, null, bool, number, string, array, object, entries,
}
use aircraft_api_r.App.Ingestion.Record.{
  IngestIssue, IssueSeverity, warning, error, PreparedAircraftRecord, AircraftIdentityInput,
  LifecycleInput, PropulsionInput,
}
use aircraft_api_r.Domain.ProductionYears.{
  ProductionYears, IngestionInvariantError, production_years_new, invariant_error_text,
}
use aircraft_api_r.Domain.Confidence.{scraped_source}
use aircraft_api_r.Ingest.Noted.{Noted, pure, ◌>>=◌, ◌>>◌, note, note_if, when_some}
use aircraft_api_r.Ingest.Fields.{
  Object, issue, nested, scalar, integer, numeric, numeric_integer, boolean, value_text,
}
use aircraft_api_r.Ingest.Vocabulary.{known_fields, perf_code, weight_code}
use aircraft_api_r.Ingest.Prose.{
  variant_type, service_status, landing_gear_type, propulsion_category,
}
use aircraft_api_r.Ingest.Names.{
  ProductionRange, no_range, parsed_production_range, occupants, parse_engine_count,
  source_record_key,
}
use aircraft_api_r.Ingest.Items.{Formats, measurements, cost_items, warning_at}
use aircraft_api_r.Ingest.Images.{or_else, normalized_url, image_items}
use aircraft_api_r.Ingest.Stated.{
  error_at, unsupported_fields, years_issue, name_issues, stated_years,
}

module _ (formats : Formats) where
  unfoldable pub empty_record : Text → Text → Value → List IngestIssue → PreparedAircraftRecord
  empty_record manufacturer aircraft raw issues =
      let key = source_record_key formats.sha256 manufacturer aircraft in
      record {
        source_record_key = key;
        identity = record {
          manufacturer_name = trim manufacturer;
          aircraft_name = trim aircraft;
          source_link = none;
          page_url = none;
          title = none;
          description = none;
        };
        lifecycle = record {
          variant_type = none;
          landing_gear = none;
          service_status = none;
          production_start_year = none;
          production_end_year = none;
          is_in_production = none;
          passenger_capacity = none;
          crew_count = none;
        };
        performance = record { measurements = [] };
        weights = record { measurements = [] };
        propulsion = record {
          category = none;
          manufacturer = none;
          model = none;
          horsepower = none;
          thrust_newtons = none;
          engine_count = none;
          tbo_hours = none;
          tbo_years = none;
        };
        valuation = record { papi_price_estimate = none; for_sale_count = none };
        operating_costs = record { items = [] };
        images = [];
        provenance = record {
          source_system_key = key;
          source_url = none;
          source_path = none;
          confidence = scraped_source;
        };
        issues = issues;
        raw_document = raw;
      }

  abbrev pub page_url_of : Option Text → Noted (Option Text)
  page_url_of text = when_some text (λ v. normalized_url formats v (codes "page_url"))

  -- A reader of the engine, which is nothing where there is no engine.
  abbrev pub of_engine {ℓ} :
      {A : Type ℓ}
      → Option Object
      → Text
      → (Option Value → Text → Noted (Option A))
      → Noted (Option A)
  of_engine none field read = pure none
  of_engine (some fields) field read = read (lookup field fields) (codes "engine." ++ field)

  -- The horsepower of the performance, or its thrust.
  unfoldable pub engine_count : Option Object → Option ℤ
  engine_count performance = and_then performance (λ fields.
      and_then (or_else (lookup (codes "horsepower") fields) (lookup (codes "thrust") fields))
        (λ v. and_then (value_text v) parse_engine_count))

  abbrev pub occupants_of : Option Text → Option ℤ × Option ℤ
  occupants_of none = (none, none)
  occupants_of (some description) = occupants description

  -- What is read once the years are known.
  unfoldable pub promoted_details :
      Text
      → Text
      → Value
      → Object
      → Option Text
      → Option Bool
      → Option ℤ
      → Option ℤ
      → Noted PreparedAircraftRecord
  promoted_details manufacturer aircraft raw fields description in_production start end = do
    perf_object ← nested formats.json_text fields (codes "performance")
    weight_object ← nested formats.json_text fields (codes "weights")
    engine ← nested formats.json_text fields (codes "engine")
    costs ← nested formats.json_text fields (codes "ownership_costs")
    performance ← measurements formats perf_object (codes "performance") perf_code
    weights ← measurements formats weight_object (codes "weights") weight_code
    source_link ←
        scalar formats.json_text (lookup (codes "source_link") fields) (codes "source_link")
    page ← scalar formats.json_text (lookup (codes "page_url") fields) (codes "page_url")
    page_url ← page_url_of page
    horsepower ← of_engine engine (codes "horsepower") (numeric formats.json_text)
    thrust ← of_engine engine (codes "thrust") (numeric formats.json_text)
    title ← scalar formats.json_text (lookup (codes "title") fields) (codes "title")
    engine_maker ← of_engine engine (codes "manufacturer") (scalar formats.json_text)
    engine_model ← of_engine engine (codes "model") (scalar formats.json_text)
    tbo_hours ← of_engine engine (codes "overhaul_ht") (numeric_integer formats.json_text parse_i32)
    tbo_years ←
        of_engine engine (codes "years_before_overhaul")
          (numeric_integer formats.json_text parse_i32)
    price ←
        numeric formats.json_text (lookup (codes "papi_price_estimate") fields)
          (codes "papi_price_estimate")
    for_sale ←
        numeric_integer formats.json_text parse_i32 (lookup (codes "for_sale_count") fields)
          (codes "for_sale_count")
    items ← cost_items formats costs
    images ← image_items formats (lookup (codes "images") fields)
    let prose = map_option to_ascii_lowercase description
    let key = source_record_key formats.sha256 manufacturer aircraft
    pure (record {
      source_record_key = key;
      identity = record {
        manufacturer_name = trim manufacturer;
        aircraft_name = trim aircraft;
        source_link = source_link;
        page_url = page_url;
        title = title;
        description = description;
      };
      lifecycle = record {
        variant_type = variant_type start;
        landing_gear = and_then prose landing_gear_type;
        service_status = service_status in_production;
        production_start_year = start;
        production_end_year = end;
        is_in_production = in_production;
        passenger_capacity = (occupants_of description).0;
        crew_count = (occupants_of description).1;
      };
      performance = record { measurements = performance };
      weights = record { measurements = weights };
      propulsion = record {
        category = and_then prose propulsion_category;
        manufacturer = engine_maker;
        model = engine_model;
        horsepower = horsepower;
        thrust_newtons = thrust;
        engine_count = engine_count perf_object;
        tbo_hours = tbo_hours;
        tbo_years = tbo_years;
      };
      valuation = record { papi_price_estimate = price; for_sale_count = for_sale };
      operating_costs = record { items = items };
      images = images;
      provenance = record {
        source_system_key = key;
        source_url = page_url;
        source_path = source_link;
        confidence = scraped_source;
      };
      issues = [];
      raw_document = raw;
    })

  -- The record of an object, whose issues are beside it.
  unfoldable pub promoted_record : Text → Text → Value → Object → Noted PreparedAircraftRecord
  promoted_record manufacturer aircraft raw fields = do
    name_issues formats manufacturer aircraft
    unsupported_fields formats fields
    stated ← stated_years formats aircraft fields
    years_issue formats (production_years_new stated.2 stated.3)
    promoted_details manufacturer aircraft raw fields stated.0 stated.1 stated.2 stated.3

  abbrev pub with_issues : Noted PreparedAircraftRecord → PreparedAircraftRecord
  with_issues (r, raised) = record r { issues = raised }

  unfoldable pub normalize_record : Text → Text → Value → PreparedAircraftRecord
  normalize_record manufacturer aircraft (object fs) =
      with_issues (promoted_record manufacturer aircraft (object fs) (entries fs))
  normalize_record manufacturer aircraft raw = empty_record manufacturer aircraft raw (
      error_at formats (codes "$") (codes "RECORD_NOT_OBJECT")
        (codes "aircraft record must be a JSON object") (some raw)
      ∷ [])
