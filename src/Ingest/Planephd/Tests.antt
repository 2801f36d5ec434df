-- ===== src/Ingest/Planephd/Tests.antt =====
-- The preflight and the import of a document with two aircraft, and the theorems at concrete inputs.
use Prim.Native.Nat.{◌<◌}
use mathlib.Core.Path.{◌≡◌, refl}
use mathlib.Core.Option.{none}
use mathlib.Core.List.{List, [], ◌∷◌}
use aircraft_api_r.Prelude.{arith, ok, err, All, length}
use aircraft_api_r.Prelude.Dict.{lookup}
use aircraft_api_r.Prelude.Text.{Text, codes, text_eq}
use aircraft_api_r.Prelude.Text.Search.{trim_end_matches, trim_start_matches, strip_suffix}
use aircraft_api_r.Prelude.Json.{no_members, null, object, entries}
use aircraft_api_r.Ingest.Artifact.{hex_digest, hex_char}
use aircraft_api_r.App.Persistence.{IsBytes}
use aircraft_api_r.App.Ingestion.Types.{ImportRequest, ready}
use aircraft_api_r.App.Ingestion.Record.{IngestIssue, PreparedAircraftRecord}
use aircraft_api_r.App.Ingestion.Service.{IngestionPorts, import_records, start_report}
use aircraft_api_r.Domain.ProductionYears.{production_years_new, check_order, check_year}
use aircraft_api_r.Ingest.Noted.{◌>>=◌}
use aircraft_api_r.Ingest.Fields.{
  numeric, numeric_integer, scalar, integer, boolean, boolean_value, nested, nested_value,
}
use aircraft_api_r.Ingest.Names.{
  parsed_production_range, trailing_parenthetical, range_within, source_record_key,
}
use aircraft_api_r.Ingest.Items.{measurements, cost_items}
use aircraft_api_r.Ingest.Images.{image_items}
use aircraft_api_r.Ingest.Stated.{
  stated_years, production_range, range_or_none, name_issues, unsupported_fields, years_issue,
}
use aircraft_api_r.Ingest.Normalize.{
  normalize_record, empty_record, promoted_record, promoted_details,
}
use aircraft_api_r.Ingest.Tests.{formats}
use aircraft_api_r.Ingest.Planephd.{
  Aircraft, outcome_of, preflight_document, read_document, visit_manufacturers, visit_aircraft,
  validation, summary, tally, tally_loop, no_tally, with_errors, with_duplicate,
}
use aircraft_api_r.Ingest.Planephd.Accepted.{NoErrors, DistinctRecords, Reported}
use aircraft_api_r.Ingest.Planephd.Preflight.{
  summary_of, preflight_document-ok_iff, preflight_document-validation,
}
use aircraft_api_r.Ingest.Planephd.Import.{report_of}
use aircraft_api_r.Ingest.Planephd.Completed.{import_records-preflight_document}

bytes : (s : Text) → IsBytes (formats.sha256 s)
bytes [] = tt
bytes (c ∷ s) = (omega arith, bytes s)

abbrev document : List (Text × Aircraft)
document =
    (codes "CESSNA", (codes "172S", object no_members) ∷ (codes "182T", object no_members) ∷ [])
    ∷ []

abbrev records : List PreparedAircraftRecord
records = visit_manufacturers formats document

length-records : length records ≡ 2
unfolding visit_manufacturers visit_aircraft
length-records = refl

NoErrors-records : All NoErrors records
unfolding visit_manufacturers visit_aircraft normalize_record promoted_record stated_years
    promoted_details ◌>>=◌ scalar integer boolean boolean_value production_range range_or_none
    parsed_production_range trailing_parenthetical range_within lookup entries trim_end_matches
    trim_start_matches strip_suffix name_issues unsupported_fields years_issue production_years_new
    check_order check_year nested nested_value measurements numeric numeric_integer cost_items
    image_items
NoErrors-records = (refl, (refl, tt))

DistinctRecords-records : DistinctRecords records
unfolding visit_manufacturers visit_aircraft normalize_record promoted_record promoted_details ◌>>=◌
    source_record_key hex_digest hex_char text_eq
DistinctRecords-records = ((refl, tt), (tt, tt))

preflight_document-ok_iff_example :
    preflight_document formats (document, none) ≡ ok (summary_of formats records)
preflight_document-ok_iff_example =
    (preflight_document-ok_iff formats document none (summary_of formats records)).1
      (refl, omega (arith, length-records), NoErrors-records, DistinctRecords-records, refl)

abbrev not_object : List (Text × Aircraft)
not_object = (codes "CESSNA", (codes "172S", null) ∷ []) ∷ []

abbrev found : List IngestIssue
found = (tally_loop no_tally (visit_manufacturers formats not_object)).errors

refused : preflight_document formats (not_object, none) ≡ err (validation found)
unfolding preflight_document visit_manufacturers visit_aircraft normalize_record empty_record
    summary tally_loop tally with_errors with_duplicate
refused = refl

preflight_document-validation_example : (0 < length found) × Reported found
preflight_document-validation_example =
    preflight_document-validation formats not_object none found refused

abbrev ports : IngestionPorts (Unit {0})
ports = record {
  start_import = λ request w. (ok (ready 3 1), w);
  mark_failed = λ run_id attempt_id failure_code message w. w;
  stage_and_promote = λ r w. (ok (outcome_of r), w);
  refresh_read_models = λ w. (ok tt, w);
  mark_succeeded = λ report w. (ok tt, w);
  commit = λ w. (ok tt, w);
  rollback = λ w. w;
  sha256 = formats.sha256;
  to_string = λ e. codes "failed";
}

abbrev request : ImportRequest
request = record {
  source = record {
    slug = codes "planephd";
    name = codes "PlanePHD";
    base_url = none;
    parser_name = codes "planephd-json";
    parser_version = codes "1";
  };
  artifact = record {
    content_sha256 = codes "00";
    byte_length = 9;
    display_locator = codes "file";
    captured_at = 0;
  };
  preflight = summary_of formats records;
}

import_records-preflight_document_example :
    (import_records ports request (read_document formats (document, none)) tt).0
    ≡ ok (report_of (start_report request 3 1) records)
import_records-preflight_document_example =
    import_records-preflight_document ports formats request 3 1 (λ r w. refl) (λ w. refl)
      (λ report w. refl) (λ w. refl) (λ s. refl) bytes document tt preflight_document-ok_iff_example
      refl
