-- ===== src/App/Ingestion/Tests.antt =====
-- An import against a store that writes down what it is asked, and the theorems at concrete inputs.
use mathlib.Core.Path.{◌≡◌, refl}
use mathlib.Core.Bool.{true, false}
use mathlib.Core.Option.{none}
use mathlib.Core.List.{List, [], ◌∷◌}
use aircraft_api_r.Prelude.{◌≤◌, length, Result, ok, err, find}
use aircraft_api_r.Prelude.Text.{Text, codes, text_eq}
use aircraft_api_r.Prelude.Json.{null}
use aircraft_api_r.App.Persistence.{hex_digest}
use aircraft_api_r.App.Ingestion.Types.{
  ImportRequest, ImportReport, PreparedInputError, promoted, ready, succeeded, parser_consistency,
  import_code,
}
use aircraft_api_r.App.Ingestion.Record.{PreparedAircraftRecord}
use aircraft_api_r.App.Ingestion.Service.{
  IngestionPorts, import_records, started, consumed, consume_records, consume_loop, stage,
  count_outcome, hash_key, start_report, after_loop, after_totals, check_totals, refreshed, marked,
  committed, rollback_and_audit, audit_failure, sanitize_failure,
}
use aircraft_api_r.App.Ingestion.Service.Outcome.{Agrees, import_records-Agrees}
use aircraft_api_r.App.Ingestion.Service.Message.{IsVisible}
use aircraft_api_r.App.Ingestion.Service.Audit.{Audited, import_records-Audited}

data Event : Type 0 where
  staging : Event
  refreshing : Event
  marking : Event
  committing : Event
  rolling_back : Event
  failing : Text → Text → Event

abbrev Log : Type 0
Log = List Event

abbrev ports : IngestionPorts Log
ports = record {
  start_import = λ request w. (ok (ready 3 1), w);
  mark_failed = λ run_id attempt_id failure_code message w. failing failure_code message ∷ w;
  stage_and_promote = λ r w.
      (ok (record { staged = true; disposition = promoted; warning_count = 2 }), staging ∷ w);
  refresh_read_models = λ w. (ok tt, refreshing ∷ w);
  mark_succeeded = λ report w. (ok tt, marking ∷ w);
  commit = λ w. (ok tt, committing ∷ w);
  rollback = λ w. rolling_back ∷ w;
  sha256 = λ t. t;
  to_string = λ e. codes "failed";
}

abbrev request : ImportRequest
request = record {
  source = record {
    slug = codes "s";
    name = codes "S";
    base_url = none;
    parser_name = codes "p";
    parser_version = codes "1";
  };
  artifact = record {
    content_sha256 = codes "00";
    byte_length = 9;
    display_locator = codes "file";
    captured_at = 0;
  };
  preflight = record { record_count = 1; warning_count = 2; record_keys_sha256 = codes "6100" };
}

abbrev entry : PreparedAircraftRecord
entry = record {
  source_record_key = codes "a";
  identity = record {
    manufacturer_name = codes "Cessna";
    aircraft_name = codes "172";
    source_link = none;
    page_url = none;
    title = none;
    description = none;
  };
  lifecycle = record {
    variant_type = none;
    landing_gear = none;
    service_status = none;
    production_start_year = none;
    production_end_year = none;
    is_in_production = none;
    passenger_capacity = none;
    crew_count = none;
  };
  performance = record { measurements = [] };
  weights = record { measurements = [] };
  propulsion = record {
    category = none;
    manufacturer = none;
    model = none;
    horsepower = none;
    thrust_newtons = none;
    engine_count = none;
    tbo_hours = none;
    tbo_years = none;
  };
  valuation = record { papi_price_estimate = none; for_sale_count = none };
  operating_costs = record { items = [] };
  images = [];
  provenance = record {
    source_system_key = codes "a";
    source_url = none;
    source_path = none;
    confidence = 0x3E4CCCCD;
  };
  issues = [];
  raw_document = null;
}

abbrev Answers : Type 0
Answers = List (Result PreparedInputError PreparedAircraftRecord)

abbrev complete : Answers
complete = ok entry ∷ []

abbrev report : ImportReport
report = record {
  schema_version = 2;
  run_id = 3;
  attempt_id = 1;
  status = succeeded;
  content_sha256 = codes "00";
  staged_records = 1;
  promoted_records = 1;
  flagged_records = 0;
  warning_count = 2;
  already_imported = false;
}

imports :
    import_records ports request complete []
    ≡ (ok report, committing ∷ marking ∷ refreshing ∷ staging ∷ [])
unfolding import_records started consumed consume_records consume_loop stage count_outcome hash_key
    start_report after_loop after_totals check_totals refreshed marked committed find hex_digest
    text_eq
imports = refl

import_records-Agrees_example :
    Agrees ports request complete report
    × (w₂ : Log) × (ports.commit w₂ ≡ (ok tt, committing ∷ marking ∷ refreshing ∷ staging ∷ []))
import_records-Agrees_example =
    import_records-Agrees ports request complete [] []
      (committing ∷ marking ∷ refreshing ∷ staging ∷ []) 3 1 report refl imports

abbrev after_failure : Log
after_failure = failing (codes "PARSER_RECORD_COUNT_MISMATCH") (codes "failed") ∷ rolling_back ∷ []

fails : import_records ports request [] [] ≡ (err (parser_consistency 1 0), after_failure)
unfolding import_records started consumed consume_records consume_loop start_report after_loop
    after_totals check_totals rollback_and_audit audit_failure import_code sanitize_failure
fails = refl

import_records-Audited_example :
    Audited ports request [] 3 1 [] (parser_consistency 1 0) after_failure
    × IsVisible (sanitize_failure (ports.to_string (parser_consistency 1 0)))
    × (length (sanitize_failure (ports.to_string (parser_consistency 1 0))) ≤ 1000)
import_records-Audited_example =
    import_records-Audited ports request [] [] [] after_failure 3 1 (parser_consistency 1 0) refl
      fails
