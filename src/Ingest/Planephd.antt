-- ===== src/Ingest/Planephd.antt =====
-- The adapter of crates/aircraft_ingest/src/planephd.rs. What `serde_json` reads of a file, the
-- entries in order and the error that ends them, is a parameter.
pub mod Accepted
pub mod Preflight
pub mod Import
pub mod Completed
mod Tests
use Prim.Native.Nat.{ℕ, zero, suc, ◌+◌, ◌-◌}
use mathlib.Core.Bool.{Bool, true, false, not, ◌&&◌}
use mathlib.Core.Option.{Option, none, some}
use mathlib.Core.List.{List, [], ◌∷◌, ◌++◌, map}
use aircraft_api_r.Prelude.{Result, ok, err, ◌>>=◌, ltb, if◌then◌else◌, length, take, any}
use aircraft_api_r.Prelude.Text.{Text, codes, text_eq}
use aircraft_api_r.Prelude.Json.{Value}
use aircraft_api_r.App.Ingestion.Types.{
  PreflightSummary, SourceDescriptor, PreparedInputError, invalid, RecordOutcome, RecordDisposition,
  promoted, flagged,
}
use aircraft_api_r.App.Ingestion.Record.{
  IngestIssue, IssueSeverity, warning, error, PreparedAircraftRecord,
}
use aircraft_api_r.App.Ingestion.Service.{is_error}
use aircraft_api_r.Domain.ProductionYears.{IngestionInvariantError}
use aircraft_api_r.Ingest.Items.{Formats}
use aircraft_api_r.Ingest.Normalize.{normalize_record}
use aircraft_api_r.Ingest.Artifact.{
  Disk, InputArtifact, ArtifactError, artifact_error_text, reopen, hex_digest,
}

pub data SourceError : Type 0 where
  artifact : ArtifactError → SourceError
  json : Text → SourceError
  empty_document : SourceError
  validation : List IngestIssue → SourceError
  parser_thread : Text → SourceError
  consumer_closed : SourceError

unfoldable pub source_error_code : SourceError → Text
source_error_code (artifact e) = codes "INPUT_ARTIFACT_ERROR"
source_error_code (json e) = codes "INVALID_JSON"
source_error_code empty_document = codes "EMPTY_DOCUMENT"
source_error_code (validation issues) = codes "VALIDATION_FAILED"
source_error_code (parser_thread e) = codes "PARSER_THREAD_ERROR"
source_error_code consumer_closed = codes "RECORD_CONSUMER_CLOSED"

unfoldable pub source_error_text : SourceError → Text
source_error_text (artifact e) = artifact_error_text e
source_error_text (json e) = codes "invalid PlanePHD JSON: " ++ e
source_error_text empty_document = codes "PlanePHD document contains no aircraft records"
source_error_text (validation issues) = codes "PlanePHD validation failed"
source_error_text (parser_thread e) = codes "could not start parser thread: " ++ e
source_error_text consumer_closed = codes "record consumer closed"

unfoldable pub descriptor : SourceDescriptor
descriptor = record {
  slug = codes "planephd";
  name = codes "PlanePHD";
  base_url = some (codes "https://planephd.com");
  parser_name = codes "planephd-json";
  parser_version = codes "1.8.0";
}

-- The aircraft of a manufacturer, and the manufacturers of a document.
abbrev pub Aircraft : Type 0
Aircraft = List (Text × Value)

abbrev pub Document : Type 0
Document = List (Text × Aircraft) × Option Text

abbrev pub is_warning : IngestIssue → Bool
is_warning i = elim i.severity [ warning ↦ true | error ↦ false ]

abbrev pub only : (IngestIssue → Bool) → List IngestIssue → List IngestIssue
only p [] = []
only p (i ∷ issues) = let rest = only p issues in if p i then i ∷ rest else rest

unfoldable pub warnings_of : PreparedAircraftRecord → ℕ
warnings_of r = length (only is_warning r.issues)

-- What the database answers for a record that it stages and promotes.
unfoldable pub outcome_of : PreparedAircraftRecord → RecordOutcome
outcome_of r = record {
  staged = true;
  disposition = if ltb 0 (warnings_of r) then flagged else promoted;
  warning_count = warnings_of r;
}

-- The counters of a preflight, its errors, the set of keys and the bytes that are hashed.
pub record Tally : Type 0 where
  pub record_count : ℕ
  pub warning_count : ℕ
  pub errors : List IngestIssue
  pub source_keys : List Text
  pub record_keys : Text

abbrev pub is_known : Tally → Text → Bool
is_known t key = any (text_eq key) t.source_keys

unfoldable pub duplicate_key : Text → IngestIssue
duplicate_key key = record {
  code = codes "DUPLICATE_SOURCE_RECORD_KEY";
  severity = error;
  field_path = codes "$";
  message = codes "duplicate source record key " ++ key;
  raw_value = none;
}

-- The errors with those of a record, and the one of its key.
unfoldable pub with_errors : List IngestIssue → List IngestIssue → List IngestIssue
with_errors errors issues = errors ++ take (100 - length errors) (only is_error issues)

unfoldable pub with_duplicate : Bool → Text → List IngestIssue → List IngestIssue
with_duplicate known key errors =
    if known && ltb (length errors) 100 then errors ++ duplicate_key key ∷ [] else errors

-- The callback of the preflight.
unfoldable pub tally : Tally → PreparedAircraftRecord → Tally
tally t r =
    let key = r.source_record_key in
    record {
      record_count = t.record_count + 1;
      warning_count = t.warning_count + warnings_of r;
      errors = with_duplicate (is_known t key) key (with_errors t.errors r.issues);
      source_keys = if is_known t key then t.source_keys else key ∷ t.source_keys;
      record_keys = t.record_keys ++ (key ++ 0 ∷ []);
    }

abbrev pub no_tally : Tally
no_tally = record {
  record_count = 0;
  warning_count = 0;
  errors = [];
  source_keys = [];
  record_keys = [];
}

unfoldable pub tally_loop : Tally → List PreparedAircraftRecord → Tally
tally_loop t [] = t
tally_loop t (r ∷ records) = tally_loop (tally t r) records

module _ (formats : Formats) where
  -- The visitor of the aircraft of a manufacturer: the records of its callback, in order.
  unfoldable pub visit_aircraft : Text → Aircraft → List PreparedAircraftRecord
  visit_aircraft manufacturer [] = []
  visit_aircraft manufacturer ((name, raw) ∷ rest) =
      normalize_record formats manufacturer name raw ∷ visit_aircraft manufacturer rest

  unfoldable pub visit_manufacturers : List (Text × Aircraft) → List PreparedAircraftRecord
  visit_manufacturers [] = []
  visit_manufacturers ((manufacturer, aircraft) ∷ rest) =
      visit_aircraft manufacturer aircraft ++ visit_manufacturers rest

  unfoldable pub summary : Tally → Result SourceError PreflightSummary
  summary t = elim t.record_count [
    | zero ↦ err empty_document
    | suc n ↦ elim t.errors [
      | e ∷ es ↦ err (validation (e ∷ es))
      | [] ↦ ok (record {
        record_count = suc n;
        warning_count = t.warning_count;
        record_keys_sha256 = hex_digest (formats.sha256 t.record_keys);
      })
    ]
  ]

  unfoldable pub preflight_document : Document → Result SourceError PreflightSummary
  preflight_document (manufacturers, some e) = err (json e)
  preflight_document (manufacturers, none) =
      summary (tally_loop no_tally (visit_manufacturers manufacturers))

  unfoldable pub ended : Option Text → List (Result PreparedInputError PreparedAircraftRecord)
  ended none = []
  ended (some e) = err (invalid (source_error_code (json e)) (source_error_text (json e))) ∷ []

  -- What the reader yields until it is empty.
  unfoldable pub read_document : Document → List (Result PreparedInputError PreparedAircraftRecord)
  read_document (manufacturers, end) =
      map (λ r. ok r) (visit_manufacturers manufacturers) ++ ended end

  module _ {F : Type 0} (disk : Disk F) (read_json : List ℕ → Document) where
    abbrev pub from_artifact {ℓ} : {A : Type ℓ} → Result ArtifactError A → Result SourceError A
    from_artifact (ok a) = ok a
    from_artifact (err e) = err (artifact e)

    unfoldable pub preflight : InputArtifact F → Result SourceError PreflightSummary
    preflight a = from_artifact (reopen disk a) >>= λ bytes. preflight_document (read_json bytes)

    -- With what starting the thread of the parser yields.
    unfoldable pub open_records :
        Result Text (Unit {0})
        → InputArtifact F
        → Result SourceError (List (Result PreparedInputError PreparedAircraftRecord))
    open_records (err e) a = from_artifact (reopen disk a) >>= λ bytes. err (parser_thread e)
    open_records (ok u) a =
        from_artifact (reopen disk a) >>= λ bytes. ok (read_document (read_json bytes))
