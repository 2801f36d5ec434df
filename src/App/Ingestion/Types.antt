-- ===== src/App/Ingestion/Types.antt =====
-- The values of the ingestion service: crates/aircraft_app/src/services/ingestion.rs. Timestamps,
-- identifiers and counters are numbers.
use Prim.Native.Nat.{ℕ}
use mathlib.Core.Bool.{Bool}
use mathlib.Core.Option.{Option}
use aircraft_api_r.Prelude.Text.{Text, codes}
use aircraft_api_r.App.Persistence.{PersistenceError, persistence_code}

abbrev pub report_schema_version : ℕ
report_schema_version = 2

pub record SourceDescriptor : Type 0 where
  pub slug : Text
  pub name : Text
  pub base_url : Option Text
  pub parser_name : Text
  pub parser_version : Text

pub record ArtifactDescriptor : Type 0 where
  pub content_sha256 : Text
  pub byte_length : ℕ
  pub display_locator : Text
  pub captured_at : ℕ

pub record PreflightSummary : Type 0 where
  pub record_count : ℕ
  pub warning_count : ℕ
  pub record_keys_sha256 : Text

pub record ImportRequest : Type 0 where
  pub source : SourceDescriptor
  pub artifact : ArtifactDescriptor
  pub preflight : PreflightSummary

pub data ImportStatus : Type 0 where
  received : ImportStatus
  importing : ImportStatus
  succeeded : ImportStatus
  validation_failed : ImportStatus
  failed : ImportStatus

pub record ImportReport : Type 0 where
  pub schema_version : ℕ
  pub run_id : ℕ
  pub attempt_id : ℕ
  pub status : ImportStatus
  pub content_sha256 : Text
  pub staged_records : ℕ
  pub promoted_records : ℕ
  pub flagged_records : ℕ
  pub warning_count : ℕ
  pub already_imported : Bool

pub data RecordDisposition : Type 0 where
  promoted : RecordDisposition
  flagged : RecordDisposition

pub record RecordOutcome : Type 0 where
  pub staged : Bool
  pub disposition : RecordDisposition
  pub warning_count : ℕ

pub data PreparedInputError : Type 0 where
  invalid : (code message : Text) → PreparedInputError

unfoldable pub input_error_code : PreparedInputError → Text
input_error_code (invalid code message) = code

pub data ImportError : Type 0 where
  already_running : ImportError
  input : PreparedInputError → ImportError
  persistence : PersistenceError → ImportError
  parser_consistency : (expected actual : ℕ) → ImportError
  warning_count_mismatch : (expected actual : ℕ) → ImportError
  parser_record_keys_mismatch : ImportError

unfoldable pub import_code : ImportError → Text
import_code already_running = codes "IMPORT_ALREADY_RUNNING"
import_code (input e) = input_error_code e
import_code (persistence e) = persistence_code e
import_code (parser_consistency expected actual) = codes "PARSER_RECORD_COUNT_MISMATCH"
import_code (warning_count_mismatch expected actual) = codes "PARSER_WARNING_COUNT_MISMATCH"
import_code parser_record_keys_mismatch = codes "PARSER_RECORD_KEYS_MISMATCH"

pub data ImportStart : Type 0 where
  already_succeeded : ImportReport → ImportStart
  busy : ImportStart
  ready : (run_id attempt_id : ℕ) → ImportStart
