-- ===== src/App/Ingestion/Service.antt =====
-- `IngestionService::import`, `consume_records` and the audit of failures, from
-- crates/aircraft_app/src/services/ingestion.rs. The trace events are left out.
pub mod Outcome
pub mod Message
pub mod Audit
use Prim.Native.Nat.{ℕ, ◌+◌}
use mathlib.Core.Bool.{Bool, true, false, not}
use mathlib.Core.Option.{Option, none, some}
use mathlib.Core.List.{List, [], ◌∷◌, ◌++◌}
use aircraft_api_r.Prelude.{◌==◌, if◌then◌else◌, Result, ok, err, find, take}
use aircraft_api_r.Prelude.Text.{Text, text_eq, is_control}
use aircraft_api_r.App.Persistence.{PersistenceError, hex_digest}
use aircraft_api_r.App.Ingestion.Types.{
  ImportRequest, ImportReport, RecordOutcome, RecordDisposition, PreparedInputError, ImportError,
  ImportStart, ImportStatus, promoted, flagged, invalid, already_running, input, persistence,
  parser_consistency, warning_count_mismatch, parser_record_keys_mismatch, already_succeeded, busy,
  ready, succeeded, report_schema_version, import_code,
}
use aircraft_api_r.App.Ingestion.Record.{
  IngestIssue, IssueSeverity, PreparedAircraftRecord, warning, error,
}

-- The store, the unit of work, the digest of bytes and the text of an error. What a
-- port does to the world is its second component.
pub record IngestionPorts (W : Type 0) : Type 0 where
  pub start_import : ImportRequest → W → Result PersistenceError ImportStart × W
  pub mark_failed : (run_id attempt_id : ℕ) → (failure_code message : Text) → W → W
  pub stage_and_promote : PreparedAircraftRecord → W → Result PersistenceError RecordOutcome × W
  pub refresh_read_models : W → Result PersistenceError (Unit {0}) × W
  pub mark_succeeded : ImportReport → W → Result PersistenceError (Unit {0}) × W
  pub commit : W → Result PersistenceError (Unit {0}) × W
  pub rollback : W → W
  pub sha256 : Text → List ℕ
  pub to_string : ImportError → Text

abbrev pub keep_visible : Text → Text
keep_visible [] = []
keep_visible (c ∷ s) = let rest = keep_visible s in if is_control c then rest else c ∷ rest

unfoldable pub sanitize_failure : Text → Text
sanitize_failure message = take 1000 (keep_visible message)

abbrev pub is_error : IngestIssue → Bool
is_error issue = elim issue.severity [ warning ↦ false | error ↦ true ]

-- The count, the bytes hashed so far, and the report.
pub record Progress : Type 0 where
  pub count : ℕ
  pub record_keys : Text
  pub report : ImportReport

unfoldable pub start_report : ImportRequest → ℕ → ℕ → ImportReport
start_report request run_id attempt_id = record {
  schema_version = report_schema_version;
  run_id = run_id;
  attempt_id = attempt_id;
  status = succeeded;
  content_sha256 = request.artifact.content_sha256;
  staged_records = 0;
  promoted_records = 0;
  flagged_records = 0;
  warning_count = 0;
  already_imported = false;
}

abbrev flagged_by : RecordDisposition → ℕ
flagged_by promoted = 0
flagged_by flagged = 1

-- The counters after a record: either disposition promotes it.
unfoldable pub count_outcome : Progress → RecordOutcome → Progress
count_outcome p outcome = record p {
  count = p.count + 1;
  report = record p.report {
    staged_records = p.report.staged_records + (if outcome.staged then 1 else 0);
    promoted_records = p.report.promoted_records + 1;
    flagged_records = p.report.flagged_records + flagged_by outcome.disposition;
    warning_count = p.report.warning_count + outcome.warning_count;
  };
}

-- The two updates of the hash.
unfoldable pub hash_key : Progress → Text → Progress
hash_key p key = record p { record_keys = p.record_keys ++ (key ++ 0 ∷ []) }

module _ {W : Type 0} (ports : IngestionPorts W) where
  -- The checks of an issue that is an error, and then the staging.
  unfoldable pub stage : PreparedAircraftRecord → W → Result ImportError RecordOutcome × W
  stage r w = elim (find is_error r.issues) [
    | some issue ↦ (err (input (invalid issue.code issue.message)), w)
    | none ↦ staged_result (ports.stage_and_promote r w)
  ]
    where
      staged_result :
          Result PersistenceError RecordOutcome × W → Result ImportError RecordOutcome × W
      staged_result (err e, w') = (err (persistence e), w')
      staged_result (ok outcome, w') = (ok outcome, w')

  -- The loop over the reader's answers, which end with the first that holds no record.
  unfoldable pub consume_loop :
      Progress
      → List (Result PreparedInputError PreparedAircraftRecord)
      → W
      → Result ImportError Progress × W
  consume_loop p [] w = (ok p, w)
  consume_loop p (err e ∷ rest) w = (err (input e), w)
  consume_loop p (ok r ∷ rest) w = elim (stage r w).0 [
    | err e ↦ (err e, (stage r w).1)
    | ok outcome ↦
        consume_loop (count_outcome (hash_key p r.source_record_key) outcome) rest (stage r w).1
  ]

  -- The comparisons with the preflight.
  unfoldable pub check_totals : ImportRequest → Progress → Result ImportError ImportReport
  check_totals request p =
      if not (p.count == request.preflight.record_count)
      then err (parser_consistency request.preflight.record_count p.count)
      else if not
          (text_eq (hex_digest (ports.sha256 p.record_keys)) request.preflight.record_keys_sha256)
      then err parser_record_keys_mismatch
      else if not (p.report.warning_count == request.preflight.warning_count)
      then err (warning_count_mismatch request.preflight.warning_count p.report.warning_count)
      else ok p.report

  unfoldable pub refreshed :
      ImportReport → Result PersistenceError (Unit {0}) × W → Result ImportError ImportReport × W
  refreshed report (err e, w) = (err (persistence e), w)
  refreshed report (ok u, w) = (ok report, w)

  unfoldable pub after_totals :
      Result ImportError ImportReport → W → Result ImportError ImportReport × W
  after_totals (err e) w = (err e, w)
  after_totals (ok report) w = refreshed report (ports.refresh_read_models w)

  unfoldable pub after_loop :
      ImportRequest → Result ImportError Progress × W → Result ImportError ImportReport × W
  after_loop request (err e, w) = (err e, w)
  after_loop request (ok p, w) = after_totals (check_totals request p) w

  unfoldable pub consume_records :
      ImportRequest
      → List (Result PreparedInputError PreparedAircraftRecord)
      → ℕ
      → ℕ
      → W
      → Result ImportError ImportReport × W
  consume_records request records run_id attempt_id w = after_loop request (
      consume_loop
        (record { count = 0; record_keys = []; report = start_report request run_id attempt_id })
        records w)

  unfoldable pub audit_failure : ℕ → ℕ → ImportError → W → W
  audit_failure run_id attempt_id e w =
      ports.mark_failed run_id attempt_id (import_code e) (sanitize_failure (ports.to_string e)) w

  unfoldable pub rollback_and_audit : ℕ → ℕ → ImportError → W → W
  rollback_and_audit run_id attempt_id e w = audit_failure run_id attempt_id e (ports.rollback w)

  unfoldable pub committed :
      ℕ
      → ℕ
      → ImportReport
      → Result PersistenceError (Unit {0}) × W
      → Result ImportError ImportReport × W
  committed run_id attempt_id report (ok u, w) = (ok report, w)
  committed run_id attempt_id report (err e, w) =
      (err (persistence e), audit_failure run_id attempt_id (persistence e) w)

  unfoldable pub marked :
      ℕ
      → ℕ
      → ImportReport
      → Result PersistenceError (Unit {0}) × W
      → Result ImportError ImportReport × W
  marked run_id attempt_id report (ok u, w) = committed run_id attempt_id report (ports.commit w)
  marked run_id attempt_id report (err e, w) =
      (err (persistence e), rollback_and_audit run_id attempt_id (persistence e) w)

  unfoldable pub consumed :
      ℕ → ℕ → Result ImportError ImportReport × W → Result ImportError ImportReport × W
  consumed run_id attempt_id (ok report, w) =
      marked run_id attempt_id report (ports.mark_succeeded report w)
  consumed run_id attempt_id (err e, w) = (err e, rollback_and_audit run_id attempt_id e w)

  unfoldable pub started :
      ImportRequest
      → List (Result PreparedInputError PreparedAircraftRecord)
      → Result PersistenceError ImportStart × W
      → Result ImportError ImportReport × W
  started request records (err e, w) = (err (persistence e), w)
  started request records (ok (already_succeeded report), w) = (ok report, w)
  started request records (ok busy, w) = (err already_running, w)
  started request records (ok (ready run_id attempt_id), w) =
      consumed run_id attempt_id (consume_records request records run_id attempt_id w)

  unfoldable pub import_records :
      ImportRequest
      → List (Result PreparedInputError PreparedAircraftRecord)
      → W
      → Result ImportError ImportReport × W
  import_records request records w = started request records (ports.start_import request w)
