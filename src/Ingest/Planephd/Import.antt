-- ===== src/Ingest/Planephd/Import.antt =====
-- An import of a document that the preflight accepted: crates/aircraft_ingest/src/planephd.rs with
-- `IngestionService::import` of crates/aircraft_app/src/services/ingestion.rs.
use Prim.Native.Nat.{ℕ, ◌+◌}
use mathlib.Core.Path.{◌≡◌, refl, sym, ap, ◌∙◌}
use mathlib.Core.Bool.{false}
use mathlib.Core.Option.{none}
use mathlib.Core.List.{List, [], ◌∷◌, ◌++◌, map, append-nil, append_assoc}
use aircraft_api_r.Prelude.{arith, ok, if◌then◌else◌, ltb, find, any, length, All}
use aircraft_api_r.Prelude.Text.{Text, text_eq_iff}
use aircraft_api_r.App.Persistence
use aircraft_api_r.App.Persistence.{PersistenceError, IsBytes}
use aircraft_api_r.App.Ingestion.Types.{ImportRequest, ImportReport}
use aircraft_api_r.App.Ingestion.Record.{IngestIssue, PreparedAircraftRecord}
use aircraft_api_r.App.Ingestion.Service.{
  IngestionPorts, Progress, is_error, start_report, count_outcome, hash_key, stage, consume_loop,
  check_totals,
}
use aircraft_api_r.App.Ingestion.Service.Outcome.{loop_next}
use aircraft_api_r.Ingest.Items.{Formats}
use aircraft_api_r.Ingest.Artifact.{hex_digest}
use aircraft_api_r.Ingest.Artifact.Capture.{hex_digest-hex_digest}
use aircraft_api_r.Ingest.Planephd.{outcome_of, warnings_of}
use aircraft_api_r.Ingest.Planephd.Accepted.{total_warnings, key_bytes, NoErrors}
use aircraft_api_r.Ingest.Planephd.Preflight.{summary_of}

-- The records with a warning.
abbrev pub flagged_count : List PreparedAircraftRecord → ℕ
flagged_count [] = 0
flagged_count (r ∷ records) = (if ltb 0 (warnings_of r) then 1 else 0) + flagged_count records

-- The report of an import of these records.
abbrev pub report_of : ImportReport → List PreparedAircraftRecord → ImportReport
report_of report records = record report {
  staged_records = report.staged_records + length records;
  promoted_records = report.promoted_records + length records;
  flagged_records = report.flagged_records + flagged_count records;
  warning_count = report.warning_count + total_warnings records;
}

abbrev pub progress_of : Progress → List PreparedAircraftRecord → Progress
progress_of p records = record {
  count = p.count + length records;
  record_keys = p.record_keys ++ key_bytes records;
  report = report_of p.report records;
}

abbrev pub nothing_read : ImportRequest → ℕ → ℕ → Progress
nothing_read request run_id attempt_id = record {
  count = 0;
  record_keys = [];
  report = start_report request run_id attempt_id;
}

counted_all :
    (p : Progress) (r : PreparedAircraftRecord) (records : List PreparedAircraftRecord)
    → progress_of (count_outcome (hash_key p r.source_record_key) (outcome_of r)) records
      ≡ progress_of p (r ∷ records)
unfolding count_outcome hash_key outcome_of
counted_all p r records =
    let o = outcome_of r in
    let q = count_outcome (hash_key p r.source_record_key) o in
    let all = r ∷ records in
    let n : q.count + length records ≡ p.count + length all = omega arith in
    let keys : q.record_keys ++ key_bytes records ≡ p.record_keys ++ key_bytes all =
      append_assoc p.record_keys (r.source_record_key ++ 0 ∷ []) (key_bytes records) in
    let staged : q.report.staged_records + length records ≡ p.report.staged_records + length all =
      omega arith in
    let made : q.report.promoted_records + length records ≡ p.report.promoted_records + length all =
      omega arith in
    let marked : q.report.flagged_records + flagged_count records
        ≡ p.report.flagged_records + flagged_count all =
      ground arith in
    let warned : q.report.warning_count + total_warnings records
        ≡ p.report.warning_count + total_warnings all =
      omega arith in
    λ i. record {
      count = n i;
      record_keys = keys i;
      report = record p.report {
        staged_records = staged i;
        promoted_records = made i;
        flagged_records = marked i;
        warning_count = warned i;
      };
    }

counted_none : (p : Progress) → p ≡ progress_of p []
counted_none p =
    let same : (n : ℕ) → n ≡ n + 0 = λ n. omega arith in
    λ i. record {
      count = same p.count i;
      record_keys = sym (append-nil p.record_keys) i;
      report = record p.report {
        staged_records = same p.report.staged_records i;
        promoted_records = same p.report.promoted_records i;
        flagged_records = same p.report.flagged_records i;
        warning_count = same p.report.warning_count i;
      };
    }

find-none : (issues : List IngestIssue) → any is_error issues ≡ false → find is_error issues ≡ none
unfolding find
find-none [] h = refl
find-none (i ∷ issues) h = ground (arith, find-none issues)

module _ {W : Type 0} (ports : IngestionPorts W) where
  stage-outcome_of :
      (r : PreparedAircraftRecord) (w : W)
      → NoErrors r
      → (ports.stage_and_promote r w).0 ≡ ok (outcome_of r)
      → (stage ports r w).0 ≡ ok (outcome_of r)
  unfolding stage
  stage-outcome_of r w good staged = rw (stage, find-none r.issues good, staged) refl

  pub consume_loop-report_of :
      (p : Progress) (records : List PreparedAircraftRecord) (w : W)
      → All NoErrors records
      → ((r : PreparedAircraftRecord) (v : W) → (ports.stage_and_promote r v).0 ≡ ok (outcome_of r))
      → (consume_loop ports p (map (λ r. ok r) records) w).0 ≡ ok (progress_of p records)
  unfolding consume_loop
  consume_loop-report_of p [] w h stages = ap ok (counted_none p)
  consume_loop-report_of p (r ∷ records) w (good, h) stages =
      let o = outcome_of r in
      let q = count_outcome (hash_key p r.source_record_key) o in
      ap (λ x. x.0)
        (loop_next ports p r (map (λ x. ok x) records) w o (stage-outcome_of r w good (stages r w)))
      ∙ consume_loop-report_of q records (stage ports r w).1 h stages
      ∙ ap ok (counted_all p r records)

  -- The checks after the loop agree with the preflight.
  pub check_totals-report_of :
      (formats : Formats) (request : ImportRequest) (run_id attempt_id : ℕ)
      (records : List PreparedAircraftRecord)
      → summary_of formats records ≡ request.preflight
      → ((s : Text) → ports.sha256 s ≡ formats.sha256 s)
      → ((s : Text) → IsBytes (formats.sha256 s))
      → check_totals ports request (progress_of (nothing_read request run_id attempt_id) records)
        ≡ ok (report_of (start_report request run_id attempt_id) records)
  unfolding check_totals start_report
  check_totals-report_of formats request run_id attempt_id records made same bytes =
      let digest =
        hex_digest-hex_digest (formats.sha256 (key_bytes records)) (bytes (key_bytes records)) in
      let found = same (key_bytes records) in
      let n : length records ≡ request.preflight.record_count = ap (λ x. x.record_count) made in
      let w : total_warnings records ≡ request.preflight.warning_count =
        ap (λ x. x.warning_count) made in
      let keys : hex_digest (formats.sha256 (key_bytes records))
          ≡ request.preflight.record_keys_sha256 =
        ap (λ x. x.record_keys_sha256) made in
      ground (
        arith,
        n,
        w,
        text_eq_iff (Persistence.hex_digest (ports.sha256 (key_bytes records)))
            request.preflight.record_keys_sha256,
        ap Persistence.hex_digest found,
        digest,
        keys,
      )
