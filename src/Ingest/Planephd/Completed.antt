-- ===== src/Ingest/Planephd/Completed.antt =====
-- An import that runs to its end after an accepted preflight: crates/aircraft_ingest/src/planephd.rs
-- and crates/aircraft_app/src/services/ingestion.rs.
use Prim.Native.Nat.{ℕ}
use mathlib.Core.Path.{◌≡◌, ap, ◌∙◌}
use mathlib.Core.Option.{none}
use mathlib.Core.List.{List, map, append-nil}
use aircraft_api_r.Prelude.{ok, All}
use aircraft_api_r.Prelude.Text.{Text}
use aircraft_api_r.App.Persistence.{IsBytes}
use aircraft_api_r.App.Ingestion.Types.{ImportRequest, ImportReport, ready}
use aircraft_api_r.App.Ingestion.Record.{PreparedAircraftRecord}
use aircraft_api_r.App.Ingestion.Service.{
  IngestionPorts, start_report, consume_loop, refreshed, after_totals, after_loop, consume_records,
  committed, marked, consumed, started, import_records,
}
use aircraft_api_r.Ingest.Items.{Formats}
use aircraft_api_r.Ingest.Planephd.{
  Aircraft, outcome_of, preflight_document, read_document, ended, visit_manufacturers,
}
use aircraft_api_r.Ingest.Planephd.Accepted.{NoErrors}
use aircraft_api_r.Ingest.Planephd.Preflight.{summary_of, preflight_document-ok_iff}
use aircraft_api_r.Ingest.Planephd.Import.{
  report_of, nothing_read, consume_loop-report_of, check_totals-report_of,
}

module _ {W : Type 0} (ports : IngestionPorts W) (formats : Formats) (request : ImportRequest)
    (run_id attempt_id : ℕ)
    (stages : (r : PreparedAircraftRecord) (w : W)
      → (ports.stage_and_promote r w).0 ≡ ok (outcome_of r))
    (refreshes : (w : W) → (ports.refresh_read_models w).0 ≡ ok tt)
    (marks : (report : ImportReport) (w : W) → (ports.mark_succeeded report w).0 ≡ ok tt)
    (commits : (w : W) → (ports.commit w).0 ≡ ok tt)
    (same_digest : (s : Text) → ports.sha256 s ≡ formats.sha256 s)
    (bytes : (s : Text) → IsBytes (formats.sha256 s)) where
  abbrev final_report : List PreparedAircraftRecord → ImportReport
  final_report records = report_of (start_report request run_id attempt_id) records

  consume_records-final_report :
      (records : List PreparedAircraftRecord) (w : W)
      → All NoErrors records
      → summary_of formats records ≡ request.preflight
      → (consume_records ports request (map (λ r. ok r) records) run_id attempt_id w).0
        ≡ ok (final_report records)
  unfolding consume_records after_loop after_totals refreshed
  consume_records-final_report records w good made =
      let start = nothing_read request run_id attempt_id in
      let looped = consume_loop ports start (map (λ r. ok r) records) w in
      ap (λ x. (after_loop ports request (x, looped.1)).0)
        (consume_loop-report_of ports start records w good stages)
      ∙ ap (λ x. (after_totals ports x looped.1).0)
          (check_totals-report_of ports formats request run_id attempt_id records made same_digest
            bytes)
      ∙ ap
          (λ x.
            (refreshed ports (final_report records) (x, (ports.refresh_read_models looped.1).1)).0)
          (refreshes looped.1)

  consumed-ok :
      (report : ImportReport) (w : W)
      → (consumed ports run_id attempt_id (ok report, w)).0 ≡ ok report
  unfolding consumed marked committed
  consumed-ok report w =
      let m = ports.mark_succeeded report w in
      ap (λ x. (marked ports run_id attempt_id report (x, m.1)).0) (marks report w)
      ∙ ap (λ x. (committed ports run_id attempt_id report (x, (ports.commit m.1).1)).0)
          (commits m.1)

  -- An import of the document that its request's preflight accepted, once it is begun, returns
  -- the report that all its records are staged and promoted, with as many flagged as have a
  -- warning and with the sum of the warnings: provided the database stages every record with its
  -- number of warnings, and refreshes, marks and commits, and both digests are the same function
  -- to bytes.
  pub import_records-preflight_document :
      (manufacturers : List (Text × Aircraft)) (w : W)
      → preflight_document formats (manufacturers, none) ≡ ok request.preflight
      → (ports.start_import request w).0 ≡ ok (ready run_id attempt_id)
      → (import_records ports request (read_document formats (manufacturers, none)) w).0
        ≡ ok (
            report_of
              (start_report request run_id attempt_id)
              (visit_manufacturers formats manufacturers))
  unfolding import_records started read_document ended
  import_records-preflight_document manufacturers w accepted begun =
      let records = visit_manufacturers formats manufacturers in
      let read = map (λ r. ok r) records in
      let (no_end, some_records, good, distinct, made) =
        (preflight_document-ok_iff formats manufacturers none request.preflight).0 accepted in
      let s = ports.start_import request w in
      let used = consume_records ports request read run_id attempt_id s.1 in
      ap (λ x. (started ports request x s).0) (append-nil read)
      ∙ ap (λ x. (started ports request read (x, s.1)).0) begun
      ∙ ap (λ x. (consumed ports run_id attempt_id (x, used.1)).0)
          (consume_records-final_report records s.1 good made)
      ∙ consumed-ok (final_report records) used.1
