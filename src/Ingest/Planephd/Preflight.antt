-- ===== src/Ingest/Planephd/Preflight.antt =====
-- `PlanePhdAdapter::preflight` of crates/aircraft_ingest/src/planephd.rs: what it accepts and what it
-- reports.
use Prim.Native.Nat.{ℕ, zero, suc, ◌<◌}
use mathlib.Core.Path.{◌≡◌, refl, sym, ap, subst, ◌∙◌}
use mathlib.Core.Logic.{◌↔◌}
use mathlib.Core.Option.{Option, none, some}
use mathlib.Core.List.{List, [], ◌∷◌}
use aircraft_api_r.Prelude.{arith, ok, err, ok_inj, err_ne_ok, length, All}
use aircraft_api_r.Prelude.Text.{Text}
use aircraft_api_r.App.Ingestion.Types.{PreflightSummary}
use aircraft_api_r.App.Ingestion.Record.{IngestIssue, PreparedAircraftRecord}
use aircraft_api_r.Ingest.Items.{Formats}
use aircraft_api_r.Ingest.Artifact.{hex_digest}
use aircraft_api_r.Ingest.Planephd.{
  Aircraft, validation, Tally, no_tally, tally_loop, summary, preflight_document,
  visit_manufacturers,
}
use aircraft_api_r.Ingest.Planephd.Accepted.{
  total_warnings, key_bytes, NoErrors, DistinctRecords, AreNew, Reported, tally_loop-counts,
  tally_loop-errors_iff, tally_loop-Reported,
}

AreNew-nothing : (records : List PreparedAircraftRecord) → AreNew [] records
AreNew-nothing [] = tt
AreNew-nothing (r ∷ records) = (refl, AreNew-nothing records)

module _ (formats : Formats) where
  -- The summary of these records.
  abbrev pub summary_of : List PreparedAircraftRecord → PreflightSummary
  summary_of records = record {
    record_count = length records;
    warning_count = total_warnings records;
    record_keys_sha256 = hex_digest (formats.sha256 (key_bytes records));
  }

  abbrev tallied : ℕ → ℕ → List IngestIssue → List Text → Text → Tally
  tallied n w errors seen keys = record {
    record_count = n;
    warning_count = w;
    errors = errors;
    source_keys = seen;
    record_keys = keys;
  }

  abbrev summarized : ℕ → ℕ → Text → PreflightSummary
  summarized n w keys = record {
    record_count = n;
    warning_count = w;
    record_keys_sha256 = hex_digest (formats.sha256 keys);
  }

  summary-ok :
      (n w : ℕ) (errors : List IngestIssue) (seen : List Text) (keys : Text) (s : PreflightSummary)
      → (summary formats (tallied n w errors seen keys) ≡ ok s)
        ↔ ((0 < n) × (errors ≡ []) × (summarized n w keys ≡ s))
  unfolding summary
  summary-ok zero w errors seen keys s =
      (λ h. absurd (err_ne_ok h), λ h. absurd (omega (arith, h.0)))
  summary-ok (suc n) w (e ∷ errors) seen keys s = (λ h. absurd (err_ne_ok h), λ h. absurd (cc))
  summary-ok (suc n) w [] seen keys s = (λ h. (omega arith, refl, ok_inj h), λ h. ap ok h.2)

  summary-validation :
      (n w : ℕ) (errors : List IngestIssue) (seen : List Text) (keys : Text)
      (issues : List IngestIssue)
      → summary formats (tallied n w errors seen keys) ≡ err (validation issues)
      → (issues ≡ errors) × (0 < length errors)
  unfolding summary
  summary-validation zero w errors seen keys issues h = absurd (cc)
  summary-validation (suc n) w [] seen keys issues h = absurd (cc)
  summary-validation (suc n) w (e ∷ errors) seen keys issues h =
      let same : issues ≡ e ∷ errors = cc in (same, omega arith)

  tally_loop-summary_of :
      (records : List PreparedAircraftRecord)
      → let t = tally_loop no_tally records in
        summarized t.record_count t.warning_count t.record_keys ≡ summary_of records
  tally_loop-summary_of records =
      let (n, w, keys) = tally_loop-counts no_tally records in
      let n' : (tally_loop no_tally records).record_count ≡ length records = omega (arith, n) in
      let w' : (tally_loop no_tally records).warning_count ≡ total_warnings records =
        omega (arith, w) in
      λ i. summarized (n' i) (w' i) (keys i)

  accepted_iff :
      (records : List PreparedAircraftRecord) (s : PreflightSummary)
      → (summary formats (tally_loop no_tally records) ≡ ok s) ↔ (
          (0 < length records)
          × All NoErrors records
          × DistinctRecords records
          × (summary_of records ≡ s))
  accepted_iff records s =
      let t = tally_loop no_tally records in
      let found = tally_loop-errors_iff no_tally records in
      let decided =
        summary-ok t.record_count t.warning_count t.errors t.source_keys t.record_keys s in
      let same = tally_loop-summary_of records in
      (
        (λ h.
            let (some_records, sound, made) = decided.0 h in
            let (none_before, good, fresh, distinct) = found.0 sound in
            (
              subst (λ n. 0 < n) (ap (λ x. x.record_count) same) some_records,
              good,
              distinct,
              sym same ∙ made,
            )),
        λ (some_records, good, distinct, made). decided.1 (
          subst (λ n. 0 < n) (ap (λ x. x.record_count) (sym same)) some_records,
          found.1 (refl, good, AreNew-nothing records, distinct),
          same ∙ made,
        ),
      )

  -- The preflight accepts what is read of a document, with a given summary, exactly when the
  -- reading ends without an error, there is a record, no record has an error, no two have one
  -- key, and the summary is that of their number, their warnings and the digest of their keys.
  pub preflight_document-ok_iff :
      (manufacturers : List (Text × Aircraft)) (end : Option Text) (s : PreflightSummary)
      → let records = visit_manufacturers formats manufacturers in
        (preflight_document formats (manufacturers, end) ≡ ok s) ↔ (
          (end ≡ none)
          × (0 < length records)
          × All NoErrors records
          × DistinctRecords records
          × (summary_of records ≡ s))
  unfolding preflight_document
  preflight_document-ok_iff manufacturers (some e) s =
      (λ h. absurd (err_ne_ok h), λ h. absurd (let no = h.0 in cc))
  preflight_document-ok_iff manufacturers none s =
      let rest = accepted_iff (visit_manufacturers formats manufacturers) s in
      (
        (λ h.
            let (some_records, good, distinct, made) = rest.0 h in
            (refl, some_records, good, distinct, made)),
        λ (ended, some_records, good, distinct, made). rest.1 (some_records, good, distinct, made),
      )

  -- A preflight that fails in validation reports at least one issue and at most a hundred, all of
  -- them errors.
  pub preflight_document-validation :
      (manufacturers : List (Text × Aircraft)) (end : Option Text) (issues : List IngestIssue)
      → preflight_document formats (manufacturers, end) ≡ err (validation issues)
      → (0 < length issues) × Reported issues
  unfolding preflight_document
  preflight_document-validation manufacturers (some e) issues h = absurd (cc)
  preflight_document-validation manufacturers none issues h =
      let records = visit_manufacturers formats manufacturers in
      let t = tally_loop no_tally records in
      let (same, some_errors) =
        summary-validation t.record_count t.warning_count t.errors t.source_keys t.record_keys
          issues h in
      let kept = tally_loop-Reported no_tally records (omega arith, tt) in
      (subst (λ e. 0 < length e) (sym same) some_errors, subst Reported (sym same) kept)
