-- ===== src/App/Ingestion/Service/Outcome.antt =====
-- An import that succeeds: its agreement with the preflight, and the commit.
use Prim.Native.Nat.{ℕ, ◌+◌, ◌≤◌}
use mathlib.Core.Path.{◌≡◌, refl, sym, ap, subst, ◌∙◌}
use mathlib.Core.Logic.{inl, inr}
use mathlib.Core.List.{List, [], ◌∷◌, ◌++◌, append_assoc, append-nil}
use native.Mathlib.Omega.{arith}
use aircraft_api_r.Prelude.{Result, ok, err, ok_inj, err_ne_ok, Result-cases, length}
use aircraft_api_r.Prelude.Text.{Text, text_eq_iff}
use aircraft_api_r.App.Persistence.{PersistenceError, hex_digest}
use aircraft_api_r.App.Ingestion.Types.{
  ImportRequest, ImportReport, RecordOutcome, PreparedInputError, ImportError, ready,
}
use aircraft_api_r.App.Ingestion.Record.{PreparedAircraftRecord}
use aircraft_api_r.App.Ingestion.Service.{
  IngestionPorts, Progress, start_report, count_outcome, hash_key, stage, consume_loop,
  check_totals, refreshed, after_totals, after_loop, consume_records, committed, marked, consumed,
  started, import_records,
}

-- The bytes that are hashed: every key and a zero.
abbrev pub keys_of : List (Result PreparedInputError PreparedAircraftRecord) → Text
keys_of [] = []
keys_of (err e ∷ rest) = []
keys_of (ok r ∷ rest) = (r.source_record_key ++ 0 ∷ []) ++ keys_of rest

-- The counters of a report fit the number of records.
abbrev pub Counts : ℕ → ImportReport → Type 0
Counts n r = (r.promoted_records ≡ n) × (r.staged_records ≤ n) × (r.flagged_records ≤ n)

count_outcome-Counts :
    (p : Progress) (o : RecordOutcome)
    → Counts p.count p.report
    → Counts (count_outcome p o).count (count_outcome p o).report
unfolding count_outcome
count_outcome-Counts p o h = ground arith

module _ {W : Type 0} (ports : IngestionPorts W) where
  pub loop_next :
      (p : Progress) (r : PreparedAircraftRecord)
      (rest : List (Result PreparedInputError PreparedAircraftRecord)) (w : W) (o : RecordOutcome)
      → (stage ports r w).0 ≡ ok o
      → consume_loop ports p (ok r ∷ rest) w
        ≡ consume_loop ports
            (count_outcome (hash_key p r.source_record_key) o)
            rest
            (stage ports r w).1
  unfolding consume_loop
  loop_next p r rest w o h = rw (consume_loop, h) refl

  loop_stop :
      (p : Progress) (r : PreparedAircraftRecord)
      (rest : List (Result PreparedInputError PreparedAircraftRecord)) (w : W) (f : ImportError)
      → (stage ports r w).0 ≡ err f
      → consume_loop ports p (ok r ∷ rest) w ≡ (err f, (stage ports r w).1)
  unfolding consume_loop
  loop_stop p r rest w f h = rw (consume_loop, h) refl

  consume_loop-ok :
      (p q : Progress) (records : List (Result PreparedInputError PreparedAircraftRecord))
      (w w' : W)
      → Counts p.count p.report
      → consume_loop ports p records w ≡ (ok q, w')
      → (q.count ≡ p.count + length records)
        × (q.record_keys ≡ p.record_keys ++ keys_of records)
        × Counts q.count q.report
  unfolding consume_loop count_outcome hash_key
  consume_loop-ok p q [] w w' h e =
      let same = ok_inj (ap (λ x. x.0) e) in
      subst
        (λ z.
          (z.count ≡ p.count + 0) × (z.record_keys ≡ p.record_keys ++ []) × Counts z.count z.report)
        same (omega arith, sym (append-nil p.record_keys), h)
  consume_loop-ok p q (err f ∷ rest) w w' h e = absurd (err_ne_ok (ap (λ x. x.0) e))
  consume_loop-ok p q (ok r ∷ rest) w w' h e = elim (Result-cases (stage ports r w).0) [
    | inr (f, stopped) ↦
        absurd (err_ne_ok (ap (λ x. x.0) (sym (loop_stop p r rest w f stopped) ∙ e)))
    | inl (o, staged) ↦
        let hashed = hash_key p r.source_record_key in
        let ih =
          consume_loop-ok (count_outcome hashed o) q rest (stage ports r w).1 w'
            (count_outcome-Counts hashed o h) (sym (loop_next p r rest w o staged) ∙ e) in
        (
          omega (arith, ih.0),
          ih.1 ∙ append_assoc p.record_keys (r.source_record_key ++ 0 ∷ []) (keys_of rest),
          ih.2,
        )
  ]

  -- What the preflight promised of the records that an import read.
  abbrev pub Agrees :
      ImportRequest
      → List (Result PreparedInputError PreparedAircraftRecord)
      → ImportReport
      → Type 0
  Agrees request records report =
      (length records ≡ request.preflight.record_count)
      × (hex_digest (ports.sha256 (keys_of records)) ≡ request.preflight.record_keys_sha256)
      × (report.warning_count ≡ request.preflight.warning_count)
      × Counts (length records) report

  check_totals-ok :
      (request : ImportRequest) (p : Progress) (report : ImportReport)
      → check_totals ports request p ≡ ok report
      → (p.count ≡ request.preflight.record_count)
        × (hex_digest (ports.sha256 p.record_keys) ≡ request.preflight.record_keys_sha256)
        × (p.report.warning_count ≡ request.preflight.warning_count)
        × (p.report ≡ report)
  unfolding check_totals
  check_totals-ok request p report e = ground (
    arith,
    text_eq_iff (hex_digest (ports.sha256 p.record_keys)) request.preflight.record_keys_sha256,
  )

  ok_parts :
      {A : Type 0} (a b : A) (v w : W)
      → Path (Result ImportError A × W) (ok a, v) (ok b, w)
      → (a ≡ b) × (v ≡ w)
  ok_parts a b v w h = (ok_inj (ap (λ x. x.0) h), ap (λ x. x.1) h)

  committed-ok :
      (run_id attempt_id : ℕ) (report out : ImportReport)
      (r : Result PersistenceError (Unit {0}) × W) (w' : W)
      → committed ports run_id attempt_id report r ≡ (ok out, w')
      → (r ≡ (ok tt, w')) × (report ≡ out)
  unfolding committed
  committed-ok run_id attempt_id report out (ok u, w) w' h =
      let same = ok_parts report out w w' h in (λ i. (ok tt, same.1 i), same.0)
  committed-ok run_id attempt_id report out (err f, w) w' h = absurd (err_ne_ok (ap (λ x. x.0) h))

  marked-ok :
      (run_id attempt_id : ℕ) (report out : ImportReport)
      (r : Result PersistenceError (Unit {0}) × W) (w' : W)
      → marked ports run_id attempt_id report r ≡ (ok out, w')
      → (w₂ : W) × (r ≡ (ok tt, w₂)) × (ports.commit w₂ ≡ (ok tt, w')) × (report ≡ out)
  unfolding marked
  marked-ok run_id attempt_id report out (ok u, w) w' h =
      let c = committed-ok run_id attempt_id report out (ports.commit w) w' h in (w, refl, c.0, c.1)
  marked-ok run_id attempt_id report out (err f, w) w' h = absurd (err_ne_ok (ap (λ x. x.0) h))

  refreshed-ok :
      (report out : ImportReport) (r : Result PersistenceError (Unit {0}) × W) (w' : W)
      → refreshed ports report r ≡ (ok out, w')
      → report ≡ out
  unfolding refreshed
  refreshed-ok report out (ok u, w) w' h = (ok_parts report out w w' h).0
  refreshed-ok report out (err f, w) w' h = absurd (err_ne_ok (ap (λ x. x.0) h))

  after_totals-ok :
      (r : Result ImportError ImportReport) (w w' : W) (out : ImportReport)
      → after_totals ports r w ≡ (ok out, w')
      → r ≡ ok out
  unfolding after_totals
  after_totals-ok (ok report) w w' out h =
      λ i. ok (refreshed-ok report out (ports.refresh_read_models w) w' h i)
  after_totals-ok (err f) w w' out h = absurd (err_ne_ok (ap (λ x. x.0) h))

  after_loop-ok :
      (request : ImportRequest) (r : Result ImportError Progress × W) (w' : W) (out : ImportReport)
      → after_loop ports request r ≡ (ok out, w')
      → (q : Progress) × (w₁ : W) × (r ≡ (ok q, w₁)) × (check_totals ports request q ≡ ok out)
  unfolding after_loop
  after_loop-ok request (ok q, w) w' out h =
      (q, w, refl, after_totals-ok (check_totals ports request q) w w' out h)
  after_loop-ok request (err f, w) w' out h = absurd (err_ne_ok (ap (λ x. x.0) h))

  Counts-start :
      (request : ImportRequest) (run_id attempt_id : ℕ)
      → Counts 0 (start_report request run_id attempt_id)
  unfolding start_report
  Counts-start request run_id attempt_id = omega arith

  consume_records-Agrees :
      (request : ImportRequest) (records : List (Result PreparedInputError PreparedAircraftRecord))
      (run_id attempt_id : ℕ) (w w' : W) (out : ImportReport)
      → consume_records ports request records run_id attempt_id w ≡ (ok out, w')
      → Agrees request records out
  unfolding consume_records
  consume_records-Agrees request records run_id attempt_id w w' out h =
      let begin : Progress = record {
        count = 0;
        record_keys = [];
        report = start_report request run_id attempt_id;
      } in
      let (q, w₁, looped, totals) =
        after_loop-ok request (consume_loop ports begin records w) w' out h in
      let (read, keys, counted) =
        consume_loop-ok begin q records w w₁ (Counts-start request run_id attempt_id) looped in
      let (count, digest, warnings, same) = check_totals-ok request q out totals in
      let size : q.count ≡ length records = omega (arith, read) in
      (
        sym size ∙ count,
        ap (λ k. hex_digest (ports.sha256 k)) (sym keys) ∙ digest,
        ap (λ r. r.warning_count) (sym same) ∙ warnings,
        subst (λ n. Counts n out) size (subst (Counts q.count) same counted),
      )

  consumed-ok :
      (run_id attempt_id : ℕ) (r : Result ImportError ImportReport × W) (w' : W)
      (out : ImportReport)
      → consumed ports run_id attempt_id r ≡ (ok out, w')
      → (w₁ : W) × (w₂ : W) × (r ≡ (ok out, w₁)) × (ports.commit w₂ ≡ (ok tt, w'))
  unfolding consumed
  consumed-ok run_id attempt_id (ok report, w) w' out h =
      let (w₂, marking, commits, same) =
        marked-ok run_id attempt_id report out (ports.mark_succeeded report w) w' h in
      (w, w₂, (λ i. (ok (same i), w)), commits)
  consumed-ok run_id attempt_id (err f, w) w' out h = absurd (err_ne_ok (ap (λ x. x.0) h))

  -- An import that began and returns a report ends with a commit that succeeded, and it read as
  -- many records as the preflight counted, with the preflight's digest of their keys and its
  -- number of warnings; all of them are promoted, and no more than that staged or flagged.
  pub import_records-Agrees :
      (request : ImportRequest) (records : List (Result PreparedInputError PreparedAircraftRecord))
      (w w₀ w' : W) (run_id attempt_id : ℕ) (report : ImportReport)
      → ports.start_import request w ≡ (ok (ready run_id attempt_id), w₀)
      → import_records ports request records w ≡ (ok report, w')
      → Agrees request records report × (w₂ : W) × (ports.commit w₂ ≡ (ok tt, w'))
  unfolding import_records started
  import_records-Agrees request records w w₀ w' run_id attempt_id report begun h =
      let (w₁, w₂, read, commits) =
        consumed-ok run_id attempt_id (consume_records ports request records run_id attempt_id w₀)
          w' report (sym (ap (started ports request records) begun) ∙ h) in
      (consume_records-Agrees request records run_id attempt_id w₀ w₁ report read, w₂, commits)
