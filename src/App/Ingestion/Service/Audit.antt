-- ===== src/App/Ingestion/Service/Audit.antt =====
-- An import that fails after it began: the rollback and the audit.
use Prim.Native.Nat.{ℕ, ◌≤◌}
use mathlib.Core.Path.{◌≡◌, refl, sym, ap, ◌∙◌}
use mathlib.Core.List.{List}
use aircraft_api_r.Prelude.{Result, ok, err, err_inj, err_ne_ok, length}
use aircraft_api_r.App.Persistence.{PersistenceError}
use aircraft_api_r.App.Ingestion.Types.{
  ImportRequest, ImportReport, PreparedInputError, ImportError, ready, persistence, import_code,
}
use aircraft_api_r.App.Ingestion.Record.{PreparedAircraftRecord}
use aircraft_api_r.App.Ingestion.Service.{
  IngestionPorts, consume_records, audit_failure, rollback_and_audit, committed, marked, consumed,
  started, import_records, sanitize_failure,
}
use aircraft_api_r.App.Ingestion.Service.Message.{IsVisible, sanitize_failure-IsVisible}

module _ {W : Type 0} (ports : IngestionPorts W) where
  -- The failure is recorded for the attempt: the code of the error and its text for the operator.
  abbrev pub reported : ℕ → ℕ → ImportError → W → W
  reported run_id attempt_id e =
      ports.mark_failed run_id attempt_id (import_code e) (sanitize_failure (ports.to_string e))

  module _ (request : ImportRequest)
      (records : List (Result PreparedInputError PreparedAircraftRecord)) (run_id attempt_id : ℕ)
      (w₀ : W) where
    -- Where an import that began in `w₀` failed, with which error, and the world it leaves.
    pub data Audited (e : ImportError) (w' : W) : Type 0 where
      -- A record, or a total, was refused.
      unread :
          {w₁ : W}
          → consume_records ports request records run_id attempt_id w₀ ≡ (err e, w₁)
          → w' ≡ reported run_id attempt_id e (ports.rollback w₁)
          → Audited e w'
      -- The success could not be recorded.
      unmarked :
          {w₁ w₂ : W} {report : ImportReport} {f : PersistenceError}
          → consume_records ports request records run_id attempt_id w₀ ≡ (ok report, w₁)
          → ports.mark_succeeded report w₁ ≡ (err f, w₂)
          → e ≡ persistence f
          → w' ≡ reported run_id attempt_id e (ports.rollback w₂)
          → Audited e w'
      -- The commit failed: there is nothing left to roll back.
      uncommitted :
          {w₁ w₂ w₃ : W} {report : ImportReport} {f : PersistenceError}
          → consume_records ports request records run_id attempt_id w₀ ≡ (ok report, w₁)
          → ports.mark_succeeded report w₁ ≡ (ok tt, w₂)
          → ports.commit w₂ ≡ (err f, w₃)
          → e ≡ persistence f
          → w' ≡ reported run_id attempt_id e w₃
          → Audited e w'

    err_parts :
        (f e : ImportError) (a b : W)
        → Path (Result ImportError ImportReport × W) (err f, a) (err e, b)
        → (e ≡ f) × (b ≡ a)
    err_parts f e a b h = (sym (err_inj (ap (λ x. x.0) h)), sym (ap (λ x. x.1) h))

    module _ (e : ImportError) (w' : W) where
      committed-Audited :
          (report : ImportReport) (w₁ w₂ : W) (r : Result PersistenceError (Unit {0}) × W)
          → consume_records ports request records run_id attempt_id w₀ ≡ (ok report, w₁)
          → ports.mark_succeeded report w₁ ≡ (ok tt, w₂)
          → ports.commit w₂ ≡ r
          → committed ports run_id attempt_id report r ≡ (err e, w')
          → Audited e w'
      unfolding committed audit_failure
      committed-Audited report w₁ w₂ (ok u, w) read mark commit h =
          absurd (err_ne_ok (sym (ap (λ x. x.0) h)))
      committed-Audited report w₁ w₂ (err f, w) read mark commit h =
          let (same, left) = err_parts (persistence f) e _ w' h in
          uncommitted read mark commit same
            (left ∙ ap (λ x. reported run_id attempt_id x w) (sym same))

      marked-Audited :
          (report : ImportReport) (w₁ : W) (r : Result PersistenceError (Unit {0}) × W)
          → consume_records ports request records run_id attempt_id w₀ ≡ (ok report, w₁)
          → ports.mark_succeeded report w₁ ≡ r
          → marked ports run_id attempt_id report r ≡ (err e, w')
          → Audited e w'
      unfolding marked rollback_and_audit audit_failure
      marked-Audited report w₁ (ok tt, w) read mark h =
          committed-Audited report w₁ w (ports.commit w) read mark refl h
      marked-Audited report w₁ (err f, w) read mark h =
          let (same, left) = err_parts (persistence f) e _ w' h in
          unmarked read mark same
            (left ∙ ap (λ x. reported run_id attempt_id x (ports.rollback w)) (sym same))

      consumed-Audited :
          (r : Result ImportError ImportReport × W)
          → consume_records ports request records run_id attempt_id w₀ ≡ r
          → consumed ports run_id attempt_id r ≡ (err e, w')
          → Audited e w'
      unfolding consumed rollback_and_audit audit_failure
      consumed-Audited (err f, w) read h =
          let (same, left) = err_parts f e _ w' h in
          unread (read ∙ ap (λ x. (err x, w)) (sym same))
            (left ∙ ap (λ x. reported run_id attempt_id x (ports.rollback w)) (sym same))
      consumed-Audited (ok report, w) read h =
          marked-Audited report w (ports.mark_succeeded report w) read refl h

  -- An import that began and returns an error failed at one of three points. When the records or
  -- their totals were refused, or the success could not be recorded, what that step left is
  -- rolled back, and then the failure is recorded for the attempt with the error's code and its
  -- text. When the commit failed, the failure is recorded with no rollback. The text recorded has
  -- no control character and at most 1000 characters.
  pub import_records-Audited :
      (request : ImportRequest) (records : List (Result PreparedInputError PreparedAircraftRecord))
      (w w₀ w' : W) (run_id attempt_id : ℕ) (e : ImportError)
      → ports.start_import request w ≡ (ok (ready run_id attempt_id), w₀)
      → import_records ports request records w ≡ (err e, w')
      → Audited request records run_id attempt_id w₀ e w'
        × IsVisible (sanitize_failure (ports.to_string e))
        × (length (sanitize_failure (ports.to_string e)) ≤ 1000)
  unfolding import_records started
  import_records-Audited request records w w₀ w' run_id attempt_id e begun h =
      let (visible, short) = sanitize_failure-IsVisible (ports.to_string e) in
      (
        consumed-Audited request records run_id attempt_id w₀ e w'
            (consume_records ports request records run_id attempt_id w₀) refl
            (sym (ap (started ports request records) begun) ∙ h),
        visible,
        short,
      )
