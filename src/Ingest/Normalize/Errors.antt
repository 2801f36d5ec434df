-- ===== src/Ingest/Normalize/Errors.antt =====
-- Which records have an error: `normalize_record` of crates/aircraft_ingest/src/normalization.rs.
use mathlib.Core.Path.{◌≡◌, refl, sym, ◌∙◌}
use mathlib.Core.Bool.{Bool, true, false, not, ◌||◌}
use mathlib.Core.Logic.{◌↔◌}
use mathlib.Core.Option.{Option, none, some}
use mathlib.Core.List.{[], ◌∷◌}
use aircraft_api_r.Prelude.{arith, any, is_ok, Result, ok, err}
use aircraft_api_r.Prelude.Integers.{ℤ}
use aircraft_api_r.Prelude.Text.{Text, Text-Eq, is_empty}
use aircraft_api_r.Prelude.Text.Search.{trim}
use aircraft_api_r.Prelude.Json.{Value, object, entries, is_object}
use aircraft_api_r.App.Ingestion.Service.{is_error}
use aircraft_api_r.Domain.ProductionYears.{
  ProductionYears, IngestionInvariantError, production_years_new,
}
use aircraft_api_r.Domain.ProductionYears.Accepted.{IsYear, InOrder, is_ok-production_years_new}
use aircraft_api_r.Ingest.Noted.{
  Noted, IsQuiet, IsQuiet->>=, IsQuiet-note_if, errors-or, value->>=, quiet_steps, ◌>>=◌,
}
use aircraft_api_r.Ingest.Fields.{Object}
use aircraft_api_r.Ingest.Fields.Quiet.{
  IsQuiet-scalar, IsQuiet-nested, IsQuiet-integer, IsQuiet-numeric, IsQuiet-numeric_integer,
  IsQuiet-boolean,
}
use aircraft_api_r.Ingest.Items.{Formats}
use aircraft_api_r.Ingest.Items.Quiet.{IsQuiet-measurements, IsQuiet-cost_items}
use aircraft_api_r.Ingest.Images.Quiet.{IsQuiet-normalized_url, IsQuiet-image_items}
use aircraft_api_r.Ingest.Names.{ProductionRange, parsed_production_range}
use aircraft_api_r.Ingest.Stated.{
  unsupported_fields, range_or_none, production_range, years_issue, name_issues, stated_years,
}
use aircraft_api_r.Ingest.Normalize.{
  of_engine, promoted_details, promoted_record, empty_record, normalize_record,
}

or-false : (b : Bool) → (b || false) ≡ b
or-false true = refl
or-false false = refl

module _ (formats : Formats) where
  IsQuiet-of_engine :
      {A : Type 0} (engine : Option Object) (field : Text)
      (read : Option Value → Text → Noted (Option A))
      → ((v : Option Value) (path : Text) → IsQuiet (read v path))
      → IsQuiet (of_engine formats engine field read)
  IsQuiet-of_engine none field read k = search (quiet_steps)
  IsQuiet-of_engine (some fields) field read k = k _ _

  IsQuiet-unsupported_fields : (fields : Object) → IsQuiet (unsupported_fields formats fields)
  unfolding unsupported_fields
  IsQuiet-unsupported_fields [] = search (quiet_steps)
  IsQuiet-unsupported_fields ((field, v) ∷ rest) =
      IsQuiet->>= _ _ (IsQuiet-note_if _ _ refl) (λ done. IsQuiet-unsupported_fields rest)

  IsQuiet-range_or_none :
      (range : Result Text ProductionRange) → IsQuiet (range_or_none formats range)
  unfolding range_or_none
  IsQuiet-range_or_none (ok range) = record { quiet = refl }
  IsQuiet-range_or_none (err what) = record { quiet = refl }

  IsQuiet-production_range : (aircraft : Text) → IsQuiet (production_range formats aircraft)
  unfolding production_range
  IsQuiet-production_range aircraft = IsQuiet-range_or_none (parsed_production_range aircraft)

  IsQuiet-promoted_details :
      (manufacturer aircraft : Text) (raw : Value) (fields : Object) (description : Option Text)
      (in_production : Option Bool) (start end : Option ℤ)
      → IsQuiet (
          promoted_details formats manufacturer aircraft raw fields description in_production start
            end)
  unfolding promoted_details
  IsQuiet-promoted_details manufacturer aircraft raw fields description in_production start end =
      search
        (
          quiet_steps, IsQuiet-nested, IsQuiet-measurements, IsQuiet-scalar, IsQuiet-normalized_url,
          IsQuiet-of_engine, IsQuiet-numeric, IsQuiet-numeric_integer, IsQuiet-cost_items,
          IsQuiet-image_items,
        )
        depth 30

  promoted_details-years :
      (manufacturer aircraft : Text) (raw : Value) (fields : Object) (description : Option Text)
      (in_production : Option Bool) (start end : Option ℤ)
      → let r =
          (promoted_details formats manufacturer aircraft raw fields description in_production start
            end).0 in
        (r.lifecycle.production_start_year ≡ start) × (r.lifecycle.production_end_year ≡ end)
  unfolding promoted_details ◌>>=◌
  promoted_details-years manufacturer aircraft raw fields description in_production start end =
      (refl, refl)

  errors-name_issues :
      (manufacturer aircraft : Text)
      → any is_error (name_issues formats manufacturer aircraft).1
        ≡ (is_empty (trim manufacturer) || is_empty (trim aircraft))
  unfolding name_issues ◌>>=◌
  errors-name_issues manufacturer aircraft = ground arith

  IsQuiet-stated_years :
      (aircraft : Text) (fields : Object) → IsQuiet (stated_years formats aircraft fields)
  unfolding stated_years
  IsQuiet-stated_years aircraft fields =
      search
        (quiet_steps, IsQuiet-scalar, IsQuiet-production_range, IsQuiet-boolean, IsQuiet-integer)
        depth 20

  errors-years_issue :
      (years : Result IngestionInvariantError ProductionYears)
      → any is_error (years_issue formats years).1 ≡ not (is_ok years)
  unfolding years_issue
  errors-years_issue (ok years) = refl
  errors-years_issue (err failure) = refl

  -- The errors of a record in terms of the years that it holds.
  errors-promoted_record :
      (manufacturer aircraft : Text) (raw : Value) (fields : Object)
      → let (r, raised) = promoted_record formats manufacturer aircraft raw fields in
        let years =
          production_years_new r.lifecycle.production_start_year r.lifecycle.production_end_year in
        any is_error raised
        ≡ ((is_empty (trim manufacturer) || is_empty (trim aircraft)) || not (is_ok years))
  unfolding promoted_record
  errors-promoted_record manufacturer aircraft raw fields =
      let stated = (stated_years formats aircraft fields).0 in
      let details =
        promoted_details-years manufacturer aircraft raw fields stated.0 stated.1 stated.2
          stated.3 in
      simp (
        value->>=,
        or-false,
        errors-or,
        errors-name_issues,
        (IsQuiet-unsupported_fields fields).quiet,
        (IsQuiet-stated_years aircraft fields).quiet,
        errors-years_issue,
        details.0,
        details.1,
        (IsQuiet-promoted_details manufacturer aircraft raw fields stated.0 stated.1 stated.2
            stated.3).quiet,
      )

  -- The record of an entry has no error exactly when the entry is an object, both names have more
  -- than white space, and the production years that the record holds are within 1800 to 2200 and
  -- in order.
  pub normalize_record-errors_iff :
      (manufacturer aircraft : Text) (raw : Value)
      → let r = normalize_record formats manufacturer aircraft raw in
        (any is_error r.issues ≡ false) ↔ (
          (is_object raw ≡ true)
          × (is_empty (trim manufacturer) ≡ false)
          × (is_empty (trim aircraft) ≡ false)
          × IsYear r.lifecycle.production_start_year
          × IsYear r.lifecycle.production_end_year
          × InOrder r.lifecycle.production_start_year r.lifecycle.production_end_year)
  unfolding normalize_record empty_record
  normalize_record-errors_iff manufacturer aircraft (object fs) =
      let r = (promoted_record formats manufacturer aircraft (object fs) (entries fs)).0 in
      let years =
        is_ok-production_years_new r.lifecycle.production_start_year
          r.lifecycle.production_end_year in
      let errors = errors-promoted_record manufacturer aircraft (object fs) (entries fs) in
      (
        (λ h.
            let e = sym errors ∙ h in
            let y = years.0 (ground (e, arith)) in
            (refl, ground (e, arith), ground (e, arith), y.0, y.1, y.2)),
        λ (o, m, a, s, t, u). let sound = years.1 (s, t, u) in ground (arith, errors, sound),
      )
  normalize_record-errors_iff manufacturer aircraft _ = ground arith
