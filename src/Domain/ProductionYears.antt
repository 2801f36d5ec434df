-- ===== src/Domain/ProductionYears.antt =====
-- `ProductionYears` of crates/aircraft_domain/src/ingestion.rs; an `i16` is an integer.
pub mod Accepted
use mathlib.Core.Bool.{not, ◌&&◌}
use Prim.Native.Nat.{suc}
use mathlib.Core.List.{◌∷◌, ◌++◌}
use mathlib.Core.Option.{Option, none, some}
use aircraft_api_r.Prelude.{Result, ok, err, guard, ◌>>=◌, ◌>>◌}
use aircraft_api_r.Prelude.Integers.{ℤ, pos, lebℤ, negsuc, ltbℤ}
use aircraft_api_r.Prelude.Text.{Text, codes}
use aircraft_api_r.Prelude.Text.Decimal.{decimal}

pub record ProductionYears : Type 0 where
  pub start : Option ℤ
  pub end : Option ℤ

pub data IngestionInvariantError : Type 0 where
  invalid_confidence : IngestionInvariantError
  production_years_reversed : (start end : ℤ) → IngestionInvariantError
  year_out_of_range : ℤ → IngestionInvariantError

-- The test of the order, where both years are there.
unfoldable pub check_order : Option ℤ → Option ℤ → Result IngestionInvariantError (Unit {0})
check_order (some start) (some end) =
    guard (not (ltbℤ end start)) (production_years_reversed start end)
check_order _ _ = ok tt

-- One round of the loop over the years that are there.
unfoldable pub check_year : Option ℤ → Result IngestionInvariantError (Unit {0})
check_year none = ok tt
check_year (some year) =
    guard (lebℤ (pos 1800) year && lebℤ year (pos 2200)) (year_out_of_range year)

unfoldable pub production_years_new :
    Option ℤ → Option ℤ → Result IngestionInvariantError ProductionYears
production_years_new start end =
    check_order start end
    >> check_year start
    >> check_year end
    >> ok (record { start = start; end = end })

-- `Display` of an `i16`
abbrev signed_decimal : ℤ → Text
signed_decimal (pos n) = decimal n
signed_decimal (negsuc n) = b'-' ∷ decimal (suc n)

unfoldable pub invariant_error_text : IngestionInvariantError → Text
invariant_error_text invalid_confidence = codes "confidence must be finite and between zero and one"
invariant_error_text (production_years_reversed start end) =
    codes "production end year "
    ++ (signed_decimal end ++ (codes " is earlier than start year " ++ signed_decimal start))
invariant_error_text (year_out_of_range year) =
    codes "year " ++ (signed_decimal year ++ codes " is outside the supported aircraft-data range")
