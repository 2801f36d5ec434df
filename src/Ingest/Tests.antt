-- ===== src/Ingest/Tests.antt =====
-- A document with two aircraft, and the theorems at concrete inputs.
use Prim.Native.Nat.{◌%◌}
use mathlib.Core.Path.{◌≡◌, refl}
use mathlib.Core.Bool.{true, false}
use mathlib.Core.Option.{none, some}
use mathlib.Core.List.{map}
use aircraft_api_r.Prelude.{arith, ok, any}
use aircraft_api_r.Prelude.Integers.{pos}
use aircraft_api_r.Prelude.Text.{Text, codes, text_eq, split_once, parse_digits}
use aircraft_api_r.Prelude.Text.Decimal.{decimal}
use aircraft_api_r.Prelude.Json.{
  Value, no_values, value, no_members, member, string, array, object, entries,
}
use aircraft_api_r.App.Ingestion.Service.{is_error}
use aircraft_api_r.Prelude.Dict.{lookup}
use aircraft_api_r.Prelude.Text.Search.{
  trim_end_matches, trim_start_matches, strip_suffix, after_last, eq_ignore_ascii_case,
}
use aircraft_api_r.Prelude.Text.Signed.{parse_signed}
use aircraft_api_r.Ingest.Noted.{◌>>=◌}
use aircraft_api_r.Ingest.Fields.{scalar, integer, boolean, boolean_value}
use aircraft_api_r.Ingest.Names.{
  parsed_production_range, trailing_parenthetical, range_within, split_range, range_between,
  range_from,
}
use aircraft_api_r.Ingest.Names.Range.{with_range, parsed_production_range-with_range}
use aircraft_api_r.Ingest.Items.{Formats, Url}
use aircraft_api_r.Ingest.Stated.{stated_years, production_range, range_or_none}
use aircraft_api_r.Ingest.Normalize.{normalize_record, promoted_record, promoted_details}
use aircraft_api_r.Ingest.Normalize.Errors.{normalize_record-errors_iff}
use aircraft_api_r.Ingest.Normalize.Promoted.{
  MeasuresSoundly, ImagesInOrder, normalize_record-MeasuresSoundly, normalize_record-ImagesInOrder,
}

abbrev pub address : Text → Url
address t = record { scheme = codes "https"; text = t }

abbrev pub formats : Formats
formats = record {
  json_text = λ v. codes "value";
  parse_url = λ t. some (address t);
  join_url = λ base t. some (address t);
  sha256 = map (λ c. c % 256);
}

abbrev one_field : Text → Value → Value
one_field name v = object (member name v no_members)

abbrev skyhawk : Value
skyhawk = object (
    member (codes "performance") (one_field (codes "best_cruise_speed") (string (codes "124 KIAS")))
      (member (codes "images")
        (array (value (one_field (codes "href") (string (codes "a.jpg"))) no_values)) no_members))

abbrev name : Text
name = codes "172S (1998 - Present)"

skyhawk-years :
    let r = normalize_record formats (codes "CESSNA") name skyhawk in
    (r.lifecycle.production_start_year ≡ some (pos 1998)) × (r.lifecycle.production_end_year ≡ none)
unfolding normalize_record promoted_record stated_years promoted_details ◌>>=◌ scalar integer
    boolean boolean_value production_range range_or_none parsed_production_range
    trailing_parenthetical range_within split_range range_between range_from lookup text_eq entries
    trim_end_matches trim_start_matches strip_suffix after_last split_once parse_signed parse_digits
    eq_ignore_ascii_case
skyhawk-years = (refl, refl)

normalize_record-errors_iff_example :
    any is_error (normalize_record formats (codes "CESSNA") name skyhawk).issues ≡ false
unfolding trim_end_matches trim_start_matches
normalize_record-errors_iff_example =
    (normalize_record-errors_iff formats (codes "CESSNA") name skyhawk).1 (
      refl,
      refl,
      refl,
      rw skyhawk-years.0 (omega arith, omega arith),
      rw skyhawk-years.1 tt,
      rw skyhawk-years.1 (rw skyhawk-years.0 tt),
    )

normalize_record-MeasuresSoundly_example :
    MeasuresSoundly formats (normalize_record formats (codes "CESSNA") name skyhawk)
normalize_record-MeasuresSoundly_example =
    normalize_record-MeasuresSoundly formats (codes "CESSNA") name skyhawk

parsed_production_range-with_range_example :
    (parsed_production_range (with_range (codes "172S") (decimal 1998) (decimal 2004))
      ≡ ok (some (pos 1998), some (pos 2004), some false))
    × (parsed_production_range (with_range (codes "172S") (decimal 1998) (codes "present"))
        ≡ ok (some (pos 1998), none, some true))
parsed_production_range-with_range_example =
    parsed_production_range-with_range (codes "172S") 1998 2004 (omega arith) (omega arith)

normalize_record-ImagesInOrder_example :
    ImagesInOrder formats (normalize_record formats (codes "CESSNA") name skyhawk)
normalize_record-ImagesInOrder_example =
    normalize_record-ImagesInOrder formats (codes "CESSNA") name skyhawk
