-- ===== src/Ingest/Names.antt =====
-- What names, descriptions and labels spell: production ranges, occupants, engines and sizes, from
-- crates/aircraft_ingest/src/normalization.rs.
pub mod Range
use Prim.Native.Nat.{ℕ}
use mathlib.Core.Bool.{Bool, true, false, not}
use mathlib.Core.Option.{Option, none, some}
use mathlib.Core.List.{List, [], ◌∷◌, ◌++◌}
use aircraft_api_r.Prelude.{if◌then◌else◌, Result, ok, err, map_option}
use aircraft_api_r.Prelude.Text.{Text, codes, is_ascii_digit, split_once}
use aircraft_api_r.Prelude.Text.Search.{
  and_then, trim, trim_end, strip_suffix, after_last, after_text, contains_text, split_whitespace,
  to_ascii_lowercase, eq_ignore_ascii_case,
}
use aircraft_api_r.Prelude.Text.Signed.{parse_i16}
use aircraft_api_r.Prelude.Integers.{ℤ, pos}
use aircraft_api_r.Ingest.Artifact.{hex_digest}
use aircraft_api_r.Ingest.Scalars.{parse_sentinel}

-- The first and the last year, and whether the range is open.
abbrev pub ProductionRange : Type 0
ProductionRange = Option ℤ × Option ℤ × Option Bool

abbrev pub no_range : ProductionRange
no_range = (none, none, none)

unfoldable pub trailing_parenthetical : Text → Option Text
trailing_parenthetical text =
    and_then (strip_suffix b')' (trim_end text)) (λ inner. map_option trim (after_last b'(' inner))

abbrev pub opens_with_digit : Text → Bool
opens_with_digit [] = false
opens_with_digit (c ∷ s) = is_ascii_digit c

abbrev pub no_start_year : Text
no_start_year = codes "aircraft name opens a production range that is not a year"

abbrev pub no_end_year : Text
no_end_year = codes "aircraft name closes a production range that is not a year"

unfoldable pub closed_range : ℤ → Option ℤ → Result Text ProductionRange
closed_range start none = err no_end_year
closed_range start (some end) = ok (some start, some end, some false)

unfoldable pub range_from : Text → Option ℤ → Result Text ProductionRange
range_from end_text none = err no_start_year
range_from end_text (some start) =
    if eq_ignore_ascii_case end_text (codes "present")
    then ok (some start, none, some true)
    else closed_range start (parse_i16 end_text)

-- The two sides of the separator, trimmed.
unfoldable pub range_between : Text → Text → Result Text ProductionRange
range_between start_text end_text =
    if not (opens_with_digit start_text)
    then ok no_range
    else range_from end_text (parse_i16 start_text)

unfoldable pub split_range : Option (Text × Text) → Result Text ProductionRange
split_range none = ok no_range
split_range (some (start, end)) = range_between (trim start) (trim end)

unfoldable pub range_within : Option Text → Result Text ProductionRange
range_within none = ok no_range
range_within (some range) = split_range (split_once b'-' range)

unfoldable pub parsed_production_range : Text → Result Text ProductionRange
parsed_production_range aircraft = range_within (trailing_parenthetical aircraft)

abbrev pub first_word : Text → Option Text
first_word s = elim (split_whitespace s) [ [] ↦ none | w ∷ ws ↦ some w ]

unfoldable pub number_after : Text → Text → Option ℤ
number_after value marker =
    and_then (after_text marker (to_ascii_lowercase value))
      (λ rest. and_then (first_word rest) parse_i16)

unfoldable pub occupants : Text → Option ℤ × Option ℤ
occupants description =
    (number_after description (codes "seats up to "), number_after description (codes "plus "))

unfoldable pub parse_engine_count : Text → Option ℤ
parse_engine_count raw = and_then (parse_sentinel raw) (λ v.
    if contains_text (codes " x ") (to_ascii_lowercase v)
    then and_then (first_word v) parse_i16
    else some (pos 1))

unfoldable pub pixels : Option (Text × Text) → Option (ℤ × ℤ)
pixels none = none
pixels (some (width, height)) =
    and_then (parse_i16 (trim width)) (λ w. map_option (λ h. (w, h)) (parse_i16 (trim height)))

unfoldable pub dimensions_px : Text → Option (ℤ × ℤ)
dimensions_px raw = pixels (split_once b'x' (to_ascii_lowercase raw))

-- `Sha256` over the UTF-8 bytes of a text is a parameter.
unfoldable pub source_record_key : (Text → List ℕ) → Text → Text → Text
source_record_key sha256 manufacturer aircraft =
    hex_digest (sha256 (codes "planephd" ++ (0 ∷ (manufacturer ++ (0 ∷ aircraft)))))
