-- ===== src/Ingest/Scalars.antt =====
-- Scalar texts of crates/aircraft_ingest/src/normalization.rs: sentinels, numbers and units.
pub mod Number
use Prim.Native.Nat.{ℕ, zero, suc}
use mathlib.Core.Bool.{Bool, true, false, not, ◌&&◌, ◌||◌}
use mathlib.Core.Option.{Option, none, some}
use mathlib.Core.List.{List, [], ◌∷◌, filter}
use aircraft_api_r.Prelude.{◌==◌, if◌then◌else◌, all, get_last?}
use aircraft_api_r.Prelude.Text.{
  Text, codes, text_eq, is_empty, is_ascii_digit, is_ascii_alphabetic, strip_prefix_or_self, split,
}
use aircraft_api_r.Prelude.Text.Search.{
  trim, trim_start_matches, trim_matches, to_ascii_lowercase, to_ascii_uppercase, starts_with,
  split_whitespace, and_then,
}

unfoldable pub is_sentinel : Text → Bool
is_sentinel value =
    let lower = to_ascii_lowercase value in
    is_empty value
    || starts_with (codes "none") lower
    || text_eq lower (codes "n/a")
    || text_eq lower (codes "-")
    || text_eq lower (codes "--")

unfoldable pub parse_sentinel : Text → Option Text
parse_sentinel raw = let value = trim raw in if not (is_sentinel value) then some value else none

-- `str::replace` of a character by nothing.
abbrev pub without : ℕ → Text → Text
without c [] = []
without c (d ∷ s) = let rest = without c s in if d == c then rest else d ∷ rest

abbrev pub is_numeric_char : ℕ → ℕ → Bool
is_numeric_char index c = is_ascii_digit c || c == b'.' || (index == 0 && c == b'-')

-- The loop, with the index of the next character.
unfoldable pub numeric_prefix : ℕ → Text → Text
numeric_prefix index [] = []
numeric_prefix index (c ∷ s) =
    if is_numeric_char index c then c ∷ numeric_prefix (suc index) s else []

-- The test of the parts between the points.
unfoldable pub valid_parts : List Text → Bool
valid_parts [] = false
valid_parts (whole ∷ []) = not (is_empty whole) && all is_ascii_digit whole
valid_parts (whole ∷ fraction ∷ []) =
    (not (is_empty whole) || not (is_empty fraction))
    && all is_ascii_digit whole
    && all is_ascii_digit fraction
valid_parts (whole ∷ fraction ∷ more ∷ parts) = false

unfoldable pub numeric_output : Text → Option Text
numeric_output output =
    if valid_parts (split b'.' (strip_prefix_or_self b'-' output)) then some output else none

abbrev pub cleaned : Text → Text
cleaned value = without b',' (trim_start_matches (λ c. c == b'$') value)

unfoldable pub parse_numeric : Text → Option Text
parse_numeric raw =
    and_then (parse_sentinel raw) (λ value. numeric_output (numeric_prefix 0 (cleaned value)))

abbrev pub upper_unless_empty : Text → Option Text
upper_unless_empty token = if not (is_empty token) then some (to_ascii_uppercase token) else none

unfoldable pub parse_unit : Text → Option Text
parse_unit raw = and_then (parse_sentinel raw) (λ value.
    and_then (get_last? (split_whitespace value))
      (λ token. upper_unless_empty (trim_matches (λ c. not (is_ascii_alphabetic c)) token)))
