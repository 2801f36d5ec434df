-- ===== src/Domain/Measurement/Decimal.antt =====
-- `DecimalString` and `UnitCode` of crates/aircraft_domain/src/measurement.rs. Text is a list of code
-- points: a byte of a character outside ASCII is no digit, so the test of every byte is that of
-- every character.
pub mod Grammar
use aircraft_api_r.Prelude.{
  ℕ, ◌≤◌, ◌≡◌, Bool, true, false, not, ◌&&◌, ◌||◌, Option, none, some, [], ◌∷◌, all, Result, ok,
  err, ◌>>◌, ◌>>=◌, ltb, ◌==◌, if◌then◌else◌,
}
use aircraft_api_r.Prelude.Text.{
  Text, len, is_empty, is_ascii_digit, is_ascii_uppercase, strip_prefix_or_self, split_once,
}

abbrev pub max_integer_digits : ℕ
max_integer_digits = 131072

abbrev pub max_fractional_digits : ℕ
max_fractional_digits = 16383

pub record DecimalString : Type 0 where
  pub text : Text

pub data DecimalSyntaxError : Type 0 where
  not_plain_decimal too_many_digits : DecimalSyntaxError

unfoldable pub digits_within : Text → ℕ → Result DecimalSyntaxError (Unit {0})
digits_within part max =
    if is_empty part || not (all is_ascii_digit part)
    then err not_plain_decimal
    else if ltb max (len part)
    then err too_many_digits
    else ok tt

-- The two parts, the second only where there is a point.
abbrev pub integer_and_fraction : Text → Option (Text × Text) → Text × Option Text
integer_and_fraction unsigned none = (unsigned, none)
integer_and_fraction unsigned (some (integer, fraction)) = (integer, some fraction)

abbrev pub fraction_within : Option Text → Result DecimalSyntaxError (Unit {0})
fraction_within none = ok tt
fraction_within (some fraction) = digits_within fraction max_fractional_digits

-- The checks of `parse`, once the text is taken apart.
abbrev pub checked : Text → Text × Option Text → Result DecimalSyntaxError DecimalString
checked text (integer, fraction) = do
  digits_within integer max_integer_digits
  fraction_within fraction
  ok (record { text = text })

unfoldable pub decimal_parse : Text → Result DecimalSyntaxError DecimalString
decimal_parse text =
    let unsigned = strip_prefix_or_self b'-' text in
    checked text (integer_and_fraction unsigned (split_once b'.' unsigned))

pub record UnitCode : Type 0 where
  pub code : Text

pub data UnitCodeSyntaxError : Type 0 where
  unit_code_syntax_error : UnitCodeSyntaxError

abbrev pub is_code_char : ℕ → Bool
is_code_char c = is_ascii_uppercase c || is_ascii_digit c || c == b'_'

unfoldable pub unit_code_parse : Text → Result UnitCodeSyntaxError UnitCode
unit_code_parse [] = err unit_code_syntax_error
unit_code_parse (first ∷ rest) =
    if is_ascii_uppercase first && all is_code_char rest
    then ok (record { code = first ∷ rest })
    else err unit_code_syntax_error
