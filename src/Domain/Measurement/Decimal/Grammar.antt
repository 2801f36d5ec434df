-- ===== src/Domain/Measurement/Decimal/Grammar.antt =====
-- The grammar that `DecimalString::parse` accepts, stated without the parser.
use mathlib.Core.List.{append-nil}
use aircraft_api_r.Prelude.{
  ℕ, ◌≤◌, ◌≡◌, refl, sym, subst, ap, ◌∙◌, ◌↔◌, inl, inr, arith, Bool, true, false, Option, none,
  some, [], ◌∷◌, ◌++◌, length, all, All, ok, ◌==◌, if◌then◌else◌, Bool-cases, ==_iff, >>-eq-ok,
}
use aircraft_api_r.Prelude.Text.{
  Text, len, is_empty, is_ascii_digit, strip_prefix_or_self, split_once, Lacks, SplitsAt,
  split_once-SplitsAt, split_once-append, split_once-Lacks,
}
use aircraft_api_r.Domain.Measurement.Decimal.{
  DecimalString, max_integer_digits, max_fractional_digits, digits_within, integer_and_fraction,
  fraction_within, checked, decimal_parse,
}

-- A run of ASCII digits, not empty.
abbrev pub IsDigits : Text → Type 0
IsDigits s = (is_empty s ≡ false) × All (λ c. is_ascii_digit c ≡ true) s

len-IsDigits : (s : Text) → All (λ c. is_ascii_digit c ≡ true) s → len s ≡ length s
unfolding len
len-IsDigits [] h = refl
len-IsDigits (c ∷ s) (d, h) = ground (arith, len-IsDigits s h)

all_digits : (s : Text) → all is_ascii_digit s ≡ true → All (λ c. is_ascii_digit c ≡ true) s
all_digits [] h = tt
all_digits (c ∷ s) h = ground (arith, all_digits s)

all-is_ascii_digit : (s : Text) → All (λ c. is_ascii_digit c ≡ true) s → all is_ascii_digit s ≡ true
all-is_ascii_digit [] h = refl
all-is_ascii_digit (c ∷ s) (d, h) = rw d (all-is_ascii_digit s h)

-- No digit is a given character that is not one.
Lacks-IsDigits :
    (sep : ℕ) (s : Text)
    → is_ascii_digit sep ≡ false
    → All (λ c. is_ascii_digit c ≡ true) s
    → Lacks sep s
Lacks-IsDigits sep [] no_digit h = tt
Lacks-IsDigits sep (c ∷ s) not_digit (d, h) = (ground arith, Lacks-IsDigits sep s not_digit h)

abbrev pub DigitsWithin : Text → ℕ → Type 0
DigitsWithin part max = IsDigits part × (length part ≤ max)

digits_within_sound :
    (part : Text) (max : ℕ) → digits_within part max ≡ ok tt → DigitsWithin part max
unfolding digits_within
digits_within_sound part max e = ground (arith, all_digits part, len-IsDigits part)

digits_within_complete :
    (part : Text) (max : ℕ) → DigitsWithin part max → digits_within part max ≡ ok tt
unfolding digits_within
digits_within_complete part max ((filled, d), fits) =
    ground (arith, all-is_ascii_digit part d, len-IsDigits part d)

-- The spelling: an optional minus sign, digits, and optionally a point with digits after it.
abbrev pub spell_fraction : Option Text → Text
spell_fraction none = []
spell_fraction (some fraction) = b'.' ∷ fraction

abbrev pub spell : Bool → Text → Option Text → Text
spell negative integer fraction =
    let unsigned = integer ++ spell_fraction fraction in
    if negative then b'-' ∷ unsigned else unsigned

abbrev pub FractionWithin : Option Text → Type 0
FractionWithin none = Unit
FractionWithin (some fraction) = DigitsWithin fraction max_fractional_digits

-- A plain base-ten decimal that the database can store.
pub record PlainDecimal (t : Text) : Type 0 where
  pub negative : Bool
  pub integer : Text
  pub fraction : Option Text
  pub spelled : t ≡ spell negative integer fraction
  pub integer_within : DigitsWithin integer max_integer_digits
  pub within : FractionWithin fraction

split_spelled :
    (integer : Text) (fraction : Option Text)
    → All (λ c. is_ascii_digit c ≡ true) integer
    → integer_and_fraction
        (integer ++ spell_fraction fraction)
        (split_once b'.' (integer ++ spell_fraction fraction))
      ≡ (integer, fraction)
split_spelled integer none d =
    rw (append-nil integer, split_once-Lacks b'.' integer (Lacks-IsDigits b'.' integer refl d)) refl
split_spelled integer (some fraction) d =
    rw (split_once-append b'.' integer fraction (Lacks-IsDigits b'.' integer refl d)) refl

strip_spelled :
    (negative : Bool) (integer : Text) (fraction : Option Text)
    → IsDigits integer
    → strip_prefix_or_self b'-' (spell negative integer fraction)
      ≡ integer ++ spell_fraction fraction
strip_spelled true integer fraction d = refl
strip_spelled false [] fraction (e, d) = absurd (cc)
strip_spelled false (c ∷ integer) fraction (e, (d, ds)) = ground arith

fraction_within_complete :
    (fraction : Option Text) → FractionWithin fraction → fraction_within fraction ≡ ok tt
fraction_within_complete none h = refl
fraction_within_complete (some fraction) h = digits_within_complete fraction max_fractional_digits h

fraction_within_sound :
    (fraction : Option Text) → fraction_within fraction ≡ ok tt → FractionWithin fraction
fraction_within_sound none h = tt
fraction_within_sound (some fraction) h = digits_within_sound fraction max_fractional_digits h

decimal_parse_spelled :
    (negative : Bool) (integer : Text) (fraction : Option Text)
    → DigitsWithin integer max_integer_digits
    → FractionWithin fraction
    → decimal_parse (spell negative integer fraction)
      ≡ ok (record { text = spell negative integer fraction })
unfolding decimal_parse
decimal_parse_spelled negative integer fraction d f =
    rw
      (
        strip_spelled negative integer fraction d.0,
        split_spelled integer fraction d.0.1,
        digits_within_complete integer max_integer_digits d,
        fraction_within_complete fraction f,
      )
      refl

decimal_parse_complete : (t : Text) → PlainDecimal t → decimal_parse t ≡ ok (record { text = t })
decimal_parse_complete t p =
    subst (λ s. decimal_parse s ≡ ok (record { text = s })) (sym p.spelled)
      (decimal_parse_spelled p.negative p.integer p.fraction p.integer_within p.within)

-- What the leading sign leaves.
strip_cases :
    (t : Text)
    → (negative : Bool) × (t
        ≡ (if negative then b'-' ∷ strip_prefix_or_self b'-' t else strip_prefix_or_self b'-' t))
strip_cases [] = (false, refl)
strip_cases (c ∷ s) = elim (Bool-cases (c == b'-')) [
  | inl e ↦ (true, rw e (ap (λ x. x ∷ s) ((==_iff c b'-').0 e)))
  | inr e ↦ (false, rw e refl)
]

checked_sound :
    (t : Text) (parts : Text × Option Text) (d : DecimalString)
    → checked t parts ≡ ok d
    → DigitsWithin parts.0 max_integer_digits × FractionWithin parts.1 × (d.text ≡ t)
checked_sound t (integer, fraction) d e =
    let (whole, rest) = >>-eq-ok (digits_within integer max_integer_digits) _ e in
    let (part, last) = >>-eq-ok (fraction_within fraction) _ rest in
    (
      digits_within_sound integer max_integer_digits whole,
      fraction_within_sound fraction part,
      ground arith,
    )

-- The parts of an unsigned text spell it.
parts_spell :
    (s : Text) (o : Option (Text × Text))
    → SplitsAt b'.' s o
    → (integer_and_fraction s o).0 ++ spell_fraction (integer_and_fraction s o).1 ≡ s
parts_spell s none h = append-nil s
parts_spell s (some (before, after)) (e, h) = sym e

decimal_parse_sound :
    (t : Text) (d : DecimalString) → decimal_parse t ≡ ok d → PlainDecimal t × (d.text ≡ t)
unfolding decimal_parse
decimal_parse_sound t d e =
    let unsigned = strip_prefix_or_self b'-' t in
    let parts = integer_and_fraction unsigned (split_once b'.' unsigned) in
    let (whole, part, same) = checked_sound t parts d e in
    let (negative, signed) = strip_cases t in
    let spelled =
      parts_spell unsigned (split_once b'.' unsigned) (split_once-SplitsAt b'.' unsigned) in
    (
      record {
        negative = negative;
        integer = parts.0;
        fraction = parts.1;
        spelled = signed ∙ ap (λ s. if negative then b'-' ∷ s else s) (sym spelled);
        integer_within = whole;
        within = part;
      },
      same,
    )

-- A text parses exactly when it is a plain decimal that the database can store: an optional minus
-- sign, digits, and optionally a point with digits after it, both runs of digits within their
-- bounds; the parsed value is the text.
pub decimal_parse_iff :
    (t : Text) (d : DecimalString) → (decimal_parse t ≡ ok d) ↔ (PlainDecimal t × (d.text ≡ t))
decimal_parse_iff t d = (
  decimal_parse_sound t d,
  λ (p : PlainDecimal t × (d.text ≡ t)).
      decimal_parse_complete t p.0 ∙ ap (λ s. ok (record { text = s })) (sym p.1),
)
