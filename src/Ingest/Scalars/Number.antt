-- ===== src/Ingest/Scalars/Number.antt =====
-- The numbers that `parse_numeric` of crates/aircraft_ingest/src/normalization.rs yields.
use mathlib.Core.Path.{◌≡◌, refl, sym, ap, subst, ◌∙◌}
use mathlib.Core.Bool.{true, false, ◌&&◌}
use mathlib.Core.Logic.{◌⊎◌, inl, inr}
use mathlib.Core.Option.{some}
use mathlib.Core.List.{List, [], ◌∷◌, ◌++◌}
use aircraft_api_r.Prelude.{arith, all, Bool-cases, Option-cases}
use aircraft_api_r.Prelude.Text.{
  Text, codes, is_empty, is_ascii_digit, strip_prefix_or_self, split, join,
}
use aircraft_api_r.Prelude.Text.Split.{split-parts}
use aircraft_api_r.Prelude.Text.Search.{starts_with}
use aircraft_api_r.Ingest.Scalars.{
  parse_sentinel, cleaned, numeric_prefix, valid_parts, numeric_output, parse_numeric,
}

-- Digits, or digits around one point where not both sides are empty.
abbrev pub IsUnsignedNumber : Text → Type 0
IsUnsignedNumber s =
    ((all is_ascii_digit s ≡ true) × (is_empty s ≡ false))
    ⊎ ((whole : Text) × (fraction : Text) × (s ≡ whole ++ b'.' ∷ fraction)
        × (all is_ascii_digit whole ≡ true)
        × (all is_ascii_digit fraction ≡ true)
        × ((is_empty whole && is_empty fraction) ≡ false))

valid_parts-IsUnsignedNumber :
    (s : Text) (parts : List Text)
    → join b'.' parts ≡ s
    → valid_parts parts ≡ true
    → IsUnsignedNumber s
unfolding valid_parts
valid_parts-IsUnsignedNumber s [] e h = absurd (cc)
valid_parts-IsUnsignedNumber s (whole ∷ []) e h =
    subst IsUnsignedNumber e (inl (ground (arith, h), ground (arith, h)))
valid_parts-IsUnsignedNumber s (whole ∷ fraction ∷ []) e h =
    inr (whole, fraction, sym e, ground (arith, h), ground (arith, h), ground (arith, h))
valid_parts-IsUnsignedNumber s (whole ∷ fraction ∷ more ∷ parts) e h = absurd (cc)

-- The text of a number without a sign.
unsigned_text : (s : Text) → starts_with (codes "-") s ≡ false → strip_prefix_or_self b'-' s ≡ s
unfolding starts_with
unsigned_text [] h = refl
unsigned_text (c ∷ s) h = ground (arith, h)

valid_text :
    (s : Text)
    → valid_parts (split b'.' (strip_prefix_or_self b'-' s)) ≡ true
    → starts_with (codes "-") s ≡ false
    → IsUnsignedNumber s
valid_text s h unsigned =
    let (part, parts, e, j) = split-parts b'.' s in
    valid_parts-IsUnsignedNumber s (part ∷ parts) j
      (ap valid_parts (sym (ap (split b'.') (unsigned_text s unsigned) ∙ e)) ∙ h)

numeric_output-valid :
    (output s : Text)
    → numeric_output output ≡ some s
    → (output ≡ s) × (valid_parts (split b'.' (strip_prefix_or_self b'-' output)) ≡ true)
unfolding numeric_output
numeric_output-valid output s h =
    elim (Bool-cases (valid_parts (split b'.' (strip_prefix_or_self b'-' output)))) [
      | inl valid ↦ ground (arith, valid, h)
      | inr not_valid ↦ ground (arith, not_valid, h)
    ]

-- A number that is parsed and does not open with a minus is unsigned.
pub parse_numeric-IsUnsignedNumber :
    (raw s : Text)
    → parse_numeric raw ≡ some s
    → starts_with (codes "-") s ≡ false
    → IsUnsignedNumber s
unfolding parse_numeric
parse_numeric-IsUnsignedNumber raw s h unsigned = elim (Option-cases (parse_sentinel raw)) [
  | inl missing ↦ absurd (ground (arith, missing, h))
  | inr (value, found) ↦
      let output = numeric_prefix 0 (cleaned value) in
      let (same, valid) = numeric_output-valid output s (ground (found, arith, h)) in
      subst IsUnsignedNumber same (
        valid_text output valid
          (subst (λ x. starts_with (codes "-") x ≡ false) (sym same) unsigned))
]
