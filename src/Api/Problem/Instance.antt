-- ===== src/Api/Problem/Instance.antt =====
-- `bounded_instance`: which path a problem document repeats.
use Prim.Native.Nat.{ℕ, suc, ◌≤◌}
use mathlib.Core.Path.{◌≡◌, refl, ◌∙◌}
use mathlib.Core.Logic.{◌⊎◌, ◌≢◌, inl, inr}
use mathlib.Core.Bool.{Bool, true, false, not, ◌&&◌, ◌||◌}
use mathlib.Core.Option.{Option, none, some}
use mathlib.Core.List.{[], ◌∷◌}
use native.Mathlib.Omega.{arith}
use aircraft_api_r.Prelude.{
  ltb, ◌==◌, if◌then◌else◌, Bool-cases, is_some, length, take, take_short, ltb_false→le, any, All,
}
use aircraft_api_r.Prelude.Text.{Text, codes, text_eq, is_control, is_ascii_hexdigit}
use aircraft_api_r.Prelude.Text.Printable.{IsPrintable, is_control_iff}
use aircraft_api_r.Api.Problem.{ProblemKind, ApiProblem}

-- A parsed `Uri`, as far as it is asked.
pub record Uri : Type 0 where
  pub scheme : Option Text
  pub authority : Option Text
  pub path : Text
  pub query : Option Text

abbrev pub max_instance_chars : ℕ
max_instance_chars = 255

abbrev pub invalid_instance : Text
invalid_instance = codes "/invalid-request-path"

abbrev pub oversized_instance : Text
oversized_instance = codes "/request-path-too-long"

-- The loop over the bytes; a byte of a longer character is no hexadecimal digit.
unfoldable pub has_valid_percent_encoding : Text → Bool
has_valid_percent_encoding [] = true
has_valid_percent_encoding (c ∷ []) = not (c == b'%')
has_valid_percent_encoding (c ∷ high ∷ []) = elim (c == b'%') [
  | true ↦ false
  | false ↦ has_valid_percent_encoding (high ∷ [])
]
has_valid_percent_encoding (c ∷ high ∷ low ∷ rest) = elim (c == b'%') [
  | true ↦ elim (is_ascii_hexdigit high && is_ascii_hexdigit low) [
    | true ↦ has_valid_percent_encoding rest
    | false ↦ false
  ]
  | false ↦ has_valid_percent_encoding (high ∷ low ∷ rest)
]

-- `starts_with('/')` and `starts_with("//")`
abbrev pub starts_with_slash : Text → Bool
starts_with_slash [] = false
starts_with_slash (c ∷ s) = c == b'/'

abbrev pub starts_with_two_slashes : Text → Bool
starts_with_two_slashes [] = false
starts_with_two_slashes (c ∷ s) = c == b'/' && starts_with_slash s

-- The condition that refuses a path that is a URI.
unfoldable pub is_unfit : Text → Uri → Bool
is_unfit sanitized uri =
    any is_control sanitized
    || not (starts_with_slash sanitized)
    || starts_with_two_slashes sanitized
    || is_some uri.scheme
    || is_some uri.authority
    || is_some uri.query
    || not (text_eq uri.path sanitized)
    || not (has_valid_percent_encoding sanitized)

abbrev pub IsHexDigit : ℕ → Type 0
IsHexDigit c = ((b'0' ≤ c) × (c ≤ b'9')) ⊎ ((b'a' ≤ c) × (c ≤ b'f')) ⊎ ((b'A' ≤ c) × (c ≤ b'F'))

abbrev pub TwoHexDigits : Text → Type 0
TwoHexDigits [] = ⊥
TwoHexDigits (high ∷ []) = ⊥
TwoHexDigits (high ∷ low ∷ rest) = IsHexDigit high × IsHexDigit low

-- After each percent sign, wherever it stands, come two hexadecimal digits.
abbrev pub WholeEscapes : Text → Type 0
WholeEscapes [] = Unit
WholeEscapes (c ∷ s) = (c ≡ b'%' → TwoHexDigits s) × WholeEscapes s

-- A slash, and no second one behind it.
abbrev pub OneSlash : Text → Type 0
OneSlash [] = ⊥
OneSlash (c ∷ []) = c ≡ b'/'
OneSlash (c ∷ d ∷ s) = (c ≡ b'/') × (d ≢ b'/')

valid-WholeEscapes : (s : Text) → has_valid_percent_encoding s ≡ true → WholeEscapes s
unfolding has_valid_percent_encoding
valid-WholeEscapes [] h = tt
valid-WholeEscapes (c ∷ []) h = ground arith
valid-WholeEscapes (c ∷ high ∷ []) h = ground (arith, valid-WholeEscapes (high ∷ []))
valid-WholeEscapes (c ∷ high ∷ low ∷ rest) h = elim (Bool-cases (c == b'%')) [
  | inr other ↦ (
    λ e. ground (arith, e, other),
    valid-WholeEscapes (high ∷ low ∷ rest) (ground (arith, h, other)),
  )
  | inl escape ↦
      let digits : (IsHexDigit high × IsHexDigit low) = ground (arith, h, escape) in
      (
        (λ e. digits),
        (
          (λ e. ground (arith, e, digits)),
          ((λ e. ground (arith, e, digits)), valid-WholeEscapes rest (ground (arith, h, escape))),
        ),
      )
]

slashes-OneSlash :
    (s : Text) → starts_with_slash s ≡ true → starts_with_two_slashes s ≡ false → OneSlash s
slashes-OneSlash [] h k = cc
slashes-OneSlash (c ∷ []) h k = ground (arith, h)
slashes-OneSlash (c ∷ d ∷ s) h k = ground (arith, h, k)

uncontrolled-IsPrintable : (s : Text) → any is_control s ≡ false → All IsPrintable s
uncontrolled-IsPrintable [] h = tt
uncontrolled-IsPrintable (c ∷ s) h =
    ((is_control_iff c).0 (ground (arith, h)), uncontrolled-IsPrintable s (ground (arith, h)))

-- A path that may be repeated: absolute on this host, short, without control characters, and
-- with whole percent escapes.
abbrev pub IsInstance : Text → Type 0
IsInstance s = (length s ≤ 255) × OneSlash s × All IsPrintable s × WholeEscapes s

IsInstance-invalid : IsInstance invalid_instance
IsInstance-invalid = ground arith

IsInstance-oversized : IsInstance oversized_instance
IsInstance-oversized = ground arith

fit-IsInstance : (s : Text) (uri : Uri) → length s ≤ 255 → is_unfit s uri ≡ false → IsInstance s
unfolding is_unfit
fit-IsInstance s uri h fit = (
  h,
  slashes-OneSlash s (ground arith) (ground arith),
  uncontrolled-IsPrintable s (ground arith),
  valid-WholeEscapes s (ground arith),
)

module _ (parse_uri : Text → Option Uri) where
  unfoldable pub after_parse : Text → Option Uri → Text
  after_parse sanitized none = invalid_instance
  after_parse sanitized (some uri) = if is_unfit sanitized uri then invalid_instance else sanitized

  unfoldable pub bounded_instance : Text → Text
  bounded_instance path =
      let sanitized = take (suc max_instance_chars) path in
      if ltb max_instance_chars (length sanitized)
      then oversized_instance
      else after_parse sanitized (parse_uri sanitized)

  unfoldable pub problem_new : ProblemKind → Text → ApiProblem
  problem_new kind path = record { kind = kind; instance_path = bounded_instance path }

  after_parse-IsInstance :
      (s : Text) (o : Option Uri)
      → length s ≤ 255
      → IsInstance (after_parse s o)
        × ((after_parse s o ≡ s) ⊎ (after_parse s o ≡ invalid_instance))
  unfolding after_parse
  after_parse-IsInstance s none h = (IsInstance-invalid, inr refl)
  after_parse-IsInstance s (some uri) h = elim (Bool-cases (is_unfit s uri)) [
    | inl unfit ↦ rw unfit (IsInstance-invalid, inr refl)
    | inr fit ↦ rw fit (fit-IsInstance s uri h fit, inl refl)
  ]

  -- The path that a problem names has at most 255 characters, starts with one slash and not two,
  -- has no control character, and has two hexadecimal digits after each percent sign; it is the
  -- path of the request or one of two fixed paths.
  pub bounded_instance-IsInstance :
      (path : Text)
      → IsInstance (bounded_instance path)
        × ((bounded_instance path ≡ path)
            ⊎ (bounded_instance path ≡ invalid_instance)
            ⊎ (bounded_instance path ≡ oversized_instance))
  unfolding bounded_instance
  bounded_instance-IsInstance path =
      let taken = take 256 path in
      elim (Bool-cases (ltb max_instance_chars (length taken))) [
        | inl long ↦ rw long (IsInstance-oversized, inr (inr refl))
        | inr short ↦
            let bound = ltb_false→le max_instance_chars (length taken) short in
            let whole = take_short 255 path bound in
            let r = after_parse-IsInstance taken (parse_uri taken) bound in
            rw short (r.0, elim r.1 [ inl e ↦ inl (e ∙ whole) | inr e ↦ inr (inl e) ])
      ]
