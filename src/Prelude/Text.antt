-- ===== src/Prelude/Text.antt =====
-- Text as a list of code points, and the operations of Rust's `str` and number parsers that the
-- program calls.
pub mod Search
pub mod Signed
pub mod Decimal
pub mod Trimmed
pub mod Split
pub mod Printable
use Prim.Native.Char.{code}
use Prim.Native.Nat.{ℕ, zero, suc, ◌+◌, ◌-◌, ◌*◌, ◌≤◌}
use Prim.Native.String.{String}
use mathlib.Core.Bool.{Bool, true, false, ◌&&◌, ◌||◌}
use mathlib.Core.Option.{Option, none, some}
use mathlib.Core.Path.{◌≡◌, refl, ap, sym, ◌∙◌}
use mathlib.Core.Logic.{◌↔◌, inl, inr}
use mathlib.Core.List.{List, [], ◌∷◌, ◌++◌}
use native.Mathlib.Omega.{arith}
use aircraft_api_r.Prelude.Lists.{length, All}
use aircraft_api_r.Prelude.Tests.{Eq, ltb, leb, ◌==◌, ==_iff, Bool-cases, if◌then◌else◌}

abbrev pub Text : Type 0
Text = List ℕ

-- The code points of a literal.
abbrev pub codes : String → Text
codes String.[] = []
codes (String.◌∷◌ c s) = code c ∷ codes s

unfoldable pub text_eq : Text → Text → Bool
text_eq [] [] = true
text_eq (a ∷ s) (b ∷ t) = (a == b) && text_eq s t
text_eq _ _ = false

pub text_eq_iff : (s t : Text) → (text_eq s t ≡ true) ↔ (s ≡ t)
unfolding text_eq
text_eq_iff [] [] = ground arith
text_eq_iff (a ∷ s) [] = ground arith
text_eq_iff [] (b ∷ t) = ground arith
text_eq_iff (a ∷ s) (b ∷ t) = ground (arith, text_eq_iff s t)

instance abbrev pub Text-Eq : Eq Text
Text-Eq = record { beq = text_eq; beq_iff = text_eq_iff }

-- Bytes of the UTF-8 encoding.
abbrev pub utf8_width : ℕ → ℕ
utf8_width c = if ltb c 0x80 then 1 else if ltb c 0x800 then 2 else if ltb c 0x10000 then 3 else 4

-- `str::len`
unfoldable pub len : Text → ℕ
len [] = 0
len (c ∷ s) = utf8_width c + len s

abbrev pub is_empty : Text → Bool
is_empty [] = true
is_empty (_ ∷ _) = false

-- `u8::is_ascii_digit` and `char::is_ascii_digit`
abbrev pub is_ascii_digit : ℕ → Bool
is_ascii_digit c = leb b'0' c && leb c b'9'

abbrev pub is_ascii_uppercase : ℕ → Bool
is_ascii_uppercase c = leb b'A' c && leb c b'Z'

abbrev pub is_ascii_hexdigit : ℕ → Bool
is_ascii_hexdigit c = is_ascii_digit c || (leb b'a' c && leb c b'f') || (leb b'A' c && leb c b'F')

abbrev pub is_ascii_lowercase : ℕ → Bool
is_ascii_lowercase c = leb b'a' c && leb c b'z'

abbrev pub is_ascii_alphabetic : ℕ → Bool
is_ascii_alphabetic c = is_ascii_uppercase c || is_ascii_lowercase c

-- `char::is_control`: the general category Cc.
abbrev pub is_control : ℕ → Bool
is_control c = ltb c 0x20 || (leb 0x7F c && ltb c 0xA0)

-- `char::is_whitespace`: the property White_Space.
abbrev pub is_whitespace : ℕ → Bool
is_whitespace c =
    (leb 9 c && leb c 13)
    || c == 0x20
    || c == 0x85
    || c == 0xA0
    || c == 0x1680
    || (leb 0x2000 c && leb c 0x200A)
    || c == 0x2028
    || c == 0x2029
    || c == 0x202F
    || c == 0x205F
    || c == 0x3000

-- `str::split` at one character: always at least one part.
unfoldable pub split : ℕ → Text → List Text
split sep [] = [] ∷ []
split sep (c ∷ s) = elim (split sep s) [
  | [] ↦ []
  | part ∷ parts ↦ if c == sep then [] ∷ part ∷ parts else (c ∷ part) ∷ parts
]

abbrev cons_before : ℕ → Option (Text × Text) → Option (Text × Text)
cons_before c none = none
cons_before c (some (before, after)) = some (c ∷ before, after)

-- `str::split_once` at one character: the parts before and after its first occurrence.
unfoldable pub split_once : ℕ → Text → Option (Text × Text)
split_once sep [] = none
split_once sep (c ∷ s) = if c == sep then some ([], s) else cons_before c (split_once sep s)

-- `str::strip_prefix` of one character
abbrev pub strip_prefix : ℕ → Text → Option Text
strip_prefix p [] = none
strip_prefix p (c ∷ s) = if c == p then some s else none

abbrev pub strip_prefix_or_self : ℕ → Text → Text
strip_prefix_or_self p [] = []
strip_prefix_or_self p (c ∷ s) = if c == p then s else c ∷ s

-- No occurrence of a character.
abbrev pub Lacks : ℕ → Text → Type 0
Lacks sep = All (λ c. (c == sep) ≡ false)

-- What `split_once` returns: the first occurrence, or that there is none.
abbrev pub SplitsAt : ℕ → Text → Option (Text × Text) → Type 0
SplitsAt sep s none = Lacks sep s
SplitsAt sep s (some (before, after)) = (s ≡ before ++ sep ∷ after) × Lacks sep before

SplitsAt-cons :
    (sep c : ℕ) (s : Text) (o : Option (Text × Text))
    → (c == sep) ≡ false
    → SplitsAt sep s o
    → SplitsAt sep (c ∷ s) (cons_before c o)
SplitsAt-cons sep c s none ne h = (ne, h)
SplitsAt-cons sep c s (some (before, after)) ne (e, h) = (ap (λ t. c ∷ t) e, (ne, h))

pub split_once-SplitsAt : (sep : ℕ) (s : Text) → SplitsAt sep s (split_once sep s)
unfolding split_once
split_once-SplitsAt sep [] = tt
split_once-SplitsAt sep (c ∷ s) = elim (Bool-cases (c == sep)) [
  | inl e ↦ rw e (ap (λ x. x ∷ s) ((==_iff c sep).0 e), tt)
  | inr e ↦ rw e (SplitsAt-cons sep c s (split_once sep s) e (split_once-SplitsAt sep s))
]

pub split_once-append :
    (sep : ℕ) (before after : Text)
    → Lacks sep before
    → split_once sep (before ++ sep ∷ after) ≡ some (before, after)
unfolding split_once
split_once-append sep [] after h = ground arith
split_once-append sep (c ∷ before) after (ne, h) =
    rw (ne, split_once-append sep before after h) refl

pub split_once-Lacks : (sep : ℕ) (s : Text) → Lacks sep s → split_once sep s ≡ none
unfolding split_once
split_once-Lacks sep [] h = refl
split_once-Lacks sep (c ∷ s) (ne, h) = rw (ne, split_once-Lacks sep s h) refl

-- `str::splitn` at one character: at most the given number of parts, the last one unsplit.
unfoldable pub splitn : ℕ → ℕ → Text → List Text
splitn zero sep s = []
splitn (suc zero) sep s = s ∷ []
splitn (suc (suc n)) sep s = elim (split_once sep s) [
  | none ↦ s ∷ []
  | some (before, after) ↦ before ∷ splitn (suc n) sep after
]

pub len-append : (s t : Text) → len (s ++ t) ≡ len s + len t
unfolding len
len-append [] t = omega arith
len-append (c ∷ s) t = omega (arith, len-append s t)

-- `[T]::join` with a one-character separator
abbrev pub join : ℕ → List Text → Text
join sep [] = []
join sep (part ∷ []) = part
join sep (part ∷ next ∷ parts) = part ++ sep ∷ join sep (next ∷ parts)

join-cons :
    (sep : ℕ) (part : Text) (parts : List Text)
    → 1 ≤ length parts
    → join sep (part ∷ parts) ≡ part ++ sep ∷ join sep parts
join-cons sep part [] h = absurd (omega arith)
join-cons sep part (next ∷ parts) h = refl

-- The parts that `splitn` makes, when it did not run into its bound.
abbrev pub IsSplit : ℕ → Text → List Text → Type 0
IsSplit sep s parts = (s ≡ join sep parts) × All (Lacks sep) parts

length-splitn-ge : (n sep : ℕ) (s : Text) → 1 ≤ length (splitn (suc n) sep s)
unfolding splitn
length-splitn-ge zero sep s = omega arith
length-splitn-ge (suc n) sep s = go (split_once sep s)
  where
    go :
        (o : Option (Text × Text))
        → 1
          ≤ length
              (elim o [ none ↦ s ∷ [] | some (before, after) ↦ before ∷ splitn (suc n) sep after ])
    go none = omega arith
    go (some (before, after)) = omega arith

pub splitn-IsSplit :
    (n sep : ℕ) (s : Text)
    → length (splitn (suc n) sep s) ≤ n
    → IsSplit sep s (splitn (suc n) sep s)
unfolding splitn
splitn-IsSplit zero sep s h = absurd (omega arith)
splitn-IsSplit (suc n) sep s h =
    go (split_once sep s) (split_once-SplitsAt sep s) h (λ after k. splitn-IsSplit n sep after k)
  where
    parts : Option (Text × Text) → List Text
    parts o = elim o [ none ↦ s ∷ [] | some (before, after) ↦ before ∷ splitn (suc n) sep after ]

    go :
        (o : Option (Text × Text))
        → SplitsAt sep s o
        → length (parts o) ≤ suc n
        → ((after : Text)
            → length (splitn (suc n) sep after) ≤ n
            → IsSplit sep after (splitn (suc n) sep after))
        → IsSplit sep s (parts o)
    go none lacks k ih = (refl, (lacks, tt))
    go (some (before, after)) (e, lacks) k ih =
        let r = ih after (omega arith) in
        (
          e
              ∙ ap (λ x. before ++ sep ∷ x) r.0
              ∙ sym
                  (join-cons sep before (splitn (suc n) sep after) (length-splitn-ge n sep after)),
          (lacks, r.1),
        )

pub splitn-join :
    (n sep : ℕ) (parts : List Text)
    → All (Lacks sep) parts
    → 1 ≤ length parts
    → length parts ≤ n
    → splitn (suc n) sep (join sep parts) ≡ parts
unfolding splitn
splitn-join n sep [] lacks ne h = absurd (omega arith)
splitn-join zero sep (p ∷ parts) lacks ne h = absurd (omega arith)
splitn-join (suc n) sep (p ∷ []) (lacks, u) ne h = rw (splitn, split_once-Lacks sep p lacks) refl
splitn-join (suc n) sep (p ∷ q ∷ parts) (lacks, rest) ne h =
    rw
      (
        splitn,
        split_once-append sep p (join sep (q ∷ parts)) lacks,
        splitn-join n sep (q ∷ parts) rest (omega arith) (omega arith),
      )
      refl

-- The loop of the standard library's unsigned parser: every digit is checked against the bound.
unfoldable pub parse_digits : ℕ → ℕ → Text → Option ℕ
parse_digits bound acc [] = some acc
parse_digits bound acc (c ∷ s) =
    let next = acc * 10 + (c - b'0') in
    let rest = parse_digits bound next s in
    if is_ascii_digit c then (if leb next bound then rest else none) else none

-- `str::parse` for an unsigned integer type with the given largest value: one `+` is accepted.
unfoldable pub parse_unsigned : ℕ → Text → Option ℕ
unfolding parse_digits
parse_unsigned bound s =
    let digits = strip_prefix_or_self b'+' s in
    if is_empty digits then none else parse_digits bound 0 digits

parse_digits-le :
    (bound acc : ℕ) (s : Text) (n : ℕ) → acc ≤ bound → parse_digits bound acc s ≡ some n → n ≤ bound
unfolding parse_digits
parse_digits-le bound acc [] n h e = ground arith
parse_digits-le bound acc (c ∷ s) n h e =
    ground (arith, parse_digits-le bound (acc * 10 + (c - b'0')) s n)

abbrev pub Fits : ℕ → Option ℕ → Type 0
Fits bound none = Unit
Fits bound (some n) = n ≤ bound

-- A parsed number fits the type.
pub parse_unsigned-le : (bound : ℕ) (s : Text) (n : ℕ) → parse_unsigned bound s ≡ some n → n ≤ bound
unfolding parse_unsigned
parse_unsigned-le bound s n e =
    ground (arith, parse_digits-le bound 0 (strip_prefix_or_self b'+' s) n)

pub parse_unsigned-Fits : (bound : ℕ) (s : Text) → Fits bound (parse_unsigned bound s)
parse_unsigned-Fits bound s = fits (parse_unsigned bound s) (parse_unsigned-le bound s)
  where
    fits : (o : Option ℕ) → ((n : ℕ) → o ≡ some n → n ≤ bound) → Fits bound o
    fits none h = tt
    fits (some n) h = h n refl
