-- ===== src/Prelude/Text/Search.antt =====
-- Trimming, case and searching: the operations of Rust's `str` that the normalizer calls.
use Prim.Native.Nat.{ℕ, ◌+◌, ◌-◌}
use mathlib.Core.Bool.{Bool, true, false, ◌&&◌, ◌||◌}
use mathlib.Core.Option.{Option, none, some}
use mathlib.Core.List.{List, [], ◌∷◌, ◌++◌, map}
use aircraft_api_r.Prelude.Tests.{◌==◌, if◌then◌else◌, map_option}
use aircraft_api_r.Prelude.Text.{
  Text, is_empty, is_whitespace, is_ascii_uppercase, is_ascii_lowercase, text_eq,
}

unfoldable pub trim_start_matches : (ℕ → Bool) → Text → Text
trim_start_matches p [] = []
trim_start_matches p (c ∷ s) = if p c then trim_start_matches p s else c ∷ s

-- The end goes as long as all that follows goes.
unfoldable pub trim_end_matches : (ℕ → Bool) → Text → Text
trim_end_matches p [] = []
trim_end_matches p (c ∷ s) =
    let rest = trim_end_matches p s in if is_empty rest && p c then [] else c ∷ rest

abbrev pub trim_end : Text → Text
trim_end = trim_end_matches is_whitespace

abbrev pub trim : Text → Text
trim s = trim_end (trim_start_matches is_whitespace s)

abbrev pub trim_matches : (ℕ → Bool) → Text → Text
trim_matches p s = trim_end_matches p (trim_start_matches p s)

abbrev pub lowercase : ℕ → ℕ
lowercase c = if is_ascii_uppercase c then c + 32 else c

abbrev pub uppercase : ℕ → ℕ
uppercase c = if is_ascii_lowercase c then c - 32 else c

abbrev pub to_ascii_lowercase : Text → Text
to_ascii_lowercase = map lowercase

abbrev pub to_ascii_uppercase : Text → Text
to_ascii_uppercase = map uppercase

-- `str::strip_prefix` of a text
unfoldable pub strip_text : Text → Text → Option Text
strip_text [] s = some s
strip_text (p ∷ ps) [] = none
strip_text (p ∷ ps) (c ∷ s) = elim (c == p) [ true ↦ strip_text ps s | false ↦ none ]

unfoldable pub starts_with : Text → Text → Bool
starts_with [] s = true
starts_with (p ∷ ps) [] = false
starts_with (p ∷ ps) (c ∷ s) = c == p && starts_with ps s

-- `haystack.contains(needle)`
unfoldable pub contains_text : Text → Text → Bool
contains_text needle [] = is_empty needle
contains_text needle (c ∷ s) = starts_with needle (c ∷ s) || contains_text needle s

-- `Option::and_then`
abbrev pub and_then {ℓ κ} : {A : Type ℓ} {B : Type κ} → Option A → (A → Option B) → Option B
and_then none f = none
and_then (some a) f = f a

abbrev or_else_text : Option Text → Option Text → Option Text
or_else_text none b = b
or_else_text (some a) b = some a

-- What follows the first occurrence: `&s[s.find(needle)? + needle.len()..]`
unfoldable pub after_text : Text → Text → Option Text
after_text needle [] = strip_text needle []
after_text needle (c ∷ s) = or_else_text (strip_text needle (c ∷ s)) (after_text needle s)

-- What follows the last occurrence of a character: `s.get(s.rfind(sep)? + 1..)`
unfoldable pub after_last : ℕ → Text → Option Text
after_last sep [] = none
after_last sep (c ∷ s) = or_else_text (after_last sep s) (if c == sep then some s else none)

-- `str::strip_suffix` of one character
unfoldable pub strip_suffix : ℕ → Text → Option Text
strip_suffix p [] = none
strip_suffix p (c ∷ []) = if c == p then some [] else none
strip_suffix p (c ∷ d ∷ s) = map_option (λ r. c ∷ r) (strip_suffix p (d ∷ s))

abbrev pub word : Text → List Text → List Text
word w rest = if is_empty w then rest else w ∷ rest

-- `str::split_whitespace`, with the word so far.
unfoldable pub split_words : Text → Text → List Text
split_words w [] = word w []
split_words w (c ∷ s) = elim (is_whitespace c) [
  | true ↦ word w (split_words [] s)
  | false ↦ split_words (w ++ c ∷ []) s
]

abbrev pub split_whitespace : Text → List Text
split_whitespace = split_words []

unfoldable pub eq_ignore_ascii_case : Text → Text → Bool
eq_ignore_ascii_case s t = text_eq (to_ascii_lowercase s) (to_ascii_lowercase t)
