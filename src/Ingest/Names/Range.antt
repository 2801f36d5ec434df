-- ===== src/Ingest/Names/Range.antt =====
-- The production range that a name ends with: `parsed_production_range` of
-- crates/aircraft_ingest/src/normalization.rs.
use Prim.Native.Nat.{ℕ, ◌≤◌}
use mathlib.Core.Path.{◌≡◌, refl, ap, sym, ◌∙◌}
use mathlib.Core.Bool.{true, false}
use mathlib.Core.Option.{none, some}
use mathlib.Core.List.{[], ◌∷◌, ◌++◌, append_assoc}
use aircraft_api_r.Prelude.{arith, ok, ◌==◌, map_option, All, All-append}
use aircraft_api_r.Prelude.Text.{
  Text, codes, is_empty, is_ascii_digit, is_whitespace, Lacks, split_once, split_once-append,
  parse_digits, text_eq,
}
use aircraft_api_r.Prelude.Text.Search.{
  trim, and_then, strip_suffix, after_last, lowercase, eq_ignore_ascii_case,
}
use aircraft_api_r.Prelude.Text.Signed.{parse_signed, parse_i16, i16_max}
use aircraft_api_r.Prelude.Text.Decimal.{
  decimal, AreDigits, decimal-AreDigits, parse_digits-decimal,
}
use aircraft_api_r.Prelude.Text.Trimmed.{
  IsWord, trim_end-append, trim-space_after, trim-space_before, trim-words, strip_suffix-append,
  after_last-append,
}
use aircraft_api_r.Prelude.Integers.{pos}
use aircraft_api_r.Ingest.Names.{
  trailing_parenthetical, opens_with_digit, range_between, range_from, closed_range, split_range,
  range_within, parsed_production_range,
}

-- `<name> (<start> - <end>)`
abbrev pub with_range : Text → Text → Text → Text
with_range name start end = (name ++ (codes " (" ++ (start ++ (codes " - " ++ end)))) ++ codes ")"

digit-is_visible : (c : ℕ) → is_ascii_digit c ≡ true → is_whitespace c ≡ false
digit-is_visible c h = ground arith

digit-other :
    (c sep : ℕ) → is_ascii_digit c ≡ true → is_ascii_digit sep ≡ false → (c == sep) ≡ false
digit-other c sep h k = ground arith

AreDigits-visible : (s : Text) → AreDigits s → All (λ c. is_whitespace c ≡ false) s
AreDigits-visible [] h = tt
AreDigits-visible (c ∷ s) (digit, h) = (digit-is_visible c digit, AreDigits-visible s h)

AreDigits-Lacks : (sep : ℕ) (s : Text) → is_ascii_digit sep ≡ false → AreDigits s → Lacks sep s
AreDigits-Lacks sep [] k h = tt
AreDigits-Lacks sep (c ∷ s) k (digit, h) = (digit-other c sep digit k, AreDigits-Lacks sep s k h)

decimal-IsWord : (n : ℕ) → IsWord (decimal n)
decimal-IsWord n = let h = decimal-AreDigits n in (AreDigits-visible (decimal n) h.0, h.1)

-- The parenthetical is what follows the last one that opens.
trailing_parenthetical-with_range :
    (name start end : Text)
    → IsWord start
    → IsWord end
    → Lacks b'(' start
    → Lacks b'(' end
    → trailing_parenthetical (with_range name start end) ≡ some (start ++ (codes " - " ++ end))
unfolding trailing_parenthetical
trailing_parenthetical-with_range name start end s e no_start no_end =
    let range = start ++ (codes " - " ++ end) in
    let inner = name ++ (codes " (" ++ range) in
    let unopened : Lacks b'(' range =
      All-append (λ c. (c == b'(') ≡ false) start (codes " - " ++ end) no_start
        (refl, (refl, (refl, no_end))) in
    let closed : IsWord (codes ")") = ((refl, tt), refl) in
    let opened : after_last b'(' inner ≡ some range =
      ap (after_last b'(') (sym (append_assoc name (b' ' ∷ []) (b'(' ∷ range)))
      ∙ after_last-append b'(' (name ++ b' ' ∷ []) range unopened in
    ap (λ x. and_then (strip_suffix b')' x) (λ i. map_option trim (after_last b'(' i)))
      (trim_end-append inner (codes ")") closed)
    ∙ ap (λ x. and_then x (λ i. map_option trim (after_last b'(' i)))
        (strip_suffix-append b')' inner)
    ∙ ap (map_option trim) opened
    ∙ ap some (trim-words start (codes " - ") end s e)

range_within-range :
    (start end : Text)
    → IsWord start
    → IsWord end
    → Lacks b'-' start
    → range_within (some (start ++ (codes " - " ++ end))) ≡ range_between start end
unfolding range_within split_range
range_within-range start end s e no_dash =
    let undashed : Lacks b'-' (start ++ b' ' ∷ []) =
      All-append (λ c. (c == b'-') ≡ false) start (b' ' ∷ []) no_dash (refl, tt) in
    ap split_range (
      ap (split_once b'-') (sym (append_assoc start (b' ' ∷ []) (b'-' ∷ b' ' ∷ end)))
      ∙ split_once-append b'-' (start ++ b' ' ∷ []) (b' ' ∷ end) undashed)
    ∙ ap (λ x. range_between x (trim (b' ' ∷ end))) (trim-space_after start s)
    ∙ ap (range_between start) (trim-space_before end e)

parsed-with_range :
    (name end : Text) (a : ℕ)
    → IsWord end
    → Lacks b'(' end
    → parsed_production_range (with_range name (decimal a) end) ≡ range_between (decimal a) end
unfolding parsed_production_range
parsed-with_range name end a e no_end =
    let digits = (decimal-AreDigits a).0 in
    ap range_within (
      trailing_parenthetical-with_range name (decimal a) end (decimal-IsWord a) e
        (AreDigits-Lacks b'(' (decimal a) refl digits) no_end)
    ∙ range_within-range (decimal a) end (decimal-IsWord a) e
        (AreDigits-Lacks b'-' (decimal a) refl digits)

opens_with_digit-word : (s : Text) → AreDigits s → is_empty s ≡ false → opens_with_digit s ≡ true
opens_with_digit-word [] h e = absurd (cc)
opens_with_digit-word (c ∷ s) (digit, h) e = digit

parse_signed-digits :
    (s : Text) (n : ℕ)
    → AreDigits s
    → is_empty s ≡ false
    → parse_digits i16_max 0 s ≡ some n
    → parse_i16 s ≡ some (pos n)
unfolding parse_signed
parse_signed-digits [] n h e p = absurd (cc)
parse_signed-digits (c ∷ s) n (digit, h) e p =
    rw (digit-other c b'-' digit refl, digit-other c b'+' digit refl, p) refl

parse_i16-decimal : (n : ℕ) → n ≤ i16_max → parse_i16 (decimal n) ≡ some (pos n)
parse_i16-decimal n h =
    let d = decimal-AreDigits n in
    parse_signed-digits (decimal n) n d.0 d.1 (parse_digits-decimal i16_max n h)

lowercase_digit : (c : ℕ) → is_ascii_digit c ≡ true → (lowercase c == b'p') ≡ false
lowercase_digit c h = ground arith

digits_ne_present : (s : Text) → AreDigits s → eq_ignore_ascii_case s (codes "present") ≡ false
unfolding eq_ignore_ascii_case text_eq
digits_ne_present [] h = refl
digits_ne_present (c ∷ s) (digit, h) = rw (lowercase_digit c digit) refl

range_between-years :
    (a b : ℕ)
    → a ≤ i16_max
    → b ≤ i16_max
    → range_between (decimal a) (decimal b) ≡ ok (some (pos a), some (pos b), some false)
unfolding range_between range_from closed_range
range_between-years a b h k =
    let d = decimal-AreDigits a in
    rw
      (
        opens_with_digit-word (decimal a) d.0 d.1,
        parse_i16-decimal a h,
        digits_ne_present (decimal b) (decimal-AreDigits b).0,
        parse_i16-decimal b k,
      )
      refl

range_between-present :
    (a : ℕ)
    → a ≤ i16_max
    → range_between (decimal a) (codes "present") ≡ ok (some (pos a), none, some true)
unfolding range_between range_from eq_ignore_ascii_case text_eq
range_between-present a h =
    let d = decimal-AreDigits a in
    rw (opens_with_digit-word (decimal a) d.0 d.1, parse_i16-decimal a h) refl

-- A name that ends with two natural numbers of at most 32767 in the form of a range, or with one
-- and the word `present`, is read back as these years, of a range that is closed or open,
-- whatever stands before.
pub parsed_production_range-with_range :
    (name : Text) (a b : ℕ)
    → a ≤ i16_max
    → b ≤ i16_max
    → (parsed_production_range (with_range name (decimal a) (decimal b))
        ≡ ok (some (pos a), some (pos b), some false))
      × (parsed_production_range (with_range name (decimal a) (codes "present"))
          ≡ ok (some (pos a), none, some true))
parsed_production_range-with_range name a b h k =
    let unopened = AreDigits-Lacks b'(' (decimal b) refl (decimal-AreDigits b).0 in
    let present_IsWord : IsWord (codes "present") =
      ((refl, (refl, (refl, (refl, (refl, (refl, (refl, tt))))))), refl) in
    let present_unopened : Lacks b'(' (codes "present") =
      (refl, (refl, (refl, (refl, (refl, (refl, (refl, tt))))))) in
    (
      parsed-with_range name (decimal b) a (decimal-IsWord b) unopened
          ∙ range_between-years a b h k,
      parsed-with_range name (codes "present") a present_IsWord present_unopened
          ∙ range_between-present a h,
    )
