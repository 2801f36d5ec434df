-- ===== src/Domain/Catalog/Words.antt =====
-- The slugs that `Slug::try_from` of crates/aircraft_domain/src/catalog.rs accepts.
use Prim.Native.Nat.{ℕ, ◌≤◌}
use mathlib.Core.Path.{◌≡◌, refl, sym, ap, ◌∙◌}
use mathlib.Core.Bool.{true, false, not, ◌&&◌, ◌||◌}
use mathlib.Core.Logic.{◌↔◌, ◌⊎◌, ◌≢◌, inl, inr}
use mathlib.Core.List.{List, [], ◌∷◌}
use aircraft_api_r.Prelude.{arith, ok, all, All, Bool-cases}
use aircraft_api_r.Prelude.Text.{
  Text, is_empty, is_ascii_lowercase, is_ascii_digit, split, join, Lacks,
}
use aircraft_api_r.Prelude.Text.Split.{split-parts, split-join}
use aircraft_api_r.Domain.Catalog.{Slug, slug_try_from, is_slug_part}

-- A lower-case letter or a digit.
abbrev pub IsLetterOrDigit : ℕ → Type 0
IsLetterOrDigit c = ((b'a' ≤ c) × (c ≤ b'z')) ⊎ ((b'0' ≤ c) × (c ≤ b'9'))

abbrev pub IsWord : Text → Type 0
IsWord w = (w ≢ []) × All IsLetterOrDigit w

-- Words of lower-case letters and digits, none empty, with one hyphen between two.
abbrev pub IsHyphenated : Text → Type 0
IsHyphenated s =
    (word : Text) × (words : List Text) × (s ≡ join b'-' (word ∷ words)) × All IsWord (word ∷ words)

letters_iff :
    (s : Text)
    → (all (λ b. is_ascii_lowercase b || is_ascii_digit b) s ≡ true) ↔ All IsLetterOrDigit s
letters_iff [] = (λ h. tt, λ h. refl)
letters_iff (c ∷ s) = ground (arith, letters_iff s)

is_slug_part_iff : (w : Text) → (is_slug_part w ≡ true) ↔ IsWord w
unfolding is_slug_part
is_slug_part_iff [] = (λ h. absurd (cc), λ (ne, h). absurd (ne refl))
is_slug_part_iff (c ∷ w) =
    let letters = letters_iff (c ∷ w) in (λ h. ((λ e. cc), letters.0 h), λ (ne, h). letters.1 h)

all-All :
    (words : List Text) → all is_slug_part words ≡ true → All (λ w. is_slug_part w ≡ true) words
all-All [] h = tt
all-All (w ∷ words) h = (ground (arith, h), all-All words (ground (arith, h)))

All-all :
    (words : List Text) → All (λ w. is_slug_part w ≡ true) words → all is_slug_part words ≡ true
All-all [] h = refl
All-all (w ∷ words) (k, h) = ground (arith, k, All-all words h)

words_iff : (words : List Text) → All (λ w. is_slug_part w ≡ true) words ↔ All IsWord words
words_iff [] = (λ h. tt, λ h. tt)
words_iff (w ∷ words) =
    let here = is_slug_part_iff w in
    let there = words_iff words in
    (λ (k, h). (here.0 k, there.0 h), λ (k, h). (here.1 k, there.1 h))

letters-Lacks :
    (s : Text) → all (λ b. is_ascii_lowercase b || is_ascii_digit b) s ≡ true → Lacks b'-' s
letters-Lacks [] h = tt
letters-Lacks (c ∷ s) h = (ground (arith, h), letters-Lacks s (ground (arith, h)))

words-Lacks : (words : List Text) → All (λ w. is_slug_part w ≡ true) words → All (Lacks b'-') words
unfolding is_slug_part
words-Lacks [] h = tt
words-Lacks (w ∷ words) (k, h) = (letters-Lacks w (ground (arith, k)), words-Lacks words h)

join-is_empty :
    (word : Text) (words : List Text)
    → is_slug_part word ≡ true
    → is_empty (join b'-' (word ∷ words)) ≡ false
unfolding is_slug_part
join-is_empty [] words h = absurd (cc)
join-is_empty (c ∷ word) [] h = refl
join-is_empty (c ∷ word) (next ∷ words) h = refl

accepted : (s : Text) → IsHyphenated s → slug_try_from s ≡ ok (record { value = s })
unfolding slug_try_from
accepted s (word, words, e, are_words) =
    let h = (words_iff (word ∷ words)).1 are_words in
    let parts = ap (split b'-') e ∙ split-join b'-' word words (words-Lacks (word ∷ words) h) in
    let filled = ap is_empty e ∙ join-is_empty word words h.0 in
    rw (parts, filled, All-all (word ∷ words) h) refl

-- A text is accepted as a slug, unchanged, exactly when it is one or more words of lower-case
-- letters and digits, none empty, with one hyphen between two.
pub slug_try_from_iff :
    (s : Text) (slug : Slug) → (slug_try_from s ≡ ok slug) ↔ ((slug.value ≡ s) × IsHyphenated s)
unfolding slug_try_from
slug_try_from_iff s slug =
    let (part, parts, e, j) = split-parts b'-' s in
    (
      (λ h. elim (Bool-cases (not (is_empty s) && all is_slug_part (split b'-' s))) [
        | inr refused ↦ absurd (ground (arith, refused, h))
        | inl valid ↦
            let words : all is_slug_part (part ∷ parts) ≡ true =
              ap (all is_slug_part) (sym e) ∙ ground (arith, valid) in
            (
              ground (arith, valid, h),
              (part, parts, sym j, (words_iff (part ∷ parts)).0 (all-All (part ∷ parts) words)),
            )
      ]),
      λ (same, h). accepted s h ∙ ap (λ x. ok (record { value = x })) (sym same),
    )
