-- ===== src/Domain/Catalog.antt =====
-- The identifiers of crates/aircraft_domain/src/catalog.rs. A text is its code points; the bytes that
-- the source tests are ASCII exactly where the code points are.
pub mod Words
use Prim.Native.Nat.{ℕ}
use mathlib.Core.Bool.{Bool, true, false, not, ◌&&◌, ◌||◌}
use mathlib.Core.List.{List, [], ◌∷◌}
use aircraft_api_r.Prelude.{Result, ok, err, if◌then◌else◌, all, ◌==◌}
use aircraft_api_r.Prelude.Text.{
  Text, len, is_empty, split, is_ascii_lowercase, is_ascii_uppercase, is_ascii_digit,
}

pub data InvalidCatalogValue : Type 0 where
  invalid_slug : InvalidCatalogValue
  invalid_lookup_code : InvalidCatalogValue
  invalid_country_code : InvalidCatalogValue

pub record Slug : Type 0 where
  pub value : Text

pub record LookupCode : Type 0 where
  pub value : Text

pub record CountryCode : Type 0 where
  pub value : Text

-- One word of a slug.
unfoldable pub is_slug_part : Text → Bool
is_slug_part part = not (is_empty part) && all (λ b. is_ascii_lowercase b || is_ascii_digit b) part

unfoldable pub slug_try_from : Text → Result InvalidCatalogValue Slug
slug_try_from value =
    if not (is_empty value) && all is_slug_part (split b'-' value)
    then ok (record { value = value })
    else err invalid_slug

abbrev pub is_code_byte : ℕ → Bool
is_code_byte b = is_ascii_uppercase b || is_ascii_digit b || b == b'_'

unfoldable pub is_lookup_code : Text → Bool
is_lookup_code [] = false
is_lookup_code (first ∷ rest) = is_ascii_uppercase first && all is_code_byte rest

unfoldable pub lookup_code_try_from : Text → Result InvalidCatalogValue LookupCode
lookup_code_try_from value =
    if is_lookup_code value then ok (record { value = value }) else err invalid_lookup_code

unfoldable pub country_code_try_from : Text → Result InvalidCatalogValue CountryCode
country_code_try_from value =
    if len value == 3 && all is_ascii_uppercase value
    then ok (record { value = value })
    else err invalid_country_code
