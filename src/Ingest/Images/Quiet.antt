-- ===== src/Ingest/Images/Quiet.antt =====
-- Images and addresses raise no errors.
use Prim.Native.Nat.{ℕ, suc}
use mathlib.Core.Bool.{◌||◌}
use mathlib.Core.Logic.{inl, inr}
use mathlib.Core.Option.{Option, none, some}
use mathlib.Core.List.{List, [], ◌∷◌}
use aircraft_api_r.Prelude.{Bool-cases, leb}
use aircraft_api_r.Prelude.Dict.{lookup}
use aircraft_api_r.Prelude.Text.{Text, Text-Eq, codes, text_eq}
use aircraft_api_r.Prelude.Text.Search.{and_then}
use aircraft_api_r.Prelude.Text.Signed.{i16_max}
use aircraft_api_r.Prelude.Json.{Value, array, object, entries}
use aircraft_api_r.Ingest.Noted.{IsQuiet, IsQuiet->>=, IsQuiet-pure, quiet_steps}
use aircraft_api_r.Ingest.Fields.{Object, value_text}
use aircraft_api_r.Ingest.Items.{Formats, Url, push_some}
use aircraft_api_r.Ingest.Images.{
  resolved_url, supported_url, normalized_url, placed_image, linked_image, image_item, image_loop,
  image_items,
}

module _ (formats : Formats) where
  IsQuiet-supported_url :
      (raw field : Text) (url : Option Url) → IsQuiet (supported_url formats raw field url)
  unfolding supported_url
  IsQuiet-supported_url raw field none = search (quiet_steps)
  IsQuiet-supported_url raw field (some url) =
      elim (Bool-cases (text_eq url.scheme (codes "http") || text_eq url.scheme (codes "https"))) [
        | inl supported ↦ rw supported (search (quiet_steps))
        | inr other ↦ rw other (search (quiet_steps))
      ]

  pub IsQuiet-normalized_url : (raw field : Text) → IsQuiet (normalized_url formats raw field)
  unfolding normalized_url
  IsQuiet-normalized_url raw field = IsQuiet-supported_url raw field (resolved_url formats raw)

  IsQuiet-placed_image :
      (position : ℕ) (fields : Object) (href : Text)
      → IsQuiet (placed_image formats position fields href)
  unfolding placed_image
  IsQuiet-placed_image position fields href = search (quiet_steps, IsQuiet-normalized_url)

  IsQuiet-linked_image :
      (position : ℕ) (fields : Object) (href : Option Text)
      → IsQuiet (linked_image formats position fields href)
  unfolding linked_image
  IsQuiet-linked_image position fields none = search (quiet_steps)
  IsQuiet-linked_image position fields (some href) = elim (Bool-cases (leb position i16_max)) [
    | inl held ↦ rw held (IsQuiet-placed_image position fields href)
    | inr beyond ↦ rw beyond (search (quiet_steps))
  ]

  IsQuiet-image_item : (position : ℕ) (v : Value) → IsQuiet (image_item formats position v)
  unfolding image_item
  IsQuiet-image_item position (object fs) =
      IsQuiet-linked_image position (entries fs)
        (and_then (lookup (codes "href") (entries fs)) value_text)
  IsQuiet-image_item position _ = search (quiet_steps)

  IsQuiet-image_loop : (position : ℕ) (vs : List Value) → IsQuiet (image_loop formats position vs)
  unfolding image_loop
  IsQuiet-image_loop position [] = search (quiet_steps)
  IsQuiet-image_loop position (v ∷ rest) = IsQuiet->>= _ _ (IsQuiet-image_item position v) (λ item.
      IsQuiet->>= _ _ (IsQuiet-image_loop (suc position) rest)
        (λ items. IsQuiet-pure (push_some item items)))

  pub IsQuiet-image_items : (v : Option Value) → IsQuiet (image_items formats v)
  unfolding image_items
  IsQuiet-image_items none = search (quiet_steps)
  IsQuiet-image_items (some (array vs)) = search (quiet_steps, IsQuiet-image_loop)
  IsQuiet-image_items (some _) = search (quiet_steps)
