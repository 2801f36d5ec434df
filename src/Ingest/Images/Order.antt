-- ===== src/Ingest/Images/Order.antt =====
-- The order of the images: `image_items` of crates/aircraft_ingest/src/normalization.rs.
use Prim.Native.Nat.{ℕ, suc, ◌≤◌}
use mathlib.Core.Path.{◌≡◌, refl}
use mathlib.Core.Bool.{true, false}
use mathlib.Core.Logic.{inl, inr}
use mathlib.Core.Option.{Option, none, some}
use mathlib.Core.List.{List, [], ◌∷◌}
use aircraft_api_r.Prelude.{arith, leb, leb→le, Bool-cases, All}
use aircraft_api_r.Prelude.Dict.{lookup}
use aircraft_api_r.Prelude.Integers.{pos}
use aircraft_api_r.Prelude.Text.{Text, Text-Eq, codes}
use aircraft_api_r.Prelude.Text.Search.{and_then}
use aircraft_api_r.Prelude.Text.Signed.{i16_max}
use aircraft_api_r.Prelude.Json.{Value, array, object, entries, values}
use aircraft_api_r.App.Ingestion.Record.{ImageMetadataInput}
use aircraft_api_r.Ingest.Noted.{◌>>=◌}
use aircraft_api_r.Ingest.Fields.{Object, value_text}
use aircraft_api_r.Ingest.Items.{Formats, push_some}
use aircraft_api_r.Ingest.Images.{
  placed_image, linked_image, image_item, image_loop, mark_primary, image_items,
}

-- From a position on, the positions go up and fit an `i16`.
abbrev pub Ordered : ℕ → List ImageMetadataInput → Type 0
Ordered n [] = Unit
Ordered n (i ∷ images) =
    (k : ℕ) × (i.array_position ≡ pos k) × (n ≤ k) × (k ≤ i16_max) × Ordered (suc k) images

abbrev pub IsSecondary : ImageMetadataInput → Type 0
IsSecondary i = i.is_primary ≡ false

-- The first image is the primary one, and no other is.
abbrev pub FirstIsPrimary : List ImageMetadataInput → Type 0
FirstIsPrimary [] = Unit
FirstIsPrimary (i ∷ images) = (i.is_primary ≡ true) × All IsSecondary images

abbrev IsPlaced : ℕ → Option ImageMetadataInput → Type 0
IsPlaced n none = Unit
IsPlaced n (some i) = (i.array_position ≡ pos n) × (n ≤ i16_max) × IsSecondary i

Ordered-later :
    (n : ℕ) (images : List ImageMetadataInput) → Ordered (suc n) images → Ordered n images
Ordered-later n [] h = tt
Ordered-later n (i ∷ images) (k, same, le, held, h) = (k, same, omega arith, held, h)

Ordered-push_some :
    (n : ℕ) (o : Option ImageMetadataInput) (images : List ImageMetadataInput)
    → IsPlaced n o
    → Ordered (suc n) images × All IsSecondary images
    → Ordered n (push_some o images) × All IsSecondary (push_some o images)
Ordered-push_some n none images p (h, s) = (Ordered-later n images h, s)
Ordered-push_some n (some i) images (same, held, second) (h, s) =
    ((n, same, omega arith, held, h), (second, s))

module _ (formats : Formats) where
  linked_image-IsPlaced :
      (n : ℕ) (fields : Object) (href : Option Text)
      → IsPlaced n (linked_image formats n fields href).0
  unfolding linked_image placed_image ◌>>=◌
  linked_image-IsPlaced n fields none = tt
  linked_image-IsPlaced n fields (some href) = elim (Bool-cases (leb n i16_max)) [
    | inl held ↦ rw held (refl, leb→le n i16_max held, refl)
    | inr beyond ↦ rw beyond tt
  ]

  image_item-IsPlaced : (n : ℕ) (v : Value) → IsPlaced n (image_item formats n v).0
  unfolding image_item
  image_item-IsPlaced n (object fs) =
      linked_image-IsPlaced n (entries fs)
        (and_then (lookup (codes "href") (entries fs)) value_text)
  image_item-IsPlaced n _ = tt

  image_loop-Ordered :
      (n : ℕ) (vs : List Value)
      → Ordered n (image_loop formats n vs).0 × All IsSecondary (image_loop formats n vs).0
  unfolding image_loop ◌>>=◌
  image_loop-Ordered n [] = (tt, tt)
  image_loop-Ordered n (v ∷ rest) =
      Ordered-push_some n (image_item formats n v).0 (image_loop formats (suc n) rest).0
        (image_item-IsPlaced n v) (image_loop-Ordered (suc n) rest)

  mark_primary-FirstIsPrimary :
      (images : List ImageMetadataInput)
      → Ordered 0 images × All IsSecondary images
      → Ordered 0 (mark_primary formats images) × FirstIsPrimary (mark_primary formats images)
  unfolding mark_primary
  mark_primary-FirstIsPrimary [] h = (tt, tt)
  mark_primary-FirstIsPrimary (i ∷ images) (h, (second, s)) = (h, (refl, s))

  pub image_items-Ordered :
      (v : Option Value)
      → Ordered 0 (image_items formats v).0 × FirstIsPrimary (image_items formats v).0
  unfolding image_items ◌>>=◌
  image_items-Ordered none = (tt, tt)
  image_items-Ordered (some (array vs)) =
      mark_primary-FirstIsPrimary (image_loop formats 0 (values vs)).0
        (image_loop-Ordered 0 (values vs))
  image_items-Ordered (some _) = (tt, tt)
