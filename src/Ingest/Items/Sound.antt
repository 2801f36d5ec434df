-- ===== src/Ingest/Items/Sound.antt =====
-- What a measurement holds: `measurements` of crates/aircraft_ingest/src/normalization.rs.
use mathlib.Core.Path.{◌≡◌, refl}
use mathlib.Core.Bool.{true}
use mathlib.Core.Logic.{inl, inr}
use mathlib.Core.Option.{Option, none, some}
use mathlib.Core.List.{List, [], ◌∷◌, ◌++◌}
use aircraft_api_r.Prelude.{All, is_some, Bool-cases}
use aircraft_api_r.Prelude.Text.{Text, codes}
use aircraft_api_r.Prelude.Text.Search.{and_then, starts_with}
use aircraft_api_r.Prelude.Json.{Value}
use aircraft_api_r.App.Ingestion.Record.{MeasurementInput}
use aircraft_api_r.Ingest.Noted.{Noted, ◌>>=◌, when_some}
use aircraft_api_r.Ingest.Fields.{Object, scalar}
use aircraft_api_r.Ingest.Scalars.{parse_numeric, parse_unit}
use aircraft_api_r.Ingest.Scalars.Number.{IsUnsignedNumber, parse_numeric-IsUnsignedNumber}
use aircraft_api_r.Ingest.Vocabulary.{unit_code, unit_fits_metric, unit_dimension}
use aircraft_api_r.Ingest.Vocabulary.Tables.{
  Measures, is_classified, unit_code-is_some, unit_fits_metric-Measures,
}
use aircraft_api_r.Ingest.Items.{
  Formats, push_some, filter_map_noted, misfit, is_negative, unless, describes_engine, measured,
  measurement, measurements,
}

-- A number, if there is one, has no sign.
abbrev pub IsUnsigned : Option Text → Type 0
IsUnsigned none = Unit
IsUnsigned (some s) = IsUnsignedNumber s

-- The unit measures the metric, if both are known.
abbrev pub Agree : Option Text → Option Text → Type 0
Agree (some metric) (some unit) = Measures metric unit
Agree _ _ = Unit

-- What the database may take from a measurement as it is.
abbrev pub IsCanonical : MeasurementInput → Type 0
IsCanonical m = IsUnsigned m.numeric_value × Agree m.metric_code m.unit_code

abbrev pub IsClassifying : (Text → Option Text) → Type 0
IsClassifying mapping =
    (field metric : Text) → mapping field ≡ some metric → is_classified metric ≡ true

AllOf : (MeasurementInput → Type 0) → Option MeasurementInput → Type 0
AllOf P none = Unit
AllOf P (some m) = P m

module _ (formats : Formats) where
  kept_number :
      (raw : Text) (o : Option Text)
      → parse_numeric raw ≡ o
      → IsUnsigned (unless formats (is_negative formats o) o)
  kept_number raw none e = tt
  kept_number raw (some s) e = elim (Bool-cases (starts_with (codes "-") s)) [
    | inl negative ↦ rw negative tt
    | inr unsigned ↦ rw unsigned (parse_numeric-IsUnsignedNumber raw s e unsigned)
  ]

  kept_unit :
      (metric unit : Option Text)
      → ((m : Text) → metric ≡ some m → is_classified m ≡ true)
      → ((u : Text) → unit ≡ some u → is_some (unit_dimension u) ≡ true)
      → Agree metric (unless formats (misfit formats metric unit) unit)
  kept_unit none none k l = tt
  kept_unit none (some u) k l = tt
  kept_unit (some m) none k l = tt
  kept_unit (some m) (some u) k l = elim (Bool-cases (unit_fits_metric m u)) [
    | inl fitting ↦ rw fitting (unit_fits_metric-Measures m u (k m refl) (l u refl) fitting)
    | inr other ↦ rw other tt
  ]

  unit_known :
      (raw : Option Text) (unit : Text)
      → and_then raw unit_code ≡ some unit
      → is_some (unit_dimension unit) ≡ true
  unit_known none unit e = absurd (cc)
  unit_known (some raw) unit e = unit_code-is_some raw unit e

  measured-IsCanonical :
      (path field : Text) (metric : Option Text) (v : Value) (raw : Text)
      → ((m : Text) → metric ≡ some m → is_classified m ≡ true)
      → AllOf IsCanonical (measured formats path field metric v raw).0
  unfolding measured ◌>>=◌ AllOf
  measured-IsCanonical path field metric v raw k = (
    kept_number raw (parse_numeric raw) refl,
    kept_unit metric (and_then (parse_unit raw) unit_code) k (unit_known (parse_unit raw)),
  )

  when_some-AllOf :
      (P : MeasurementInput → Type 0) (o : Option Text)
      (next : Text → Noted (Option MeasurementInput))
      → ((s : Text) → AllOf P (next s).0)
      → AllOf P (when_some o next).0
  unfolding AllOf
  when_some-AllOf P none next k = tt
  when_some-AllOf P (some s) next k = k s

  measurement-IsCanonical :
      (path : Text) (mapping : Text → Option Text) (entry : Text × Value)
      → IsClassifying mapping
      → AllOf IsCanonical (measurement formats path mapping entry).0
  unfolding measurement ◌>>=◌ AllOf
  measurement-IsCanonical path mapping (field, v) k =
      elim (Bool-cases (describes_engine formats path field)) [
        | inl engine ↦ rw engine tt
        | inr other ↦
            let field_path = path ++ (b'.' ∷ field) in
            rw other (
              when_some-AllOf IsCanonical (scalar formats.json_text (some v) field_path).0 _
                (λ raw. measured-IsCanonical field_path field (mapping field) v raw (k field)))
      ]

  push_some-All :
      (P : MeasurementInput → Type 0) (o : Option MeasurementInput) (items : List MeasurementInput)
      → AllOf P o
      → All P items
      → All P (push_some o items)
  unfolding AllOf
  push_some-All P none items h k = k
  push_some-All P (some m) items h k = (h, k)

  filter_map_noted-All :
      {A : Type 0} (P : MeasurementInput → Type 0) (f : A → Noted (Option MeasurementInput))
      (xs : List A)
      → ((a : A) → AllOf P (f a).0)
      → All P (filter_map_noted f xs).0
  unfolding filter_map_noted ◌>>=◌
  filter_map_noted-All P f [] k = tt
  filter_map_noted-All P f (a ∷ rest) k =
      push_some-All P (f a).0 (filter_map_noted f rest).0 (k a) (filter_map_noted-All P f rest k)

  pub measurements-IsCanonical :
      (fields : Option Object) (path : Text) (mapping : Text → Option Text)
      → IsClassifying mapping
      → All IsCanonical (measurements formats fields path mapping).0
  unfolding measurements
  measurements-IsCanonical none path mapping k = tt
  measurements-IsCanonical (some fields) path mapping k =
      filter_map_noted-All IsCanonical (measurement formats path mapping) fields
        (λ entry. measurement-IsCanonical path mapping entry k)
