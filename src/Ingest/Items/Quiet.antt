-- ===== src/Ingest/Items/Quiet.antt =====
-- Measurements and costs raise no errors.
use mathlib.Core.Option.{Option, none, some}
use mathlib.Core.List.{List, [], ◌∷◌}
use aircraft_api_r.Prelude.{Bool-cases}
use aircraft_api_r.Prelude.Text.{Text}
use aircraft_api_r.Prelude.Json.{Value}
use mathlib.Core.Logic.{inl, inr}
use aircraft_api_r.Ingest.Noted.{Noted, IsQuiet, IsQuiet->>=, IsQuiet-pure, quiet_steps}
use aircraft_api_r.Ingest.Fields.{Object}
use aircraft_api_r.Ingest.Fields.Quiet.{IsQuiet-scalar}
use aircraft_api_r.Ingest.Costs.{CostCode}
use aircraft_api_r.Ingest.Items.{
  Formats, filter_map_noted, push_some, describes_engine, measured, measurement, measurements,
  costed, cost_item, cost_items,
}

pub IsQuiet-filter_map_noted :
    {A : Type 0} {B : Type 0} (f : A → Noted (Option B)) (xs : List A)
    → ((a : A) → IsQuiet (f a))
    → IsQuiet (filter_map_noted f xs)
unfolding filter_map_noted
IsQuiet-filter_map_noted f [] k = search (quiet_steps)
IsQuiet-filter_map_noted f (a ∷ rest) k = IsQuiet->>= _ _ (k a) (λ item.
    IsQuiet->>= _ _ (IsQuiet-filter_map_noted f rest k)
      (λ items. IsQuiet-pure (push_some item items)))

module _ (formats : Formats) where
  IsQuiet-measured :
      (path field : Text) (metric_code : Option Text) (v : Value) (raw_value : Text)
      → IsQuiet (measured formats path field metric_code v raw_value)
  unfolding measured
  IsQuiet-measured path field metric_code v raw_value = search (quiet_steps) depth 20

  IsQuiet-measurement :
      (path : Text) (mapping : Text → Option Text) (entry : Text × Value)
      → IsQuiet (measurement formats path mapping entry)
  unfolding measurement
  IsQuiet-measurement path mapping (field, v) =
      elim (Bool-cases (describes_engine formats path field)) [
        | inl engine ↦ rw engine (search (quiet_steps))
        | inr other ↦ rw other (search (quiet_steps, IsQuiet-measured, IsQuiet-scalar))
      ]

  pub IsQuiet-measurements :
      (fields : Option Object) (path : Text) (mapping : Text → Option Text)
      → IsQuiet (measurements formats fields path mapping)
  unfolding measurements
  IsQuiet-measurements none path mapping = search (quiet_steps)
  IsQuiet-measurements (some fields) path mapping =
      IsQuiet-filter_map_noted _ fields (IsQuiet-measurement path mapping)

  IsQuiet-costed :
      (key : Text) (code : CostCode) (v : Value) (raw : Text)
      → IsQuiet (costed formats key code v raw)
  unfolding costed
  IsQuiet-costed key (mapped, numeric, aggregate) v raw = search (quiet_steps)

  IsQuiet-cost_item : (entry : Text × Value) → IsQuiet (cost_item formats entry)
  unfolding cost_item
  IsQuiet-cost_item (key, v) = search (quiet_steps, IsQuiet-costed, IsQuiet-scalar)

  pub IsQuiet-cost_items : (fields : Option Object) → IsQuiet (cost_items formats fields)
  unfolding cost_items
  IsQuiet-cost_items none = search (quiet_steps)
  IsQuiet-cost_items (some fields) = IsQuiet-filter_map_noted _ fields IsQuiet-cost_item
