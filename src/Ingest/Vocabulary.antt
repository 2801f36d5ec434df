-- ===== src/Ingest/Vocabulary.antt =====
-- The vocabularies of crates/aircraft_ingest/src/normalization.rs. A `match` on a text is a table.
pub mod Tables
use mathlib.Core.Bool.{Bool, true, false, not, ◌&&◌, ◌||◌}
use mathlib.Core.Option.{Option, none, some}
use mathlib.Core.List.{List, [], ◌∷◌}
use aircraft_api_r.Prelude.{if◌then◌else◌, any, find, map_option, Eq}
use aircraft_api_r.Prelude.Dict.{Dict, lookup}
use aircraft_api_r.Prelude.Text.{Text, Text-Eq, codes, is_empty}
use aircraft_api_r.Prelude.Text.Search.{contains_text, to_ascii_lowercase}
use aircraft_api_r.Prelude.Integers.{ℤ}

abbrev pub known_fields : List Text
known_fields =
    codes "manufacturer_name"
    ∷ codes "aircraft_name"
    ∷ codes "source_link"
    ∷ codes "page_url"
    ∷ codes "title"
    ∷ codes "description"
    ∷ codes "papi_price_estimate"
    ∷ codes "for_sale_count"
    ∷ codes "start_year"
    ∷ codes "end_year"
    ∷ codes "in_production"
    ∷ codes "performance"
    ∷ codes "weights"
    ∷ codes "ownership_costs"
    ∷ codes "engine"
    ∷ codes "images"
    ∷ []

-- What a unit measures.
pub data Dimension : Type 0 where
  speed length climb_rate fuel_flow mass volume power thrust time : Dimension

abbrev pub unit_codes : Dict Text Text
unit_codes =
    (codes "KIAS", codes "KIAS")
    ∷ (codes "KTAS", codes "KTAS")
    ∷ (codes "KCAS", codes "KNOTS")
    ∷ (codes "KT", codes "KNOTS")
    ∷ (codes "KTS", codes "KNOTS")
    ∷ (codes "KNOTS", codes "KNOTS")
    ∷ (codes "NM", codes "NM")
    ∷ (codes "FT", codes "FT")
    ∷ (codes "FPM", codes "FPM")
    ∷ (codes "GPH", codes "GPH")
    ∷ (codes "LBS", codes "LBS")
    ∷ (codes "LB", codes "LBS")
    ∷ (codes "KG", codes "KG")
    ∷ (codes "GAL", codes "US_GAL")
    ∷ (codes "HP", codes "HP")
    ∷ (codes "KW", codes "KW")
    ∷ (codes "N", codes "NEWTONS")
    ∷ (codes "LBF", codes "LBF")
    ∷ (codes "HRS", codes "HRS")
    ∷ (codes "HR", codes "HRS")
    ∷ (codes "PPH", codes "PPH")
    ∷ []

unfoldable pub unit_code : Text → Option Text
unit_code raw = lookup raw unit_codes

abbrev pub perf_codes : Dict Text Text
perf_codes =
    (codes "best_cruise_speed", codes "SPEED_CRUISE_BEST")
    ∷ (codes "best_range_i", codes "RANGE_NORMAL")
    ∷ (codes "ceiling", codes "CEILING_SERVICE")
    ∷ (codes "fuel_burn", codes "FUEL_BURN_CRUISE")
    ∷ (codes "fuel_burn_75", codes "FUEL_BURN_CRUISE")
    ∷ (codes "rate_of_climb", codes "CLIMB_RATE_SL")
    ∷ (codes "rate_of_climb_1_engine_out", codes "CLIMB_RATE_OEI")
    ∷ (codes "ceiling_1_engine_out", codes "CEILING_OEI")
    ∷ (codes "takeoff_distance", codes "DIST_TO_GROUND_ROLL")
    ∷ (codes "takeoff_distance_over_50ft_obstacle", codes "DIST_TO_50FT")
    ∷ (codes "landing_distance", codes "DIST_LDG_GROUND_ROLL")
    ∷ (codes "landing_distance_over_50ft_obstacle", codes "DIST_LDG_50FT")
    ∷ (codes "stall_speed", codes "SPEED_STALL_CLEAN")
    ∷ []

unfoldable pub perf_code : Text → Option Text
perf_code raw = lookup raw perf_codes

abbrev pub weight_codes : Dict Text Text
weight_codes =
    (codes "empty_weight", codes "WEIGHT_EMPTY")
    ∷ (codes "gross_weight", codes "WEIGHT_MTOW")
    ∷ (codes "fuel_capacity", codes "FUEL_CAPACITY_USABLE")
    ∷ (codes "maximum_payload", codes "WEIGHT_PAYLOAD")
    ∷ (codes "useful_load", codes "WEIGHT_USEFUL_LOAD")
    ∷ (codes "fuel_weight", codes "FUEL_WEIGHT_MAX")
    ∷ (codes "payload_full_fuel", codes "WEIGHT_PAYLOAD_FULL_FUEL")
    ∷ []

unfoldable pub weight_code : Text → Option Text
weight_code raw = lookup raw weight_codes

abbrev pub unit_dimensions : Dict Text Dimension
unit_dimensions =
    (codes "KIAS", speed)
    ∷ (codes "KNOTS", speed)
    ∷ (codes "KTAS", speed)
    ∷ (codes "NM", length)
    ∷ (codes "FT", length)
    ∷ (codes "FPM", climb_rate)
    ∷ (codes "GPH", fuel_flow)
    ∷ (codes "PPH", fuel_flow)
    ∷ (codes "LBS", mass)
    ∷ (codes "KG", mass)
    ∷ (codes "US_GAL", volume)
    ∷ (codes "HP", power)
    ∷ (codes "KW", power)
    ∷ (codes "NEWTONS", thrust)
    ∷ (codes "LBF", thrust)
    ∷ (codes "HRS", time)
    ∷ []

unfoldable pub unit_dimension : Text → Option Dimension
unit_dimension unit = lookup unit unit_dimensions

abbrev pub metric_dimension_table : Dict Text (List Dimension)
metric_dimension_table =
    (codes "SPEED_CRUISE_BEST", speed ∷ [])
    ∷ (codes "SPEED_STALL_CLEAN", speed ∷ [])
    ∷ (codes "RANGE_NORMAL", length ∷ [])
    ∷ (codes "CEILING_SERVICE", length ∷ [])
    ∷ (codes "CEILING_OEI", length ∷ [])
    ∷ (codes "DIST_TO_GROUND_ROLL", length ∷ [])
    ∷ (codes "DIST_TO_50FT", length ∷ [])
    ∷ (codes "DIST_LDG_GROUND_ROLL", length ∷ [])
    ∷ (codes "DIST_LDG_50FT", length ∷ [])
    ∷ (codes "CLIMB_RATE_SL", climb_rate ∷ [])
    ∷ (codes "CLIMB_RATE_OEI", climb_rate ∷ [])
    ∷ (codes "FUEL_BURN_CRUISE", fuel_flow ∷ [])
    ∷ (codes "WEIGHT_EMPTY", mass ∷ [])
    ∷ (codes "WEIGHT_MTOW", mass ∷ [])
    ∷ (codes "WEIGHT_PAYLOAD", mass ∷ [])
    ∷ (codes "WEIGHT_USEFUL_LOAD", mass ∷ [])
    ∷ (codes "FUEL_WEIGHT_MAX", mass ∷ [])
    ∷ (codes "WEIGHT_PAYLOAD_FULL_FUEL", mass ∷ [])
    ∷ (codes "FUEL_CAPACITY_USABLE", volume ∷ mass ∷ [])
    ∷ []

abbrev pub or_empty : Option (List Dimension) → List Dimension
or_empty none = []
or_empty (some ds) = ds

-- Empty where the metric is not classified.
unfoldable pub metric_dimensions : Text → List Dimension
metric_dimensions metric = or_empty (lookup metric metric_dimension_table)

unfoldable pub dimension_eq : Dimension → Dimension → Bool
dimension_eq speed speed = true
dimension_eq length length = true
dimension_eq climb_rate climb_rate = true
dimension_eq fuel_flow fuel_flow = true
dimension_eq mass mass = true
dimension_eq volume volume = true
dimension_eq power power = true
dimension_eq thrust thrust = true
dimension_eq time time = true
dimension_eq _ _ = false

abbrev pub admits : List Dimension → Dimension → Bool
admits [] actual = true
admits (d ∷ ds) actual = any (dimension_eq actual) (d ∷ ds)

abbrev pub fits : List Dimension → Option Dimension → Bool
fits expected none = true
fits expected (some actual) = admits expected actual

unfoldable pub unit_fits_metric : Text → Text → Bool
unit_fits_metric metric unit = fits (metric_dimensions metric) (unit_dimension unit)
