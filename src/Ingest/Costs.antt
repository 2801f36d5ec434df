-- ===== src/Ingest/Costs.antt =====
-- The keys of ownership costs: `cost_code` of crates/aircraft_ingest/src/normalization.rs.
use mathlib.Core.Bool.{Bool, true, false, ◌&&◌}
use mathlib.Core.Option.{Option, none, some}
use mathlib.Core.List.{List, [], ◌∷◌}
use aircraft_api_r.Prelude.{if◌then◌else◌, any, find}
use aircraft_api_r.Prelude.Text.{Text, Text-Eq, codes}
use aircraft_api_r.Prelude.Text.Search.{contains_text, to_ascii_lowercase}

-- A code, whether the cost is numeric, and whether it is an aggregate.
abbrev pub CostCode : Type 0
CostCode = Option Text × Bool × Bool

abbrev pub cost_mappings : List (Text × Text)
cost_mappings =
    (codes "miscellaneous", codes "MISC_VARIABLE")
    ∷ (codes "inspection", codes "ANNUAL_INSPECTION")
    ∷ (codes "insurance", codes "INSURANCE")
    ∷ (codes "hangar", codes "HANGAR_STORAGE")
    ∷ (codes "storage", codes "HANGAR_STORAGE")
    ∷ (codes "depreciation", codes "DEPRECIATION")
    ∷ (codes "weather", codes "WEATHER_SERVICE")
    ∷ (codes "training", codes "PILOT_TRAINING")
    ∷ (codes "refurbish", codes "REFURBISHING")
    ∷ (codes "registration", codes "REGISTRATION_TAXES")
    ∷ (codes "financ", codes "FINANCING")
    ∷ (codes "fuel", codes "FUEL")
    ∷ (codes "oil", codes "OIL")
    ∷ (codes "avionics", codes "AVIONICS_RESERVE")
    ∷ (codes "landing", codes "LANDING_FEES")
    ∷ (codes "unscheduled", codes "UNSCHEDULED_MAINT")
    ∷ (codes "maint", codes "HOURLY_MAINTENANCE")
    ∷ []

abbrev names : Text → List Text → Bool
names key parts = any (λ part. contains_text part key) parts

-- What is left once no part is named: an accrual, or nothing that is known.
abbrev pub unnamed_cost : Text → CostCode
unnamed_cost key =
    if names key (codes "reserve" ∷ codes "overhaul" ∷ [])
    then (some (codes "OVERHAUL_RESERVE"), true, false)
    else (none, true, false)

abbrev pub mapped_cost : Text → Option (Text × Text) → CostCode
mapped_cost key none = unnamed_cost key
mapped_cost key (some (part, code)) = (some code, true, false)

unfoldable pub lowered_cost_code : Text → CostCode
lowered_cost_code key =
    if contains_text (codes "total") key && contains_text (codes "fixed") key
    then (some (codes "TOTAL_FIXED_COST"), true, true)
    else if contains_text (codes "total") key && contains_text (codes "variable") key
    then (some (codes "TOTAL_VARIABLE_COST"), true, true)
    else if contains_text (codes "total") key
        && names key
            (codes "annual" ∷ codes "yearly" ∷ codes "cost_per_year" ∷ codes "ownership" ∷ [])
    then (some (codes "TOTAL_COST_ANNUAL"), true, true)
    else if contains_text (codes "pilot_salary") key
    then (some (codes "PILOT_SALARY"), true, false)
    else if contains_text (codes "engine") key
        && names key (codes "reserve" ∷ codes "overhaul" ∷ codes "fund" ∷ codes "tbo" ∷ [])
    then (some (codes "ENGINE_RESERVE"), true, false)
    else if contains_text (codes "prop") key
        && names key (codes "reserve" ∷ codes "overhaul" ∷ codes "fund" ∷ [])
    then (some (codes "PROP_RESERVE"), true, false)
    else mapped_cost key (find (λ entry. contains_text entry.0 key) cost_mappings)

unfoldable pub cost_code : Text → CostCode
cost_code key = lowered_cost_code (to_ascii_lowercase key)
