-- ===== src/Ingest/Prose.antt =====
-- What a description and a production state say, in codes: the helpers of
-- crates/aircraft_ingest/src/normalization.rs that read prose.
use mathlib.Core.Bool.{Bool, true, false, ◌||◌}
use mathlib.Core.Option.{Option, none, some}
use aircraft_api_r.Prelude.{if◌then◌else◌}
use aircraft_api_r.Prelude.Text.{Text, Text-Eq, codes}
use aircraft_api_r.Prelude.Text.Search.{contains_text}
use aircraft_api_r.Prelude.Integers.{ℤ}

unfoldable pub variant_type : Option ℤ → Option Text
variant_type none = none
variant_type (some year) = some (codes "PRODUCTION_STANDARD")

unfoldable pub service_status : Option Bool → Option Text
service_status none = none
service_status (some true) = some (codes "IN_PRODUCTION")
service_status (some false) = some (codes "DISCONTINUED")

-- The three spellings of one kind of gear.
abbrev pub gear : Bool → Bool → Text → Text → Text → Text
gear tricycle tailwheel with_tricycle with_tailwheel unspecified =
    if tricycle then with_tricycle else if tailwheel then with_tailwheel else unspecified

unfoldable pub landing_gear_type : Text → Option Text
landing_gear_type lowered =
    let tricycle = contains_text (codes "tricycle") lowered in
    let tailwheel =
      contains_text (codes "tailwheel") lowered || contains_text (codes "taildragger") lowered in
    if contains_text (codes "retractable") lowered
    then some (
        gear tricycle tailwheel (codes "RETRACTABLE_TRICYCLE") (codes "RETRACTABLE_TAILWHEEL")
          (codes "RETRACTABLE_UNSPECIFIED"))
    else if contains_text (codes "fixed landing gear") lowered
    then some (
        gear tricycle tailwheel (codes "FIXED_TRICYCLE") (codes "FIXED_TAILWHEEL")
          (codes "FIXED_UNSPECIFIED"))
    else none

unfoldable pub propulsion_category : Text → Option Text
propulsion_category lowered =
    if contains_text (codes "piston") lowered
    then some (codes "PISTON_RECIPROCATING")
    else if contains_text (codes "turboprop") lowered
    then some (codes "TURBOPROP")
    else if contains_text (codes "turbojet") lowered
    then some (codes "TURBOJET")
    else none
