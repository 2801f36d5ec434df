-- ===== src/Api/Policed/Inventory.antt =====
-- The inventory of registered routes and the paths it records: `Routes` and `nested_path`.
use mathlib.Core.Bool.{Bool, true, false}
use mathlib.Core.List.{List, [], ◌∷◌, ◌++◌, map}
use aircraft_api_r.Prelude.{◌==◌, if◌then◌else◌}
use aircraft_api_r.Prelude.Text.{Text, codes, text_eq}
use aircraft_api_r.Api.Policed.{RoutePolicy}

pub data RouteMethod : Type 0 where
  delete : RouteMethod
  get : RouteMethod
  head : RouteMethod
  patch : RouteMethod
  post : RouteMethod
  put : RouteMethod
  trace : RouteMethod

pub record RegisteredRoute : Type 0 where
  pub method : RouteMethod
  pub path : Text
  pub policy : RoutePolicy

unfoldable pub trim_start_slashes : Text → Text
trim_start_slashes [] = []
trim_start_slashes (c ∷ s) = elim (c == b'/') [ true ↦ trim_start_slashes s | false ↦ c ∷ s ]

abbrev pub ends_with_slash : Text → Bool
ends_with_slash [] = false
ends_with_slash (c ∷ []) = c == b'/'
ends_with_slash (c ∷ d ∷ s) = ends_with_slash (d ∷ s)

unfoldable pub nested_path : Text → Text → Text
nested_path prefix inner =
    if ends_with_slash prefix
    then prefix ++ trim_start_slashes inner
    else if text_eq inner (codes "/")
    then prefix
    else prefix ++ inner

abbrev pub Inventory : Type 0
Inventory = List RegisteredRoute

unfoldable pub route : RouteMethod → Text → RoutePolicy → Inventory → Inventory
route method path policy inventory =
    inventory ++ record { method = method; path = path; policy = policy } ∷ []

abbrev nested : Text → RegisteredRoute → RegisteredRoute
nested prefix r = record r { path = nested_path prefix r.path }

unfoldable pub nest : Text → Inventory → Inventory → Inventory
nest prefix inner inventory = inventory ++ map (nested prefix) inner

unfoldable pub merge : Inventory → Inventory → Inventory
merge other inventory = inventory ++ other
