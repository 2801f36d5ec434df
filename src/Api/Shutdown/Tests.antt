-- ===== src/Api/Shutdown/Tests.antt =====
-- A request that comes before the drain and ends after it, and the theorem at this run.
use mathlib.Core.Path.{◌≡◌}
use mathlib.Core.Bool.{true}
use aircraft_api_r.Prelude.{arith}
use aircraft_api_r.Api.Shutdown.{
  ShutdownState, initial, enter, leave, advance_to, has_reached, draining,
}
use aircraft_api_r.Api.Shutdown.Latched.{done, further, entering, leaving, advance_to-has_reached}

abbrev last : ShutdownState
last = leave (advance_to draining (enter initial))

advance_to-has_reached_example : (has_reached draining last ≡ true) × (last.in_flight ≡ 0)
advance_to-has_reached_example =
    advance_to-has_reached draining (further done (entering (omega arith))) (further done leaving)
