-- ===== src/Api/Shutdown.antt =====
-- The shutdown state of crates/aircraft_api/src/shutdown.rs: a phase that only advances, and the number of
-- requests that the perimeter carries. Its operations are atomic.
pub mod Latched
mod Tests
use Prim.Native.Nat.{ℕ, ◌+◌, ◌-◌, ◌%◌, ◌^◌}
use mathlib.Core.Bool.{Bool, true, false}
use aircraft_api_r.Prelude.{ltb, leb, if◌then◌else◌}

pub data Phase : Type 0 where
  serving draining cancelled : Phase

-- The derived order.
unfoldable pub rank : Phase → ℕ
rank serving = 0
rank draining = 1
rank cancelled = 2

pub record ShutdownState : Type 0 where
  pub in_flight : ℕ
  pub phase : Phase

abbrev pub initial : ShutdownState
initial = record { in_flight = 0; phase = serving }

unfoldable pub advance_to : Phase → ShutdownState → ShutdownState
advance_to phase s = if ltb (rank s.phase) (rank phase) then record s { phase = phase } else s

unfoldable pub begin_draining : ShutdownState → ShutdownState
begin_draining s = advance_to draining s

unfoldable pub cancel : ShutdownState → ShutdownState
cancel s = advance_to cancelled s

unfoldable pub is_draining : ShutdownState → Bool
is_draining s = leb (rank draining) (rank s.phase)

-- `reaches`: whether a subscriber that waits for a phase goes on.
unfoldable pub has_reached : Phase → ShutdownState → Bool
has_reached phase s = leb (rank phase) (rank s.phase)

-- `fetch_add` and `fetch_sub` on a `usize` of 64 bits wrap around.
unfoldable pub enter : ShutdownState → ShutdownState
enter s = record s { in_flight = (s.in_flight + 1) % 2 ^ 64 }

-- The drop of a guard.
unfoldable pub leave : ShutdownState → ShutdownState
leave s = record s { in_flight = (s.in_flight + 2 ^ 64 - 1) % 2 ^ 64 }
