-- ===== src/Prelude/Text/Printable.antt =====
-- The characters that are not of the general category Cc.
use Prim.Native.Nat.{ℕ, ◌≤◌, ◌<◌}
use mathlib.Core.Path.{◌≡◌}
use mathlib.Core.Logic.{◌⊎◌, ◌↔◌}
use mathlib.Core.Bool.{false}
use native.Mathlib.Omega.{arith}
use aircraft_api_r.Prelude.Text.{is_control}

abbrev pub IsPrintable : ℕ → Type 0
IsPrintable c = (32 ≤ c) × ((c < 127) ⊎ (160 ≤ c))

pub is_control_iff : (c : ℕ) → (is_control c ≡ false) ↔ IsPrintable c
is_control_iff c = ground arith
