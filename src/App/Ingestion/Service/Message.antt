-- ===== src/App/Ingestion/Service/Message.antt =====
-- The message that an audit keeps.
use Prim.Native.Nat.{ℕ, zero, suc, ◌≤◌}
use mathlib.Core.Logic.{inl, inr}
use mathlib.Core.List.{[], ◌∷◌}
use native.Mathlib.Omega.{arith}
use aircraft_api_r.Prelude.{Bool-cases, length, length-take, take, All}
use aircraft_api_r.Prelude.Text.{Text, is_control}
use aircraft_api_r.Prelude.Text.Printable.{IsPrintable, is_control_iff}
use aircraft_api_r.App.Ingestion.Service.{keep_visible, sanitize_failure}

abbrev pub IsVisible : Text → Type 0
IsVisible = All IsPrintable

keep_visible-IsVisible : (s : Text) → IsVisible (keep_visible s)
keep_visible-IsVisible [] = tt
keep_visible-IsVisible (c ∷ s) = elim (Bool-cases (is_control c)) [
  | inl control ↦ rw control (keep_visible-IsVisible s)
  | inr visible ↦ rw visible ((is_control_iff c).0 visible, keep_visible-IsVisible s)
]

take-IsVisible : (n : ℕ) (s : Text) → IsVisible s → IsVisible (take n s)
take-IsVisible zero s h = tt
take-IsVisible (suc n) [] h = tt
take-IsVisible (suc n) (c ∷ s) (v, h) = (v, take-IsVisible n s h)

-- The message that an audit keeps has no control character and at most 1000 characters.
pub sanitize_failure-IsVisible :
    (message : Text)
    → IsVisible (sanitize_failure message) × (length (sanitize_failure message) ≤ 1000)
unfolding sanitize_failure
sanitize_failure-IsVisible message = (
  take-IsVisible 1000 (keep_visible message) (keep_visible-IsVisible message),
  take_le 1000 (keep_visible message),
)
  where
    take_le : (n : ℕ) (s : Text) → length (take n s) ≤ n
    take_le n s = omega (arith, length-take n s)
