-- ===== src/Domain/ProductionYears/Accepted.antt =====
-- The years that `ProductionYears::new` accepts.
use Prim.Native.Nat.{◌≤◌}
use mathlib.Core.Path.{◌≡◌, refl}
use mathlib.Core.Logic.{◌↔◌, inl, inr}
use mathlib.Core.Option.{Option, none, some}
use native.Mathlib.Omega.{arith}
use aircraft_api_r.Prelude.{ok, is_ok, Result-cases, true}
use aircraft_api_r.Prelude.Integers.{ℤ, pos, negsuc}
use aircraft_api_r.Domain.ProductionYears.{
  ProductionYears, production_years_new, check_order, check_year,
}

-- A year of the supported range, if there is one.
abbrev pub IsYear : Option ℤ → Type 0
IsYear none = Unit
IsYear (some (pos n)) = (1800 ≤ n) × (n ≤ 2200)
IsYear (some (negsuc n)) = ⊥

-- The first year is not after the second, where both are there and positive.
abbrev pub InOrder : Option ℤ → Option ℤ → Type 0
InOrder (some (pos a)) (some (pos b)) = a ≤ b
InOrder _ _ = Unit

-- Production years are accepted, unchanged, exactly when each year that is given lies from 1800
-- to 2200 and, where both are given, the end is not before the start.
pub production_years_new_iff :
    (start end : Option ℤ) (y : ProductionYears)
    → (production_years_new start end ≡ ok y)
      ↔ (IsYear start × IsYear end × InOrder start end × (y.start ≡ start) × (y.end ≡ end))
unfolding production_years_new check_order check_year
production_years_new_iff none none y = ground arith
production_years_new_iff none (some (pos b)) y = ground arith
production_years_new_iff none (some (negsuc b)) y = ground arith
production_years_new_iff (some (pos a)) none y = ground arith
production_years_new_iff (some (negsuc a)) none y = ground arith
production_years_new_iff (some (pos a)) (some (pos b)) y = ground arith
production_years_new_iff (some (pos a)) (some (negsuc b)) y = ground arith
production_years_new_iff (some (negsuc a)) (some (pos b)) y = ground arith
production_years_new_iff (some (negsuc a)) (some (negsuc b)) y = ground arith

pub is_ok-production_years_new :
    (start end : Option ℤ)
    → (is_ok (production_years_new start end) ≡ true)
      ↔ (IsYear start × IsYear end × InOrder start end)
is_ok-production_years_new start end = (
  (λ h. elim (Result-cases (production_years_new start end)) [
    | inl (y, e) ↦ let f = (production_years_new_iff start end y).0 e in (f.0, f.1, f.2)
    | inr (e, failed) ↦ absurd (ground (arith, failed, h))
  ]),
  λ accepted.
      let made =
        (production_years_new_iff start end (record { start = start; end = end })).1
          (accepted.0, accepted.1, accepted.2, refl, refl) in
      rw made refl,
)
