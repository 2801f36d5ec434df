-- ===== src/Config/Settings/Guards.antt =====
-- What the checks of crates/aircraft_config/src/settings/structs.rs let through, one after another.
use mathlib.Core.Path.{◌≡◌, refl}
use mathlib.Core.Bool.{Bool, true, false, not}
use mathlib.Core.Logic.{◌≢◌, ◌↔◌, inl, inr}
use mathlib.Core.List.{[], ◌∷◌}
use aircraft_api_r.Prelude.{arith, Result, ok, err, err_ne_ok, guard, ◌>>◌, Bool-cases}
use aircraft_api_r.Prelude.Text.{Text, is_empty, text_eq, text_eq_iff}
use aircraft_api_r.Config.Settings.{ConfigError}

pub guard-ok_iff :
    {A : Type 0} (b : Bool) (e : ConfigError) (next : Result ConfigError A) (a : A)
    → ((guard b e >> next) ≡ ok a) ↔ ((b ≡ true) × (next ≡ ok a))
guard-ok_iff true e next a = (λ h. (refl, h), λ h. h.1)
guard-ok_iff false e next a = (λ h. absurd (err_ne_ok h), λ h. absurd (let no = h.0 in cc))

pub >>-ok_iff :
    {A : Type 0} (m : Result ConfigError (Unit {0})) (next : Result ConfigError A) (a : A)
    → ((m >> next) ≡ ok a) ↔ ((m ≡ ok tt) × (next ≡ ok a))
>>-ok_iff (ok tt) next a = (λ h. (refl, h), λ h. h.1)
>>-ok_iff (err e) next a = (λ h. absurd (err_ne_ok h), λ h. absurd (err_ne_ok h.0))

pub text_ne_iff : (s t : Text) → (not (text_eq s t) ≡ true) ↔ (s ≢ t)
text_ne_iff s t = (
  (λ h e. let same = (text_eq_iff s t).1 e in absurd (ground (arith, h, same))),
  λ h. elim (Bool-cases (text_eq s t)) [
    | inl same ↦ absurd (h ((text_eq_iff s t).0 same))
    | inr other ↦ rw other refl
  ],
)

pub not_empty_iff : (t : Text) → (not (is_empty t) ≡ true) ↔ (t ≢ [])
not_empty_iff [] = (λ h. cc, λ h. absurd (h refl))
not_empty_iff (c ∷ t) = (λ h e. cc, λ h. refl)

pub not-true_iff : (b : Bool) → (not b ≡ true) ↔ (b ≡ false)
not-true_iff b = ground arith
