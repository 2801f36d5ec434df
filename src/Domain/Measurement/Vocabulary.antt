-- ===== src/Domain/Measurement/Vocabulary.antt =====
-- The closed condition vocabularies of crates/aircraft_domain/src/measurement.rs.
use aircraft_api_r.Prelude.{
  ◌≡◌, refl, sym, ◌↔◌, List, [], ◌∷◌, find, find-some, Result, ok, ok_or, arith,
}
use aircraft_api_r.Prelude.Text.{Text, codes, text_eq, text_eq_iff}

pub data PowerSetting : Type 0 where
  max_takeoff max_continuous max_climb percent_75 percent_65 percent_55 : PowerSetting
  best_power best_economy long_range_cruise idle : PowerSetting

pub data SurfaceType : Type 0 where
  paved grass gravel soft water carrier_deck : SurfaceType

pub data UnknownConditionCode : Type 0 where
  unknown_condition_code : UnknownConditionCode

abbrev pub power_setting_all : List PowerSetting
power_setting_all =
    max_takeoff ∷ max_continuous ∷ max_climb ∷ percent_75 ∷ percent_65 ∷ percent_55 ∷ best_power
    ∷ best_economy ∷ long_range_cruise ∷ idle ∷ []

unfoldable pub power_setting_code : PowerSetting → Text
power_setting_code max_takeoff = codes "MAX_TAKEOFF"
power_setting_code max_continuous = codes "MAX_CONTINUOUS"
power_setting_code max_climb = codes "MAX_CLIMB"
power_setting_code percent_75 = codes "75_PCT"
power_setting_code percent_65 = codes "65_PCT"
power_setting_code percent_55 = codes "55_PCT"
power_setting_code best_power = codes "BEST_POWER"
power_setting_code best_economy = codes "BEST_ECONOMY"
power_setting_code long_range_cruise = codes "LONG_RANGE_CRUISE"
power_setting_code idle = codes "IDLE"

unfoldable pub power_setting_try_from : Text → Result UnknownConditionCode PowerSetting
power_setting_try_from code =
    ok_or (find (λ setting. text_eq (power_setting_code setting) code) power_setting_all)
      unknown_condition_code

abbrev pub surface_type_all : List SurfaceType
surface_type_all = paved ∷ grass ∷ gravel ∷ soft ∷ water ∷ carrier_deck ∷ []

unfoldable pub surface_type_code : SurfaceType → Text
surface_type_code paved = codes "PAVED"
surface_type_code grass = codes "GRASS"
surface_type_code gravel = codes "GRAVEL"
surface_type_code soft = codes "SOFT"
surface_type_code water = codes "WATER"
surface_type_code carrier_deck = codes "CARRIER_DECK"

unfoldable pub surface_type_try_from : Text → Result UnknownConditionCode SurfaceType
surface_type_try_from code =
    ok_or (find (λ surface. text_eq (surface_type_code surface) code) surface_type_all)
      unknown_condition_code

power_setting_round : (p : PowerSetting) → power_setting_try_from (power_setting_code p) ≡ ok p
unfolding power_setting_try_from power_setting_code find text_eq
power_setting_round max_takeoff = refl
power_setting_round _ = refl

surface_type_round : (s : SurfaceType) → surface_type_try_from (surface_type_code s) ≡ ok s
unfolding surface_type_try_from surface_type_code find text_eq
surface_type_round paved = refl
surface_type_round _ = refl

module _ {A : Type 0} (code_of : A → Text) (all : List A) where
  found-code :
      (code : Text) (a : A)
      → ok_or (find (λ x. text_eq (code_of x) code) all) unknown_condition_code ≡ ok a
      → code ≡ code_of a
  found-code code a e = sym (
      (text_eq_iff (code_of a) code).0
        (find-some (λ x. text_eq (code_of x) code) all a (ground arith)))

-- A code parses to a power setting exactly when it is that setting's spelling.
pub power_setting_try_from_iff :
    (code : Text) (p : PowerSetting)
    → (power_setting_try_from code ≡ ok p) ↔ (code ≡ power_setting_code p)
power_setting_try_from_iff code p = (
  unfold power_setting_try_from in found-code power_setting_code power_setting_all code p,
  λ e. rw e (power_setting_round p),
)

-- A code parses to a surface type exactly when it is that surface's spelling.
pub surface_type_try_from_iff :
    (code : Text) (s : SurfaceType)
    → (surface_type_try_from code ≡ ok s) ↔ (code ≡ surface_type_code s)
surface_type_try_from_iff code s = (
  unfold surface_type_try_from in found-code surface_type_code surface_type_all code s,
  λ e. rw e (surface_type_round s),
)
