-- ===== src/Domain/Measurement/Fact.antt =====
-- One measured fact: `Measurement` and its parts of crates/aircraft_domain/src/measurement.rs.
pub mod Refused
use aircraft_api_r.Prelude.{
  ◌≡◌, refl, ◌↔◌, ◌≢◌, ◌⊎◌, inl, inr, arith, subst, Bool-cases, Bool, true, false, not, ◌&&◌,
  Option, none, some, Result, ok, err, if◌then◌else◌, Option-cases,
}
use aircraft_api_r.Prelude.Text.{Text}
use aircraft_api_r.Domain.Measurement.Decimal.{DecimalString, UnitCode}
use aircraft_api_r.Domain.Measurement.Vocabulary.{PowerSetting, SurfaceType}

pub data MeasuredValue : Type 0 where
  dimensionless : DecimalString → MeasuredValue
  in_unit : DecimalString → UnitCode → MeasuredValue

abbrev pub value : MeasuredValue → DecimalString
value (dimensionless v) = v
value (in_unit v u) = v

abbrev pub unit : MeasuredValue → Option UnitCode
unit (dimensionless v) = none
unit (in_unit v u) = some u

abbrev pub is_dimensionless : MeasuredValue → Bool
is_dimensionless (dimensionless v) = true
is_dimensionless (in_unit v u) = false

pub data PublicationStatus : Type 0 where
  published not_published : PublicationStatus

abbrev pub from_is_canonical : Bool → PublicationStatus
from_is_canonical is_canonical = if is_canonical then published else not_published

abbrev pub is_canonical : PublicationStatus → Bool
is_canonical published = true
is_canonical not_published = false

pub record MeasurementConditions : Type 0 where
  pub altitude_ft : Option DecimalString
  pub weight_lbs : Option DecimalString
  pub weight_label : Option Text
  pub isa_deviation_c : Option DecimalString
  pub power_setting : Option PowerSetting
  pub surface_type : Option SurfaceType
  pub notes : Option Text

abbrev pub is_none {ℓ} : {A : Type ℓ} → Option A → Bool
is_none none = true
is_none (some a) = false

-- `MeasurementConditions::is_empty`
unfoldable pub no_conditions : MeasurementConditions → Bool
no_conditions c =
    is_none c.altitude_ft
    && is_none c.weight_lbs
    && is_none c.weight_label
    && is_none c.isa_deviation_c
    && is_none c.power_setting
    && is_none c.surface_type
    && is_none c.notes

pub record Measurement : Type 0 where
  pub raw : Option MeasuredValue
  pub canonical : Option MeasuredValue
  pub publication : Option PublicationStatus
  pub conditions : Option MeasurementConditions

pub data MeasurementError : Type 0 where
  no_value mixed_dimensionality : MeasurementError

-- Both values are there, and exactly one has a unit.
abbrev pub mixed : Option MeasuredValue → Option MeasuredValue → Bool
mixed (some raw) (some canonical) =
    if is_dimensionless raw then not (is_dimensionless canonical) else is_dimensionless canonical
mixed _ _ = false

-- `conditions.filter(|conditions| !conditions.is_empty())`
abbrev pub kept_conditions : Option MeasurementConditions → Option MeasurementConditions
kept_conditions none = none
kept_conditions (some c) = if not (no_conditions c) then some c else none

unfoldable pub measurement_new :
    Option MeasuredValue
    → Option MeasuredValue
    → Option PublicationStatus
    → Option MeasurementConditions
    → Result MeasurementError Measurement
measurement_new raw canonical publication conditions =
    if is_none raw && is_none canonical
    then err no_value
    else if mixed raw canonical
    then err mixed_dimensionality
    else ok (record {
      raw = raw;
      canonical = canonical;
      publication = publication;
      conditions = kept_conditions conditions;
    })

-- The measured values of a fact.
pub data Carries (m : Measurement) : MeasuredValue → Type 0 where
  carries_raw : {v : MeasuredValue} → m.raw ≡ some v → Carries m v
  carries_canonical : {v : MeasuredValue} → m.canonical ≡ some v → Carries m v

-- A set of conditions with no condition in it.
abbrev pub StatesNothing : MeasurementConditions → Type 0
StatesNothing c =
    (c.altitude_ft ≡ none)
    × (c.weight_lbs ≡ none)
    × (c.weight_label ≡ none)
    × (c.isa_deviation_c ≡ none)
    × (c.power_setting ≡ none)
    × (c.surface_type ≡ none)
    × (c.notes ≡ none)

no_conditions_iff : (c : MeasurementConditions) → (no_conditions c ≡ true) ↔ StatesNothing c
unfolding no_conditions
no_conditions_iff c = ground arith

-- What became of the conditions given: kept, unless they state nothing.
abbrev pub KeepsConditions : Option MeasurementConditions → Option MeasurementConditions → Type 0
KeepsConditions given none =
    (given ≡ none) ⊎ ((c : MeasurementConditions) × (given ≡ some c) × StatesNothing c)
KeepsConditions given (some kept) = (given ≡ some kept) × ¬ StatesNothing kept

kept_conditions-KeepsConditions :
    (given : Option MeasurementConditions) → KeepsConditions given (kept_conditions given)
kept_conditions-KeepsConditions none = inl refl
kept_conditions-KeepsConditions (some c) = elim (Bool-cases (no_conditions c)) [
  | inl empty ↦ rw empty (inr (c, refl, (no_conditions_iff c).0 empty))
  | inr states ↦
      rw states (refl, λ h. let e = (no_conditions_iff c).1 h in ground (arith, e, states))
]

-- What a fact promises: a value, one dimensionality, and no empty set of conditions.
pub record IsMeasurement (m : Measurement) : Type 0 where
  pub present : (v : MeasuredValue) × Carries m v
  pub agree :
      (raw canonical : MeasuredValue)
      → m.raw ≡ some raw
      → m.canonical ≡ some canonical
      → (unit raw ≡ none) ↔ (unit canonical ≡ none)
  pub stated : (c : MeasurementConditions) → m.conditions ≡ some c → ¬ StatesNothing c

present_value :
    (m : Measurement)
    → (is_none m.raw && is_none m.canonical) ≡ false
    → (v : MeasuredValue) × Carries m v
present_value m h = elim (Option-cases m.raw) [
  | inr (v, e) ↦ (v, carries_raw e)
  | inl missing ↦ elim (Option-cases m.canonical) [
    | inr (v, e) ↦ (v, carries_canonical e)
    | inl also ↦ absurd (ground arith)
  ]
]

units_agree :
    (a b : MeasuredValue)
    → is_dimensionless a ≡ is_dimensionless b
    → (unit a ≡ none) ↔ (unit b ≡ none)
units_agree (dimensionless v) (dimensionless w) h = (λ e. refl, λ e. refl)
units_agree (dimensionless v) (in_unit w u) h = absurd (cc)
units_agree (in_unit v u) (dimensionless w) h = absurd (cc)
units_agree (in_unit v u) (in_unit w t) h = (λ e. absurd (cc), λ e. absurd (cc))

-- A fact that `Measurement::new` builds keeps what it was given, save conditions of which every
-- one is absent, and drops these; it carries a value, and where it carries two, both or neither
-- have a unit.
pub measurement_new-IsMeasurement :
    (raw canonical : Option MeasuredValue) (publication : Option PublicationStatus)
    (conditions : Option MeasurementConditions) (m : Measurement)
    → measurement_new raw canonical publication conditions ≡ ok m
    → IsMeasurement m
      × (m.raw ≡ raw)
      × (m.canonical ≡ canonical)
      × (m.publication ≡ publication)
      × KeepsConditions conditions m.conditions
unfolding measurement_new
measurement_new-IsMeasurement raw canonical publication conditions m e =
    let kept : m.conditions ≡ kept_conditions conditions = ground arith in
    let keeps : KeepsConditions conditions m.conditions =
      rw kept (kept_conditions-KeepsConditions conditions) in
    (
      record {
        present = present_value m (ground arith);
        agree = λ r c hr hc. units_agree r c (ground arith);
        stated = λ c h. (subst (KeepsConditions conditions) h keeps).1;
      },
      ground arith,
      ground arith,
      ground arith,
      keeps,
    )
