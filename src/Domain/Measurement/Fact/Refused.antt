-- ===== src/Domain/Measurement/Fact/Refused.antt =====
-- Which values `Measurement::new` of crates/aircraft_domain/src/measurement.rs refuses.
use aircraft_api_r.Prelude.{◌≡◌, refl, ◌↔◌, ◌≢◌, arith, Option, none, some, err}
use aircraft_api_r.Domain.Measurement.Fact.{
  MeasuredValue, PublicationStatus, MeasurementConditions, is_dimensionless, no_value,
  mixed_dimensionality, measurement_new,
}

-- A fact is refused for want of a value exactly when neither value is there.
pub measurement_new_no_value_iff :
    (raw canonical : Option MeasuredValue) (publication : Option PublicationStatus)
    (conditions : Option MeasurementConditions)
    → (measurement_new raw canonical publication conditions ≡ err no_value)
      ↔ ((raw ≡ none) × (canonical ≡ none))
unfolding measurement_new
measurement_new_no_value_iff raw canonical publication conditions = ground arith

mixed_sound :
    (raw canonical : Option MeasuredValue) (publication : Option PublicationStatus)
    (conditions : Option MeasurementConditions)
    → measurement_new raw canonical publication conditions ≡ err mixed_dimensionality
    → (r : MeasuredValue) × (c : MeasuredValue) × (raw ≡ some r)
      × (canonical ≡ some c)
      × (is_dimensionless r ≢ is_dimensionless c)
unfolding measurement_new
mixed_sound none none publication conditions e = absurd (cc)
mixed_sound none (some c) publication conditions e = absurd (cc)
mixed_sound (some r) none publication conditions e = absurd (cc)
mixed_sound (some r) (some c) publication conditions e = (r, c, refl, refl, ground arith)

-- The pair is refused as mixed exactly when both values are there and one alone has a unit.
pub measurement_new_mixed_iff :
    (raw canonical : Option MeasuredValue) (publication : Option PublicationStatus)
    (conditions : Option MeasurementConditions)
    → (measurement_new raw canonical publication conditions ≡ err mixed_dimensionality) ↔ (
        (r : MeasuredValue) × (c : MeasuredValue) × (raw ≡ some r)
        × (canonical ≡ some c)
        × (is_dimensionless r ≢ is_dimensionless c))
unfolding measurement_new
measurement_new_mixed_iff raw canonical publication conditions =
    (mixed_sound raw canonical publication conditions, λ h. ground arith)
