-- ===== src/Domain/Measurement/Tests.antt =====
-- Decimals, codes and facts, and the theorems at concrete inputs.
use mathlib.Core.Path.{◌≡◌, refl}
use mathlib.Core.Logic.{◌↔◌}
use mathlib.Core.Option.{none, some}
use aircraft_api_r.Prelude.{ok}
use aircraft_api_r.Prelude.Text.{Text, codes, len, split_once}
use aircraft_api_r.Domain.Measurement.Decimal.{decimal_parse, digits_within}
use aircraft_api_r.Domain.Measurement.Decimal.Grammar.{PlainDecimal, decimal_parse_iff}
use aircraft_api_r.Domain.Measurement.Fact.{
  MeasuredValue, Measurement, MeasurementConditions, IsMeasurement, dimensionless, in_unit,
  published, KeepsConditions, measurement_new, no_conditions, measurement_new-IsMeasurement,
}

abbrev half : Text
half = codes "-0.50"

decimal_parse_iff_example :
    (decimal_parse half ≡ ok (record { text = half })) ↔ (PlainDecimal half × (half ≡ half))
decimal_parse_iff_example = decimal_parse_iff half (record { text = half })

parses_half : decimal_parse half ≡ ok (record { text = half })
unfolding decimal_parse digits_within split_once len
parses_half = refl

abbrev ratio : MeasuredValue
ratio = dimensionless (record { text = half })

abbrev speed : MeasuredValue
speed = in_unit (record { text = half }) (record { code = codes "KNOT" })

abbrev nothing_stated : MeasurementConditions
nothing_stated = record {
  altitude_ft = none;
  weight_lbs = none;
  weight_label = none;
  isa_deviation_c = none;
  power_setting = none;
  surface_type = none;
  notes = none;
}

abbrev fact : Measurement
fact = record {
  raw = some ratio;
  canonical = none;
  publication = some published;
  conditions = none;
}

built : measurement_new (some ratio) none (some published) (some nothing_stated) ≡ ok fact
unfolding measurement_new no_conditions
built = refl

measurement_new-IsMeasurement_example :
    IsMeasurement fact
    × (fact.raw ≡ some ratio)
    × (fact.canonical ≡ none)
    × (fact.publication ≡ some published)
    × KeepsConditions (some nothing_stated) fact.conditions
measurement_new-IsMeasurement_example =
    measurement_new-IsMeasurement (some ratio) none (some published) (some nothing_stated) fact
      built
