-- ===== src/Ingest/Normalize/Promoted.antt =====
-- What a normalized record holds: `normalize_record` of crates/aircraft_ingest/src/normalization.rs.
use mathlib.Core.Bool.{Bool}
use mathlib.Core.Option.{Option}
use aircraft_api_r.Prelude.{All}
use aircraft_api_r.Prelude.Dict.{lookup}
use aircraft_api_r.Prelude.Integers.{ℤ}
use aircraft_api_r.Prelude.Text.{Text, Text-Eq, codes}
use aircraft_api_r.Prelude.Json.{Value, object, entries}
use aircraft_api_r.App.Ingestion.Record.{PreparedAircraftRecord}
use aircraft_api_r.Ingest.Noted.{◌>>=◌}
use aircraft_api_r.Ingest.Fields.{Object, nested}
use aircraft_api_r.Ingest.Vocabulary.{perf_code, weight_code}
use aircraft_api_r.Ingest.Vocabulary.Tables.{perf_code-is_classified, weight_code-is_classified}
use aircraft_api_r.Ingest.Items.{Formats}
use aircraft_api_r.Ingest.Items.Sound.{IsCanonical, measurements-IsCanonical}
use aircraft_api_r.Ingest.Images.Order.{Ordered, FirstIsPrimary, image_items-Ordered}
use aircraft_api_r.Ingest.Stated.{stated_years}
use aircraft_api_r.Ingest.Normalize.{
  promoted_details, promoted_record, normalize_record, empty_record,
}

module _ (formats : Formats) where
  -- Both lists of measurements may be taken as they are.
  abbrev pub MeasuresSoundly : PreparedAircraftRecord → Type 0
  MeasuresSoundly r =
      All IsCanonical r.performance.measurements × All IsCanonical r.weights.measurements

  -- The images are in order, and the first is the primary one.
  abbrev pub ImagesInOrder : PreparedAircraftRecord → Type 0
  ImagesInOrder r = Ordered 0 r.images × FirstIsPrimary r.images

  promoted_details_sound :
      (manufacturer aircraft : Text) (raw : Value) (fields : Object) (description : Option Text)
      (in_production : Option Bool) (start end : Option ℤ)
      → let r =
          (promoted_details formats manufacturer aircraft raw fields description in_production start
            end).0 in
        MeasuresSoundly r × ImagesInOrder r
  unfolding promoted_details ◌>>=◌
  promoted_details_sound manufacturer aircraft raw fields description in_production start end = (
    (
      measurements-IsCanonical formats (nested formats.json_text fields (codes "performance")).0
          (codes "performance") perf_code perf_code-is_classified,
      measurements-IsCanonical formats (nested formats.json_text fields (codes "weights")).0
          (codes "weights") weight_code weight_code-is_classified,
    ),
    image_items-Ordered formats (lookup (codes "images") fields),
  )

  promoted_record_sound :
      (manufacturer aircraft : Text) (raw : Value) (fields : Object)
      → let r = (promoted_record formats manufacturer aircraft raw fields).0 in
        MeasuresSoundly r × ImagesInOrder r
  unfolding promoted_record ◌>>=◌
  promoted_record_sound manufacturer aircraft raw fields =
      let stated = (stated_years formats aircraft fields).0 in
      promoted_details_sound manufacturer aircraft raw fields stated.0 stated.1 stated.2 stated.3

  -- In the record of any entry, every measurement of performance and of weights has, if any, a
  -- numeric value without a sign, of digits around at most one point; and where it has a code for
  -- the metric and one for the unit, the unit measures one of the dimensions of the metric.
  pub normalize_record-MeasuresSoundly :
      (manufacturer aircraft : Text) (raw : Value)
      → MeasuresSoundly (normalize_record formats manufacturer aircraft raw)
  unfolding normalize_record empty_record
  normalize_record-MeasuresSoundly manufacturer aircraft (object fs) =
      (promoted_record_sound manufacturer aircraft (object fs) (entries fs)).0
  normalize_record-MeasuresSoundly manufacturer aircraft _ = (tt, tt)

  -- In the record of any entry, the positions of the images go up and fit an `i16`, the first
  -- image is the primary one, and no other is.
  pub normalize_record-ImagesInOrder :
      (manufacturer aircraft : Text) (raw : Value)
      → ImagesInOrder (normalize_record formats manufacturer aircraft raw)
  unfolding normalize_record empty_record
  normalize_record-ImagesInOrder manufacturer aircraft (object fs) =
      (promoted_record_sound manufacturer aircraft (object fs) (entries fs)).1
  normalize_record-ImagesInOrder manufacturer aircraft _ = (tt, tt)
