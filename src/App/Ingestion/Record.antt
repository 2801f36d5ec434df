-- ===== src/App/Ingestion/Record.antt =====
-- A prepared record: the values that the normalizer hands to the ingestion service, from
-- crates/aircraft_app/src/services/ingestion.rs. An `i16` or `i32` is an integer, and an `f32` is
-- its bit pattern.
use Prim.Native.Nat.{ℕ}
use mathlib.Core.Bool.{Bool}
use mathlib.Core.Option.{Option}
use mathlib.Core.List.{List}
use aircraft_api_r.Prelude.Text.{Text}
use aircraft_api_r.Prelude.Integers.{ℤ}
use aircraft_api_r.Prelude.Json.{Value}

pub record AircraftIdentityInput : Type 0 where
  pub manufacturer_name : Text
  pub aircraft_name : Text
  pub source_link : Option Text
  pub page_url : Option Text
  pub title : Option Text
  pub description : Option Text

pub record LifecycleInput : Type 0 where
  pub variant_type : Option Text
  pub landing_gear : Option Text
  pub service_status : Option Text
  pub production_start_year : Option ℤ
  pub production_end_year : Option ℤ
  pub is_in_production : Option Bool
  pub passenger_capacity : Option ℤ
  pub crew_count : Option ℤ

pub record MeasurementInput : Type 0 where
  pub source_field : Text
  pub metric_code : Option Text
  pub raw_value : Text
  pub numeric_value : Option Text
  pub raw_unit : Option Text
  pub unit_code : Option Text

pub record PerformanceInput : Type 0 where
  pub measurements : List MeasurementInput

pub record WeightInput : Type 0 where
  pub measurements : List MeasurementInput

pub record PropulsionInput : Type 0 where
  pub category : Option Text
  pub manufacturer : Option Text
  pub model : Option Text
  pub horsepower : Option Text
  pub thrust_newtons : Option Text
  pub engine_count : Option ℤ
  pub tbo_hours : Option ℤ
  pub tbo_years : Option ℤ

pub record ValuationInput : Type 0 where
  pub papi_price_estimate : Option Text
  pub for_sale_count : Option ℤ

pub record CostItemInput : Type 0 where
  pub source_key : Text
  pub raw_value : Text
  pub mapped_code : Option Text
  pub numeric_value : Option Text
  pub is_aggregate : Bool
  pub is_numeric : Bool

pub record OperatingCostInput : Type 0 where
  pub items : List CostItemInput

pub record ImageMetadataInput : Type 0 where
  pub array_position : ℤ
  pub href_raw : Text
  pub href_resolved : Option Text
  pub title : Option Text
  pub holder : Option Text
  pub dimensions_raw : Option Text
  pub width_px : Option ℤ
  pub height_px : Option ℤ
  pub is_primary : Bool

pub record ProvenanceInput : Type 0 where
  pub source_system_key : Text
  pub source_url : Option Text
  pub source_path : Option Text
  pub confidence : ℕ

pub data IssueSeverity : Type 0 where
  warning : IssueSeverity
  error : IssueSeverity

pub record IngestIssue : Type 0 where
  pub code : Text
  pub severity : IssueSeverity
  pub field_path : Text
  pub message : Text
  pub raw_value : Option Text

pub record PreparedAircraftRecord : Type 0 where
  pub source_record_key : Text
  pub identity : AircraftIdentityInput
  pub lifecycle : LifecycleInput
  pub performance : PerformanceInput
  pub weights : WeightInput
  pub propulsion : PropulsionInput
  pub valuation : ValuationInput
  pub operating_costs : OperatingCostInput
  pub images : List ImageMetadataInput
  pub provenance : ProvenanceInput
  pub issues : List IngestIssue
  pub raw_document : Value
