-- ===== src/Domain/Confidence.antt =====
-- `Confidence` of crates/aircraft_domain/src/ingestion.rs. An `f32` is its bit pattern in IEEE 754.
pub mod Accepted
use Prim.Native.Nat.{ℕ, ◌/◌, ◌%◌, ◌^◌}
use mathlib.Core.Bool.{Bool, true, false, not, ◌&&◌, ◌||◌}
use aircraft_api_r.Prelude.{Result, ok, err, ◌==◌, leb, ltb, if◌then◌else◌}
use aircraft_api_r.Domain.ProductionYears.{IngestionInvariantError, invalid_confidence}

-- The bits below the sign: the exponent and the fraction.
abbrev pub magnitude : ℕ → ℕ
magnitude bits = bits % 2 ^ 31

abbrev pub is_negative_float : ℕ → Bool
is_negative_float bits = leb (2 ^ 31) bits

-- `f32::is_finite`: the exponent is not all ones.
abbrev pub is_finite : ℕ → Bool
is_finite bits = not (magnitude bits / 2 ^ 23 == 255)

-- `<=` on finite numbers; both zeros are equal.
unfoldable pub float_le : ℕ → ℕ → Bool
float_le a b =
    if is_negative_float a
    then (if is_negative_float b then leb (magnitude b) (magnitude a) else true)
    else if is_negative_float b
    then magnitude a == 0 && magnitude b == 0
    else leb (magnitude a) (magnitude b)

abbrev pub float_zero : ℕ
float_zero = 0

abbrev pub float_one : ℕ
float_one = 0x3F800000

pub record Confidence : Type 0 where
  pub value : ℕ

-- `0.20_f32`
abbrev pub scraped_source : ℕ
scraped_source = 0x3E4CCCCD

unfoldable pub confidence_new : ℕ → Result IngestionInvariantError Confidence
confidence_new value =
    if is_finite value && float_le float_zero value && float_le value float_one
    then ok (record { value = value })
    else err invalid_confidence
