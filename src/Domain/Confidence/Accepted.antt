-- ===== src/Domain/Confidence/Accepted.antt =====
-- The confidences that `Confidence::new` accepts.
use Prim.Native.Nat.{ℕ, ◌≤◌, ◌<◌, ◌^◌}
use mathlib.Core.Path.{◌≡◌}
use mathlib.Core.Logic.{◌↔◌, ◌⊎◌}
use aircraft_api_r.Prelude.{arith, ok}
use aircraft_api_r.Domain.Confidence.{Confidence, confidence_new, float_le, float_one}

-- Of the bit patterns of an `f32`, a confidence is made, unchanged, exactly from those of the
-- numbers from zero to one, negative zero included; infinities and what is not a number are
-- refused.
pub confidence_new_iff :
    (bits : ℕ) (c : Confidence)
    → bits < 2 ^ 32
    → (confidence_new bits ≡ ok c) ↔ ((c.value ≡ bits) × ((bits ≤ float_one) ⊎ (bits ≡ 2 ^ 31)))
unfolding confidence_new float_le
confidence_new_iff bits c h = ground arith
