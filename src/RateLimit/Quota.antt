-- ===== src/RateLimit/Quota.antt =====
-- A tier's capacity and refill rate: `Quota` of crates/aircraft_api/src/rate_limit.rs.
use aircraft_api_r.Prelude.{
  ℕ, ◌*◌, ◌≤◌, ◌<◌, ◌≡◌, min, arith, Result, ok, err, ◌>>=◌, ◌==◌, if◌then◌else◌,
}

abbrev pub u32_max : ℕ
u32_max = 4294967295

abbrev pub u64_max : ℕ
u64_max = 18446744073709551615

-- Tokens are counted in thousandths.
abbrev pub tokens_per_unit : ℕ
tokens_per_unit = 1000

pub record Quota : Type 0 where
  pub capacity : ℕ
  pub refill_per_second : ℕ

pub data InvalidQuota : Type 0 where
  invalid_quota : InvalidQuota

-- `NonZeroU32::new`
abbrev non_zero : ℕ → Result InvalidQuota ℕ
non_zero n = if n == 0 then err invalid_quota else ok n

unfoldable pub new : ℕ → ℕ → Result InvalidQuota Quota
new capacity refill_per_second = do
  c ← non_zero capacity
  r ← non_zero refill_per_second
  ok (record { capacity = c; refill_per_second = r })

-- `saturating_mul` on `u64`
unfoldable pub capacity_units : Quota → ℕ
capacity_units quota = min (quota.capacity * tokens_per_unit) u64_max

-- What the two `NonZeroU32` fields guarantee.
pub record IsQuota (quota : Quota) : Type 0 where
  pub capacity_pos : 0 < quota.capacity
  pub capacity_le : quota.capacity ≤ u32_max
  pub refill_pos : 0 < quota.refill_per_second
  pub refill_le : quota.refill_per_second ≤ u32_max

pub new-IsQuota :
    (capacity refill : ℕ) (quota : Quota)
    → capacity ≤ u32_max
    → refill ≤ u32_max
    → new capacity refill ≡ ok quota
    → IsQuota quota
unfolding new
new-IsQuota capacity refill quota hc hr e = ground arith

-- The product of a 32-bit capacity with the scale fits 64 bits, so nothing saturates.
pub capacity_units-eq :
    (quota : Quota) → IsQuota quota → capacity_units quota ≡ quota.capacity * 1000
unfolding capacity_units
capacity_units-eq quota v = omega arith
