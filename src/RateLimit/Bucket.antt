-- ===== src/RateLimit/Bucket.antt =====
-- One principal's tokens: `Bucket` of crates/aircraft_api/src/rate_limit.rs. An `Instant` is a
-- number of nanoseconds on the monotonic clock; a later instant has a larger number.
pub mod Credit
use aircraft_api_r.Prelude.{ℕ, ◌+◌, ◌-◌, ◌*◌, ◌/◌, ◌≤◌, ◌≡◌, min, arith, Bool, leb}
use aircraft_api_r.RateLimit.Quota.{Quota, u64_max, capacity_units}

abbrev pub nanos_per_milli : ℕ
nanos_per_milli = 1000000

pub record Bucket : Type 0 where
  pub units : ℕ
  pub last : ℕ
  pub quota : Quota

-- Whole milliseconds since the bucket was computed; an earlier instant counts as none.
unfoldable pub elapsed_ms : Bucket → ℕ → ℕ
elapsed_ms b now = min ((now - b.last) / nanos_per_milli) u64_max

-- `saturating_mul`
unfoldable pub earned : Bucket → ℕ → ℕ
earned b ms = min (ms * b.quota.refill_per_second) u64_max

-- `units.saturating_add(earned).min(capacity)`, and `last` moves by the whole milliseconds used.
unfoldable pub refill : Quota → ℕ → Bucket → Bucket
unfolding elapsed_ms earned
refill quota now bucket =
    let b : Bucket = record bucket { quota = quota } in
    let ms = elapsed_ms b now in
    record {
      units = min (min (b.units + earned b ms) u64_max) (capacity_units quota);
      last = b.last + ms * nanos_per_milli;
      quota = quota;
    }

unfoldable pub is_full_at : Bucket → ℕ → Bool
unfolding elapsed_ms earned
is_full_at b now =
    leb (capacity_units b.quota) (min (b.units + earned b (elapsed_ms b now)) u64_max)
