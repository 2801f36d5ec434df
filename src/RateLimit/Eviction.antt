-- ===== src/RateLimit/Eviction.antt =====
-- What the eviction sweep may drop, and when a principal cannot be tracked.
use native.Mathlib.Nat.{mul-le-mul_left}
use aircraft_api_r.Prelude.{
  ℕ, ◌+◌, ◌-◌, ◌*◌, ◌/◌, ◌≤◌, ◌<◌, ◌≡◌, ◌↔◌, refl, ap, sym, ◌∙◌, arith, nat_eq, true, ltb,
  if◌then◌else◌,
}
use aircraft_api_r.RateLimit.Quota.{
  Quota, IsQuota, tokens_per_unit, capacity_units, capacity_units-eq, u64_max,
}
use aircraft_api_r.RateLimit.Bucket.{Bucket, refill, is_full_at, nanos_per_milli}
use aircraft_api_r.RateLimit.Bucket.Credit.{
  units-refill_full, units-refill_of_full, units-refill, is_full_at_iff,
}
use aircraft_api_r.RateLimit.Limiter.{full_bucket, admitted, refused, retry_after_seconds}
use aircraft_api_r.RateLimit.Lookup.{verdict}

-- One bucket may stand for another: the same tokens, the same answer, and less than a millisecond
-- of refill between them.
pub record Replaces (kept fresh : Bucket) : Type 0 where
  pub units : kept.units ≡ fresh.units
  pub answer : verdict kept ≡ verdict fresh
  pub last_le : kept.last ≤ fresh.last
  pub last_lt : fresh.last < kept.last + nanos_per_milli

-- A bucket that the sweep may drop, and the new one that its principal gets on its return under
-- the same quota, hold the same tokens after the refill and get the same answer, and their
-- instants are less than a millisecond apart, provided the bucket was computed at most 2^64 - 1
-- milliseconds ago and not in the future.
pub evicted_same :
    (b : Bucket) (now : ℕ)
    → is_full_at b now ≡ true
    → b.last ≤ now
    → now ≤ b.last + u64_max * nanos_per_milli
    → Replaces (refill b.quota now b) (refill b.quota now (full_bucket b.quota now))
evicted_same b now full past fits =
    let kept = units-refill_of_full b.quota now b full refl in
    let fresh = units-refill_full b.quota now (full_bucket b.quota now) refl in
    let same = kept ∙ sym fresh in
    record {
      units = same;
      answer =
          ap (λ u. if ltb u tokens_per_unit then refused retry_after_seconds else admitted) same;
      last_le = unfold refill in omega arith;
      last_lt = unfold refill in omega arith;
    }

-- Under a quota that lowers neither the capacity nor the refill rate, a bucket that counts as
-- full holds after the refill fewer tokens than the new bucket that its principal gets after an
-- eviction, exactly when its units and what the elapsed whole milliseconds earn stay below the
-- new capacity; and an eviction gains the principal no more than the raise of the capacity.
pub evicted_gains :
    (b : Bucket) (raised : Quota) (now : ℕ)
    → IsQuota raised
    → is_full_at b now ≡ true
    → b.quota.capacity ≤ raised.capacity
    → b.quota.refill_per_second ≤ raised.refill_per_second
    → (((refill raised now b).units < (refill raised now (full_bucket raised now)).units) ↔ (
        b.units + ((now - b.last) / 1000000) * raised.refill_per_second < raised.capacity * 1000))
      × ((refill raised now (full_bucket raised now)).units
          ≤ (refill raised now b).units + (raised.capacity - b.quota.capacity) * 1000)
evicted_gains b raised now v full bigger faster =
    let fresh = units-refill_full raised now (full_bucket raised now) refl in
    let kept = units-refill raised now b in
    let cap = capacity_units-eq raised v in
    let enough = (is_full_at_iff b now).0 full in
    let more = mul-le-mul_left ((now - b.last) / 1000000) faster in
    let held : capacity_units b.quota ≡ b.quota.capacity * 1000 =
      unfold capacity_units in omega (arith, v.capacity_le) in
    (ground (arith, fresh, kept, cap), omega (arith, fresh, kept, cap, enough, more, held))
