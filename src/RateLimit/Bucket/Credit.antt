-- ===== src/RateLimit/Bucket/Credit.antt =====
-- What a refill credits: never more than the elapsed time is worth, and a full second is enough
-- for a token.
use native.Mathlib.Nat.{mul-le-mul_left, mul-le-mul_right}
use aircraft_api_r.Prelude.{
  ℕ, zero, suc, ◌+◌, ◌-◌, ◌*◌, ◌/◌, ◌≤◌, ◌≡◌, ◌↔◌, refl, arith, min, true, leb→le,
}
use aircraft_api_r.RateLimit.Quota.{
  Quota, IsQuota, capacity_units, capacity_units-eq, tokens_per_unit, u64_max,
}
use aircraft_api_r.RateLimit.Bucket.{Bucket, refill, elapsed_ms, is_full_at}

-- The saturations of 64 bits do not show below a capacity of 64 bits.
credit-min :
    (cap units ms rate : ℕ)
    → cap ≤ u64_max
    → min (min (units + min (min ms u64_max * rate) u64_max) u64_max) cap
      ≡ min (units + ms * rate) cap
credit-min cap units ms zero h = omega arith
credit-min cap units ms (suc rate) h =
    let least : min ms u64_max * suc rate ≤ ms * suc rate =
      mul-le-mul_right (suc rate) (omega arith) in
    ground (arith, least)

-- What a bucket is worth at `now`: its units and those that the whole milliseconds since earn.
abbrev pub worth : Bucket → ℕ → ℕ → ℕ
worth b rate now = b.units + ((now - b.last) / 1000000) * rate

module _ (quota : Quota) (now : ℕ) (b : Bucket) where
  pub last-refill-le : b.last ≤ now → (refill quota now b).last ≤ now
  unfolding refill
  last-refill-le h = omega arith

  pub last-le-refill : b.last ≤ (refill quota now b).last
  unfolding refill
  last-le-refill = omega arith

  pub quota-refill : (refill quota now b).quota ≡ quota
  unfolding refill
  quota-refill = refl

  pub units-refill-le : (refill quota now b).units ≤ capacity_units quota
  unfolding refill
  units-refill-le = omega arith

  -- The units gained are paid for by the milliseconds that `last` advances.
  pub refill_pays :
      (refill quota now b).units * 1000000 + quota.refill_per_second * b.last
      ≤ b.units * 1000000 + quota.refill_per_second * (refill quota now b).last
  unfolding refill
  refill_pays = omega arith

  -- A bucket that counts as full has earned what it lacked by `now`.
  pub full_pays :
      is_full_at b now ≡ true
      → b.last ≤ now
      → capacity_units b.quota * 1000000 + b.quota.refill_per_second * b.last
        ≤ b.units * 1000000 + b.quota.refill_per_second * now
  unfolding is_full_at
  full_pays full past =
      let ms = elapsed_ms b now in
      let whole : ms * 1000000 + b.last ≤ now = omega arith in
      let cap : capacity_units b.quota ≤ b.units + ms * b.quota.refill_per_second = ground arith in
      omega (arith, cap, mul-le-mul_left b.quota.refill_per_second whole)

  -- One second after the last credit a token is there.
  pub refill_second :
      IsQuota quota → b.last + 1000000000 ≤ now → tokens_per_unit ≤ (refill quota now b).units
  unfolding refill
  refill_second v h =
      let ms = elapsed_ms b now in
      let long : 1000 ≤ ms = omega arith in
      omega (arith, capacity_units-eq quota v, mul-le-mul_right quota.refill_per_second long)

  -- A full bucket stays full.
  pub units-refill_full :
      b.units ≡ capacity_units quota → (refill quota now b).units ≡ capacity_units quota
  unfolding refill capacity_units
  units-refill_full h = omega arith

  -- So does a bucket that counts as full, and so a new bucket.
  pub units-refill_of_full :
      is_full_at b now ≡ true → quota ≡ b.quota → (refill quota now b).units ≡ capacity_units quota
  unfolding refill is_full_at
  units-refill_of_full full same =
      let enough = leb→le (capacity_units b.quota) _ full in rw same (omega (arith, enough))

capacity_units-le : (quota : Quota) → capacity_units quota ≤ u64_max
unfolding capacity_units
capacity_units-le quota = omega arith

-- A refill brings a bucket to its worth, or to its capacity.
pub units-refill :
    (quota : Quota) (now : ℕ) (b : Bucket)
    → (refill quota now b).units ≡ min (worth b quota.refill_per_second now) (capacity_units quota)
unfolding refill elapsed_ms
units-refill quota now b =
    credit-min (capacity_units quota) b.units ((now - b.last) / 1000000) quota.refill_per_second
      (capacity_units-le quota)

-- A bucket counts as full when its worth reaches its capacity.
pub is_full_at_iff :
    (b : Bucket) (now : ℕ)
    → (is_full_at b now ≡ true) ↔ (capacity_units b.quota ≤ worth b b.quota.refill_per_second now)
unfolding is_full_at elapsed_ms
is_full_at_iff b now = ground (
  arith,
  capacity_units-le b.quota,
  credit-min (capacity_units b.quota) b.units ((now - b.last) / 1000000) b.quota.refill_per_second
      (capacity_units-le b.quota),
)
