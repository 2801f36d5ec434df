-- ===== src/RateLimit/Limiter.antt =====
-- The rate limiter of crates/aircraft_api/src/rate_limit.rs: the guarded work of `RateLimiter`.
-- Principal identifiers (`i64`) are only compared, so a number stands for each.
use aircraft_api_r.Prelude.{
  ℕ, ◌-◌, not, ◌&&◌, Option, none, some, [], length, nat_eq, ltb, leb, if◌then◌else◌,
}
use aircraft_api_r.Prelude.Dict.{Dict, lookup, contains, insert, retain}
use aircraft_api_r.Prelude.Text.{Text}
use aircraft_api_r.RateLimit.Quota.{Quota, tokens_per_unit, capacity_units}
use aircraft_api_r.RateLimit.Policy.{RateLimitPolicy, quota_for}
use aircraft_api_r.RateLimit.Bucket.{Bucket, refill, is_full_at}

abbrev pub retry_after_seconds : ℕ
retry_after_seconds = 1

pub data Admission : Type 0 where
  admitted : Admission
  refused : ℕ → Admission
  saturated : Admission

abbrev pub Buckets : Type 0
Buckets = Dict ℕ Bucket

abbrev pub full_bucket : Quota → ℕ → Bucket
full_bucket quota now = record { units = capacity_units quota; last = now; quota = quota }

-- `entry(principal_id).or_insert_with(...)`
abbrev pub or_insert : Option Bucket → Quota → ℕ → Bucket
or_insert none quota now = full_bucket quota now
or_insert (some b) quota now = b

-- The eviction: every bucket that is full by now goes.
unfoldable pub sweep : ℕ → Buckets → Buckets
sweep now buckets = retain (λ b. not (is_full_at b now)) buckets

-- The end of `spend`: the principal's bucket is refilled and a token is taken from it.
unfoldable pub take_token : Buckets → ℕ → Quota → ℕ → Buckets × Admission
take_token buckets id quota now =
    let b = refill quota now (or_insert (lookup id buckets) quota now) in
    if ltb b.units tokens_per_unit
    then (insert id b buckets, refused retry_after_seconds)
    else (insert id (record b { units = b.units - tokens_per_unit }) buckets, admitted)

unfoldable pub spend : ℕ → Buckets → ℕ → Quota → ℕ → Buckets × Admission
spend max_buckets buckets id quota now =
    if leb max_buckets (length buckets) && not (contains id buckets)
    then (if leb max_buckets (length (sweep now buckets))
        then (sweep now buckets, saturated)
        else take_token (sweep now buckets) id quota now)
    else take_token buckets id quota now

pub record RateLimiter : Type 0 where
  pub policy : RateLimitPolicy
  pub buckets : Buckets

unfoldable pub limiter_new : RateLimitPolicy → RateLimiter
limiter_new policy = record { policy = policy; buckets = [] }

-- The lock makes each call one step: its state is what the call before left.
unfoldable pub admit : RateLimiter → ℕ → Text → ℕ → RateLimiter × Admission
admit self id tier now =
    let (buckets, admission) =
      spend self.policy.max_buckets self.buckets id (quota_for self.policy tier) now in
    (record self { buckets = buckets }, admission)
