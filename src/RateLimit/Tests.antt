-- ===== src/RateLimit/Tests.antt =====
-- Runs of the rate limiter, and the theorems at concrete inputs.
use aircraft_api_r.Prelude.{
  ℕ, All, ◌+◌, ◌-◌, ◌*◌, ◌/◌, ◌≤◌, ◌<◌, ◌⊎◌, ◌↔◌, ◌≡◌, ◌≢◌, refl, arith, nat_eq, [], ◌∷◌, ok, err,
  true, get_or,
}
use aircraft_api_r.Prelude.Dict.{lookup, contains, insert, retain}
use aircraft_api_r.Prelude.Text.{codes, split, parse_unsigned, text_eq, Text-Eq}
use aircraft_api_r.RateLimit.Quota
use aircraft_api_r.RateLimit.Quota.{Quota, IsQuota, capacity_units}
use aircraft_api_r.RateLimit.Bucket.{Bucket, refill, is_full_at}
use aircraft_api_r.RateLimit.Policy.{
  RateLimitPolicy, bucket_ceiling, tier_override, add_override, add_overrides, new, quota_for,
}
use aircraft_api_r.RateLimit.Policy.Entry.{listed}
use aircraft_api_r.RateLimit.Policy.Laws.{RefusedAt, quota_for-new, new_refused}
use aircraft_api_r.RateLimit.Limiter.{
  Buckets, full_bucket, refused, saturated, sweep, take_token, spend, limiter_new, admit,
}
use aircraft_api_r.RateLimit.Invariant.{IsStore, IsStore-empty, spend-IsStore}
use aircraft_api_r.RateLimit.History.{Request, serve, admissions}
use aircraft_api_r.RateLimit.Bound.{nano_tokens, admissions_le}
use aircraft_api_r.RateLimit.Retry.{retry_after_honest}
use aircraft_api_r.RateLimit.Eviction.{Replaces, evicted_same, evicted_gains}
use aircraft_api_r.RateLimit.Saturation.{LacksTokens, Untracked, spend_saturated_iff}

abbrev one : Quota
one = record { capacity = 1; refill_per_second = 1 }

abbrev fast : Quota
fast = record { capacity = 3; refill_per_second = 2 }

abbrev policy : RateLimitPolicy
policy = record { default = one; tiers = (codes "FAST", fast) ∷ []; max_buckets = 2 }

configured : new one 2 (codes "FAST:3:2" ∷ []) ≡ ok policy
unfolding new add_overrides add_override Quota.new split parse_unsigned contains lookup insert
configured = refl

repeated : new one 2 (codes "FAST:3:2" ∷ codes "FAST:4:2" ∷ []) ≡ err (tier_override 2)
unfolding new add_overrides add_override Quota.new split parse_unsigned contains lookup insert
    text_eq
repeated = refl

abbrev at : ℕ → ℕ → Request
at id now = record { id = id; tier = codes "OTHER"; at = now }

over_capacity : (admit (serve (limiter_new policy) (at 7 0 ∷ [])) 7 (codes "OTHER") 5).1 ≡ refused 1
unfolding serve limiter_new admit spend take_token contains lookup insert refill capacity_units
    quota_for text_eq
over_capacity = refl

IsQuota-one : IsQuota one
IsQuota-one = omega arith

tier_default : quota_for policy (codes "OTHER") ≡ one
unfolding quota_for lookup text_eq
tier_default = refl

spend-IsStore_example : IsStore 2 (spend 2 [] 7 one 0).0
spend-IsStore_example = spend-IsStore 2 0 7 one [] (IsStore-empty 2)

admissions_le_example :
    admissions 7 (limiter_new policy) (at 7 10 ∷ at 8 10 ∷ at 7 20 ∷ []) * nano_tokens
    ≤ 1 * nano_tokens + 1 * 15
admissions_le_example =
    admissions_le policy 7 one 10 15 (at 7 10 ∷ at 8 10 ∷ at 7 20 ∷ []) IsQuota-one
      ((λ _. tier_default), ((λ _. tier_default), ((λ _. tier_default), tt))) (omega arith)

retry_after_honest_example :
    (admit
      (serve (admit (serve (limiter_new policy) (at 7 0 ∷ [])) 7 (codes "OTHER") 5).0 (at 8 6 ∷ []))
      7
      (codes "OTHER")
      1000000005).1
    ≢ refused 1
retry_after_honest_example =
    retry_after_honest policy (at 7 0 ∷ []) (at 8 6 ∷ []) 7 0 5 1000000005 1 1 (codes "OTHER")
      (codes "OTHER") (omega arith) over_capacity (refl, tt) (omega arith)
      (rw tier_default IsQuota-one)

abbrev crowded : Buckets
crowded = (7, record { units = 0; last = 0; quota = one }) ∷ []

IsStore-crowded : IsStore 1 crowded
IsStore-crowded =
    unfold lookup in
    record { size = omega arith; distinct = (refl, tt); within = λ id b h. ground arith }

spend_saturated_iff_example :
    ((spend 1 crowded 8 one 5).1 ≡ saturated)
    ↔ (Untracked 8 crowded × (◌≡◌ {A = ℕ} 1 1) × All (λ e. LacksTokens 5 e.1) crowded)
spend_saturated_iff_example = spend_saturated_iff 1 8 one 5 crowded IsStore-crowded

crowded_saturated : (spend 1 crowded 8 one 5).1 ≡ saturated
unfolding spend contains lookup sweep retain is_full_at capacity_units
crowded_saturated = refl

abbrev idle : Bucket
idle = record { units = 0; last = 0; quota = one }

idle_full : is_full_at idle 1000000007 ≡ true
unfolding is_full_at capacity_units
idle_full = refl

evicted_same_example :
    Replaces (refill one 1000000007 idle) (refill one 1000000007 (full_bucket one 1000000007))
evicted_same_example = evicted_same idle 1000000007 idle_full (omega arith) (omega arith)

IsQuota-fast : IsQuota fast
IsQuota-fast = omega arith

evicted_gains_example :
    (((refill fast 1000000007 idle).units
        < (refill fast 1000000007 (full_bucket fast 1000000007)).units)
      ↔ (0 + ((1000000007 - 0) / 1000000) * 2 < 3 * 1000))
    × ((refill fast 1000000007 (full_bucket fast 1000000007)).units
        ≤ (refill fast 1000000007 idle).units + (3 - 1) * 1000)
evicted_gains_example =
    evicted_gains idle fast 1000000007 IsQuota-fast idle_full (omega arith) (omega arith)

quota_for-new_example :
    quota_for policy (codes "FAST") ≡ get_or (listed (codes "FAST") (codes "FAST:3:2" ∷ [])) one
quota_for-new_example = quota_for-new one 2 (codes "FAST:3:2" ∷ []) policy (codes "FAST") configured

new_refused_example :
    ((◌≡◌ {A = ℕ} 2 0) × (tier_override 2 ≡ bucket_ceiling))
    ⊎ RefusedAt one 2 (codes "FAST:3:2" ∷ codes "FAST:4:2" ∷ []) (tier_override 2)
new_refused_example =
    new_refused one 2 (codes "FAST:3:2" ∷ codes "FAST:4:2" ∷ []) (tier_override 2) repeated
