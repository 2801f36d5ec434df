-- ===== src/RateLimit/Retry.antt =====
-- `Retry-After` is honest: a principal that waits as long as it was told is not refused again.
use aircraft_api_r.Prelude.{
  ℕ, ◌+◌, ◌*◌, ◌≤◌, ◌≡◌, refl, ap, ◌≢◌, arith, nat_eq, Option, none, some, false, inl, inr, ◌==◌,
  List, [], ◌∷◌, All,
}
use aircraft_api_r.Prelude.Dict.{lookup, DistinctKeys}
use aircraft_api_r.Prelude.Text.{Text}
use aircraft_api_r.RateLimit.Quota.{Quota, IsQuota, capacity_units-eq}
use aircraft_api_r.RateLimit.Bucket.{Bucket, refill}
use aircraft_api_r.RateLimit.Bucket.Credit.{refill_second, units-refill_full, last-refill-le}
use aircraft_api_r.RateLimit.Policy.{RateLimitPolicy, quota_for}
use aircraft_api_r.RateLimit.Invariant.{IsStore, IsStore-empty, spend-IsStore}
use aircraft_api_r.RateLimit.Limiter.{
  Buckets, full_bucket, or_insert, Admission, admitted, refused, spend, RateLimiter, limiter_new,
  admit,
}
use aircraft_api_r.RateLimit.Lookup.{
  spent, verdict, take_token-verdict, spend_induction, spend-ne_induction, spend-cases,
  Cleared-elim,
}
use aircraft_api_r.RateLimit.History.{Request, serve, Ordered}

-- The bucket, if any, was last computed no later than `now`.
abbrev Past : ℕ → Option Bucket → Type 0
Past now none = Unit
Past now (some b) = b.last ≤ now

Past-later : (now later : ℕ) (o : Option Bucket) → now ≤ later → Past now o → Past later o
Past-later now later none h p = tt
Past-later now later (some b) h p = omega arith

Past-spent : (now : ℕ) (b : Bucket) → b.last ≤ now → (spent b).last ≤ now
Past-spent now b h = ground arith

spend-Past :
    (max : ℕ) (buckets : Buckets) (id : ℕ) (quota : Quota) (now p : ℕ)
    → DistinctKeys buckets
    → Past now (lookup p buckets)
    → Past now (lookup p (spend max buckets id quota now).0)
spend-Past max buckets id quota now p d =
    spend_induction (Past now) max buckets id quota now p d tt
      (λ b h. Past-spent now (refill quota now b) (last-refill-le quota now b h))
      (Past-spent now (refill quota now (full_bucket quota now))
        (last-refill-le quota now (full_bucket quota now) (omega arith)))

-- A history leaves a well-formed store whose buckets lie in its past.
record IsLive (now : ℕ) (self : RateLimiter) : Type 0 where
  store : IsStore self.policy.max_buckets self.buckets
  past : (p : ℕ) → Past now (lookup p self.buckets)

admit-IsLive :
    (self : RateLimiter) (id : ℕ) (tier : Text) (before now : ℕ)
    → before ≤ now
    → IsLive before self
    → IsLive now (admit self id tier now).0
unfolding admit
admit-IsLive self id tier before now h v = record {
  store = spend-IsStore self.policy.max_buckets now id _ self.buckets v.store;
  past = λ p.
      spend-Past self.policy.max_buckets self.buckets id _ now p v.store.distinct
        (Past-later before now (lookup p self.buckets) h (v.past p));
}

serve-IsLive :
    (self : RateLimiter) (requests : List Request) (start stop : ℕ)
    → Ordered start requests stop
    → IsLive start self
    → IsLive stop (serve self requests)
unfolding serve
serve-IsLive self [] start stop h v = record {
  store = v.store;
  past = λ p. Past-later start stop (lookup p self.buckets) h (v.past p);
}
serve-IsLive self (r ∷ rs) start stop (h, hs) v =
    serve-IsLive (admit self r.id r.tier r.at).0 rs r.at stop hs
      (admit-IsLive self r.id r.tier start r.at h v)

-- Calls for other principals, whatever their instants.
admit_others-Past :
    (p now : ℕ) (self : RateLimiter) (others : List Request)
    → All (λ r. (r.id == p) ≡ false) others
    → IsStore self.policy.max_buckets self.buckets
    → Past now (lookup p self.buckets)
    → IsStore (serve self others).policy.max_buckets (serve self others).buckets
      × Past now (lookup p (serve self others).buckets)
unfolding serve
admit_others-Past p now self [] h v past = (v, past)
admit_others-Past p now self (r ∷ rs) (ne, h) v past =
    let q = quota_for self.policy r.tier in
    let max = self.policy.max_buckets in
    admit_others-Past p now (admit self r.id r.tier r.at).0 rs h
      (unfold admit in spend-IsStore max r.at r.id q self.buckets v)
      (unfold admit in
        spend-ne_induction (Past now) max self.buckets r.id q r.at p v.distinct ne tt past)

-- A second after its bucket was computed, a principal has a token.
credited-verdict :
    (quota : Quota) (now later : ℕ) (o : Option Bucket)
    → IsQuota quota
    → Past now o
    → now + 1000000000 ≤ later
    → verdict (refill quota later (or_insert o quota later)) ≡ admitted
credited-verdict quota now later none v past h = ground (
  arith,
  units-refill_full quota later (full_bucket quota later) refl,
  capacity_units-eq quota v,
  v.capacity_pos,
)
credited-verdict quota now later (some b) v past h =
    ground (arith, refill_second quota later b v (omega arith))

spend-ne-refused :
    (max : ℕ) (buckets : Buckets) (p : ℕ) (quota : Quota) (now later m : ℕ)
    → IsQuota quota
    → DistinctKeys buckets
    → Past now (lookup p buckets)
    → now + 1000000000 ≤ later
    → (spend max buckets p quota later).1 ≢ refused m
spend-ne-refused max buckets p quota now later m v d past h e =
    elim (spend-cases max buckets p quota later) [
      | inl (full, _) ↦ cc
      | inr (kept, from, taken) ↦
          let there = Cleared-elim (Past now) later p buckets kept d from tt past in
          cc (
            ap (λ (r : Buckets × Admission). r.1) taken,
            take_token-verdict kept p quota later,
            credited-verdict quota now later (lookup p kept) v there h,
          )
    ]

spend-refused :
    (max : ℕ) (buckets : Buckets) (id : ℕ) (quota : Quota) (now n : ℕ)
    → (spend max buckets id quota now).1 ≡ refused n
    → n ≡ 1
spend-refused max buckets id quota now n e = elim (spend-cases max buckets id quota now) [
  | inl (full, _) ↦ cc
  | inr (kept, from, taken) ↦ ground (arith, take_token-verdict kept id quota now)
]

policy-serve :
    (self : RateLimiter) (requests : List Request) → (serve self requests).policy ≡ self.policy
unfolding serve admit
policy-serve self [] = refl
policy-serve self (r ∷ rs) = policy-serve (admit self r.id r.tier r.at).0 rs

admit-ne-refused :
    (self : RateLimiter) (p now later m : ℕ) (tier : Text)
    → IsQuota (quota_for self.policy tier)
    → IsStore self.policy.max_buckets self.buckets
    → Past now (lookup p self.buckets)
    → now + 1000000000 ≤ later
    → (admit self p tier later).1 ≢ refused m
unfolding admit
admit-ne-refused self p now later m tier v store past h =
    spend-ne-refused self.policy.max_buckets self.buckets p (quota_for self.policy tier) now later m
      v store.distinct past h

IsLive-new : (policy : RateLimitPolicy) (start : ℕ) → IsLive start (limiter_new policy)
unfolding limiter_new lookup
IsLive-new policy start = record { store = IsStore-empty policy.max_buckets; past = λ p. tt }

-- A principal refused at `t`, with `n` in its `Retry-After`, is not refused again once `n`
-- seconds have passed, whatever the other principals did meanwhile: it is admitted, or the
-- replica is saturated. The history before starts with no buckets, its instants do not decrease,
-- and the later quota is one that `Quota::new` can make.
pub retry_after_honest :
    (policy : RateLimitPolicy) (before others : List Request) (p start t later n m : ℕ)
    (tier tier' : Text)
    → Ordered start before t
    → (admit (serve (limiter_new policy) before) p tier t).1 ≡ refused n
    → All (λ r. (r.id == p) ≡ false) others
    → t + n * 1000000000 ≤ later
    → IsQuota (quota_for policy tier')
    → (admit (serve (admit (serve (limiter_new policy) before) p tier t).0 others) p tier' later).1
      ≢ refused m
retry_after_honest policy before others p start t later n m tier tier' o e h wait v =
    let self = serve (limiter_new policy) before in
    let refused_state = (admit self p tier t).0 in
    let live =
      admit-IsLive self p tier t t (omega arith)
        (serve-IsLive (limiter_new policy) before start t o (IsLive-new policy start)) in
    let (store, past) = admit_others-Past p t refused_state others h live.store (live.past p) in
    let one : n ≡ 1 = unfold admit in spend-refused _ _ p _ t n e in
    admit-ne-refused (serve refused_state others) p t later m tier'
      (rw (policy-serve refused_state others)
        (unfold admit in rw (policy-serve (limiter_new policy) before) (unfold limiter_new in v)))
      store past (omega arith)
