-- ===== src/RateLimit/Bound.antt =====
-- The rate that a principal cannot pass, whatever the other principals do and whatever is evicted.
use native.Mathlib.Nat.{mul-le-mul_left, zero-add}
use aircraft_api_r.Prelude.{
  ℕ, ◌+◌, ◌*◌, ◌≤◌, ◌≡◌, subst, ==_iff, arith, nat_eq, Option, none, some, true, false, not,
  Bool-cases, inl, inr, ◌==◌, List, [], ◌∷◌, All, if◌then◌else◌,
}
use aircraft_api_r.Prelude.Dict.{lookup, DistinctKeys, keep_if}
use aircraft_api_r.RateLimit.Quota.{Quota, IsQuota, capacity_units, capacity_units-eq}
use aircraft_api_r.RateLimit.Bucket.{Bucket, refill, is_full_at}
use aircraft_api_r.RateLimit.Bucket.Credit.{refill_pays, full_pays, last-refill-le, quota-refill}
use aircraft_api_r.RateLimit.Policy.{RateLimitPolicy, quota_for}
use aircraft_api_r.RateLimit.Invariant.{IsStore, IsStore-empty, spend-IsStore}
use aircraft_api_r.RateLimit.Limiter.{
  Buckets, full_bucket, or_insert, sweep, take_token, spend, RateLimiter, limiter_new, admit,
}
use aircraft_api_r.RateLimit.Lookup.{
  spent, verdict, credited, lookup-sweep, lookup-take_token_self, lookup-take_token_ne,
  take_token-verdict, Cleared, spend-cases,
}
use aircraft_api_r.RateLimit.History.{Request, is_admitted, admissions, Ordered}

-- The principal always comes under a tier with this quota.
abbrev pub IsUnder : Quota → RateLimitPolicy → ℕ → List Request → Type 0
IsUnder quota policy p = All (λ r. (r.id == p) ≡ true → quota_for policy r.tier ≡ quota)

abbrev pub nano_tokens : ℕ
nano_tokens = 1000000000

module _ (quota : Quota) (start : ℕ) where
  -- What `n` admissions since `start` and the bucket at hand have cost is covered by one capacity
  -- and by the refill up to the bucket's instant. A bucket that is not there counts as full.
  abbrev Ledger : ℕ → ℕ → Option Bucket → Type 0
  Ledger n now none =
      (n * nano_tokens + quota.refill_per_second * start ≤ quota.refill_per_second * now)
      × (start ≤ now)
  Ledger n now (some b) =
      (n * nano_tokens + b.units * 1000000 + quota.refill_per_second * start
        ≤ quota.capacity * nano_tokens + quota.refill_per_second * b.last)
      × (b.quota ≡ quota)
      × (b.last ≤ now)
      × (start ≤ now)

  Ledger-later :
      (n now later : ℕ) (o : Option Bucket) → now ≤ later → Ledger n now o → Ledger n later o
  Ledger-later n now later none h l = omega (arith, mul-le-mul_left quota.refill_per_second h)
  Ledger-later n now later (some b) h l = (l.0, l.1, omega arith, omega arith)

  Ledger-keep :
      (n now : ℕ) (o : Option Bucket)
      → IsQuota quota
      → Ledger n now o
      → Ledger n now (keep_if (λ b. not (is_full_at b now)) o)
  Ledger-keep n now none v l = l
  Ledger-keep n now (some b) v l = elim (Bool-cases (is_full_at b now)) [
    | inl full ↦ rw full (
        omega (
          arith,
          capacity_units-eq quota v,
          l.0,
          subst
              (λ (q : Quota).
                capacity_units q * 1000000 + q.refill_per_second * b.last
                ≤ b.units * 1000000 + q.refill_per_second * now)
              l.1 (full_pays b.quota now b full l.2),
        ))
    | inr low ↦ rw low l
  ]

  Ledger-credit :
      (n now : ℕ) (o : Option Bucket)
      → IsQuota quota
      → Ledger n now o
      → Ledger n now (some (refill quota now (or_insert o quota now)))
  Ledger-credit n now none v l =
      let b : Bucket = full_bucket quota now in
      (
        omega (arith, refill_pays quota now b, capacity_units-eq quota v),
        quota-refill quota now b,
        last-refill-le quota now b (omega arith),
        l.1,
      )
  Ledger-credit n now (some b) v l = (
    omega (arith, refill_pays quota now b, l.0),
    quota-refill quota now b,
    last-refill-le quota now b l.2,
    l.3,
  )

  Ledger-spent :
      (n now : ℕ) (b : Bucket)
      → Ledger n now (some b)
      → Ledger ((if is_admitted (verdict b) then 1 else 0) + n) now (some (spent b))
  Ledger-spent n now b l = ground arith

  Ledger-sweep :
      (n now p : ℕ) (buckets : Buckets)
      → IsQuota quota
      → DistinctKeys buckets
      → Ledger n now (lookup p buckets)
      → Ledger n now (lookup p (sweep now buckets))
  Ledger-sweep n now p buckets v d l =
      rw (lookup-sweep now p buckets d) (Ledger-keep n now (lookup p buckets) v l)

  Ledger-take_self :
      (n now p : ℕ) (buckets : Buckets)
      → IsQuota quota
      → Ledger n now (lookup p buckets)
      → Ledger
          ((if is_admitted (take_token buckets p quota now).1 then 1 else 0) + n)
          now
          (lookup p (take_token buckets p quota now).0)
  Ledger-take_self n now p buckets v l =
      rw (lookup-take_token_self buckets p quota now, take_token-verdict buckets p quota now)
        (Ledger-spent n now (credited buckets p quota now)
          (Ledger-credit n now (lookup p buckets) v l))

  Ledger-Cleared :
      (n now p : ℕ) (buckets kept : Buckets)
      → IsQuota quota
      → DistinctKeys buckets
      → Cleared now buckets kept
      → Ledger n now (lookup p buckets)
      → Ledger n now (lookup p kept)
  Ledger-Cleared n now p buckets kept v d (inl e) l = rw e l
  Ledger-Cleared n now p buckets kept v d (inr e) l = rw e (Ledger-sweep n now p buckets v d l)

  -- A call for the principal itself.
  Ledger-spend_self :
      (max n now p : ℕ) (buckets : Buckets)
      → IsQuota quota
      → DistinctKeys buckets
      → Ledger n now (lookup p buckets)
      → Ledger
          ((if is_admitted (spend max buckets p quota now).1 then 1 else 0) + n)
          now
          (lookup p (spend max buckets p quota now).0)
  Ledger-spend_self max n now p buckets v d l = elim (spend-cases max buckets p quota now) [
    | inl (e, _) ↦ rw e (rw zero-add (Ledger-sweep n now p buckets v d l))
    | inr (kept, from, e) ↦
        rw e (Ledger-take_self n now p kept v (Ledger-Cleared n now p buckets kept v d from l))
  ]

  -- A call for another principal.
  Ledger-spend_ne :
      (max n now p id : ℕ) (other : Quota) (buckets : Buckets)
      → IsQuota quota
      → DistinctKeys buckets
      → (id == p) ≡ false
      → Ledger n now (lookup p buckets)
      → Ledger n now (lookup p (spend max buckets id other now).0)
  Ledger-spend_ne max n now p id other buckets v d ne l =
      elim (spend-cases max buckets id other now) [
        | inl (e, _) ↦ rw e (Ledger-sweep n now p buckets v d l)
        | inr (kept, from, e) ↦
            rw (e, lookup-take_token_ne kept id other now p ne)
              (Ledger-Cleared n now p buckets kept v d from l)
      ]

  Ledger-close :
      (n now : ℕ) (o : Option Bucket)
      → Ledger n now o
      → n * nano_tokens + quota.refill_per_second * start
        ≤ quota.capacity * nano_tokens + quota.refill_per_second * now
  Ledger-close n now none l = omega (arith, l.0)
  Ledger-close n now (some b) l = omega (arith, l.0, mul-le-mul_left quota.refill_per_second l.2)

  admissions_from :
      (p n now stop : ℕ) (self : RateLimiter) (requests : List Request)
      → IsQuota quota
      → IsStore self.policy.max_buckets self.buckets
      → IsUnder quota self.policy p requests
      → Ordered now requests stop
      → Ledger n now (lookup p self.buckets)
      → (admissions p self requests + n) * nano_tokens + quota.refill_per_second * start
        ≤ quota.capacity * nano_tokens + quota.refill_per_second * stop
  unfolding admissions admit
  admissions_from p n now stop self [] v s u o l =
      rw zero-add (Ledger-close n stop (lookup p self.buckets) (Ledger-later n now stop _ o l))
  admissions_from p n now stop self (r ∷ rs) v s (u, us) (o, os) l =
      let max = self.policy.max_buckets in
      let q = quota_for self.policy r.tier in
      let now_l = Ledger-later n now r.at (lookup p self.buckets) o l in
      let kept = spend-IsStore max r.at r.id q self.buckets s in
      let next = (admit self r.id r.tier r.at).0 in
      elim (Bool-cases (r.id == p)) [
        | inl same ↦
            let mine : spend max self.buckets r.id q r.at ≡ spend max self.buckets p quota r.at =
              cc ((==_iff r.id p).0 same, u same) in
            rw same (
              omega (
                arith,
                admissions_from p
                    ((if is_admitted (spend max self.buckets r.id q r.at).1 then 1 else 0) + n) r.at
                    stop next rs v kept us os
                    (rw mine (Ledger-spend_self max n r.at p self.buckets v s.distinct now_l)),
              ))
        | inr other ↦
            rw (other, zero-add)
              (admissions_from p n r.at stop next rs v kept us os
                (Ledger-spend_ne max n r.at p r.id q self.buckets v s.distinct other now_l))
      ]

-- Started with no buckets, the limiter admits a principal, over any calls for any principals at
-- instants that do not decrease and with the principal's quota unchanged, at most its capacity
-- plus its refill rate times the elapsed seconds (instants are nanoseconds, so both sides are
-- scaled).
pub admissions_le :
    (policy : RateLimitPolicy) (p : ℕ) (quota : Quota) (start elapsed : ℕ) (requests : List Request)
    → IsQuota quota
    → IsUnder quota policy p requests
    → Ordered start requests (start + elapsed)
    → admissions p (limiter_new policy) requests * nano_tokens
      ≤ quota.capacity * nano_tokens + quota.refill_per_second * elapsed
unfolding limiter_new lookup
admissions_le policy p quota start elapsed requests v u o = omega (
  arith,
  admissions_from quota start p 0 start (start + elapsed) (limiter_new policy) requests v
      (IsStore-empty policy.max_buckets) u o (omega arith),
)
