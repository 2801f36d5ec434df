-- ===== src/RateLimit/Invariant.antt =====
-- The bucket store of crates/aircraft_api/src/rate_limit.rs stays well formed.
use aircraft_api_r.Prelude.{
  ℕ, ◌≤◌, ◌<◌, ◌≡◌, arith, [], length, nat_eq, some, true, not, Bool-cases, ◌⊎◌, inl, inr, ltb,
}
use aircraft_api_r.Prelude.Dict.{
  lookup, contains, insert, DistinctKeys, DistinctKeys-insert, DistinctKeys-retain, length-insert,
  length-retain-le, lookup-insert, lookup-retain,
}
use aircraft_api_r.RateLimit.Quota.{Quota, tokens_per_unit, capacity_units}
use aircraft_api_r.RateLimit.Bucket.{Bucket, refill, is_full_at}
use aircraft_api_r.RateLimit.Limiter.{Buckets, or_insert, sweep, take_token, spend}

-- At most `max_buckets` buckets, one for a principal, and none above its capacity.
pub record IsStore (max_buckets : ℕ) (buckets : Buckets) : Type 0 where
  pub size : length buckets ≤ max_buckets
  pub distinct : DistinctKeys buckets
  pub within : (id : ℕ) (b : Bucket) → lookup id buckets ≡ some b → b.units ≤ capacity_units b.quota

pub IsStore-empty : (max : ℕ) → IsStore max []
unfolding lookup
IsStore-empty max = record { size = omega arith; distinct = tt; within = λ id b h. cc }

units-refill-le :
    (quota : Quota) (now : ℕ) (b : Bucket)
    → (refill quota now b).units ≤ capacity_units (refill quota now b).quota
unfolding refill
units-refill-le quota now b = omega arith

sweep-IsStore :
    (max now : ℕ) (buckets : Buckets) → IsStore max buckets → IsStore max (sweep now buckets)
unfolding sweep
sweep-IsStore max now buckets v = record {
  size = omega (arith, v.size, length-retain-le (λ b. not (is_full_at b now)) buckets);
  distinct = DistinctKeys-retain _ buckets v.distinct;
  within = λ id b h.
      ground
        (arith, lookup-retain (λ b. not (is_full_at b now)) id buckets v.distinct, v.within id b);
}

-- There is room for the principal: its bucket is there, or one more fits.
abbrev pub HasRoom : ℕ → Buckets → ℕ → Type 0
HasRoom max buckets id = (contains id buckets ≡ true) ⊎ (length buckets < max)

insert-IsStore :
    (max id : ℕ) (b : Bucket) (buckets : Buckets)
    → IsStore max buckets
    → HasRoom max buckets id
    → b.units ≤ capacity_units b.quota
    → IsStore max (insert id b buckets)
insert-IsStore max id b buckets v room fits = record {
  size = ground (arith, v.size, length-insert id b buckets);
  distinct = DistinctKeys-insert id b buckets v.distinct;
  within = λ j c h. ground (arith, lookup-insert id j b buckets, v.within j c);
}

take_token-IsStore :
    (max now id : ℕ) (quota : Quota) (buckets : Buckets)
    → IsStore max buckets
    → HasRoom max buckets id
    → IsStore max (take_token buckets id quota now).0
unfolding take_token
take_token-IsStore max now id quota buckets v room =
    let b = refill quota now (or_insert (lookup id buckets) quota now) in
    let fits : b.units ≤ capacity_units b.quota =
      units-refill-le quota now (or_insert (lookup id buckets) quota now) in
    elim (Bool-cases (ltb b.units tokens_per_unit)) [
      | inl empty ↦ rw empty (insert-IsStore max id b buckets v room fits)
      | inr rest ↦ rw rest (insert-IsStore max id _ buckets v room (omega arith))
    ]

-- Every call of `spend`, whether admitted, refused or saturated, keeps the store within its
-- ceiling, with one bucket for a principal and none above its capacity.
pub spend-IsStore :
    (max now id : ℕ) (quota : Quota) (buckets : Buckets)
    → IsStore max buckets
    → IsStore max (spend max buckets id quota now).0
unfolding spend
spend-IsStore max now id quota buckets v = ground (
  arith,
  sweep-IsStore max now buckets v,
  take_token-IsStore max now id quota buckets v,
  take_token-IsStore max now id quota (sweep now buckets) (sweep-IsStore max now buckets v),
)
