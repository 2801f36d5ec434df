-- ===== src/RateLimit/Saturation.antt =====
-- When a principal cannot be tracked.
use Prim.Native.Nat.{◌^◌}
use aircraft_api_r.Prelude.{
  ℕ, ◌+◌, ◌-◌, ◌*◌, ◌/◌, ◌≤◌, ◌<◌, ◌≡◌, ◌≢◌, refl, ap, ◌↔◌, arith, nat_eq, false, [], ◌∷◌, length,
  All, min,
}
use aircraft_api_r.Prelude.Dict.{retain, contains, lookup, length-retain-le}
use aircraft_api_r.RateLimit.Quota.{Quota, capacity_units}
use aircraft_api_r.RateLimit.Bucket.{Bucket, is_full_at}
use aircraft_api_r.RateLimit.Bucket.Credit.{is_full_at_iff}
use aircraft_api_r.RateLimit.Invariant.{IsStore}
use aircraft_api_r.RateLimit.Limiter.{Buckets, Admission, saturated, sweep, take_token, spend}
use aircraft_api_r.RateLimit.Lookup.{take_token-verdict}

-- No bucket is full by `now`.
abbrev pub NoneFull : ℕ → Buckets → Type 0
NoneFull now buckets = All (λ e. is_full_at e.1 now ≡ false) buckets

sweep_of_NoneFull :
    (now : ℕ) (buckets : Buckets) → NoneFull now buckets → sweep now buckets ≡ buckets
unfolding sweep retain
sweep_of_NoneFull now [] h = refl
sweep_of_NoneFull now ((id, b) ∷ rest) (low, h) =
    rw low (ap (λ bs. (id, b) ∷ bs) (sweep_of_NoneFull now rest h))

length-sweep-le : (now : ℕ) (buckets : Buckets) → length (sweep now buckets) ≤ length buckets
unfolding sweep
length-sweep-le now buckets = length-retain-le _ buckets

NoneFull-length :
    (now : ℕ) (buckets : Buckets)
    → length buckets ≤ length (sweep now buckets)
    → NoneFull now buckets
unfolding sweep retain
NoneFull-length now [] h = tt
NoneFull-length now ((id, b) ∷ rest) h =
    let shrunk : length (sweep now rest) ≤ length rest = length-sweep-le now rest in
    ground (arith, shrunk, NoneFull-length now rest)

take_token-ne-saturated :
    (buckets : Buckets) (id : ℕ) (quota : Quota) (now : ℕ)
    → (take_token buckets id quota now).1 ≡ saturated
    → ⊥
take_token-ne-saturated buckets id quota now e =
    ground (arith, take_token-verdict buckets id quota now)

-- What makes a call for the principal answer `Saturated`, in terms of the code's own test.
abbrev CannotTrack : ℕ → ℕ → ℕ → Buckets → Type 0
CannotTrack max id now buckets =
    (contains id buckets ≡ false) × (length buckets ≡ max) × NoneFull now buckets

-- The bucket's units, and what the whole milliseconds since it was computed earn, stay below its
-- capacity in units, which are thousandths of a token counted in 64 bits.
abbrev pub LacksTokens : ℕ → Bucket → Type 0
LacksTokens now b =
    b.units + ((now - b.last) / 1000000) * b.quota.refill_per_second
    < min (b.quota.capacity * 1000) (2 ^ 64 - 1)

LacksTokens-iff : (now : ℕ) (b : Bucket) → (is_full_at b now ≡ false) ↔ LacksTokens now b
unfolding capacity_units
LacksTokens-iff now b = ground (arith, is_full_at_iff b now)

NoneFull-iff :
    (now : ℕ) (buckets : Buckets) → NoneFull now buckets ↔ All (λ e. LacksTokens now e.1) buckets
NoneFull-iff now [] = (λ h. tt, λ h. tt)
NoneFull-iff now ((id, b) ∷ rest) =
    let here = LacksTokens-iff now b in
    let there = NoneFull-iff now rest in
    (λ (l, h). (here.0 l, there.0 h), λ (l, h). (here.1 l, there.1 h))

-- No bucket is for the principal.
abbrev pub Untracked : ℕ → Buckets → Type 0
Untracked id = All (λ e. e.0 ≢ id)

Untracked-iff : (id : ℕ) (buckets : Buckets) → (contains id buckets ≡ false) ↔ Untracked id buckets
unfolding contains lookup
Untracked-iff id [] = (λ h. tt, λ h. refl)
Untracked-iff id ((j, b) ∷ rest) = ground (arith, Untracked-iff id rest)

spend_of_CannotTrack :
    (max id : ℕ) (quota : Quota) (now : ℕ) (buckets : Buckets)
    → CannotTrack max id now buckets
    → spend max buckets id quota now ≡ (buckets, saturated)
unfolding spend
spend_of_CannotTrack max id quota now buckets c = ground (arith, sweep_of_NoneFull now buckets c.2)

CannotTrack-saturated :
    (max id : ℕ) (quota : Quota) (now : ℕ) (buckets : Buckets)
    → IsStore max buckets
    → (spend max buckets id quota now).1 ≡ saturated
    → CannotTrack max id now buckets
unfolding spend
CannotTrack-saturated max id quota now buckets v e = ground (
  arith,
  NoneFull-length now buckets,
  length-sweep-le now buckets,
  take_token-ne-saturated buckets id quota now,
  take_token-ne-saturated (sweep now buckets) id quota now,
)

-- In a well-formed store, `Saturated` is answered exactly for a principal that has no bucket,
-- when the store is at its ceiling and each of its buckets, with what the whole milliseconds
-- since it was computed earn, is still short of its capacity, which is counted in thousandths of
-- a token and in 64 bits.
pub spend_saturated_iff :
    (max id : ℕ) (quota : Quota) (now : ℕ) (buckets : Buckets)
    → IsStore max buckets
    → ((spend max buckets id quota now).1 ≡ saturated)
      ↔ (Untracked id buckets × (length buckets ≡ max) × All (λ e. LacksTokens now e.1) buckets)
spend_saturated_iff max id quota now buckets v =
    let untracked = Untracked-iff id buckets in
    let low = NoneFull-iff now buckets in
    (
      (λ e.
          let (u, size, none_full) = CannotTrack-saturated max id quota now buckets v e in
          (untracked.0 u, size, low.0 none_full)),
      λ (u, size, short).
          ap (λ (r : Buckets × Admission). r.1)
            (spend_of_CannotTrack max id quota now buckets (untracked.1 u, size, low.1 short)),
    )

-- A well-formed store is left as it was by a call that is answered `Saturated`.
pub spend_saturated-keeps :
    (max id : ℕ) (quota : Quota) (now : ℕ) (buckets : Buckets)
    → IsStore max buckets
    → (spend max buckets id quota now).1 ≡ saturated
    → (spend max buckets id quota now).0 ≡ buckets
spend_saturated-keeps max id quota now buckets v e =
    ap (λ (r : Buckets × Admission). r.0)
      (spend_of_CannotTrack max id quota now buckets
        (CannotTrack-saturated max id quota now buckets v e))
