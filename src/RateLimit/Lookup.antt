-- ===== src/RateLimit/Lookup.antt =====
-- What `sweep`, `take_token` and `spend` leave under each principal.
use aircraft_api_r.Prelude.{
  ℕ, ◌-◌, ◌≡◌, refl, ◌∙◌, arith, nat_eq, ==_iff, Option, none, some, Bool, false, not, Bool-cases,
  ◌⊎◌, inl, inr, ltb, leb, ◌==◌, ◌&&◌, length, if◌then◌else◌,
}
use aircraft_api_r.Prelude.Dict.{
  lookup, contains, DistinctKeys, lookup-insert, lookup-retain, keep_if,
}
use aircraft_api_r.RateLimit.Quota.{Quota, tokens_per_unit}
use aircraft_api_r.RateLimit.Bucket.{Bucket, refill, is_full_at}
use aircraft_api_r.RateLimit.Limiter.{
  Buckets, full_bucket, or_insert, Admission, admitted, refused, saturated, retry_after_seconds,
  sweep, take_token, spend,
}

pub lookup-sweep :
    (now p : ℕ) (buckets : Buckets)
    → DistinctKeys buckets
    → lookup p (sweep now buckets) ≡ keep_if (λ b. not (is_full_at b now)) (lookup p buckets)
unfolding sweep
lookup-sweep now p buckets v = lookup-retain _ p buckets v

-- A token is taken when there is one.
abbrev pub spent : Bucket → Bucket
spent b = if ltb b.units tokens_per_unit then b else record b { units = b.units - tokens_per_unit }

abbrev pub verdict : Bucket → Admission
verdict b = if ltb b.units tokens_per_unit then refused retry_after_seconds else admitted

-- The principal's bucket once `now` has been credited.
abbrev pub credited : Buckets → ℕ → Quota → ℕ → Bucket
credited buckets id quota now = refill quota now (or_insert (lookup id buckets) quota now)

module _ (buckets : Buckets) (id : ℕ) (quota : Quota) (now : ℕ) where
  pub lookup-take_token :
      (p : ℕ)
      → lookup p (take_token buckets id quota now).0
        ≡ (if id == p then some (spent (credited buckets id quota now)) else lookup p buckets)
  unfolding take_token
  lookup-take_token p =
      elim (Bool-cases (ltb (credited buckets id quota now).units tokens_per_unit)) [
        | inl e ↦ rw e (lookup-insert id p _ buckets)
        | inr e ↦ rw e (lookup-insert id p _ buckets)
      ]

  pub lookup-take_token_self :
      lookup id (take_token buckets id quota now).0 ≡ some (spent (credited buckets id quota now))
  lookup-take_token_self = lookup-take_token id ∙ ground arith

  pub lookup-take_token_ne :
      (p : ℕ) → (id == p) ≡ false → lookup p (take_token buckets id quota now).0 ≡ lookup p buckets
  lookup-take_token_ne p h = rw (lookup-take_token p, h) refl

  pub take_token-verdict :
      (take_token buckets id quota now).1 ≡ verdict (credited buckets id quota now)
  unfolding take_token
  take_token-verdict = ground arith

-- The store from which `spend` takes the token.
abbrev pub Cleared : ℕ → Buckets → Buckets → Type 0
Cleared now buckets kept = (kept ≡ buckets) ⊎ (kept ≡ sweep now buckets)

-- Either nothing but the sweep happened, or a token was taken from what it left.
pub spend-cases :
    (max : ℕ) (buckets : Buckets) (id : ℕ) (quota : Quota) (now : ℕ)
    → ((spend max buckets id quota now ≡ (sweep now buckets, saturated))
        × (contains id buckets ≡ false))
      ⊎ ((kept : Buckets) × Cleared now buckets kept
          × (spend max buckets id quota now ≡ take_token kept id quota now))
unfolding spend
spend-cases max buckets id quota now =
    elim (Bool-cases (leb max (length buckets) && not (contains id buckets))) [
      | inl full ↦ elim (Bool-cases (leb max (length (sweep now buckets)))) [
        | inl still ↦ inl (rw (full, still) refl, ground arith)
        | inr room ↦ inr (sweep now buckets, inr refl, rw (full, room) refl)
      ]
      | inr room ↦ inr (buckets, inl refl, rw room refl)
    ]

keep_if-elim {ℓ} :
    (P : Option Bucket → Type ℓ) (f : Bucket → Bool) (o : Option Bucket)
    → P none
    → P o
    → P (keep_if f o)
keep_if-elim P f none empty k = k
keep_if-elim P f (some b) empty k = elim (Bool-cases (f b)) [ inl e ↦ rw e k | inr e ↦ rw e empty ]

pub Cleared-elim {ℓ} :
    (P : Option Bucket → Type ℓ) (now p : ℕ) (buckets kept : Buckets)
    → DistinctKeys buckets
    → Cleared now buckets kept
    → P none
    → P (lookup p buckets)
    → P (lookup p kept)
Cleared-elim P now p buckets kept d (inl e) empty h = rw e h
Cleared-elim P now p buckets kept d (inr e) empty h =
    rw (e, lookup-sweep now p buckets d) (keep_if-elim P _ (lookup p buckets) empty h)

-- What the sweep keeps, and what taking a token keeps, every call keeps.
pub spend_induction {ℓ} :
    (P : Option Bucket → Type ℓ) (max : ℕ) (buckets : Buckets) (id : ℕ) (quota : Quota) (now p : ℕ)
    → DistinctKeys buckets
    → P none
    → ((b : Bucket) → P (some b) → P (some (spent (refill quota now b))))
    → P (some (spent (refill quota now (full_bucket quota now))))
    → P (lookup p buckets)
    → P (lookup p (spend max buckets id quota now).0)
spend_induction P max buckets id quota now p d empty credit fresh h =
    elim (spend-cases max buckets id quota now) [
      | inl (e, _) ↦ rw e (Cleared-elim P now p buckets _ d (inr refl) empty h)
      | inr (kept, from, e) ↦ rw e (taken kept (Cleared-elim P now p buckets kept d from empty h))
    ]
  where
    after : (o : Option Bucket) → P o → P (some (spent (refill quota now (or_insert o quota now))))
    after none k = fresh
    after (some b) k = credit b k

    taken : (kept : Buckets) → P (lookup p kept) → P (lookup p (take_token kept id quota now).0)
    taken kept k = elim (Bool-cases (id == p)) [
      | inl e ↦
          rw ((==_iff id p).0 e, lookup-take_token_self kept p quota now) (after (lookup p kept) k)
      | inr e ↦ rw (lookup-take_token_ne kept id quota now p e) k
    ]

-- A call for another principal leaves a bucket as it is, or evicts it.
pub spend-ne_induction {ℓ} :
    (P : Option Bucket → Type ℓ) (max : ℕ) (buckets : Buckets) (id : ℕ) (quota : Quota) (now p : ℕ)
    → DistinctKeys buckets
    → (id == p) ≡ false
    → P none
    → P (lookup p buckets)
    → P (lookup p (spend max buckets id quota now).0)
spend-ne_induction P max buckets id quota now p d ne empty h =
    elim (spend-cases max buckets id quota now) [
      | inl (e, _) ↦ rw e (Cleared-elim P now p buckets _ d (inr refl) empty h)
      | inr (kept, from, e) ↦
          rw (e, lookup-take_token_ne kept id quota now p ne)
            (Cleared-elim P now p buckets kept d from empty h)
    ]
