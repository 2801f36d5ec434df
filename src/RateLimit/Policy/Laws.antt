-- ===== src/RateLimit/Policy/Laws.antt =====
-- What `RateLimitPolicy::new` puts in force, and what it refuses.
use aircraft_api_r.Prelude.{
  ℕ, ◌+◌, ◌≡◌, refl, ◌≢◌, ap, ◌∙◌, arith, Bool-cases, true, false, Option, none, some, get_or, List,
  [], ◌∷◌, ◌++◌, length, Result, ok, err, is_some, Option-cases, ◌==◌, if◌then◌else◌, ◌⊎◌, inl, inr,
}
use aircraft_api_r.Prelude.Dict.{Dict, lookup, contains, insert, lookup-insert}
use aircraft_api_r.Prelude.Text.{Text, Text-Eq, text_eq_iff}
use aircraft_api_r.RateLimit.Quota
use aircraft_api_r.RateLimit.Quota.{Quota, IsQuota, u32_max, new-IsQuota}
use aircraft_api_r.RateLimit.Policy.{
  InvalidPolicy, bucket_ceiling, tier_override, RateLimitPolicy, add_override, add_overrides, new,
  quota_for,
}
use aircraft_api_r.RateLimit.Policy.Entry.{read_entry, listed, listed-IsQuota}

abbrev add_read :
    ℕ → Option (Text × Quota) → Dict Text Quota → Result InvalidPolicy (Dict Text Quota)
add_read position none tiers = err (tier_override position)
add_read position (some (code, quota)) tiers =
    if contains code tiers then err (tier_override position) else ok (insert code quota tiers)

-- One round of the loop reads its entry, and refuses a code that is there.
add_override-eq :
    (position : ℕ) (entry : Text) (tiers : Dict Text Quota)
    → add_override position entry tiers ≡ add_read position (read_entry entry) tiers
unfolding add_override read_entry Quota.new
add_override-eq position entry tiers = ground arith

-- The next round of the loop, after an entry that was read and is new.
abbrev Continues :
    ℕ → Text → List Text → Dict Text Quota → Result InvalidPolicy (Dict Text Quota) → Type 0
Continues position entry entries tiers out =
    (code : Text) × (quota : Quota) × (read_entry entry ≡ some (code, quota))
    × (contains code tiers ≡ false)
    × (add_overrides (position + 1) entries (insert code quota tiers) ≡ out)

-- The loop stops at an entry that cannot be read or repeats a code.
abbrev Stops : Text → Dict Text Quota → Type 0
Stops entry tiers =
    (read_entry entry ≡ none)
    ⊎ ((code : Text) × (quota : Quota) × (read_entry entry ≡ some (code, quota))
        × (contains code tiers ≡ true))

add_overrides-cases :
    (position : ℕ) (entry : Text) (entries : List Text) (tiers : Dict Text Quota)
    (out : Result InvalidPolicy (Dict Text Quota))
    → add_overrides position (entry ∷ entries) tiers ≡ out
    → Continues position entry entries tiers out
      ⊎ (Stops entry tiers × (out ≡ err (tier_override position)))
unfolding add_overrides
add_overrides-cases position entry entries tiers out e = go (read_entry entry) refl
  where
    go :
        (r : Option (Text × Quota))
        → read_entry entry ≡ r
        → Continues position entry entries tiers out
          ⊎ (Stops entry tiers × (out ≡ err (tier_override position)))
    go none r =
        inr
          (inl r, cc (add_override-eq position entry tiers, ap (λ x. add_read position x tiers) r))
    go (some (code, quota)) r = elim (Bool-cases (contains code tiers)) [
      | inl seen ↦
          inr (inr (code, quota, r, seen), ground (arith, add_override-eq position entry tiers))
      | inr fresh ↦
          inl (code, quota, r, fresh, ground (arith, add_override-eq position entry tiers))
    ]

abbrev or_else {ℓ} : {A : Type ℓ} → Option A → Option A → Option A
or_else none b = b
or_else (some a) b = some a

lookup-add_overrides :
    (position : ℕ) (entries : List Text) (tiers out : Dict Text Quota) (tier : Text)
    → add_overrides position entries tiers ≡ ok out
    → lookup tier out ≡ or_else (lookup tier tiers) (listed tier entries)
unfolding listed contains
lookup-add_overrides position [] tiers out tier e = unfold add_overrides in ground arith
lookup-add_overrides position (entry ∷ entries) tiers out tier e =
    elim (add_overrides-cases position entry entries tiers (ok out) e) [
      | inl (code, quota, read, fresh, more) ↦ ground (
        arith,
        lookup-add_overrides (position + 1) entries (insert code quota tiers) out tier more,
        lookup-insert code tier quota tiers,
        text_eq_iff code tier,
      )
      | inr (stop, e') ↦ absurd (cc)
    ]

add_overrides-continue :
    (position : ℕ) (entry code : Text) (quota : Quota) (entries : List Text)
    (tiers : Dict Text Quota)
    → read_entry entry ≡ some (code, quota)
    → contains code tiers ≡ false
    → add_overrides position (entry ∷ entries) tiers
      ≡ add_overrides (position + 1) entries (insert code quota tiers)
unfolding add_overrides
add_overrides-continue position entry code quota entries tiers read fresh =
    ground (arith, add_override-eq position entry tiers)

-- Where and why the loop stops: after entries that were all accepted, at one that cannot be read
-- or whose code an earlier entry, or the map at the start, has.
abbrev StopsAt : ℕ → List Text → Dict Text Quota → InvalidPolicy → Type 0
StopsAt position entries tiers e =
    (earlier later : List Text) × (bad : Text) × (mid : Dict Text Quota) × (entries
      ≡ earlier ++ bad ∷ later)
    × (e ≡ tier_override (position + length earlier))
    × (add_overrides position earlier tiers ≡ ok mid)
    × Stops bad mid

add_overrides_stops :
    (position : ℕ) (entries : List Text) (tiers : Dict Text Quota) (e : InvalidPolicy)
    → add_overrides position entries tiers ≡ err e
    → StopsAt position entries tiers e
add_overrides_stops position [] tiers e h = unfold add_overrides in cc
add_overrides_stops position (entry ∷ entries) tiers e h =
    elim (add_overrides-cases position entry entries tiers (err e) h) [
      | inl (code, quota, read, fresh, more) ↦
          let (earlier, later, bad, mid, split_at, at, before, stops) =
            add_overrides_stops (position + 1) entries (insert code quota tiers) e more in
          (
            entry ∷ earlier,
            later,
            bad,
            mid,
            ap (λ es. entry ∷ es) split_at,
            ground arith,
            add_overrides-continue position entry code quota earlier tiers read fresh ∙ before,
            stops,
          )
      | inr (stop, e') ↦
          ([], entries, entry, tiers, refl, ground arith, unfold add_overrides in refl, stop)
    ]

-- A policy that was accepted is that of the loop's map.
new-eq-ok :
    (default : Quota) (max : ℕ) (overrides : List Text) (policy : RateLimitPolicy)
    → new default max overrides ≡ ok policy
    → (max ≢ 0)
      × (policy.default ≡ default)
      × (policy.max_buckets ≡ max)
      × (add_overrides 1 overrides [] ≡ ok policy.tiers)
unfolding new
new-eq-ok default max overrides policy e = ground arith

-- A configuration that is accepted puts in force, for each tier, the quota of the entry that
-- lists it, and the default for a tier that none lists.
pub quota_for-new :
    (default : Quota) (max : ℕ) (overrides : List Text) (policy : RateLimitPolicy) (tier : Text)
    → new default max overrides ≡ ok policy
    → quota_for policy tier ≡ get_or (listed tier overrides) default
unfolding quota_for lookup
quota_for-new default max overrides policy tier e =
    let (_, same, _, run) = new-eq-ok default max overrides policy e in
    rw (lookup-add_overrides 1 overrides [] policy.tiers tier run, same) refl

-- Where a configuration is refused: at its first entry that cannot be read or whose code an earlier
-- entry lists. The entries before it alone are accepted.
abbrev pub RefusedAt : Quota → ℕ → List Text → InvalidPolicy → Type 0
RefusedAt default max overrides e =
    (earlier later : List Text) × (bad : Text) × (policy : RateLimitPolicy) × (overrides
      ≡ earlier ++ bad ∷ later)
    × (e ≡ tier_override (length earlier + 1))
    × (new default max earlier ≡ ok policy)
    × ((read_entry bad ≡ none)
        ⊎ ((code : Text) × (quota : Quota) × (read_entry bad ≡ some (code, quota))
            × (is_some (listed code earlier) ≡ true)))

-- A refused configuration either has a bucket ceiling of zero, or names by its 1-based position
-- the first entry that cannot be read or whose code an earlier entry lists; the entries before it
-- alone are accepted.
pub new_refused :
    (default : Quota) (max : ℕ) (overrides : List Text) (e : InvalidPolicy)
    → new default max overrides ≡ err e
    → ((max ≡ 0) × (e ≡ bucket_ceiling)) ⊎ RefusedAt default max overrides e
new_refused default max overrides e h = elim (Bool-cases (max == 0)) [
  | inl none_fit ↦ inl (unfold new in ground arith)
  | inr fit ↦
      let (earlier, later, bad, mid, split_at, at, before, stops) =
        add_overrides_stops 1 overrides [] e (unfold new in ground arith) in
      let policy : RateLimitPolicy = record { default = default; tiers = mid; max_buckets = max } in
      inr (
        earlier,
        later,
        bad,
        policy,
        split_at,
        ground arith,
        unfold new in ground arith,
        elim stops [
          | inl unread ↦ inl unread
          | inr (code, quota, read, seen) ↦ inr (
            code,
            quota,
            read,
            unfold contains lookup in
                ground (arith, lookup-add_overrides 1 earlier [] mid code before),
          )
        ],
      )
]

-- Every quota that an accepted configuration puts in force has a capacity and a rate from 1 to
-- the largest 32-bit number, if the default has.
pub quota_for-IsQuota :
    (default : Quota) (max : ℕ) (overrides : List Text) (policy : RateLimitPolicy) (tier : Text)
    → new default max overrides ≡ ok policy
    → IsQuota default
    → IsQuota (quota_for policy tier)
quota_for-IsQuota default max overrides policy tier e v =
    rw (quota_for-new default max overrides policy tier e)
      (elim (Option-cases (listed tier overrides)) [
        | inl missing ↦ rw missing v
        | inr (quota, found) ↦ rw found (listed-IsQuota tier overrides quota found)
      ])
