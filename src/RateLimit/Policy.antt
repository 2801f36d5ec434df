-- ===== src/RateLimit/Policy.antt =====
-- The quotas in force: `RateLimitPolicy` of crates/aircraft_api/src/rate_limit.rs.
pub mod Entry
pub mod Laws
use aircraft_api_r.Prelude.{
  ℕ, ◌+◌, ◌≡◌, Bool, ◌||◌, Option, none, some, get_or, List, [], ◌∷◌, Result, ok, err, ◌>>=◌, ◌>>◌,
  ok_or, guard, not, ◌==◌, if◌then◌else◌,
}
use aircraft_api_r.Prelude.Dict.{Dict, lookup, contains, insert}
use aircraft_api_r.Prelude.Text.{Text, Text-Eq, split, parse_unsigned, is_empty}
use aircraft_api_r.RateLimit.Quota
use aircraft_api_r.RateLimit.Quota.{Quota, u32_max}

pub data InvalidPolicy : Type 0 where
  bucket_ceiling : InvalidPolicy
  -- the entry's position, from 1
  tier_override : ℕ → InvalidPolicy

pub record RateLimitPolicy : Type 0 where
  pub default : Quota
  pub tiers : Dict Text Quota
  pub max_buckets : ℕ

-- Exactly three parts.
abbrev pub three_parts : List Text → Option (Text × Text × Text)
three_parts (code ∷ capacity ∷ refill ∷ []) = some (code, capacity, refill)
three_parts _ = none

-- `map_err(|_| refused)`
abbrev pub map_err {ℓ κ ι} : {E : Type ℓ} {F : Type κ} {A : Type ι} → Result E A → F → Result F A
map_err (ok a) f = ok a
map_err (err e) f = err f

-- One round of the loop, at a 1-based position.
unfoldable pub add_override : ℕ → Text → Dict Text Quota → Result InvalidPolicy (Dict Text Quota)
add_override position entry tiers = do
  (code, capacity, refill) ← ok_or (three_parts (split b':' entry)) (tier_override position)
  c ← ok_or (parse_unsigned u32_max capacity) (tier_override position)
  r ← ok_or (parse_unsigned u32_max refill) (tier_override position)
  quota ← map_err (Quota.new c r) (tier_override position)
  guard (not (is_empty code || contains code tiers)) (tier_override position)
  ok (insert code quota tiers)

unfoldable pub add_overrides :
    ℕ → List Text → Dict Text Quota → Result InvalidPolicy (Dict Text Quota)
add_overrides position [] tiers = ok tiers
add_overrides position (entry ∷ entries) tiers = do
  more ← add_override position entry tiers
  add_overrides (position + 1) entries more

unfoldable pub new : Quota → ℕ → List Text → Result InvalidPolicy RateLimitPolicy
new default max_buckets overrides = if max_buckets == 0 then err bucket_ceiling else do
  tiers ← add_overrides 1 overrides []
  ok (record { default = default; tiers = tiers; max_buckets = max_buckets })

unfoldable pub quota_for : RateLimitPolicy → Text → Quota
quota_for policy tier = get_or (lookup tier policy.tiers) policy.default
