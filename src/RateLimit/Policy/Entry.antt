-- ===== src/RateLimit/Policy/Entry.antt =====
-- One entry of `http.rate_limit_tiers`, `CODE:capacity:refill_per_second`, and a list of them, read
-- independently of the loop that builds the map.
use aircraft_api_r.Prelude.{
  ℕ, ◌≡◌, refl, arith, Option, none, some, List, [], ◌∷◌, ◌==◌, ◌||◌, if◌then◌else◌,
}
use aircraft_api_r.Prelude.Text.{
  Text, Text-Eq, text_eq, split, parse_unsigned, parse_unsigned-Fits, Fits, is_empty,
}
use aircraft_api_r.RateLimit.Quota.{Quota, IsQuota, u32_max}
use aircraft_api_r.RateLimit.Policy.{three_parts}

-- An entry on its own: three parts, two numbers that fit and are not zero, and a code.
abbrev read_numbers : Text → Option ℕ → Option ℕ → Option (Text × Quota)
read_numbers code (some c) (some r) =
    if (c == 0) || (r == 0) || is_empty code
    then none
    else some (code, record { capacity = c; refill_per_second = r })
read_numbers code _ _ = none

abbrev read_parts : Option (Text × Text × Text) → Option (Text × Quota)
read_parts none = none
read_parts (some (code, capacity, refill)) =
    read_numbers code (parse_unsigned u32_max capacity) (parse_unsigned u32_max refill)

unfoldable pub read_entry : Text → Option (Text × Quota)
read_entry entry = read_parts (three_parts (split b':' entry))

-- The quota that a list of entries gives a tier.
abbrev pub listed_step : Option (Text × Quota) → Text → Option Quota → Option Quota
listed_step none tier rest = rest
listed_step (some (code, quota)) tier rest = if text_eq code tier then some quota else rest

unfoldable pub listed : Text → List Text → Option Quota
listed tier [] = none
listed tier (entry ∷ entries) = listed_step (read_entry entry) tier (listed tier entries)

read_numbers-IsQuota :
    (code code' : Text) (c r : Option ℕ) (quota : Quota)
    → Fits u32_max c
    → Fits u32_max r
    → read_numbers code c r ≡ some (code', quota)
    → IsQuota quota
read_numbers-IsQuota code code' (some c) (some r) quota hc hr e = ground arith
read_numbers-IsQuota code code' none r quota hc hr e = absurd (cc)
read_numbers-IsQuota code code' (some c) none quota hc hr e = absurd (cc)

read_parts-IsQuota :
    (parts : Option (Text × Text × Text)) (code : Text) (quota : Quota)
    → read_parts parts ≡ some (code, quota)
    → IsQuota quota
read_parts-IsQuota none code quota e = absurd (cc)
read_parts-IsQuota (some (c, capacity, refill)) code quota e =
    read_numbers-IsQuota c code (parse_unsigned u32_max capacity) (parse_unsigned u32_max refill)
      quota (parse_unsigned-Fits u32_max capacity) (parse_unsigned-Fits u32_max refill) e

listed_step-IsQuota :
    (tier : Text) (r : Option (Text × Quota)) (rest : Option Quota)
    → ((code : Text) (q : Quota) → r ≡ some (code, q) → IsQuota q)
    → ((q : Quota) → rest ≡ some q → IsQuota q)
    → (quota : Quota) → listed_step r tier rest ≡ some quota
    → IsQuota quota
listed_step-IsQuota tier none rest here later quota e = later quota e
listed_step-IsQuota tier (some (code, q)) rest here later quota e =
    ground (arith, here code q refl, later quota)

pub listed-IsQuota :
    (tier : Text) (entries : List Text) (quota : Quota)
    → listed tier entries ≡ some quota
    → IsQuota quota
unfolding listed
listed-IsQuota tier [] quota e = absurd (cc)
listed-IsQuota tier (entry ∷ entries) quota e =
    listed_step-IsQuota tier (read_entry entry) (listed tier entries)
      (unfold read_entry in read_parts-IsQuota (three_parts (split b':' entry)))
      (listed-IsQuota tier entries) quota e
