-- ===== src/RateLimit/History.antt =====
-- Histories of calls of `RateLimiter::admit`, made one after the other under its lock.
use aircraft_api_r.Prelude.{
  ℕ, ◌+◌, ◌≤◌, ◌==◌, Bool, true, false, ◌&&◌, List, [], ◌∷◌, if◌then◌else◌,
}
use aircraft_api_r.Prelude.Text.{Text}
use aircraft_api_r.RateLimit.Limiter.{Admission, admitted, refused, saturated, RateLimiter, admit}

pub record Request : Type 0 where
  pub id : ℕ
  pub tier : Text
  pub at : ℕ

abbrev pub is_admitted : Admission → Bool
is_admitted admitted = true
is_admitted (refused n) = false
is_admitted saturated = false

unfoldable pub serve : RateLimiter → List Request → RateLimiter
serve self [] = self
serve self (r ∷ rs) = serve (admit self r.id r.tier r.at).0 rs

-- How many of the principal's requests were admitted.
unfoldable pub admissions : ℕ → RateLimiter → List Request → ℕ
admissions p self [] = 0
admissions p self (r ∷ rs) =
    (if (r.id == p) && is_admitted (admit self r.id r.tier r.at).1 then 1 else 0)
    + admissions p (admit self r.id r.tier r.at).0 rs

-- The instants do not decrease, from `start` to `stop`.
abbrev pub Ordered : ℕ → List Request → ℕ → Type 0
Ordered start [] stop = start ≤ stop
Ordered start (r ∷ rs) stop = (start ≤ r.at) × Ordered r.at rs stop
