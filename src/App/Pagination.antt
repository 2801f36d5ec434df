-- ===== src/App/Pagination.antt =====
-- Keyset pages: crates/aircraft_app/src/pagination.rs. A `u16` is a number; `NonZeroU16` is a number
-- that the theorems take to be positive.
pub mod Scan
pub mod Tests
use aircraft_api_r.Prelude.{
  ℕ, ◌+◌, ◌≤◌, ◌<◌, ◌≡◌, refl, min, arith, Option, none, some, List, length, take, get_last?,
  map_option, ltb, if◌then◌else◌,
}

abbrev pub u16_max : ℕ
u16_max = 65535

abbrev pub default_limit : ℕ
default_limit = 50

abbrev pub max_limit : ℕ
max_limit = 200

pub record PageLimit : Type 0 where
  pub get : ℕ

unfoldable pub from_requested : Option ℕ → PageLimit
from_requested none = record { get = default_limit }
from_requested (some limit) = record { get = min limit max_limit }

-- `saturating_add`
unfoldable pub query_size : PageLimit → ℕ
query_size limit = min (limit.get + 1) u16_max

pub record Page {ℓ κ} (T : Type ℓ) (K : Type κ) : Type (ℓ ⊔ κ) where
  pub items : List T
  pub next : Option K

unfoldable pub from_overfetched {ℓ κ} :
    {T : Type ℓ} {K : Type κ} → List T → PageLimit → (T → K) → Page T K
from_overfetched rows limit key_of =
    if ltb limit.get (length rows)
    then record {
      items = take limit.get rows;
      next = map_option key_of (get_last? (take limit.get rows));
    }
    else record { items = rows; next = none }

-- A limit from a request that names none, or a positive one, lies between one and the maximum,
-- and the query asks for exactly one row more.
pub from_requested_bounds :
    (requested : Option ℕ)
    → ((n : ℕ) → requested ≡ some n → 0 < n)
    → (0 < (from_requested requested).get)
      × ((from_requested requested).get ≤ max_limit)
      × (query_size (from_requested requested) ≡ (from_requested requested).get + 1)
unfolding from_requested query_size
from_requested_bounds none h = omega arith
from_requested_bounds (some n) h = omega (arith, h n refl)
