-- ===== src/Config/Settings/Tests.antt =====
-- Settings for one origin, and the theorem at a concrete input.
use mathlib.Core.Path.{◌≡◌, refl}
use mathlib.Core.Logic.{inl}
use mathlib.Core.Option.{Option, none, some}
use mathlib.Core.List.{[], ◌∷◌}
use aircraft_api_r.Prelude.{arith, ok}
use aircraft_api_r.Prelude.Text.{Text, codes}
use aircraft_api_r.Config.Settings.{HttpSettings, Url, validate_http}
use aircraft_api_r.Config.Settings.Accepted.{IsServable, validate_http_iff}

abbrev address : Url
address = record {
  scheme = codes "https";
  username = [];
  password = none;
  host_str = some (codes "a.example");
  path = codes "/";
  query = none;
  fragment = none;
  text = codes "https://a.example/";
}

-- Every text is the host of an address in the spelling with a slash.
abbrev parse_url : Text → Option Url
parse_url t = some address

abbrev origin : Text
origin = codes "https://a.example"

abbrev settings : HttpSettings
settings = record {
  host = codes "127.0.0.1";
  port = 8080;
  shutdown_grace_seconds = 30;
  max_request_body_bytes = 1048576;
  request_timeout_seconds = 30;
  max_concurrent_requests = 256;
  rate_limit_capacity = 60;
  rate_limit_refill_per_second = 10;
  rate_limit_max_buckets = 10000;
  rate_limit_tiers = [];
  cors_allowed_origins = origin ∷ [];
}

served : IsServable parse_url (λ t. t) settings
served = (
  (λ h. absurd (let first = h.0 in cc)),
  omega arith,
  omega arith,
  omega arith,
  omega arith,
  omega arith,
  omega arith,
  omega arith,
  omega arith,
  (
    (
      (λ e. cc),
      (λ e. cc),
      address,
      refl,
      (codes "a.example", refl, (λ e. cc)),
      (refl, refl, refl, refl, refl),
      inl refl,
    ),
    tt,
  ),
)

validate_http_iff_example : validate_http parse_url (λ t. t) settings ≡ ok settings
validate_http_iff_example = (validate_http_iff parse_url (λ t. t) settings).0.1 served
