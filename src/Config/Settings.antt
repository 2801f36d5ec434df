-- ===== src/Config/Settings.antt =====
-- The settings of crates/aircraft_config/src/settings/structs.rs and the checks that they pass once they
-- are read. A `usize` is of 64 bits; the `url` crate and the `Debug` text of a string are parameters.
pub mod Guards
pub mod Origin
pub mod Accepted
mod Tests
use Prim.Native.Nat.{ℕ, ◌^◌, ◌-◌}
use mathlib.Core.Bool.{Bool, true, false, not, ◌&&◌, ◌||◌}
use mathlib.Core.Option.{Option, none, some}
use mathlib.Core.List.{List, [], ◌∷◌, ◌++◌, map}
use aircraft_api_r.Prelude.{
  Result, ok, err, ◌>>=◌, ◌>>◌, guard, ltb, leb, ◌==◌, any, is_some, if◌then◌else◌,
}
use aircraft_api_r.Prelude.Text.{Text, codes, is_empty, text_eq, split}
use aircraft_api_r.Prelude.Text.Search.{trim, trim_matches, strip_suffix}
use aircraft_api_r.Prelude.Text.Decimal.{decimal}

pub record HttpSettings : Type 0 where
  pub host : Text
  pub port : ℕ
  pub shutdown_grace_seconds : ℕ
  pub max_request_body_bytes : ℕ
  pub request_timeout_seconds : ℕ
  pub max_concurrent_requests : ℕ
  pub rate_limit_capacity : ℕ
  pub rate_limit_refill_per_second : ℕ
  pub rate_limit_max_buckets : ℕ
  pub rate_limit_tiers : List Text
  pub cors_allowed_origins : List Text

pub record DatabaseSettings : Type 0 where
  pub url : Text
  pub max_connections : ℕ
  pub acquire_timeout_seconds : ℕ
  pub statement_timeout_seconds : ℕ

pub record IngestSettings : Type 0 where
  pub database_url : Text
  pub max_input_bytes : ℕ
  pub lock_timeout_seconds : ℕ
  pub statement_timeout_seconds : ℕ
  pub temp_dir : Option Text
  pub max_connections : ℕ

pub record IngestArtifactSettings : Type 0 where
  pub max_input_bytes : ℕ
  pub temp_dir : Option Text

-- A parsed URL.
pub record Url : Type 0 where
  pub scheme : Text
  pub username : Text
  pub password : Option Text
  pub host_str : Option Text
  pub path : Text
  pub query : Option Text
  pub fragment : Option Text
  pub text : Text

pub data ConfigError : Type 0 where
  message : Text → ConfigError

abbrev pub wildcard_origin : Text
wildcard_origin = codes "*"

abbrev pub max_concurrent : ℕ
max_concurrent = 2 ^ 61 - 1

unfoldable pub comma_separated : Text → List Text
comma_separated raw = if is_empty (trim raw) then [] else map trim (split b',' raw)

abbrev pub names_nothing : Option Text → Bool
names_nothing none = true
names_nothing (some s) = is_empty s

abbrev pub without_slash_of : Text → Option Text → Text
without_slash_of text none = text
without_slash_of text (some s) = s

-- What a browser sends.
abbrev pub canonical : Url → Text
canonical url = without_slash_of url.text (strip_suffix b'/' url.text)

module _ (parse_url : Text → Option Url) (debug_text : Text → Text) where
  -- More than a scheme, a host and a port.
  abbrev pub has_more : Url → Bool
  has_more url =
      not (text_eq url.path (codes "/"))
      || is_some url.query
      || is_some url.fragment
      || not (is_empty url.username)
      || is_some url.password

  unfoldable pub validate_parsed_origin : Text → Option Url → Result ConfigError (Unit {0})
  validate_parsed_origin origin none = err (
      message
        (codes "http.cors_allowed_origins contains an entry that is not a valid absolute URL"))
  validate_parsed_origin origin (some url) = do
    guard (not (names_nothing url.host_str))
        (message (codes "http.cors_allowed_origins contains an entry that names no host"))
    guard (not (has_more url)) (
        message (
          codes
            "http.cors_allowed_origins entries must contain only a scheme, host, and optional port"))
    guard (text_eq (canonical url) origin) (
        message (
          codes
            "http.cors_allowed_origins contains an entry that is not the spelling a browser sends; write "
          ++ debug_text (canonical url)))

  unfoldable pub validate_cors_origin : Text → Result ConfigError (Unit {0})
  validate_cors_origin origin = do
    guard (not (text_eq origin wildcard_origin)) (
        message (
          codes
            "http.cors_allowed_origins must not contain the wildcard `*`; name each allowed origin"))
    guard (not (is_empty origin))
        (message (codes "http.cors_allowed_origins must not contain a blank entry"))
    validate_parsed_origin origin (parse_url origin)

  -- `try_for_each`
  unfoldable pub validate_origins : List Text → Result ConfigError (Unit {0})
  validate_origins [] = ok tt
  validate_origins (origin ∷ rest) = validate_cors_origin origin >> validate_origins rest

  abbrev pub positive : ℕ → Text → Result ConfigError (Unit {0})
  positive n path = guard (ltb 0 n) (message (path ++ codes " must be greater than zero"))

  unfoldable pub validate_perimeter_limits : HttpSettings → Result ConfigError (Unit {0})
  validate_perimeter_limits settings = do
    positive settings.max_request_body_bytes (codes "http.max_request_body_bytes")
    positive settings.request_timeout_seconds (codes "http.request_timeout_seconds")
    positive settings.max_concurrent_requests (codes "http.max_concurrent_requests")
    positive settings.rate_limit_capacity (codes "http.rate_limit_capacity")
    positive settings.rate_limit_refill_per_second (codes "http.rate_limit_refill_per_second")
    positive settings.rate_limit_max_buckets (codes "http.rate_limit_max_buckets")
    guard (leb settings.max_concurrent_requests max_concurrent)
        (message (codes "http.max_concurrent_requests must be at most " ++ decimal max_concurrent))
    validate_origins settings.cors_allowed_origins

  -- The checks of `Settings::load_from`, once the settings are read.
  unfoldable pub validate_http : HttpSettings → Result ConfigError HttpSettings
  validate_http settings = do
    guard (not (is_empty (trim settings.host))) (message (codes "http.host must not be empty"))
    guard (not (settings.port == 0)) (
        message (
          codes
            "http.port must be between 1 and 65535; zero requests an arbitrary OS-assigned port"))
    validate_perimeter_limits settings
    ok settings

  unfoldable pub bind_address : HttpSettings → Text
  bind_address settings = settings.host ++ (codes ":" ++ decimal settings.port)

  abbrev pub names_database : Url → Bool
  names_database url =
      not (names_nothing url.host_str && is_empty (trim_matches (λ c. c == b'/') url.path))

  unfoldable pub validate_database_url : Option Url → Result ConfigError (Unit {0})
  validate_database_url none = err (message (codes "database.url is not a valid URL"))
  validate_database_url (some url) = do
    guard (any (text_eq url.scheme) (codes "postgres" ∷ codes "postgresql" ∷ []))
        (message (codes "database.url must use a postgres:// or postgresql:// scheme"))
    guard (names_database url) (message (codes "database.url must name a host or a database"))

  unfoldable pub validate_database_settings : DatabaseSettings → Result ConfigError (Unit {0})
  validate_database_settings settings = do
    guard (not (is_empty (trim settings.url)))
        (message (codes "database.url must be set to a PostgreSQL connection URL"))
    validate_database_url (parse_url settings.url)
    positive settings.max_connections (codes "database.max_connections")
    positive settings.acquire_timeout_seconds (codes "database.acquire_timeout_seconds")
    positive settings.statement_timeout_seconds (codes "database.statement_timeout_seconds")

  unfoldable pub validate_ingest_settings : IngestSettings → Result ConfigError (Unit {0})
  validate_ingest_settings settings = do
    positive settings.max_input_bytes (codes "ingest.max_input_bytes")
    positive settings.lock_timeout_seconds (codes "ingest.lock_timeout_seconds")
    positive settings.statement_timeout_seconds (codes "ingest.statement_timeout_seconds")
    guard (leb 2 settings.max_connections)
        (message (codes "ingest.max_connections must be at least two"))

  unfoldable pub validate_artifact_settings :
      IngestArtifactSettings → Result ConfigError IngestArtifactSettings
  validate_artifact_settings settings =
      positive settings.max_input_bytes (codes "ingest.max_input_bytes") >> ok settings
