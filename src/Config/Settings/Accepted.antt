-- ===== src/Config/Settings/Accepted.antt =====
-- The settings that crates/aircraft_config/src/settings/structs.rs accepts.
use Prim.Native.Nat.{ℕ, ◌≤◌, ◌<◌, ◌-◌, ◌^◌}
use mathlib.Core.Path.{◌≡◌, refl, ap, ◌∙◌}
use mathlib.Core.Bool.{not}
use mathlib.Core.Logic.{◌≢◌, ◌↔◌}
use mathlib.Core.Option.{Option, none, some}
use mathlib.Core.List.{List, [], ◌∷◌}
use aircraft_api_r.Prelude.{arith, ok, err_ne_ok, All, ◌==◌}
use aircraft_api_r.Prelude.Text.{Text, codes, is_empty, text_eq, text_eq_iff}
use aircraft_api_r.Prelude.Text.Search.{trim, strip_suffix}
use aircraft_api_r.Prelude.Text.Trimmed.{strip_suffix-StripsTo}
use aircraft_api_r.RateLimit.Quota
use aircraft_api_r.Config.Settings.{
  HttpSettings, Url, wildcard_origin, canonical, validate_parsed_origin, validate_cors_origin,
  validate_origins, validate_perimeter_limits, validate_http,
}
use aircraft_api_r.Config.Settings.Guards.{
  guard-ok_iff, >>-ok_iff, text_ne_iff, not_empty_iff, not-true_iff,
}
use aircraft_api_r.Config.Settings.Origin.{
  HasNothingElse, NamesHost, IsSpelling, IsBlank, has_more_iff, named_host_iff, spelling,
  IsBlank-iff,
}

module _ (parse_url : Text → Option Url) (debug_text : Text → Text) where
  -- An origin as a browser sends it: a scheme, a host, perhaps a port, in the spelling of the URL.
  abbrev pub IsOrigin : Text → Type 0
  IsOrigin origin =
      (origin ≢ codes "*")
      × (origin ≢ [])
      × (url : Url) × (parse_url origin ≡ some url)
      × NamesHost url
      × HasNothingElse url
      × IsSpelling url.text origin

  abbrev pub IsServable : HttpSettings → Type 0
  IsServable s =
      ¬ IsBlank s.host
      × (0 < s.port)
      × (0 < s.max_request_body_bytes)
      × (0 < s.request_timeout_seconds)
      × (0 < s.max_concurrent_requests)
      × (s.max_concurrent_requests ≤ 2 ^ 61 - 1)
      × (0 < s.rate_limit_capacity)
      × (0 < s.rate_limit_refill_per_second)
      × (0 < s.rate_limit_max_buckets)
      × All IsOrigin s.cors_allowed_origins

  parsed_origin_iff :
      (origin : Text) (url : Url)
      → (validate_parsed_origin parse_url debug_text origin (some url) ≡ ok tt)
        ↔ (NamesHost url × HasNothingElse url × IsSpelling url.text origin)
  unfolding validate_parsed_origin
  parsed_origin_iff origin url =
      let same = text_eq_iff (canonical url) origin in
      let spelled =
        spelling url.text origin (strip_suffix b'/' url.text)
          (strip_suffix-StripsTo b'/' url.text) in
      let named = named_host_iff url in
      let alone = has_more_iff parse_url debug_text url in
      (
        (λ h. (
          named.0 (ground (arith, h)),
          alone.0 (ground (arith, h)),
          spelled.0 (ground (arith, h, same)),
        )),
        λ (n, a, s). ground (arith, same, named.1 n, alone.1 a, spelled.1 s),
      )

  unparsed : (origin : Text) → validate_parsed_origin parse_url debug_text origin none ≡ ok tt → ⊥
  unfolding validate_parsed_origin
  unparsed origin h = err_ne_ok h

  validate_cors_origin_iff :
      (origin : Text) → (validate_cors_origin parse_url debug_text origin ≡ ok tt) ↔ IsOrigin origin
  unfolding validate_cors_origin
  validate_cors_origin_iff origin =
      let named = guard-ok_iff (not (text_eq origin wildcard_origin)) _ _ tt in
      let filled = guard-ok_iff (not (is_empty origin)) _ _ tt in
      let different = text_ne_iff origin wildcard_origin in
      let full = not_empty_iff origin in
      (
        (λ h.
            let (n, rest) = named.0 h in
            let (f, parsed) = filled.0 rest in
            let (url, e, host, more, same) = found (parse_url origin) refl parsed in
            (different.0 n, full.0 f, url, e, host, more, same)),
        λ (n, f, url, e, host, more, same). named.1 (
          different.1 n,
          filled.1 (
            full.1 f,
            ap (validate_parsed_origin parse_url debug_text origin) e
                ∙ (parsed_origin_iff origin url).1 (host, more, same),
          ),
        ),
      )
    where
      found :
          (o : Option Url)
          → parse_url origin ≡ o
          → validate_parsed_origin parse_url debug_text origin o ≡ ok tt
          → (url : Url) × (parse_url origin ≡ some url)
            × NamesHost url
            × HasNothingElse url
            × IsSpelling url.text origin
      found none e h = absurd (unparsed origin h)
      found (some url) e h =
          let (host, more, same) = (parsed_origin_iff origin url).0 h in (url, e, host, more, same)

  validate_origins_iff :
      (origins : List Text)
      → (validate_origins parse_url debug_text origins ≡ ok tt) ↔ All IsOrigin origins
  unfolding validate_origins
  validate_origins_iff [] = (λ h. tt, λ h. refl)
  validate_origins_iff (origin ∷ rest) =
      let first =
        >>-ok_iff (validate_cors_origin parse_url debug_text origin)
          (validate_origins parse_url debug_text rest) tt in
      let one = validate_cors_origin_iff origin in
      let others = validate_origins_iff rest in
      (
        (λ h. let (f, r) = first.0 h in (one.0 f, others.0 r)),
        λ (f, r). first.1 (one.1 f, others.1 r),
      )

  perimeter_iff :
      (s : HttpSettings)
      → (validate_perimeter_limits parse_url debug_text s ≡ ok tt) ↔ (
          (0 < s.max_request_body_bytes)
          × (0 < s.request_timeout_seconds)
          × (0 < s.max_concurrent_requests)
          × (0 < s.rate_limit_capacity)
          × (0 < s.rate_limit_refill_per_second)
          × (0 < s.rate_limit_max_buckets)
          × (s.max_concurrent_requests ≤ 2 ^ 61 - 1)
          × (validate_origins parse_url debug_text s.cors_allowed_origins ≡ ok tt))
  unfolding validate_perimeter_limits
  perimeter_iff s = ground arith

  quota_iff :
      (capacity refill : ℕ)
      → (Quota.new capacity refill
          ≡ ok (record { capacity = capacity; refill_per_second = refill }))
        ↔ ((0 < capacity) × (0 < refill))
  unfolding Quota.new
  quota_iff capacity refill = ground arith

  -- Settings of the server that were read are accepted exactly when the host is not blank, the
  -- port and the limits are positive, the bound on concurrent requests is at most 2^61 - 1, and
  -- each allowed origin is not empty, is no wildcard, and is the text of a URL, without the slash
  -- it may end with, that has a host, the path `/`, and no query, fragment, user name or
  -- password; and the capacity and the refill rate are positive exactly when the rate limiter
  -- makes a quota of them.
  pub validate_http_iff :
      (s : HttpSettings)
      → ((validate_http parse_url debug_text s ≡ ok s) ↔ IsServable s)
        × ((Quota.new s.rate_limit_capacity s.rate_limit_refill_per_second
              ≡ ok (record {
                capacity = s.rate_limit_capacity;
                refill_per_second = s.rate_limit_refill_per_second;
              }))
            ↔ ((0 < s.rate_limit_capacity) × (0 < s.rate_limit_refill_per_second)))
  unfolding validate_http
  validate_http_iff s =
      let host = guard-ok_iff (not (is_empty (trim s.host))) _ _ s in
      let port = guard-ok_iff (not (s.port == 0)) _ _ s in
      let last = >>-ok_iff (validate_perimeter_limits parse_url debug_text s) (ok s) s in
      let limits = perimeter_iff s in
      let origins = validate_origins_iff s.cors_allowed_origins in
      let quota = quota_iff s.rate_limit_capacity s.rate_limit_refill_per_second in
      let named = not-true_iff (is_empty (trim s.host)) in
      let blank = IsBlank-iff s.host in
      let numbered = not-true_iff (s.port == 0) in
      (
        (
          (λ h.
              let (n, rest) = host.0 h in
              let (p, more) = port.0 rest in
              let (body, timeout, some_requests, capacity, refill, buckets, bounded, all) =
                limits.0 (last.0 more).0 in
              (
                blank.0 (named.0 n),
                ground (arith, p),
                body,
                timeout,
                some_requests,
                bounded,
                capacity,
                refill,
                buckets,
                origins.0 all,
              )),
          λ (n, p, body, timeout, some_requests, bounded, capacity, refill, buckets, all). host.1 (
            named.1 (blank.1 n),
            port.1 (
              ground (arith, p),
              last.1 (
                limits.1 (
                  body,
                  timeout,
                  some_requests,
                  capacity,
                  refill,
                  buckets,
                  bounded,
                  origins.1 all,
                ),
                refl,
              ),
            ),
          ),
        ),
        quota,
      )
