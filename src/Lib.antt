-- ===== src/Lib.antt =====
-- Verification of the aircraft API: the rate limiter, the credential services, route policies,
-- problem documents, the ingestion of PlanePHD documents, keyset pages and measured facts.
--
-- The program is a Rust workspace. crates/aircraft_domain holds values with invariants,
-- crates/aircraft_app the services, which reach the database through ports (traits),
-- crates/aircraft_api the HTTP perimeter, crates/aircraft_ingest the adapter of a source, and
-- crates/aircraft_db the SQL behind the ports. An import captures its input (artifact.rs), runs the
-- preflight over its normalized records (planephd.rs, normalization.rs), and hands the same records
-- to the ingestion service, which stages them and compares them with the preflight. A request
-- for a scoped route goes through `Policed::call`: its credential is parsed and resolved
-- (authentication.rs of both crates), the rate limiter spends one of the principal's tokens, the
-- scopes are compared, and only then the handler runs; every refusal is a problem document.
--
-- What models what, by file:
--   RateLimit    crates/aircraft_api/src/rate_limit.rs. Quota, Policy and Policy/Entry read the
--                configuration (`Quota::new`, `RateLimitPolicy::new`, `quota_for`); Bucket is the
--                arithmetic of one bucket (`refill`, `is_full_at`); Limiter is `admit` and `spend`
--                with its eviction. History runs a sequence of calls. The other files hold proofs.
--   App/Auth     crates/aircraft_app/src/services/authentication.rs and credential_issuance.rs.
--                Scope is the scope vocabulary; Credential is `CredentialCandidate::parse`;
--                Authentication is `AuthenticationService::authenticate`; Issuance is
--                `IssueCredential::new` and `CredentialIssuanceService::issue`; Redaction is
--                `redact_digest_runs`.
--   App          Persistence holds `PersistenceError` and `hex_digest` of services/ingestion.rs;
--                Pagination is crates/aircraft_app/src/pagination.rs, and Pagination/Scan the loop
--                of a caller that follows the resume keys.
--   App/Ingestion  crates/aircraft_app/src/services/ingestion.rs: Types holds its values, Service
--                `import`, `consume_records` and the audit of failures, and its children the proofs.
--                Record is the record of an aircraft.
--   Ingest       crates/aircraft_ingest/src. normalization.rs is Vocabulary (metrics, units and their
--                dimensions), Costs, Prose, Scalars, Fields, Names, Items, Images, Stated and
--                Normalize, which holds `normalize_record`; Noted is a value with the issues raised on
--                the way. Artifact is artifact.rs, and Planephd the adapter of planephd.rs. The
--                children hold the proofs; Planephd/Completed joins the preflight with the ingestion
--                service.
--   Api          Problem, Problem/Instance and Problem/Response are crates/aircraft_api/src/problem.rs;
--                Bearer, Cursor and Shutdown are authentication.rs, pagination.rs and shutdown.rs
--                beside it; Policed and Policed/Inventory are routes/mod.rs.
--   Domain       Catalog and Reference are catalog.rs and reference.rs of crates/aircraft_domain/src.
--                Measurement is crates/aircraft_domain/src/measurement.rs: decimals and unit codes,
--                the condition vocabularies, and `Measurement::new`; ProductionYears and Confidence are
--                ingestion.rs beside it.
--   Config       Settings holds the checks of crates/aircraft_config/src/settings/structs.rs;
--                the children hold the proofs.
--   Prelude      Results, tests on numbers, lists, dictionaries, text, integers and JSON.
--
-- Conventions. A fallible function returns `Result`; a method that changes its object returns the new
-- one. The limiter's mutex makes each call one step, so a history is a list of calls. An asynchronous
-- port is a function; where it changes the outside world, it takes the world's state and returns the
-- next one; the reader of an import is the list of its answers, and the reads of an input are a list.
-- `Instant` is a number of nanoseconds. Machine integers are numbers with their saturation or their
-- overflow written out, save the 64-bit counters of records and warnings, which are not bounded. An
-- `f32` is its bit pattern. Text is a list of code points, and its length in bytes is `len`. A hash
-- map or set is an association list or a list. The list of issues that the normalizer's helpers push
-- to is the second component of what they return. Trace events are left out.
--
-- Not under the sources, and so parameters: SHA-256 and the constant-time comparison (`Digests`, with
-- the law that the comparison is equality), the UUID type (`Uuids`, whose text is 36 bytes without an
-- underscore that its parser reads back), the random source and the credential store
-- (`IssuancePorts`, `PortLaws`), the store and unit of work of an import (`IngestionPorts`), the
-- lookup of credentials, the parser of URIs and the text of a header's value (`Platform`), the text of
-- a JSON value, the URL type and SHA-256 over text (`Formats`), what serde_json reads of a file,
-- the temporary files of the system (`Disk`), base64 and JSON of a cursor (`Wire`), and the settings
-- as they are read. A number of a JSON document is the text that it prints as, and an object its
-- entries in the order of the map.
--
-- Fuel. Only the loop of Pagination/Scan has any: one more than the number of rows is enough, since
-- each page but the last has a row.
--
-- Not modelled: the SQL of crates/aircraft_db (of which only the outcome of a staged record is used), the axum router with its layers and handlers, the
-- OpenAPI document, the reading of settings, tracing, the bounded channel between the parser's thread
-- and the import, and so far the curation and catalogue services and the correlation identifiers of
-- the API.
mod Prelude
pub mod RateLimit
pub mod Domain
pub mod App
pub mod Api
pub mod Ingest
pub mod Config
