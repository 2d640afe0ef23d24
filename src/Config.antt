-- ===== src/Config.antt =====
-- internal/platform/config/config.go: the settings of a process. What the env library reads of the
-- environment is an argument, and so are net/netip and net/url; the settings that nothing tests (texts for
-- logs and telemetry) are left out.
pub mod Proxies
pub mod Rates
pub mod Startup
pub mod Ladder
pub mod Leased
mod Tests
use Prim.Native.Char.{Char, code}
use Prim.Native.String.{◌++◌}
use payments_boilerplate.Base.{
  ℕ, ◌+◌, ◌*◌, Bool, true, false, ◌&&◌, ◌||◌, not, String, List, [], ◌∷◌, Option, none, some, eqb,
  ◌==◌, if◌then◌else◌, Result, ok, err, ◌>>=◌, ◌>>◌, guard, map_error,
}
use payments_boilerplate.Base.Int.{ℤ, pos, negsuc, is_positive, ltb_ℤ, wrap64, wrap64_neg, div64_ℤ}
use payments_boilerplate.Http.Address.{Prefix}
use payments_boilerplate.Config.Proxies.{ProxyError, parse_trusted_proxies}

-- A limit: a burst and the interval in which it refills.
pub record Limit : Type 0 where
  pub burst : ℤ
  pub interval : ℤ

-- `Config`; durations are in nanoseconds.
pub record Config : Type 0 where
  pub http_address : String
  pub port : String
  pub rabbitmq_url : String
  pub database_max_open_connections : ℤ
  pub database_max_idle_connections : ℤ
  pub startup_timeout : ℤ
  pub shutdown_timeout : ℤ
  pub outbox_batch_size : ℤ
  pub outbox_interval : ℤ
  pub outbox_lease_duration : ℤ
  pub outbox_backoff_base : ℤ
  pub outbox_backoff_max : ℤ
  pub outbox_alert_after_attempts : ℤ
  pub consumer_concurrency : ℤ
  pub consumer_prefetch : ℤ
  pub consumer_max_attempts : ℤ
  pub consumer_retry_delays : List ℤ
  pub metrics_sample_interval : ℤ
  pub metrics_sample_timeout : ℤ
  pub otel_enabled : Bool
  pub otel_exporter_endpoint : String
  pub trusted_proxy_cidrs : List String
  pub trusted_proxies : List Prefix
  pub rate_limit_enabled : Bool
  pub client : Limit
  pub client_capacity : ℤ
  pub credential : Limit
  pub credential_capacity : ℤ
  pub webhook : Limit
  pub health : Limit
  pub health_capacity : ℤ
  pub idle_ttl : ℤ

-- The reasons to refuse; each limiter's settings are told apart by their name.
pub data Error : Type 0 where
  not_parsed : String → Error
  bad_port no_rabbitmq_url bad_open_connections bad_idle_connections bad_timeouts : Error
  bad_batch_size bad_outbox_interval bad_alert bad_backoff backoff_max_below_base : Error
  lease_too_short bad_concurrency prefetch_too_small bad_max_attempts : Error
  no_retry_delays retry_delay_not_positive retry_delays_not_ascending : Error
  too_few_connections bad_sampling sampling_overlaps no_otel_endpoint : Error
  bad_burst bad_interval interval_too_short bad_capacity : String → Error
  bad_idle_ttl : Error
  idle_ttl_too_short : String → Error
  bad_proxy : ProxyError → Error

-- `PublishAttemptBudget`.
abbrev pub publish_attempt_budget : ℕ
publish_attempt_budget = 5000000000

-- `SettlementReserve` of internal/application/outbox.
abbrev pub settlement_reserve : ℕ
settlement_reserve = 5000000000

-- `minimumLease`, where the product and the sum wrap to 64 bits.
unfoldable pub minimum_lease : ℤ → ℤ
minimum_lease (pos n) = wrap64 (n * publish_attempt_budget + settlement_reserve)
minimum_lease (negsuc n) = wrap64_neg (n * publish_attempt_budget)

-- The loop over the retry delays, after the previous one.
unfoldable pub check_delays : ℤ → List ℤ → Result Error (Unit {0})
check_delays previous [] = ok tt
check_delays previous (d ∷ ds) = do
  guard (ltb_ℤ (pos 0) d) retry_delay_not_positive
  guard (ltb_ℤ previous d) retry_delays_not_ascending
  check_delays d ds

abbrev pub some_delays : List ℤ → Bool
some_delays [] = false
some_delays (d ∷ ds) = true

-- One turn of the loop over the limits.
unfoldable pub check_limit : String → Limit → Result Error (Unit {0})
check_limit name l = do
  guard (not (ltb_ℤ l.burst (pos 1))) (bad_burst name)
  guard (ltb_ℤ (pos 0) l.interval) (bad_interval name)
  guard (ltb_ℤ (pos 0) (div64_ℤ l.interval l.burst)) (interval_too_short name)

unfoldable pub check_capacity : String → ℤ → Result Error (Unit {0})
check_capacity name n = guard (not (ltb_ℤ n (pos 1))) (bad_capacity name)

abbrev pub outlasts : ℤ → String → Limit → Result Error (Unit {0})
outlasts ttl name l = guard (not (ltb_ℤ ttl l.interval)) (idle_ttl_too_short name)

-- A bucket that still refills is not reclaimed.
abbrev pub check_ttl : Config → Result Error (Unit {0})
check_ttl c = if not (ltb_ℤ (pos 0) c.idle_ttl) then ok tt else (do
  outlasts c.idle_ttl "RATE_LIMIT_CLIENT" c.client
  outlasts c.idle_ttl "RATE_LIMIT_CREDENTIAL" c.credential
  outlasts c.idle_ttl "RATE_LIMIT_WEBHOOK" c.webhook
  outlasts c.idle_ttl "RATE_LIMIT_HEALTH" c.health)

-- `validateRateLimits`.
unfoldable pub validate_rate_limits : Config → Result Error (Unit {0})
unfolding check_limit check_capacity
validate_rate_limits c = do
  check_limit "RATE_LIMIT_CLIENT" c.client
  check_limit "RATE_LIMIT_CREDENTIAL" c.credential
  check_limit "RATE_LIMIT_WEBHOOK" c.webhook
  check_limit "RATE_LIMIT_HEALTH" c.health
  check_capacity "RATE_LIMIT_CLIENT_CAPACITY" c.client_capacity
  check_capacity "RATE_LIMIT_CREDENTIAL_CAPACITY" c.credential_capacity
  check_capacity "RATE_LIMIT_HEALTH_CAPACITY" c.health_capacity
  guard (not (ltb_ℤ c.idle_ttl (pos 0))) bad_idle_ttl
  check_ttl c

-- `strings.Contains(value, ":")`.
abbrev pub has_colon : String → Bool
has_colon String.[] = false
has_colon (String.◌∷◌ c s) = eqb (code c) b':' || has_colon s

-- The address to listen on.
unfoldable pub with_address : String → Config → Result Error Config
with_address default_address c =
    if not (c.port == "")
    then (if has_colon c.port then err bad_port else ok (record c { http_address = ":" ++ c.port }))
    else ok (if c.http_address == "" then record c { http_address = default_address } else c)

-- `ConsumerConcurrency + relayAndHealthConnections`, of a number that is positive.
abbrev pub plus_two : ℤ → ℤ
plus_two (pos n) = wrap64 (n + 2)
plus_two (negsuc n) = negsuc n

-- The tests of the outbox's settings.
unfoldable pub check_outbox : Config → Result Error (Unit {0})
unfolding minimum_lease
check_outbox c = do
  guard (not (ltb_ℤ c.outbox_batch_size (pos 1))) bad_batch_size
  guard (ltb_ℤ (pos 0) c.outbox_interval) bad_outbox_interval
  guard (not (ltb_ℤ c.outbox_alert_after_attempts (pos 1))) bad_alert
  guard (ltb_ℤ (pos 0) c.outbox_backoff_base && ltb_ℤ (pos 0) c.outbox_backoff_max) bad_backoff
  guard (not (ltb_ℤ c.outbox_backoff_max c.outbox_backoff_base)) backoff_max_below_base
  guard (not (ltb_ℤ c.outbox_lease_duration (minimum_lease c.outbox_batch_size))) lease_too_short

-- The tests of the consumer's settings.
unfoldable pub check_consumer : Bool → Config → Result Error (Unit {0})
unfolding check_delays
check_consumer require_rabbitmq c = do
  guard (not (ltb_ℤ c.consumer_concurrency (pos 1))) bad_concurrency
  guard (not (ltb_ℤ c.consumer_prefetch c.consumer_concurrency)) prefetch_too_small
  guard (not (ltb_ℤ c.consumer_max_attempts (pos 2))) bad_max_attempts
  guard (some_delays c.consumer_retry_delays) no_retry_delays
  check_delays (pos 0) c.consumer_retry_delays
  guard
      (not (
        require_rabbitmq
        && ltb_ℤ c.database_max_open_connections (plus_two c.consumer_concurrency)))
      too_few_connections

-- The tests of the database's settings and of the process's.
unfoldable pub check_process : Bool → Config → Result Error (Unit {0})
check_process require_rabbitmq c = do
  guard (not (require_rabbitmq && (c.rabbitmq_url == ""))) no_rabbitmq_url
  guard (not (ltb_ℤ c.database_max_open_connections (pos 1))) bad_open_connections
  guard
      (not (
        ltb_ℤ c.database_max_idle_connections (pos 0)
        || ltb_ℤ c.database_max_open_connections c.database_max_idle_connections))
      bad_idle_connections
  guard (ltb_ℤ (pos 0) c.startup_timeout && ltb_ℤ (pos 0) c.shutdown_timeout) bad_timeouts

-- The tests of what is measured.
unfoldable pub check_telemetry : Config → Result Error (Unit {0})
check_telemetry c = do
  guard (ltb_ℤ (pos 0) c.metrics_sample_interval && ltb_ℤ (pos 0) c.metrics_sample_timeout)
      bad_sampling
  guard (ltb_ℤ c.metrics_sample_timeout c.metrics_sample_interval) sampling_overlaps
  guard (not (c.otel_enabled && (c.otel_exporter_endpoint == ""))) no_otel_endpoint

-- `Load`, of what was parsed.
unfoldable pub load :
    (String → Option Prefix) → Result String Config → String → Bool → Result Error Config
unfolding with_address check_process check_outbox check_consumer check_telemetry
    validate_rate_limits parse_trusted_proxies
load parse_prefix parsed default_address require_rabbitmq = do
  raw ← map_error not_parsed parsed
  c ← with_address default_address raw
  check_process require_rabbitmq c
  check_outbox c
  check_consumer require_rabbitmq c
  check_telemetry c
  validate_rate_limits c
  proxies ← map_error bad_proxy (parse_trusted_proxies parse_prefix c.trusted_proxy_cidrs)
  ok (record c { trusted_proxies = proxies })
