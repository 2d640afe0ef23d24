-- ===== src/Config/Tests.antt =====
-- The defaults of a worker, and the theorems at them.
use payments_boilerplate.Base.{
  ℕ, ◌-◌, ◌*◌, ◌≤◌, ◌≡◌, refl, true, false, String, [], ◌∷◌, Option, some, arith, ok, ◌==◌,
  trim_space,
}
use payments_boilerplate.Base.Int.{ℤ, pos, div64_ℤ, div64, ltb_ℤ}
use payments_boilerplate.Http.Address.{Prefix, v4}
use payments_boilerplate.Http.Limits.{RateLimiters, new_rate_limiters}
use payments_boilerplate.Broker.Retry.{RetryTier, tier_for}
use payments_boilerplate.Config.Proxies.{masked, parse_trusted_proxies}
use payments_boilerplate.Config.Rates.{rate_limit_config}
use payments_boilerplate.Config.Startup.{load-new_rate_limiters}
use payments_boilerplate.Config.Ladder.{retry_tiers, load-tier_for}
use payments_boilerplate.Config.Leased.{load-fits}
use payments_boilerplate.Config.{
  Config, publish_attempt_budget, settlement_reserve, minimum_lease, check_delays, check_limit,
  check_capacity, validate_rate_limits, with_address, check_outbox, check_consumer, check_process,
  check_telemetry, load,
}

abbrev minute : ℕ
minute = 60000000000

abbrev seconds : ℕ → ℤ
seconds n = pos (n * 1000000000)

abbrev raw : Config
raw = record {
  http_address = "";
  port = "8081";
  rabbitmq_url = "amqp://rabbitmq";
  database_max_open_connections = pos 10;
  database_max_idle_connections = pos 5;
  startup_timeout = seconds 30;
  shutdown_timeout = seconds 15;
  outbox_batch_size = pos 20;
  outbox_interval = seconds 1;
  outbox_lease_duration = pos (2 * minute);
  outbox_backoff_base = seconds 2;
  outbox_backoff_max = seconds 300;
  outbox_alert_after_attempts = pos 10;
  consumer_concurrency = pos 4;
  consumer_prefetch = pos 4;
  consumer_max_attempts = pos 10;
  consumer_retry_delays = seconds 5 ∷ seconds 30 ∷ seconds 120 ∷ seconds 600 ∷ [];
  metrics_sample_interval = seconds 15;
  metrics_sample_timeout = seconds 5;
  otel_enabled = false;
  otel_exporter_endpoint = "http://localhost:4318";
  trusted_proxy_cidrs = "10.1.2.3/8" ∷ "" ∷ [];
  trusted_proxies = [];
  rate_limit_enabled = true;
  client = record { burst = pos 1200; interval = pos minute };
  client_capacity = pos 10000;
  credential = record { burst = pos 600; interval = pos minute };
  credential_capacity = pos 64;
  webhook = record { burst = pos 600; interval = pos minute };
  health = record { burst = pos 120; interval = pos minute };
  health_capacity = pos 1000;
  idle_ttl = pos (10 * minute);
}

abbrev loaded : Config
loaded = record raw {
  http_address = ":8081";
  trusted_proxies = record { address = v4 167772160; bits = 8 } ∷ [];
}

abbrev parse_prefix : String → Option Prefix
parse_prefix s = some (record { address = v4 167838211; bits = 8 })

is_loaded : load parse_prefix (ok raw) ":8080" true ≡ ok loaded
unfolding load with_address check_process check_outbox check_consumer check_telemetry
    validate_rate_limits parse_trusted_proxies masked minimum_lease check_delays check_limit
    check_capacity div64_ℤ div64 trim_space ◌==◌
is_loaded = refl

load-new_rate_limiters_example :
    (l : Option RateLimiters) × (new_rate_limiters (rate_limit_config loaded) true ≡ ok l)
load-new_rate_limiters_example =
    load-new_rate_limiters parse_prefix (ok raw) ":8080" true loaded is_loaded

load-tier_for_example :
    let ts = retry_tiers loaded.consumer_retry_delays in
    (t : RetryTier) × (u : RetryTier) × (tier_for ts 2 ≡ some t)
    × (tier_for ts 9 ≡ some u)
    × (t.delay ≤ u.delay)
load-tier_for_example =
    load-tier_for parse_prefix (ok raw) ":8080" true loaded 2 9 is_loaded (omega arith)

load-fits_example :
    (lease : ℕ) × (loaded.outbox_lease_duration ≡ pos lease)
    × (20 * publish_attempt_budget ≤ lease - settlement_reserve)
load-fits_example =
    load-fits parse_prefix (ok raw) ":8080" true loaded 20 is_loaded refl (omega arith)

-- A batch whose product overflows asks for no lease at all.
overflows : ltb_ℤ (minimum_lease (pos 2000000000)) (pos 0) ≡ true
unfolding minimum_lease
overflows = refl
