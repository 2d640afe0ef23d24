-- ===== src/Config/Startup.antt =====
-- What a process that started was told.
use payments_boilerplate.Base.{
  ◌≡◌, subst, Bool, true, String, List, Option, Result, ok, bind-ok, map_error,
}
use payments_boilerplate.Http.Address.{Prefix}
use payments_boilerplate.Http.Limits.{RateLimiters, new_rate_limiters}
use payments_boilerplate.Config.Proxies.{parse_trusted_proxies}
use payments_boilerplate.Config.Rates.{rate_limit_config, validate-IsLimited, IsLimited-some}
use payments_boilerplate.Config.{
  Config, Error, not_parsed, bad_proxy, with_address, check_process, check_outbox, check_consumer,
  check_telemetry, validate_rate_limits, load,
}

-- The tests that a loaded configuration has passed.
pub record IsLoaded (require_rabbitmq : Bool) (c : Config) : Type 0 where
  pub process : check_process require_rabbitmq c ≡ ok tt
  pub outbox : check_outbox c ≡ ok tt
  pub consumer : check_consumer require_rabbitmq c ≡ ok tt
  pub telemetry : check_telemetry c ≡ ok tt
  pub rates : validate_rate_limits c ≡ ok tt

same_config : (c d : Config) → Path (Result Error Config) (ok c) (ok d) → c ≡ d
same_config c d h = cc h

-- The parsed proxies are no part of what was tested.
IsLoaded-proxies :
    (b : Bool) (c : Config) (ps : List Prefix)
    → IsLoaded b c
    → IsLoaded b (record c { trusted_proxies = ps })
unfolding check_process check_outbox check_consumer check_telemetry validate_rate_limits
IsLoaded-proxies b c ps h = record {
  process = h.process;
  outbox = h.outbox;
  consumer = h.consumer;
  telemetry = h.telemetry;
  rates = h.rates;
}

pub load-IsLoaded :
    (parse_prefix : String → Option Prefix) (parsed : Result String Config) (address : String)
    (b : Bool) (d : Config)
    → load parse_prefix parsed address b ≡ ok d
    → IsLoaded b d
unfolding load
load-IsLoaded parse_prefix parsed address b d h =
    let (raw, _, h1) = bind-ok (map_error not_parsed parsed) _ d h in
    let (c, _, h2) = bind-ok (with_address address raw) _ d h1 in
    let (_, process, h3) = bind-ok (check_process b c) _ d h2 in
    let (_, outbox, h4) = bind-ok (check_outbox c) _ d h3 in
    let (_, consumer, h5) = bind-ok (check_consumer b c) _ d h4 in
    let (_, telemetry, h6) = bind-ok (check_telemetry c) _ d h5 in
    let (_, rates, h7) = bind-ok (validate_rate_limits c) _ d h6 in
    let (ps, _, h8) =
      bind-ok (map_error bad_proxy (parse_trusted_proxies parse_prefix c.trusted_proxy_cidrs)) _ d
        h7 in
    subst (IsLoaded b) (same_config (record c { trusted_proxies = ps }) d h8) (
      IsLoaded-proxies b c ps (record {
        process = process;
        outbox = outbox;
        consumer = consumer;
        telemetry = telemetry;
        rates = rates;
      }))

-- A configuration that was loaded builds the limiters: the API's server, which refuses a policy or a
-- capacity that is not valid, never refuses one of a process that started.
pub load-new_rate_limiters :
    (parse_prefix : String → Option Prefix) (parsed : Result String Config) (address : String)
    (b : Bool) (c : Config)
    → load parse_prefix parsed address b ≡ ok c
    → (l : Option RateLimiters) × (new_rate_limiters (rate_limit_config c) true ≡ ok l)
load-new_rate_limiters parse_prefix parsed address b c h =
    IsLimited-some c (validate-IsLimited c (load-IsLoaded parse_prefix parsed address b c h).rates)
