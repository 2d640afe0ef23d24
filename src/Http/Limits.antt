-- ===== src/Http/Limits.antt =====
-- internal/transport/http/ratelimit.go and auth.go: the gates in front of an operation. Each limiter reads
-- the clock once for a call, and its reading is an argument; the text of a prefix is one too.
use payments_boilerplate.Base.{
  ℕ, Bool, true, false, ◌||◌, not, String, List, [], ◌∷◌, Option, none, some, ◌==◌, if◌then◌else◌,
  has_prefix, Result, ok, err, ◌>>=◌, map_error,
}
use payments_boilerplate.Base.Int.{ℤ, pos}
use payments_boilerplate.RateLimit.Bucket.{Policy, Decision}
use payments_boilerplate.RateLimit.Limiter.{Limiter, allow}
use payments_boilerplate.RateLimit.Limiter as Limiter
use payments_boilerplate.Http.Address.{Address, Prefix, client_bucket}
use payments_boilerplate.Http.Responses.{
  Failure, not_authenticated, over_limit, webhook_path, health_path,
}

pub data RouteClass : Type 0 where
  class_health class_docs class_business class_operations class_webhook : RouteClass

-- Which limiter refused.
pub data LimiterName : Type 0 where
  limiter_client limiter_credential limiter_webhook limiter_health : LimiterName

-- `RateLimitConfig`, less its clock.
pub record RateLimitConfig : Type 0 where
  pub enabled : Bool
  pub client : Policy
  pub client_capacity : ℤ
  pub credential : Policy
  pub credential_capacity : ℤ
  pub webhook : Policy
  pub health : Policy
  pub health_capacity : ℤ
  pub idle_ttl : ℤ

-- The state of `rateLimiters`.
pub record RateLimiters : Type 0 where
  pub client : Limiter
  pub credential : Limiter
  pub webhook : Limiter
  pub health : Limiter

pub data Error : Type 0 where
  no_fingerprinter : Error
  bad_limiter : LimiterName → Limiter.Error → Error

-- `newRateLimiters`, with a fingerprinter or without; `none` where limiting is off.
unfoldable pub new_rate_limiters : RateLimitConfig → Bool → Result Error (Option RateLimiters)
new_rate_limiters cfg has_fingerprinter =
    if not cfg.enabled
    then ok none
    else (if not has_fingerprinter then err no_fingerprinter else (do
      client ←
          map_error (bad_limiter limiter_client)
            (Limiter.new cfg.client cfg.client_capacity cfg.idle_ttl)
      credential ←
          map_error (bad_limiter limiter_credential)
            (Limiter.new cfg.credential cfg.credential_capacity cfg.idle_ttl)
      webhook ←
          map_error (bad_limiter limiter_webhook) (Limiter.new cfg.webhook (pos 1) cfg.idle_ttl)
      health ←
          map_error (bad_limiter limiter_health)
            (Limiter.new cfg.health cfg.health_capacity cfg.idle_ttl)
      ok (
          some (record {
            client = client;
            credential = credential;
            webhook = webhook;
            health = health;
          }))))

abbrev pub global_webhook_key : String
global_webhook_key = "webhook"

-- What a gate decides: the limiters after it, and what it refused.
pub record Passage : Type 0 where
  pub limiters : RateLimiters
  pub decision : Decision
  pub rejected : List (LimiterName × RouteClass)

abbrev pub observe : Decision → LimiterName → RouteClass → List (LimiterName × RouteClass)
observe d name class = if d.allowed then [] else (name, class) ∷ []

abbrev pub is_health : RouteClass → Bool
is_health class_health = true
is_health _ = false

-- `allowClient`.
unfoldable pub allow_client : (Prefix → String) → RateLimiters → Address → RouteClass → ℕ → Passage
unfolding allow client_bucket
allow_client key l address class now =
    if is_health class
    then (let (health, d) = allow l.health (key (client_bucket address)) now in
        record {
          limiters = record l { health = health };
          decision = d;
          rejected = observe d limiter_health class;
        })
    else (let (client, d) = allow l.client (key (client_bucket address)) now in
        record {
          limiters = record l { client = client };
          decision = d;
          rejected = observe d limiter_client class;
        })

-- `allowWebhook`.
unfoldable pub allow_webhook : RateLimiters → ℕ → Passage
unfolding allow
allow_webhook l now =
    let (webhook, d) = allow l.webhook global_webhook_key now in
    record {
      limiters = record l { webhook = webhook };
      decision = d;
      rejected = observe d limiter_webhook class_webhook;
    }

abbrev pub unlimited : RateLimiters → Passage
unlimited l = record {
  limiters = l;
  decision = record { allowed = true; retry_after = 0 };
  rejected = [];
}

-- `allowCredential`, of a credential's fingerprint, if it has one.
unfoldable pub allow_credential : RateLimiters → Option String → RouteClass → ℕ → Passage
unfolding allow
allow_credential l none class now = unlimited l
allow_credential l (some fingerprint) class now =
    let (credential, d) = allow l.credential fingerprint now in
    record {
      limiters = record l { credential = credential };
      decision = d;
      rejected = observe d limiter_credential class;
    }

-- `coarseRouteClass`.
unfoldable pub coarse_route_class : String → RouteClass
coarse_route_class path =
    if path == health_path
    then class_health
    else (if path == webhook_path
        then class_webhook
        else (if (path == "/docs") || ((path == "/openapi.yaml") || has_prefix path "/docs/")
            then class_docs
            else class_business))

-- `clientRateLimitMiddleware` in front of a process that limits; an address that is not known is not
-- counted.
abbrev pub coarse_gate :
    (Prefix → String) → RateLimiters → RouteClass → Option Address → ℕ → Passage
coarse_gate key l class_webhook address now = allow_webhook l now
coarse_gate key l class none now = unlimited l
coarse_gate key l class (some address) now = allow_client key l address class now

-- `routeClassFor`.
unfoldable pub route_class_for : String → RouteClass
route_class_for operation =
    if operation == "GetHealth"
    then class_health
    else (if operation == "ReceiveStripeWebhook"
        then class_webhook
        else (if (operation == "ListWebhookEvents") || (operation == "ReprocessWebhookEvent")
            then class_operations
            else class_business))

-- `operationRateLimitMiddleware`.
unfoldable pub operation_gate : RateLimiters → RouteClass → Option String → ℕ → Passage
unfolding allow_credential
operation_gate l class_business fingerprint now = allow_credential l fingerprint class_business now
operation_gate l class_operations fingerprint now =
    allow_credential l fingerprint class_operations now
operation_gate l _ fingerprint now = unlimited l

-- `publicOperation`.
unfoldable pub public_operation : String → Bool
public_operation operation = (operation == "GetHealth") || (operation == "ReceiveStripeWebhook")

-- `apiKeyAuthenticationMiddleware` around what comes next; a process without a verifier has none.
unfoldable pub authenticated :
    {A S : Type 0} → String → Option Bool → (S → Result Failure A × S) → S → Result Failure A × S
unfolding public_operation
authenticated operation credential_valid next x =
    if public_operation operation then next x else elim credential_valid [
      | none ↦ (err not_authenticated, x)
      | some v ↦ if not v then (err not_authenticated, x) else next x
    ]

-- An operation behind both of its middlewares, the limit outermost.
unfoldable pub strict :
    {A S : Type 0}
    → Option RateLimiters
    → String
    → Option String
    → Option Bool
    → ℕ
    → (S → Result Failure A × S)
    → S
    → Result Failure A × (Option RateLimiters × S)
unfolding operation_gate route_class_for authenticated
strict none operation fingerprint credential_valid now next x =
    let r = authenticated operation credential_valid next x in (r.0, (none, r.1))
strict (some l) operation fingerprint credential_valid now next x =
    let p = operation_gate l (route_class_for operation) fingerprint now in
    let r = authenticated operation credential_valid next x in
    if not p.decision.allowed
    then (err (over_limit p.decision.retry_after), (some p.limiters, x))
    else (r.0, (some p.limiters, r.1))
