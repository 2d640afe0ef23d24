-- ===== src/Config/Rates.antt =====
-- The limiters that the settings ask for: `RateLimitPolicy`, and `rateLimitConfig` of
-- internal/runtime/api/api.go.
use payments_boilerplate.Base.{
  ℕ, [], guard-true, ◌≡◌, refl, true, not, String, Option, none, some, suc, zero, arith, ok,
  bind-ok, guard-ok, leb, ltb, ◌/◌, Bool-cases, inl, inr,
}
use payments_boilerplate.Base.Int.{ℤ, pos, negsuc, ltb_ℤ, div64_ℤ, div64}
use payments_boilerplate.RateLimit.Bucket.{Policy}
use payments_boilerplate.RateLimit.Bucket as Bucket
use payments_boilerplate.RateLimit.Limiter.{Limiter}
use payments_boilerplate.RateLimit.Limiter as Limiter
use payments_boilerplate.Http.Limits.{RateLimitConfig, RateLimiters, new_rate_limiters}
use payments_boilerplate.Config.{Limit, Config, check_limit, check_capacity, validate_rate_limits}

abbrev pub to_ℕ : ℤ → ℕ
to_ℕ (pos n) = n
to_ℕ (negsuc n) = 0

-- A policy; a negative setting is refused like 0.
abbrev pub policy : Limit → Policy
policy l = record { burst = to_ℕ l.burst; interval = to_ℕ l.interval }

-- `RateLimitPolicy` and `rateLimitConfig`.
unfoldable pub rate_limit_config : Config → RateLimitConfig
rate_limit_config c = record {
  enabled = c.rate_limit_enabled;
  client = policy c.client;
  client_capacity = c.client_capacity;
  credential = policy c.credential;
  credential_capacity = c.credential_capacity;
  webhook = policy c.webhook;
  health = policy c.health;
  health_capacity = c.health_capacity;
  idle_ttl = c.idle_ttl;
}

positive_not : (n : ℕ) → ltb 0 n ≡ true → not (leb n 0) ≡ true
positive_not n h = ground arith

validate_policy :
    (name : String) (b i : ℤ)
    → check_limit name (record { burst = b; interval = i }) ≡ ok tt
    → Bucket.validate (policy (record { burst = b; interval = i })) ≡ ok tt
unfolding check_limit Bucket.validate div64_ℤ div64
validate_policy name (negsuc b) i h = absurd (cc h)
validate_policy name (pos b) (negsuc i) h = elim (Bool-cases (ltb b 1)) [
  | inl low ↦ absurd (cc (rw (check_limit, low) at h))
  | inr enough ↦ absurd (cc (rw (check_limit, enough) at h))
]
validate_policy name (pos b) (pos i) h =
    let (bursts, h1) = guard-ok (not (ltb b 1)) _ _ tt h in
    let (positive, h2) = guard-ok (ltb 0 i) _ _ tt h1 in
    let long = guard-true (ltb 0 (i / b)) _ h2 in
    rw (Bucket.validate, bursts, positive_not i positive, positive_not (i / b) long) refl

new-some :
    (name other : String) (l : Limit) (n ttl : ℤ)
    → check_limit name l ≡ ok tt
    → check_capacity other n ≡ ok tt
    → not (ltb_ℤ ttl (pos 0)) ≡ true
    → (m : Limiter) × (Limiter.new (policy l) n ttl ≡ ok m)
unfolding Limiter.new check_capacity
new-some name other l (pos zero) ttl h k t = absurd (cc k)
new-some name other l (negsuc n) ttl h k t = absurd (cc k)
new-some name other l (pos (suc n)) (negsuc ttl) h k t = absurd (cc t)
new-some name other l (pos (suc n)) (pos ttl) h k t = (
  record { policy = policy l; capacity = suc n; ttl = ttl; entries = [] },
  rw (Limiter.new, validate_policy name l.burst l.interval h) refl,
)

-- What the settings were tested for.
pub record IsLimited (c : Config) : Type 0 where
  pub client : check_limit "RATE_LIMIT_CLIENT" c.client ≡ ok tt
  pub credential : check_limit "RATE_LIMIT_CREDENTIAL" c.credential ≡ ok tt
  pub webhook : check_limit "RATE_LIMIT_WEBHOOK" c.webhook ≡ ok tt
  pub health : check_limit "RATE_LIMIT_HEALTH" c.health ≡ ok tt
  pub client_capacity : check_capacity "RATE_LIMIT_CLIENT_CAPACITY" c.client_capacity ≡ ok tt
  pub credential_capacity :
      check_capacity "RATE_LIMIT_CREDENTIAL_CAPACITY" c.credential_capacity ≡ ok tt
  pub health_capacity : check_capacity "RATE_LIMIT_HEALTH_CAPACITY" c.health_capacity ≡ ok tt
  pub idle_ttl : not (ltb_ℤ c.idle_ttl (pos 0)) ≡ true

pub validate-IsLimited : (c : Config) → validate_rate_limits c ≡ ok tt → IsLimited c
unfolding validate_rate_limits
validate-IsLimited c h =
    let (_, client, h1) = bind-ok (check_limit "RATE_LIMIT_CLIENT" c.client) _ tt h in
    let (_, credential, h2) = bind-ok (check_limit "RATE_LIMIT_CREDENTIAL" c.credential) _ tt h1 in
    let (_, webhook, h3) = bind-ok (check_limit "RATE_LIMIT_WEBHOOK" c.webhook) _ tt h2 in
    let (_, health, h4) = bind-ok (check_limit "RATE_LIMIT_HEALTH" c.health) _ tt h3 in
    let (_, n1, h5) =
      bind-ok (check_capacity "RATE_LIMIT_CLIENT_CAPACITY" c.client_capacity) _ tt h4 in
    let (_, n2, h6) =
      bind-ok (check_capacity "RATE_LIMIT_CREDENTIAL_CAPACITY" c.credential_capacity) _ tt h5 in
    let (_, n3, h7) =
      bind-ok (check_capacity "RATE_LIMIT_HEALTH_CAPACITY" c.health_capacity) _ tt h6 in
    let (ttl, _) = guard-ok (not (ltb_ℤ c.idle_ttl (pos 0))) _ _ tt h7 in
    record {
      client = client;
      credential = credential;
      webhook = webhook;
      health = health;
      client_capacity = n1;
      credential_capacity = n2;
      health_capacity = n3;
      idle_ttl = ttl;
    }

-- The settings that were tested make limiters.
pub IsLimited-some :
    (c : Config)
    → IsLimited c
    → (l : Option RateLimiters) × (new_rate_limiters (rate_limit_config c) true ≡ ok l)
unfolding new_rate_limiters rate_limit_config check_capacity
IsLimited-some c v = elim (Bool-cases c.rate_limit_enabled) [
  | inr off ↦ (none, rw (new_rate_limiters, off) refl)
  | inl on ↦
      let (m1, client) =
        new-some _ _ c.client c.client_capacity c.idle_ttl v.client v.client_capacity v.idle_ttl in
      let (m2, credential) =
        new-some _ _ c.credential c.credential_capacity c.idle_ttl v.credential
          v.credential_capacity v.idle_ttl in
      let (m3, webhook) =
        new-some _ "RATE_LIMIT_WEBHOOK" c.webhook (pos 1) c.idle_ttl v.webhook refl v.idle_ttl in
      let (m4, health) =
        new-some _ _ c.health c.health_capacity c.idle_ttl v.health v.health_capacity v.idle_ttl in
      (
        some (record { client = m1; credential = m2; webhook = m3; health = m4 }),
        rw (new_rate_limiters, on, client, credential, webhook, health) refl,
      )
]
