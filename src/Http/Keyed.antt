-- ===== src/Http/Keyed.antt =====
-- Which keys the limiters hold buckets for.
use mathlib.Core.List.Memᴰ.{Memᴰ, head, tail}
use payments_boilerplate.Base.{
  true, ℕ, ◌≡◌, inl, inr, refl, String, List, [], ◌∷◌, All, Option, none, some, Bool-cases,
}
use payments_boilerplate.RateLimit.Bucket.{Bucket}
use payments_boilerplate.RateLimit.Limiter.{
  Entry, Limiter, expire, evict_if_full, lookup, touch, allow,
}
use payments_boilerplate.RateLimit.Kept.{Sub-All, expire-Sub, evict-Sub, without-Sub}
use payments_boilerplate.Auth.{
  ApiKeyVerifier, Bytes, Mac, constant_time_compare, any_tag, valid, fingerprint,
}
use payments_boilerplate.Auth.Configured.{compare-eq}
use payments_boilerplate.Ids.{encode_to_string}
use payments_boilerplate.Http.Address.{Address, Prefix}
use payments_boilerplate.Http.Limits.{
  RateLimiters, RouteClass, class_health, class_docs, class_business, class_operations,
  class_webhook, global_webhook_key, allow_client, allow_webhook, allow_credential, is_health,
  coarse_gate, operation_gate, route_class_for,
}

abbrev Keys : (String → Type 0) → Limiter → Type 0
Keys P l = All (λ (e : Entry). P e.key) l.entries

touch-Keys :
    (P : Entry → Type 0) (l : Limiter) (key : String) (now : ℕ) (es : List Entry)
    (o : Option Bucket)
    → All P es
    → All P (touch l key now es o).1
unfolding touch evict_if_full
touch-Keys P l key now es none h = Sub-All P (evict-Sub _ l.capacity es) h
touch-Keys P l key now es (some b) h = Sub-All P (without-Sub key es) h

-- A call adds no key but its own.
allow-Keys :
    (P : String → Type 0) (l : Limiter) (key : String) (now : ℕ)
    → P key
    → Keys P l
    → Keys P (allow l key now).0
unfolding allow
allow-Keys P l key now this h =
    let es = expire l.ttl now l.entries in
    (
      this,
      touch-Keys (λ (e : Entry). P e.key) l key now es (lookup key es)
          (Sub-All (λ (e : Entry). P e.key) (expire-Sub l.ttl now l.entries) h),
    )

-- The name of a credential's bucket is the tag of a configured key, in hexadecimal digits.
abbrev pub IsKeyTag : ApiKeyVerifier → String → Type 0
IsKeyTag v name = (tag : Bytes) × Memᴰ tag v.tags × (name ≡ encode_to_string tag)

any_tag-mem : (tag : Bytes) (tags : List Bytes) → any_tag tag tags ≡ true → Memᴰ tag tags
unfolding any_tag
any_tag-mem tag [] h = absurd (cc h)
any_tag-mem tag (t ∷ ts) h = elim (Bool-cases (constant_time_compare tag t)) [
  | inl same ↦ head (compare-eq tag t same)
  | inr other ↦ tail (any_tag-mem tag ts (rw other at h))
]

-- Only a configured key has a fingerprint.
fingerprint-IsKeyTag :
    (mac : Mac) (v : ApiKeyVerifier) (credential name : String)
    → fingerprint mac v credential ≡ some name
    → IsKeyTag v name
unfolding fingerprint valid
fingerprint-IsKeyTag mac v credential name h = elim (Bool-cases (valid mac v credential)) [
  | inr unknown ↦ absurd (cc (rw (fingerprint, unknown) at h))
  | inl known ↦
      let is_tag : some (encode_to_string (mac v.secret credential)) ≡ some name =
        rw (fingerprint, known) at h in
      (mac v.secret credential, any_tag-mem _ v.tags known, cc is_tag)
]

-- Credentials are counted by the tags of configured keys alone, and webhooks under one key.
pub record IsKeyed (v : ApiKeyVerifier) (l : RateLimiters) : Type 0 where
  pub credentials : Keys (IsKeyTag v) l.credential
  pub webhooks : Keys (λ key. key ≡ global_webhook_key) l.webhook

-- What one request does to the limiters: the gate in front of the routes, and that of its operation.
pub data Request : Type 0 where
  arrives : RouteClass → Option Address → Request
  calls : String → String → Request

abbrev pub serve :
    Mac → ApiKeyVerifier → (Prefix → String) → RateLimiters → Request × ℕ → RateLimiters
serve mac v text l (arrives class address, now) = (coarse_gate text l class address now).limiters
serve mac v text l (calls operation credential, now) =
    (operation_gate l (route_class_for operation) (fingerprint mac v credential) now).limiters

unfoldable pub serve_all :
    Mac → ApiKeyVerifier → (Prefix → String) → RateLimiters → List (Request × ℕ) → RateLimiters
serve_all mac v text l [] = l
serve_all mac v text l (q ∷ qs) = serve_all mac v text (serve mac v text l q) qs

allow_client-IsKeyed :
    (mac : Mac) (v : ApiKeyVerifier) (text : Prefix → String) (l : RateLimiters) (a : Address)
    (class : RouteClass) (now : ℕ)
    → IsKeyed v l
    → IsKeyed v (allow_client text l a class now).limiters
unfolding allow_client
allow_client-IsKeyed mac v text l a class now h = elim (Bool-cases (is_health class)) [
  | inl health ↦ rw health (record { credentials = h.credentials; webhooks = h.webhooks })
  | inr other ↦ rw other (record { credentials = h.credentials; webhooks = h.webhooks })
]

allow_webhook-IsKeyed :
    (mac : Mac) (v : ApiKeyVerifier) (l : RateLimiters) (now : ℕ)
    → IsKeyed v l
    → IsKeyed v (allow_webhook l now).limiters
unfolding allow_webhook
allow_webhook-IsKeyed mac v l now h = record {
  credentials = h.credentials;
  webhooks =
      allow-Keys (λ key. key ≡ global_webhook_key) l.webhook global_webhook_key now refl h.webhooks;
}

allow_credential-IsKeyed :
    (mac : Mac) (v : ApiKeyVerifier) (l : RateLimiters) (credential : String) (class : RouteClass)
    (o : Option String) (now : ℕ)
    → fingerprint mac v credential ≡ o
    → IsKeyed v l
    → IsKeyed v (allow_credential l o class now).limiters
unfolding allow_credential
allow_credential-IsKeyed mac v l credential class none now is_o h = h
allow_credential-IsKeyed mac v l credential class (some name) now is_o h = record {
  credentials =
      allow-Keys (IsKeyTag v) l.credential name now
        (fingerprint-IsKeyTag mac v credential name is_o) h.credentials;
  webhooks = h.webhooks;
}

coarse_gate-IsKeyed :
    (mac : Mac) (v : ApiKeyVerifier) (text : Prefix → String) (l : RateLimiters)
    (class : RouteClass) (address : Option Address) (now : ℕ)
    → IsKeyed v l
    → IsKeyed v (coarse_gate text l class address now).limiters
coarse_gate-IsKeyed mac v text l class_webhook address now h = allow_webhook-IsKeyed mac v l now h
coarse_gate-IsKeyed mac v text l class_health none now h = h
coarse_gate-IsKeyed mac v text l class_docs none now h = h
coarse_gate-IsKeyed mac v text l class_business none now h = h
coarse_gate-IsKeyed mac v text l class_operations none now h = h
coarse_gate-IsKeyed mac v text l class_health (some a) now h =
    allow_client-IsKeyed mac v text l a class_health now h
coarse_gate-IsKeyed mac v text l class_docs (some a) now h =
    allow_client-IsKeyed mac v text l a class_docs now h
coarse_gate-IsKeyed mac v text l class_business (some a) now h =
    allow_client-IsKeyed mac v text l a class_business now h
coarse_gate-IsKeyed mac v text l class_operations (some a) now h =
    allow_client-IsKeyed mac v text l a class_operations now h

operation_gate-IsKeyed :
    (mac : Mac) (v : ApiKeyVerifier) (l : RateLimiters) (class : RouteClass) (credential : String)
    (now : ℕ)
    → IsKeyed v l
    → IsKeyed v (operation_gate l class (fingerprint mac v credential) now).limiters
unfolding operation_gate
operation_gate-IsKeyed mac v l class_business credential now h =
    allow_credential-IsKeyed mac v l credential class_business _ now refl h
operation_gate-IsKeyed mac v l class_operations credential now h =
    allow_credential-IsKeyed mac v l credential class_operations _ now refl h
operation_gate-IsKeyed mac v l class_health credential now h = h
operation_gate-IsKeyed mac v l class_docs credential now h = h
operation_gate-IsKeyed mac v l class_webhook credential now h = h

-- No caller can invent buckets for credentials: over any requests with any credentials, each bucket in
-- the limiter of credentials has the tag of a configured key as its name, and the webhook's limiter holds
-- a bucket for its one key only, if that was so before.
pub serve_all-IsKeyed :
    (mac : Mac) (v : ApiKeyVerifier) (text : Prefix → String) (l : RateLimiters)
    (qs : List (Request × ℕ))
    → IsKeyed v l
    → IsKeyed v (serve_all mac v text l qs)
unfolding serve_all
serve_all-IsKeyed mac v text l [] h = h
serve_all-IsKeyed mac v text l ((arrives class address, now) ∷ qs) h =
    serve_all-IsKeyed mac v text (coarse_gate text l class address now).limiters qs
      (coarse_gate-IsKeyed mac v text l class address now h)
serve_all-IsKeyed mac v text l ((calls operation credential, now) ∷ qs) h =
    serve_all-IsKeyed mac v text
      (operation_gate l (route_class_for operation) (fingerprint mac v credential) now).limiters qs
      (operation_gate-IsKeyed mac v l (route_class_for operation) credential now h)
