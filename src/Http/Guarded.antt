-- ===== src/Http/Guarded.antt =====
-- An operation that is not public is behind its credential.
use payments_boilerplate.Base.{
  ℕ, ◌≡◌, refl, ◌∙◌, inl, inr, false, ◌||◌, String, List, Option, none, some, ◌==◌, Bool-cases,
  Result, ok, err,
}
use payments_boilerplate.Auth.{
  ApiKeyVerifier, Mac, valid, fingerprint, new_api_key_verifier, is_seen, Bytes,
}
use payments_boilerplate.Auth.Configured.{NoCollision, valid-is_seen}
use payments_boilerplate.Http.Responses.{Failure, not_authenticated}
use payments_boilerplate.Http.Limits.{
  RateLimiters, allow_credential, unlimited, operation_gate, route_class_for, public_operation,
  authenticated, strict,
}

operation_gate-unknown :
    (l : RateLimiters) (operation : String) (now : ℕ)
    → operation_gate l (route_class_for operation) none now ≡ unlimited l
unfolding operation_gate route_class_for allow_credential
operation_gate-unknown l operation now = elim (Bool-cases (operation == "GetHealth")) [
  | inl health ↦ rw health refl
  | inr not_health ↦ elim (Bool-cases (operation == "ReceiveStripeWebhook")) [
    | inl webhook ↦ rw (not_health, webhook) refl
    | inr not_webhook ↦
        elim (Bool-cases
          ((operation == "ListWebhookEvents") || (operation == "ReprocessWebhookEvent"))) [
            | inl operations ↦ rw (not_health, not_webhook, operations) refl
            | inr business ↦ rw (not_health, not_webhook, business) refl
          ]
  ]
]

module _ {A S : Type 0} (next : S → Result Failure A × S) where
  refused :
      (operation : String) (x : S)
      → public_operation operation ≡ false
      → authenticated operation (some false) next x ≡ (err not_authenticated, x)
  unfolding authenticated
  refused operation x closed = rw (authenticated, closed) refl

  strict-unknown :
      (limiters : Option RateLimiters) (operation : String) (now : ℕ) (x : S)
      → public_operation operation ≡ false
      → strict limiters operation none (some false) now next x
        ≡ (err not_authenticated, (limiters, x))
  unfolding strict
  strict-unknown none operation now x closed = rw (strict, refused operation x closed) refl
  strict-unknown (some l) operation now x closed =
      rw (strict, operation_gate-unknown l operation now, refused operation x closed) refl

fingerprint-none :
    (mac : Mac) (v : ApiKeyVerifier) (credential : String)
    → valid mac v credential ≡ false
    → fingerprint mac v credential ≡ none
unfolding fingerprint
fingerprint-none mac v credential h = rw (fingerprint, h) refl

-- A caller without a configured key reaches nothing: an operation that is not public answers a
-- credential that is no configured key, and whose tag is no key's, as not authenticated, leaves the state
-- behind it as it was, and gives the credential no bucket in any limiter.
pub strict-guarded :
    {A S : Type 0} (next : S → Result Failure A × S) (mac : Mac) (random : Result String Bytes)
    (keys : List String) (v : ApiKeyVerifier) (limiters : Option RateLimiters)
    (operation credential : String) (now : ℕ) (x : S)
    → new_api_key_verifier mac random keys ≡ ok v
    → NoCollision mac v.secret keys credential
    → is_seen credential keys ≡ false
    → public_operation operation ≡ false
    → strict limiters operation
        (fingerprint mac v credential)
        (some (valid mac v credential))
        now
        next
        x
      ≡ (err not_authenticated, (limiters, x))
strict-guarded next mac random keys v limiters operation credential now x made apart unknown
      closed =
    let invalid = valid-is_seen mac random keys v credential made apart ∙ unknown in
    rw (fingerprint-none mac v credential invalid, invalid)
      (strict-unknown next limiters operation now x closed)
