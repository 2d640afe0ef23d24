-- ===== src/Stripe/Webhook.antt =====
-- internal/adapters/payments/stripe/webhook.go: the check of a signature. The library's
-- `ConstructEventWithOptions` and encoding/json are parameters.
use payments_boilerplate.Base.{
  ℕ, ◌+◌, ◌-◌, ◌*◌, suc, Bool, true, String, List, [], ◌∷◌, Option, none, some, if◌then◌else◌,
  Result, ok, ◌>>=◌,
}
use payments_boilerplate.Base.Int.{ℤ, pos, negsuc}
use payments_boilerplate.Payments.Entity.{stripe}
use payments_boilerplate.Receiver.Inbox.{Cause}
use payments_boilerplate.Receiver.Service.{ProviderEvent, Service}
use payments_boilerplate.Stripe.Session.{event_kinds}

-- The fields that are read of the library's `Event`; `created` is in seconds of Unix.
pub record SdkEvent : Type 0 where
  pub id : String
  pub event_type : String
  pub created : ℤ

-- The options of a check: the tolerance in nanoseconds, and whether another API version passes.
pub record ConstructEventOptions : Type 0 where
  pub tolerance : ℕ
  pub ignore_api_version_mismatch : Bool

pub record Library : Type 0 where
  pub construct_event : List ℕ → String → String → ConstructEventOptions → Result Cause SdkEvent
  pub default_tolerance : ℕ
  pub json_valid : List ℕ → Bool
  pub marshal : SdkEvent → Option (List ℕ)

pub record Webhook : Type 0 where
  pub secret : String
  pub tolerance : ℕ

-- `NewWebhook`.
abbrev pub new_webhook : Library → String → Webhook
new_webhook l secret = record { secret = secret; tolerance = l.default_tolerance }

-- `time.Unix(seconds, 0)`, in nanoseconds from the zero time, where a time before it is 0.
abbrev pub unix : ℤ → ℕ
unix (pos n) = (n + 62135596800) * 1000000000
unix (negsuc n) = (62135596800 - suc n) * 1000000000

abbrev pub or_braces : Option (List ℕ) → List ℕ
or_braces (some bytes) = bytes
or_braces none = 123 ∷ 125 ∷ []

-- `canonicalPayload`.
unfoldable pub canonical_payload : Library → List ℕ → SdkEvent → List ℕ
canonical_payload l raw e = if l.json_valid raw then raw else or_braces (l.marshal e)

-- `Verify`.
unfoldable pub verify : Library → Webhook → List ℕ → String → Result Cause ProviderEvent
unfolding canonical_payload event_kinds
verify l w raw signature = do
  e ←
      l.construct_event raw signature w.secret
        (record { tolerance = w.tolerance; ignore_api_version_mismatch = true })
  ok (record {
    id = e.id;
    event_type = e.event_type;
    kind = event_kinds e.event_type;
    occurred_at = unix e.created;
    payload = canonical_payload l raw e;
  })

-- The adapter as the receiver's port.
abbrev pub service : Library → Webhook → Service
service l w = record { verify = verify l w; provider = stripe; json_valid = l.json_valid }
