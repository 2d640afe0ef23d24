-- ===== src/Webhooks.antt =====
-- internal/domain/webhooks/event.go: the inbox's events and the outbox's messages. Payloads are lists
-- of bytes; whether bytes are JSON (`json.Valid`) is a parameter. Times are nanoseconds from Go's
-- zero time, so `IsZero` is a test for 0.
use Prim.Native.String.{◌++◌}
use payments_boilerplate.Base.{
  ℕ, Bool, true, false, ◌||◌, not, String, List, [], ◌∷◌, eqb, ◌==◌, if◌then◌else◌, trim_space,
  Result, ok, ◌>>◌, guard,
}

-- What an event means, whoever sent it.
pub data Kind : Type 0 where
  unknown checkout_completed checkout_payment_succeeded checkout_payment_failed : Kind
  checkout_expired : Kind

pub data Status : Type 0 where
  pending processing processed failed skipped : Status

pub data MessageStatus : Type 0 where
  pending publishing published failed : MessageStatus

-- `string(kind)`.
abbrev pub kind_text : Kind → String
kind_text unknown = ""
kind_text checkout_completed = "checkout.completed"
kind_text checkout_payment_succeeded = "checkout.payment_succeeded"
kind_text checkout_payment_failed = "checkout.payment_failed"
kind_text checkout_expired = "checkout.expired"

abbrev pub is_unknown : Kind → Bool
is_unknown unknown = true
is_unknown _ = false

abbrev pub schema_version : ℕ
schema_version = 1

abbrev pub routing_key_prefix : String
routing_key_prefix = "payment.webhook."

pub data Error : Type 0 where
  invalid_event invalid_message : Error

pub record Event : Type 0 where
  pub id : String
  pub provider : String
  pub provider_event_id : String
  pub event_type : String
  pub kind : Kind
  pub raw_payload : List ℕ
  pub payload : List ℕ
  pub status : Status
  pub received_at : ℕ

pub record Message : Type 0 where
  pub id : String
  pub event_id : String
  pub kind : Kind
  pub version : ℕ
  pub routing_key : String
  pub correlation_id : String
  pub occurred_at : ℕ
  pub status : MessageStatus
  pub created_at : ℕ

abbrev is_blank : String → Bool
is_blank s = trim_space s == ""

abbrev is_empty : List ℕ → Bool
is_empty [] = true
is_empty (b ∷ bs) = false

-- `NewEvent`.
unfoldable pub new_event :
    (List ℕ → Bool)
    → String
    → String
    → String
    → String
    → Kind
    → List ℕ
    → List ℕ
    → ℕ
    → Result Error Event
new_event json_valid id provider provider_event_id event_type kind raw payload now = do
  guard
      (not (
        is_blank id
        || (is_blank provider
            || (is_blank provider_event_id
                || (is_blank event_type || (is_empty raw || not (json_valid payload)))))))
      invalid_event
  ok (record {
    id = id;
    provider = provider;
    provider_event_id = provider_event_id;
    event_type = event_type;
    kind = kind;
    raw_payload = raw;
    payload = payload;
    status = if is_unknown kind then Status.skipped else Status.pending;
    received_at = now;
  })

-- `Event.Handled`.
abbrev pub handled : Event → Bool
handled e = not (is_unknown e.kind)

-- `NewMessage`.
unfoldable pub new_message : String → Event → String → ℕ → ℕ → Result Error Message
new_message id event correlation_id occurred_at now = do
  guard (not (is_blank id || (is_blank event.id || not (handled event)))) invalid_message
  ok (record {
    id = id;
    event_id = event.id;
    kind = event.kind;
    version = schema_version;
    routing_key = routing_key_prefix ++ kind_text event.kind;
    correlation_id = correlation_id;
    occurred_at = if eqb occurred_at 0 then now else occurred_at;
    status = MessageStatus.pending;
    created_at = now;
  })
