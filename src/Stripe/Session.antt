-- ===== src/Stripe/Session.antt =====
-- internal/adapters/payments/stripe/session.go: what a stored event means. encoding/json is a parameter:
-- what it makes of bytes at the two types that are decoded.
use payments_boilerplate.Base.{
  ℕ, Bool, true, false, ◌||◌, not, String, List, [], ◌∷◌, Option, none, some, ◌==◌, if◌then◌else◌,
  trim_space, to_upper, Result, ok, err, ◌>>=◌, ◌>>◌, guard, map_error,
}
use payments_boilerplate.Base.Int.{ℤ}
use payments_boilerplate.Payments.Entity.{stripe}
use payments_boilerplate.Payments.Transition.{
  Outcome, outcome_succeeded, outcome_pending, outcome_failed, outcome_expired,
}
use payments_boilerplate.Webhooks.{
  Kind, unknown, checkout_completed, checkout_payment_succeeded, checkout_payment_failed,
  checkout_expired, Event,
}
use payments_boilerplate.Consumer.Ports.{
  Error, incompatible_api_version, unreadable_payload, missing_reference, foreign, SessionOutcome,
  Reference,
}
use payments_boilerplate.Consumer.Deciding.{Interpreter}

-- `eventEnvelope`, without the type, which is not read; the object is bytes.
pub record EventEnvelope : Type 0 where
  pub api_version : String
  pub object : List ℕ

-- The library's constants for a `payment_status`, and any other text.
pub data PaymentStatus : Type 0 where
  status_paid status_unpaid status_no_payment_required : PaymentStatus
  status_other : String → PaymentStatus

-- The fields that are read of the library's `CheckoutSession`; a key that the metadata does not have is
-- the empty text.
pub record CheckoutSession : Type 0 where
  pub object : String
  pub id : String
  pub payment_status : PaymentStatus
  pub metadata : String → String
  pub client_reference_id : String
  pub payment_intent : Option String
  pub amount_total : ℤ
  pub currency : String

-- `json.Unmarshal`.
pub record Json : Type 0 where
  pub envelope : List ℕ → Result String EventEnvelope
  pub session : List ℕ → Result String CheckoutSession

-- `Session`: the versions that it reads.
pub record Session : Type 0 where
  pub supported_versions : List String

-- `NewSession`, at the library's own version.
abbrev pub new_session : String → Session
new_session api_version = record { supported_versions = api_version ∷ [] }

abbrev pub is_in : String → List String → Bool
is_in v [] = false
is_in v (w ∷ ws) = if w == v then true else is_in v ws

-- `checkVersion`.
unfoldable pub check_version : Session → String → Result Error (Unit {0})
check_version s version = do
  guard (not (trim_space version == "")) (incompatible_api_version ∷ [])
  guard (is_in version s.supported_versions) (incompatible_api_version ∷ [])

-- The order's identifier of a session.
abbrev pub order_reference : CheckoutSession → String
order_reference session =
    if trim_space (session.metadata "order_id") == ""
    then trim_space session.client_reference_id
    else trim_space (session.metadata "order_id")

-- `localReference`.
unfoldable pub local_reference : CheckoutSession → Result Error Reference
local_reference session = do
  guard
      (not (
        (trim_space (session.metadata "payment_attempt_id") == "")
        || ((trim_space (session.metadata "payment_id") == "") || (order_reference session == ""))))
      (missing_reference ∷ [])
  ok (record {
    order_id = order_reference session;
    payment_id = trim_space (session.metadata "payment_id");
    attempt_id = trim_space (session.metadata "payment_attempt_id");
  })

abbrev pub completed_outcome : PaymentStatus → Result Error Outcome
completed_outcome status_paid = ok outcome_succeeded
completed_outcome status_no_payment_required = ok outcome_succeeded
completed_outcome status_unpaid = ok outcome_pending
completed_outcome (status_other s) = err (unreadable_payload ∷ [])

-- `financialOutcome`.
unfoldable pub financial_outcome : Kind → PaymentStatus → Result Error Outcome
financial_outcome checkout_completed status = completed_outcome status
financial_outcome checkout_payment_succeeded status = ok outcome_succeeded
financial_outcome checkout_payment_failed status = ok outcome_failed
financial_outcome checkout_expired status = ok outcome_expired
financial_outcome unknown status = err (unreadable_payload ∷ [])

-- `eventKinds` of webhook.go.
unfoldable pub event_kinds : String → Kind
event_kinds name =
    if name == "checkout.session.completed"
    then checkout_completed
    else (if name == "checkout.session.async_payment_succeeded"
        then checkout_payment_succeeded
        else (if name == "checkout.session.async_payment_failed"
            then checkout_payment_failed
            else (if name == "checkout.session.expired" then checkout_expired else unknown)))

-- The kind that the entry has, or else that of its name.
unfoldable pub kind_of : Event → Kind
unfolding event_kinds
kind_of e = elim e.kind [ unknown ↦ event_kinds e.event_type | kind ↦ kind ]

-- `json: ...`, wrapped as an unreadable payload.
abbrev pub unreadable : String → Error
unreadable cause = unreadable_payload ∷ foreign cause ∷ []

abbrev pub or_empty : Option String → String
or_empty none = ""
or_empty (some s) = s

abbrev pub outcome_of : Event → CheckoutSession → Outcome → Reference → SessionOutcome
outcome_of e session outcome reference = record {
  order_id = reference.order_id;
  payment_id = reference.payment_id;
  attempt_id = reference.attempt_id;
  session_id = session.id;
  payment_intent_id = or_empty session.payment_intent;
  amount = session.amount_total;
  currency = to_upper session.currency;
  outcome = outcome;
  occurred_at = e.received_at;
}

-- The session of an event, before it is read.
unfoldable pub decode : Session → Json → Event → Result Error CheckoutSession
unfolding check_version
decode s json e = do
  envelope ← map_error unreadable (json.envelope e.payload)
  check_version s envelope.api_version
  map_error unreadable (json.session envelope.object)

-- `Interpret`.
unfoldable pub interpret : Session → Json → Event → Result Error SessionOutcome
unfolding decode financial_outcome local_reference kind_of
interpret s json e = do
  session ← decode s json e
  guard ((session.object == "") || (session.object == "checkout.session")) (unreadable_payload ∷ [])
  guard (not (trim_space session.id == "")) (unreadable_payload ∷ [])
  outcome ← financial_outcome (kind_of e) session.payment_status
  reference ← local_reference session
  ok (outcome_of e session outcome reference)

-- The adapter as the consumer's port.
abbrev pub interpreter : Session → Json → Interpreter
interpreter s json = record { provider = stripe; interpret = interpret s json }
