-- ===== src/Http/Webhooks.antt =====
-- internal/transport/http/handlers.go: POST /v1/webhooks/stripe, over the inbox and the outbox.
use payments_boilerplate.Base.{ℕ, String, List, [], Option, none, some, Result, ok, err}
use payments_boilerplate.Receiver.Inbox.{Inbox, Cause}
use payments_boilerplate.Receiver.Service.{
  Service, World, ReceiveInput, Outcome, outcome_accepted, Error, receive,
}
use payments_boilerplate.Receiver.Service as Receiver
use payments_boilerplate.Http.Responses.{
  Code, Response, answers, refuses, Failure, not_served, unexpected,
}

-- What the operation reads of a request; a body is read whole, up to a limit, or not at all.
pub record Request : Type 0 where
  pub body : Option (Result Cause (List ℕ))
  pub signature : Option String
  pub correlation_id : String

abbrev pub read_bytes : Option (Result Cause (List ℕ)) → List ℕ
read_bytes (some (ok bytes)) = bytes
read_bytes _ = []

-- `ErrPayloadTooLarge` wraps the cause.
abbrev pub read_error : Option (Result Cause (List ℕ)) → Option Cause
read_error (some (err cause)) = some cause
read_error _ = none

abbrev pub or_empty : Option String → String
or_empty none = ""
or_empty (some s) = s

-- `readWebhookBody` and the input of the use case.
unfoldable pub receive_input : Request → ReceiveInput
receive_input q = record {
  raw_body = read_bytes q.body;
  signature = or_empty q.signature;
  correlation_id = q.correlation_id;
  read_error = read_error q.body;
}

abbrev pub received : Result Error Outcome → Result Failure (Response (Unit {0}))
received (err (Receiver.invalid_signature cause)) = ok (refuses 400 Code.invalid_signature)
received (err _) = err unexpected
received (ok outcome_accepted) = ok (answers 202 tt)
received (ok _) = ok (answers 200 tt)

-- `ReceiveStripeWebhook`: the answer, and the inbox after it.
unfoldable pub receive_stripe_webhook :
    Option (Service × World) → Request → Inbox → Result Failure (Response (Unit {0})) × Inbox
unfolding receive receive_input
receive_stripe_webhook none q x = (err not_served, x)
receive_stripe_webhook (some (s, w)) q x =
    let r = receive s w (receive_input q) x in (received r.outcome, r.inbox)
