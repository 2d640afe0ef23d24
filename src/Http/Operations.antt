-- ===== src/Http/Operations.antt =====
-- internal/transport/http/handlers.go: GET /v1/webhook-events and POST /v1/webhook-events/{id}/reprocess.
use payments_boilerplate.Base.{String, List, Option, none, some, Result, ok, err}
use payments_boilerplate.Receiver.Inbox.{Inbox}
use payments_boilerplate.Receiver.Replay.{
  ReplayFaults, ReplayError, EventInspection, event_not_found, event_not_replayable, reprocess,
}
use payments_boilerplate.Base.Int.{ℤ, pos}
use payments_boilerplate.Receiver.Inbox.{Cause}
use payments_boilerplate.Receiver.Listing.{ListError, not_listed, list_events}
use payments_boilerplate.Http.Responses.{
  invalid_request, Code, Response, answers, refuses, Failure, not_served, unexpected,
}

abbrev pub replayed : Result ReplayError EventInspection → Result Failure (Response EventInspection)
replayed (ok i) = ok (answers 202 i)
replayed (err event_not_found) = ok (refuses 404 Code.webhook_event_not_found)
replayed (err event_not_replayable) = ok (refuses 409 Code.webhook_event_not_replayable)
replayed (err _) = err unexpected

-- `ReprocessWebhookEvent`.
unfoldable pub reprocess_webhook_event :
    Option ReplayFaults → String → Inbox → Result Failure (Response EventInspection) × Inbox
unfolding reprocess
reprocess_webhook_event none id x = (err not_served, x)
reprocess_webhook_event (some f) id x = let r = reprocess f x id in (replayed r.0, r.1)

abbrev pub listed :
    Result ListError (List EventInspection) → Result Failure (Response (List EventInspection))
listed (ok events) = ok (answers 200 events)
listed (err (not_listed cause)) = err unexpected
listed (err _) = ok (refuses 400 invalid_request)

abbrev pub or_empty : Option String → String
or_empty none = ""
or_empty (some s) = s

abbrev pub or_zero : Option ℤ → ℤ
or_zero none = pos 0
or_zero (some n) = n

-- `ListWebhookEvents`; a use case is known by the pages that it reads.
unfoldable pub list_webhook_events :
    Option (String → ℤ → Result Cause (List EventInspection))
    → Option String
    → Option ℤ
    → Result Failure (Response (List EventInspection))
unfolding list_events
list_webhook_events none status limit = err not_served
list_webhook_events (some page) status limit =
    listed (list_events page (or_empty status) (or_zero limit))
