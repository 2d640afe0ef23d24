-- ===== src/Http/Stored.antt =====
-- What an answer of the API tells of the tables behind it.
use payments_boilerplate.Base.{
  ◌<◌, ◌≡◌, ◌≢◌, refl, ap, inl, inr, String, none, some, arith, Option-cases, Result, Result-cases,
  ok, err,
}
use payments_boilerplate.Webhooks.{Status, MessageStatus}
use payments_boilerplate.Receiver.Inbox.{Inbox}
use payments_boilerplate.Receiver.Service as Receiver
use payments_boilerplate.Receiver.Once.{Knows, receive-Knows}
use payments_boilerplate.Receiver.Replay.{
  ReplayFaults, ReplayError, EventInspection, lock_for_replay, reprocess, event_not_found,
  event_not_replayable, replay_invariant, replay_failed,
}
use payments_boilerplate.Receiver.Replayed.{reprocess_once}
use payments_boilerplate.Http.Responses.{Code, refuses, status, respond, response_error}
use payments_boilerplate.Http.Webhooks.{Request, receive_input, received, receive_stripe_webhook}
use payments_boilerplate.Http.Operations.{reprocess_webhook_event, replayed}

received-ok :
    (r : Result Receiver.Error Receiver.Outcome)
    → status (respond (received r)) < 300
    → (o : Receiver.Outcome) × (r ≡ ok o)
unfolding respond response_error
received-ok (ok o) h = (o, refl)
received-ok (err (Receiver.invalid_signature cause)) h = absurd (omega arith)
received-ok (err (Receiver.unreadable cause)) h = absurd (omega arith)
received-ok (err (Receiver.no_identifier cause)) h = absurd (omega arith)
received-ok (err (Receiver.not_stored cause)) h = absurd (omega arith)
received-ok (err Receiver.invalid_event) h = absurd (omega arith)
received-ok (err Receiver.invalid_message) h = absurd (omega arith)

-- Only a verified request is accepted.
receive-verified :
    (s : Receiver.Service) (w : Receiver.World) (input : Receiver.ReceiveInput) (x : Inbox)
    (o : Receiver.Outcome)
    → (Receiver.receive s w input x).outcome ≡ ok o
    → (p : Receiver.ProviderEvent) × (s.verify input.raw_body input.signature ≡ ok p)
unfolding Receiver.receive Receiver.verified
receive-verified s w input x o h = elim (Option-cases input.read_error) [
  | inr (cause, fails) ↦ absurd (cc (rw (Receiver.receive, fails) at h))
  | inl whole ↦ elim (Result-cases (s.verify input.raw_body input.signature)) [
    | inl (p, genuine) ↦ (p, genuine)
    | inr (cause, forged) ↦
        absurd (cc (rw (Receiver.receive, whole, Receiver.verified, forged) at h))
  ]
]

-- The provider is told to stop its redeliveries only once its event is there: if a webhook is answered
-- with a status below 300, then its signature was verified, and the inbox that it leaves has the event,
-- whatever the database did meanwhile.
pub receive_stripe_webhook-Knows :
    (s : Receiver.Service) (w : Receiver.World) (q : Request) (x : Inbox)
    → let r = receive_stripe_webhook (some (s, w)) q x in
      let input = receive_input q in
      status (respond r.0) < 300
      → (p : Receiver.ProviderEvent) × (s.verify input.raw_body input.signature ≡ ok p)
        × Knows r.1 s.provider p.id
unfolding receive_stripe_webhook
receive_stripe_webhook-Knows s w q x h =
    let (o, answered) = received-ok (Receiver.receive s w (receive_input q) x).outcome h in
    let (p, genuine) = receive-verified s w (receive_input q) x o answered in
    (p, genuine, receive-Knows s w (receive_input q) p x o genuine answered)

replayed-status :
    (r : Result ReplayError EventInspection)
    → status (respond (replayed r)) < 300
    → (i : EventInspection) × (r ≡ ok i)
unfolding respond response_error
replayed-status (ok i) h = (i, refl)
replayed-status (err event_not_found) h = absurd (omega arith)
replayed-status (err event_not_replayable) h = absurd (omega arith)
replayed-status (err replay_invariant) h = absurd (omega arith)
replayed-status (err (replay_failed cause)) h = absurd (omega arith)

-- An operator who is told that an event will be processed again is told the truth: after a request to
-- reprocess that is answered with a status below 300, the event and its message both wait; and in
-- whatever states the event and its message are found later, asking again while neither has failed is
-- refused with 409 and changes nothing, if the database can be reached.
pub reprocess_webhook_event-once :
    (f f' : ReplayFaults) (id : String) (x y : Inbox) (e : Status) (m : MessageStatus)
    → let r = reprocess_webhook_event (some f) id x in
      status (respond r.0) < 300
      → f'.begin ≡ none
      → f'.lock ≡ none
      → lock_for_replay y id ≡ some (e, m)
      → e ≢ Status.failed
      → m ≢ MessageStatus.failed
      → (lock_for_replay r.1 id ≡ some (Status.pending, MessageStatus.pending))
        × (reprocess_webhook_event (some f') id y
            ≡ (ok (refuses 409 Code.webhook_event_not_replayable), y))
unfolding reprocess_webhook_event
reprocess_webhook_event-once f f' id x y e m h begun locks at_y unfailed idle =
    let x' = (reprocess f x id).1 in
    let (i, answered) = replayed-status (reprocess f x id).0 h in
    let (waits, again) =
      reprocess_once f f' x x' y id i e m (ap (λ r. (r, x')) answered) begun locks at_y unfailed
        idle in
    (waits, rw (reprocess_webhook_event, again) refl)
