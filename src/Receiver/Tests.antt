-- ===== src/Receiver/Tests.antt =====
-- One event of the provider at an empty inbox, and the theorems at it.
use payments_boilerplate.Base.{
  Option, ◌<◌, arith, List, some, ◌&&◌, if◌then◌else◌, ◌≡◌, refl, true, String, [], ◌∷◌, none, ok,
  ◌==◌, trim_space,
}
use payments_boilerplate.Webhooks.{
  Event, Status, MessageStatus, checkout_completed, new_event, new_message,
}
use payments_boilerplate.Outbox.Store as Outbox
use payments_boilerplate.Receiver.Inbox.{
  event_row, Inbox, Faults, committed, lost, finish, insert_webhook_event, insert_outbox_event,
  store_message, store_pending,
}
use payments_boilerplate.Receiver.Service.{
  Service, World, ReceiveInput, ProviderEvent, outcome_accepted, outcome_duplicate, build_event,
  build_message, queue, store, accept, verified, receive,
}
use payments_boilerplate.Ids.{validate_id, after_prefix, decode_string, digit_value}
use payments_boilerplate.Consumer.Store.{put}
use payments_boilerplate.Receiver.Replay.{
  ReplayFaults, EventInspection, lock_for_replay, reset_event, reset_message, reset_both, replay,
  reprocess,
}
use payments_boilerplate.Receiver.Once.{Knows}
use payments_boilerplate.Http.Responses.{Code, refuses, status, respond}
use payments_boilerplate.Http.Operations.{reprocess_webhook_event}
use payments_boilerplate.Http.Webhooks.{Request, receive_input, receive_stripe_webhook}
use payments_boilerplate.Http.Stored.{reprocess_webhook_event-once, receive_stripe_webhook-Knows}
use payments_boilerplate.Receiver.Paired.{IsPaired}
use payments_boilerplate.Receiver.Histories.{Call, receives, replays, steps, steps-IsPaired}
use payments_boilerplate.Receiver.Duplicate.{IsBuildable, receive_twice}

abbrev empty : Inbox
empty = record {
  events = λ k. none;
  by_provider = λ p i. none;
  replay_count = λ k. 0;
  messages = record { rows = λ k. none; ids = [] };
  by_event = λ k. none;
}

abbrev event : ProviderEvent
event = record {
  id = "evt_s";
  event_type = "checkout.session.completed";
  kind = checkout_completed;
  occurred_at = 5;
  payload = 123 ∷ 125 ∷ [];
}

abbrev service : Service
service = record {
  verify = λ body signature. ok event;
  provider = "stripe";
  json_valid = λ body. true;
}

-- The answer to the first commit is lost.
abbrev lossy : Faults
lossy = record {
  begin = none;
  insert_event = none;
  insert_message = none;
  commit = lost "broken pipe";
  now = 9;
}

abbrev calm : Faults
calm = record lossy { commit = committed }

abbrev world : Faults → String → String → World
world f e m = record { new_event_id = ok e; new_message_id = ok m; now = 8; faults = f }

abbrev input : ReceiveInput
input = record {
  raw_body = 123 ∷ 125 ∷ [];
  signature = "t=5,v1=00";
  correlation_id = "req_1";
  read_error = none;
}

empty-IsPaired : IsPaired empty
empty-IsPaired = record {
  indexed = record { row_of = λ p i id h. absurd (cc h); index_of = λ id r h. absurd (cc h) };
  queued = record {
    message_of = λ id r h live. absurd (cc h);
    event_of = λ mid m h. absurd (cc h);
  };
}

program : Unit {0}
unfolding receive verified accept build_event store queue build_message new_event new_message
    store_pending store_message insert_webhook_event insert_outbox_event finish ◌==◌ trim_space
program = tt

abbrev once : Inbox
once = (receive service (world calm "evt_1" "msg_1") input empty).inbox

is_accepted :
    (receive service (world calm "evt_1" "msg_1") input empty).outcome ≡ ok outcome_accepted
unfolding program
is_accepted = refl

abbrev stored : Event
stored = record {
  id = "evt_2";
  provider = "stripe";
  provider_event_id = "evt_s";
  event_type = "checkout.session.completed";
  kind = checkout_completed;
  raw_payload = 123 ∷ 125 ∷ [];
  payload = 123 ∷ 125 ∷ [];
  status = Status.pending;
  received_at = 8;
}

again-IsBuildable : IsBuildable service (world calm "evt_2" "msg_2") input event
unfolding program
again-IsBuildable = record {
  event = stored;
  built = refl;
  message = λ h. (
    record {
      id = "msg_2";
      event_id = "evt_2";
      kind = checkout_completed;
      version = 1;
      routing_key = "payment.webhook.checkout.completed";
      correlation_id = "req_1";
      occurred_at = 5;
      status = MessageStatus.pending;
      created_at = 8;
    },
    refl,
  );
}

receive_twice_example :
    ((receive service (world calm "evt_2" "msg_2") input once).outcome ≡ ok outcome_duplicate)
    × ((receive service (world calm "evt_2" "msg_2") input once).inbox ≡ once)
receive_twice_example =
    receive_twice service (world calm "evt_1" "msg_1") (world calm "evt_2" "msg_2") input input
      event event empty outcome_accepted refl is_accepted refl refl refl again-IsBuildable
      (record { begun = refl; inserts = refl })

abbrev event_id : String
event_id = "evt_000110ffabcd095a0007804021fe640c"

-- A published event whose processing failed.
abbrev failed_inbox : Inbox
failed_inbox = record {
  events =
      put empty.events event_id
        (record (event_row stored) { status = Status.failed; attempts = 10 });
  by_provider = λ p i. if (p == "stripe") && (i == "evt_s") then some event_id else none;
  replay_count = λ k. 0;
  messages = record {
    rows = put empty.messages.rows "msg_1" (record {
      message = record {
        id = "msg_1";
        event_id = event_id;
        kind = checkout_completed;
        version = 1;
        routing_key = "payment.webhook.checkout.completed";
        correlation_id = "req_1";
        occurred_at = 5;
        status = MessageStatus.pending;
        created_at = 8;
      };
      status = MessageStatus.published;
      attempts = 1;
      next_attempt_at = 9;
      locked_until = none;
      locked_by = none;
      last_error = none;
    });
    ids = "msg_1" ∷ [];
  };
  by_event = put empty.by_event event_id "msg_1";
}

abbrev up : ReplayFaults
up = record {
  begin = none;
  lock = none;
  lookup = none;
  reset_event = none;
  reset_message = none;
  read = none;
  commit = committed;
  now = 50;
}

abbrev replayed : Inbox
replayed = (reprocess up failed_inbox event_id).1

abbrev inspection : EventInspection
inspection = record {
  id = event_id;
  provider = "stripe";
  provider_event_id = "evt_s";
  event_type = "checkout.session.completed";
  status = Status.pending;
  attempts = 0;
  received_at = 8;
  replay_count = 1;
  outbox =
      some (record {
        id = "msg_1";
        status = MessageStatus.pending;
        attempts = 0;
        next_attempt_at = 50;
      });
}

is_replayed : reprocess up failed_inbox event_id ≡ (ok inspection, replayed)
unfolding reprocess replay reset_both reset_event reset_message lock_for_replay validate_id
    after_prefix decode_string digit_value ◌==◌
is_replayed = refl

request_accepted :
    status (respond (reprocess_webhook_event (some up) event_id failed_inbox).0) < 300
unfolding reprocess_webhook_event respond reprocess replay reset_both reset_event reset_message
    lock_for_replay validate_id after_prefix decode_string digit_value ◌==◌
request_accepted = omega arith

abbrev published_row : Option Outbox.Row → Option Outbox.Row
published_row none = none
published_row (some m) = some (record m { status = MessageStatus.published })

-- The relay has published the message once more; the consumer has not handled it yet.
abbrev published_again : Inbox
published_again = record replayed {
  messages = record replayed.messages { rows = λ k. published_row (replayed.messages.rows k) };
}

waits_again :
    lock_for_replay published_again event_id ≡ some (Status.pending, MessageStatus.published)
unfolding lock_for_replay ◌==◌ reprocess validate_id after_prefix decode_string digit_value
waits_again = refl

reprocess_webhook_event-once_example :
    let r = reprocess_webhook_event (some up) event_id failed_inbox in
    (lock_for_replay r.1 event_id ≡ some (Status.pending, MessageStatus.pending))
    × (reprocess_webhook_event (some up) event_id published_again
        ≡ (ok (refuses 409 Code.webhook_event_not_replayable), published_again))
reprocess_webhook_event-once_example =
    reprocess_webhook_event-once up up event_id failed_inbox published_again Status.pending
      MessageStatus.published request_accepted refl refl waits_again (λ h. cc h) (λ h. cc h)

abbrev post : Request
post = record {
  body = some (ok (123 ∷ 125 ∷ []));
  signature = some "t=5,v1=00";
  correlation_id = "req_1";
}

post_accepted :
    status
      (respond (receive_stripe_webhook (some (service, world calm "evt_1" "msg_1")) post empty).0)
    < 300
unfolding program receive_stripe_webhook receive_input respond
post_accepted = omega arith

receive_stripe_webhook-Knows_example :
    (p : ProviderEvent) × (service.verify
        (receive_input post).raw_body
        (receive_input post).signature
      ≡ ok p)
    × Knows
        (receive_stripe_webhook (some (service, world calm "evt_1" "msg_1")) post empty).1
        service.provider
        p.id
receive_stripe_webhook-Knows_example =
    receive_stripe_webhook-Knows service (world calm "evt_1" "msg_1") post empty post_accepted

-- The answer to the first commit is lost; the event comes again, fails, and is replayed.
abbrev calls : List Call
calls =
    receives (world lossy "evt_1" "msg_1") input
    ∷ receives (world calm "evt_2" "msg_2") input
    ∷ replays up event_id
    ∷ []

steps-IsPaired_example : IsPaired (steps service empty calls)
steps-IsPaired_example = steps-IsPaired service empty calls empty-IsPaired
