-- ===== src/Broker/Tests.antt =====
-- Deliveries at a broker that keeps what it confirms, and the theorems at them.
use payments_boilerplate.Base.{
  ℕ, ◌⊎◌, if◌then◌else◌, ◌≡◌, refl, true, false, String, List, [], ◌∷◌, none, some, arith, ok, ◌==◌,
  Result, trim_space, equal_fold,
}
use payments_boilerplate.Webhooks.{Message, MessageStatus, checkout_completed}
use payments_boilerplate.Outbox.Store.{
  Row, Lease, mark_published, claimed, works, lease_batch, due_rows, insert_by_time, is_due, claim,
  leases_of, record_outcome, affected_one, settle_row, holds,
}
use payments_boilerplate.Outbox.Store as Outbox
use payments_boilerplate.Outbox.Relay.{
  run_once, claim_batch, publish_one, settle_published, lease_outcome,
}
use payments_boilerplate.Outbox.Relay as Relay
use payments_boilerplate.Outbox.Confirmed.{In}
use payments_boilerplate.Broker.Deadline.{
  DeadlineConn, Refusals, earlier, apply_locked, limit, Call, sets, sets_read, sets_write, calls,
}
use payments_boilerplate.Broker.Capped.{IsCapped, limit-IsCapped}
use payments_boilerplate.Broker.Publisher.{
  MessageBody, Publisher, Attempt, open_channel, ensure_channel, wait_confirm, send, attempt,
  publish,
}
use payments_boilerplate.Broker.Routed.{IsRouted}
use payments_boilerplate.Broker.Relayed.{Wire, failure, run_once-IsRouted}
use payments_boilerplate.Consumer.Ports.{Error, foreign}
use payments_boilerplate.Consumer.Service.{retry, done, Handling}
use payments_boilerplate.Consumer.Service as UseCase
use payments_boilerplate.Consumer.Fixtures.{service, calm, start}
use payments_boilerplate.Consumer.Process.Atomic.{IsClosed}
use payments_boilerplate.Consumer.Store.{
  lock_payment_aggregate, transition_payment_attempt, transition_payment, mark_order_paid,
  mark_webhook_event_processed, record_webhook_event_failure,
}
use payments_boilerplate.Consumer.Process.{
  lock_entry, lock_aggregate, write, process, move_one, record_failure,
}
use payments_boilerplate.Consumer.Deciding.{decide_effect, is_terminal}
use payments_boilerplate.Payments.Transition.{decide}
use payments_boilerplate.Sanitize.{truncate}
use payments_boilerplate.Broker.Applied.{handler_of, handle_consumed}
use payments_boilerplate.Broker.Retry.{RetryTier, tier_for}
use payments_boilerplate.Broker.Delivery.{
  Delivery, retry_exchange, copy_of, Broker, Hooks, Consumer, republish_result, republish, ack,
  republish_then_ack, republish_to_dead_letter, republish_for_retry, webhook_event_id, settle,
  answered, handle,
}
use payments_boilerplate.Broker.Plan.{plan}
use payments_boilerplate.Broker.Kept.{IsFaithful, Follows, handle-Follows}

abbrev ladder : List RetryTier
ladder = record { delay = 10 } ∷ record { delay = 60 } ∷ record { delay = 600 } ∷ []

-- A broker that keeps everything.
abbrev keeping : Broker
keeping = record {
  publish = λ p. record {
    channel_error = none;
    confirm_error = none;
    publish_error = none;
    wait_error = none;
    acked = true;
    returned = false;
    kept = true;
  };
  ack = λ d. none;
}

abbrev no_hooks : Hooks
no_hooks = record { after_republish_confirmed = λ x d. none; before_ack = λ d. none }

abbrev consumer : Consumer
consumer = record {
  retry_tiers = ladder;
  hooks = no_hooks;
  broker = keeping;
  decode = λ body. ok "evt_1";
}

abbrev delivery : Delivery
delivery = record {
  body = 123 ∷ 125 ∷ [];
  message_id = "msg_1";
  routing_key = "payment.webhook.checkout.completed";
  content_type = "application/json";
  message_type = "checkout.completed";
  correlation_id = "";
  timestamp = 7;
  headers = [];
  redelivered = false;
}

abbrev try_again : String → Result Error Handling
try_again id = ok (record {
  disposition = retry;
  attempts = 2;
  cause = some (foreign "connection reset" ∷ []);
  note = "";
  applied = false;
})

keeping-IsFaithful : IsFaithful keeping
keeping-IsFaithful p waited acked routed = refl

-- The second failure waits in the second tier.
waits :
    (handle consumer try_again delivery).copies
    ≡ copy_of (retry_exchange (record { delay = 60 })) delivery ∷ []
unfolding handle answered settle republish_for_retry tier_for republish_then_ack republish
    republish_result ack webhook_event_id republish_to_dead_letter ◌==◌
waits = refl

handle-Follows_example :
    Follows delivery (plan consumer try_again delivery) (handle consumer try_again delivery)
handle-Follows_example = handle-Follows consumer try_again delivery keeping-IsFaithful

-- The reference case: the message of a paid checkout.
program : Unit {0}
unfolding UseCase.handle ◌==◌ trim_space equal_fold truncate lock_payment_aggregate
    transition_payment_attempt transition_payment mark_order_paid mark_webhook_event_processed
    record_webhook_event_failure lock_entry lock_aggregate write process move_one decide_effect
    decide is_terminal record_failure handle answered settle ack webhook_event_id republish_then_ack
program = tt

abbrev at_rest : Consumer
at_rest = record consumer { decode = λ body. ok "evt" }

is_acknowledged : (handle at_rest (handler_of service calm start) delivery).acknowledged ≡ true
unfolding program
is_acknowledged = refl

handle_consumed_example : IsClosed (UseCase.handle service calm "evt" start).db "evt"
unfolding program
handle_consumed_example =
    handle_consumed at_rest service calm start delivery "evt" keeping-IsFaithful refl
      is_acknowledged refl

abbrev conn : DeadlineConn
conn = record {
  conn = record { read = 30; write = 0 };
  read_deadline = 30;
  write_deadline = 0;
  operation_deadline = 0;
}

abbrev taken : Refusals
taken = record { read = none; write = none }

-- The heartbeat moves the read deadline past the operation's, and the driver drops the write deadline.
abbrev driver : List (Call × Refusals)
driver =
    (sets_read 45, taken)
    ∷ (sets_write 0, taken)
    ∷ (sets 60, record { read = some "closed"; write = none })
    ∷ []

socket_taken : (limit taken 20 conn).0 ≡ ok tt
unfolding limit apply_locked earlier
socket_taken = refl

limit-IsCapped_example : IsCapped 20 (calls (limit taken 20 conn).1 driver)
limit-IsCapped_example = limit-IsCapped taken 20 conn driver (omega arith) socket_taken

abbrev message : Message
message = record {
  id = "msg_1";
  event_id = "evt_1";
  kind = checkout_completed;
  version = 1;
  routing_key = "payment.webhook.checkout.completed";
  correlation_id = "";
  occurred_at = 5;
  status = MessageStatus.publishing;
  created_at = 0;
}

abbrev good : Attempt
good = record {
  connect = none;
  is_closed = false;
  opens = none;
  confirm = none;
  declare = none;
  send = none;
  wait = ok true;
  returned = [];
  late = [];
  clear = none;
}

-- An earlier message came back after its confirmation was given up.
abbrev stale : Publisher
stale = record { has_channel = true; returns = "payment.webhook.checkout.expired" ∷ [] }

abbrev marshal : MessageBody → Result String (List ℕ)
marshal b = ok (123 ∷ 125 ∷ [])

was_published : (publish marshal good message stale).result ≡ ok tt
unfolding publish attempt ensure_channel open_channel send wait_confirm
was_published = refl

abbrev waiting : Row
waiting = record {
  message = record message { status = MessageStatus.pending };
  status = MessageStatus.pending;
  attempts = 0;
  next_attempt_at = 20;
  locked_until = none;
  locked_by = none;
  last_error = none;
}

abbrev outbox : Outbox.Db
outbox = record { rows = λ k. if k == "msg_1" then some waiting else none; ids = "msg_1" ∷ [] }

abbrev relay : Relay.Service
relay = record {
  owner = "relay-1";
  config = record {
    batch_size = 20;
    lease_duration = 100;
    backoff = record { base = 2000000000; max = 300000000000 };
    alert_after_attempts = 10;
  };
}

abbrev day : Relay.World
day = record {
  lease_fault = works;
  lease_now = 50;
  skipped = λ id. false;
  ended = λ l. false;
  meets = λ l. record {
    publish = none;
    before_settlement = none;
    fault = works;
    now = 60;
    draw = λ n. 0;
  };
}

abbrev wire : Wire
wire = record { marshal = marshal; attempt = λ l. good; publisher = λ l. stale }

abbrev published : Row
published = mark_published (claimed "relay-1" 150 waiting)

is_published : (run_once relay day outbox).db.rows "msg_1" ≡ some published
unfolding run_once Relay.relay lease_batch due_rows insert_by_time is_due claim leases_of
    publish_one Relay.settle settle_published record_outcome affected_one settle_row holds
    lease_outcome ◌==◌
is_published = refl

given :
    (l : Lease)
    → (day.meets l).publish
      ≡ failure (publish wire.marshal (wire.attempt l) l.message (wire.publisher l)).result
unfolding publish attempt ensure_channel open_channel send wait_confirm
given l = refl

run_once-IsRouted_example :
    (outbox.rows "msg_1" ≡ some published)
    ⊎ ((l : Lease) × In l (claim_batch relay day outbox).1
        × (◌≡◌ {A = String} "msg_1" l.message.id)
        × IsRouted
            (wire.attempt l)
            l.message
            (publish wire.marshal (wire.attempt l) l.message (wire.publisher l)).sent)
run_once-IsRouted_example =
    run_once-IsRouted relay day wire outbox "msg_1" published given is_published refl
