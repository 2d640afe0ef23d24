-- ===== src/Broker/Delivery.antt =====
-- internal/adapters/rabbitmq/consumer.go: `handle` and what it calls. A delivery's handler, the hooks
-- of the tests and every answer of the broker are arguments. Timeouts are among the broker's errors;
-- the pool of workers and the reconnection loop are not modelled, and a worker runs `handle` on one
-- delivery at a time.
use payments_boilerplate.Base.{
  ℕ, Bool, true, false, not, String, List, [], ◌∷◌, ◌++◌, Option, none, some, ◌==◌, if◌then◌else◌,
  Result, ok, err, ◌>>=◌, ◌>>◌, guard,
}
use payments_boilerplate.Consumer.Ports.{Error, foreign}
use payments_boilerplate.Consumer.Service.{Disposition, done, retry, dead, Handling}
use payments_boilerplate.Broker.Retry.{RetryTier, tier_for}

-- What the consumer reads of `amqp.Delivery`.
pub record Delivery : Type 0 where
  pub body : List ℕ
  pub message_id : String
  pub routing_key : String
  pub content_type : String
  pub message_type : String
  pub correlation_id : String
  pub timestamp : ℕ
  pub headers : List (String × String)
  pub redelivered : Bool

pub data Exchange : Type 0 where
  dead_letter_exchange : Exchange
  retry_exchange : RetryTier → Exchange

-- A persistent, mandatory `amqp.Publishing`, with where it is published.
pub record Publication : Type 0 where
  pub exchange : Exchange
  pub routing_key : String
  pub content_type : String
  pub message_id : String
  pub message_type : String
  pub correlation_id : String
  pub timestamp : ℕ
  pub headers : List (String × String)
  pub body : List ℕ

-- The copy of a delivery that `republish` publishes.
abbrev pub copy_of : Exchange → Delivery → Publication
copy_of exchange d = record {
  exchange = exchange;
  routing_key = d.routing_key;
  content_type = d.content_type;
  message_id = d.message_id;
  message_type = d.message_type;
  correlation_id = d.correlation_id;
  timestamp = d.timestamp;
  headers = d.headers;
  body = d.body;
}

-- What the broker does with one publication: the errors of the channel, of the confirm mode, of the
-- publication and of the wait, the confirm itself, a return, and whether the broker has kept the copy.
pub record Reply : Type 0 where
  pub channel_error : Option Error
  pub confirm_error : Option Error
  pub publish_error : Option Error
  pub wait_error : Option Error
  pub acked : Bool
  pub returned : Bool
  pub kept : Bool

pub record Broker : Type 0 where
  pub publish : Publication → Reply
  pub ack : Delivery → Option Error

pub record Hooks : Type 0 where
  pub after_republish_confirmed : Exchange → Delivery → Option Error
  pub before_ack : Delivery → Option Error

pub data Notice : Type 0 where
  redelivered : String → Notice
  rejected : String → Error → Notice
  republished : String → Exchange → ℕ → Notice
  failed : String → Error → Notice

-- `ConsumerConfig`'s tiers, the ports of a consumer, and the decoder of a message's reference
-- (`json.Unmarshal` into `messageBodyRef`; an absent field is empty).
pub record Consumer : Type 0 where
  pub retry_tiers : List RetryTier
  pub hooks : Hooks
  pub broker : Broker
  pub decode : List ℕ → Result Error String

-- What one call did: its error, the copies that the broker has kept, whether the delivery was
-- acknowledged, and the observers' notices.
pub record Settled : Type 0 where
  pub failure : Option Error
  pub copies : List Publication
  pub acknowledged : Bool
  pub notices : List Notice

abbrev fail_on : Option Error → Result Error (Unit {0})
fail_on none = ok tt
fail_on (some e) = err e

-- The answer of `republish`, when no hook replaces it.
unfoldable pub republish_result : Hooks → Reply → Exchange → Delivery → Result Error (Unit {0})
republish_result hooks r exchange d = do
  fail_on r.channel_error
  fail_on r.confirm_error
  fail_on r.publish_error
  fail_on r.wait_error
  guard r.acked (foreign "broker refused the republished message" ∷ [])
  guard (not r.returned) (foreign "republished message was not routed" ∷ [])
  fail_on (hooks.after_republish_confirmed exchange d)

abbrev pub kept_copies : Bool → Publication → List Publication
kept_copies true p = p ∷ []
kept_copies false p = []

-- `republish`, with the copies that it leaves at the broker.
unfoldable pub republish :
    Consumer → Exchange → Delivery → Result Error (Unit {0}) × List Publication
unfolding republish_result
republish c exchange d =
    let reply = c.broker.publish (copy_of exchange d) in
    (republish_result c.hooks reply exchange d, kept_copies reply.kept (copy_of exchange d))

-- `ack`, which settles one delivery.
unfoldable pub ack : Consumer → Delivery → Result Error (Unit {0})
ack c d = do fail_on (c.hooks.before_ack d); fail_on (c.broker.ack d)

-- `ack` as the last step of a settlement.
abbrev pub acknowledged_by : Result Error (Unit {0}) → List Publication → List Notice → Settled
acknowledged_by (ok u) copies notices = record {
  failure = none;
  copies = copies;
  acknowledged = true;
  notices = notices;
}
acknowledged_by (err e) copies notices = record {
  failure = some e;
  copies = copies;
  acknowledged = false;
  notices = notices;
}

-- A copy, then the acknowledgement of the original if the copy was confirmed.
unfoldable pub republish_then_ack : Consumer → Exchange → Delivery → ℕ → Settled
unfolding republish ack
republish_then_ack c exchange d attempts =
    let (result, copies) = republish c exchange d in
    elim result [
      | err e ↦ record { failure = some e; copies = copies; acknowledged = false; notices = [] }
      | ok u ↦ acknowledged_by (ack c d) copies (republished d.message_id exchange attempts ∷ [])
    ]

-- `republishToDeadLetter`.
unfoldable pub republish_to_dead_letter : Consumer → Delivery → ℕ → Settled
unfolding republish_then_ack
republish_to_dead_letter c d attempts = republish_then_ack c dead_letter_exchange d attempts

-- `republishForRetry`.
unfoldable pub republish_for_retry : Consumer → Delivery → ℕ → Settled
unfolding republish_then_ack republish_to_dead_letter
republish_for_retry c d attempts = elim (tier_for c.retry_tiers attempts) [
  | none ↦ republish_to_dead_letter c d attempts
  | some tier ↦ republish_then_ack c (retry_exchange tier) d attempts
]

-- `webhookEventID`.
unfoldable pub webhook_event_id : Consumer → List ℕ → Result Error String
webhook_event_id c body = do
  id ← c.decode body
  guard (not (id == "")) (foreign "message carries no webhook event reference" ∷ [])
  ok id

-- The switch of `handle`.
unfoldable pub settle : Consumer → Delivery → Disposition → ℕ → Settled
unfolding republish_for_retry republish_to_dead_letter ack
settle c d done attempts = acknowledged_by (ack c d) [] []
settle c d retry attempts = republish_for_retry c d attempts
settle c d dead attempts = republish_to_dead_letter c d attempts

abbrev failure_notice : Delivery → Option Error → List Notice
failure_notice d none = []
failure_notice d (some e) = failed d.message_id e ∷ []

-- `failed`: an error goes to the observers, and on.
abbrev pub reported : Delivery → Settled → Settled
reported d r = record r { notices = r.notices ++ failure_notice d r.failure }

-- A readable delivery, once its handler has answered.
unfoldable pub answered : Consumer → Delivery → Result Error Handling → Settled
unfolding settle
answered c d (err e) = record {
  failure = some e;
  copies = [];
  acknowledged = false;
  notices = failed d.message_id e ∷ [];
}
answered c d (ok h) = reported d (settle c d h.disposition h.attempts)

abbrev pub noted : List Notice → Settled → Settled
noted first r = record r { notices = first ++ r.notices }

abbrev pub flagged : Delivery → List Notice
flagged d = if d.redelivered then redelivered d.message_id ∷ [] else []

-- `handle`, for a handler that answers a reference.
unfoldable pub handle : Consumer → (String → Result Error Handling) → Delivery → Settled
unfolding answered webhook_event_id republish_to_dead_letter
handle c handler d = elim (webhook_event_id c d.body) [
  | err e ↦
      noted (flagged d ++ (rejected d.message_id e ∷ []))
        (reported d (republish_to_dead_letter c d 0))
  | ok id ↦ noted (flagged d) (answered c d (handler id))
]
