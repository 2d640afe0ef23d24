-- ===== src/Broker/Publisher.antt =====
-- internal/adapters/rabbitmq/publisher.go: one message is published. The broker's answers, the connection
-- and encoding/json are arguments; a test's hooks are left out.
use payments_boilerplate.Base.{
  ℕ, Bool, true, false, String, List, [], ◌∷◌, ◌++◌, Option, none, some, if◌then◌else◌, Result, ok,
  err,
}
use payments_boilerplate.Webhooks.{Message, kind_text}
use payments_boilerplate.Receiver.Inbox.{Cause}
use payments_boilerplate.Outbox.Store.{Error, not_confirmed, not_routed, permanent, foreign}

-- `messageBody`: what is encoded.
pub record MessageBody : Type 0 where
  pub message_id : String
  pub kind : String
  pub schema_version : ℕ
  pub occurred_at : ℕ
  pub correlation_id : String
  pub webhook_event_id : String

-- What is given to the broker: the exchange is fixed, the publishing mandatory and persistent.
pub record Publishing : Type 0 where
  pub routing_key : String
  pub message_id : String
  pub kind : String
  pub correlation_id : String
  pub timestamp : ℕ
  pub body : List ℕ

-- A message that came back: its routing key.
abbrev pub Return : Type 0
Return = String

-- `Publisher`: whether it holds a channel, and the returns that nobody has taken yet.
pub record Publisher : Type 0 where
  pub has_channel : Bool
  pub returns : List Return

-- What one call meets. `returned` comes back before the confirmation, `late` after it.
pub record Attempt : Type 0 where
  pub connect : Option Cause
  pub is_closed : Bool
  pub opens : Option Cause
  pub confirm : Option Cause
  pub declare : Option Cause
  pub send : Option Cause
  pub wait : Result Cause Bool
  pub returned : List Return
  pub late : List Return
  pub clear : Option Cause

abbrev pub caused : Cause → Error
caused cause = foreign cause ∷ []

-- A channel in confirm mode, with the topology declared; its returns are new.
unfoldable pub open_channel : Attempt → Publisher → Result Error (Unit {0}) × Publisher
open_channel a p = elim a.opens [
  | some e ↦ (err (caused e), p)
  | none ↦ elim a.confirm [
    | some e ↦ (err (caused e), p)
    | none ↦ elim a.declare [
      | some e ↦ (err (caused e), p)
      | none ↦ (ok tt, record { has_channel = true; returns = [] })
    ]
  ]
]

-- `ensureChannel`.
unfoldable pub ensure_channel : Attempt → Publisher → Result Error (Unit {0}) × Publisher
unfolding open_channel
ensure_channel a p =
    if p.has_channel
    then (if a.is_closed then open_channel a p else (ok tt, p))
    else open_channel a p

-- `drainReturns`.
abbrev pub drain_returns : Publisher → Publisher
drain_returns p = record p { returns = [] }

-- `discardChannel`.
abbrev pub discard_channel : Publisher
discard_channel = record { has_channel = false; returns = [] }

-- `takeReturn`, with what comes later.
abbrev pub judged : List Return → List Return → Publisher → Result Error (Unit {0}) × Publisher
judged [] late p = (ok tt, record p { returns = late })
judged (r ∷ rs) late p = (err (not_routed ∷ []), record p { returns = rs ++ late })

-- From the confirmation on; `arrived` is what the channel of returns holds by then.
unfoldable pub wait_confirm :
    Attempt → List Return → Publisher → Result Error (Unit {0}) × Publisher
wait_confirm a arrived p = elim a.wait [
  | err e ↦ (err (not_confirmed ∷ caused e), discard_channel)
  | ok false ↦ (err (not_confirmed ∷ []), record p { returns = arrived ++ a.late })
  | ok true ↦ judged arrived a.late p
]

-- What a call returns, the publisher after it, and what the broker was given.
pub record Sending : Type 0 where
  pub result : Result Error (Unit {0})
  pub publisher : Publisher
  pub sent : List Publishing

abbrev pub publishing : Message → List ℕ → Publishing
publishing m body = record {
  routing_key = m.routing_key;
  message_id = m.id;
  kind = kind_text m.kind;
  correlation_id = m.correlation_id;
  timestamp = m.occurred_at;
  body = body;
}

-- On a channel whose old returns are gone.
unfoldable pub send : Attempt → Message → List ℕ → Publisher → Sending
unfolding wait_confirm
send a m body p = elim a.send [
  | some e ↦ record { result = err (caused e); publisher = discard_channel; sent = [] }
  | none ↦
      let r = wait_confirm a (p.returns ++ a.returned) p in
      record { result = r.0; publisher = r.1; sent = publishing m body ∷ [] }
]

abbrev pub on_channel : Attempt → Message → List ℕ → Result Error (Unit {0}) × Publisher → Sending
on_channel a m body (err e, p) = record { result = err e; publisher = p; sent = [] }
on_channel a m body (ok u, p) = send a m body (drain_returns p)

-- The error of `clearLimit` stands where there is no other.
abbrev pub cleared : Option Cause → Result Error (Unit {0}) → Result Error (Unit {0})
cleared clear (err e) = err e
cleared none (ok u) = ok u
cleared (some e) (ok u) = err (caused e)

abbrev pub body_of : Message → MessageBody
body_of m = record {
  message_id = m.id;
  kind = kind_text m.kind;
  schema_version = m.version;
  occurred_at = m.occurred_at;
  correlation_id = m.correlation_id;
  webhook_event_id = m.event_id;
}

-- `withDeadline` around the attempt.
unfoldable pub attempt : Attempt → Message → List ℕ → Publisher → Sending
unfolding send ensure_channel
attempt a m body p = elim a.connect [
  | some e ↦ record { result = err (caused e); publisher = p; sent = [] }
  | none ↦
      let s = on_channel a m body (ensure_channel a p) in
      record s { result = cleared a.clear s.result }
]

-- `Publish`.
unfoldable pub publish :
    (MessageBody → Result Cause (List ℕ)) → Attempt → Message → Publisher → Sending
unfolding attempt
publish marshal a m p = elim (marshal (body_of m)) [
  | err e ↦ record { result = err (permanent ∷ caused e); publisher = p; sent = [] }
  | ok body ↦ attempt a m body p
]
