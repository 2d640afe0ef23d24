-- ===== src/Receiver/Inbox.antt =====
-- The inbox and the outbox as the receiver writes them: internal/adapters/postgres/repositories/webhooks.go
-- and the statements of db/queries/webhooks.sql, over the tables of db/migrations. A unique index is a
-- function of its columns. Every fault of the database is an argument.
use payments_boilerplate.Base.{
  ℕ, Bool, true, false, ◌&&◌, String, ◌∷◌, Option, none, some, ◌==◌, if◌then◌else◌, Result, ok, err,
}
use payments_boilerplate.Webhooks.{Event, Message}
use payments_boilerplate.Consumer.Store.{Table, put, EventRow}
use payments_boilerplate.Outbox.Store as Outbox

-- `webhook_events` with its index `webhook_events_provider_event_id_key` and the column
-- `replay_count`, and `outbox_events` with its index `outbox_events_webhook_event_id_key`.
pub record Inbox : Type 0 where
  pub events : Table EventRow
  pub by_provider : String → String → Option String
  pub replay_count : String → ℕ
  pub messages : Outbox.Db
  pub by_event : Table String

-- What a failed statement or call says.
abbrev pub Cause : Type 0
Cause = String

abbrev pub unique_violation : Cause
unique_violation = "duplicate key value violates unique constraint"

-- `eventParams`, and the columns' defaults.
abbrev pub event_row : Event → EventRow
event_row e = record {
  provider = e.provider;
  provider_event_id = e.provider_event_id;
  event_type = e.event_type;
  raw_payload = e.raw_payload;
  payload = e.payload;
  status = e.status;
  attempts = 0;
  received_at = e.received_at;
  last_error = none;
}

abbrev pub with_event : Inbox → Event → Inbox
with_event x e = record x {
  events = put x.events e.id (event_row e);
  by_provider = λ p i.
      if (p == e.provider) && (i == e.provider_event_id) then some e.id else x.by_provider p i;
  replay_count = λ k. if k == e.id then 0 else x.replay_count k;
}

-- `InsertWebhookEvent`: no inbox where the event of the provider is there already.
unfoldable pub insert_webhook_event : Inbox → Event → Result Cause (Option Inbox)
insert_webhook_event x e = elim (x.by_provider e.provider e.provider_event_id) [
  | some id ↦ ok none
  | none ↦ elim (x.events e.id) [
    | some r ↦ err unique_violation
    | none ↦ ok (some (with_event x e))
  ]
]

-- The row of a new message; `next_attempt_at` is the database's clock.
abbrev pub message_row : Message → ℕ → Outbox.Row
message_row m now = record {
  message = m;
  status = m.status;
  attempts = 0;
  next_attempt_at = now;
  locked_until = none;
  locked_by = none;
  last_error = none;
}

abbrev pub with_message : Inbox → Message → ℕ → Inbox
with_message x m now = record x {
  messages = record {
    rows = put x.messages.rows m.id (message_row m now);
    ids = m.id ∷ x.messages.ids;
  };
  by_event = put x.by_event m.event_id m.id;
}

-- `InsertOutboxEvent`.
unfoldable pub insert_outbox_event : Inbox → Message → ℕ → Result Cause Inbox
insert_outbox_event x m now = elim (x.messages.rows m.id) [
  | some r ↦ err unique_violation
  | none ↦ elim (x.by_event m.event_id) [
    | some id ↦ err unique_violation
    | none ↦ ok (with_message x m now)
  ]
]

-- What the database makes of a commit: it holds, is refused, or holds and its answer is lost.
pub data Commit : Type 0 where
  committed : Commit
  refused lost : Cause → Commit

-- What one transaction of the repository meets.
pub record Faults : Type 0 where
  pub begin : Option Cause
  pub insert_event : Option Cause
  pub insert_message : Option Cause
  pub commit : Commit
  pub now : ℕ

abbrev pub try : {A : Type 0} → Option Cause → Result Cause A → Result Cause A
try none r = r
try (some e) r = err e

-- The end of a transaction: the answer, and the inbox after it.
unfoldable pub finish : Commit → Inbox → Inbox → Result Cause Bool × Inbox
finish committed before after = (ok true, after)
finish (refused e) before after = (err e, before)
finish (lost e) before after = (err e, after)

-- `StoreIgnored`, one statement, which is its own transaction; `insertedEvent` turns no row into
-- false.
unfoldable pub store_ignored : Faults → Inbox → Event → Result Cause Bool × Inbox
unfolding finish insert_webhook_event
store_ignored f x e = elim (try f.insert_event (insert_webhook_event x e)) [
  | err cause ↦ (err cause, x)
  | ok none ↦ (ok false, x)
  | ok (some x') ↦ finish f.commit x x'
]

-- The rest of the transaction, once the event is in.
unfoldable pub store_message : Faults → Inbox → Inbox → Message → Result Cause Bool × Inbox
unfolding finish insert_outbox_event
store_message f x x' m = elim (try f.insert_message (insert_outbox_event x' m f.now)) [
  | err cause ↦ (err cause, x)
  | ok x'' ↦ finish f.commit x x''
]

-- `StorePending`.
unfoldable pub store_pending : Faults → Inbox → Event → Message → Result Cause Bool × Inbox
unfolding store_message insert_webhook_event
store_pending f x e m = elim f.begin [
  | some cause ↦ (err cause, x)
  | none ↦ elim (try f.insert_event (insert_webhook_event x e)) [
    | err cause ↦ (err cause, x)
    | ok none ↦ (ok false, x)
    | ok (some x') ↦ store_message f x x' m
  ]
]
