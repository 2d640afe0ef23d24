-- ===== src/Receiver/Replay.antt =====
-- internal/application/webhooks/operations.go and internal/adapters/postgres/repositories/operations.go
-- with the statements of db/queries/operations.sql: the replay of failed work. The sanitized errors
-- of an inspection are left out.
use payments_boilerplate.Base.{
  ℕ, ◌+◌, Bool, true, false, ◌&&◌, ◌||◌, not, String, Option, none, some, ◌==◌, if◌then◌else◌,
  Result, ok, err,
}
use payments_boilerplate.Ids.{validate_id}
use payments_boilerplate.Webhooks.{Status, MessageStatus}
use payments_boilerplate.Consumer.Store.{put, EventRow}
use payments_boilerplate.Outbox.Store as Outbox
use payments_boilerplate.Receiver.Inbox.{Inbox, Cause, Commit, committed, refused, lost}

pub data ReplayError : Type 0 where
  event_not_found event_not_replayable replay_invariant : ReplayError
  replay_failed : Cause → ReplayError

pub record OutboxInspection : Type 0 where
  pub id : String
  pub status : MessageStatus
  pub attempts : ℕ
  pub next_attempt_at : ℕ

-- What an operator sees of an event; no payload, and here no error.
pub record EventInspection : Type 0 where
  pub id : String
  pub provider : String
  pub provider_event_id : String
  pub event_type : String
  pub status : Status
  pub attempts : ℕ
  pub received_at : ℕ
  pub replay_count : ℕ
  pub outbox : Option OutboxInspection

pub record ReplayFaults : Type 0 where
  pub begin : Option Cause
  pub lock : Option Cause
  pub lookup : Option Cause
  pub reset_event : Option Cause
  pub reset_message : Option Cause
  pub read : Option Cause
  pub commit : Commit
  pub now : ℕ

abbrev pub message_row_of : Inbox → Option String → Option Outbox.Row
message_row_of x none = none
message_row_of x (some id) = x.messages.rows id

-- The message of an event: the join on `webhook_event_id`.
abbrev pub message_of : Inbox → String → Option Outbox.Row
message_of x id = message_row_of x (x.by_event id)

abbrev pub both : Option EventRow → Option Outbox.Row → Option (Status × MessageStatus)
both (some e) (some m) = some (e.status, m.status)
both _ _ = none

-- `LockWebhookEventForReplay`.
unfoldable pub lock_for_replay : Inbox → String → Option (Status × MessageStatus)
lock_for_replay x id = both (x.events id) (message_of x id)

abbrev pub event_failed : Status → Bool
event_failed Status.failed = true
event_failed _ = false

abbrev pub event_pending : Status → Bool
event_pending Status.pending = true
event_pending _ = false

abbrev pub message_failed : MessageStatus → Bool
message_failed MessageStatus.failed = true
message_failed _ = false

abbrev pub message_resettable : MessageStatus → Bool
message_resettable MessageStatus.failed = true
message_resettable MessageStatus.published = true
message_resettable _ = false

-- The test of `Reprocess`.
abbrev pub is_replayable : Status → MessageStatus → Bool
is_replayable e m = not (
    (not (event_pending e) && not (event_failed e))
    || (not (event_failed e) && not (message_failed m)))

abbrev pub reset_row : EventRow → EventRow
reset_row e =
    if event_failed e.status
    then record e { status = Status.pending; attempts = 0; last_error = none }
    else e

abbrev pub with_reset : Inbox → String → EventRow → Inbox
with_reset x id e = record x {
  events = put x.events id (reset_row e);
  replay_count = λ k. if k == id then x.replay_count k + 1 else x.replay_count k;
}

-- `ResetWebhookEventForReplay`: the inbox, and whether a row was changed.
unfoldable pub reset_event : Inbox → String → Inbox × Bool
reset_event x id = elim (x.events id) [
  | none ↦ (x, false)
  | some e ↦
      if event_pending e.status || event_failed e.status
      then (with_reset x id e, true)
      else (x, false)
]

abbrev pub requeued : Outbox.Row → ℕ → Outbox.Row
requeued m now = record m {
  status = MessageStatus.pending;
  attempts = 0;
  last_error = none;
  locked_until = none;
  locked_by = none;
  next_attempt_at = now;
}

abbrev pub with_requeued : Inbox → String → Outbox.Row → ℕ → Inbox
with_requeued x mid m now = record x {
  messages = record x.messages { rows = put x.messages.rows mid (requeued m now) };
}

-- `ResetOutboxForReplay`.
unfoldable pub reset_message : Inbox → String → ℕ → Inbox × Bool
reset_message x id now = elim (x.by_event id) [
  | none ↦ (x, false)
  | some mid ↦ elim (x.messages.rows mid) [
    | none ↦ (x, false)
    | some m ↦ if message_resettable m.status then (with_requeued x mid m now, true) else (x, false)
  ]
]

abbrev pub inspect_message : Option String → Option Outbox.Row → Option OutboxInspection
inspect_message (some id) (some m) = some (record {
  id = id;
  status = m.status;
  attempts = m.attempts;
  next_attempt_at = m.next_attempt_at;
})
inspect_message _ _ = none

-- `GetWebhookEvent` and `inspectionFromGetRow`.
abbrev pub inspect : Inbox → String → EventRow → EventInspection
inspect x id e = record {
  id = id;
  provider = e.provider;
  provider_event_id = e.provider_event_id;
  event_type = e.event_type;
  status = e.status;
  attempts = e.attempts;
  received_at = e.received_at;
  replay_count = x.replay_count id;
  outbox = inspect_message (x.by_event id) (message_of x id);
}

abbrev pub finish :
    Commit → Inbox → Inbox → EventInspection → Result ReplayError EventInspection × Inbox
finish committed before after i = (ok i, after)
finish (refused e) before after i = (err (replay_failed e), before)
finish (lost e) before after i = (err (replay_failed e), after)

-- The row is read again before the commit.
abbrev pub read_back :
    ReplayFaults
    → Inbox
    → Inbox
    → String
    → Option EventRow
    → Result ReplayError EventInspection × Inbox
read_back f before after id none = (err (replay_failed "no rows in result set"), before)
read_back f before after id (some e) = elim f.read [
  | some cause ↦ (err (replay_failed cause), before)
  | none ↦ finish f.commit before after (inspect after id e)
]

-- Both rows are reset, or nothing is.
unfoldable pub reset_both :
    ReplayFaults → Inbox → String → Result ReplayError EventInspection × Inbox
unfolding reset_event reset_message
reset_both f x id = elim f.reset_event [
  | some cause ↦ (err (replay_failed cause), x)
  | none ↦ elim f.reset_message [
    | some cause ↦ (err (replay_failed cause), x)
    | none ↦
        let (x1, event_changed) = reset_event x id in
        let (x2, message_changed) = reset_message x1 id f.now in
        if event_changed && message_changed
        then read_back f x x2 id (x2.events id)
        else (err replay_invariant, x)
  ]
]

-- No row was locked: the event is not there, or it has no message.
abbrev pub absent : Option Cause → Option EventRow → ReplayError
absent (some cause) r = replay_failed cause
absent none none = event_not_found
absent none (some e) = event_not_replayable

abbrev pub replay_locked :
    ReplayFaults
    → Inbox
    → String
    → Option (Status × MessageStatus)
    → Result ReplayError EventInspection × Inbox
replay_locked f x id none = (err (absent f.lookup (x.events id)), x)
replay_locked f x id (some (e, m)) =
    if not (is_replayable e m) then (err event_not_replayable, x) else reset_both f x id

-- `WebhookRepository.Reprocess`.
unfoldable pub replay : ReplayFaults → Inbox → String → Result ReplayError EventInspection × Inbox
unfolding lock_for_replay reset_both
replay f x id = elim f.begin [
  | some cause ↦ (err (replay_failed cause), x)
  | none ↦ elim f.lock [
    | some cause ↦ (err (replay_failed cause), x)
    | none ↦ replay_locked f x id (lock_for_replay x id)
  ]
]

-- `OperationsService.Reprocess`.
unfoldable pub reprocess :
    ReplayFaults → Inbox → String → Result ReplayError EventInspection × Inbox
unfolding replay
reprocess f x id = elim (validate_id "evt_" id) [
  | err e ↦ (err event_not_found, x)
  | ok u ↦ replay f x id
]
