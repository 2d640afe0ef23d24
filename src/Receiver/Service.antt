-- ===== src/Receiver/Service.antt =====
-- internal/application/webhooks/service.go: `Receive`. The provider's verifier, the generators of
-- identifiers, the clock and `json.Valid` are parameters; the duration of a receipt is left out.
use payments_boilerplate.Base.{
  ℕ, Bool, not, String, List, Option, none, some, if◌then◌else◌, Result, map_error, ok, err, ◌>>=◌,
}
use payments_boilerplate.Webhooks.{Kind, unknown, Event, new_event, handled, Message, new_message}
use payments_boilerplate.Receiver.Inbox.{Inbox, Cause, Faults, store_ignored, store_pending}

-- What the package's callers can tell apart, with the cause behind it.
pub data Error : Type 0 where
  unreadable invalid_signature no_identifier not_stored : Cause → Error
  invalid_event invalid_message : Error

pub record ProviderEvent : Type 0 where
  pub id : String
  pub event_type : String
  pub kind : Kind
  pub occurred_at : ℕ
  pub payload : List ℕ

pub data Outcome : Type 0 where
  outcome_accepted outcome_duplicate outcome_ignored : Outcome

pub record ReceiveInput : Type 0 where
  pub raw_body : List ℕ
  pub signature : String
  pub correlation_id : String
  pub read_error : Option Cause

pub record Service : Type 0 where
  pub verify : List ℕ → String → Result Cause ProviderEvent
  pub provider : String
  pub json_valid : List ℕ → Bool

-- What one call meets: the two generated identifiers, the clock and the database.
pub record World : Type 0 where
  pub new_event_id : Result Cause String
  pub new_message_id : Result Cause String
  pub now : ℕ
  pub faults : Faults

-- What `Receive` returns and reports, and the inbox that it leaves.
pub record Receipt : Type 0 where
  pub outcome : Result Error Outcome
  pub kind : Kind
  pub inbox : Inbox

-- The event that a verified request is stored as.
unfoldable pub build_event : Service → World → ReceiveInput → ProviderEvent → Result Error Event
build_event s w input p = do
  id ← map_error no_identifier w.new_event_id
  map_error (λ e. invalid_event)
      (new_event s.json_valid id s.provider p.id p.event_type p.kind input.raw_body p.payload w.now)

-- The message of a handled event.
unfoldable pub build_message : World → ReceiveInput → ProviderEvent → Event → Result Error Message
build_message w input p e = do
  id ← map_error no_identifier w.new_message_id
  map_error (λ e. invalid_message) (new_message id e input.correlation_id p.occurred_at w.now)

-- What the use case makes of the repository's answer, where a new row has the outcome `o`.
abbrev pub stored_as : Outcome → Kind → Result Cause Bool × Inbox → Receipt
stored_as o kind (err e, x) = record { outcome = err (not_stored e); kind = kind; inbox = x }
stored_as o kind (ok stored, x) = record {
  outcome = ok (if stored then o else outcome_duplicate);
  kind = kind;
  inbox = x;
}

abbrev pub failed_with : Error → Kind → Inbox → Receipt
failed_with e kind x = record { outcome = err e; kind = kind; inbox = x }

unfoldable pub queue : Service → World → ReceiveInput → ProviderEvent → Event → Inbox → Receipt
unfolding build_message store_pending
queue s w input p e x = elim (build_message w input p e) [
  | err cause ↦ failed_with cause p.kind x
  | ok m ↦ stored_as outcome_accepted p.kind (store_pending w.faults x e m)
]

unfoldable pub store : Service → World → ReceiveInput → ProviderEvent → Event → Inbox → Receipt
unfolding queue store_ignored
store s w input p e x =
    if not (handled e)
    then stored_as outcome_ignored p.kind (store_ignored w.faults x e)
    else queue s w input p e x

unfoldable pub accept : Service → World → ReceiveInput → ProviderEvent → Inbox → Receipt
unfolding store build_event
accept s w input p x = elim (build_event s w input p) [
  | err cause ↦ failed_with cause p.kind x
  | ok e ↦ store s w input p e x
]

unfoldable pub verified : Service → World → ReceiveInput → Inbox → Receipt
unfolding accept
verified s w input x = elim (s.verify input.raw_body input.signature) [
  | err cause ↦ failed_with (invalid_signature cause) unknown x
  | ok p ↦ accept s w input p x
]

-- `Receive`.
unfoldable pub receive : Service → World → ReceiveInput → Inbox → Receipt
unfolding verified
receive s w input x = elim input.read_error [
  | some cause ↦ failed_with (unreadable cause) unknown x
  | none ↦ verified s w input x
]
