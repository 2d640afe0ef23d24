-- ===== src/Consumer/Service.antt =====
-- internal/application/consumer/service.go: what the consumer does with one message.
use payments_boilerplate.Base.{
  ℕ, Bool, true, false, ◌&&◌, not, String, List, [], ◌∷◌, ◌++◌, Option, none, some, ltb, eqb,
  if◌then◌else◌, Result, ok, err, is_some,
}
use payments_boilerplate.Payments.Status.{status_text, attempt_text}
use payments_boilerplate.Orders
use payments_boilerplate.Consumer.Ports.{Error, Aggregate, Effect, Applied}
use payments_boilerplate.Consumer.Store.{Db}
use payments_boilerplate.Consumer.Process.{Commit, Faults, process, record_failure}
use payments_boilerplate.Consumer.Deciding.{
  Interpreter, is_terminal, Captured, captured_none, resolve_entry, decide_entry,
}

pub data Disposition : Type 0 where
  done retry dead : Disposition

pub record Handling : Type 0 where
  pub disposition : Disposition
  pub attempts : ℕ
  pub cause : Option Error
  pub note : String
  pub applied : Bool

pub data Entity : Type 0 where
  order payment attempt : Entity

-- `Transition` of a report: one state change that was committed.
pub record Moved : Type 0 where
  pub entity : Entity
  pub from : String
  pub to : String

-- `Report`, less the duration.
pub record Report : Type 0 where
  pub disposition : Disposition
  pub applied : Bool
  pub already_processed : Bool
  pub transitions : List Moved
  pub cause : Option Error
  pub failed_with : Option Error

-- The calls that the observers receive, in order.
pub data Notice : Type 0 where
  applied : String → Effect → Notice
  no_op : String → String → Notice
  retrying : String → ℕ → Error → Notice
  dead_lettered : String → ℕ → Error → Notice
  handled : String → Report → Notice

abbrev pub default_max_attempts : ℕ
default_max_attempts = 10

-- `Config.withDefaults` on its one field, `MaxAttempts`; a negative setting acts as 0 does.
unfoldable pub with_defaults : ℕ → ℕ
with_defaults max_attempts = if ltb max_attempts 2 then default_max_attempts else max_attempts

abbrev order_text : Orders.Status → String
order_text Orders.Status.pending = "pending"
order_text Orders.Status.paid = "paid"
order_text Orders.Status.cancelled = "cancelled"
order_text Orders.Status.expired = "expired"

abbrev moved_if : {A : Type 0} → Option A → (A → Moved) → List Moved
moved_if none f = []
moved_if (some a) f = f a ∷ []

-- `transitions`.
unfoldable pub transitions : Aggregate → Effect → List Moved
transitions aggregate effect =
    moved_if effect.attempt_status (λ s. record {
      entity = attempt;
      from = attempt_text aggregate.attempt_status;
      to = attempt_text s;
    })
    ++ (moved_if effect.payment_status (λ s. record {
      entity = payment;
      from = status_text aggregate.payment_status;
      to = status_text s;
    })
        ++ (if effect.order_paid
            then record { entity = order; from = order_text aggregate.order_status; to = "paid" }
              ∷ []
            else []))

-- What a call of the use case returns, reports and leaves.
pub record Answer : Type 0 where
  pub handling : Result Error Handling
  pub report : Report
  pub notices : List Notice
  pub db : Db

-- What the database's statements and commits answer during one call.
pub record World : Type 0 where
  pub faults : Faults
  pub recording : Commit

-- `Service`. The hook after a commit is nil in production, which answers `none`.
pub record Service : Type 0 where
  pub interpreter : Interpreter
  pub max_attempts : ℕ
  pub after_commit : String → Applied → Option Error

-- `NewService`.
unfoldable pub new_service : Interpreter → ℕ → (String → Applied → Option Error) → Service
unfolding with_defaults
new_service interpreter max_attempts hook = record {
  interpreter = interpreter;
  max_attempts = with_defaults max_attempts;
  after_commit = hook;
}

abbrev empty_report : Report
empty_report = record {
  disposition = done;
  applied = false;
  already_processed = false;
  transitions = [];
  cause = none;
  failed_with = none;
}

abbrev given_up : Disposition → ℕ → Error → Handling
given_up d attempts cause = record {
  disposition = d;
  attempts = attempts;
  cause = some cause;
  note = "";
  applied = false;
}

-- The rest of `classify`, once the failure is recorded. Giving up wraps the cause in a message, which
-- leaves its chain as it is.
unfoldable pub classified : String → Error → Result Error (ℕ × Bool) × Db → Answer
classified event_id cause (err e, db) = record {
  handling = err (e ++ cause);
  report = record empty_report { cause = some cause };
  notices = [];
  db = db;
}
classified event_id cause (ok (attempts, failed), db) =
    if (if eqb attempts 0 then true else failed)
    then record {
      handling = ok (given_up dead attempts cause);
      report = record empty_report { disposition = dead; cause = some cause };
      notices = dead_lettered event_id attempts cause ∷ [];
      db = db;
    }
    else record {
      handling = ok (given_up retry attempts cause);
      report = record empty_report { disposition = retry; cause = some cause };
      notices = retrying event_id attempts cause ∷ [];
      db = db;
    }

-- `classify`.
unfoldable pub classify : Service → World → String → Error → Db → Answer
unfolding classified
classify s w event_id cause db =
    classified event_id cause
      (record_failure w.recording db event_id cause (is_terminal cause) s.max_attempts)

abbrev moves_of : Applied → Captured → List Moved
moves_of result c = elim c.seen [
  | none ↦ []
  | some aggregate ↦ if result.applied then transitions aggregate c.effect else []
]

-- The rest of `handle`, once `Process` returned.
unfoldable pub processed_answer :
    Service → World → String → Result Error Applied × Captured × Db → Answer
unfolding classify transitions
processed_answer s w event_id (err cause, c, db) = classify s w event_id cause db
processed_answer s w event_id (ok result, c, db) = elim (s.after_commit event_id result) [
  | some e ↦ record { handling = err e; report = empty_report; notices = []; db = db }
  | none ↦ record {
    handling = ok (record {
      disposition = done;
      attempts = 0;
      cause = none;
      note = result.note;
      applied = result.applied;
    });
    report = record {
      disposition = done;
      applied = result.applied;
      already_processed = not result.applied && not (is_some c.seen);
      transitions = moves_of result c;
      cause = none;
      failed_with = none;
    };
    notices =
        (if result.applied then applied event_id c.effect else no_op event_id result.note) ∷ [];
    db = db;
  }
]

abbrev error_of : Result Error Handling → Option Error
error_of (ok h) = none
error_of (err e) = some e

-- The report that `Handle` completes and hands to the observers.
abbrev reported : String → Answer → Answer
reported event_id a =
    let report = record (a.report) { failed_with = error_of a.handling } in
    record a { report = report; notices = a.notices ++ (handled event_id report ∷ []) }

-- `Handle`.
unfoldable pub handle : Service → World → String → Db → Answer
unfolding processed_answer process resolve_entry decide_entry
handle s w event_id db = reported event_id (
    processed_answer s w event_id (
      process w.faults event_id (resolve_entry s.interpreter) (decide_entry s.interpreter)
        captured_none db))
