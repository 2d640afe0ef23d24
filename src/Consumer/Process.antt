-- ===== src/Consumer/Process.antt =====
-- internal/adapters/postgres/repositories/events.go: one event applied in one transaction, and the
-- record of a failure. What the database may answer besides its rows, an error at any statement, is
-- an argument.
pub mod Cases
pub mod Writes
pub mod Atomic
use payments_boilerplate.Base.{
  ℕ, ◌≡◌, refl, Bool, true, false, ◌&&◌, ◌||◌, not, String, List, [], ◌∷◌, Option, none, some, eqb,
  ◌==◌, if◌then◌else◌, Result, ok, err, ◌>>=◌,
}
use payments_boilerplate.Webhooks.{Event, Kind}
use payments_boilerplate.Webhooks
use payments_boilerplate.Sanitize.{truncate, max_length}
use payments_boilerplate.Consumer.Ports.{
  Error, aggregate_not_found, reference_mismatch, invariant_violated, Aggregate, InboxEntry,
  Reference, Effect, Applied,
}
use payments_boilerplate.Consumer.Store.{
  Remark, note, EventRow, Db, LockedRows, is_processed, lock_payment_aggregate,
  transition_payment_attempt, transition_payment, mark_order_paid, mark_webhook_event_processed,
  record_webhook_event_failure,
}

-- How a commit ends: it holds, it is refused, or it holds and its answer is lost.
pub data Commit : Type 0 where
  committed : Commit
  refused lost : Error → Commit

-- The errors that the driver reports, by statement.
pub record Faults : Type 0 where
  pub begin : Option Error
  pub lock_event : Option Error
  pub lock_aggregate : Option Error
  pub transition_attempt : Option Error
  pub transition_payment : Option Error
  pub mark_paid : Option Error
  pub mark_processed : Option Error
  pub commit : Commit

-- A statement that may fail.
abbrev pub try {ℓ} : {A : Type ℓ} → Option Error → Result Error A → Result Error A
try none r = r
try (some e) r = err e

-- The event of a row; its kind has no column.
abbrev pub stored_event : String → EventRow → Event
stored_event event_id row = record {
  id = event_id;
  provider = row.provider;
  provider_event_id = row.provider_event_id;
  event_type = row.event_type;
  kind = Kind.unknown;
  raw_payload = row.raw_payload;
  payload = row.payload;
  status = row.status;
  received_at = row.received_at;
}

-- `lockEntry`.
unfoldable pub lock_entry : Faults → Db → String → Result Error InboxEntry
lock_entry f db event_id = try f.lock_event (elim (db.events event_id) [
  | none ↦ err (aggregate_not_found ∷ [])
  | some row ↦
      ok
        (record { event = stored_event event_id row; attempts = row.attempts; status = row.status })
])

abbrev pub or_empty : Option String → String
or_empty none = ""
or_empty (some s) = s

abbrev aggregate_of : Reference → LockedRows → Aggregate
aggregate_of ref (a, p, o) = record {
  order_id = ref.order_id;
  order_status = o.status;
  payment_id = ref.payment_id;
  payment_status = p.status;
  provider = p.provider;
  amount = p.amount;
  currency = p.currency;
  attempt_id = ref.attempt_id;
  attempt_status = a.status;
  session_id = or_empty a.session_id;
}

-- `lockAggregate`, after `resolve` answered.
unfoldable pub lock_aggregate : Faults → Db → Reference → Result Error Aggregate
lock_aggregate f db ref =
    try f.lock_aggregate
      (elim (lock_payment_aggregate db ref.attempt_id ref.payment_id ref.order_id) [
        | none ↦ err (reference_mismatch ∷ [])
        | some rows ↦ ok (aggregate_of ref rows)
      ])

-- A statement that must move exactly one row.
unfoldable pub move_one : Option Error → Db × ℕ → Result Error Db
move_one fault (db, affected) =
    try fault (if eqb affected 1 then ok db else err (invariant_violated ∷ []))

-- The three writes of `applyEffect`, each with the flag that one was made.
unfoldable pub apply_attempt : Faults → Aggregate → Effect → Db × Bool → Result Error (Db × Bool)
unfolding move_one transition_payment_attempt
apply_attempt f aggregate effect (db, applied) = elim effect.attempt_status [
  | none ↦ ok (db, applied)
  | some s ↦ do
    db' ← move_one f.transition_attempt (transition_payment_attempt db aggregate.attempt_id s)
    ok (db', true)
]

unfoldable pub apply_payment : Faults → Aggregate → Effect → Db × Bool → Result Error (Db × Bool)
unfolding move_one transition_payment
apply_payment f aggregate effect (db, applied) = elim effect.payment_status [
  | none ↦ ok (db, applied)
  | some s ↦ do
    db' ← move_one f.transition_payment (transition_payment db aggregate.payment_id s)
    ok (db', true)
]

unfoldable pub apply_order : Faults → Aggregate → Effect → Db × Bool → Result Error (Db × Bool)
unfolding move_one mark_order_paid
apply_order f aggregate effect (db, applied) =
    if effect.order_paid
    then (do db' ← move_one f.mark_paid (mark_order_paid db aggregate.order_id); ok (db', true))
    else ok (db, applied)

-- `applyEffect`.
unfoldable pub apply_effect : Faults → Aggregate → Effect → Db → Result Error (Db × Bool)
unfolding apply_attempt apply_payment apply_order
apply_effect f aggregate effect db = do
  after_attempt ← apply_attempt f aggregate effect (db, false)
  after_payment ← apply_payment f aggregate effect after_attempt
  apply_order f aggregate effect after_payment

-- `nullableText`.
unfoldable pub nullable_text : String → Option Remark
nullable_text value = if value == "" then none else some (note (truncate value max_length))

-- The writes of the transaction.
unfoldable pub write : Faults → String → Aggregate → Effect → Db → Result Error (Db × Bool)
unfolding apply_effect nullable_text mark_webhook_event_processed
write f event_id aggregate effect db = do
  (db', applied) ← apply_effect f aggregate effect db
  try f.mark_processed
      (ok (mark_webhook_event_processed db' event_id (nullable_text effect.note), applied))

abbrev pub already_processed : Applied
already_processed = record { applied = false; note = "event was already processed" }

-- `Process` for callbacks that keep their captured variables in a `C`. The first database is the one
-- that a rollback leaves.
module _ {C : Type 0} where
  unfoldable pub finish : Commit → Applied → C → Db → Db → Result Error Applied × C × Db
  finish committed result c before after = (ok result, c, after)
  finish (refused e) result c before after = (err e, c, before)
  finish (lost e) result c before after = (err e, c, after)

  unfoldable pub decided :
      Faults → String → Aggregate → Db → Result Error Effect × C → Result Error Applied × C × Db
  unfolding finish
  decided f event_id aggregate db (err e, c) = (err e, c, db)
  decided f event_id aggregate db (ok effect, c) = elim (write f event_id aggregate effect db) [
    | err e ↦ (err e, c, db)
    | ok (db', applied) ↦
        finish f.commit (record { applied = applied; note = effect.note }) c db db'
  ]

  unfoldable pub resolved :
      Faults
      → String
      → (Aggregate → C → Result Error Effect × C)
      → Db
      → Result Error Reference × C
      → Result Error Applied × C × Db
  unfolding decided
  resolved f event_id decide db (err e, c) = (err e, c, db)
  resolved f event_id decide db (ok ref, c) = elim (lock_aggregate f db ref) [
    | err e ↦ (err e, c, db)
    | ok aggregate ↦ decided f event_id aggregate db (decide aggregate c)
  ]

  unfoldable pub locked :
      Faults
      → String
      → (InboxEntry → C → Result Error Reference × C)
      → (InboxEntry → Aggregate → C → Result Error Effect × C)
      → C
      → Db
      → Result Error InboxEntry
      → Result Error Applied × C × Db
  unfolding resolved
  locked f event_id resolve decide c db (err e) = (err e, c, db)
  locked f event_id resolve decide c db (ok entry) =
      if is_processed entry.status
      then (ok already_processed, c, db)
      else resolved f event_id (decide entry) db (resolve entry c)

  -- `Process`.
  unfoldable pub process :
      Faults
      → String
      → (InboxEntry → C → Result Error Reference × C)
      → (InboxEntry → Aggregate → C → Result Error Effect × C)
      → C
      → Db
      → Result Error Applied × C × Db
  unfolding locked
  process f event_id resolve decide c db = elim f.begin [
    | some e ↦ (err e, c, db)
    | none ↦ locked f event_id resolve decide c db (lock_entry f db event_id)
  ]

-- The answer of `RecordFailure`: the attempts and whether the entry is now failed. No row answers
-- zero attempts and failed.
abbrev counted : Option (ℕ × Bool) → ℕ × Bool
counted none = (0, true)
counted (some r) = r

-- `RecordFailure`, a single statement: it holds, is refused, or holds and its answer is lost.
unfoldable pub record_failure :
    Commit → Db → String → Error → Bool → ℕ → Result Error (ℕ × Bool) × Db
unfolding record_webhook_event_failure
record_failure (refused e) db event_id cause terminal max_attempts = (err e, db)
record_failure (lost e) db event_id cause terminal max_attempts =
    (err e, (record_webhook_event_failure db event_id cause terminal max_attempts).0)
record_failure committed db event_id cause terminal max_attempts =
    let (db', row) = record_webhook_event_failure db event_id cause terminal max_attempts in
    (ok (counted row), db')
