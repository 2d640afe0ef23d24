-- ===== src/Consumer/Store.antt =====
-- The tables that the consumer works on, and its statements, as db/queries/consumer.sql has them. A
-- table is a function of the primary key. Columns that nothing reads back (`updated_at`,
-- `processed_at`) are left out; counters do not wrap.
use payments_boilerplate.Base.{
  ℕ, ◌+◌, Bool, true, false, ◌&&◌, ◌||◌, String, List, Option, none, some, leb, ◌==◌, if◌then◌else◌,
}
use payments_boilerplate.Base.Int.{ℤ}
use payments_boilerplate.Payments.Status.{eq_status}
use payments_boilerplate.Payments.Status as Payment
use payments_boilerplate.Orders
use payments_boilerplate.Webhooks
use payments_boilerplate.Consumer.Ports.{Error}

abbrev pub Table : Type 0 → Type 0
Table R = String → Option R

abbrev pub put : {R : Type 0} → Table R → String → R → Table R
put t id r = λ k. if k == id then some r else t k

-- What `last_error` holds: a note on a no-op, or the failure's (sanitized) cause.
pub data Remark : Type 0 where
  note : String → Remark
  failure : Error → Remark

pub record EventRow : Type 0 where
  pub provider : String
  pub provider_event_id : String
  pub event_type : String
  pub raw_payload : List ℕ
  pub payload : List ℕ
  pub status : Webhooks.Status
  pub attempts : ℕ
  pub received_at : ℕ
  pub last_error : Option Remark

pub record AttemptRow : Type 0 where
  pub payment_id : String
  pub provider : String
  pub status : Payment.AttemptStatus
  pub session_id : Option String

pub record PaymentRow : Type 0 where
  pub order_id : String
  pub provider : String
  pub status : Payment.Status
  pub amount : ℤ
  pub currency : String

pub record OrderRow : Type 0 where
  pub status : Orders.Status

pub record Db : Type 0 where
  pub events : Table EventRow
  pub attempts : Table AttemptRow
  pub payments : Table PaymentRow
  pub orders : Table OrderRow

-- `status NOT IN ('succeeded', 'failed', 'expired', 'cancelled')`.
abbrev pub attempt_movable : Payment.AttemptStatus → Bool
attempt_movable Payment.AttemptStatus.created = true
attempt_movable Payment.AttemptStatus.pending = true
attempt_movable _ = false

-- `status NOT IN ('succeeded', 'failed', 'cancelled', 'partially_refunded', 'refunded')`.
abbrev pub payment_movable : Payment.Status → Bool
payment_movable Payment.Status.pending = true
payment_movable Payment.Status.processing = true
payment_movable _ = false

abbrev pub order_movable : Orders.Status → Bool
order_movable Orders.Status.pending = true
order_movable _ = false

-- The joined row of `LockPaymentAggregate`.
abbrev pub LockedRows : Type 0
LockedRows = AttemptRow × PaymentRow × OrderRow

-- `LockPaymentAggregate`: the join is the check that the rows belong together.
unfoldable pub lock_payment_aggregate : Db → String → String → String → Option LockedRows
lock_payment_aggregate db attempt_id payment_id order_id = elim (db.attempts attempt_id) [
  | none ↦ none
  | some a ↦ elim (db.payments payment_id) [
    | none ↦ none
    | some p ↦ elim (db.orders order_id) [
      | none ↦ none
      | some o ↦
          if (a.payment_id == payment_id)
            && ((p.provider == a.provider) && (p.order_id == order_id))
          then some (a, p, o)
          else none
    ]
  ]
]

-- `TransitionPaymentAttempt`, with the number of rows that it moved.
unfoldable pub transition_payment_attempt : Db → String → Payment.AttemptStatus → Db × ℕ
transition_payment_attempt db id status = elim (db.attempts id) [
  | none ↦ (db, 0)
  | some a ↦
      if attempt_movable a.status
      then (record db { attempts = put db.attempts id (record a { status = status }) }, 1)
      else (db, 0)
]

-- `TransitionPayment`.
unfoldable pub transition_payment : Db → String → Payment.Status → Db × ℕ
transition_payment db id status = elim (db.payments id) [
  | none ↦ (db, 0)
  | some p ↦
      if payment_movable p.status
      then (record db { payments = put db.payments id (record p { status = status }) }, 1)
      else (db, 0)
]

-- `MarkOrderPaid`.
unfoldable pub mark_order_paid : Db → String → Db × ℕ
mark_order_paid db id = elim (db.orders id) [
  | none ↦ (db, 0)
  | some o ↦
      if order_movable o.status
      then (record db { orders = put db.orders id (record { status = Orders.Status.paid }) }, 1)
      else (db, 0)
]

abbrev pub is_processed : Webhooks.Status → Bool
is_processed Webhooks.Status.processed = true
is_processed _ = false

abbrev pub is_failed : Webhooks.Status → Bool
is_failed Webhooks.Status.failed = true
is_failed _ = false

-- `MarkWebhookEventProcessed`.
unfoldable pub mark_webhook_event_processed : Db → String → Option Remark → Db
mark_webhook_event_processed db id remark = elim (db.events id) [
  | none ↦ db
  | some e ↦ if is_processed e.status then db else record db {
    events = put db.events id (record e {
      status = Webhooks.Status.processed;
      attempts = e.attempts + 1;
      last_error = remark;
    });
  }
]

-- `RecordWebhookEventFailure`: the attempts and whether the row is now failed, or no row.
unfoldable pub record_webhook_event_failure :
    Db → String → Error → Bool → ℕ → Db × Option (ℕ × Bool)
record_webhook_event_failure db id cause terminal max_attempts = elim (db.events id) [
  | none ↦ (db, none)
  | some e ↦
      let status =
        if terminal || leb max_attempts (e.attempts + 1)
        then Webhooks.Status.failed
        else e.status in
      (
        record db {
          events = put db.events id (record e {
            attempts = e.attempts + 1;
            status = status;
            last_error = some (failure cause);
          });
        },
        some (e.attempts + 1, is_failed status),
      )
]
