-- ===== src/Checkout/Tables.antt =====
-- The tables of db/migrations/00002_payments.sql with their unique indexes and foreign keys, and the
-- insertions of internal/adapters/postgres/repositories/payments.go. The checks of one row's columns
-- are those of `payments.New`.
use payments_boilerplate.Base.{
  Bool, true, false, ◌&&◌, ◌||◌, String, List, [], ◌∷◌, ◌++◌, Option, none, some, ◌==◌,
  if◌then◌else◌, Result, ok, err,
}
use payments_boilerplate.Base.Int.{eqb_ℤ}
use payments_boilerplate.Orders.{Order}
use payments_boilerplate.Payments.Status.{Status, AttemptStatus}
use payments_boilerplate.Payments.Entity.{Payment}
use payments_boilerplate.Consumer.Store.{Table}
use payments_boilerplate.Receiver.Inbox.{Cause}
use payments_boilerplate.Checkout.Models.{PaymentAttempt}

pub record Db : Type 0 where
  pub orders : Table Order
  pub payments : List Payment
  pub attempts : List PaymentAttempt

-- What the callers can tell apart.
pub data Error : Type 0 where
  idempotency_key_conflict checkout_in_progress : Error
  failed : Cause → Error

abbrev pub any : {R : Type 0} → (R → Bool) → List R → Bool
any p [] = false
any p (r ∷ rs) = p r || any p rs

-- The first row of a search.
abbrev pub find : {R : Type 0} → (R → Bool) → List R → Option R
find p [] = none
find p (r ∷ rs) = if p r then some r else find p rs

-- `status NOT IN ('failed', 'cancelled')`.
abbrev pub is_active : Status → Bool
is_active Status.failed = false
is_active Status.cancelled = false
is_active _ = true

-- `status NOT IN ('failed', 'expired', 'cancelled')`.
abbrev pub is_open : AttemptStatus → Bool
is_open AttemptStatus.failed = false
is_open AttemptStatus.expired = false
is_open AttemptStatus.cancelled = false
is_open _ = true

-- The primary key and `payments_order_id_active_key`.
unfoldable pub clashes_payment : Payment → Payment → Bool
clashes_payment p q =
    (q.id == p.id) || ((q.order_id == p.order_id) && (is_active p.status && is_active q.status))

abbrev pub same_text : Option String → Option String → Bool
same_text (some s) (some t) = s == t
same_text _ _ = false

-- The primary key and the three unique indexes of `payment_attempts`.
unfoldable pub clashes_attempt : PaymentAttempt → PaymentAttempt → Bool
clashes_attempt a b =
    (b.id == a.id)
    || ((b.idempotency_key == a.idempotency_key)
        || (((b.payment_id == a.payment_id) && (is_open a.status && is_open b.status))
            || ((b.provider == a.provider)
                && same_text b.provider_session_id a.provider_session_id)))

-- `payments_order_fkey`.
abbrev pub priced : Option Order → Payment → Bool
priced none p = false
priced (some o) p = eqb_ℤ o.amount p.amount && (o.currency == p.currency)

abbrev pub try : {A : Type 0} → Option Cause → Result Error A → Result Error A
try none r = r
try (some e) r = err (failed e)

abbrev pub has_id : String → Payment → Bool
has_id id p = p.id == id

abbrev pub has_key : String → PaymentAttempt → Bool
has_key key a = a.idempotency_key == key

abbrev pub active_of : String → Payment → Bool
active_of order_id p = (p.order_id == order_id) && is_active p.status

-- `INSERT ... ON CONFLICT DO NOTHING` into `payments`: no database where no row is inserted.
unfoldable pub insert_payment : Db → Payment → Result Error (Option Db)
insert_payment x p =
    if any (clashes_payment p) x.payments
    then ok none
    else (if priced (x.orders p.order_id) p
        then ok (some (record x { payments = x.payments ++ (p ∷ []) }))
        else err (failed "payments_order_fkey"))

abbrev pub anchors : PaymentAttempt → Payment → Bool
anchors a p = (p.id == a.payment_id) && (p.provider == a.provider)

-- The same into `payment_attempts`, with `payment_attempts_payment_fkey`.
unfoldable pub insert_attempt : Db → PaymentAttempt → Result Error (Option Db)
insert_attempt x a =
    if any (clashes_attempt a) x.attempts
    then ok none
    else (if any (anchors a) x.payments
        then ok (some (record x { attempts = x.attempts ++ (a ∷ []) }))
        else err (failed "payment_attempts_payment_fkey"))
