-- ===== src/Checkout/Store.antt =====
-- internal/adapters/postgres/repositories/payments.go: the transaction that reserves an attempt, and
-- the update that attaches the session. A transaction that fails leaves what the others committed.
use payments_boilerplate.Base.{
  Bool, ◌&&◌, not, String, List, [], ◌∷◌, Option, none, some, ◌==◌, if◌then◌else◌, Result, ok, err,
}
use payments_boilerplate.Payments.Status.{AttemptStatus, eq_attempt}
use payments_boilerplate.Payments.Entity.{Payment, Attempt}
use payments_boilerplate.Receiver.Inbox.{Cause, Commit, committed, refused, lost}
use payments_boilerplate.Checkout.Models.{PaymentAttempt, from_domain, to_domain, nullable}
use payments_boilerplate.Checkout.Tables.{
  Db, Error, idempotency_key_conflict, checkout_in_progress, failed, any, find, same_text, try,
  has_id, has_key, active_of, insert_payment, insert_attempt,
}

-- What the statements of one transaction meet.
pub record Faults : Type 0 where
  pub begin : Option Cause
  pub find_key : Option Cause
  pub find_owner : Option Cause
  pub insert_payment : Option Cause
  pub find_active : Option Cause
  pub insert_attempt : Option Cause
  pub find_again : Option Cause
  pub commit : Commit

-- The payment of an attempt that is there already (`findPayment`), if the order is the same.
unfoldable pub recover :
    Option Cause → Db → Payment → PaymentAttempt → Result Error (Payment × Attempt)
recover fault x p a = elim (try fault (ok (find (has_id a.payment_id) x.payments))) [
  | err e ↦ err e
  | ok none ↦ err (failed "record not found")
  | ok (some q) ↦
      if q.order_id == p.order_id then ok (q, to_domain a) else err idempotency_key_conflict
]

-- `createOrGetActivePayment`.
unfoldable pub create_or_get_active_payment : Faults → Db → Payment → Result Error (Payment × Db)
unfolding insert_payment
create_or_get_active_payment f x p = elim (try f.insert_payment (insert_payment x p)) [
  | err e ↦ err e
  | ok (some x') ↦ ok (p, x')
  | ok none ↦ elim (try f.find_active (ok (find (active_of p.order_id) x.payments))) [
    | err e ↦ err e
    | ok none ↦ err (failed "record not found")
    | ok (some q) ↦ ok (q, x)
  ]
]

-- After an insertion that a unique index stopped.
unfoldable pub look_again : Faults → Db → Payment → String → Result Error (Payment × Attempt)
unfolding recover
look_again f x p key = elim (try f.find_again (ok (find (has_key key) x.attempts))) [
  | err e ↦ err e
  | ok none ↦ err checkout_in_progress
  | ok (some a) ↦ recover f.find_owner x p a
]

-- An answer beside the tables that the transaction sees.
abbrev pub seen_in : Db → Result Error (Payment × Attempt) → Result Error ((Payment × Attempt) × Db)
seen_in x (ok found) = ok (found, x)
seen_in x (err e) = err e

-- The writes of `prepareCheckout`: its answer and the tables as the transaction sees them.
unfoldable pub reserve : Faults → Db → Payment → Attempt → Result Error ((Payment × Attempt) × Db)
unfolding create_or_get_active_payment insert_attempt look_again
reserve f x p a = elim (create_or_get_active_payment f x p) [
  | err e ↦ err e
  | ok (q, x') ↦
      let row = record (from_domain a) { payment_id = q.id } in
      elim (try f.insert_attempt (insert_attempt x' row)) [
        | err e ↦ err e
        | ok (some x'') ↦ ok ((q, to_domain row), x'')
        | ok none ↦ seen_in x' (look_again f x' p a.idempotency_key)
      ]
]

-- The end of a transaction.
abbrev pub finish :
    Commit → Db → Result Error ((Payment × Attempt) × Db) → Result Error (Payment × Attempt) × Db
finish k before (err e) = (err e, before)
finish committed before (ok (found, after)) = (ok found, after)
finish (refused e) before (ok (found, after)) = (err (failed e), before)
finish (lost e) before (ok (found, after)) = (err (failed e), after)

-- `PrepareCheckout`. Other transactions may commit after its first search and before its writes.
unfoldable pub prepare_checkout :
    Faults → (Db → Db) → Db → Payment → Attempt → Result Error (Payment × Attempt) × Db
unfolding recover reserve
prepare_checkout f others x p a = elim f.begin [
  | some e ↦ (err (failed e), x)
  | none ↦ elim (try f.find_key (ok (find (has_key a.idempotency_key) x.attempts))) [
    | err e ↦ (err e, x)
    | ok (some old) ↦ finish f.commit x (seen_in x (recover f.find_owner x p old))
    | ok none ↦ finish f.commit (others x) (reserve f (others x) p a)
  ]
]

abbrev pub is_updated : Attempt → PaymentAttempt → Bool
is_updated a r = (r.id == a.id) && eq_attempt r.status AttemptStatus.created

-- The columns that `SaveSession` writes.
abbrev pub with_session : Attempt → PaymentAttempt → PaymentAttempt
with_session a r = record r {
  status = a.status;
  provider_session_id = some a.provider_session_id;
  provider_payment_intent_id = nullable a.provider_payment_intent_id;
  checkout_url = some a.checkout_url;
  expires_at = some a.expires_at;
  updated_at = a.updated_at;
}

abbrev pub update : Attempt → List PaymentAttempt → List PaymentAttempt
update a [] = []
update a (r ∷ rs) = (if is_updated a r then with_session a r else r) ∷ update a rs

-- Another row has the session that `row` gets: `payment_attempts_provider_session_id_key`.
abbrev pub taken : PaymentAttempt → Attempt → PaymentAttempt → Bool
taken row a r =
    not (r.id == row.id)
    && ((r.provider == row.provider)
        && same_text r.provider_session_id (some a.provider_session_id))

-- `existing.ProviderSessionID != nil && *existing.ProviderSessionID == attempt.ProviderSessionID`.
abbrev pub keeps_session : Option PaymentAttempt → Attempt → Result Error (Unit {0})
keeps_session none a = err (failed "record not found")
keeps_session (some r) a =
    if same_text r.provider_session_id (some a.provider_session_id)
    then ok tt
    else err (failed "payment attempt session changed concurrently")

pub record SaveFaults : Type 0 where
  pub update : Commit
  pub find : Option Cause

-- The row that the update changes, if any.
abbrev pub write_session : Commit → Db → Attempt → Result Error (Unit {0}) × Db
write_session committed x a = (ok tt, record x { attempts = update a x.attempts })
write_session (refused e) x a = (err (failed e), x)
write_session (lost e) x a = (err (failed e), record x { attempts = update a x.attempts })

-- No row was changed.
abbrev pub unchanged : SaveFaults → Db → Attempt → Result Error (Unit {0})
unchanged f x a = elim f.update [
  | committed ↦ try f.find (keeps_session (find (λ r. r.id == a.id) x.attempts) a)
  | refused e ↦ err (failed e)
  | lost e ↦ err (failed e)
]

-- `SaveSession`.
unfoldable pub save_session : SaveFaults → Db → Attempt → Result Error (Unit {0}) × Db
save_session f x a = elim (find (is_updated a) x.attempts) [
  | none ↦ (unchanged f x a, x)
  | some row ↦
      if any (taken row a) x.attempts
      then (err (failed "payment_attempts_provider_session_id_key"), x)
      else write_session f.update x a
]
