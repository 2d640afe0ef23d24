-- ===== src/Checkout/Single.antt =====
-- What the indexes of the checkout's tables promise, in counts of rows: db/migrations/00002_payments.sql
-- and internal/adapters/postgres/repositories/payments.go.
use payments_boilerplate.Base.{
  ◌≤◌, ◌≡◌, refl, inl, inr, Bool, true, false, ◌&&◌, String, Option, none, some, ◌==◌, arith,
  Bool-cases, str_eq_iff, str_eq_refl,
}
use payments_boilerplate.Payments.Status.{Status, AttemptStatus}
use payments_boilerplate.Payments.Entity.{Payment, Attempt}
use payments_boilerplate.Checkout.Models.{PaymentAttempt}
use payments_boilerplate.Checkout.Tables.{
  Db, is_open, has_id, has_key, is_active, same_text, clashes_payment, clashes_attempt,
}
use payments_boilerplate.Checkout.Counts.{count, count-le, Separated-IsUnique}
use payments_boilerplate.Checkout.Store.{Faults, prepare_checkout}
use payments_boilerplate.Checkout.Reserved.{IsSound}
use payments_boilerplate.Checkout.Prepared.{prepare_checkout-IsSound}

-- A payment that is neither failed nor cancelled.
abbrev pub is_live : Status → Bool
is_live Status.failed = false
is_live Status.cancelled = false
is_live _ = true

-- An attempt that has not ended, or has succeeded.
abbrev pub is_standing : AttemptStatus → Bool
is_standing AttemptStatus.failed = false
is_standing AttemptStatus.expired = false
is_standing AttemptStatus.cancelled = false
is_standing _ = true

live-active : (s : Status) → is_live s ≡ is_active s
live-active s = ground arith

standing-open : (s : AttemptStatus) → is_standing s ≡ is_open s
standing-open s = ground arith

abbrev pub live_of : String → Payment → Bool
live_of order_id p = (p.order_id == order_id) && is_live p.status

abbrev pub open_of : String → PaymentAttempt → Bool
open_of payment_id a = (a.payment_id == payment_id) && is_standing a.status

abbrev pub attempt_id : String → PaymentAttempt → Bool
attempt_id id a = a.id == id

abbrev pub session_of : String → String → PaymentAttempt → Bool
session_of provider id a = (a.provider == provider) && same_text a.provider_session_id (some id)

-- An order has one payment at most that is neither failed nor cancelled, a payment one attempt that is
-- neither failed, expired nor cancelled, and an identifier, a key and a
-- provider's session one row.
pub record IsSingle (x : Db) : Type 0 where
  pub live : (order_id : String) → count (live_of order_id) x.payments ≤ 1
  pub opened : (payment_id : String) → count (open_of payment_id) x.attempts ≤ 1
  pub keys : (key : String) → count (has_key key) x.attempts ≤ 1
  pub sessions : (provider id : String) → count (session_of provider id) x.attempts ≤ 1
  pub payments : (id : String) → count (has_id id) x.payments ≤ 1
  pub attempts : (id : String) → count (attempt_id id) x.attempts ≤ 1

same_as : (s t k : String) → (s == k) ≡ true → (t == k) ≡ true → (t == s) ≡ true
same_as s t k h h' = (str_eq_iff t s).1 (cc ((str_eq_iff s k).0 h, (str_eq_iff t k).0 h'))

meets_active :
    (k : String) (p q : Payment)
    → live_of k p ≡ true
    → live_of k q ≡ true
    → clashes_payment p q ≡ true
unfolding clashes_payment
meets_active k p q h h' =
    ground (arith, same_as p.order_id q.order_id k, live-active p.status, live-active q.status)

meets_id :
    (k : String) (p q : Payment)
    → has_id k p ≡ true
    → has_id k q ≡ true
    → clashes_payment p q ≡ true
unfolding clashes_payment
meets_id k p q h h' = rw (same_as p.id q.id k h h') refl

meets_open :
    (k : String) (a b : PaymentAttempt)
    → open_of k a ≡ true
    → open_of k b ≡ true
    → clashes_attempt a b ≡ true
unfolding clashes_attempt
meets_open k a b h h' =
    ground
      (arith, same_as a.payment_id b.payment_id k, standing-open a.status, standing-open b.status)

meets_key :
    (k : String) (a b : PaymentAttempt)
    → has_key k a ≡ true
    → has_key k b ≡ true
    → clashes_attempt a b ≡ true
unfolding clashes_attempt
meets_key k a b h h' = ground (arith, same_as a.idempotency_key b.idempotency_key k)

meets_attempt :
    (k : String) (a b : PaymentAttempt)
    → attempt_id k a ≡ true
    → attempt_id k b ≡ true
    → clashes_attempt a b ≡ true
unfolding clashes_attempt
meets_attempt k a b h h' = rw (same_as a.id b.id k h h') refl

same_session :
    (s t : Option String) (i : String)
    → same_text s (some i) ≡ true
    → same_text t (some i) ≡ true
    → same_text t s ≡ true
same_session (some s) (some t) i h h' = same_as s t i h h'
same_session none t i h h' = absurd (cc h)
same_session (some s) none i h h' = absurd (cc h')

meets_session :
    (k i : String) (a b : PaymentAttempt)
    → session_of k i a ≡ true
    → session_of k i b ≡ true
    → clashes_attempt a b ≡ true
unfolding clashes_attempt
meets_session k i a b h h' = ground (
  arith,
  same_as a.provider b.provider k,
  same_session a.provider_session_id b.provider_session_id i,
)

IsSound-IsSingle : (x : Db) → IsSound x → IsSingle x
IsSound-IsSingle x u = record {
  live = λ k. count-le (live_of k) clashes_payment x.payments (meets_active k) u.payments;
  opened = λ k. count-le (open_of k) clashes_attempt x.attempts (meets_open k) u.attempts;
  keys = λ k. count-le (has_key k) clashes_attempt x.attempts (meets_key k) u.attempts;
  sessions =
      λ k i. count-le (session_of k i) clashes_attempt x.attempts (meets_session k i) u.attempts;
  payments = λ k. count-le (has_id k) clashes_payment x.payments (meets_id k) u.payments;
  attempts = λ k. count-le (attempt_id k) clashes_attempt x.attempts (meets_attempt k) u.attempts;
}

is_session : (s t : Option String) → same_text s t ≡ true → (i : String) × (t ≡ some i)
is_session (some s) (some t) h = (t, refl)
is_session none t h = absurd (cc h)
is_session (some s) none h = absurd (cc h)

-- The test that two attempts which clash both satisfy.
attempts_meet :
    (x : Db) (a b : PaymentAttempt)
    → IsSingle x
    → clashes_attempt a b ≡ true
    → (p : PaymentAttempt → Bool) × (p a ≡ true) × (p b ≡ true) × (count p x.attempts ≤ 1)
unfolding clashes_attempt
attempts_meet x a b h clash = elim (Bool-cases (b.id == a.id)) [
  | inl same ↦ (attempt_id a.id, str_eq_refl a.id, same, h.attempts a.id)
  | inr other ↦ elim (Bool-cases (b.idempotency_key == a.idempotency_key)) [
    | inl same ↦
        (has_key a.idempotency_key, str_eq_refl a.idempotency_key, same, h.keys a.idempotency_key)
    | inr apart ↦
        elim (Bool-cases
          ((b.payment_id == a.payment_id) && (is_open a.status && is_open b.status))) [
            | inl both ↦ (
              open_of a.payment_id,
              ground (arith, str_eq_refl a.payment_id, standing-open a.status),
              ground arith,
              h.opened a.payment_id,
            )
            | inr closed ↦
                let session : ((b.provider == a.provider)
                      && same_text b.provider_session_id a.provider_session_id)
                    ≡ true =
                  rw (clashes_attempt, other, apart, closed) at clash in
                let named : same_text b.provider_session_id a.provider_session_id ≡ true =
                  ground arith in
                let (i, is_i) = is_session b.provider_session_id a.provider_session_id named in
                (
                  session_of a.provider i,
                  rw (str_eq_refl a.provider, is_i, str_eq_refl i) refl,
                  rw is_i at session,
                  h.sessions a.provider i,
                )
          ]
  ]
]

IsSingle-IsSound : (x : Db) → IsSingle x → IsSound x
unfolding clashes_payment
IsSingle-IsSound x h = record {
  payments = Separated-IsUnique clashes_payment x.payments (λ p q clash.
      elim (Bool-cases (q.id == p.id)) [
        | inl same ↦ (has_id p.id, str_eq_refl p.id, same, h.payments p.id)
        | inr other ↦ (
          live_of p.order_id,
          ground (arith, str_eq_refl p.order_id, live-active p.status),
          ground arith,
          h.live p.order_id,
        )
      ]);
  attempts =
      Separated-IsUnique clashes_attempt x.attempts (λ a b clash. attempts_meet x a b h clash);
}

-- Whatever `PrepareCheckout` answers and whatever fails, the tables that it leaves, counted row by row,
-- have for an order at most one payment that is neither failed nor cancelled, for a payment at most one
-- attempt that is neither failed, expired nor cancelled, and for a key, a session of a provider and an
-- identifier one row each, if that was so before it and other transactions keep it so.
pub prepare_checkout-IsSingle :
    (f : Faults) (others : Db → Db) (x : Db) (p : Payment) (a : Attempt)
    → IsSingle x
    → IsSingle (others x)
    → IsSingle (prepare_checkout f others x p a).1
prepare_checkout-IsSingle f others x p a u u' =
    IsSound-IsSingle (prepare_checkout f others x p a).1 (
      prepare_checkout-IsSound f others x p a (IsSingle-IsSound x u)
        (IsSingle-IsSound (others x) u'))
