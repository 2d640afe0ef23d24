-- ===== src/Payments/Entity.antt =====
-- internal/domain/payments/payment.go: payments, attempts and sessions. Times are nanoseconds from
-- Go's zero time, so `IsZero` is a test for 0. `url.Parse` is a parameter.
use payments_boilerplate.Base.{
  ℕ, Bool, true, false, ◌&&◌, ◌||◌, not, String, Option, none, some, ltb, eqb, ◌==◌, trim_space,
  Result, ok, ◌>>◌, guard, is_ok,
}
use payments_boilerplate.Base.Int.{ℤ, is_positive}
use payments_boilerplate.Orders.{Order, valid_currency, validate_quantity, validate_idempotency_key}
use payments_boilerplate.Payments.Status as State

abbrev pub stripe : String
stripe = "stripe"

pub data Error : Type 0 where
  invalid_payment invalid_attempt invalid_session : Error

pub record Payment : Type 0 where
  pub id : String
  pub order_id : String
  pub provider : String
  pub status : State.Status
  pub amount : ℤ
  pub currency : String
  pub created_at : ℕ
  pub updated_at : ℕ

pub record Attempt : Type 0 where
  pub id : String
  pub payment_id : String
  pub provider : String
  pub status : State.AttemptStatus
  pub idempotency_key : String
  pub provider_session_id : String
  pub provider_payment_intent_id : String
  pub checkout_url : String
  pub expires_at : ℕ
  pub created_at : ℕ
  pub updated_at : ℕ

pub record Session : Type 0 where
  pub id : String
  pub payment_intent_id : String
  pub url : String
  pub expires_at : ℕ

-- What `url.Parse` makes of a text.
pub record Url : Type 0 where
  pub scheme : String
  pub host : String

-- The first test of `New`.
abbrev pub is_incomplete : String → String → Order → Bool
is_incomplete payment_id attempt_id order =
    (trim_space payment_id == "")
    || ((trim_space attempt_id == "")
        || ((order.id == "")
            || (not (is_positive order.amount)
                || (not (valid_currency order.currency)
                    || not (is_ok (validate_quantity order.quantity))))))

-- `New`.
unfoldable pub new : String → String → Order → String → ℕ → Result Error (Payment × Attempt)
new payment_id attempt_id order idempotency_key now = do
  guard (not (is_incomplete payment_id attempt_id order)) invalid_payment
  guard (is_ok (validate_idempotency_key idempotency_key)) invalid_attempt
  ok (
    record {
      id = payment_id;
      order_id = order.id;
      provider = stripe;
      status = State.Status.pending;
      amount = order.amount;
      currency = order.currency;
      created_at = now;
      updated_at = now;
    },
    record {
      id = attempt_id;
      payment_id = payment_id;
      provider = stripe;
      status = State.AttemptStatus.created;
      idempotency_key = idempotency_key;
      provider_session_id = "";
      provider_payment_intent_id = "";
      checkout_url = "";
      expires_at = 0;
      created_at = now;
      updated_at = now;
    },
  )

abbrev pub is_https : Option Url → Bool
is_https none = false
is_https (some url) = (url.scheme == "https") && not (url.host == "")

-- `Attempt.AttachSession`.
unfoldable pub attach_session : (String → Option Url) → Attempt → Session → ℕ → Result Error Attempt
attach_session parse a session now = do
  guard
      (not (
        (trim_space session.id == "")
        || (not (is_https (parse session.url)) || not (ltb now session.expires_at))))
      invalid_session
  ok (record a {
    status = State.AttemptStatus.pending;
    provider_session_id = session.id;
    provider_payment_intent_id = session.payment_intent_id;
    checkout_url = session.url;
    expires_at = session.expires_at;
    updated_at = now;
  })

abbrev is_pending : State.AttemptStatus → Bool
is_pending State.AttemptStatus.pending = true
is_pending _ = false

-- `Attempt.HasSession`.
unfoldable pub has_session : Attempt → Bool
has_session a =
    is_pending a.status
    && (not (a.provider_session_id == "")
        && (not (a.checkout_url == "") && not (eqb a.expires_at 0)))
