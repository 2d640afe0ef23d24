-- ===== src/Checkout/Models.antt =====
-- internal/adapters/postgres/models/payment.go: the rows of `payment_attempts`. A column that allows
-- NULL is an option. A row of `payments` has the fields of the entity.
use payments_boilerplate.Base.{
  ℕ, ◌≡◌, refl, sym, inl, inr, String, Option, none, some, eqb, ◌==◌, if◌then◌else◌, arith,
  Bool-cases, str_eq_iff,
}
use payments_boilerplate.Payments.Status.{AttemptStatus}
use payments_boilerplate.Payments.Entity.{Attempt}

-- `PaymentAttempt`.
pub record PaymentAttempt : Type 0 where
  pub id : String
  pub payment_id : String
  pub provider : String
  pub status : AttemptStatus
  pub idempotency_key : String
  pub provider_session_id : Option String
  pub provider_payment_intent_id : Option String
  pub checkout_url : Option String
  pub expires_at : Option ℕ
  pub failure_code : Option String
  pub failure_message : Option String
  pub created_at : ℕ
  pub updated_at : ℕ

unfoldable pub nullable : String → Option String
nullable s = if s == "" then none else some s

unfoldable pub nullable_time : ℕ → Option ℕ
nullable_time t = if eqb t 0 then none else some t

abbrev pub text_of : Option String → String
text_of none = ""
text_of (some s) = s

abbrev pub time_of : Option ℕ → ℕ
time_of none = 0
time_of (some t) = t

-- `PaymentAttemptFromDomain`.
abbrev pub from_domain : Attempt → PaymentAttempt
from_domain a = record {
  id = a.id;
  payment_id = a.payment_id;
  provider = a.provider;
  status = a.status;
  idempotency_key = a.idempotency_key;
  provider_session_id = nullable a.provider_session_id;
  provider_payment_intent_id = nullable a.provider_payment_intent_id;
  checkout_url = nullable a.checkout_url;
  expires_at = nullable_time a.expires_at;
  failure_code = none;
  failure_message = none;
  created_at = a.created_at;
  updated_at = a.updated_at;
}

-- `PaymentAttempt.ToDomain`.
abbrev pub to_domain : PaymentAttempt → Attempt
to_domain r = record {
  id = r.id;
  payment_id = r.payment_id;
  provider = r.provider;
  status = r.status;
  idempotency_key = r.idempotency_key;
  provider_session_id = text_of r.provider_session_id;
  provider_payment_intent_id = text_of r.provider_payment_intent_id;
  checkout_url = text_of r.checkout_url;
  expires_at = time_of r.expires_at;
  created_at = r.created_at;
  updated_at = r.updated_at;
}

pub text_of-nullable : (s : String) → text_of (nullable s) ≡ s
unfolding nullable
text_of-nullable s = elim (Bool-cases (s == "")) [
  | inl empty ↦ rw (nullable, empty) (sym ((str_eq_iff s "").0 empty))
  | inr full ↦ rw (nullable, full) refl
]

pub time_of-nullable_time : (t : ℕ) → time_of (nullable_time t) ≡ t
unfolding nullable_time
time_of-nullable_time t = ground arith

-- An attempt is read back as it was written.
pub to_domain-from_domain : (a : Attempt) → to_domain (from_domain a) ≡ a
to_domain-from_domain a =
    rw
      (
        text_of-nullable a.provider_session_id,
        text_of-nullable a.provider_payment_intent_id,
        text_of-nullable a.checkout_url,
        time_of-nullable_time a.expires_at,
      )
      refl
