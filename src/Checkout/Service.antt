-- ===== src/Checkout/Service.antt =====
-- internal/application/payments/service.go: `CreateCheckout`. The provider, `url.Parse`, the
-- generators of identifiers and the clock are arguments; durations are left out.
use payments_boilerplate.Base.{
  ℕ, Bool, true, false, String, List, [], ◌∷◌, Option, none, some, if◌then◌else◌, Result, map_error,
  ok, err, ◌>>=◌, ◌>>◌,
}
use payments_boilerplate.Base.Int.{ℤ, div64_ℤ}
use payments_boilerplate.Ids.{validate_id}
use payments_boilerplate.Orders
use payments_boilerplate.Orders.{Order, validate_idempotency_key}
use payments_boilerplate.Payments.Entity.{
  Payment, Attempt, Session, Url, attach_session, has_session,
}
use payments_boilerplate.Payments.Entity as Entity
use payments_boilerplate.Receiver.Inbox.{Cause}
use payments_boilerplate.Checkout.Tables.{Db}
use payments_boilerplate.Checkout.Tables as Tables
use payments_boilerplate.Checkout.Store.{Faults, SaveFaults, prepare_checkout, save_session}

pub data Error : Type 0 where
  order_not_found order_not_payable : Error
  invalid_key : Orders.Error → Error
  invalid_checkout : Entity.Error → Error
  no_identifier not_loaded provider_unavailable : Cause → Error
  invalid_session : Entity.Error → Error
  not_prepared not_persisted : Tables.Error → Error

pub record ProviderRequest : Type 0 where
  pub order_id : String
  pub payment_id : String
  pub attempt_id : String
  pub product_id : String
  pub unit_amount : ℤ
  pub quantity : ℤ
  pub currency : String
  pub idempotency_key : String

pub record Checkout : Type 0 where
  pub url : String
  pub expires_at : ℕ

pub record CreateInput : Type 0 where
  pub order_id : String
  pub idempotency_key : String

pub record Service : Type 0 where
  pub create_checkout : ProviderRequest → Result Cause Session
  pub parse : String → Option Url

-- What one call meets. `others` is what other transactions commit while the attempt is reserved,
-- `meanwhile` what they commit while the provider is asked.
pub record World : Type 0 where
  pub load : Option Cause
  pub new_payment_id : Result Cause String
  pub new_attempt_id : Result Cause String
  pub now : ℕ
  pub later : ℕ
  pub others : Db → Db
  pub meanwhile : Db → Db
  pub prepare : Faults
  pub save : SaveFaults

-- What `CreateCheckout` returns, the requests that the provider gets, and the tables it leaves.
pub record Receipt : Type 0 where
  pub result : Result Error Checkout
  pub calls : List ProviderRequest
  pub db : Db

-- `checkoutFromAttempt`.
abbrev pub checkout_from_attempt : Attempt → Checkout
checkout_from_attempt a = record { url = a.checkout_url; expires_at = a.expires_at }

abbrev pub refuse : Error → Db → Receipt
refuse e x = record { result = err e; calls = []; db = x }

-- The server's price: `order.Amount / int64(order.Quantity)`.
abbrev pub provider_request : Order → Payment → Attempt → ProviderRequest
provider_request o p a = record {
  order_id = o.id;
  payment_id = p.id;
  attempt_id = a.id;
  product_id = o.product_id;
  unit_amount = div64_ℤ o.amount o.quantity;
  quantity = o.quantity;
  currency = o.currency;
  idempotency_key = a.idempotency_key;
}

abbrev pub saved : Attempt → Result Tables.Error (Unit {0}) × Db → Result Error Checkout × Db
saved a (err e, x) = (err (not_persisted e), x)
saved a (ok u, x) = (ok (checkout_from_attempt a), x)

-- From the provider's answer on.
unfoldable pub attach : Service → World → Attempt → Session → Db → Result Error Checkout × Db
unfolding save_session
attach s w a session x = elim (attach_session s.parse a session w.later) [
  | err e ↦ (err (invalid_session e), x)
  | ok a' ↦ saved a' (save_session w.save (w.meanwhile x) a')
]

-- The provider is asked once.
unfoldable pub ask : Service → World → Order → Payment → Attempt → Db → Receipt
unfolding attach
ask s w o p a x =
    let request = provider_request o p a in
    elim (s.create_checkout request) [
      | err cause ↦ record {
        result = err (provider_unavailable cause);
        calls = request ∷ [];
        db = x;
      }
      | ok session ↦
          let answer = attach s w a session x in
          record { result = answer.0; calls = request ∷ []; db = answer.1 }
    ]

abbrev pub continue :
    Service → World → Order → Result Tables.Error (Payment × Attempt) × Db → Receipt
continue s w o (err e, x) = refuse (not_prepared e) x
continue s w o (ok (p, a), x) =
    if has_session a
    then record { result = ok (checkout_from_attempt a); calls = []; db = x }
    else ask s w o p a x

abbrev pub is_pending : Orders.Status → Bool
is_pending Orders.Status.pending = true
is_pending _ = false

-- The payment and the attempt that are reserved unless the key is known.
unfoldable pub build : World → CreateInput → Order → Result Error (Payment × Attempt)
build w input o = do
  payment_id ← map_error no_identifier w.new_payment_id
  attempt_id ← map_error no_identifier w.new_attempt_id
  map_error invalid_checkout (Entity.new payment_id attempt_id o input.idempotency_key w.now)

abbrev found : Option Order → Result Error Order
found none = err order_not_found
found (some o) = ok o

-- `s.orders.Get`.
unfoldable pub load_order : World → CreateInput → Db → Result Error Order
load_order w input x = elim w.load [
  | some cause ↦ err (not_loaded cause)
  | none ↦ found (x.orders input.order_id)
]

-- What comes before the repository is called.
unfoldable pub check : World → CreateInput → Db → Result Error (Order × (Payment × Attempt))
check w input x = do
  map_error (λ e. order_not_found) (validate_id "ord_" input.order_id)
  map_error invalid_key (validate_idempotency_key input.idempotency_key)
  o ← load_order w input x
  if is_pending o.status then (build w input o >>= (λ new. ok (o, new))) else err order_not_payable

-- `CreateCheckout`.
unfoldable pub create_checkout : Service → World → CreateInput → Db → Receipt
unfolding check prepare_checkout
create_checkout s w input x = elim (check w input x) [
  | err e ↦ refuse e x
  | ok (o, (p, a)) ↦ continue s w o (prepare_checkout w.prepare w.others x p a)
]
