-- ===== src/Stripe/Checkout.antt =====
-- internal/adapters/payments/stripe/checkout.go: a session is opened. The library's `Create` is a
-- parameter.
use payments_boilerplate.Base.{
  String, List, [], ◌∷◌, Option, none, some, ◌==◌, if◌then◌else◌, to_lower, Result, ok, err, ◌>>=◌,
}
use payments_boilerplate.Base.Int.{ℤ}
use payments_boilerplate.Payments.Entity as Entity
use payments_boilerplate.Receiver.Inbox.{Cause}
use payments_boilerplate.Checkout.Service.{ProviderRequest}
use payments_boilerplate.Stripe.Session.{or_empty}
use payments_boilerplate.Stripe.Webhook.{unix}

-- The one line item of a session.
pub record LineItem : Type 0 where
  pub quantity : ℤ
  pub currency : String
  pub unit_amount : ℤ
  pub name : String

-- `CheckoutSessionCreateParams`, in payment mode.
pub record Params : Type 0 where
  pub success_url : String
  pub cancel_url : String
  pub client_reference_id : String
  pub payment_method_types : List String
  pub line_items : List LineItem
  pub metadata : String → String
  pub idempotency_key : String

-- The fields that are read of the session that is opened.
pub record Created : Type 0 where
  pub id : String
  pub payment_intent : Option String
  pub url : String
  pub expires_at : ℤ

-- `Checkout`; the library may answer with no session at all.
pub record Checkout : Type 0 where
  pub create : Params → Result Cause (Option Created)
  pub success_url : String
  pub cancel_url : String

-- The map of the metadata.
abbrev pub metadata : ProviderRequest → String → String
metadata r key =
    if key == "order_id"
    then r.order_id
    else (if key == "payment_id"
        then r.payment_id
        else (if key == "payment_attempt_id" then r.attempt_id else ""))

unfoldable pub params : Checkout → ProviderRequest → Params
params c r = record {
  success_url = c.success_url;
  cancel_url = c.cancel_url;
  client_reference_id = r.order_id;
  payment_method_types = "card" ∷ "pix" ∷ [];
  line_items =
      record {
        quantity = r.quantity;
        currency = to_lower r.currency;
        unit_amount = r.unit_amount;
        name = r.product_id;
      }
      ∷ [];
  metadata = metadata r;
  idempotency_key = r.idempotency_key;
}

abbrev pub session_of : Option Created → Result Cause Entity.Session
session_of none = err "create Stripe Checkout Session: empty response"
session_of (some s) = ok (record {
  id = s.id;
  payment_intent_id = or_empty s.payment_intent;
  url = s.url;
  expires_at = unix s.expires_at;
})

-- `CreateCheckout`.
unfoldable pub create_checkout : Checkout → ProviderRequest → Result Cause Entity.Session
unfolding params
create_checkout c r = c.create (params c r) >>= session_of
