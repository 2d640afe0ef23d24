-- ===== src/Stripe/Tests.antt =====
-- One session of the provider, from its opening to its payment.
use payments_boilerplate.Base.{
  ◌≡◌, refl, inr, [], ◌∷◌, none, some, ok, ◌==◌, trim_space, to_upper, equal_fold, if◌then◌else◌,
}
use payments_boilerplate.Base.Int.{pos}
use payments_boilerplate.Orders
use payments_boilerplate.Sanitize.{truncate}
use payments_boilerplate.Payments.Transition.{decide}
use payments_boilerplate.Consumer.Ports.{SessionOutcome}
use payments_boilerplate.Consumer.Store.{
  EventRow, lock_payment_aggregate, transition_payment_attempt, transition_payment, mark_order_paid,
  mark_webhook_event_processed, record_webhook_event_failure,
}
use payments_boilerplate.Consumer.Process.{
  stored_event, lock_entry, lock_aggregate, write, process, move_one, record_failure,
}
use payments_boilerplate.Consumer.Deciding.{decide_effect, is_terminal}
use payments_boilerplate.Consumer.Service.{Service, handle}
use payments_boilerplate.Consumer.Paying.{IsPaidBy}
use payments_boilerplate.Consumer.Fixtures.{start, service, calm}
use payments_boilerplate.Checkout.Service.{ProviderRequest}
use payments_boilerplate.Stripe.Session.{
  CheckoutSession, Json, Session, new_session, status_paid, local_reference, check_version, decode,
  financial_outcome, event_kinds, kind_of, interpret, interpreter,
}
use payments_boilerplate.Stripe.Checkout.{Checkout, params}
use payments_boilerplate.Stripe.Metadata.{IsPlain, IsEcho, local_reference-params}
use payments_boilerplate.Stripe.Paid.{IsReceipt, handle_receives}

abbrev request : ProviderRequest
request = record {
  order_id = "ord";
  payment_id = "pay";
  attempt_id = "att";
  product_id = "course";
  unit_amount = pos 4990;
  quantity = pos 1;
  currency = "BRL";
  idempotency_key = "key_1";
}

abbrev checkout : Checkout
checkout = record {
  create = λ p. ok none;
  success_url = "https://shop.test/ok";
  cancel_url = "https://shop.test/no";
}

-- The provider's session has lost the order among its metadata.
abbrev session : CheckoutSession
session = record {
  object = "checkout.session";
  id = "cs_1";
  payment_status = status_paid;
  metadata =
      λ k. if k == "payment_id" then "pay" else (if k == "payment_attempt_id" then "att" else "");
  client_reference_id = "ord";
  payment_intent = some "pi_1";
  amount_total = pos 4990;
  currency = "brl";
}

order_IsPlain : IsPlain "ord"
unfolding trim_space ◌==◌
order_IsPlain = record { trimmed = refl; filled = refl }

payment_IsPlain : IsPlain "pay"
unfolding trim_space ◌==◌
payment_IsPlain = record { trimmed = refl; filled = refl }

attempt_IsPlain : IsPlain "att"
unfolding trim_space ◌==◌
attempt_IsPlain = record { trimmed = refl; filled = refl }

session-IsEcho : IsEcho checkout request session
unfolding params ◌==◌
session-IsEcho = record { payment = refl; attempt = refl; order = inr refl; client = refl }

local_reference-params_example :
    local_reference session
    ≡ ok (record { order_id = "ord"; payment_id = "pay"; attempt_id = "att" })
local_reference-params_example =
    local_reference-params checkout request session order_IsPlain payment_IsPlain attempt_IsPlain
      session-IsEcho

abbrev json : Json
json = record {
  envelope = λ bytes. ok (record { api_version = "2025-09-30"; object = 123 ∷ 125 ∷ [] });
  session = λ bytes. ok session;
}

abbrev reader : Session
reader = new_session "2025-09-30"

abbrev consumer : Service
consumer = record service { interpreter = interpreter reader json }

program : Unit {0}
unfolding handle ◌==◌ trim_space equal_fold truncate to_upper lock_payment_aggregate
    transition_payment_attempt transition_payment mark_order_paid mark_webhook_event_processed
    record_webhook_event_failure lock_entry lock_aggregate write process move_one decide_effect
    decide is_terminal record_failure interpret decode check_version financial_outcome kind_of
    event_kinds local_reference
program = tt

order_paid :
    (handle consumer calm "evt" start).db.orders "ord"
    ≡ some (record { status = Orders.Status.paid })
unfolding program
order_paid = refl

handle_receives_example :
    (row : EventRow) × (outcome : SessionOutcome) × (start.events "evt" ≡ some row)
    × IsReceipt reader json (stored_event "evt" row) outcome
    × IsPaidBy start "ord" "stripe" outcome
unfolding program
handle_receives_example =
    handle_receives reader json service calm "evt" start "ord"
      (record { status = Orders.Status.pending }) (record { status = Orders.Status.paid }) refl
      (λ e. cc) order_paid refl
