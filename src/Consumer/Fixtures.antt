-- ===== src/Consumer/Fixtures.antt =====
-- One paid checkout: the rows of an order, its payment, attempt and event, and a database's answers.
use payments_boilerplate.Base.{true, String, none, some, ok, [], ◌∷◌, ◌==◌, if◌then◌else◌}
use payments_boilerplate.Base.Int.{pos}
use payments_boilerplate.Payments.Status as Payment
use payments_boilerplate.Payments.Transition.{outcome_succeeded}
use payments_boilerplate.Orders
use payments_boilerplate.Webhooks.{Event}
use payments_boilerplate.Webhooks
use payments_boilerplate.Consumer.Ports.{foreign, SessionOutcome}
use payments_boilerplate.Consumer.Store.{Table, EventRow, PaymentRow, Db}
use payments_boilerplate.Consumer.Process.{committed, refused, Faults}
use payments_boilerplate.Consumer.Service.{done, Handling, Service, World}

abbrev pub only : {R : Type 0} → String → R → Table R
only id r = λ k. if k == id then some r else none

abbrev pub payment_row : PaymentRow
payment_row = record {
  order_id = "ord";
  provider = "stripe";
  status = Payment.Status.pending;
  amount = pos 4990;
  currency = "BRL";
}

abbrev pub event_row : EventRow
event_row = record {
  provider = "stripe";
  provider_event_id = "evt_s";
  event_type = "checkout.session.completed";
  raw_payload = 123 ∷ 125 ∷ [];
  payload = 123 ∷ 125 ∷ [];
  status = Webhooks.Status.pending;
  attempts = 0;
  received_at = 5;
  last_error = none;
}

abbrev pub start : Db
start = record {
  events = only "evt" event_row;
  attempts = only "att" (record {
    payment_id = "pay";
    provider = "stripe";
    status = Payment.AttemptStatus.pending;
    session_id = some "cs_1";
  });
  payments = only "pay" payment_row;
  orders = only "ord" (record { status = Orders.Status.pending });
}

abbrev pub success : SessionOutcome
success = record {
  order_id = "ord";
  payment_id = "pay";
  attempt_id = "att";
  session_id = "cs_1";
  payment_intent_id = "pi_1";
  amount = pos 4990;
  currency = "BRL";
  outcome = outcome_succeeded;
  occurred_at = 5;
}

abbrev pub service : Service
service = record {
  interpreter = record { provider = "stripe"; interpret = λ e. ok success };
  max_attempts = 10;
  after_commit = λ id r. none;
}

abbrev pub quiet : Faults
quiet = record {
  begin = none;
  lock_event = none;
  lock_aggregate = none;
  transition_attempt = none;
  transition_payment = none;
  mark_paid = none;
  mark_processed = none;
  commit = committed;
}

abbrev pub calm : World
calm = record { faults = quiet; recording = committed }

-- The database is gone at the commit.
abbrev pub stormy : World
stormy = record {
  faults = record quiet { commit = refused (foreign "connection reset" ∷ []) };
  recording = committed;
}

abbrev pub paid : Handling
paid = record { disposition = done; attempts = 0; cause = none; note = ""; applied = true }
