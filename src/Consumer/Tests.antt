-- ===== src/Consumer/Tests.antt =====
-- One paid checkout through the consumer, and the theorems at it.
use payments_boilerplate.Base.{
  ◌≤◌, ◌-◌, ◌≡◌, ◌⊎◌, refl, true, String, some, ok, err, List, [], ◌∷◌, is_ok, arith, ◌==◌,
  str_eq_iff, equal_fold, trim_space,
}
use payments_boilerplate.Base.Int.{pos}
use payments_boilerplate.Sanitize.{truncate}
use payments_boilerplate.Payments.Status as Payment
use payments_boilerplate.Payments.Transition.{decide}
use payments_boilerplate.Orders
use payments_boilerplate.Consumer.Ports.{foreign, amount_mismatch, Aggregate, Effect}
use payments_boilerplate.Consumer.Store.{
  lock_payment_aggregate, transition_payment_attempt, transition_payment, mark_order_paid,
  mark_webhook_event_processed, record_webhook_event_failure,
}
use payments_boilerplate.Consumer.Process.{
  lock_entry, lock_aggregate, write, process, move_one, record_failure,
}
use payments_boilerplate.Consumer.Process.Atomic.{process-rollback}
use payments_boilerplate.Consumer.Deciding.{
  captured_none, decide_effect, resolve_entry, decide_entry, is_terminal,
}
use payments_boilerplate.Consumer.Service.{World, handle}
use payments_boilerplate.Consumer.Consistency.{IsConsistent}
use payments_boilerplate.Consumer.Matched.{IsMatched, handle-IsMatched}
use payments_boilerplate.Consumer.Safety.{SameTables, deliver, deliver-IsConsistent}
use payments_boilerplate.Consumer.Settled.{KeepsSettled, deliver-KeepsSettled}
use payments_boilerplate.Consumer.Approved.{approved_write}
use payments_boilerplate.Consumer.Redelivery.{nothing_to_do, handle_once}
use payments_boilerplate.Consumer.Budget.{attempts_of, count_retries, count_retries-le}
use payments_boilerplate.Consumer.Fixtures.{start, success, service, quiet, calm, stormy, paid}

program : Unit {0}
unfolding handle ◌==◌ trim_space equal_fold truncate lock_payment_aggregate
    transition_payment_attempt transition_payment mark_order_paid mark_webhook_event_processed
    record_webhook_event_failure lock_entry lock_aggregate write process move_one decide_effect
    decide is_terminal record_failure deliver count_retries
program = tt

handle_paid : (handle service calm "evt" start).handling ≡ ok paid
unfolding program
handle_paid = refl

order_paid :
    (handle service calm "evt" start).db.orders "ord"
    ≡ some (record { status = Orders.Status.paid })
unfolding program
order_paid = refl

retried_once :
    count_retries service "evt" ((stormy, "evt") ∷ (calm, "evt") ∷ (calm, "evt") ∷ []) start ≡ 1
unfolding program
retried_once = refl

start-IsConsistent : IsConsistent start.payments start.orders
start-IsConsistent = record {
  open_pending = λ k p o e m r. ground (arith, str_eq_iff k "pay", str_eq_iff p.order_id "ord");
  one_live = λ j k p q e₁ e₂ l₁ l₂ same. ground (arith, str_eq_iff j "pay", str_eq_iff k "pay");
  charged_paid = λ k p o e c r. ground (arith, str_eq_iff k "pay");
  paid_charged = λ id o e p. absurd (ground (arith, str_eq_iff id "ord"));
}

abbrev history : List (World × String)
history = (stormy, "evt") ∷ (calm, "evt") ∷ (calm, "other") ∷ (calm, "evt") ∷ []

process-rollback_example :
    (process stormy.faults "evt"
      (resolve_entry service.interpreter)
      (decide_entry service.interpreter)
      captured_none
      start).2
    ≡ start
unfolding program
process-rollback_example =
    process-rollback stormy.faults "evt" (resolve_entry service.interpreter)
      (decide_entry service.interpreter) captured_none start (foreign "connection reset" ∷ []) tt
      refl

handle_once_example :
    let first = handle service calm "evt" start in
    let second = handle service calm "evt" first.db in
    (second.handling ≡ ok nothing_to_do) × (second.db ≡ first.db)
handle_once_example = handle_once service calm calm "evt" start paid handle_paid refl refl refl refl

deliver-IsConsistent_example :
    IsConsistent (deliver service history start).payments (deliver service history start).orders
deliver-IsConsistent_example = deliver-IsConsistent service history start start-IsConsistent

deliver-KeepsSettled_example : KeepsSettled start (deliver service history start)
deliver-KeepsSettled_example = deliver-KeepsSettled service history start

count_retries-le_example :
    count_retries service "evt" history start ≤ 10 - 1 - attempts_of start "evt"
count_retries-le_example = count_retries-le service "evt" history start

abbrev locked_start : Aggregate
locked_start = record {
  order_id = "ord";
  order_status = Orders.Status.pending;
  payment_id = "pay";
  payment_status = Payment.Status.pending;
  provider = "stripe";
  amount = pos 4990;
  currency = "BRL";
  attempt_id = "att";
  attempt_status = Payment.AttemptStatus.pending;
  session_id = "cs_1";
}

abbrev paying : Effect
paying = record {
  attempt_status = some Payment.AttemptStatus.succeeded;
  payment_status = some Payment.Status.succeeded;
  order_paid = true;
  note = "";
}

decides_start : decide_effect success locked_start "stripe" ≡ ok paying
unfolding program
decides_start = refl

approved_write_example : is_ok (write quiet "evt" locked_start paying start) ≡ true
unfolding program
approved_write_example =
    approved_write quiet "evt" start
      (record { order_id = "ord"; payment_id = "pay"; attempt_id = "att" }) locked_start success
      "stripe" paying
      (record {
        transition_attempt = refl;
        transition_payment = refl;
        mark_paid = refl;
        mark_processed = refl;
      })
      start-IsConsistent refl decides_start

handle-IsMatched_example :
    SameTables start (handle service calm "evt" start).db
    ⊎ IsMatched service.interpreter "evt" start (handle service calm "evt" start).db
handle-IsMatched_example = handle-IsMatched service calm "evt" start

short_change :
    decide_effect (record success { amount = pos 1 }) locked_start "stripe"
    ≡ err (amount_mismatch ∷ [])
unfolding program
short_change = refl
