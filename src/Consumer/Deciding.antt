-- ===== src/Consumer/Deciding.antt =====
-- internal/application/consumer/service.go: the classification of errors, and the two callbacks that
-- run inside the transaction.
use payments_boilerplate.Base.{
  Bool, true, false, ◌&&◌, ◌||◌, not, String, List, [], ◌∷◌, Option, none, some, ◌==◌,
  if◌then◌else◌, Result, ok, err, ◌>>◌, guard, equal_fold,
}
use payments_boilerplate.Base.Int.{pos, eqb_ℤ}
use payments_boilerplate.Payments.Transition.{
  outcome_other, apply, no_op, conflict, Transition, decide,
}
use payments_boilerplate.Webhooks.{Event}
use payments_boilerplate.Consumer.Ports.{
  Link, Error, incompatible_api_version, unreadable_payload, missing_reference, aggregate_not_found,
  reference_mismatch, amount_mismatch, state_conflict, invariant_violated, foreign, SessionOutcome,
  Aggregate, InboxEntry, Reference, Effect,
}

pub record Interpreter : Type 0 where
  pub provider : String
  pub interpret : Event → Result Error SessionOutcome

eq_link : Link → Link → Bool
eq_link incompatible_api_version incompatible_api_version = true
eq_link unreadable_payload unreadable_payload = true
eq_link missing_reference missing_reference = true
eq_link aggregate_not_found aggregate_not_found = true
eq_link reference_mismatch reference_mismatch = true
eq_link amount_mismatch amount_mismatch = true
eq_link state_conflict state_conflict = true
eq_link invariant_violated invariant_violated = true
eq_link (foreign a) (foreign b) = a == b
eq_link _ _ = false

-- `errors.Is`.
errors_is : Error → Link → Bool
unfolding eq_link
errors_is [] target = false
errors_is (l ∷ ls) target = eq_link l target || errors_is ls target

abbrev terminal_errors : List Link
terminal_errors =
    incompatible_api_version ∷ unreadable_payload ∷ missing_reference ∷ aggregate_not_found
    ∷ reference_mismatch ∷ amount_mismatch ∷ state_conflict ∷ invariant_violated ∷ []

is_any : Error → List Link → Bool
unfolding errors_is
is_any e [] = false
is_any e (t ∷ ts) = errors_is e t || is_any e ts

-- `isTerminal`.
unfoldable pub is_terminal : Error → Bool
unfolding is_any
is_terminal e = is_any e terminal_errors

-- What a decision asks the repository for.
unfoldable pub effect_of : Transition → Result Error Effect
effect_of t = elim t.decision [
  | apply ↦ ok (record {
    attempt_status = t.attempt;
    payment_status = t.payment;
    order_paid = t.order_paid;
    note = t.reason;
  })
  | no_op ↦
      ok (record {
        attempt_status = none;
        payment_status = none;
        order_paid = false;
        note = t.reason;
      })
  | conflict ↦ err (state_conflict ∷ [])
]

-- `decideEffect`.
unfoldable pub decide_effect : SessionOutcome → Aggregate → String → Result Error Effect
unfolding effect_of
decide_effect outcome aggregate expected_provider = do
  guard (equal_fold aggregate.provider expected_provider) (reference_mismatch ∷ [])
  guard
      (not (
        not (eqb_ℤ outcome.amount aggregate.amount)
        || not (equal_fold outcome.currency aggregate.currency)))
      (amount_mismatch ∷ [])
  guard
      (not (
        not (aggregate.session_id == "")
        && (not (outcome.session_id == "") && not (aggregate.session_id == outcome.session_id))))
      (reference_mismatch ∷ [])
  effect_of (decide outcome.outcome aggregate.payment_status aggregate.attempt_status)

-- The variables that the two callbacks of `handle` assign. No aggregate stands for `decided` being
-- false.
pub record Captured : Type 0 where
  pub outcome : SessionOutcome
  pub effect : Effect
  pub seen : Option Aggregate

abbrev pub captured_none : Captured
captured_none = record {
  outcome = record {
    order_id = "";
    payment_id = "";
    attempt_id = "";
    session_id = "";
    payment_intent_id = "";
    amount = pos 0;
    currency = "";
    outcome = outcome_other "";
    occurred_at = 0;
  };
  effect = record { attempt_status = none; payment_status = none; order_paid = false; note = "" };
  seen = none;
}

abbrev reference_of : SessionOutcome → Reference
reference_of o = record {
  order_id = o.order_id;
  payment_id = o.payment_id;
  attempt_id = o.attempt_id;
}

interpreted : Captured → Result Error SessionOutcome → Result Error Reference × Captured
interpreted c (err e) = (err e, c)
interpreted c (ok o) = (ok (reference_of o), record c { outcome = o })

-- The resolver that `handle` passes to `Process`.
unfoldable pub resolve_entry :
    Interpreter → InboxEntry → Captured → Result Error Reference × Captured
unfolding interpreted
resolve_entry i entry c =
    if not (entry.event.provider == i.provider)
    then (err (reference_mismatch ∷ []), c)
    else interpreted c (i.interpret entry.event)

abbrev or_zero : Effect → Result Error Effect → Effect
or_zero zero_effect (ok e) = e
or_zero zero_effect (err e) = zero_effect

-- The decider that `handle` passes to `Process`.
unfoldable pub decide_entry :
    Interpreter → InboxEntry → Aggregate → Captured → Result Error Effect × Captured
decide_entry i entry aggregate c =
    let effect = decide_effect c.outcome aggregate i.provider in
    (effect, record c { effect = or_zero captured_none.effect effect; seen = some aggregate })
