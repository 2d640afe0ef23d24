-- ===== src/Payments/Transition.antt =====
-- internal/domain/payments/transition.go: the transition matrix.
use Prim.Native.String.{◌++◌}
use payments_boilerplate.Base.{
  Bool, true, false, ◌&&◌, ◌||◌, Option, none, some, String, if◌then◌else◌,
}
use payments_boilerplate.Payments.Status.{
  Status, AttemptStatus, processing, partially_refunded, refunded, expired, status_text,
  attempt_text, eq_status, eq_attempt,
}

-- The four outcomes, and any other text an adapter might hand over.
pub data Outcome : Type 0 where
  outcome_succeeded outcome_pending outcome_failed outcome_expired : Outcome
  outcome_other : String → Outcome

pub data Decision : Type 0 where
  apply no_op conflict : Decision

-- `none` stands for the empty status: the entity does not move.
pub record Transition : Type 0 where
  pub decision : Decision
  pub attempt : Option AttemptStatus
  pub payment : Option Status
  pub order_paid : Bool
  pub reason : String

-- A transition that writes nothing.
abbrev pub idle : Decision → String → Transition
idle d r = record { decision = d; attempt = none; payment = none; order_paid = false; reason = r }

unfoldable pub attempt_settled : AttemptStatus → Bool
attempt_settled AttemptStatus.succeeded = true
attempt_settled AttemptStatus.failed = true
attempt_settled expired = true
attempt_settled AttemptStatus.cancelled = true
attempt_settled _ = false

unfoldable pub payment_settled : Status → Bool
payment_settled Status.succeeded = true
payment_settled Status.failed = true
payment_settled Status.cancelled = true
payment_settled partially_refunded = true
payment_settled refunded = true
payment_settled _ = false

unfoldable pub decide_succeeded : Status → AttemptStatus → Transition
unfolding attempt_settled payment_settled eq_status eq_attempt
decide_succeeded payment attempt =
    if eq_status payment Status.succeeded && eq_attempt attempt AttemptStatus.succeeded
    then idle no_op "payment already succeeded"
    else (if eq_status payment partially_refunded || eq_status payment refunded
        then idle no_op ("payment already " ++ status_text payment)
        else (if payment_settled payment
            then idle conflict
                ("provider reports success over a payment already " ++ status_text payment)
            else (if eq_attempt attempt AttemptStatus.succeeded
                then record {
                  decision = apply;
                  attempt = none;
                  payment = some Status.succeeded;
                  order_paid = true;
                  reason = "attempt already succeeded; settling the payment only";
                }
                else (if attempt_settled attempt
                    then idle conflict (
                        "provider reports success over an attempt already " ++ attempt_text attempt)
                    else record {
                      decision = apply;
                      attempt = some AttemptStatus.succeeded;
                      payment = some Status.succeeded;
                      order_paid = true;
                      reason = "";
                    }))))

unfoldable pub decide_pending : Status → AttemptStatus → Transition
unfolding attempt_settled payment_settled eq_status
decide_pending payment attempt =
    if payment_settled payment
    then idle no_op
        ("payment already " ++ status_text payment ++ "; a completed session adds nothing")
    else (if eq_status payment processing
        then idle no_op "payment already processing"
        else (if attempt_settled attempt
            then idle no_op
                ("attempt already " ++ attempt_text attempt ++ "; a completed session adds nothing")
            else record {
              decision = apply;
              attempt = none;
              payment = some processing;
              order_paid = false;
              reason = "";
            }))

unfoldable pub decide_failed : Status → AttemptStatus → Transition
unfolding attempt_settled payment_settled eq_status eq_attempt
decide_failed payment attempt =
    if eq_status payment Status.failed && eq_attempt attempt AttemptStatus.failed
    then idle no_op "payment already failed"
    else (if eq_status payment Status.succeeded
        then idle no_op "payment already succeeded"
        else (if payment_settled payment
            then idle no_op ("payment already " ++ status_text payment)
            else (if eq_attempt attempt AttemptStatus.failed
                then record {
                  decision = apply;
                  attempt = none;
                  payment = some Status.failed;
                  order_paid = false;
                  reason = "attempt already failed; failing the payment only";
                }
                else (if attempt_settled attempt
                    then idle no_op ("attempt already " ++ attempt_text attempt)
                    else record {
                      decision = apply;
                      attempt = some AttemptStatus.failed;
                      payment = some Status.failed;
                      order_paid = false;
                      reason = "";
                    }))))

unfoldable pub decide_expired : Status → AttemptStatus → Transition
unfolding attempt_settled payment_settled
decide_expired payment attempt =
    if attempt_settled attempt
    then idle no_op ("attempt already " ++ attempt_text attempt)
    else (if payment_settled payment
        then idle no_op
            ("payment already " ++ status_text payment ++ "; the session expiring changes nothing")
        else record {
          decision = apply;
          attempt = some expired;
          payment = none;
          order_paid = false;
          reason = "";
        })

-- `Decide`.
unfoldable pub decide : Outcome → Status → AttemptStatus → Transition
unfolding decide_succeeded decide_pending decide_failed decide_expired
decide outcome_succeeded payment attempt = decide_succeeded payment attempt
decide outcome_pending payment attempt = decide_pending payment attempt
decide outcome_failed payment attempt = decide_failed payment attempt
decide outcome_expired payment attempt = decide_expired payment attempt
decide (outcome_other text) payment attempt = idle conflict ("unknown financial outcome: " ++ text)
