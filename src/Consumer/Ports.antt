-- ===== src/Consumer/Ports.antt =====
-- internal/application/consumer/ports.go: the errors of the use case and the values that cross its
-- ports. An error is the list of the identities in its chain, which is what `errors.Is` walks; the
-- wording of messages is not kept.
use payments_boilerplate.Base.{ℕ, Bool, List, String, Option}
use payments_boilerplate.Base.Int.{ℤ}
use payments_boilerplate.Payments.Status as Payment
use payments_boilerplate.Payments.Transition.{Outcome}
use payments_boilerplate.Orders
use payments_boilerplate.Webhooks.{Event}
use payments_boilerplate.Webhooks

-- One error of a chain: a sentinel of this package, or an error of another package.
pub data Link : Type 0 where
  incompatible_api_version unreadable_payload missing_reference aggregate_not_found : Link
  reference_mismatch amount_mismatch state_conflict invariant_violated : Link
  foreign : String → Link

abbrev pub Error : Type 0
Error = List Link

pub record SessionOutcome : Type 0 where
  pub order_id : String
  pub payment_id : String
  pub attempt_id : String
  pub session_id : String
  pub payment_intent_id : String
  pub amount : ℤ
  pub currency : String
  pub outcome : Outcome
  pub occurred_at : ℕ

-- The locked rows of one payment. An empty session id stands for a NULL column.
pub record Aggregate : Type 0 where
  pub order_id : String
  pub order_status : Orders.Status
  pub payment_id : String
  pub payment_status : Payment.Status
  pub provider : String
  pub amount : ℤ
  pub currency : String
  pub attempt_id : String
  pub attempt_status : Payment.AttemptStatus
  pub session_id : String

pub record InboxEntry : Type 0 where
  pub event : Event
  pub attempts : ℕ
  pub status : Webhooks.Status

pub record Reference : Type 0 where
  pub order_id : String
  pub payment_id : String
  pub attempt_id : String

-- What the decider asks the repository to write; `none` leaves the entity untouched.
pub record Effect : Type 0 where
  pub attempt_status : Option Payment.AttemptStatus
  pub payment_status : Option Payment.Status
  pub order_paid : Bool
  pub note : String

-- `Result` of the port: what applying one event did.
pub record Applied : Type 0 where
  pub applied : Bool
  pub note : String
