-- ===== src/Broker/Plan.antt =====
-- What should become of a delivery: the contract of the consumer, without the steps that get there.
use payments_boilerplate.Base.{ℕ, String, List, Option, none, some, Result, ok, err}
use payments_boilerplate.Consumer.Ports.{Error}
use payments_boilerplate.Consumer.Service.{Disposition, done, retry, dead, Handling}
use payments_boilerplate.Broker.Retry.{RetryTier, tier_for}
use payments_boilerplate.Broker.Delivery.{
  Exchange, dead_letter_exchange, retry_exchange, Consumer, Delivery, webhook_event_id,
}

abbrev pub tier_or_dead : Option RetryTier → Exchange
tier_or_dead none = dead_letter_exchange
tier_or_dead (some tier) = retry_exchange tier

-- Where the copy of a handled message goes: nowhere, to a tier, or to the dead letter.
abbrev pub destination : List RetryTier → Disposition → ℕ → Option Exchange
destination tiers done attempts = none
destination tiers retry attempts = some (tier_or_dead (tier_for tiers attempts))
destination tiers dead attempts = some dead_letter_exchange

-- A delivery stays with the broker, or leaves its queue with at most one copy.
pub data Plan : Type 0 where
  stay : Plan
  leave : Option Exchange → Plan

abbrev pub plan_of : List RetryTier → Result Error Handling → Plan
plan_of tiers (err e) = stay
plan_of tiers (ok h) = leave (destination tiers h.disposition h.attempts)

-- An unreadable message goes to the dead letter; the handler decides of any other.
unfoldable pub plan : Consumer → (String → Result Error Handling) → Delivery → Plan
unfolding webhook_event_id
plan c handler d = elim (webhook_event_id c d.body) [
  | err e ↦ leave (some dead_letter_exchange)
  | ok id ↦ plan_of c.retry_tiers (handler id)
]
