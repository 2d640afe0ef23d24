-- ===== src/Broker/Applied.antt =====
-- The consumer at the broker together with the use case that it calls: what leaves the queue for good
-- has been applied.
use payments_boilerplate.Base.{
  ℕ, ◌≡◌, refl, sym, ap, ◌∙◌, true, String, List, [], Option, none, some, arith, Result, ok, err,
}
use payments_boilerplate.Consumer.Ports.{Error}
use payments_boilerplate.Consumer.Store.{Db}
use payments_boilerplate.Consumer.Service.{Disposition, done, retry, dead, Handling, Service, World}
use payments_boilerplate.Consumer.Service as UseCase
use payments_boilerplate.Consumer.Process.Atomic.{IsClosed}
use payments_boilerplate.Consumer.Redelivery.{handle-IsClosed}
use payments_boilerplate.Broker.Retry.{RetryTier}
use payments_boilerplate.Broker.Delivery.{Delivery, Exchange, Consumer, webhook_event_id, handle}
use payments_boilerplate.Broker.Plan.{Plan, leave, destination, plan_of, plan}
use payments_boilerplate.Broker.Kept.{IsFaithful, copies_for, handle-Follows}

-- The use case as a consumer's handler.
abbrev pub handler_of : Service → World → Db → String → Result Error Handling
handler_of s w db id = (UseCase.handle s w id db).handling

no_copy : (x : Option Exchange) (d : Delivery) → copies_for x d ≡ [] → x ≡ none
no_copy none d h = refl
no_copy (some x) d h = ground arith

not_moved :
    (tiers : List RetryTier) (x : Disposition) (n : ℕ) → destination tiers x n ≡ none → x ≡ done
not_moved tiers done n h = refl
not_moved tiers retry n h = ground arith
not_moved tiers dead n h = ground arith

left : Plan → Option Exchange
left Plan.stay = none
left (Plan.leave x) = x

was_done :
    (tiers : List RetryTier) (a : Result Error Handling)
    → plan_of tiers a ≡ leave none
    → (h : Handling) × (a ≡ ok h) × (h.disposition ≡ done)
unfolding left
was_done tiers (err e) p = ground arith
was_done tiers (ok h) p = (h, refl, not_moved tiers h.disposition h.attempts (ap left p))

plan_readable :
    (c : Consumer) (f : String → Result Error Handling) (d : Delivery) (id : String)
    → webhook_event_id c d.body ≡ ok id
    → plan c f d ≡ plan_of c.retry_tiers (f id)
unfolding plan
plan_readable c f d id readable = rw (plan, readable) refl

-- A message that leaves the queue with no copy anywhere has been applied: its inbox entry is processed
-- in the database that the call left.
pub handle_consumed :
    (c : Consumer) (s : Service) (w : World) (db : Db) (d : Delivery) (id : String)
    → IsFaithful c.broker
    → webhook_event_id c d.body ≡ ok id
    → (handle c (handler_of s w db) d).acknowledged ≡ true
    → (handle c (handler_of s w db) d).copies ≡ []
    → IsClosed (UseCase.handle s w id db).db id
handle_consumed c s w db d id faithful readable acked alone =
    let follows = handle-Follows c (handler_of s w db) d faithful in
    let (x, planned, copied) = follows.acknowledged acked in
    let gone : x ≡ none = no_copy x d (sym copied ∙ alone) in
    let (h, handled, is_done) =
      was_done c.retry_tiers (handler_of s w db id)
        (sym (plan_readable c (handler_of s w db) d id readable) ∙ planned ∙ ap leave gone) in
    handle-IsClosed s w id db h handled is_done
