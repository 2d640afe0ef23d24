-- ===== src/Broker/Kept.antt =====
-- No delivery is lost: the consumer's steps follow the plan.
use payments_boilerplate.Base.{
  ℕ, ◌≡◌, refl, sym, ◌⊎◌, inl, inr, ◌↔◌, Bool, true, false, String, List, [], ◌∷◌, Option, none,
  some, arith, Option-cases, Result, Result-cases, ok, err,
}
use payments_boilerplate.Consumer.Ports.{Error}
use payments_boilerplate.Consumer.Service.{Disposition, done, retry, dead, Handling}
use payments_boilerplate.Broker.Retry.{tier_for}
use payments_boilerplate.Broker.Delivery.{
  Delivery, Exchange, dead_letter_exchange, retry_exchange, Publication, copy_of, Reply, Broker,
  Hooks, Notice, Consumer, Settled, republish_result, republish, kept_copies, ack, acknowledged_by,
  republish_then_ack, republish_to_dead_letter, republish_for_retry, webhook_event_id, settle,
  reported, noted, answered, handle,
}
use payments_boilerplate.Broker.Plan.{tier_or_dead, destination, Plan, leave, plan_of, plan}

-- What the broker's documentation promises: a mandatory publication that is confirmed and was not
-- returned is in a queue.
abbrev pub IsFaithful : Broker → Type 0
IsFaithful b =
    (p : Publication)
    → (b.publish p).wait_error ≡ none
    → (b.publish p).acked ≡ true
    → (b.publish p).returned ≡ false
    → (b.publish p).kept ≡ true

abbrev pub copies_for : Option Exchange → Delivery → List Publication
copies_for none d = []
copies_for (some x) d = copy_of x d ∷ []

-- A settlement follows a plan: an acknowledged delivery has left exactly the planned copy, the call
-- reports no error exactly when it has acknowledged, and no copy was made but the planned one.
pub record Follows (d : Delivery) (p : Plan) (r : Settled) : Type 0 where
  pub acknowledged :
      r.acknowledged ≡ true → (x : Option Exchange) × (p ≡ leave x) × (r.copies ≡ copies_for x d)
  pub reports : (r.failure ≡ none) ↔ (r.acknowledged ≡ true)
  pub only_planned :
      (r.copies ≡ []) ⊎ ((x : Exchange) × (p ≡ leave (some x)) × (r.copies ≡ copy_of x d ∷ []))

confirmed :
    (hooks : Hooks) (r : Reply) (x : Exchange) (d : Delivery) (u : Unit {0})
    → republish_result hooks r x d ≡ ok u
    → (r.wait_error ≡ none) × (r.acked ≡ true) × (r.returned ≡ false)
unfolding republish_result
confirmed hooks r x d u h = ground arith

-- The last step: the acknowledgement succeeds or reports its error.
acknowledged_by-Follows :
    (a : Result Error (Unit {0})) (d : Delivery) (x : Option Exchange) (notices : List Notice)
    → Follows d (leave x) (acknowledged_by a (copies_for x d) notices)
acknowledged_by-Follows (ok u) d none notices = record {
  acknowledged = λ h. (none, refl, refl);
  reports = (λ h. refl, λ h. refl);
  only_planned = inl refl;
}
acknowledged_by-Follows (ok u) d (some x) notices = record {
  acknowledged = λ h. (some x, refl, refl);
  reports = (λ h. refl, λ h. refl);
  only_planned = inr (x, refl, refl);
}
acknowledged_by-Follows (err e) d none notices = record {
  acknowledged = λ h. absurd (cc h);
  reports = (λ h. absurd (cc h), λ h. absurd (cc h));
  only_planned = inl refl;
}
acknowledged_by-Follows (err e) d (some x) notices = record {
  acknowledged = λ h. absurd (cc h);
  reports = (λ h. absurd (cc h), λ h. absurd (cc h));
  only_planned = inr (x, refl, refl);
}

-- A copy that was not confirmed may be there or not; the original stays.
unconfirmed-Follows :
    (e : Error) (d : Delivery) (x : Exchange) (kept : Bool)
    → Follows d (leave (some x)) (record {
      failure = some e;
      copies = kept_copies kept (copy_of x d);
      acknowledged = false;
      notices = [];
    })
unconfirmed-Follows e d x true = record {
  acknowledged = λ h. absurd (cc h);
  reports = (λ h. absurd (cc h), λ h. absurd (cc h));
  only_planned = inr (x, refl, refl);
}
unconfirmed-Follows e d x false = record {
  acknowledged = λ h. absurd (cc h);
  reports = (λ h. absurd (cc h), λ h. absurd (cc h));
  only_planned = inl refl;
}

republish_then_ack-Follows :
    (c : Consumer) (x : Exchange) (d : Delivery) (n : ℕ)
    → IsFaithful c.broker
    → Follows d (leave (some x)) (republish_then_ack c x d n)
unfolding republish_then_ack republish
republish_then_ack-Follows c x d n faithful =
    let p = copy_of x d in
    let r = c.broker.publish p in
    elim (Result-cases (republish_result c.hooks r x d)) [
      | inl (u, fine) ↦
          let (waited, acked, routed) = confirmed c.hooks r x d u fine in
          let kept = faithful p waited acked routed in
          rw (republish_then_ack, republish, fine, kept)
            (acknowledged_by-Follows (ack c d) d (some x) _)
      | inr (e, fails) ↦
          rw (republish_then_ack, republish, fails) (unconfirmed-Follows e d x r.kept)
    ]

republish_for_retry-Follows :
    (c : Consumer) (d : Delivery) (n : ℕ)
    → IsFaithful c.broker
    → Follows d (leave (some (tier_or_dead (tier_for c.retry_tiers n)))) (republish_for_retry c d n)
unfolding republish_for_retry republish_to_dead_letter
republish_for_retry-Follows c d n faithful = elim (Option-cases (tier_for c.retry_tiers n)) [
  | inl dry ↦
      rw (republish_for_retry, dry) (republish_then_ack-Follows c dead_letter_exchange d n faithful)
  | inr (t, tier) ↦
      rw (republish_for_retry, tier) (republish_then_ack-Follows c (retry_exchange t) d n faithful)
]

settle-Follows :
    (c : Consumer) (d : Delivery) (x : Disposition) (n : ℕ)
    → IsFaithful c.broker
    → Follows d (leave (destination c.retry_tiers x n)) (settle c d x n)
unfolding settle republish_to_dead_letter
settle-Follows c d done n faithful = acknowledged_by-Follows (ack c d) d none []
settle-Follows c d retry n faithful = republish_for_retry-Follows c d n faithful
settle-Follows c d dead n faithful = republish_then_ack-Follows c dead_letter_exchange d n faithful

-- Observers hear of what happened; it is not changed by that.
same-Follows :
    (d : Delivery) (p : Plan) (r r' : Settled)
    → r'.failure ≡ r.failure
    → r'.copies ≡ r.copies
    → r'.acknowledged ≡ r.acknowledged
    → Follows d p r
    → Follows d p r'
same-Follows d p r r' f c a h = record {
  acknowledged = λ k. (rw c (h.acknowledged (rw (sym a) k)));
  reports = rw (f, a) h.reports;
  only_planned = rw c h.only_planned;
}

reported-Follows :
    (d : Delivery) (p : Plan) (r : Settled) → Follows d p r → Follows d p (reported d r)
reported-Follows d p r h = same-Follows d p r (reported d r) refl refl refl h

noted-Follows :
    (d : Delivery) (p : Plan) (first : List Notice) (r : Settled)
    → Follows d p r
    → Follows d p (noted first r)
noted-Follows d p first r h = same-Follows d p r (noted first r) refl refl refl h

answered-Follows :
    (c : Consumer) (d : Delivery) (a : Result Error Handling)
    → IsFaithful c.broker
    → Follows d (plan_of c.retry_tiers a) (answered c d a)
unfolding answered
answered-Follows c d (err e) faithful = record {
  acknowledged = λ h. absurd (cc h);
  reports = (λ h. absurd (cc h), λ h. absurd (cc h));
  only_planned = inl refl;
}
answered-Follows c d (ok h) faithful =
    reported-Follows d _ _ (settle-Follows c d h.disposition h.attempts faithful)

-- No message is lost or forged on its way through the consumer. At a broker that keeps what it
-- confirms and has not returned: a delivery is acknowledged only when its plan says that it may leave,
-- and then exactly the planned copy, with the same body and routing key, is at the broker (none for a
-- message that was handled, one in a retry tier, or one in the dead letter); no other copy is ever
-- made; and the session goes on exactly when the delivery was acknowledged.
pub handle-Follows :
    (c : Consumer) (handler : String → Result Error Handling) (d : Delivery)
    → IsFaithful c.broker
    → Follows d (plan c handler d) (handle c handler d)
unfolding plan handle republish_to_dead_letter
handle-Follows c handler d faithful = elim (Result-cases (webhook_event_id c d.body)) [
  | inl (id, readable) ↦
      rw (plan, handle, readable)
        (noted-Follows d _ _ _ (answered-Follows c d (handler id) faithful))
  | inr (e, unreadable) ↦
      rw (plan, handle, unreadable)
        (noted-Follows d _ _ _
          (reported-Follows d _ _ (republish_then_ack-Follows c dead_letter_exchange d 0 faithful)))
]
