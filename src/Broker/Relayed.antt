-- ===== src/Broker/Relayed.antt =====
-- The relay over the publisher: internal/application/outbox with internal/adapters/rabbitmq/publisher.go.
use payments_boilerplate.Base.{
  ℕ, ◌≡◌, refl, sym, ◌∙◌, ◌⊎◌, inl, inr, String, List, Option, none, some, Result, ok, err,
}
use payments_boilerplate.Webhooks.{MessageStatus}
use payments_boilerplate.Receiver.Inbox.{Cause}
use payments_boilerplate.Outbox.Store.{Error, Row, Db, Lease}
use payments_boilerplate.Outbox.Relay.{Service, World, claim_batch, run_once}
use payments_boilerplate.Outbox.Confirmed.{In}
use payments_boilerplate.Outbox.Cycle.{run_once-confirmed}
use payments_boilerplate.Broker.Publisher.{MessageBody, Publisher, Attempt, publish}
use payments_boilerplate.Broker.Routed.{IsRouted, publish-IsRouted}

abbrev pub failure : Result Error (Unit {0}) → Option Error
failure (ok u) = none
failure (err e) = some e

failure-none : (r : Result Error (Unit {0})) → failure r ≡ none → r ≡ ok tt
failure-none (ok tt) h = refl
failure-none (err e) h = absurd (cc h)

-- What the publisher and its broker are for the message of a lease.
pub record Wire : Type 0 where
  pub marshal : MessageBody → Result Cause (List ℕ)
  pub attempt : Lease → Attempt
  pub publisher : Lease → Publisher

-- A row is published only over a queue: if every message of a cycle is given to the publisher, then a
-- message that the cycle leaves published was published before it, or the cycle leased it, the broker was
-- given it once, confirmed it and sent nothing back.
pub run_once-IsRouted :
    (s : Service) (w : World) (wire : Wire) (db : Db) (key : String) (r : Row)
    → ((l : Lease)
        → (w.meets l).publish
          ≡ failure (publish wire.marshal (wire.attempt l) l.message (wire.publisher l)).result)
    → (run_once s w db).db.rows key ≡ some r
    → r.status ≡ MessageStatus.published
    → (db.rows key ≡ some r)
      ⊎ ((l : Lease) × In l (claim_batch s w db).1
          × (key ≡ l.message.id)
          × IsRouted
              (wire.attempt l)
              l.message
              (publish wire.marshal (wire.attempt l) l.message (wire.publisher l)).sent)
run_once-IsRouted s w wire db key r given there h = elim (run_once-confirmed s w db key r there h) [
  | inl before ↦ inl before
  | inr (l, leased, is_id, fine) ↦ inr (
    l,
    leased,
    is_id,
    publish-IsRouted wire.marshal (wire.attempt l) l.message (wire.publisher l)
        (failure-none _ (sym (given l) ∙ fine)),
  )
]
