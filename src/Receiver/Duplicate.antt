-- ===== src/Receiver/Duplicate.antt =====
-- What a second delivery of an event is answered.
use payments_boilerplate.Base.{◌≡◌, refl, inl, inr, true, false, none, Bool-cases, ok}
use payments_boilerplate.Webhooks.{Event, handled, Message}
use payments_boilerplate.Receiver.Inbox.{
  Inbox, insert_webhook_event, Faults, store_ignored, store_pending,
}
use payments_boilerplate.Receiver.Once.{Knows, receive-Knows, built_request}
use payments_boilerplate.Receiver.Service.{
  Service, World, ReceiveInput, ProviderEvent, Outcome, outcome_duplicate, build_event,
  build_message, queue, store, accept, verified, receive,
}

insert_known :
    (x : Inbox) (e : Event)
    → Knows x e.provider e.provider_event_id
    → insert_webhook_event x e ≡ ok none
unfolding insert_webhook_event
insert_known x e (id, old) = rw (insert_webhook_event, old) refl

-- The database answers as far as the insertion of the event.
pub record IsReachable (f : Faults) : Type 0 where
  pub begun : f.begin ≡ none
  pub inserts : f.insert_event ≡ none

store_ignored-known :
    (f : Faults) (x : Inbox) (e : Event)
    → IsReachable f
    → Knows x e.provider e.provider_event_id
    → store_ignored f x e ≡ (ok false, x)
unfolding store_ignored
store_ignored-known f x e up k = rw (store_ignored, up.inserts, insert_known x e k) refl

store_pending-known :
    (f : Faults) (x : Inbox) (e : Event) (m : Message)
    → IsReachable f
    → Knows x e.provider e.provider_event_id
    → store_pending f x e m ≡ (ok false, x)
unfolding store_pending
store_pending-known f x e m up k = rw (store_pending, up.begun, up.inserts, insert_known x e k) refl

-- The request can be made into an event and, where it is handled, its message: the generators of
-- identifiers answer, and the event is well formed.
pub record IsBuildable (s : Service) (w : World) (input : ReceiveInput) (p : ProviderEvent)
    : Type 0 where
  pub event : Event
  pub built : build_event s w input p ≡ ok event
  pub message : handled event ≡ true → (m : Message) × (build_message w input p event ≡ ok m)

store-known :
    (s : Service) (w : World) (input : ReceiveInput) (p : ProviderEvent) (x : Inbox)
    (b : IsBuildable s w input p)
    → IsReachable w.faults
    → Knows x b.event.provider b.event.provider_event_id
    → ((store s w input p b.event x).outcome ≡ ok outcome_duplicate)
      × ((store s w input p b.event x).inbox ≡ x)
unfolding store queue
store-known s w input p x b up k = elim (Bool-cases (handled b.event)) [
  | inr dead ↦
      let same = store_ignored-known w.faults x b.event up k in
      (rw (store, dead, same) refl, rw (store, dead, same) refl)
  | inl live ↦
      let (m, made) = b.message live in
      let same = store_pending-known w.faults x b.event m up k in
      (rw (store, live, queue, made, same) refl, rw (store, live, queue, made, same) refl)
]

receive-known :
    (s : Service) (w : World) (input : ReceiveInput) (p : ProviderEvent) (x : Inbox)
    → input.read_error ≡ none
    → s.verify input.raw_body input.signature ≡ ok p
    → IsBuildable s w input p
    → IsReachable w.faults
    → Knows x s.provider p.id
    → ((receive s w input x).outcome ≡ ok outcome_duplicate) × ((receive s w input x).inbox ≡ x)
unfolding receive verified accept
receive-known s w input p x read genuine b up k =
    let (by, of, _) = built_request s w input p b.event b.built in
    let same = store-known s w input p x b up (rw (by, of) k) in
    (
      rw (receive, read, verified, genuine, accept, b.built) same.0,
      rw (receive, read, verified, genuine, accept, b.built) same.1,
    )

-- An event is stored once: after an answer that is no error, a request that verifies as the same event
-- of the provider, in whatever bytes, is answered as a duplicate and changes nothing, if the database
-- can be reached and the event can be built.
pub receive_twice :
    (s : Service) (w w' : World) (first second : ReceiveInput) (p p' : ProviderEvent) (x : Inbox)
    (o : Outcome)
    → s.verify first.raw_body first.signature ≡ ok p
    → (receive s w first x).outcome ≡ ok o
    → second.read_error ≡ none
    → s.verify second.raw_body second.signature ≡ ok p'
    → p'.id ≡ p.id
    → IsBuildable s w' second p'
    → IsReachable w'.faults
    → let x' = (receive s w first x).inbox in
      ((receive s w' second x').outcome ≡ ok outcome_duplicate)
      × ((receive s w' second x').inbox ≡ x')
receive_twice s w w' first second p p' x o genuine h read genuine' same b up =
    receive-known s w' second p' (receive s w first x).inbox read genuine' b up
      (rw same (receive-Knows s w first p x o genuine h))
