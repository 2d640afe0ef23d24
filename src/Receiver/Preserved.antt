-- ===== src/Receiver/Preserved.antt =====
-- Every way through `Receive` keeps the inbox and the outbox paired.
use payments_boilerplate.Base.{
  map_error-ok, ℕ, ◌≡◌, refl, inl, inr, Bool, true, false, not, String, List, Option, none, some,
  arith, Bool-cases, Option-cases, Result, Result-cases, ok, err,
}
use payments_boilerplate.Webhooks.{Kind, Event, new_event, handled, Message, new_message}
use payments_boilerplate.Receiver.Inbox.{
  Inbox, Cause, with_event, with_message, insert_webhook_event, insert_outbox_event, Commit,
  committed, refused, lost, Faults, try, finish, store_ignored, store_message, store_pending,
}
use payments_boilerplate.Receiver.Paired.{
  is_skipped, IsPaired, with_event-IsIndexed, with_event-IsQueued, with_message-IsQueued,
}
use payments_boilerplate.Receiver.Service.{
  Service, World, ReceiveInput, ProviderEvent, Outcome, invalid_event, invalid_message, build_event,
  build_message, stored_as, queue, store, accept, verified, receive,
}

pub try-ok :
    {A : Type 0} (f : Option Cause) (r : Result Cause A) (a : A) → try f r ≡ ok a → r ≡ ok a
try-ok none r a h = h
try-ok (some e) r a h = ground arith

-- What an insertion has found, and made.
pub inserted :
    (x x' : Inbox) (e : Event)
    → insert_webhook_event x e ≡ ok (some x')
    → (x.by_provider e.provider e.provider_event_id ≡ none)
      × (x.events e.id ≡ none)
      × (x' ≡ with_event x e)
unfolding insert_webhook_event
inserted x x' e h = elim (Option-cases (x.by_provider e.provider e.provider_event_id)) [
  | inr (id, old) ↦ absurd (cc (rw (insert_webhook_event, old) at h))
  | inl new_event ↦ elim (Option-cases (x.events e.id)) [
    | inr (r, taken) ↦ absurd (cc (rw (insert_webhook_event, new_event, taken) at h))
    | inl new_key ↦ (new_event, new_key, cc (rw (insert_webhook_event, new_event, new_key) at h))
  ]
]

pub queued_up :
    (x x' : Inbox) (m : Message) (now : ℕ)
    → insert_outbox_event x m now ≡ ok x'
    → (x.messages.rows m.id ≡ none) × (x.by_event m.event_id ≡ none) × (x' ≡ with_message x m now)
unfolding insert_outbox_event
queued_up x x' m now h = elim (Option-cases (x.messages.rows m.id)) [
  | inr (r, taken) ↦ absurd (cc (rw (insert_outbox_event, taken) at h))
  | inl new_key ↦ elim (Option-cases (x.by_event m.event_id)) [
    | inr (id, old) ↦ absurd (cc (rw (insert_outbox_event, new_key, old) at h))
    | inl new_event ↦ (new_key, new_event, cc (rw (insert_outbox_event, new_key, new_event) at h))
  ]
]

finish-IsPaired :
    (k : Commit) (before after : Inbox)
    → IsPaired before
    → IsPaired after
    → IsPaired (finish k before after).1
unfolding finish
finish-IsPaired committed before after h h' = h'
finish-IsPaired (refused e) before after h h' = h
finish-IsPaired (lost e) before after h h' = h'

ignored-IsPaired :
    (x x' : Inbox) (e : Event)
    → is_skipped e.status ≡ true
    → (x.by_provider e.provider e.provider_event_id ≡ none)
      × (x.events e.id ≡ none)
      × (x' ≡ with_event x e)
    → IsPaired x
    → IsPaired x'
ignored-IsPaired x x' e skipped (new_event, new_key, made) h = rw made (record {
  indexed = with_event-IsIndexed x e new_key new_event h.indexed;
  queued = with_event-IsQueued x e new_key new_event skipped h.queued;
})

pending-IsPaired :
    (x x' x'' : Inbox) (e : Event) (m : Message) (now : ℕ)
    → is_skipped e.status ≡ false
    → m.event_id ≡ e.id
    → (x.by_provider e.provider e.provider_event_id ≡ none)
      × (x.events e.id ≡ none)
      × (x' ≡ with_event x e)
    → (x'.messages.rows m.id ≡ none)
      × (x'.by_event m.event_id ≡ none)
      × (x'' ≡ with_message x' m now)
    → IsPaired x
    → IsPaired x''
pending-IsPaired x x' x'' e m now live mine (new_event, new_key, made)
      (new_message, new_pair, queued) h =
    rw (queued, made)
      (record {
        indexed = with_event-IsIndexed x e new_key new_event h.indexed;
        queued =
            with_message-IsQueued x e new_key new_event m now (rw made at new_message)
              (rw made at new_pair) mine live h.queued;
      })

store_message-IsPaired :
    (f : Faults) (x x' : Inbox) (e : Event) (m : Message)
    → is_skipped e.status ≡ false
    → m.event_id ≡ e.id
    → insert_webhook_event x e ≡ ok (some x')
    → IsPaired x
    → IsPaired (store_message f x x' m).1
unfolding store_message
store_message-IsPaired f x x' e m live mine new h =
    elim (Result-cases (try f.insert_message (insert_outbox_event x' m f.now))) [
      | inr (cause, fails) ↦ rw (store_message, fails) h
      | inl (x'', fine) ↦
          let both =
            pending-IsPaired x x' x'' e m f.now live mine (inserted x x' e new)
              (queued_up x' x'' m f.now (try-ok f.insert_message _ x'' fine)) h in
          rw (store_message, fine) (finish-IsPaired f.commit x x'' h both)
    ]

store_pending-IsPaired :
    (f : Faults) (x : Inbox) (e : Event) (m : Message)
    → is_skipped e.status ≡ false
    → m.event_id ≡ e.id
    → IsPaired x
    → IsPaired (store_pending f x e m).1
unfolding store_pending
store_pending-IsPaired f x e m live mine h = elim (Option-cases f.begin) [
  | inr (cause, fails) ↦ rw (store_pending, fails) h
  | inl begun ↦ elim (Result-cases (try f.insert_event (insert_webhook_event x e))) [
    | inr (cause, fails) ↦ rw (store_pending, begun, fails) h
    | inl (o, fine) ↦ elim (Option-cases o) [
      | inl old ↦ rw (store_pending, begun, fine, old) h
      | inr (x', new) ↦
          rw (store_pending, begun, fine, new)
            (store_message-IsPaired f x x' e m live mine
              (rw new at (try-ok f.insert_event _ o fine)) h)
    ]
  ]
]

pub stored_as-inbox :
    (o : Outcome) (kind : Kind) (r : Result Cause Bool × Inbox) → (stored_as o kind r).inbox ≡ r.1
stored_as-inbox o kind (err e, x) = refl
stored_as-inbox o kind (ok b, x) = refl

store_ignored-IsPaired :
    (f : Faults) (x : Inbox) (e : Event)
    → is_skipped e.status ≡ true
    → IsPaired x
    → IsPaired (store_ignored f x e).1
unfolding store_ignored
store_ignored-IsPaired f x e skipped h =
    elim (Result-cases (try f.insert_event (insert_webhook_event x e))) [
      | inr (cause, fails) ↦ rw (store_ignored, fails) h
      | inl (o, fine) ↦ elim (Option-cases o) [
        | inl old ↦ rw (store_ignored, fine, old) h
        | inr (x', new) ↦
            let found = inserted x x' e (rw new at (try-ok f.insert_event _ o fine)) in
            rw (store_ignored, fine, new)
              (finish-IsPaired f.commit x x' h (ignored-IsPaired x x' e skipped found h))
      ]
    ]

status_of_kind :
    (json_valid : List ℕ → Bool) (id provider pid event_type : String) (kind : Kind)
    (raw payload : List ℕ) (now : ℕ) (e : Event)
    → new_event json_valid id provider pid event_type kind raw payload now ≡ ok e
    → is_skipped e.status ≡ not (handled e)
unfolding new_event
status_of_kind json_valid id provider pid event_type kind raw payload now e h = ground arith

message_event :
    (id : String) (e : Event) (correlation : String) (at now : ℕ) (m : Message)
    → new_message id e correlation at now ≡ ok m
    → m.event_id ≡ e.id
unfolding new_message
message_event id e correlation at now m h = ground arith

built_status :
    (s : Service) (w : World) (input : ReceiveInput) (p : ProviderEvent) (e : Event)
    → build_event s w input p ≡ ok e
    → is_skipped e.status ≡ not (handled e)
unfolding build_event
built_status s w input p e h = elim (Result-cases w.new_event_id) [
  | inr (cause, none_made) ↦ absurd (cc (rw (build_event, none_made) at h))
  | inl (id, made) ↦
      status_of_kind s.json_valid id s.provider p.id p.event_type p.kind input.raw_body p.payload
        w.now e (map_error-ok (λ c. invalid_event) _ e (rw (build_event, made) at h))
]

built_message :
    (w : World) (input : ReceiveInput) (p : ProviderEvent) (e : Event) (m : Message)
    → build_message w input p e ≡ ok m
    → m.event_id ≡ e.id
unfolding build_message
built_message w input p e m h = elim (Result-cases w.new_message_id) [
  | inr (cause, none_made) ↦ absurd (cc (rw (build_message, none_made) at h))
  | inl (id, made) ↦
      message_event id e input.correlation_id p.occurred_at w.now m
        (map_error-ok (λ c. invalid_message) _ m (rw (build_message, made) at h))
]

queue-IsPaired :
    (s : Service) (w : World) (input : ReceiveInput) (p : ProviderEvent) (e : Event) (x : Inbox)
    → is_skipped e.status ≡ false
    → IsPaired x
    → IsPaired (queue s w input p e x).inbox
unfolding queue
queue-IsPaired s w input p e x live h = elim (Result-cases (build_message w input p e)) [
  | inr (cause, fails) ↦ rw (queue, fails) h
  | inl (m, fine) ↦
      rw (queue, fine, stored_as-inbox)
        (store_pending-IsPaired w.faults x e m live (built_message w input p e m fine) h)
]

accept-IsPaired :
    (s : Service) (w : World) (input : ReceiveInput) (p : ProviderEvent) (x : Inbox)
    → IsPaired x
    → IsPaired (accept s w input p x).inbox
unfolding accept store
accept-IsPaired s w input p x h = elim (Result-cases (build_event s w input p)) [
  | inr (cause, fails) ↦ rw (accept, fails) h
  | inl (e, fine) ↦
      let status = built_status s w input p e fine in
      elim (Bool-cases (handled e)) [
        | inl live ↦
            rw (accept, fine, store, live) (queue-IsPaired s w input p e x (rw live at status) h)
        | inr dead ↦
            rw (accept, fine, store, dead, stored_as-inbox)
              (store_ignored-IsPaired w.faults x e (rw dead at status) h)
      ]
]

-- Whatever is received, by whatever calls, with any faults of the database: the inbox has at most one
-- row for an event of a provider, every row that is to be handled has exactly one message in the
-- outbox, and every message in the outbox is that of a row.
pub receive-IsPaired :
    (s : Service) (w : World) (input : ReceiveInput) (x : Inbox)
    → IsPaired x
    → IsPaired (receive s w input x).inbox
unfolding receive verified
receive-IsPaired s w input x h = elim (Option-cases input.read_error) [
  | inr (cause, fails) ↦ rw (receive, fails) h
  | inl read ↦ elim (Result-cases (s.verify input.raw_body input.signature)) [
    | inr (cause, forged) ↦ rw (receive, read, verified, forged) h
    | inl (p, genuine) ↦ rw (receive, read, verified, genuine) (accept-IsPaired s w input p x h)
  ]
]
