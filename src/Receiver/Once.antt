-- ===== src/Receiver/Once.antt =====
-- A provider delivers an event more than once: it is stored once.
use payments_boilerplate.Base.{
  map_error-ok, ℕ, ◌≡◌, refl, sym, inl, inr, Bool, true, String, List, none, some, arith,
  Bool-cases, Option-cases, str_eq_refl, Result, Result-cases, ok, err,
}
use payments_boilerplate.Webhooks.{Kind, Event, handled, new_event, Message}
use payments_boilerplate.Receiver.Inbox.{
  Inbox, Cause, with_event, insert_webhook_event, insert_outbox_event, Commit, committed, refused,
  lost, Faults, try, finish, store_ignored, store_message, store_pending,
}
use payments_boilerplate.Receiver.Preserved.{try-ok, inserted, queued_up, stored_as-inbox}
use payments_boilerplate.Receiver.Service.{
  Service, World, ReceiveInput, ProviderEvent, Outcome, outcome_accepted, outcome_ignored,
  invalid_event, build_event, build_message, stored_as, queue, store, accept, verified, receive,
}

-- The inbox has the event of the provider.
abbrev pub Knows : Inbox → String → String → Type 0
Knows x provider event_id = (id : String) × (x.by_provider provider event_id ≡ some id)

with_event-Knows : (x : Inbox) (e : Event) → Knows (with_event x e) e.provider e.provider_event_id
with_event-Knows x e = (e.id, rw (str_eq_refl e.provider, str_eq_refl e.provider_event_id) refl)

insert_none-Knows :
    (x : Inbox) (e : Event)
    → insert_webhook_event x e ≡ ok none
    → Knows x e.provider e.provider_event_id
unfolding insert_webhook_event
insert_none-Knows x e h = elim (Option-cases (x.by_provider e.provider e.provider_event_id)) [
  | inr (id, old) ↦ (id, old)
  | inl new_event ↦ elim (Option-cases (x.events e.id)) [
    | inr (r, taken) ↦ absurd (cc (rw (insert_webhook_event, new_event, taken) at h))
    | inl new_key ↦ absurd (cc (rw (insert_webhook_event, new_event, new_key) at h))
  ]
]

finish-ok :
    (k : Commit) (before after : Inbox) (b : Bool)
    → (finish k before after).0 ≡ ok b
    → ((finish k before after).1 ≡ after) × (b ≡ true)
unfolding finish
finish-ok committed before after b h = (refl, ground arith)
finish-ok (refused e) before after b h = ground arith
finish-ok (lost e) before after b h = ground arith

store_ignored-Knows :
    (f : Faults) (x : Inbox) (e : Event) (b : Bool)
    → (store_ignored f x e).0 ≡ ok b
    → Knows (store_ignored f x e).1 e.provider e.provider_event_id
unfolding store_ignored
store_ignored-Knows f x e b h =
    elim (Result-cases (try f.insert_event (insert_webhook_event x e))) [
      | inr (cause, fails) ↦ absurd (cc (rw (store_ignored, fails) at h))
      | inl (o, fine) ↦ elim (Option-cases o) [
        | inl old ↦
            rw (store_ignored, fine, old)
              (insert_none-Knows x e (rw old at (try-ok f.insert_event _ o fine)))
        | inr (x', new) ↦
            let (_, _, made) = inserted x x' e (rw new at (try-ok f.insert_event _ o fine)) in
            let (kept, _) = finish-ok f.commit x x' b (rw (store_ignored, fine, new) at h) in
            rw (store_ignored, fine, new, kept, made) (with_event-Knows x e)
      ]
    ]

store_message-Knows :
    (f : Faults) (x x' : Inbox) (e : Event) (m : Message) (b : Bool)
    → x' ≡ with_event x e
    → (store_message f x x' m).0 ≡ ok b
    → Knows (store_message f x x' m).1 e.provider e.provider_event_id
unfolding store_message
store_message-Knows f x x' e m b made h =
    elim (Result-cases (try f.insert_message (insert_outbox_event x' m f.now))) [
      | inr (cause, fails) ↦ absurd (cc (rw (store_message, fails) at h))
      | inl (x'', fine) ↦
          let (_, _, queued) = queued_up x' x'' m f.now (try-ok f.insert_message _ x'' fine) in
          let (kept, _) = finish-ok f.commit x x'' b (rw (store_message, fine) at h) in
          rw (store_message, fine, kept, queued, made) (with_event-Knows x e)
    ]

store_pending-Knows :
    (f : Faults) (x : Inbox) (e : Event) (m : Message) (b : Bool)
    → (store_pending f x e m).0 ≡ ok b
    → Knows (store_pending f x e m).1 e.provider e.provider_event_id
unfolding store_pending
store_pending-Knows f x e m b h = elim (Option-cases f.begin) [
  | inr (cause, fails) ↦ absurd (cc (rw (store_pending, fails) at h))
  | inl begun ↦ elim (Result-cases (try f.insert_event (insert_webhook_event x e))) [
    | inr (cause, fails) ↦ absurd (cc (rw (store_pending, begun, fails) at h))
    | inl (o, fine) ↦ elim (Option-cases o) [
      | inl old ↦
          rw (store_pending, begun, fine, old)
            (insert_none-Knows x e (rw old at (try-ok f.insert_event _ o fine)))
      | inr (x', new) ↦
          let (_, _, made) = inserted x x' e (rw new at (try-ok f.insert_event _ o fine)) in
          rw (store_pending, begun, fine, new)
            (store_message-Knows f x x' e m b made (rw (store_pending, begun, fine, new) at h))
    ]
  ]
]

event_of_request :
    (json_valid : List ℕ → Bool) (id provider pid event_type : String) (kind : Kind)
    (raw payload : List ℕ) (now : ℕ) (e : Event)
    → new_event json_valid id provider pid event_type kind raw payload now ≡ ok e
    → (e.provider ≡ provider) × (e.provider_event_id ≡ pid) × (e.raw_payload ≡ raw)
unfolding new_event
event_of_request json_valid id provider pid event_type kind raw payload now e h = ground arith

pub built_request :
    (s : Service) (w : World) (input : ReceiveInput) (p : ProviderEvent) (e : Event)
    → build_event s w input p ≡ ok e
    → (e.provider ≡ s.provider) × (e.provider_event_id ≡ p.id) × (e.raw_payload ≡ input.raw_body)
unfolding build_event
built_request s w input p e h = elim (Result-cases w.new_event_id) [
  | inr (cause, none_made) ↦ absurd (cc (rw (build_event, none_made) at h))
  | inl (id, made) ↦
      event_of_request s.json_valid id s.provider p.id p.event_type p.kind input.raw_body p.payload
        w.now e (map_error-ok (λ c. invalid_event) _ e (rw (build_event, made) at h))
]

stored_as-ok :
    (o out : Outcome) (kind : Kind) (r : Result Cause Bool × Inbox)
    → (stored_as o kind r).outcome ≡ ok out
    → (b : Bool) × (r.0 ≡ ok b)
stored_as-ok o out kind (ok b, x) h = (b, refl)
stored_as-ok o out kind (err e, x) h = ground arith

store-Knows :
    (s : Service) (w : World) (input : ReceiveInput) (p : ProviderEvent) (e : Event) (x : Inbox)
    (o : Outcome)
    → (store s w input p e x).outcome ≡ ok o
    → Knows (store s w input p e x).inbox e.provider e.provider_event_id
unfolding store queue
store-Knows s w input p e x o h = elim (Bool-cases (handled e)) [
  | inr dead ↦
      let r = store_ignored w.faults x e in
      let (b, fine) = stored_as-ok outcome_ignored o p.kind r (rw (store, dead) at h) in
      rw (store, dead, stored_as-inbox) (store_ignored-Knows w.faults x e b fine)
  | inl live ↦ elim (Result-cases (build_message w input p e)) [
    | inr (cause, fails) ↦ absurd (cc (rw (store, live, queue, fails) at h))
    | inl (m, made) ↦
        let r = store_pending w.faults x e m in
        let (b, fine) =
          stored_as-ok outcome_accepted o p.kind r (rw (store, live, queue, made) at h) in
        rw (store, live, queue, made, stored_as-inbox) (store_pending-Knows w.faults x e m b fine)
  ]
]

pub receive-Knows :
    (s : Service) (w : World) (input : ReceiveInput) (p : ProviderEvent) (x : Inbox) (o : Outcome)
    → s.verify input.raw_body input.signature ≡ ok p
    → (receive s w input x).outcome ≡ ok o
    → Knows (receive s w input x).inbox s.provider p.id
unfolding receive verified accept
receive-Knows s w input p x o genuine h = elim (Option-cases input.read_error) [
  | inr (cause, fails) ↦ absurd (cc (rw (receive, fails) at h))
  | inl read ↦ elim (Result-cases (build_event s w input p)) [
    | inr (cause, fails) ↦ absurd (cc (rw (receive, read, verified, genuine, accept, fails) at h))
    | inl (e, built) ↦
        let (by, of, _) = built_request s w input p e built in
        rw (receive, read, verified, genuine, accept, built, sym by, sym of)
          (store-Knows s w input p e x o
            (rw (receive, read, verified, genuine, accept, built) at h))
  ]
]
