-- ===== src/Checkout/Repeated.antt =====
-- A checkout that is asked for again with the same key.
use payments_boilerplate.Base.{
  ◌≡◌, refl, sym, ap, ◌∙◌, inl, inr, false, [], ◌∷◌, Bool-cases, Result, Result-cases, ok, err,
}
use payments_boilerplate.Orders.{Order}
use payments_boilerplate.Payments.Entity.{Payment, Attempt, attach_session, has_session}
use payments_boilerplate.Receiver.Inbox.{Cause}
use payments_boilerplate.Checkout.Tables.{Db, find, has_key, has_id}
use payments_boilerplate.Checkout.Tables as Tables
use payments_boilerplate.Checkout.Store.{save_session, prepare_checkout}
use payments_boilerplate.Checkout.Claimed.{Holds}
use payments_boilerplate.Checkout.Reserved.{IsSound}
use payments_boilerplate.Checkout.Prepared.{prepare-Holds}
use payments_boilerplate.Checkout.Replayed.{IsReady, check_fields, create_checkout-known}
use payments_boilerplate.Checkout.Service.{
  ProviderRequest, provider_request, CreateInput, Service, World, Receipt, provider_unavailable,
  saved, attach, ask, continue, check, create_checkout,
}

continued :
    (s : Service) (w : World) (o : Order) (r : Result Tables.Error (Payment × Attempt) × Db)
    (request : ProviderRequest)
    → (continue s w o r).calls ≡ request ∷ []
    → (p : Payment) × (a : Attempt) × (x : Db) × (r ≡ (ok (p, a), x)) × (has_session a ≡ false)
continued s w o (err e, x) request h = absurd (cc h)
continued s w o (ok (p, a), x) request h = elim (Bool-cases (has_session a)) [
  | inl there ↦ absurd (cc (rw there at h))
  | inr new ↦ (p, a, x, refl, new)
]

ask-calls :
    (s : Service) (w : World) (o : Order) (p : Payment) (a : Attempt) (x : Db)
    → (ask s w o p a x).calls ≡ provider_request o p a ∷ []
unfolding ask
ask-calls s w o p a x = elim (Result-cases (s.create_checkout (provider_request o p a))) [
  | inr (e, fails) ↦ rw (ask, fails) refl
  | inl (session, fine) ↦ rw (ask, fine) refl
]

saved-err :
    (a : Attempt) (r : Result Tables.Error (Unit {0}) × Db) (cause : Cause)
    → (saved a r).0 ≡ err (provider_unavailable cause)
    → ⊥
saved-err a (err e, x) cause h = cc h
saved-err a (ok u, x) cause h = cc h

ask-down :
    (s : Service) (w : World) (o : Order) (p : Payment) (a : Attempt) (x : Db) (cause : Cause)
    → (ask s w o p a x).result ≡ err (provider_unavailable cause)
    → (ask s w o p a x).db ≡ x
unfolding ask attach
ask-down s w o p a x cause h = elim (Result-cases (s.create_checkout (provider_request o p a))) [
  | inr (e, fails) ↦ rw (ask, fails) refl
  | inl (session, fine) ↦ elim (Result-cases (attach_session s.parse a session w.later)) [
    | inr (e, invalid) ↦ absurd (cc (rw (ask, fine, attach, invalid) at h))
    | inl (a', valid) ↦ absurd (
        saved-err a' (save_session w.save (w.meanwhile x) a') cause
          (rw (ask, fine, attach, valid) at h))
  ]
]

pub create_checkout-checked :
    (s : Service) (w : World) (input : CreateInput) (x : Db) (o : Order) (p : Payment) (a : Attempt)
    → check w input x ≡ ok (o, (p, a))
    → create_checkout s w input x ≡ continue s w o (prepare_checkout w.prepare w.others x p a)
unfolding create_checkout
create_checkout-checked s w input x o p a checked = rw (create_checkout, checked) refl

-- The request that a first call makes, and the attempt that it leaves.
pub first_call :
    (s : Service) (w : World) (input : CreateInput) (x : Db) (o : Order) (new : Payment × Attempt)
    (request : ProviderRequest)
    → IsSound (w.others x)
    → check w input x ≡ ok (o, new)
    → (create_checkout s w input x).calls ≡ request ∷ []
    → (p : Payment) × (a : Attempt) × (x' : Db) × (create_checkout s w input x ≡ ask s w o p a x')
      × (has_session a ≡ false)
      × Holds x' o.id input.idempotency_key p a
first_call s w input x o (p0, a0) request u checked asked =
    let is_first = create_checkout-checked s w input x o p0 a0 checked in
    let (p, a, x', reserved, new) =
      continued s w o (prepare_checkout w.prepare w.others x p0 a0) request
        (ap (λ (r : Receipt). r.calls) (sym is_first) ∙ asked) in
    let (of_order, of_key, _) = check_fields w input x o p0 a0 checked in
    let k = prepare-Holds w.prepare w.others x p0 a0 x' p a u reserved in
    (p, a, x', is_first ∙ rw (reserved, new) refl, new, rw (of_order, of_key) at k)

-- After a provider that gave no answer, the same request asks it for the same: if a call, over tables
-- whose unique indexes hold, was refused by the provider, then a second one that passes its checks with
-- the same order while the database answers, with any new identifiers and at any time, sends the
-- provider the very request of the first.
pub create_checkout-resumed :
    (s : Service) (w w' : World) (input : CreateInput) (x : Db) (o : Order)
    (new : Payment × Attempt) (request : ProviderRequest) (cause : Cause)
    → IsSound (w.others x)
    → check w input x ≡ ok (o, new)
    → (create_checkout s w input x).calls ≡ request ∷ []
    → (create_checkout s w input x).result ≡ err (provider_unavailable cause)
    → IsReady w' input (create_checkout s w input x).db o
    → (create_checkout s w' input (create_checkout s w input x).db).calls ≡ request ∷ []
create_checkout-resumed s w w' input x o new request cause u checked asked down ready =
    let (p, a, x', is_ask, fresh, k) = first_call s w input x o new request u checked asked in
    let same_db : (create_checkout s w input x).db ≡ x' =
      ap (λ (r : Receipt). r.db) is_ask
      ∙ ask-down s w o p a x' cause (ap (λ (r : Receipt). r.result) (sym is_ask) ∙ down) in
    let same_call : provider_request o p a ∷ [] ≡ request ∷ [] =
      sym (ask-calls s w o p a x') ∙ (ap (λ (r : Receipt). r.calls) (sym is_ask) ∙ asked) in
    let again = create_checkout-known s w' input x' o p a (rw same_db at ready) k in
    rw (same_db, again, fresh) (ask-calls s w' o p a x' ∙ same_call)
