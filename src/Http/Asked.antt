-- ===== src/Http/Asked.antt =====
-- What an answer about a checkout tells of the provider.
use payments_boilerplate.Base.{
  ◌<◌, ◌==◌, ◌≡◌, refl, ◌⊎◌, inl, inr, [], Option, none, some, arith, Bool-cases, Option-cases,
  Result, Result-cases, ok, err,
}
use payments_boilerplate.Orders.{Order}
use payments_boilerplate.Payments.Entity.{Payment, Attempt, attach_session, has_session}
use payments_boilerplate.Receiver.Inbox.{Cause, Commit, committed, refused, lost}
use payments_boilerplate.Checkout.Models.{PaymentAttempt}
use payments_boilerplate.Checkout.Tables.{Db, any, find, same_text, try}
use payments_boilerplate.Checkout.Tables as Tables
use payments_boilerplate.Checkout.Store.{
  SaveFaults, prepare_checkout, save_session, write_session, unchanged, keeps_session, is_updated,
  taken,
}
use payments_boilerplate.Checkout.Service.{
  provider_request, CreateInput, Checkout, Service, World, saved, attach, ask, continue, check,
  create_checkout,
}
use payments_boilerplate.Http.Responses.{answers, status, respond, response_error}
use payments_boilerplate.Http.Checkouts.{create_checkout_error, opened, post_checkout}

Failed : Result Tables.Error (Unit {0}) → Type 0
Failed (ok u) = Unit
Failed (err Tables.idempotency_key_conflict) = ⊥
Failed (err Tables.checkout_in_progress) = ⊥
Failed (err (Tables.failed cause)) = Unit

keeps_session-Failed :
    (fault : Option Cause) (o : Option PaymentAttempt) (a : Attempt)
    → Failed (try fault (keeps_session o a))
unfolding Failed
keeps_session-Failed (some e) o a = tt
keeps_session-Failed none none a = tt
keeps_session-Failed none (some r) a =
    elim (Bool-cases (same_text r.provider_session_id (some a.provider_session_id))) [
      | inl same ↦ rw same tt
      | inr other ↦ rw other tt
    ]

unchanged_on :
    (k : Commit) (fault : Option Cause) (x : Db) (a : Attempt)
    → Failed (unchanged (record { update = k; find = fault }) x a)
unfolding Failed
unchanged_on committed fault x a =
    keeps_session-Failed fault (find (λ r. r.id == a.id) x.attempts) a
unchanged_on (refused e) fault x a = tt
unchanged_on (lost e) fault x a = tt

write-Failed : (k : Commit) (x : Db) (a : Attempt) → Failed (write_session k x a).0
unfolding Failed
write-Failed committed x a = tt
write-Failed (refused e) x a = tt
write-Failed (lost e) x a = tt

save_session-Failed : (f : SaveFaults) (x : Db) (a : Attempt) → Failed (save_session f x a).0
unfolding save_session Failed
save_session-Failed f x a = elim (Option-cases (find (is_updated a) x.attempts)) [
  | inl missing ↦ rw (save_session, missing) (unchanged_on f.update f.find x a)
  | inr (row, there) ↦ elim (Bool-cases (any (taken row a) x.attempts)) [
    | inl clash ↦ rw (save_session, there, clash) tt
    | inr free ↦ rw (save_session, there, free) (write-Failed f.update x a)
  ]
]

saved-answer :
    (a : Attempt) (r : Result Tables.Error (Unit {0}) × Db)
    → Failed r.0
    → status (respond (opened (saved a r).0)) < 500
    → (c : Checkout) × ((saved a r).0 ≡ ok c)
unfolding Failed respond response_error create_checkout_error
saved-answer a (ok u, x) f low = (_, refl)
saved-answer a (err Tables.idempotency_key_conflict, x) f low = absurd f
saved-answer a (err Tables.checkout_in_progress, x) f low = absurd f
saved-answer a (err (Tables.failed cause), x) f low = absurd (omega arith)

-- Once the provider was asked, an answer below 500 is a checkout.
ask-answer :
    (s : Service) (w : World) (o : Order) (p : Payment) (a : Attempt) (x : Db)
    → status (respond (opened (ask s w o p a x).result)) < 500
    → (c : Checkout) × ((ask s w o p a x).result ≡ ok c)
unfolding ask attach respond response_error create_checkout_error
ask-answer s w o p a x low = elim (Result-cases (s.create_checkout (provider_request o p a))) [
  | inr (cause, down) ↦ absurd (omega (arith, rw (ask, down) at low))
  | inl (session, up) ↦ elim (Result-cases (attach_session s.parse a session w.later)) [
    | inr (e, invalid) ↦ absurd (omega (arith, rw (ask, up, attach, invalid) at low))
    | inl (a', valid) ↦
        let r = save_session w.save (w.meanwhile x) a' in
        let (c, answered) =
          saved-answer a' r (save_session-Failed w.save (w.meanwhile x) a')
            (rw (ask, up, attach, valid) at low) in
        (c, rw (ask, up, attach, valid) answered)
  ]
]

continue-answer :
    (s : Service) (w : World) (o : Order) (r : Result Tables.Error (Payment × Attempt) × Db)
    → status (respond (opened (continue s w o r).result)) < 500
    → ((continue s w o r).calls ≡ []) ⊎ ((c : Checkout) × ((continue s w o r).result ≡ ok c))
continue-answer s w o (err e, x) low = inl refl
continue-answer s w o (ok (p, a), x) low = elim (Bool-cases (has_session a)) [
  | inl there ↦ inl (rw there refl)
  | inr new ↦ let (c, answered) = ask-answer s w o p a x (rw new at low) in inr (c, rw new answered)
]

-- A client that is refused has cost the provider nothing: a request for a checkout that is answered with
-- a status below 500 either sent the provider no request, or gets 201 with the checkout, whatever the
-- database and the provider did.
pub post_checkout-asks :
    (s : Service) (w : World) (input : CreateInput) (x : Db)
    → let r = post_checkout (some (s, w)) input x in
      status (respond r.result) < 500
      → (r.calls ≡ []) ⊎ ((c : Checkout) × (respond r.result ≡ answers 201 c))
unfolding post_checkout create_checkout respond
post_checkout-asks s w input x low = elim (Result-cases (check w input x)) [
  | inr (e, fails) ↦ inl (rw (post_checkout, create_checkout, fails) refl)
  | inl ((o, (p, a)), checked) ↦
      elim (continue-answer s w o (prepare_checkout w.prepare w.others x p a)
        (rw (post_checkout, create_checkout, checked) at low)) [
          | inl silent ↦ inl (rw (post_checkout, create_checkout, checked) silent)
          | inr (c, answered) ↦ inr (c, rw (post_checkout, create_checkout, checked, answered) refl)
        ]
]
