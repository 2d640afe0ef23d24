-- ===== src/Broker/Routed.antt =====
-- When a message counts as published.
use payments_boilerplate.Base.{
  ℕ, ◌≡◌, refl, sym, ap, subst, ◌∙◌, inl, inr, true, false, List, [], ◌∷◌, Option, none,
  Option-cases, Result-cases, Result, ok, err,
}
use payments_boilerplate.Webhooks.{Message}
use payments_boilerplate.Receiver.Inbox.{Cause}
use payments_boilerplate.Outbox.Store.{Error}
use payments_boilerplate.Broker.Publisher.{
  MessageBody, Publishing, Return, Publisher, Attempt, ensure_channel, drain_returns, judged,
  wait_confirm, Sending, publishing, send, on_channel, cleared, body_of, attempt, publish,
}

-- The broker has the message, and a queue took it.
pub record IsRouted (a : Attempt) (m : Message) (sent : List Publishing) : Type 0 where
  pub body : List ℕ
  pub once : sent ≡ publishing m body ∷ []
  pub confirmed : a.wait ≡ ok true
  pub routed : a.returned ≡ []

judged-ok : (rs late : List Return) (p : Publisher) → (judged rs late p).0 ≡ ok tt → rs ≡ []
judged-ok [] late p h = refl
judged-ok (r ∷ rs) late p h = absurd (cc h)

wait_confirm-ok :
    (a : Attempt) (rs : List Return) (p : Publisher)
    → (wait_confirm a rs p).0 ≡ ok tt
    → (a.wait ≡ ok true) × (rs ≡ [])
unfolding wait_confirm
wait_confirm-ok a rs p h = elim (Result-cases a.wait) [
  | inr (e, lost) ↦ absurd (cc (rw (wait_confirm, lost) at h))
  | inl (true, acked) ↦ (acked, judged-ok rs a.late p (rw (wait_confirm, acked) at h))
  | inl (false, nacked) ↦ absurd (cc (rw (wait_confirm, nacked) at h))
]

send-ok :
    (a : Attempt) (m : Message) (body : List ℕ) (p : Publisher)
    → (send a m body (drain_returns p)).result ≡ ok tt
    → IsRouted a m (send a m body (drain_returns p)).sent
unfolding send
send-ok a m body p h = elim (Option-cases a.send) [
  | inr (e, fails) ↦ absurd (cc (rw (send, fails) at h))
  | inl given ↦
      let (acked, taken) = wait_confirm-ok a a.returned (drain_returns p) (rw (send, given) at h) in
      rw (send, given) (record { body = body; once = refl; confirmed = acked; routed = taken })
]

cleared-ok :
    (clear : Option Cause) (r : Result Error (Unit {0})) → cleared clear r ≡ ok tt → r ≡ ok tt
cleared-ok clear (err e) h = absurd (cc h)
cleared-ok clear (ok tt) h = refl

on_channel-ok :
    (a : Attempt) (m : Message) (body : List ℕ) (r : Result Error (Unit {0}) × Publisher)
    → (on_channel a m body r).result ≡ ok tt
    → IsRouted a m (on_channel a m body r).sent
on_channel-ok a m body (err e, p) h = absurd (cc h)
on_channel-ok a m body (ok u, p) h = send-ok a m body p h

attempt_up :
    (a : Attempt) (m : Message) (body : List ℕ) (p : Publisher)
    → a.connect ≡ none
    → let s = on_channel a m body (ensure_channel a p) in
      attempt a m body p ≡ record s { result = cleared a.clear s.result }
unfolding attempt
attempt_up a m body p up = rw (attempt, up) refl

-- A message counts as published only when it is: if a publication returns no error, then the broker was
-- given the message once, confirmed it, and sent nothing back, whatever earlier messages left behind.
pub publish-IsRouted :
    (marshal : MessageBody → Result Cause (List ℕ)) (a : Attempt) (m : Message) (p : Publisher)
    → (publish marshal a m p).result ≡ ok tt
    → IsRouted a m (publish marshal a m p).sent
unfolding publish attempt
publish-IsRouted marshal a m p h = elim (Result-cases (marshal (body_of m))) [
  | inr (e, broken) ↦ absurd (cc (rw (publish, broken) at h))
  | inl (body, encoded) ↦ elim (Option-cases a.connect) [
    | inr (e, down) ↦ absurd (cc (rw (publish, encoded, attempt, down) at h))
    | inl up ↦
        let s = on_channel a m body (ensure_channel a p) in
        let same : publish marshal a m p ≡ record s { result = cleared a.clear s.result } =
          rw (publish, encoded) (attempt_up a m body p up) in
        subst (λ (t : Sending). IsRouted a m t.sent) (sym same)
          (on_channel-ok a m body (ensure_channel a p)
            (cleared-ok a.clear s.result (ap (λ (t : Sending). t.result) (sym same) ∙ h)))
  ]
]
