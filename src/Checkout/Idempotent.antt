-- ===== src/Checkout/Idempotent.antt =====
-- A checkout that was returned, asked for once more.
use payments_boilerplate.Base.{
  ◌≡◌, refl, sym, ap, ◌∙◌, inl, inr, true, false, String, [], none, str_eq_iff, Result,
  Result-cases, ok, err,
}
use payments_boilerplate.Orders.{Order}
use payments_boilerplate.Payments.Status.{AttemptStatus, eq_attempt}
use payments_boilerplate.Payments.Entity.{Payment, Attempt, is_https, attach_session, has_session}
use payments_boilerplate.Checkout.Models.{PaymentAttempt, to_domain}
use payments_boilerplate.Checkout.Tables.{Db, find, has_key, has_id}
use payments_boilerplate.Checkout.Tables as Tables
use payments_boilerplate.Checkout.Store.{
  is_updated, with_session, update, save_session, prepare_checkout,
}
use payments_boilerplate.Checkout.Claimed.{Holds}
use payments_boilerplate.Checkout.Reserved.{IsSound}
use payments_boilerplate.Checkout.Prepared.{prepare-Holds, prepare-status}
use payments_boilerplate.Checkout.Saved.{find-update, attached, save-kept}
use payments_boilerplate.Checkout.Replayed.{IsReady, check_fields, create_checkout-known}
use payments_boilerplate.Checkout.Repeated.{create_checkout-checked}
use payments_boilerplate.Checkout.Service.{
  provider_request, Checkout, CreateInput, Service, World, Receipt, checkout_from_attempt, saved,
  attach, ask, continue, check, create_checkout,
}

saved-ok :
    (a : Attempt) (r : Result Tables.Error (Unit {0}) × Db) (c : Checkout)
    → (saved a r).0 ≡ ok c
    → (r ≡ (ok tt, (saved a r).1)) × (c ≡ checkout_from_attempt a)
saved-ok a (err e, x) c h = absurd (cc h)
saved-ok a (ok u, x) c h = (refl, cc h)

-- The key names an attempt that has the session of the checkout.
pub Served : Db → Order → String → Checkout → Type 0
Served x o key c =
    (p : Payment) × (a : Attempt) × Holds x o.id key p a
    × (has_session a ≡ true)
    × (checkout_from_attempt a ≡ c)

abbrev with_saved : Attempt → Db → Db
with_saved a x = record x { attempts = update a x.attempts }

is_mine :
    (a a' : Attempt) (row : PaymentAttempt)
    → to_domain row ≡ a
    → a.status ≡ AttemptStatus.created
    → a'.id ≡ a.id
    → is_updated a' row ≡ true
unfolding eq_attempt
is_mine a a' row is_row created same =
    let of_row = ap (λ (b : Attempt). b.id) is_row ∙ sym same in
    let new = ap (λ (b : Attempt). b.status) is_row ∙ created in
    rw ((str_eq_iff row.id a'.id).1 of_row, new) refl

-- The update of an attempt that has no session yet.
save-Served :
    (x : Db) (o : Order) (key : String) (p : Payment) (a a' : Attempt)
    → Holds x o.id key p a
    → a.status ≡ AttemptStatus.created
    → a'.id ≡ a.id
    → has_session a' ≡ true
    → Served (with_saved a' x) o key (checkout_from_attempt a')
unfolding Served has_session
save-Served x o key p a a' k created same full = (
  p,
  to_domain (with_session a' k.row),
  record {
    row = with_session a' k.row;
    named = find-update a' key x.attempts k.row k.named (is_mine a a' k.row k.is_row created same);
    is_row = refl;
    owner = k.owner;
    of_order = k.of_order;
  },
  full,
  refl,
)

create_checkout-Served :
    (s : Service) (w : World) (input : CreateInput) (x : Db) (o : Order) (c : Checkout)
    → IsReady w input x o
    → Served x o input.idempotency_key c
    → create_checkout s w input x ≡ record { result = ok c; calls = []; db = x }
unfolding Served
create_checkout-Served s w input x o c ready (p, a, k, full, is_c) =
    rw (create_checkout-known s w input x o p a ready k, full, is_c) refl

answered :
    (s : Service) (w : World) (o : Order) (r : Result Tables.Error (Payment × Attempt) × Db)
    (c : Checkout)
    → (continue s w o r).result ≡ ok c
    → (p : Payment) × (a : Attempt) × (x : Db) × (r ≡ (ok (p, a), x))
answered s w o (err e, x) c h = absurd (cc h)
answered s w o (ok (p, a), x) c h = (p, a, x, refl)

unserved : (a : Attempt) → a.status ≡ AttemptStatus.created → has_session a ≡ false
unfolding has_session
unserved a created = rw created refl

module _ (s : Service) (w : World) (blank : is_https (s.parse "") ≡ false)
    (alone : (y : Db) → w.meanwhile y ≡ y) where
  ask-Served :
      (o : Order) (key : String) (p : Payment) (a : Attempt) (x : Db) (c : Checkout)
      → Holds x o.id key p a
      → a.status ≡ AttemptStatus.created
      → (ask s w o p a x).result ≡ ok c
      → Served (ask s w o p a x).db o key c
  unfolding ask attach
  ask-Served o key p a x c k created h =
      elim (Result-cases (s.create_checkout (provider_request o p a))) [
        | inr (e, fails) ↦ absurd (cc (rw (ask, fails) at h))
        | inl (session, fine) ↦ elim (Result-cases (attach_session s.parse a session w.later)) [
          | inr (e, invalid) ↦ absurd (cc (rw (ask, fine, attach, invalid) at h))
          | inl (a', valid) ↦
              let (full, same, _) = attached s.parse a a' session w.later blank valid in
              let (kept, is_c) =
                saved-ok a' (save_session w.save (w.meanwhile x) a') c
                  (rw (ask, fine, attach, valid) at h) in
              let y = (saved a' (save_session w.save (w.meanwhile x) a')).1 in
              let mine = is_mine a a' k.row k.is_row created same in
              let made : y ≡ with_saved a' x =
                save-kept w.save x y a' key k.row k.named mine
                  (ap (λ z. save_session w.save z a') (sym (alone x)) ∙ kept) in
              rw (ask, fine, attach, valid, made, is_c)
                (save-Served x o key p a a' k created same full)
        ]
      ]

  -- A repeated request gets the checkout of the first: if the first request with a new key was
  -- answered with a checkout, over tables whose unique indexes hold, while nothing else was written as
  -- the provider was asked, then the same request again, with any new identifiers and at any time, is
  -- answered with that checkout, asks the provider for nothing and changes nothing, as long as it passes
  -- its checks with the same order and the database answers. The empty text must not parse as an https
  -- URL.
  pub create_checkout-repeated :
      (w' : World) (input : CreateInput) (x : Db) (o : Order) (new : Payment × Attempt)
      (c : Checkout)
      → IsSound (w.others x)
      → find (has_key input.idempotency_key) x.attempts ≡ none
      → find (has_key input.idempotency_key) (w.others x).attempts ≡ none
      → check w input x ≡ ok (o, new)
      → (create_checkout s w input x).result ≡ ok c
      → let x' = (create_checkout s w input x).db in
        IsReady w' input x' o
        → create_checkout s w' input x' ≡ record { result = ok c; calls = []; db = x' }
  create_checkout-repeated w' input x o (p0, a0) c u free free' checked h ready =
      let is_first = create_checkout-checked s w input x o p0 a0 checked in
      let (of_order, of_key, created) = check_fields w input x o p0 a0 checked in
      let (p, a, x1, reserved) =
        answered s w o (prepare_checkout w.prepare w.others x p0 a0) c
          (ap (λ (r : Receipt). r.result) (sym is_first) ∙ h) in
      let made =
        prepare-status w.prepare w.others x p0 a0 x1 p a u (rw of_key free) (rw of_key free')
          reserved
        ∙ created in
      let is_ask : create_checkout s w input x ≡ ask s w o p a x1 =
        is_first ∙ rw (reserved, unserved a made) refl in
      let k : Holds x1 o.id input.idempotency_key p a =
        rw (of_order, of_key) at (prepare-Holds w.prepare w.others x p0 a0 x1 p a u reserved) in
      let served =
        ask-Served o input.idempotency_key p a x1 c k made
          (ap (λ (r : Receipt). r.result) (sym is_ask) ∙ h) in
      create_checkout-Served s w' input (create_checkout s w input x).db o c ready
        (rw (ap (λ (r : Receipt). r.db) is_ask) served)
