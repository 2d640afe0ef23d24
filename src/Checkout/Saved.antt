-- ===== src/Checkout/Saved.antt =====
-- What `SaveSession` leaves of a new attempt.
use payments_boilerplate.Base.{
  ℕ, ◌≡◌, refl, sym, ap, ◌∙◌, inl, inr, true, false, String, List, [], ◌∷◌, Option, some, ◌==◌, eqb,
  ltb, arith, Bool-cases, str_eq_iff, ok, trim_space,
}
use payments_boilerplate.Payments.Status.{AttemptStatus}
use payments_boilerplate.Payments.Entity.{
  Attempt, Session, Url, is_https, attach_session, has_session,
}
use payments_boilerplate.Receiver.Inbox.{Commit, committed, refused, lost}
use payments_boilerplate.Checkout.Models.{PaymentAttempt}
use payments_boilerplate.Checkout.Tables.{Db, any, find, has_key}
use payments_boilerplate.Checkout.Store.{
  SaveFaults, is_updated, with_session, update, taken, write_session, save_session,
}
use payments_boilerplate.Checkout.Rows.{first}

-- The row of a key is found after the update that changes it.
pub find-update :
    (a : Attempt) (key : String) (rs : List PaymentAttempt) (row : PaymentAttempt)
    → find (has_key key) rs ≡ some row
    → is_updated a row ≡ true
    → find (has_key key) (update a rs) ≡ some (with_session a row)
find-update a key [] row named mine = absurd (cc named)
find-update a key (r ∷ rs) row named mine = elim (Bool-cases (has_key key r)) [
  | inl here ↦
      let same = first (has_key key) rs r row here named in
      let mine' = ap (is_updated a) same ∙ mine in rw (mine', here, same) refl
  | inr other ↦
      let rest = find-update a key rs row (rw other at named) mine in
      elim (Bool-cases (is_updated a r)) [
        | inl changed ↦ rw (changed, other) rest
        | inr left ↦ rw (left, other) rest
      ]
]

find-updated :
    (a : Attempt) (key : String) (rs : List PaymentAttempt) (row : PaymentAttempt)
    → find (has_key key) rs ≡ some row
    → is_updated a row ≡ true
    → (r : PaymentAttempt) × (find (is_updated a) rs ≡ some r)
find-updated a key [] row named mine = absurd (cc named)
find-updated a key (r ∷ rs) row named mine = elim (Bool-cases (is_updated a r)) [
  | inl here ↦ (r, rw here refl)
  | inr other ↦ elim (Bool-cases (has_key key r)) [
    | inl same ↦ absurd (cc (first (has_key key) rs r row same named, other, mine))
    | inr apart ↦
        let (q, there) = find-updated a key rs row (rw apart at named) mine in (q, rw other there)
  ]
]

blank_text : (trim_space "" == "") ≡ true
unfolding trim_space ◌==◌
blank_text = refl

full_id : (s : String) → (trim_space s == "") ≡ false → (s == "") ≡ false
full_id s h = elim (Bool-cases (s == "")) [
  | inr full ↦ full
  | inl empty ↦ absurd (cc (rw ((str_eq_iff s "").0 empty) at h, blank_text))
]

full_url :
    (parse : String → Option Url) (s : String)
    → is_https (parse "") ≡ false
    → is_https (parse s) ≡ true
    → (s == "") ≡ false
full_url parse s blank secure = elim (Bool-cases (s == "")) [
  | inr full ↦ full
  | inl empty ↦ absurd (cc (rw ((str_eq_iff s "").0 empty) at secure, blank))
]

timed : (now t : ℕ) → ltb now t ≡ true → eqb t 0 ≡ false
timed now t h = ground arith

-- The attempt with its session.
abbrev attached_to : Attempt → Session → ℕ → Attempt
attached_to a session now = record a {
  status = AttemptStatus.pending;
  provider_session_id = session.id;
  provider_payment_intent_id = session.payment_intent_id;
  checkout_url = session.url;
  expires_at = session.expires_at;
  updated_at = now;
}

-- A session that was attached is one: no field of it is empty, since an empty URL does not parse as
-- one with a host.
pub attached :
    (parse : String → Option Url) (a a' : Attempt) (session : Session) (now : ℕ)
    → is_https (parse "") ≡ false
    → attach_session parse a session now ≡ ok a'
    → (has_session a' ≡ true) × (a'.id ≡ a.id) × (a'.idempotency_key ≡ a.idempotency_key)
unfolding attach_session has_session
attached parse a a' session now blank h = elim (Bool-cases (trim_space session.id == "")) [
  | inl empty ↦ absurd (cc (rw empty at h))
  | inr named ↦ elim (Bool-cases (is_https (parse session.url))) [
    | inr plain ↦ absurd (cc (rw (named, plain) at h))
    | inl secure ↦ elim (Bool-cases (ltb now session.expires_at)) [
      | inr late ↦ absurd (cc (rw (named, secure, late) at h))
      | inl early ↦
          let is_a : attached_to a session now ≡ a' = cc (rw (named, secure, early) at h) in
          let some_id = full_id session.id named in
          let some_url = full_url parse session.url blank secure in
          let some_time = timed now session.expires_at early in
          rw (sym is_a) (rw (some_id, some_url, some_time) refl, refl, refl)
    ]
  ]
]

write_session-ok :
    (k : Commit) (x x' : Db) (a : Attempt)
    → write_session k x a ≡ (ok tt, x')
    → x' ≡ record x { attempts = update a x.attempts }
write_session-ok committed x x' a h = cc h
write_session-ok (refused e) x x' a h = absurd (cc h)
write_session-ok (lost e) x x' a h = absurd (cc h)

pub save-kept :
    (f : SaveFaults) (x x' : Db) (a : Attempt) (key : String) (row : PaymentAttempt)
    → find (has_key key) x.attempts ≡ some row
    → is_updated a row ≡ true
    → save_session f x a ≡ (ok tt, x')
    → x' ≡ record x { attempts = update a x.attempts }
unfolding save_session
save-kept f x x' a key row named mine h =
    let (r, there) = find-updated a key x.attempts row named mine in
    elim (Bool-cases (any (taken r a) x.attempts)) [
      | inl stopped ↦ absurd (cc (rw (save_session, there, stopped) at h))
      | inr clear ↦ write_session-ok f.update x x' a (rw (save_session, there, clear) at h)
    ]
