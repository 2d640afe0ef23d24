-- ===== src/Checkout/Rows.antt =====
-- Searches and insertions where the unique indexes hold.
use payments_boilerplate.Base.{
  ◌≡◌, refl, sym, ◌∙◌, inl, inr, Bool, true, false, String, List, [], ◌∷◌, ◌++◌, Option, none, some,
  ◌==◌, arith, Bool-cases, Option-cases, str_eq_iff, str_eq_refl,
}
use payments_boilerplate.Payments.Entity.{Payment}
use payments_boilerplate.Checkout.Models.{PaymentAttempt}
use payments_boilerplate.Checkout.Tables.{
  any, find, has_id, has_key, clashes_payment, clashes_attempt, same_text,
}

-- No row clashes with another.
unfoldable pub IsUnique : {R : Type 0} → (R → R → Bool) → List R → Type 0
IsUnique clashes [] = Unit
IsUnique clashes (r ∷ rs) = (any (clashes r) rs ≡ false) × IsUnique clashes rs

pub find-append :
    {R : Type 0} (p : R → Bool) (rs : List R) (r : R)
    → find p rs ≡ none
    → p r ≡ true
    → find p (rs ++ (r ∷ [])) ≡ some r
find-append p [] r h holds = rw holds refl
find-append p (q ∷ rs) r h holds = elim (Bool-cases (p q)) [
  | inl here ↦ absurd (cc (rw here at h))
  | inr other ↦ rw other (find-append p rs r (rw other at h) holds)
]

-- What a search finds satisfies its test.
pub find-holds : {R : Type 0} (p : R → Bool) (rs : List R) (r : R) → find p rs ≡ some r → p r ≡ true
find-holds p [] r h = absurd (cc h)
find-holds p (q ∷ rs) r h = elim (Bool-cases (p q)) [
  | inl here ↦ cc (rw here at h)
  | inr other ↦ find-holds p rs r (rw other at h)
]

-- Where no row clashes, none is found by a test that only clashing rows satisfy.
pub find-clashless :
    {R : Type 0} (p clashes : R → Bool) (rs : List R)
    → ((r : R) → clashes r ≡ false → p r ≡ false)
    → any clashes rs ≡ false
    → find p rs ≡ none
find-clashless p clashes [] apart h = refl
find-clashless p clashes (r ∷ rs) apart h = elim (Bool-cases (clashes r)) [
  | inl meets ↦ absurd (cc (rw meets at h))
  | inr clear ↦ rw (apart r clear) (find-clashless p clashes rs apart (rw clear at h))
]

pub clashless-id : (p q : Payment) → clashes_payment p q ≡ false → has_id p.id q ≡ false
unfolding clashes_payment
clashless-id p q h = elim (Bool-cases (q.id == p.id)) [
  | inl same ↦ absurd (cc (rw same at h))
  | inr other ↦ other
]

pub clashless-attempt :
    (a b : PaymentAttempt)
    → clashes_attempt a b ≡ false
    → (has_key a.idempotency_key b ≡ false) × ((b.id == a.id) ≡ false)
unfolding clashes_attempt
clashless-attempt a b h = elim (Bool-cases (b.id == a.id)) [
  | inl same ↦ absurd (cc (rw same at h))
  | inr other ↦ elim (Bool-cases (b.idempotency_key == a.idempotency_key)) [
    | inl same ↦ absurd (cc (rw (other, same) at h))
    | inr apart ↦ (apart, other)
  ]
]

-- The one row that a search stops at.
pub first :
    {R : Type 0} (p : R → Bool) (rs : List R) (q r : R)
    → p q ≡ true
    → find p (q ∷ rs) ≡ some r
    → q ≡ r
first p rs q r here found = let one : some q ≡ some r = rw here at found in cc (one)

any-found :
    {R : Type 0} (clashes p : R → Bool) (rs : List R) (r : R)
    → any clashes rs ≡ false
    → find p rs ≡ some r
    → clashes r ≡ false
any-found clashes p [] r h found = absurd (cc found)
any-found clashes p (q ∷ rs) r h found = elim (Bool-cases (clashes q)) [
  | inl meets ↦ absurd (cc (rw meets at h))
  | inr clear ↦ elim (Bool-cases (p q)) [
    | inl here ↦ rw (first p rs q r here found) at clear
    | inr other ↦ any-found clashes p rs r (rw clear at h) (rw other at found)
  ]
]

-- A payment that a search finds is found again by its identifier.
pub find-has_id :
    (p : Payment → Bool) (rs : List Payment) (r : Payment)
    → IsUnique clashes_payment rs
    → find p rs ≡ some r
    → find (has_id r.id) rs ≡ some r
unfolding IsUnique
find-has_id p [] r u found = absurd (cc found)
find-has_id p (q ∷ rs) r (apart, u) found = elim (Bool-cases (p q)) [
  | inl here ↦ rw (sym (first p rs q r here found), str_eq_refl q.id) refl
  | inr other ↦
      let later : find p rs ≡ some r = rw other at found in
      let apart_id = clashless-id q r (any-found (clashes_payment q) p rs r apart later) in
      elim (Bool-cases (q.id == r.id)) [
        | inl same ↦ absurd (cc (apart_id, (str_eq_iff q.id r.id).0 same, str_eq_refl q.id))
        | inr distinct ↦ rw distinct (find-has_id p rs r u later)
      ]
]

pub str_eq_sym : (s t : String) → (s == t) ≡ (t == s)
str_eq_sym s t = elim (Bool-cases (s == t)) [
  | inl one ↦ rw ((str_eq_iff s t).0 one) refl
  | inr apart ↦ elim (Bool-cases (t == s)) [
    | inl one ↦ absurd (cc (apart, (str_eq_iff t s).0 one, str_eq_refl s))
    | inr other ↦ rw (apart, other) refl
  ]
]

pub clashes_payment_sym : (p q : Payment) → clashes_payment p q ≡ clashes_payment q p
unfolding clashes_payment
clashes_payment_sym p q = rw (str_eq_sym p.id q.id, str_eq_sym p.order_id q.order_id) (ground arith)

same_text_sym : (s t : Option String) → same_text s t ≡ same_text t s
same_text_sym (some s) (some t) = str_eq_sym s t
same_text_sym (some s) none = refl
same_text_sym none t = elim (Option-cases t) [
  | inl missing ↦ rw missing refl
  | inr (u, there) ↦ rw there refl
]

pub clashes_attempt_sym : (a b : PaymentAttempt) → clashes_attempt a b ≡ clashes_attempt b a
unfolding clashes_attempt
clashes_attempt_sym a b =
    rw
      (
        str_eq_sym a.id b.id,
        str_eq_sym a.idempotency_key b.idempotency_key,
        str_eq_sym a.payment_id b.payment_id,
        str_eq_sym a.provider b.provider,
        same_text_sym a.provider_session_id b.provider_session_id,
      )
      (ground arith)

any-append :
    {R : Type 0} (p : R → Bool) (rs : List R) (r : R)
    → any p rs ≡ false
    → p r ≡ false
    → any p (rs ++ (r ∷ [])) ≡ false
any-append p [] r h last = rw last refl
any-append p (q ∷ rs) r h last = elim (Bool-cases (p q)) [
  | inl here ↦ absurd (cc (rw here at h))
  | inr other ↦ rw other (any-append p rs r (rw other at h) last)
]

-- An insertion that no row stops keeps the indexes.
pub append-IsUnique :
    {R : Type 0} (clashes : R → R → Bool) (rs : List R) (r : R)
    → ((a b : R) → clashes a b ≡ clashes b a)
    → any (clashes r) rs ≡ false
    → IsUnique clashes rs
    → IsUnique clashes (rs ++ (r ∷ []))
unfolding IsUnique
append-IsUnique clashes [] r symmetric h u = (refl, tt)
append-IsUnique clashes (q ∷ rs) r symmetric h (apart, u) = elim (Bool-cases (clashes r q)) [
  | inl meets ↦ absurd (cc (rw meets at h))
  | inr clear ↦ (
    any-append (clashes q) rs r apart (symmetric q r ∙ clear),
    append-IsUnique clashes rs r symmetric (rw clear at h) u,
  )
]
