-- ===== src/RateLimit/Keys.antt =====
-- What the limiter does to one key when another is asked for, and to a key it has forgotten.
use payments_boilerplate.Base.{
  ℕ, ◌≡◌, ◌≢◌, refl, ◌⊎◌, inl, inr, true, false, String, List, [], ◌∷◌, none, ◌==◌, arith,
  Bool-cases, sym, str_eq_iff,
}
use payments_boilerplate.RateLimit.Bucket as Bucket
use payments_boilerplate.RateLimit.Limiter.{Entry, Limiter, expire, lookup, touch, allow, fresh}
use payments_boilerplate.RateLimit.Rate.{IsEnforceable, accepts, token_interval-le-full_credit}
use payments_boilerplate.RateLimit.Kept.{Sub, Sub-All, Sub-trans, Absent, Distinct, expire-Sub}
use payments_boilerplate.RateLimit.Bounds.{IsBounded, touch-others}

Absent-lookup : (key : String) (es : List Entry) → Absent key es → lookup key es ≡ none
unfolding lookup
Absent-lookup key [] absent = refl
Absent-lookup key (e ∷ es) (other, absent) = elim (Bool-cases (e.key == key)) [
  | inl same ↦ grind (arith, other ((str_eq_iff e.key key).0 same))
  | inr differs ↦ rw differs (Absent-lookup key es absent)
]

-- An operation that only drops entries loses a key's bucket or leaves it as it is.
Sub-lookup :
    (key : String) {xs ys : List Entry}
    → Sub xs ys
    → Distinct ys
    → (lookup key xs ≡ none) ⊎ (lookup key xs ≡ lookup key ys)
unfolding lookup
Sub-lookup key Sub.nil distinct = inl refl
Sub-lookup key (Sub.keep {x} s) (absent, distinct) = elim (Bool-cases (x.key == key)) [
  | inl same ↦ rw same (inr refl)
  | inr differs ↦ rw differs (Sub-lookup key s distinct)
]
Sub-lookup key (Sub.skip {x} s) (absent, distinct) = elim (Bool-cases (x.key == key)) [
  | inl same ↦
      inl (Absent-lookup key _ (rw (sym ((str_eq_iff x.key key).0 same)) (Sub-All _ s absent)))
  | inr differs ↦ rw differs (Sub-lookup key s distinct)
]

differs_test : (s t : String) → s ≢ t → (s == t) ≡ false
differs_test s t different = elim (Bool-cases (s == t)) [
  | inl same ↦ grind (arith, different ((str_eq_iff s t).0 same))
  | inr test ↦ test
]

-- A call for one key does not change another key's bucket: the limiter has lost that bucket, or holds
-- it as it was.
pub allow-other :
    (l : Limiter) (key other : String) (now : ℕ)
    → IsBounded l
    → key ≢ other
    → let l' = (allow l key now).0 in
      (lookup other l'.entries ≡ none) ⊎ (lookup other l'.entries ≡ lookup other l.entries)
unfolding allow lookup
allow-other l key other now h different =
    let es = expire l.ttl now l.entries in
    let kept = expire-Sub l.ttl now l.entries in
    let (less, _, _) = touch-others l key now es (lookup key es) refl h kept in
    rw (differs_test key other different) (Sub-lookup other (Sub-trans less kept) h.distinct)

forgotten_stays :
    (l : Limiter) (key : String) (now : ℕ)
    → IsBounded l
    → lookup key l.entries ≡ none
    → lookup key (expire l.ttl now l.entries) ≡ none
forgotten_stays l key now h missing =
    elim (Sub-lookup key (expire-Sub l.ttl now l.entries) h.distinct) [
      | inl gone ↦ gone
      | inr same ↦ rw same missing
    ]

fresh_allowed :
    (p : Bucket.Policy) (now : ℕ)
    → IsEnforceable p
    → (Bucket.take p (fresh p now) now).1.allowed ≡ true
unfolding Bucket.refill
fresh_allowed p now e =
    accepts p (fresh p now) now (ground (arith, token_interval-le-full_credit p e))

-- A key that the limiter does not hold, a new one or one whose bucket was dropped, is allowed: to lose
-- a bucket never denies a caller.
pub allow-forgotten :
    (l : Limiter) (key : String) (now : ℕ)
    → IsBounded l
    → IsEnforceable l.policy
    → lookup key l.entries ≡ none
    → (allow l key now).1.allowed ≡ true
unfolding allow touch
allow-forgotten l key now h e missing =
    rw (forgotten_stays l key now h missing) (fresh_allowed l.policy now e)
