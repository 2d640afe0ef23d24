-- ===== src/RateLimit/Bounds.antt =====
-- The bound that the limiter keeps over its buckets, whatever keys it is asked for.
use payments_boilerplate.Base.{
  ℕ, ◌≤◌, ◌<◌, ◌≡◌, ◌≢◌, refl, Bool, true, false, String, List, [], ◌∷◌, Option, none, some, zero,
  suc, ◌==◌, if◌then◌else◌, length, inl, inr, sym, ◌⊎◌, str_eq_iff, arith, Bool-cases,
}
use payments_boilerplate.Base.{ok}
use payments_boilerplate.Base.Int.{ℤ, pos, negsuc}
use payments_boilerplate.RateLimit.Bucket as Bucket
use payments_boilerplate.RateLimit.Limiter.{
  Entry, Limiter, expire, evict_if_full, lookup, without, touch, allow, len, new,
}
use payments_boilerplate.RateLimit.Kept.{
  Sub, Sub-All, Sub-Distinct, Sub-length, Absent, Distinct, Capped, expire-Sub, evict-Sub,
  without-Sub, evict-room,
}

-- A key that is not found, or that is moved, is not among the other entries.
missed :
    {A : Type 0} (b : Bool) (x : A) (rest : Option A)
    → (if b then some x else rest) ≡ none
    → (b ≡ false) × (rest ≡ none)
missed true x rest missing = ground arith
missed false x rest missing = (refl, missing)

pub differs : (s t : String) → (s == t) ≡ false → s ≢ t
differs s t test same = grind (arith, (str_eq_iff s t).1 same)

pub lookup-none-Absent : (key : String) (es : List Entry) → lookup key es ≡ none → Absent key es
unfolding lookup
lookup-none-Absent key [] missing = tt
lookup-none-Absent key (e ∷ es) missing =
    let (other, rest) = missed (e.key == key) e.bucket (lookup key es) missing in
    (differs e.key key other, lookup-none-Absent key es rest)

without-Absent : (key : String) (es : List Entry) → Absent key (without key es)
unfolding without
without-Absent key [] = tt
without-Absent key (e ∷ es) = elim (Bool-cases (e.key == key)) [
  | inl same ↦ rw same (without-Absent key es)
  | inr other ↦ rw other (differs e.key key other, without-Absent key es)
]

-- What the limiter keeps: room in its capacity, one entry for a key, and no more credit in a bucket
-- than a full one holds.
pub record IsBounded (l : Limiter) : Type 0 where
  pub some_room : 1 ≤ l.capacity
  pub within : len l ≤ l.capacity
  pub distinct : Distinct l.entries
  pub capped : Capped l.policy l.entries

take-le :
    (p : Bucket.Policy) (b : Bucket.Bucket) (now : ℕ)
    → b.credit ≤ Bucket.full_credit p
    → (Bucket.take p b now).0.credit ≤ Bucket.full_credit p
unfolding Bucket.take Bucket.refill
take-le p b now h = ground arith

met :
    {A : Type 0} (test : Bool) (x y : A) (rest : Option A)
    → (if test then some x else rest) ≡ some y
    → ((test ≡ true) × (x ≡ y)) ⊎ ((test ≡ false) × (rest ≡ some y))
met true x y rest found = ground arith
met false x y rest found = inr (refl, found)

without-shorter :
    (key : String) (es : List Entry) (b : Bucket.Bucket)
    → lookup key es ≡ some b
    → length (without key es) < length es
unfolding without lookup
without-shorter key [] b found = ground arith
without-shorter key (e ∷ es) b found = elim (met (e.key == key) e.bucket b (lookup key es) found) [
  | inl (same, _) ↦ rw same (omega (arith, Sub-length (without-Sub key es)))
  | inr (other, later) ↦ rw other (omega (arith, without-shorter key es b later))
]

lookup-Capped :
    (p : Bucket.Policy) (key : String) (es : List Entry) (b : Bucket.Bucket)
    → lookup key es ≡ some b
    → Capped p es
    → b.credit ≤ Bucket.full_credit p
unfolding lookup
lookup-Capped p key [] b found h = ground arith
lookup-Capped p key (e ∷ es) b found (first, rest) =
    elim (met (e.key == key) e.bucket b (lookup key es) found) [
      | inl (_, same) ↦ rw (sym same) first
      | inr (_, later) ↦ lookup-Capped p key es b later rest
    ]

pub touch-others :
    (l : Limiter) (key : String) (now : ℕ) (es : List Entry) (o : Option Bucket.Bucket)
    → lookup key es ≡ o
    → IsBounded l
    → Sub es l.entries
    → let others = (touch l key now es o).1 in
      (Sub others es) × (Absent key others) × (length others < l.capacity)
unfolding touch evict_if_full
touch-others l key now es none found h kept =
    let less = evict-Sub (length es) l.capacity es in
    (
      less,
      Sub-All _ less (lookup-none-Absent key es found),
      evict-room (length es) l.capacity es h.some_room (omega arith),
    )
touch-others l key now es (some b) found h kept = (
  without-Sub key es,
  without-Absent key es,
  omega (arith, h.within, Sub-length kept, without-shorter key es b found),
)

touch-Capped :
    (l : Limiter) (key : String) (now : ℕ) (es : List Entry) (o : Option Bucket.Bucket)
    → lookup key es ≡ o
    → Capped l.policy es
    → (touch l key now es o).0.credit ≤ Bucket.full_credit l.policy
unfolding touch
touch-Capped l key now es none found h = omega arith
touch-Capped l key now es (some b) found h = lookup-Capped l.policy key es b found h

-- A call of `Allow` keeps the bound: no more entries than the capacity, one for a key, and none with
-- more than a full bucket's credit.
pub allow-IsBounded :
    (l : Limiter) (key : String) (now : ℕ) → IsBounded l → IsBounded (allow l key now).0
unfolding allow
allow-IsBounded l key now h =
    let es = expire l.ttl now l.entries in
    let kept = expire-Sub l.ttl now l.entries in
    let (less, absent, room) = touch-others l key now es (lookup key es) refl h kept in
    let capped = Sub-All _ kept h.capped in
    record {
      some_room = h.some_room;
      within = omega (arith, room);
      distinct = (absent, Sub-Distinct less (Sub-Distinct kept h.distinct));
      capped = (
        take-le l.policy _ now (touch-Capped l key now es (lookup key es) refl capped),
        Sub-All _ less capped,
      );
    }

new_empty :
    (policy : Bucket.Policy) (capacity ttl : ℤ) (l : Limiter)
    → new policy capacity ttl ≡ ok l
    → (1 ≤ l.capacity) × (l.entries ≡ [])
unfolding new Bucket.validate
new_empty policy (pos zero) ttl l made = ground arith
new_empty policy (negsuc c) ttl l made = ground arith
new_empty policy (pos (suc c)) (negsuc t) l made = ground arith
new_empty policy (pos (suc c)) (pos t) l made = ground arith

-- A limiter that `New` builds is within the bound.
pub new-IsBounded :
    (policy : Bucket.Policy) (capacity ttl : ℤ) (l : Limiter)
    → new policy capacity ttl ≡ ok l
    → IsBounded l
new-IsBounded policy capacity ttl l made =
    let (some_room, empty) = new_empty policy capacity ttl l made in
    record {
      some_room = some_room;
      within = rw empty (omega arith);
      distinct = rw empty tt;
      capped = rw empty tt;
    }
