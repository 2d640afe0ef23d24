-- ===== src/RateLimit/Kept.antt =====
-- Which entries the limiter's steps keep: each leaves a part of the list, in its order.
use payments_boilerplate.Base.{
  ℕ, ◌≤◌, ◌<◌, ◌≡◌, ◌≢◌, refl, Bool, true, false, String, List, [], ◌∷◌, zero, suc, leb, ◌==◌,
  if◌then◌else◌, length, All, inl, inr, leb→le, arith, Bool-cases,
}
use payments_boilerplate.RateLimit.Bucket as Bucket
use payments_boilerplate.RateLimit.Limiter.{
  Entry, is_stale, keep_front, drop_stale, expire, remove_back, evict, without,
}

-- The entries that an operation keeps are entries of the list, in its order.
pub data Sub : List Entry → List Entry → Type 0 where
  nil : {es : List Entry} → Sub [] es
  keep : {x : Entry} {xs ys : List Entry} → Sub xs ys → Sub (x ∷ xs) (x ∷ ys)
  skip : {x : Entry} {xs ys : List Entry} → Sub xs ys → Sub xs (x ∷ ys)

pub Sub-refl : (xs : List Entry) → Sub xs xs
Sub-refl [] = nil
Sub-refl (x ∷ xs) = keep (Sub-refl xs)

pub Sub-trans : {xs ys zs : List Entry} → Sub xs ys → Sub ys zs → Sub xs zs
Sub-trans nil s = nil
Sub-trans (keep r) (keep s) = keep (Sub-trans r s)
Sub-trans (keep r) (skip s) = skip (Sub-trans (keep r) s)
Sub-trans (skip r) (keep s) = skip (Sub-trans r s)
Sub-trans (skip r) (skip s) = skip (Sub-trans (skip r) s)

abbrev pub Absent : String → List Entry → Type 0
Absent key = All (λ (e : Entry). e.key ≢ key)

abbrev pub Distinct : List Entry → Type 0
Distinct [] = Unit {0}
Distinct (e ∷ es) = Absent e.key es × Distinct es

-- No bucket holds more than a full one.
abbrev pub Capped : Bucket.Policy → List Entry → Type 0
Capped p = All (λ (e : Entry). e.bucket.credit ≤ Bucket.full_credit p)

pub Sub-All : (P : Entry → Type 0) {xs ys : List Entry} → Sub xs ys → All P ys → All P xs
Sub-All P nil h = tt
Sub-All P (keep s) (h, hs) = (h, Sub-All P s hs)
Sub-All P (skip s) (h, hs) = Sub-All P s hs

pub Sub-Distinct : {xs ys : List Entry} → Sub xs ys → Distinct ys → Distinct xs
Sub-Distinct nil h = tt
Sub-Distinct (keep s) (h, hs) = (Sub-All _ s h, Sub-Distinct s hs)
Sub-Distinct (skip s) (h, hs) = Sub-Distinct s hs

pub Sub-length : {xs ys : List Entry} → Sub xs ys → length xs ≤ length ys
Sub-length nil = omega arith
Sub-length (keep s) = omega (arith, Sub-length s)
Sub-length (skip s) = omega (arith, Sub-length s)

keep_front-Sub :
    (stale : Bool) (e : Entry) (xs es : List Entry)
    → Sub xs es
    → Sub (keep_front stale e xs) (e ∷ es)
keep_front-Sub true e [] es s = nil
keep_front-Sub false e [] es s = keep s
keep_front-Sub stale e (x ∷ xs) es s = keep s

if-Sub : (b : Bool) {xs ys zs : List Entry} → Sub xs zs → Sub ys zs → Sub (if b then xs else ys) zs
if-Sub true r s = r
if-Sub false r s = s

drop_stale-Sub : (ttl now : ℕ) (es : List Entry) → Sub (drop_stale ttl now es) es
unfolding drop_stale
drop_stale-Sub ttl now [] = nil
drop_stale-Sub ttl now (e ∷ es) =
    keep_front-Sub (is_stale ttl now e) e _ es (drop_stale-Sub ttl now es)

pub expire-Sub : (ttl now : ℕ) (es : List Entry) → Sub (expire ttl now es) es
unfolding expire
expire-Sub ttl now es = if-Sub (leb ttl 0) (Sub-refl es) (drop_stale-Sub ttl now es)

remove_back-Sub : (es : List Entry) → Sub (remove_back es) es
unfolding remove_back
remove_back-Sub [] = nil
remove_back-Sub (e ∷ []) = nil
remove_back-Sub (e ∷ x ∷ xs) = keep (remove_back-Sub (x ∷ xs))

length-remove_back : (e : Entry) (es : List Entry) → length (remove_back (e ∷ es)) ≡ length es
unfolding remove_back
length-remove_back e [] = refl
length-remove_back e (x ∷ xs) = omega (arith, length-remove_back x xs)

pub evict-Sub : (fuel capacity : ℕ) (es : List Entry) → Sub (evict fuel capacity es) es
unfolding evict
evict-Sub zero capacity es = Sub-refl es
evict-Sub (suc fuel) capacity es =
    if-Sub (leb capacity (length es))
      (Sub-trans (evict-Sub fuel capacity (remove_back es)) (remove_back-Sub es)) (Sub-refl es)

pub without-Sub : (key : String) (es : List Entry) → Sub (without key es) es
unfolding without
without-Sub key [] = nil
without-Sub key (e ∷ es) =
    if-Sub (e.key == key) (skip (without-Sub key es)) (keep (without-Sub key es))

remove_back-shorter : (es : List Entry) → 1 ≤ length es → suc (length (remove_back es)) ≡ length es
remove_back-shorter [] some_entry = omega (arith, some_entry)
remove_back-shorter (e ∷ es) some_entry = omega (arith, length-remove_back e es)

-- Enough turns leave room for one more entry.
pub evict-room :
    (fuel capacity : ℕ) (es : List Entry)
    → 1 ≤ capacity
    → length es ≤ fuel
    → length (evict fuel capacity es) < capacity
unfolding evict
evict-room zero capacity es h enough = omega arith
evict-room (suc fuel) capacity es h enough = elim (Bool-cases (leb capacity (length es))) [
  | inl full ↦ rw full (
      evict-room fuel capacity (remove_back es) h
        (omega (arith, enough, h, leb→le capacity (length es) full, remove_back-shorter es)))
  | inr room ↦ rw room (grind arith)
]
